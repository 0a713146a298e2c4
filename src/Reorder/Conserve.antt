-- ===== src/Reorder/Conserve.antt =====
-- src/core/dataplane/udp_reorder.c: where the items of all flows of a worker go.
use ne_encryptor.Prelude.{
  ℕ, zero, suc, ◌+◌, ◌%◌, ◌≤◌, ◌<◌, ◌≡◌, refl, sym, ap, ◌∙◌, Bool, false, List, [], ◌∷◌, arith, ltb,
  ◌&&◌, not, if◌then◌else◌, length, get_or, set, length-set, if_intro, bit_and_mask,
  get_or-set_self, get_or-set_ne, ℕ_discrete,
}
use native.Mathlib.Nat.{mod-lt}
use ne_encryptor.Prelude.Int.{ℤ, pos, ltb_ℤ}
use ne_encryptor.Reorder.{Key, Item, Slot, Lane, reorder_window, item_emit}
use ne_encryptor.Reorder.Submit.{submit_lane}
use ne_encryptor.Reorder.Slots.{Moves, waiting, sent}
use ne_encryptor.Reorder.Ownership.{submit_lane-Moves}
use ne_encryptor.Reorder.Restart.{use_flow-Moves, evict_flow-Moves, gc_flow-Moves, reset_flow-Moves}
use ne_encryptor.Reorder.Worker.{
  Worker, Place, hit, replace, lane, put_lane, flow_at, find_place, flow_base, key_hash, key_equal,
  use_flow, evict_flow, flow_lookup, submit, gc_flow, gc_loop, gc, reset_flow, reset_loop,
  reset_worker, flow_cap, gc_slice, crypto_workers, reorder_ways,
}

-- 512 windows of 256 slots each.
pub record IsSized (w : Worker) : Type 0 where
  pub windows_in : length w.windows ≡ flow_cap
  pub slots_in : (i : ℕ) → i < flow_cap → length (get_or w.windows i []) ≡ reorder_window

module _ (f : Item → ℕ) where
  -- The weight of the items in all windows.
  abbrev pub waiting_all : List (List Slot) → ℕ
  waiting_all [] = 0
  waiting_all (slots ∷ windows) = waiting f slots + waiting_all windows

  -- The weight of all that a worker holds or has disposed of.
  abbrev pub stock : Worker → ℕ
  stock w = waiting_all w.windows + sent f w.out

  waiting_all-set :
      (windows : List (List Slot)) (i : ℕ) (slots : List Slot)
      → i < length windows
      → waiting_all (set windows i slots) + waiting f (get_or windows i [])
        ≡ waiting_all windows + waiting f slots
  waiting_all-set [] i slots h = elim h [ ]
  waiting_all-set (x ∷ windows) zero slots h = omega arith
  waiting_all-set (x ∷ windows) (suc i) slots h =
      omega (arith, waiting_all-set windows i slots (omega arith))

  -- From `w` to `w'` an amount `n` came in, and nothing was lost or made up.
  pub record Keeps (n : ℕ) (w w' : Worker) : Type 0 where
    pub balance : stock w' ≡ stock w + n
    pub sized : IsSized w'

  pub Keeps-trans :
      (m n k : ℕ) (w w' w'' : Worker)
      → m + n ≡ k
      → Keeps m w w'
      → (IsSized w' → Keeps n w' w'')
      → Keeps k w w''
  Keeps-trans m n k w w' w'' e a b =
      let c = b a.sized in
      record { balance = omega (arith, e, a.balance, c.balance); sized = c.sized }

  pub Keeps-refl : (w : Worker) → IsSized w → Keeps 0 w w
  Keeps-refl w h = record { balance = omega arith; sized = h }

  put_lane-Keeps :
      (n idx : ℕ) (l : Lane) (w : Worker)
      → IsSized w
      → idx < flow_cap
      → Moves f n (lane w idx) l
      → Keeps n w (put_lane idx l w)
  unfolding put_lane
  put_lane-Keeps n idx l w h lt moves =
      let a = moves (h.slots_in idx lt) in
      record {
        balance = omega (
          arith,
          a.balance,
          waiting_all-set w.windows idx l.slots (omega (arith, lt, h.windows_in)),
        );
        sized = record {
          windows_in = length-set w.windows idx l.slots ∙ h.windows_in;
          slots_in = λ i lt'. elim (ℕ_discrete idx i) [
            | yes same ↦
                ap length (
                  ap (λ j. get_or (set w.windows idx l.slots) j []) (sym same)
                  ∙ get_or-set_self w.windows idx l.slots [] (omega (arith, lt, h.windows_in)))
                ∙ a.same_size
                ∙ h.slots_in idx lt
            | no other ↦
                ap length (get_or-set_ne w.windows idx i l.slots [] other) ∙ h.slots_in i lt'
          ];
        };
      }

  place_index : Place → ℕ
  place_index (hit idx) = idx
  place_index (replace idx) = idx

  find_place_below :
      (n idx victim : ℕ) (key : Key) (w : Worker)
      → idx + n ≤ flow_cap
      → victim < flow_cap
      → place_index (find_place n idx victim key w) < flow_cap
  unfolding find_place place_index
  find_place_below zero idx victim key w h v = v
  find_place_below (suc n) idx victim key w h v =
      let here : idx < flow_cap = omega (arith, h) in
      let older = if ltb (flow_at w idx).stamp (flow_at w victim).stamp then idx else victim in
      let older_below : older < flow_cap =
        if_intro (λ i. i < flow_cap) (ltb (flow_at w idx).stamp (flow_at w victim).stamp) {x = idx}
          {y = victim} (λ _. here) (λ _. v) in
      if_intro (λ p. place_index p < flow_cap)
        ((flow_at w idx).valid && key_equal (flow_at w idx).key key) (λ _. here)
        (λ _.
          if_intro (λ p. place_index p < flow_cap) (not (flow_at w idx).valid) (λ _. here)
            (λ _. find_place_below n (idx + 1) older key w (omega (arith, h)) older_below))

  -- The four ways of a set lie among the 512 flows.
  flow_base_below : (key : Key) → flow_base key + reorder_ways ≤ flow_cap
  unfolding flow_base
  flow_base_below key =
      let r : key_hash key % 128 < 128 = mod-lt (key_hash key) (omega arith) in
      omega (arith, bit_and_mask 7 (key_hash key), r)

  module _ (key : Key) (epoch first_seq now : ℕ) (w : Worker) (h : IsSized w) where
    flow_lookup-Keeps :
        ((flow_lookup key epoch first_seq now w).0 < flow_cap)
        × Keeps 0 w ((flow_lookup key epoch first_seq now w).1)
    unfolding flow_lookup place_index
    flow_lookup-Keeps =
        let p = find_place reorder_ways (flow_base key) (flow_base key) key w in
        let below = flow_base_below key in
        let lt : place_index p < flow_cap =
          find_place_below reorder_ways (flow_base key) (flow_base key) key w below
            (omega (arith, below)) in
        go p lt
      where
        go :
            (p : Place)
            → place_index p < flow_cap
            → ((elim p as (λ _. ℕ × Worker) [
              | hit idx ↦ (idx, put_lane idx (use_flow key epoch first_seq now (lane w idx)) w)
              | replace idx ↦
                  (idx, put_lane idx (evict_flow key epoch first_seq now (lane w idx)) w)
            ]).0
                < flow_cap)
              × Keeps 0 w (
                  (elim p as (λ _. ℕ × Worker) [
                    | hit idx ↦
                        (idx, put_lane idx (use_flow key epoch first_seq now (lane w idx)) w)
                    | replace idx ↦
                        (idx, put_lane idx (evict_flow key epoch first_seq now (lane w idx)) w)
                  ]).1)
        go (hit idx) lt = (
          lt,
          put_lane-Keeps 0 idx _ w h lt (use_flow-Moves f key epoch first_seq now (lane w idx)),
        )
        go (replace idx) lt = (
          lt,
          put_lane-Keeps 0 idx _ w h lt (evict_flow-Moves f key epoch first_seq now (lane w idx)),
        )

  pub submit-Keeps :
      (emit_ok : Item → Bool) (enabled : Bool) (hold_ns : ℕ) (worker_idx : ℤ) (key : Key)
      (epoch seq : ℕ) (item : Item) (now : ℕ) (w : Worker)
      → IsSized w
      → Keeps (f item) w (submit emit_ok enabled hold_ns worker_idx key epoch seq item now w)
  unfolding submit item_emit
  submit-Keeps emit_ok enabled hold_ns worker_idx key epoch seq item now w h =
      let found = flow_lookup key epoch seq now w in
      let direct = record w { out = (item_emit emit_ok seq item false (lane w 0)).out } in
      let direct-Keeps : Keeps (f item) w direct = record {
        balance = ground arith;
        sized = record { windows_in = h.windows_in; slots_in = h.slots_in };
      } in
      let l = lane (found.1) (found.0) in
      let held-Keeps : Keeps (f item) w
          (put_lane (found.0) (submit_lane emit_ok hold_ns seq item now l) (found.1)) =
        let (lt, kept) = flow_lookup-Keeps key epoch seq now w h in
        Keeps-trans 0 (f item) (f item) w (found.1) _ (omega arith) kept (λ h'.
          put_lane-Keeps (f item) (found.0) _ (found.1) h' lt
            (submit_lane-Moves f emit_ok seq item hold_ns now l)) in
      if_intro (Keeps (f item) w) (ltb_ℤ worker_idx (pos 0)) (λ _. direct-Keeps)
        (λ _.
          if_intro (Keeps (f item) w) (not (ltb_ℤ worker_idx crypto_workers)) (λ _. direct-Keeps)
            (λ _. if_intro (Keeps (f item) w) (not enabled) (λ _. direct-Keeps) (λ _. held-Keeps)))

  gc_loop-Keeps :
      (n : ℕ) (emit_ok : Item → Bool) (hold_ns now idx : ℕ) (w : Worker)
      → IsSized w
      → Keeps 0 w (gc_loop n emit_ok hold_ns now idx w)
  unfolding gc_loop
  gc_loop-Keeps zero emit_ok hold_ns now idx w h = Keeps-refl w h
  gc_loop-Keeps (suc n) emit_ok hold_ns now idx w h =
      let i = idx % flow_cap in
      let w' = put_lane i (gc_flow emit_ok hold_ns now (lane w i)) w in
      Keeps-trans 0 0 0 w w' _ refl
        (put_lane-Keeps 0 i _ w h (mod-lt idx (omega arith))
          (gc_flow-Moves f emit_ok hold_ns now (lane w i)))
        (gc_loop-Keeps n emit_ok hold_ns now (idx + 1) w')

  reset_loop-Keeps :
      (n idx : ℕ) (w : Worker) → idx + n ≤ flow_cap → IsSized w → Keeps 0 w (reset_loop n idx w)
  unfolding reset_loop
  reset_loop-Keeps zero idx w le h = Keeps-refl w h
  reset_loop-Keeps (suc n) idx w le h =
      let w' = put_lane idx (reset_flow (lane w idx)) w in
      Keeps-trans 0 0 0 w w' _ refl
        (put_lane-Keeps 0 idx _ w h (omega (arith, le)) (reset_flow-Moves f (lane w idx)))
        (reset_loop-Keeps n (idx + 1) w' (omega (arith, le)))

  pub gc-Keeps :
      (emit_ok : Item → Bool) (hold_ns now : ℕ) (w : Worker)
      → IsSized w
      → Keeps 0 w (gc emit_ok hold_ns now w)
  unfolding gc
  gc-Keeps emit_ok hold_ns now w h =
      let a = gc_loop-Keeps gc_slice emit_ok hold_ns now w.gc_cursor w h in
      record {
        balance = a.balance;
        sized = record { windows_in = a.sized.windows_in; slots_in = a.sized.slots_in };
      }

  pub reset_worker-Keeps : (w : Worker) → IsSized w → Keeps 0 w (reset_worker w)
  unfolding reset_worker
  reset_worker-Keeps w h =
      let a = reset_loop-Keeps flow_cap 0 w (omega arith) h in
      record {
        balance = a.balance;
        sized = record { windows_in = a.sized.windows_in; slots_in = a.sized.slots_in };
      }
