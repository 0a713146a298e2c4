-- ===== src/Iface/Ring/Queue.antt =====
-- src/core/iface/xdp_interface.c: a ring, beside a bounded queue.
use mathlib.Core.Path.{ap₂}
use ne_encryptor.Prelude.{
  ℕ, zero, suc, ◌+◌, ◌%◌, ◌≤◌, ◌<◌, ◌≡◌, refl, ap, ◌∙◌, bit_and, Bool, true, false, Option, none,
  some, List, [], ◌∷◌, ◌++◌, arith, ltb, leb, ◌==◌, if◌then◌else◌, length, get_or, length-append,
  dec_lt,
}
use ne_encryptor.Iface.Window.{u32, sub32, window, length-window, window-cong, window-set}
use ne_encryptor.Iface.Ring.{Packet, zero_packet, Ring, try_push, try_push_pair, try_pop}
use ne_encryptor.Iface.Ring.Shape.{
  IsValid, slot_lem, slot-u32, cap_bounds, try_push-IsValid, try_pop-IsValid,
}

-- What a thread asks of a ring, and what it sees.
pub data Op : Type 0 where
  push : Packet → Op
  push_pair : Packet → Packet → Op
  pop : Op

pub data Reply : Type 0 where
  done : Bool → Reply
  got : Option Packet → Reply

unfoldable pub step_ring : Ring → Op → Ring × Reply
step_ring r (push x) = let (r', ok) = try_push r x in (r', done ok)
step_ring r (push_pair x y) = let (r', ok) = try_push_pair r x y in (r', done ok)
step_ring r pop = let (r', out) = try_pop r in (r', got out)

unfoldable pub run_ring : Ring → List Op → List Reply
run_ring r [] = []
run_ring r (op ∷ ops) = let (r', reply) = step_ring r op in reply ∷ run_ring r' ops

-- The specification: a queue of at most `cap` packets, oldest first.
unfoldable pub step_queue : ℕ → List Packet → Op → List Packet × Reply
step_queue cap q (push x) = if ltb (length q) cap then (q ++ x ∷ [], done true) else (q, done false)
step_queue cap q (push_pair x y) =
    if leb (length q + 2) cap then ((q ++ x ∷ []) ++ y ∷ [], done true) else (q, done false)
step_queue cap [] pop = ([], got none)
step_queue cap (x ∷ q) pop = (q, got (some x))

unfoldable pub run_queue : ℕ → List Packet → List Op → List Reply
run_queue cap q [] = []
run_queue cap q (op ∷ ops) = let (q', reply) = step_queue cap q op in reply ∷ run_queue cap q' ops

-- The packets in a ring, oldest first.
abbrev pub contents : Ring → List Packet
contents r = window zero_packet r.cap r.buf r.tail (sub32 r.head r.tail)

module _ (r : Ring) (v : IsValid r) where
  push_room :
      (x : Packet)
      → sub32 r.head r.tail < r.cap
      → (contents (try_push r x).0 ≡ contents r ++ x ∷ []) × ((try_push r x).1 ≡ true)
  unfolding try_push
  push_room x h =
      let n = sub32 r.head r.tail in
      let full : leb r.cap n ≡ false = ground arith in
      let at : bit_and r.head r.mask ≡ (r.tail + n) % r.cap =
        slot_lem r v r.head
        ∙ ap (λ p. p % r.cap) (omega (arith, v.head_in, v.tail_in))
        ∙ slot-u32 r v (r.tail + n) in
      let more : sub32 (u32 (r.head + 1)) r.tail ≡ suc n =
        omega (arith, v.head_in, v.tail_in, cap_bounds r v) in
      rw (full, at, more)
        (window-set zero_packet r.cap r.buf r.tail n x (omega (arith, v.storage)) h, refl)

  push_full : (x : Packet) → r.cap ≤ sub32 r.head r.tail → try_push r x ≡ (r, false)
  unfolding try_push
  push_full x h = ground arith

  -- A pair that fits is two pushes.
  pair_room :
      (x y : Packet)
      → sub32 r.head r.tail + 2 ≤ r.cap
      → try_push_pair r x y ≡ try_push (try_push r x).0 y
  unfolding try_push try_push_pair
  pair_room x y h =
      let fits : ltb (sub32 r.cap 2) (sub32 r.head r.tail) ≡ false =
        ground (arith, cap_bounds r v) in
      let first : leb r.cap (sub32 r.head r.tail) ≡ false = ground arith in
      let second : leb r.cap (sub32 (u32 (r.head + 1)) r.tail) ≡ false =
        ground (arith, v.head_in, v.tail_in, cap_bounds r v) in
      let twice : u32 (u32 (r.head + 1) + 1) ≡ u32 (r.head + 2) = omega arith in
      rw (fits, first, second, twice)

  pair_full :
      (x y : Packet)
      → 2 ≤ r.cap
      → r.cap < sub32 r.head r.tail + 2
      → try_push_pair r x y ≡ (r, false)
  unfolding try_push_pair
  pair_full x y h k = ground (arith, cap_bounds r v)

  pop_some :
      (n : ℕ)
      → sub32 r.head r.tail ≡ suc n
      → (contents (try_pop r).0 ≡ window zero_packet r.cap r.buf (r.tail + 1) n)
        × ((try_pop r).1 ≡ some (get_or r.buf (r.tail % r.cap) zero_packet))
  unfolding try_pop
  pop_some n e =
      let differ : (r.tail == r.head) ≡ false = ground (arith, v.head_in, v.tail_in) in
      let less : sub32 r.head (u32 (r.tail + 1)) ≡ n =
        omega (arith, e, v.head_in, v.tail_in, v.filled, cap_bounds r v) in
      rw (differ, less, slot_lem r v r.tail)
        (
          window-cong zero_packet r.cap r.buf (u32 (r.tail + 1)) (r.tail + 1) n
              (slot-u32 r v (r.tail + 1)),
          refl,
        )

  pop_empty : sub32 r.head r.tail ≡ 0 → try_pop r ≡ (r, none)
  unfolding try_pop
  pop_empty e = ground (arith, v.head_in, v.tail_in)

length-contents : (r : Ring) → length (contents r) ≡ sub32 r.head r.tail
length-contents r = length-window zero_packet r.cap r.buf r.tail (sub32 r.head r.tail)

-- What a call does to a valid ring, as the queue sees it.
abbrev Agrees : ℕ → List Packet → Op → Ring × Reply → Type 0
Agrees cap q op (r', reply) =
    (reply ≡ (step_queue cap q op).1)
    × (contents r' ≡ (step_queue cap q op).0)
    × IsValid r'
    × (r'.cap ≡ cap)

cap-try_push : (r : Ring) (x : Packet) → (try_push r x).0.cap ≡ r.cap
unfolding try_push
cap-try_push r x = ground arith

cap-try_pop : (r : Ring) → (try_pop r).0.cap ≡ r.cap
unfolding try_pop
cap-try_pop r = ground arith

module _ (r : Ring) (v : IsValid r) where
  push-Agrees : (x : Packet) → Agrees r.cap (contents r) (push x) (step_ring r (push x))
  unfolding step_ring step_queue
  push-Agrees x = elim (dec_lt (sub32 r.head r.tail) r.cap) [
    | yes h ↦
        let (now, ok) = push_room r v x h in
        let room : ltb (length (contents r)) r.cap ≡ true = ground (arith, length-contents r) in
        rw (room) (ap done ok, now, try_push-IsValid r v x, cap-try_push r x)
    | no h ↦
        let room : ltb (length (contents r)) r.cap ≡ false = ground (arith, length-contents r) in
        rw (room, push_full r v x (omega arith)) (refl, refl, v, refl)
  ]

  pair-Agrees :
      (x y : Packet)
      → 2 ≤ r.cap
      → Agrees r.cap (contents r) (push_pair x y) (step_ring r (push_pair x y))
  unfolding step_ring step_queue
  pair-Agrees x y two = elim (dec_lt r.cap (sub32 r.head r.tail + 2)) [
    | yes h ↦
        let room : leb (length (contents r) + 2) r.cap ≡ false =
          ground (arith, length-contents r) in
        rw (room, pair_full r v x y two (omega arith)) (refl, refl, v, refl)
    | no h ↦
        let (now, _) = push_room r v x (omega arith) in
        let r' = (try_push r x).0 in
        let v' = try_push-IsValid r v x in
        let grown : sub32 r'.head r'.tail ≡ suc (sub32 r.head r.tail) = omega (
          arith,
          length-contents r,
          length-contents r',
          ap length now,
          length-append (contents r) (x ∷ []),
        ) in
        let (then_, ok) = push_room r' v' y (omega (arith, cap-try_push r x, grown)) in
        let room : leb (length (contents r) + 2) r.cap ≡ true = ground (arith, length-contents r) in
        rw (room, pair_room r v x y (omega arith))
          (
            ap done ok,
            then_ ∙ ap (λ q. q ++ y ∷ []) now,
            try_push-IsValid r' v' y,
            cap-try_push r' y ∙ cap-try_push r x,
          )
  ]

  pop-Agrees : (n : ℕ) → sub32 r.head r.tail ≡ n → Agrees r.cap (contents r) pop (step_ring r pop)
  unfolding step_ring step_queue
  pop-Agrees zero e =
      rw (e, pop_empty r v e) (refl, ap (λ n. window zero_packet r.cap r.buf r.tail n) e, v, refl)
  pop-Agrees (suc n) e =
      let (now, out) = pop_some r v n e in
      rw e (ap got out, now, try_pop-IsValid r v, cap-try_pop r)

  pub step_ring-Agrees : (op : Op) → 2 ≤ r.cap → Agrees r.cap (contents r) op (step_ring r op)
  step_ring-Agrees (push x) two = push-Agrees x
  step_ring-Agrees (push_pair x y) two = pair-Agrees x y two
  step_ring-Agrees pop two = pop-Agrees (sub32 r.head r.tail) refl

-- No sequence of pushes, pairs and pops tells a valid ring of two slots or more from the queue
-- of its packets, bounded by its capacity: a push that finds no room changes nothing, a pair
-- enters whole or not at all, and packets leave in the order in which they came.
pub run_ring-run_queue :
    (ops : List Op) (r : Ring)
    → IsValid r
    → 2 ≤ r.cap
    → run_ring r ops ≡ run_queue r.cap (contents r) ops
unfolding run_ring run_queue
run_ring-run_queue [] r v two = refl
run_ring-run_queue (op ∷ ops) r v two =
    let (reply, now, v', cap) = step_ring-Agrees r v op two in
    ap₂ ◌∷◌ reply (
      run_ring-run_queue ops (step_ring r op).0 v' (omega arith)
      ∙ ap₂ (λ c q. run_queue c q ops) cap now)
