-- ===== src/Reorder/Restart.antt =====
-- src/core/dataplane/udp_reorder.c: where the items of a flow go that is started, freed or cleared.
use ne_encryptor.Prelude.{
  ℕ, zero, suc, ◌+◌, ◌≡◌, refl, Bool, arith, ltb, ◌==◌, ◌&&◌, not, if◌then◌else◌, get_or,
  length-set, if_intro,
}
use ne_encryptor.Reorder.{
  Key, Item, zero_slot, Lane, reorder_window, drop_slots, flow_drop_slots, flow_reset, u64, sub64,
}
use ne_encryptor.Reorder.Submit.{skip_old_gap}
use ne_encryptor.Reorder.Slots.{Accounts-same, Moves, Moves-trans, waiting-set}
use ne_encryptor.Reorder.Ownership.{skip_old_gap-Moves}
use ne_encryptor.Reorder.Worker.{use_flow, evict_flow, gc_flow, reset_flow, flow_idle_ns}

module _ (f : Item → ℕ) where
  drop_slots-Moves : (n i : ℕ) (l : Lane) → i + n ≡ reorder_window → Moves f 0 l (drop_slots n i l)
  unfolding drop_slots
  drop_slots-Moves zero i l e = λ w. Accounts-same f l l refl refl
  drop_slots-Moves (suc n) i l e =
      Moves-trans f 0 0 0 l _ _ refl
        (if_intro (Moves f 0 l) (get_or l.slots i zero_slot).valid
          (λ v w. ground (
            arith,
            v,
            length-set l.slots i zero_slot,
            waiting-set f l.slots i zero_slot (omega (arith, w, e)),
          ))
          (λ _ w. Accounts-same f l l refl refl))
        (drop_slots-Moves n (i + 1) _ (omega (arith, e)))

  flow_drop_slots-Moves : (l : Lane) → Moves f 0 l (flow_drop_slots l)
  unfolding flow_drop_slots
  flow_drop_slots-Moves l w =
      let a = drop_slots-Moves reorder_window 0 l refl w in
      record { balance = a.balance; same_size = a.same_size }

  -- What `flow_reset` and `reset_flow` begin with.
  drop_valid-Moves : (l : Lane) → Moves f 0 l (if l.flow.valid then flow_drop_slots l else l)
  drop_valid-Moves l =
      if_intro (Moves f 0 l) l.flow.valid (λ _. flow_drop_slots-Moves l)
        (λ _ w. Accounts-same f l l refl refl)

  flow_reset-Moves :
      (key : Key) (epoch first_seq now : ℕ) (l : Lane)
      → Moves f 0 l (flow_reset key epoch first_seq now l)
  unfolding flow_reset
  flow_reset-Moves key epoch first_seq now l w =
      let a = drop_valid-Moves l w in record { balance = a.balance; same_size = a.same_size }

  pub use_flow-Moves :
      (key : Key) (epoch first_seq now : ℕ) (l : Lane)
      → Moves f 0 l (use_flow key epoch first_seq now l)
  unfolding use_flow
  use_flow-Moves key epoch first_seq now l w =
      let a : Moves f 0 l
          (if l.flow.epoch == epoch then l else flow_reset key epoch first_seq now l) =
        if_intro (Moves f 0 l) (l.flow.epoch == epoch) (λ _ w. Accounts-same f l l refl refl)
          (λ _. flow_reset-Moves key epoch first_seq now l) in
      record { balance = (a w).balance; same_size = (a w).same_size }

  pub evict_flow-Moves :
      (key : Key) (epoch first_seq now : ℕ) (l : Lane)
      → Moves f 0 l (evict_flow key epoch first_seq now l)
  unfolding evict_flow
  evict_flow-Moves key epoch first_seq now l =
      let counted = record l { stats = record (l.stats) { evicted = u64 (l.stats.evicted + 1) } } in
      let l' = if l.flow.valid then counted else l in
      let a : Moves f 0 l l' =
        if_intro (Moves f 0 l) l.flow.valid {x = counted} {y = l}
          (λ _ w. Accounts-same f l counted refl refl) (λ _ w. Accounts-same f l l refl refl) in
      Moves-trans f 0 0 0 l l' _ refl a (flow_reset-Moves key epoch first_seq now l')

  module _ (emit_ok : Item → Bool) (hold_ns now : ℕ) where
    pub gc_flow-Moves : (l : Lane) → Moves f 0 l (gc_flow emit_ok hold_ns now l)
    unfolding gc_flow
    gc_flow-Moves l =
        let l' = skip_old_gap emit_ok hold_ns now l in
        let a = skip_old_gap-Moves f emit_ok hold_ns now l in
        if_intro (Moves f 0 l) (not l.flow.valid) (λ _ w. Accounts-same f l l refl refl)
          (λ _.
            if_intro (Moves f 0 l)
              (l'.flow.held == 0 && ltb flow_idle_ns (sub64 now l'.flow.last_seen_ns))
              (λ _ w. record { balance = (a w).balance; same_size = (a w).same_size }) (λ _. a))

  pub reset_flow-Moves : (l : Lane) → Moves f 0 l (reset_flow l)
  unfolding reset_flow
  reset_flow-Moves l w =
      let a = drop_valid-Moves l w in record { balance = a.balance; same_size = a.same_size }
