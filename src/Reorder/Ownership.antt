-- ===== src/Reorder/Ownership.antt =====
-- src/core/dataplane/udp_reorder.c, inc/core/dataplane/udp_reorder.h ("Takes ownership of item in
-- every return path: emit, hold, or drop"): where the items of one flow go.
use ne_encryptor.Prelude.{
  ℕ, zero, suc, ◌+◌, ◌%◌, ◌≡◌, inl, inr, refl, Bool, true, false, arith, if◌then◌else◌, not, ◌&&◌,
  ltb, leb, ◌==◌, get_or, length-set, if_intro, Option-cases,
}
use ne_encryptor.Prelude.Int.{pos, ltb_ℤ, eqb_ℤ}
use ne_encryptor.Reorder.{
  Item, Slot, zero_slot, zero_item, Lane, reorder_window, held_cap, item_emit, item_drop, next_slot,
  is_ready, flush_one, flush_loop, flow_flush_contiguous, skip_to, flow_skip_gap,
  flow_smallest_ahead, seq_delta, sub64, u64,
}
use ne_encryptor.Iface.Window.{u32}
use ne_encryptor.Reorder.Submit.{
  is_far, room_loop, jump_window, flow_make_window_room, drop_late, pass_on, drop_overflow,
  fill_slot, hold_item, hold_or_drop, by_delta, submit_ahead, skip_old_gap, submit_lane,
}
use ne_encryptor.Reorder.Slots.{Accounts, Accounts-same, waiting-set, Moves, Moves-trans}

module _ (f : Item → ℕ) (emit_ok : Item → Bool) where
  flush_one-Moves : (l : Lane) → is_ready l ≡ true → Moves f 0 l (flush_one emit_ok l)
  unfolding flush_one
  flush_one-Moves l ready w =
      let i = l.flow.next_seq % reorder_window in
      let s = record (next_slot l) { item = zero_item; valid = false } in
      ground (arith, length-set l.slots i s, waiting-set f l.slots i s (omega (arith, w)))

  flush_loop-Moves : (fuel : ℕ) (l : Lane) → Moves f 0 l (flush_loop fuel emit_ok l)
  unfolding flush_loop
  flush_loop-Moves zero l = λ w. Accounts-same f l l refl refl
  flush_loop-Moves (suc fuel) l =
      if_intro (Moves f 0 l) (is_ready l)
        (λ r.
          Moves-trans f 0 0 0 l (flush_one emit_ok l) _ refl (flush_one-Moves l r)
            (flush_loop-Moves fuel (flush_one emit_ok l)))
        (λ _ w. Accounts-same f l l refl refl)

  flow_flush_contiguous-Moves : (l : Lane) → Moves f 0 l (flow_flush_contiguous emit_ok l)
  unfolding flow_flush_contiguous
  flow_flush_contiguous-Moves l w =
      let a = flush_loop-Moves (reorder_window + 1) l w in
      record { balance = a.balance; same_size = a.same_size }

  skip_to-Moves : (delta seq : ℕ) (l : Lane) → Moves f 0 l (skip_to emit_ok delta seq l)
  unfolding skip_to
  skip_to-Moves delta seq l =
      let jumped = record l {
        flow = record (l.flow) { next_seq = seq };
        stats = record (l.stats) { gap = u64 (l.stats.gap + delta) };
      } in
      let l' = if ltb 0 delta then jumped else l in
      let start : Moves f 0 l l' =
        if_intro (Moves f 0 l) (ltb 0 delta) {x = jumped} {y = l}
          (λ _ w. Accounts-same f l jumped refl refl) (λ _ w. Accounts-same f l l refl refl) in
      let moved : Moves f 0 l (flow_flush_contiguous emit_ok l') =
        Moves-trans f 0 0 0 l l' _ refl start (flow_flush_contiguous-Moves l') in
      if_intro (Moves f 0 l) (ltb 0 (flow_flush_contiguous emit_ok l').flow.held)
        (λ _ w. record { balance = (moved w).balance; same_size = (moved w).same_size })
        (λ _. moved)

  flow_skip_gap-Moves : (l : Lane) → Moves f 0 l (flow_skip_gap emit_ok l)
  unfolding flow_skip_gap
  flow_skip_gap-Moves l = elim (Option-cases (flow_smallest_ahead l)) [
    | inl e ↦ λ w. rw (e, flow_skip_gap) (Accounts-same f l _ refl refl)
    | inr ((delta, seq), e) ↦ λ w. rw (e, flow_skip_gap) (skip_to-Moves delta seq l w)
  ]

  room_loop-Moves : (fuel seq : ℕ) (l : Lane) → Moves f 0 l (room_loop fuel emit_ok seq l)
  unfolding room_loop
  room_loop-Moves zero seq l = λ w. Accounts-same f l l refl refl
  room_loop-Moves (suc fuel) seq l =
      if_intro (Moves f 0 l) (ltb 0 l.flow.held && is_far seq l)
        (λ _.
          Moves-trans f 0 0 0 l (flow_skip_gap emit_ok l) _ refl (flow_skip_gap-Moves l)
            (room_loop-Moves fuel seq (flow_skip_gap emit_ok l)))
        (λ _ w. Accounts-same f l l refl refl)

  jump_window-Moves : (seq : ℕ) (l : Lane) → Moves f 0 l (jump_window seq l)
  unfolding jump_window
  jump_window-Moves seq l =
      if_intro (Moves f 0 l) (is_far seq l) (λ _ w. Accounts-same f l _ refl refl)
        (λ _ w. Accounts-same f l _ refl refl)

  flow_make_window_room-Moves :
      (seq : ℕ) (l : Lane) → Moves f 0 l (flow_make_window_room emit_ok seq l)
  unfolding flow_make_window_room
  flow_make_window_room-Moves seq l =
      Moves-trans f 0 0 0 l _ _ refl (room_loop-Moves (l.flow.held + 1) seq l)
        (jump_window-Moves seq (room_loop (l.flow.held + 1) emit_ok seq l))

  pub skip_old_gap-Moves :
      (hold_ns now : ℕ) (l : Lane) → Moves f 0 l (skip_old_gap emit_ok hold_ns now l)
  unfolding skip_old_gap
  skip_old_gap-Moves hold_ns now l =
      if_intro (Moves f 0 l)
        (ltb 0 l.flow.held
          && (not (l.flow.gap_since_ns == 0) && leb hold_ns (sub64 now l.flow.gap_since_ns)))
        (λ _. flow_skip_gap-Moves l) (λ _ w. Accounts-same f l l refl refl)

  module _ (seq : ℕ) (item : Item) where
    drop_late-Moves : (l : Lane) → Moves f (f item) l (drop_late seq item l)
    unfolding drop_late item_drop
    drop_late-Moves l w = omega arith

    drop_overflow-Moves : (l : Lane) → Moves f (f item) l (drop_overflow seq item l)
    unfolding drop_overflow item_drop
    drop_overflow-Moves l w = omega arith

    pub emit-Moves : (l : Lane) → Moves f (f item) l (item_emit emit_ok seq item false l)
    unfolding item_emit
    emit-Moves l w = ground arith

    pass_on-Moves : (l : Lane) → Moves f (f item) l (pass_on emit_ok seq item l)
    unfolding pass_on
    pass_on-Moves l =
        let ahead = record l { flow = record (l.flow) { next_seq = u32 (l.flow.next_seq + 1) } } in
        Moves-trans f (f item) 0 (f item) l _ _ (omega arith)
          (λ w.
            let a = emit-Moves ahead w in record { balance = a.balance; same_size = a.same_size })
          (flow_flush_contiguous-Moves (item_emit emit_ok seq item false ahead))

    hold_item-Moves : (now : ℕ) (l : Lane) → Moves f (f item) l (hold_item seq item now l)
    unfolding hold_item fill_slot drop_overflow item_drop
    hold_item-Moves now l w =
        let s : Slot = record { item = item; seq = seq; valid = true } in
        let set_lem = waiting-set f l.slots (seq % reorder_window) s (omega (arith, w)) in
        let old = get_or l.slots (seq % reorder_window) zero_slot in
        let size = length-set l.slots (seq % reorder_window) s in
        if_intro (Accounts f (f item) l) old.valid
          (λ full.
            if_intro (Accounts f (f item) l) (old.seq == seq) (λ _. drop_late-Moves l w)
              (λ _. ground (arith, set_lem, size)))
          (λ empty. ground (arith, set_lem, size))

    hold_or_drop-Moves :
        (now : ℕ) (l : Lane) → Moves f (f item) l (hold_or_drop emit_ok seq item now l)
    unfolding hold_or_drop
    hold_or_drop-Moves now l =
        let l' = flow_skip_gap emit_ok l in
        if_intro (Moves f (f item) l) (leb held_cap l.held_by_worker)
          (λ _.
            if_intro (Moves f (f item) l) (leb held_cap l'.held_by_worker)
              (λ _.
                Moves-trans f 0 (f item) (f item) l l' _ (omega arith) (flow_skip_gap-Moves l)
                  (drop_overflow-Moves l'))
              (λ _.
                Moves-trans f 0 (f item) (f item) l l' _ (omega arith) (flow_skip_gap-Moves l)
                  (hold_item-Moves now l')))
          (λ _. hold_item-Moves now l)

    submit_ahead-Moves :
        (now : ℕ) (l : Lane) → Moves f (f item) l (submit_ahead emit_ok seq item now l)
    unfolding submit_ahead by_delta
    submit_ahead-Moves now l =
        let l' = flow_make_window_room emit_ok seq l in
        Moves-trans f 0 (f item) (f item) l l' _ (omega arith) (flow_make_window_room-Moves seq l) (
          if_intro (Moves f (f item) l') (ltb_ℤ (seq_delta seq l'.flow.next_seq) (pos 0))
            (λ _. drop_late-Moves l')
            (λ _.
              if_intro (Moves f (f item) l') (eqb_ℤ (seq_delta seq l'.flow.next_seq) (pos 0))
                (λ _. pass_on-Moves l') (λ _. hold_or_drop-Moves now l')))

    pub submit_lane-Moves :
        (hold_ns now : ℕ) (l : Lane)
        → Moves f (f item) l (submit_lane emit_ok hold_ns seq item now l)
    unfolding submit_lane by_delta
    submit_lane-Moves hold_ns now l =
        let l' = skip_old_gap emit_ok hold_ns now l in
        Moves-trans f 0 (f item) (f item) l l' _ (omega arith) (skip_old_gap-Moves hold_ns now l) (
          if_intro (Moves f (f item) l') (ltb_ℤ (seq_delta seq l'.flow.next_seq) (pos 0))
            (λ _. drop_late-Moves l')
            (λ _.
              if_intro (Moves f (f item) l') (eqb_ℤ (seq_delta seq l'.flow.next_seq) (pos 0))
                (λ _. pass_on-Moves l') (λ _. submit_ahead-Moves now l')))
