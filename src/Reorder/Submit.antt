-- ===== src/Reorder/Submit.antt =====
-- src/core/dataplane/udp_reorder.c: `dp_udp_reorder_submit` on the flow that the lookup found.
use ne_encryptor.Prelude.{
  ℕ, zero, suc, ◌+◌, ◌-◌, ◌%◌, ◌^◌, Bool, true, false, ltb, leb, ◌==◌, ◌&&◌, not, if◌then◌else◌,
  get_or, set,
}
use ne_encryptor.Prelude.Int.{pos, ltb_ℤ, eqb_ℤ}
use ne_encryptor.Iface.Window.{u32, sub32}
use ne_encryptor.Reorder.{
  Item, zero_slot, Lane, seq_delta, sub64, u64, reorder_window, held_cap, item_drop, item_emit,
  flow_flush_contiguous, flow_skip_gap,
}

abbrev pub is_far : ℕ → Lane → Bool
is_far seq l = not (ltb_ℤ (seq_delta seq l.flow.next_seq) (pos reorder_window))

-- The loop of `flow_make_window_room`, with the held count and one as fuel: a round that finds an
-- item ahead sends it off. A round that finds none changes nothing the condition reads (the module
-- `Reorder.Stuck`): there the code does not return, and the model does, with the fuel used up.
unfoldable pub room_loop : ℕ → (Item → Bool) → ℕ → Lane → Lane
room_loop zero emit_ok seq l = l
room_loop (suc fuel) emit_ok seq l =
    let rest = room_loop fuel emit_ok seq (flow_skip_gap emit_ok l) in
    if ltb 0 l.flow.held && is_far seq l then rest else l

-- What follows the loop: the window jumps so that `seq` is its last number. The distance is cast
-- to `uint32_t`.
unfoldable pub jump_window : ℕ → Lane → Lane
jump_window seq l =
    let target = sub32 seq (reorder_window - 1) in
    if is_far seq l
    then record l {
      flow = record (l.flow) { next_seq = target };
      stats = record (l.stats) { gap = u64 (l.stats.gap + sub32 target l.flow.next_seq) };
    }
    else l

unfoldable pub flow_make_window_room : (Item → Bool) → ℕ → Lane → Lane
flow_make_window_room emit_ok seq l = jump_window seq (room_loop (l.flow.held + 1) emit_ok seq l)

-- `dp_udp_reorder_submit` counts and drops a number that is behind the window.
unfoldable pub drop_late : ℕ → Item → Lane → Lane
drop_late seq item l =
    item_drop seq item (record l { stats = record (l.stats) { late = u64 (l.stats.late + 1) } })

-- The next number goes out at once, and whatever was waiting for it.
unfoldable pub pass_on : (Item → Bool) → ℕ → Item → Lane → Lane
pass_on emit_ok seq item l = flow_flush_contiguous emit_ok (
    item_emit emit_ok seq item false
      (record l { flow = record (l.flow) { next_seq = u32 (l.flow.next_seq + 1) } }))

unfoldable pub drop_overflow : ℕ → Item → Lane → Lane
drop_overflow seq item l =
    item_drop seq item
      (record l { stats = record (l.stats) { overflow = u64 (l.stats.overflow + 1) } })

-- The item takes its slot.
unfoldable pub fill_slot : ℕ → Item → ℕ → Lane → Lane
fill_slot seq item now_ns l = record l {
  slots = set l.slots (seq % reorder_window) (record { item = item; seq = seq; valid = true });
  flow = record (l.flow) {
    gap_since_ns = if l.flow.gap_since_ns == 0 then now_ns else l.flow.gap_since_ns;
  };
  stats = record (l.stats) {
    held = u64 (l.stats.held + 1);
    high_water =
        (if ltb l.stats.high_water l.held_by_worker then l.held_by_worker else l.stats.high_water);
  };
}

-- The end of `dp_udp_reorder_submit`: a slot that is taken holds the same number, or gives way.
unfoldable pub hold_item : ℕ → Item → ℕ → Lane → Lane
hold_item seq item now_ns l =
    let s = get_or l.slots (seq % reorder_window) zero_slot in
    if s.valid
    then if s.seq == seq
      then drop_late seq item l
      else fill_slot seq item now_ns (drop_overflow s.seq s.item l)
    else fill_slot seq item now_ns (record l {
      flow = record (l.flow) { held = (l.flow.held + 1) % 2 ^ 16 };
      held_by_worker = u32 (l.held_by_worker + 1);
    })

-- With the worker's store full, a skip makes room, or else the item is dropped.
unfoldable pub hold_or_drop : (Item → Bool) → ℕ → Item → ℕ → Lane → Lane
hold_or_drop emit_ok seq item now_ns l =
    let l' = flow_skip_gap emit_ok l in
    if leb held_cap l.held_by_worker
    then if leb held_cap l'.held_by_worker
      then drop_overflow seq item l'
      else hold_item seq item now_ns l'
    else hold_item seq item now_ns l

-- By the distance from the next number: behind, next, or ahead.
unfoldable pub by_delta {ℓ} : {A : Type ℓ} → ℕ → Lane → A → A → A → A
by_delta seq l late next ahead =
    if ltb_ℤ (seq_delta seq l.flow.next_seq) (pos 0)
    then late
    else if eqb_ℤ (seq_delta seq l.flow.next_seq) (pos 0)
    then next
    else ahead

unfoldable pub submit_ahead : (Item → Bool) → ℕ → Item → ℕ → Lane → Lane
submit_ahead emit_ok seq item now_ns l =
    let l' = flow_make_window_room emit_ok seq l in
    by_delta seq l' (drop_late seq item l') (pass_on emit_ok seq item l')
      (hold_or_drop emit_ok seq item now_ns l')

-- A gap that has been open for `hold_ns` is given up first.
unfoldable pub skip_old_gap : (Item → Bool) → ℕ → ℕ → Lane → Lane
skip_old_gap emit_ok hold_ns now_ns l =
    if ltb 0 l.flow.held
      && (not (l.flow.gap_since_ns == 0) && leb hold_ns (sub64 now_ns l.flow.gap_since_ns))
    then flow_skip_gap emit_ok l
    else l

unfoldable pub submit_lane : (Item → Bool) → ℕ → ℕ → Item → ℕ → Lane → Lane
submit_lane emit_ok hold_ns seq item now_ns l =
    let l' = skip_old_gap emit_ok hold_ns now_ns l in
    by_delta seq l' (drop_late seq item l') (pass_on emit_ok seq item l')
      (submit_ahead emit_ok seq item now_ns l')
