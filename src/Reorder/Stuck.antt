-- ===== src/Reorder/Stuck.antt =====
-- src/core/dataplane/udp_reorder.c: the loop of `flow_make_window_room` on a window in which every
-- held item is behind the next number.
use ne_encryptor.Prelude.{ℕ, zero, suc, ◌≡◌, refl, Bool, true, none, ltb, ◌&&◌}
use ne_encryptor.Reorder.{Item, Lane, flow_skip_gap, flow_smallest_ahead}
use ne_encryptor.Reorder.Submit.{is_far, room_loop}

-- The condition of the loop.
abbrev pub is_blocked : ℕ → Lane → Bool
is_blocked seq l = ltb 0 l.flow.held && is_far seq l

flow_skip_gap_stuck :
    (emit_ok : Item → Bool) (l : Lane)
    → flow_smallest_ahead l ≡ none
    → flow_skip_gap emit_ok l ≡ record l { flow = record (l.flow) { gap_since_ns = 0 } }
unfolding flow_skip_gap
flow_skip_gap_stuck emit_ok l e = rw (e, flow_skip_gap) refl

room_loop_turn :
    (emit_ok : Item → Bool) (seq fuel : ℕ) (l : Lane)
    → is_blocked seq l ≡ true
    → room_loop (suc fuel) emit_ok seq l ≡ room_loop fuel emit_ok seq (flow_skip_gap emit_ok l)
unfolding room_loop
room_loop_turn emit_ok seq fuel l b = rw b refl

-- If no held item is at or ahead of the next number, and the loop of `flow_make_window_room` is
-- entered, then its condition still holds after any number of rounds: the loop never ends.
pub room_loop_stuck :
    (emit_ok : Item → Bool) (seq fuel : ℕ) (l : Lane)
    → flow_smallest_ahead l ≡ none
    → is_blocked seq l ≡ true
    → is_blocked seq (room_loop fuel emit_ok seq l) ≡ true
unfolding room_loop flow_smallest_ahead
room_loop_stuck emit_ok seq zero l e b = b
room_loop_stuck emit_ok seq (suc fuel) l e b =
    let next = record l { flow = record (l.flow) { gap_since_ns = 0 } } in
    rw (room_loop_turn emit_ok seq fuel l b, flow_skip_gap_stuck emit_ok l e)
      (room_loop_stuck emit_ok seq fuel next e b)
