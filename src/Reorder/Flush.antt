-- ===== src/Reorder/Flush.antt =====
-- src/core/dataplane/udp_reorder.c: the end of the loop of `flow_flush_contiguous`.
use ne_encryptor.Prelude.{
  ℕ, zero, suc, ◌+◌, ◌%◌, ◌≤◌, ◌<◌, ◌≡◌, refl, Bool, true, false, List, [], ◌∷◌, arith, length,
  length-set, Bool-cases, inl, inr,
}
use ne_encryptor.Reorder.{
  Item, Slot, zero_item, Lane, reorder_window, next_slot, is_ready, item_emit, flush_one,
  flush_loop, flow_flush_contiguous,
}
use ne_encryptor.Reorder.Slots.{waiting, waiting-set}

-- How many slots hold an item.
abbrev pub taken : List Slot → ℕ
taken slots = waiting (λ i. 1) slots

pub taken_le : (slots : List Slot) → taken slots ≤ length slots
taken_le [] = omega arith
taken_le (s ∷ slots) = ground (arith, taken_le slots)

pub flush_one-taken :
    (emit_ok : Item → Bool) (l : Lane)
    → length l.slots ≡ reorder_window
    → is_ready l ≡ true
    → (taken (flush_one emit_ok l).slots + 1 ≡ taken l.slots)
      × (length (flush_one emit_ok l).slots ≡ reorder_window)
unfolding flush_one item_emit
flush_one-taken emit_ok l w r =
    let i = l.flow.next_seq % reorder_window in
    let s = record (next_slot l) { item = zero_item; valid = false } in
    ground (arith, length-set l.slots i s, waiting-set (λ i. 1) l.slots i s (omega (arith, w)))

flush_loop_turn :
    (emit_ok : Item → Bool) (fuel : ℕ) (l : Lane) (b : Bool)
    → is_ready l ≡ b
    → flush_loop (suc fuel) emit_ok l
      ≡ (elim b [ true ↦ flush_loop fuel emit_ok (flush_one emit_ok l) | false ↦ l ])
unfolding flush_loop
flush_loop_turn emit_ok fuel l true e = rw e refl
flush_loop_turn emit_ok fuel l false e = rw e refl

flush_loop_ends :
    (emit_ok : Item → Bool) (fuel : ℕ) (l : Lane)
    → length l.slots ≡ reorder_window
    → taken l.slots < fuel
    → is_ready (flush_loop fuel emit_ok l) ≡ false
flush_loop_ends emit_ok zero l w h = elim h [ ]
flush_loop_ends emit_ok (suc fuel) l w h = elim (Bool-cases (is_ready l)) [
  | inl r ↦
      let (less, w') = flush_one-taken emit_ok l w r in
      rw (flush_loop_turn emit_ok fuel l true r)
        (flush_loop_ends emit_ok fuel (flush_one emit_ok l) w' (omega arith))
  | inr r ↦ rw (flush_loop_turn emit_ok fuel l false r) r
]

-- On a window of 256 slots the loop of `flow_flush_contiguous` comes to its end with the fuel that
-- is given: afterwards the slot of the next number does not hold that number.
pub flow_flush_contiguous_ends :
    (emit_ok : Item → Bool) (l : Lane)
    → length l.slots ≡ reorder_window
    → is_ready (flow_flush_contiguous emit_ok l) ≡ false
unfolding flow_flush_contiguous
flow_flush_contiguous_ends emit_ok l w =
    flush_loop_ends emit_ok (reorder_window + 1) l w (omega (arith, taken_le l.slots, w))
