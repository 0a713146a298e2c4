-- ===== src/Reorder/Tests.antt =====
-- src/core/dataplane/udp_reorder.c: a window whose worker has its store full.
use ne_encryptor.Prelude.{
  ℕ, ◌+◌, ◌≡◌, refl, Bool, true, false, List, [], ◌∷◌, replicate, set, get_or,
}
use ne_encryptor.Prelude.Int.{pos}
use ne_encryptor.Iface.Ring.{zero_packet}
use ne_encryptor.Reorder.{
  Item, zero_item, zero_slot, Lane, emitted, seq_delta, item_emit, flush_one, flush_loop, is_ready,
  flow_flush_contiguous, nearest, flow_smallest_ahead, skip_to, flow_skip_gap,
}
use ne_encryptor.Reorder.Submit.{
  room_loop, jump_window, flow_make_window_room, fill_slot, hold_item, hold_or_drop, by_delta,
  submit_ahead, skip_old_gap, submit_lane,
}
use ne_encryptor.Reorder.Slots.{sent}
use ne_encryptor.Reorder.Conserve.{waiting_all}
use ne_encryptor.Reorder.Life.{Call, offer, collect, restart, run, zero_worker, run_accounts}
use ne_encryptor.Reorder.Flush.{flow_flush_contiguous_ends}
use ne_encryptor.Reorder.Stuck.{is_blocked, room_loop_stuck}

abbrev item : ℕ → Item
item a = record zero_item { packet = record zero_packet { addr = a } }

-- Number 10 waits while 0 is next, and other flows hold the rest of the 8192 items.
abbrev full_store : Lane
full_store = record {
  flow = record {
    key = record { src_ip = 1; dst_ip = 2; src_port = 3; dst_port = 4 };
    epoch = 0;
    next_seq = 0;
    gap_since_ns = 1;
    last_seen_ns = 7;
    stamp = 1;
    held = 1;
    valid = true;
  };
  slots = set (replicate 256 zero_slot) 10 (record { item = item 10; seq = 10; valid = true });
  held_by_worker = 8192;
  clock = 1;
  stats = record {
    held = 1;
    released = 0;
    late = 0;
    gap = 0;
    overflow = 0;
    evicted = 0;
    high_water = 8192;
  };
  out = [];
}

abbrev always : Item → Bool
always i = true

abbrev after_five : Lane
after_five = submit_lane always 2000000 5 (item 5) 8 full_store

-- The skip sends 10 off, and then 5 takes a slot although 11 is next.
after_five_run :
    (after_five.flow.next_seq ≡ 11)
    × (after_five.flow.held ≡ 1)
    × (after_five.out ≡ emitted 10 (item 10) ∷ [])
    × ((get_or after_five.slots 5 zero_slot).valid ≡ true)
unfolding submit_lane by_delta skip_old_gap submit_ahead flow_make_window_room room_loop jump_window
    hold_or_drop hold_item fill_slot flow_skip_gap skip_to flow_smallest_ahead nearest seq_delta
    flow_flush_contiguous flush_loop flush_one item_emit
after_five_run = (refl, refl, refl, refl)

abbrev calls : List Call
calls =
    offer (pos 2) full_store.flow.key 1 40 (item 3) 5
    ∷ offer (pos 2) full_store.flow.key 1 7 (item 4) 6
    ∷ offer (pos 9) full_store.flow.key 1 8 (item 5) 7
    ∷ collect 9000000
    ∷ restart
    ∷ []

run_accounts_example :
    waiting_all (λ i. i.packet.addr) (run always true 2000000 calls zero_worker).windows
      + sent (λ i. i.packet.addr) (run always true 2000000 calls zero_worker).out
    ≡ 12
run_accounts_example = run_accounts (λ i. i.packet.addr) always true 2000000 calls

-- The number 5 waits behind the next number 11.
abbrev left_behind : Lane
left_behind = record full_store {
  flow = record (full_store.flow) { next_seq = 11; gap_since_ns = 7 };
  slots = set (replicate 256 zero_slot) 5 (record { item = item 5; seq = 5; valid = true });
}

room_loop_stuck_example : is_blocked 300 (room_loop 1000 always 300 left_behind) ≡ true
unfolding flow_smallest_ahead nearest seq_delta
room_loop_stuck_example = room_loop_stuck always 300 1000 left_behind refl refl

-- The items of these runs bear their number in their address.
abbrev address : Item → ℕ
address i = i.packet.addr

flow_flush_contiguous_ends_example : is_ready (flow_flush_contiguous always left_behind) ≡ false
flow_flush_contiguous_ends_example = flow_flush_contiguous_ends always left_behind refl
