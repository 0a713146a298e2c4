-- ===== src/Reorder/Worker.antt =====
-- src/core/dataplane/udp_reorder.c: the flows of one worker, in 128 sets of 4 ways, and the
-- operations on them: `dp_udp_reorder_submit`, `_gc` and `_reset_worker`.
use ne_encryptor.Prelude.{
  ℕ, zero, suc, ◌+◌, ◌*◌, ◌/◌, ◌%◌, ◌^◌, Bool, false, List, [], ltb, ◌==◌, ◌&&◌, not, if◌then◌else◌,
  get_or, set, bit_and, bit_or, bit_xor, ◌-◌,
}
use ne_encryptor.Prelude.Int.{ℤ, pos, ltb_ℤ}
use ne_encryptor.Iface.Window.{u32}
use ne_encryptor.Reorder.{
  Key, Item, Slot, Flow, Stats, Event, Lane, u64, sub64, item_emit, flow_drop_slots, flow_reset,
}
use ne_encryptor.Reorder.Submit.{submit_lane, skip_old_gap}

abbrev pub reorder_sets : ℕ
reorder_sets = 128

abbrev pub reorder_ways : ℕ
reorder_ways = 4

abbrev pub flow_cap : ℕ
flow_cap = 512

abbrev pub gc_slice : ℕ
gc_slice = 16

abbrev pub flow_idle_ns : ℕ
flow_idle_ns = 60000000000

abbrev pub crypto_workers : ℤ
crypto_workers = pos 6

abbrev pub zero_flow : Flow
zero_flow = record {
  key = record { src_ip = 0; dst_ip = 0; src_port = 0; dst_port = 0 };
  epoch = 0;
  next_seq = 0;
  gap_since_ns = 0;
  last_seen_ns = 0;
  stamp = 0;
  held = 0;
  valid = false;
}

pub record Worker : Type 0 where
  pub flows : List Flow
  pub windows : List (List Slot)
  pub held_by_worker : ℕ
  pub gc_cursor : ℕ
  pub clock : ℕ
  pub stats : Stats
  pub out : List Event

abbrev pub flow_at : Worker → ℕ → Flow
flow_at w idx = get_or w.flows idx zero_flow

-- One flow of a worker, and the worker after a change of that flow.
abbrev pub lane : Worker → ℕ → Lane
lane w idx = record {
  flow = flow_at w idx;
  slots = get_or w.windows idx [];
  held_by_worker = w.held_by_worker;
  clock = w.clock;
  stats = w.stats;
  out = w.out;
}

unfoldable pub put_lane : ℕ → Lane → Worker → Worker
put_lane idx l w = record w {
  flows = set w.flows idx l.flow;
  windows = set w.windows idx l.slots;
  held_by_worker = l.held_by_worker;
  clock = l.clock;
  stats = l.stats;
  out = l.out;
}

unfoldable pub key_hash : Key → ℕ
key_hash key =
    let h0 = bit_xor key.src_ip (u32 (key.dst_ip * 2654435769)) in
    let h1 = bit_xor h0 (bit_or (u32 (key.src_port * 2 ^ 16)) key.dst_port) in
    let h2 = u32 (bit_xor h1 (h1 / 2 ^ 16) * 2246822507) in
    let h3 = u32 (bit_xor h2 (h2 / 2 ^ 13) * 3266489909) in bit_xor h3 (h3 / 2 ^ 16)

unfoldable pub key_equal : Key → Key → Bool
key_equal a b =
    a.src_ip == b.src_ip
    && (a.dst_ip == b.dst_ip && (a.src_port == b.src_port && a.dst_port == b.dst_port))

-- Where the loop of `flow_lookup` ends: at a flow with the key, or at one to be replaced.
pub data Place : Type 0 where
  hit : ℕ → Place
  replace : ℕ → Place

-- The loop, over the `n` ways from `idx` on.
unfoldable pub find_place : ℕ → ℕ → ℕ → Key → Worker → Place
find_place zero idx victim key w = replace victim
find_place (suc n) idx victim key w =
    let older = if ltb (flow_at w idx).stamp (flow_at w victim).stamp then idx else victim in
    let rest = find_place n (idx + 1) older key w in
    if (flow_at w idx).valid && key_equal (flow_at w idx).key key
    then hit idx
    else if not (flow_at w idx).valid
    then replace idx
    else rest

unfoldable pub flow_base : Key → ℕ
flow_base key = bit_and (key_hash key) (reorder_sets - 1) * reorder_ways

-- A flow with the key starts afresh when its epoch is over, and is marked as used.
unfoldable pub use_flow : Key → ℕ → ℕ → ℕ → Lane → Lane
use_flow key epoch first_seq now_ns l =
    let l' = if l.flow.epoch == epoch then l else flow_reset key epoch first_seq now_ns l in
    record l' {
      flow = record (l'.flow) { last_seen_ns = now_ns; stamp = u64 (l'.clock + 1) };
      clock = u64 (l'.clock + 1);
    }

unfoldable pub evict_flow : Key → ℕ → ℕ → ℕ → Lane → Lane
evict_flow key epoch first_seq now_ns l = flow_reset key epoch first_seq now_ns (
    if l.flow.valid
    then record l { stats = record (l.stats) { evicted = u64 (l.stats.evicted + 1) } }
    else l)

unfoldable pub flow_lookup : Key → ℕ → ℕ → ℕ → Worker → ℕ × Worker
flow_lookup key epoch first_seq now_ns w =
    elim (find_place reorder_ways (flow_base key) (flow_base key) key w) [
      | hit idx ↦ (idx, put_lane idx (use_flow key epoch first_seq now_ns (lane w idx)) w)
      | replace idx ↦ (idx, put_lane idx (evict_flow key epoch first_seq now_ns (lane w idx)) w)
    ]

-- An item with no worker to wait at, or with the reordering switched off, goes out at once.
unfoldable pub submit : (Item → Bool) → Bool → ℕ → ℤ → Key → ℕ → ℕ → Item → ℕ → Worker → Worker
submit emit_ok enabled hold_ns worker_idx key epoch seq item now_ns w =
    let direct = record w { out = (item_emit emit_ok seq item false (lane w 0)).out } in
    let (idx, w') = flow_lookup key epoch seq now_ns w in
    let held = put_lane idx (submit_lane emit_ok hold_ns seq item now_ns (lane w' idx)) w' in
    if ltb_ℤ worker_idx (pos 0)
    then direct
    else if not (ltb_ℤ worker_idx crypto_workers)
    then direct
    else if not enabled
    then direct
    else held

-- An idle flow that holds nothing is freed.
unfoldable pub gc_flow : (Item → Bool) → ℕ → ℕ → Lane → Lane
gc_flow emit_ok hold_ns now_ns l =
    let l' = skip_old_gap emit_ok hold_ns now_ns l in
    if not l.flow.valid
    then l
    else if l'.flow.held == 0 && ltb flow_idle_ns (sub64 now_ns l'.flow.last_seen_ns)
    then record l' { flow = zero_flow }
    else l'

-- The loop of `dp_udp_reorder_gc`, over `n` flows from `idx` on.
unfoldable pub gc_loop : ℕ → (Item → Bool) → ℕ → ℕ → ℕ → Worker → Worker
gc_loop zero emit_ok hold_ns now_ns idx w = w
gc_loop (suc n) emit_ok hold_ns now_ns idx w =
    let i = idx % flow_cap in
    gc_loop n emit_ok hold_ns now_ns (idx + 1)
      (put_lane i (gc_flow emit_ok hold_ns now_ns (lane w i)) w)

unfoldable pub gc : (Item → Bool) → ℕ → ℕ → Worker → Worker
gc emit_ok hold_ns now_ns w =
    let w' = gc_loop gc_slice emit_ok hold_ns now_ns w.gc_cursor w in
    record w' { gc_cursor = (w.gc_cursor + gc_slice) % flow_cap }

unfoldable pub reset_flow : Lane → Lane
reset_flow l =
    let l' = if l.flow.valid then flow_drop_slots l else l in record l' { flow = zero_flow }

unfoldable pub reset_loop : ℕ → ℕ → Worker → Worker
reset_loop zero idx w = w
reset_loop (suc n) idx w = reset_loop n (idx + 1) (put_lane idx (reset_flow (lane w idx)) w)

unfoldable pub reset_worker : Worker → Worker
reset_worker w = record (reset_loop flow_cap 0 w) { held_by_worker = 0; gc_cursor = 0 }
