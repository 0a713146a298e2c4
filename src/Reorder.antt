-- ===== src/Reorder.antt =====
-- src/core/dataplane/udp_reorder.c: bonded UDP flows are put back in order before they leave.
-- A `Lane` is one flow with its window of slots and the counters of its worker, as the functions
-- on one flow see them. The trace `out`, newest first, holds what went to the two callbacks, with
-- the sequence number that it was submitted with (that of its slot, if it was held); `emit_ok` says whether the callback takes an item.
pub mod Submit
pub mod Slots
pub mod Ownership
pub mod Flush
pub mod Release
pub mod Order
pub mod Stuck
pub mod Worker
pub mod Restart
pub mod Conserve
pub mod Life
mod Tests
use ne_encryptor.Prelude.{
  ℕ, zero, suc, ◌+◌, ◌-◌, ◌*◌, ◌/◌, ◌%◌, ◌^◌, Bool, true, false, Option, none, some, List, [], ◌∷◌,
  ltb, leb, ◌==◌, ◌&&◌, ◌||◌, not, if◌then◌else◌, get_or, set, replicate,
}
use ne_encryptor.Prelude.Int.{ℤ, pos, negsuc, pos_part, ltb_ℤ}
use ne_encryptor.Iface.Window.{u32, sub32}
use ne_encryptor.Iface.Ring.{Packet, zero_packet}

abbrev pub reorder_window : ℕ
reorder_window = 256

abbrev pub start_backtrack : ℕ
start_backtrack = 32

abbrev pub held_cap : ℕ
held_cap = 8192

pub record Key : Type 0 where
  pub src_ip : ℕ
  pub dst_ip : ℕ
  pub src_port : ℕ
  pub dst_port : ℕ

pub record Item : Type 0 where
  pub packet : Packet
  pub profile_pi : ℤ
  pub ingress_wan_dp : ℤ

abbrev pub zero_item : Item
zero_item = record { packet = zero_packet; profile_pi = pos 0; ingress_wan_dp = pos 0 }

pub record Slot : Type 0 where
  pub item : Item
  pub seq : ℕ
  pub valid : Bool

abbrev pub zero_slot : Slot
zero_slot = record { item = zero_item; seq = 0; valid = false }

pub record Flow : Type 0 where
  pub key : Key
  pub epoch : ℕ
  pub next_seq : ℕ
  pub gap_since_ns : ℕ
  pub last_seen_ns : ℕ
  pub stamp : ℕ
  pub held : ℕ
  pub valid : Bool

pub record Stats : Type 0 where
  pub held : ℕ
  pub released : ℕ
  pub late : ℕ
  pub gap : ℕ
  pub overflow : ℕ
  pub evicted : ℕ
  pub high_water : ℕ

pub data Event : Type 0 where
  emitted : ℕ → Item → Event
  dropped : ℕ → Item → Event

pub record Lane : Type 0 where
  pub flow : Flow
  pub slots : List Slot
  pub held_by_worker : ℕ
  pub clock : ℕ
  pub stats : Stats
  pub out : List Event

-- `(int32_t)(seq - base)`
unfoldable pub seq_delta : ℕ → ℕ → ℤ
seq_delta seq base =
    if ltb (sub32 seq base) (2 ^ 31)
    then pos (sub32 seq base)
    else negsuc (2 ^ 32 - sub32 seq base - 1)

-- `if (x > 0) x--`
abbrev pub dec : ℕ → ℕ
dec x = if ltb 0 x then x - 1 else x

abbrev pub u64 : ℕ → ℕ
u64 n = n % 2 ^ 64

abbrev pub sub64 : ℕ → ℕ → ℕ
sub64 a b = (a + 2 ^ 64 - b) % 2 ^ 64

unfoldable pub item_drop : ℕ → Item → Lane → Lane
item_drop seq item l = record l { out = dropped seq item ∷ l.out }

-- An item that the callback refuses is dropped, and still counts as released if it was held.
unfoldable pub item_emit : (Item → Bool) → ℕ → Item → Bool → Lane → Lane
item_emit emit_ok seq item was_held l = record l {
  out = (if emit_ok item then emitted seq item else dropped seq item) ∷ l.out;
  stats =
      (if was_held then record (l.stats) { released = u64 (l.stats.released + 1) } else l.stats);
}

-- The loop of `flow_drop_slots`, over the `n` slots from `i` on.
unfoldable pub drop_slots : ℕ → ℕ → Lane → Lane
drop_slots zero i l = l
drop_slots (suc n) i l =
    let s = get_or l.slots i zero_slot in
    drop_slots n (i + 1) (
      if s.valid
      then record l {
        slots = set l.slots i zero_slot;
        held_by_worker = dec l.held_by_worker;
        out = dropped s.seq s.item ∷ l.out;
      }
      else l)

unfoldable pub flow_drop_slots : Lane → Lane
flow_drop_slots l =
    let l' = drop_slots reorder_window 0 l in
    record l' { flow = record (l'.flow) { held = 0; gap_since_ns = 0 } }

abbrev pub backtrack : ℕ → ℕ
backtrack first_seq = if ltb first_seq start_backtrack then first_seq else start_backtrack

unfoldable pub flow_reset : Key → ℕ → ℕ → ℕ → Lane → Lane
flow_reset key epoch first_seq now_ns l =
    let l' = if l.flow.valid then flow_drop_slots l else l in
    record l' {
      flow = record {
        key = key;
        epoch = epoch;
        next_seq = first_seq - backtrack first_seq;
        gap_since_ns = if ltb 0 (backtrack first_seq) then now_ns else 0;
        last_seen_ns = now_ns;
        stamp = u64 (l'.clock + 1);
        held = 0;
        valid = true;
      };
      clock = u64 (l'.clock + 1);
    }

-- The slot of the next number, and whether it holds that number.
abbrev pub next_slot : Lane → Slot
next_slot l = get_or l.slots (l.flow.next_seq % reorder_window) zero_slot

abbrev pub is_ready : Lane → Bool
is_ready l = (next_slot l).valid && (next_slot l).seq == l.flow.next_seq

-- One round of the loop of `flow_flush_contiguous`: the next item leaves its slot.
unfoldable pub flush_one : (Item → Bool) → Lane → Lane
unfolding item_emit
flush_one emit_ok l = item_emit emit_ok (next_slot l).seq (next_slot l).item true (record l {
  slots =
      set l.slots (l.flow.next_seq % reorder_window)
        (record (next_slot l) { item = zero_item; valid = false });
  held_by_worker = dec l.held_by_worker;
  flow = record (l.flow) { held = dec l.flow.held; next_seq = u32 (l.flow.next_seq + 1) };
})

unfoldable pub flush_loop : ℕ → (Item → Bool) → Lane → Lane
flush_loop zero emit_ok l = l
flush_loop (suc fuel) emit_ok l =
    let rest = flush_loop fuel emit_ok (flush_one emit_ok l) in if is_ready l then rest else l

-- Each round empties a slot, so the fuel is one more than there are slots.
unfoldable pub flow_flush_contiguous : (Item → Bool) → Lane → Lane
flow_flush_contiguous emit_ok l =
    let l' = flush_loop (reorder_window + 1) emit_ok l in
    record l' {
      flow = record (l'.flow) {
        gap_since_ns = if ltb 0 l'.flow.held then l'.flow.gap_since_ns else 0;
      };
    }

abbrev pub int32_max : ℤ
int32_max = pos 2147483647

-- The loop of `flow_smallest_ahead`: the smallest distance ahead so far, and its number.
unfoldable pub nearest : List Slot → ℕ → ℤ × ℕ → ℤ × ℕ
nearest [] next_seq best = best
nearest (s ∷ slots) next_seq best =
    let delta = seq_delta s.seq next_seq in
    nearest slots next_seq (
      if s.valid && not (ltb_ℤ delta (pos 0)) && ltb_ℤ delta (best.0) then (delta, s.seq) else best)

-- `none` for -1: no slot holds a number that is not behind.
unfoldable pub flow_smallest_ahead : Lane → Option (ℕ × ℕ)
flow_smallest_ahead l =
    let (delta, seq) = nearest l.slots l.flow.next_seq (int32_max, 0) in
    if not (ltb_ℤ delta int32_max) then none else some (pos_part delta, seq)

-- The skip to the number `seq`, `delta` ahead.
unfoldable pub skip_to : (Item → Bool) → ℕ → ℕ → Lane → Lane
skip_to emit_ok delta seq l =
    let jumped = record l {
      flow = record (l.flow) { next_seq = seq };
      stats = record (l.stats) { gap = u64 (l.stats.gap + delta) };
    } in
    let l' = flow_flush_contiguous emit_ok (if ltb 0 delta then jumped else l) in
    if ltb 0 l'.flow.held
    then record l' { flow = record (l'.flow) { gap_since_ns = l'.flow.last_seen_ns } }
    else l'

unfoldable pub flow_skip_gap : (Item → Bool) → Lane → Lane
flow_skip_gap emit_ok l = elim (flow_smallest_ahead l) [
  | none ↦ record l { flow = record (l.flow) { gap_since_ns = 0 } }
  | some (delta, seq) ↦ skip_to emit_ok delta seq l
]
