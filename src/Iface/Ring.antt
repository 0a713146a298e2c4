-- ===== src/Iface/Ring.antt =====
-- src/core/iface/xdp_interface.c: the bounded rings that carry packets between threads
-- (`ne_ring_*`). The counters `head` and `tail` run freely through 32 bits; the locks make each
-- operation one step. `Packet` is the item, `z` the zeroed item that `calloc` gives.
pub mod Shape
pub mod Queue
use ne_encryptor.Prelude.{
  ℕ, ◌+◌, ◌-◌, ◌^◌, bit_and, Bool, true, false, Option, none, some, List, ltb, leb, ◌==◌, ◌&&◌,
  ◌||◌, not, if◌then◌else◌, get_or, set, replicate,
}
use ne_encryptor.Iface.Window.{u32, sub32}

-- `struct ne_packet` of inc/core/iface/interface.h
pub record Packet : Type 0 where
  pub addr : ℕ
  pub len : ℕ
  pub dir : ℕ
  pub wan_idx : ℕ
  pub local_idx : ℕ
  pub tx_slot : ℕ

abbrev pub zero_packet : Packet
zero_packet = record { addr = 0; len = 0; dir = 0; wan_idx = 0; local_idx = 0; tx_slot = 0 }

-- `struct ne_ring`, without its locks
pub record Ring : Type 0 where
  pub buf : List Packet
  pub cap : ℕ
  pub mask : ℕ
  pub head : ℕ
  pub tail : ℕ
  pub mpsc_pop : Bool

-- `none` for -1: a capacity that is no power of two, no memory, or a lock that is not set up.
unfoldable pub ring_init : ℕ → Bool → Bool → Bool → Bool → Option Ring
ring_init cap mpsc_pop alloc_ok push_lock_ok pop_lock_ok =
    if cap == 0 || not (bit_and cap (cap - 1) == 0)
    then none
    else if alloc_ok && push_lock_ok && (not mpsc_pop || pop_lock_ok)
    then some (record {
      buf = replicate cap zero_packet;
      cap = cap;
      mask = cap - 1;
      head = 0;
      tail = 0;
      mpsc_pop = mpsc_pop;
    })
    else none

unfoldable pub ring_count : Ring → ℕ
ring_count r = sub32 r.head r.tail

-- The second part is the success of the call.
unfoldable pub try_push : Ring → Packet → Ring × Bool
try_push r pkt =
    if leb r.cap (sub32 r.head r.tail)
    then (r, false)
    else (record r { buf = set r.buf (bit_and r.head r.mask) pkt; head = u32 (r.head + 1) }, true)

unfoldable pub try_push_pair : Ring → Packet → Packet → Ring × Bool
try_push_pair r first second = if ltb (sub32 r.cap 2) (sub32 r.head r.tail) then (r, false) else (
  record r {
    buf = set (set r.buf (bit_and r.head r.mask) first) (bit_and (u32 (r.head + 1)) r.mask) second;
    head = u32 (r.head + 2);
  },
  true,
)

unfoldable pub try_pop : Ring → Ring × Option Packet
try_pop r = if r.tail == r.head then (r, none) else (
  record r { tail = u32 (r.tail + 1) },
  some (get_or r.buf (bit_and r.tail r.mask) zero_packet),
)
