-- ===== src/Wan.antt =====
-- src/core/forwarder/wan_scheduler.c: which WANs take new traffic, and the queues towards them. The
-- time in milliseconds is an argument. `link_down` is what the link diagnostics say of each WAN.
pub mod Drain
pub mod Expire
pub mod Weight
pub mod Share
pub mod Pick
pub mod Eligible
pub mod Balance
mod Tests
use ne_encryptor.Prelude.{
  ℕ, zero, suc, ◌+◌, ◌-◌, ◌*◌, ◌/◌, ◌%◌, ◌^◌, Bool, true, false, Option, none, some, List, [], ◌∷◌,
  ltb, leb, ◌==◌, ◌&&◌, ◌||◌, not, if◌then◌else◌, get_or, set, length,
}
use ne_encryptor.Prelude.Int.{ℤ, pos, negsuc, pos_part, ltb_ℤ, eqb_ℤ}
use ne_encryptor.Iface.Window.{u32}
use ne_encryptor.Iface.Ring.{Packet, Ring, ring_count, try_pop}
use ne_encryptor.Iface.Pool.{Pool, frame_free}

abbrev pub max_interfaces : ℕ
max_interfaces = 16

abbrev pub grace_ms : ℕ
grace_ms = 5000

abbrev pub batch_size : ℕ
batch_size = 64

pub record DrainSlot : Type 0 where
  pub active : Bool
  pub legacy_cfg_wan : ℤ
  pub seed_weight : ℤ
  pub start_ms : ℕ
  pub until_ms : ℕ

abbrev pub zero_drain : DrainSlot
zero_drain = record {
  active = false;
  legacy_cfg_wan = pos 0;
  seed_weight = pos 0;
  start_ms = 0;
  until_ms = 0;
}

-- `ways` has for each WAN of the blend its place in the configuration and its weights before and
-- after.
pub record WeightBlend : Type 0 where
  pub active : Bool
  pub profile_id : ℤ
  pub ways : List (ℤ × ℤ × ℤ)
  pub start_ms : ℕ
  pub until_ms : ℕ

pub record JoinRamp : Type 0 where
  pub active : Bool
  pub cfg_wan : ℤ
  pub target_w : ℤ
  pub start_ms : ℕ
  pub until_ms : ℕ

abbrev pub zero_join : JoinRamp
zero_join = record { active = false; cfg_wan = pos 0; target_w = pos 0; start_ms = 0; until_ms = 0 }

-- The static variables of wan_scheduler.c, and what it reads and writes of `struct forwarder`.
pub record Forwarder : Type 0 where
  pub wan_count : ℤ
  pub pair_wan_count : ℤ
  pub wan_cfg_idx : List ℤ
  pub mid_to_wan : List (List Ring)
  pub pool : Pool
  pub drains : List DrainSlot
  pub active_dp_count : ℤ
  pub stopped : List Bool
  pub admin_hold : List Bool
  pub link_down : List Bool
  pub blend : WeightBlend
  pub joins : List JoinRamp

-- `dp < 0 || dp >= MAX_INTERFACES`
abbrev pub is_outside : ℤ → Bool
is_outside dp = ltb_ℤ dp (pos 0) || not (ltb_ℤ dp (pos max_interfaces))

abbrev pub drain_at : Forwarder → ℕ → DrainSlot
drain_at fwd dp = get_or fwd.drains dp zero_drain

-- How many WANs a loop over the dataplane visits.
abbrev pub dp_limit : ℤ → ℕ
dp_limit n = if ltb_ℤ (pos max_interfaces) n then max_interfaces else pos_part n

unfoldable pub dp_ok_for_new_traffic : Forwarder → ℤ → Bool
dp_ok_for_new_traffic fwd dp =
    if is_outside dp || get_or fwd.stopped (pos_part dp) false
    then false
    else if get_or fwd.admin_hold (pos_part dp) false
    then false
    else if (drain_at fwd (pos_part dp)).active
    then false
    else if get_or fwd.link_down (pos_part dp) false
    then false
    else ltb_ℤ dp fwd.active_dp_count

unfoldable pub is_stopped : Forwarder → ℤ → Bool
is_stopped fwd dp =
    if is_outside dp
    then true
    else get_or fwd.stopped (pos_part dp) false || get_or fwd.admin_hold (pos_part dp) false

unfoldable pub mark_stopped : ℤ → Forwarder → Forwarder
mark_stopped dp fwd =
    if is_outside dp then fwd else record fwd { stopped = set fwd.stopped (pos_part dp) true }

unfoldable pub mark_live : ℤ → Forwarder → Forwarder
mark_live dp fwd =
    if is_outside dp then fwd else record fwd { stopped = set fwd.stopped (pos_part dp) false }

unfoldable pub admin_hold_set : ℤ → Bool → Forwarder → Forwarder
admin_hold_set dp held fwd =
    if is_outside dp then fwd else record fwd { admin_hold = set fwd.admin_hold (pos_part dp) held }

unfoldable pub admin_is_held : Forwarder → ℤ → Bool
admin_is_held fwd dp = if is_outside dp then true else get_or fwd.admin_hold (pos_part dp) false

unfoldable pub refresh_active : Forwarder → Forwarder
refresh_active fwd = record fwd { active_dp_count = fwd.wan_count }

abbrev pub no_ring : Ring
no_ring = record { buf = []; cap = 0; mask = 0; head = 0; tail = 0; mpsc_pop = false }

abbrev pub rings_of : Forwarder → ℕ → List Ring
rings_of fwd dp = get_or fwd.mid_to_wan dp []

-- The inner loop of `fwd_wan_flush_queue` on one ring: the frames go back to the pool.
unfoldable pub flush_ring : ℕ → Ring → Pool → ℕ → Ring × Pool × ℕ
flush_ring zero r pool dropped = (r, pool, dropped)
flush_ring (suc fuel) r pool dropped =
    let (r', out) = try_pop r in
    elim out [
      | none ↦ (r', pool, dropped)
      | some pkt ↦ flush_ring fuel r' (frame_free pool pkt.addr) (u32 (dropped + 1))
    ]

-- The outer loop, over the rings of the workers. A ring ends after as many rounds as it holds
-- packets and one.
unfoldable pub flush_rings : List Ring → Pool → ℕ → List Ring × Pool × ℕ
flush_rings [] pool dropped = ([], pool, dropped)
flush_rings (r ∷ rings) pool dropped =
    let (r', pool', dropped') = flush_ring (ring_count r + 1) r pool dropped in
    let (rings', pool'', dropped'') = flush_rings rings pool' dropped' in
    (r' ∷ rings', pool'', dropped'')

unfoldable pub flush_queue : ℤ → Forwarder → Forwarder × ℕ
flush_queue wan_idx fwd =
    let (rings, pool, dropped) = flush_rings (rings_of fwd (pos_part wan_idx)) fwd.pool 0 in
    if ltb_ℤ wan_idx (pos 0) || not (ltb_ℤ wan_idx fwd.wan_count) then (fwd, 0) else (
      record fwd { mid_to_wan = set fwd.mid_to_wan (pos_part wan_idx) rings; pool = pool },
      dropped,
    )

-- `ring_idx` is `dp_out_ring_idx()`, the ring of the calling worker.
unfoldable pub has_tx_room : ℕ → Forwarder → ℤ → Bool
has_tx_room ring_idx fwd wan_idx =
    let r = get_or (rings_of fwd (pos_part wan_idx)) ring_idx no_ring in
    if ltb_ℤ wan_idx (pos 0) || not (ltb_ℤ wan_idx fwd.wan_count)
    then false
    else ltb (u32 (ring_count r + batch_size)) r.cap

-- `fwd_mid_to_wan_depth` of inc/core/forwarder/forwarder.h
unfoldable pub sum_counts : List Ring → ℕ
sum_counts [] = 0
sum_counts (r ∷ rings) = u32 (ring_count r + sum_counts rings)

unfoldable pub mid_to_wan_depth : Forwarder → ℤ → ℕ
mid_to_wan_depth fwd wan_dp =
    if ltb_ℤ wan_dp (pos 0) then 0 else sum_counts (rings_of fwd (pos_part wan_dp))
