-- ===== src/Wan/Drain.antt =====
-- src/core/forwarder/wan_scheduler.c: a WAN that a new configuration no longer has is drained: it
-- takes no new flow, its share tapers off over the grace period, and then it is stopped.
use ne_encryptor.Prelude.{
  ℕ, zero, suc, ◌+◌, ◌-◌, ◌*◌, ◌/◌, ◌%◌, ◌^◌, true, false, Option, none, some, List, ltb, leb, ◌||◌,
  not, if◌then◌else◌, get_or, set, length, replicate,
}
use ne_encryptor.Prelude.Int.{ℤ, pos, negsuc, pos_part, ltb_ℤ}
use ne_encryptor.WanMap.{WanConfig, config_wan_live, best_weight}
use ne_encryptor.Wan.{
  Forwarder, DrainSlot, zero_drain, zero_join, drain_at, dp_limit, is_outside, grace_ms,
  max_interfaces, flush_queue,
}

-- A cast of an unsigned 64-bit value to `int`.
unfoldable pub to_int : ℕ → ℤ
to_int n = if ltb (n % 2 ^ 32) (2 ^ 31) then pos (n % 2 ^ 32) else negsuc (2 ^ 32 - n % 2 ^ 32 - 1)

unfoldable pub drain_taper_pct : ℕ → Forwarder → ℤ → ℤ
drain_taper_pct now fwd dp =
    let d = drain_at fwd (pos_part dp) in
    if is_outside dp || not d.active
    then pos 0
    else if leb d.until_ms now
    then pos 0
    else to_int ((d.until_ms - now) * 100 % 2 ^ 64 / grace_ms)

-- Detaching the XDP program from the interface is left out.
unfoldable pub drain_finish_slot : ℤ → Forwarder → Forwarder
drain_finish_slot dp fwd =
    let fwd' = (flush_queue dp fwd).0 in
    let d = drain_at fwd (pos_part dp) in
    if is_outside dp || not d.active then fwd else record fwd' {
      stopped = set fwd'.stopped (pos_part dp) true;
      drains = set fwd'.drains (pos_part dp) (record d { active = false });
    }

-- One round of the loop of `fwd_wan_drain_tick`.
unfoldable pub drain_tick_dp : ℕ → ℕ → Forwarder → Forwarder
drain_tick_dp now dp fwd =
    if not (drain_at fwd dp).active
    then fwd
    else if ltb_ℤ (pos 0) (drain_taper_pct now fwd (pos dp))
    then fwd
    else if ltb now (drain_at fwd dp).until_ms
    then fwd
    else drain_finish_slot (pos dp) fwd

-- The loop, over `n` WANs from `dp` on.
unfoldable pub drain_tick_loop : ℕ → ℕ → ℕ → Forwarder → Forwarder
drain_tick_loop zero now dp fwd = fwd
drain_tick_loop (suc n) now dp fwd = drain_tick_loop n now (dp + 1) (drain_tick_dp now dp fwd)

unfoldable pub drain_tick : ℕ → Forwarder → Forwarder
drain_tick now fwd = drain_tick_loop (dp_limit fwd.wan_count) now 0 fwd

unfoldable pub reset_on_init : Forwarder → Forwarder
reset_on_init fwd = record fwd {
  active_dp_count = fwd.wan_count;
  drains = replicate max_interfaces zero_drain;
  stopped = replicate max_interfaces false;
  admin_hold = replicate max_interfaces false;
  joins = replicate max_interfaces zero_join;
}

-- The WANs of a configuration, and the indices and weights of its first profile.
pub record WanSetup : Type 0 where
  pub wans : List WanConfig
  pub weights : Option (List ℤ × List ℤ)

unfoldable pub seed_weight_from_cfg : WanSetup → ℤ → ℤ
seed_weight_from_cfg cfg cfg_wan = elim cfg.weights [
  | none ↦ pos 1
  | some (indices, weights) ↦ best_weight indices weights cfg_wan (pos 1)
]

abbrev pub start_drain : ℕ → WanSetup → ℤ → DrainSlot
start_drain now old ci = record {
  active = true;
  legacy_cfg_wan = ci;
  seed_weight = seed_weight_from_cfg old ci;
  start_ms = now;
  until_ms = (now + grace_ms) % 2 ^ 64;
}

-- One round of the loop of `fwd_wan_configure_live_drains`.
unfoldable pub configure_drain : ℕ → WanSetup → WanSetup → ℕ → Forwarder → Forwarder
configure_drain now old cfg dp fwd =
    let ci = get_or fwd.wan_cfg_idx dp (pos 0) in
    if ltb_ℤ ci (pos 0) || not (ltb_ℤ ci (pos (length old.wans)))
    then fwd
    else if not (config_wan_live old.wans ci) || config_wan_live cfg.wans ci
    then fwd
    else if (drain_at fwd dp).active || get_or fwd.stopped dp false
    then fwd
    else record fwd { drains = set fwd.drains dp (start_drain now old ci) }

unfoldable pub configure_loop : ℕ → ℕ → WanSetup → WanSetup → ℕ → Forwarder → Forwarder
configure_loop zero now old cfg dp fwd = fwd
configure_loop (suc n) now old cfg dp fwd =
    configure_loop n now old cfg (dp + 1) (configure_drain now old cfg dp fwd)

unfoldable pub configure_live_drains : ℕ → WanSetup → WanSetup → Forwarder → Forwarder
configure_live_drains now old cfg fwd = configure_loop (dp_limit fwd.wan_count) now old cfg 0 fwd
