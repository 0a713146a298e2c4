-- ===== src/Wan/Tests.antt =====
-- src/core/forwarder/wan_scheduler.c: a forwarder of three WANs, of which the second drains.
use ne_encryptor.Prelude.{
  ◌≡◌, refl, true, false, none, some, [], ◌∷◌, arith, replicate, set, if◌then◌else◌,
}
use ne_encryptor.Prelude.Int.{pos, ◌+ℤ◌, ◌*ℤ◌, quot_ℤ}
use ne_encryptor.Iface.Ring.{Ring}
use ne_encryptor.Flow.Swrr.{zero_state}
use ne_encryptor.Flow.Table.{Tls, FiveTuple}
use ne_encryptor.Wan.{
  Forwarder, DrainSlot, zero_drain, zero_join, no_ring, has_tx_room, dp_ok_for_new_traffic,
}
use ne_encryptor.Wan.Drain.{drain_tick, drain_taper_pct, to_int}
use ne_encryptor.Wan.Expire.{ended_way, way_at, drain_tick_ends}
use ne_encryptor.Wan.Weight.{WanProfile, profile_wan_weight_blended, join_ramp_pct, join_pct}
use ne_encryptor.Wan.Share.{
  collect_shares, add_share, find_live, drain_shares, Shares, redistribute, live_dp_for_cfg,
  build_profile_pool,
}
use ne_encryptor.Wan.Pick.{pick_for_local, pick_fallback, settle_pick}
use ne_encryptor.Wan.Eligible.{IsChosen, pick_for_local-IsChosen, settle_pick_not_live}
use ne_encryptor.Wan.Balance.{
  IsPositive, build_profile_pool-IsPositive, total_weight, total_weight-redistribute,
}

abbrev wide_ring : Ring
wide_ring = record no_ring { cap = 4096; mask = 4095 }

abbrev draining : DrainSlot
draining = record {
  active = true;
  legacy_cfg_wan = pos 1;
  seed_weight = pos 50;
  start_ms = 1000;
  until_ms = 6000;
}

abbrev three_wans : Forwarder
three_wans = record {
  wan_count = pos 3;
  pair_wan_count = pos 3;
  wan_cfg_idx = pos 0 ∷ pos 1 ∷ pos 2 ∷ [];
  mid_to_wan = (wide_ring ∷ []) ∷ (wide_ring ∷ []) ∷ (wide_ring ∷ []) ∷ [];
  pool = record { buf = []; cap = 0; mask = 0; head = 0; tail = 0 };
  drains = set (replicate 16 zero_drain) 1 draining;
  active_dp_count = pos 3;
  stopped = replicate 16 false;
  admin_hold = replicate 16 false;
  link_down = replicate 16 false;
  blend = record { active = false; profile_id = pos 0; ways = []; start_ms = 0; until_ms = 0 };
  joins = replicate 16 zero_join;
}

abbrev two_ways : WanProfile
two_ways = record { id = pos 7; wans = (pos 0, pos 30) ∷ (pos 2, pos 20) ∷ [] }

pool_test :
    build_profile_pool 2000 three_wans two_ways 16
    ≡ (pos 0, pos 30) ∷ (pos 2, pos 20) ∷ (pos 1, pos 40) ∷ []
unfolding build_profile_pool redistribute collect_shares add_share profile_wan_weight_blended
    live_dp_for_cfg find_live dp_ok_for_new_traffic join_ramp_pct join_pct drain_shares
    drain_taper_pct to_int quot_ℤ ◌*ℤ◌
pool_test = refl

abbrev no_table : Tls
no_table = record { sets = none; default_swrr = zero_state; clock = 0 }

abbrev web : FiveTuple
web = record { src_ip = 1; dst_ip = 2; src_port = 40000; dst_port = 443; protocol = 6 }

pick_for_local-IsChosen_example :
    IsChosen three_wans
      (pick_for_local (λ a. a) true 2000 0 three_wans (two_ways ∷ []) (pos 0) true no_table web).1
pick_for_local-IsChosen_example =
    pick_for_local-IsChosen (λ a. a) true 2000 0 three_wans (two_ways ∷ []) (pos 0) true no_table
      web refl

draining_not_live : live_dp_for_cfg three_wans (pos 1) ≡ none
unfolding live_dp_for_cfg find_live dp_ok_for_new_traffic
draining_not_live = refl

settle_pick_not_live_example : settle_pick 2000 0 three_wans (some two_ways) (pos 1) ≡ (
    if has_tx_room 0 three_wans (pos 0)
    then pos 0
    else pick_fallback 0 three_wans (some two_ways) (pos 0))
settle_pick_not_live_example =
    settle_pick_not_live 2000 0 three_wans (some two_ways) (pos 1) draining_not_live

build_profile_pool-IsPositive_example : IsPositive (build_profile_pool 2000 three_wans two_ways 16)
build_profile_pool-IsPositive_example = build_profile_pool-IsPositive 2000 three_wans two_ways 16

abbrev two_live : Shares
two_live = record { live = (pos 0, pos 30) ∷ (pos 2, pos 20) ∷ []; dead_weight = pos 11 }

total_weight-redistribute_example :
    total_weight (redistribute two_live) ≡ total_weight two_live.live +ℤ pos 11
total_weight-redistribute_example = total_weight-redistribute two_live refl refl

drain_tick_ends_example :
    way_at (drain_tick 7000 three_wans) 1 ≡ ended_way 7000 (way_at three_wans 1)
drain_tick_ends_example =
    drain_tick_ends 7000 1 three_wans (record { drains = refl; stopped = refl }) (omega arith)
