-- ===== src/Wan/Pick.antt =====
-- src/core/forwarder/wan_scheduler.c: `fwd_wan_pick_for_local` finds the WAN for a packet from the
-- LAN. The pick of the flow table is that of `Flow.Table`.
use ne_encryptor.Prelude.{
  ℕ, zero, suc, ◌+◌, ◌^◌, ◌-◌, Bool, false, Option, none, some, List, [], ◌∷◌, ltb, ◌==◌, ◌||◌, not,
  if◌then◌else◌, get_or, length, get_elem?,
}
use ne_encryptor.Prelude.Int.{ℤ, pos, negsuc, pos_part, ltb_ℤ, eqb_ℤ}
use ne_encryptor.Flow.Table.{Tls, FiveTuple, pick_wan_per_flow_packet, pick_wan_per_packet}
use ne_encryptor.Wan.{
  Forwarder, drain_at, dp_limit, dp_ok_for_new_traffic, has_tx_room, mid_to_wan_depth,
  max_interfaces,
}
use ne_encryptor.Wan.Drain.{drain_taper_pct}
use ne_encryptor.Wan.Weight.{WanProfile}
use ne_encryptor.Wan.Share.{live_dp_for_cfg, build_profile_pool}

-- The loop of `fwd_wan_dp_for_legacy_cfg`, over `n` WANs from `dp` on.
unfoldable pub find_legacy : ℕ → ℕ → Forwarder → ℤ → ℕ → Option ℕ
find_legacy zero now fwd legacy_cfg_wan dp = none
find_legacy (suc n) now fwd legacy_cfg_wan dp =
    let rest = find_legacy n now fwd legacy_cfg_wan (dp + 1) in
    if not (drain_at fwd dp).active || get_or fwd.stopped dp false
    then rest
    else if not (eqb_ℤ (drain_at fwd dp).legacy_cfg_wan legacy_cfg_wan)
    then rest
    else if not (ltb_ℤ (pos 0) (drain_taper_pct now fwd (pos dp)))
    then rest
    else some dp

unfoldable pub dp_for_legacy_cfg : ℕ → Forwarder → ℤ → Option ℕ
dp_for_legacy_cfg now fwd legacy_cfg_wan =
    find_legacy (dp_limit fwd.wan_count) now fwd legacy_cfg_wan 0

-- The best WAN so far, and the depth of its queue; -1 and `UINT32_MAX` at first.
abbrev pub Best : Type 0
Best = ℤ × ℕ

abbrev pub no_best : Best
no_best = (negsuc 0, 2 ^ 32 - 1)

abbrev pub less_loaded : Forwarder → ℤ → Best → Best
less_loaded fwd dp best =
    if ltb (mid_to_wan_depth fwd dp) (best.1) then (dp, mid_to_wan_depth fwd dp) else best

-- One round of the loop over the WANs of the profile.
unfoldable pub consider_live : ℕ → Forwarder → Option ℕ → Best → Best
consider_live ring_idx fwd none best = best
consider_live ring_idx fwd (some dp) best =
    if not (has_tx_room ring_idx fwd (pos dp)) then best else less_loaded fwd (pos dp) best

unfoldable pub least_of_profile : ℕ → Forwarder → List (ℤ × ℤ) → Best → Best
least_of_profile ring_idx fwd [] best = best
least_of_profile ring_idx fwd ((wi, weight) ∷ wans) best = least_of_profile ring_idx fwd wans (
    if not (ltb_ℤ (pos 0) weight)
    then best
    else consider_live ring_idx fwd (live_dp_for_cfg fwd wi) best)

-- The loop over all WANs, `n` of them from `wi` on.
unfoldable pub least_of_all : ℕ → ℕ → Forwarder → ℕ → Best → Best
least_of_all zero ring_idx fwd wi best = best
least_of_all (suc n) ring_idx fwd wi best = least_of_all n ring_idx fwd (wi + 1) (
    if not (dp_ok_for_new_traffic fwd (pos wi)) || not (has_tx_room ring_idx fwd (pos wi))
    then best
    else less_loaded fwd (pos wi) best)

abbrev pub or_selected : Best → ℤ → ℤ
or_selected best selected = if ltb_ℤ (best.0) (pos 0) then selected else best.0

-- What follows the test of the profile index, for a profile or for none.
unfoldable pub pick_fallback : ℕ → Forwarder → Option WanProfile → ℤ → ℤ
pick_fallback ring_idx fwd none selected =
    or_selected (least_of_all (pos_part fwd.wan_count) ring_idx fwd 0 no_best) selected
pick_fallback ring_idx fwd (some p) selected =
    let best = least_of_profile ring_idx fwd p.wans no_best in
    if not (ltb_ℤ (best.0) (pos 0))
    then best.0
    else if ltb 0 (length p.wans)
    then selected
    else or_selected (least_of_all (pos_part fwd.wan_count) ring_idx fwd 0 no_best) selected

unfoldable pub pick_least_loaded_wan : ℕ → Forwarder → Option WanProfile → ℤ → ℤ
pick_least_loaded_wan ring_idx fwd p selected =
    if has_tx_room ring_idx fwd selected then selected else pick_fallback ring_idx fwd p selected

-- `cfg->profiles[profile_idx]`, with the test of the index.
unfoldable pub wan_profile_at : List WanProfile → ℤ → Option WanProfile
wan_profile_at profiles profile_idx =
    if ltb_ℤ profile_idx (pos 0) then none else get_elem? profiles (pos_part profile_idx)

abbrev pub firsts : List (ℤ × ℤ) → List ℤ
firsts [] = []
firsts ((wi, w) ∷ shares) = wi ∷ firsts shares

abbrev pub seconds : List (ℤ × ℤ) → List ℤ
seconds [] = []
seconds ((wi, w) ∷ shares) = w ∷ seconds shares

-- The pick of the flow table from the pool.
unfoldable pub pick_from_pool : (ℕ → ℕ) → Bool → Bool → Tls → FiveTuple → List (ℤ × ℤ) → Tls × ℤ
pick_from_pool ntohl alloc_ok flow_ok t flow shares =
    if flow_ok
    then pick_wan_per_flow_packet ntohl alloc_ok t flow (firsts shares) (some (seconds shares))
        (length shares)
    else pick_wan_per_packet t (firsts shares) (some (seconds shares)) (length shares)

-- The dataplane WAN of a place in the configuration: a live one, or else one that drains.
unfoldable pub dp_of_cfg : ℕ → Forwarder → ℤ → Option ℕ
dp_of_cfg now fwd wan_cfg = elim (live_dp_for_cfg fwd wan_cfg) [
  | none ↦ dp_for_legacy_cfg now fwd wan_cfg
  | some dp ↦ some dp
]

-- The test of the dataplane WAN that was found, and the choice of a queue with room.
unfoldable pub settle_dp : ℕ → Forwarder → Option WanProfile → Option ℕ → ℤ
settle_dp ring_idx fwd p none = pick_least_loaded_wan ring_idx fwd p (pos 0)
settle_dp ring_idx fwd p (some dp) =
    if not (ltb_ℤ (pos dp) fwd.wan_count) || not (dp_ok_for_new_traffic fwd (pos dp))
    then pick_least_loaded_wan ring_idx fwd p (pos 0)
    else pick_least_loaded_wan ring_idx fwd p (pos dp)

-- What follows the pick of the flow table.
unfoldable pub settle_pick : ℕ → ℕ → Forwarder → Option WanProfile → ℤ → ℤ
settle_pick now ring_idx fwd p wan_cfg =
    if ltb_ℤ wan_cfg (pos 0)
    then pick_least_loaded_wan ring_idx fwd p (pos 0)
    else settle_dp ring_idx fwd p (dp_of_cfg now fwd wan_cfg)

unfoldable pub pick_in_profile :
    (ℕ → ℕ) → Bool → ℕ → ℕ → Forwarder → WanProfile → Bool → Tls → FiveTuple → Tls × ℤ
pick_in_profile ntohl alloc_ok now ring_idx fwd p flow_ok t flow =
    let shares = build_profile_pool now fwd p max_interfaces in
    let (t', wan_cfg) = pick_from_pool ntohl alloc_ok flow_ok t flow shares in
    if length shares == 0
    then (t, pick_least_loaded_wan ring_idx fwd (some p) (pos 0))
    else (t', settle_pick now ring_idx fwd (some p) wan_cfg)

unfoldable pub pick_for_local :
    (ℕ → ℕ) → Bool → ℕ → ℕ → Forwarder → List WanProfile → ℤ → Bool → Tls → FiveTuple → Tls × ℤ
pick_for_local ntohl alloc_ok now ring_idx fwd profiles profile_idx flow_ok t flow =
    if not (ltb_ℤ (pos 0) fwd.wan_count)
    then (t, negsuc 0)
    else elim (wan_profile_at profiles profile_idx) [
      | none ↦ (t, pick_least_loaded_wan ring_idx fwd none (pos 0))
      | some p ↦ pick_in_profile ntohl alloc_ok now ring_idx fwd p flow_ok t flow
    ]
