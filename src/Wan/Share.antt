-- ===== src/Wan/Share.antt =====
-- src/core/forwarder/wan_scheduler.c: the pool of WANs that a profile sends on, with their weights.
use ne_encryptor.Prelude.{
  ℕ, zero, suc, ◌+◌, ◌-◌, false, Option, none, some, List, [], ◌∷◌, ◌++◌, ltb, ◌==◌, ◌&&◌, ◌||◌,
  not, if◌then◌else◌, get_or, length, take,
}
use ne_encryptor.Prelude.Int.{ℤ, pos, ltb_ℤ, eqb_ℤ, ◌+ℤ◌, ◌*ℤ◌, quot_ℤ, rem_ℤ}
use ne_encryptor.Wan.{Forwarder, drain_at, dp_limit, dp_ok_for_new_traffic}
use ne_encryptor.Wan.Drain.{drain_taper_pct}
use ne_encryptor.Wan.Weight.{WanProfile, profile_wan_weight_blended, join_ramp_pct}

abbrev pub max_profile_interfaces : ℕ
max_profile_interfaces = 16

abbrev pub max_ℤ : ℤ → ℤ → ℤ
max_ℤ a b = if ltb_ℤ a b then b else a

-- The loop of `fwd_wan_live_dp_for_cfg`, over `n` WANs from `dp` on: the first one decides.
unfoldable pub find_live : ℕ → Forwarder → ℤ → ℕ → Option ℕ
find_live zero fwd cfg_wan dp = none
find_live (suc n) fwd cfg_wan dp =
    let rest = find_live n fwd cfg_wan (dp + 1) in
    if not (eqb_ℤ (get_or fwd.wan_cfg_idx dp (pos 0)) cfg_wan)
    then rest
    else if not (dp_ok_for_new_traffic fwd (pos dp))
    then none
    else some dp

unfoldable pub live_dp_for_cfg : Forwarder → ℤ → Option ℕ
live_dp_for_cfg fwd cfg_wan =
    if ltb_ℤ cfg_wan (pos 0)
    then none
    else find_live (dp_limit (max_ℤ fwd.wan_count fwd.pair_wan_count)) fwd cfg_wan 0

-- A place in the configuration and a weight; `live` in order, and the weight of the WANs that are
-- left out.
pub record Shares : Type 0 where
  pub live : List (ℤ × ℤ)
  pub dead_weight : ℤ

abbrev pub ramped : ℤ → ℤ → ℤ
ramped base ramp =
    let w = quot_ℤ (base *ℤ ramp) 100 in
    if ltb_ℤ (pos 0) ramp && ltb_ℤ ramp (pos 100)
    then if ltb_ℤ (pos 0) w then w else pos 1
    else base

-- One round of the first loop of `fwd_wan_build_profile_pool`, for the WAN `wi` of the base weight
-- `base`.
unfoldable pub add_share : ℕ → Forwarder → ℤ → ℤ → Shares → Shares
add_share now fwd wi base s =
    let ramp = join_ramp_pct now fwd wi in
    if not (ltb_ℤ (pos 0) base) then s else elim (live_dp_for_cfg fwd wi) [
      | none ↦ record s { dead_weight = s.dead_weight +ℤ base }
      | some dp ↦
          if eqb_ℤ ramp (pos 0)
          then record s { dead_weight = s.dead_weight +ℤ base }
          else record s { live = s.live ++ (wi, ramped base ramp) ∷ [] }
    ]

unfoldable pub collect_shares : ℕ → Forwarder → ℤ → List (ℤ × ℤ) → Shares → Shares
collect_shares now fwd profile_id [] s = s
collect_shares now fwd profile_id ((wi, weight) ∷ wans) s =
    if not (ltb (length s.live) max_profile_interfaces)
    then s
    else collect_shares now fwd profile_id wans
        (add_share now fwd wi (profile_wan_weight_blended now fwd.blend profile_id wi weight) s)

-- The second loop, from place `i` on: the dead weight is shared out, the rest to the first WANs.
unfoldable pub add_dead : ℤ → ℤ → ℕ → List (ℤ × ℤ) → List (ℤ × ℤ)
add_dead share rem i [] = []
add_dead share rem i ((wi, w) ∷ live) =
    (wi, w +ℤ (share +ℤ (if ltb_ℤ (pos i) rem then pos 1 else pos 0)))
    ∷ add_dead share rem (i + 1) live

unfoldable pub redistribute : Shares → List (ℤ × ℤ)
redistribute s =
    let n = length s.live in
    if ltb 0 n && ltb_ℤ (pos 0) s.dead_weight
    then add_dead (quot_ℤ s.dead_weight n) (rem_ℤ s.dead_weight n) 0 s.live
    else s.live

-- The last loop, over `k` WANs from `dp` on: the WANs that drain keep what is left of their share.
unfoldable pub drain_shares : ℕ → ℕ → Forwarder → ℕ → ℕ → List (ℤ × ℤ)
drain_shares zero now fwd room dp = []
drain_shares (suc k) now fwd room dp =
    let d = drain_at fwd dp in
    let taper = drain_taper_pct now fwd (pos dp) in
    let w = quot_ℤ (d.seed_weight *ℤ taper) 100 in
    let share : ℤ × ℤ = (d.legacy_cfg_wan, if ltb_ℤ (pos 0) w then w else pos 1) in
    let skipped = drain_shares k now fwd room (dp + 1) in
    let taken = share ∷ drain_shares k now fwd (room - 1) (dp + 1) in
    if room == 0
    then []
    else if not d.active || get_or fwd.stopped dp false
    then skipped
    else if not (ltb_ℤ (pos 0) taper)
    then skipped
    else taken

-- `allowed_wans` and `allowed_weights`, in pairs, at most `max_n` of them.
unfoldable pub build_profile_pool : ℕ → Forwarder → WanProfile → ℕ → List (ℤ × ℤ)
build_profile_pool now fwd p max_n =
    let live =
      redistribute
        (collect_shares now fwd p.id p.wans (record { live = []; dead_weight = pos 0 })) in
    let kept = take max_n live in
    kept ++ drain_shares (dp_limit fwd.wan_count) now fwd (max_n - length kept) 0
