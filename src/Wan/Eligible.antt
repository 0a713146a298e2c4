-- ===== src/Wan/Eligible.antt =====
-- src/core/forwarder/wan_scheduler.c: which WANs `fwd_wan_pick_for_local` returns.
use ne_encryptor.Prelude.{
  ℕ, zero, suc, ◌+◌, ◌≡◌, refl, ◌⊎◌, inl, inr, Bool, true, false, Option, none, some, List, [], ◌∷◌,
  arith, ltb, ◌==◌, ◌||◌, not, if◌then◌else◌, length, if_intro, Option-cases,
}
use mathlib.Core.Option.{none-ne-some}
use ne_encryptor.Prelude.Int.{ℤ, pos, pos_part, ltb_ℤ}
use ne_encryptor.Flow.Table.{Tls, FiveTuple}
use ne_encryptor.Wan.{
  Forwarder, dp_limit, dp_ok_for_new_traffic, has_tx_room, mid_to_wan_depth, max_interfaces,
}
use ne_encryptor.Wan.Weight.{WanProfile}
use ne_encryptor.Wan.Share.{find_live, live_dp_for_cfg, max_ℤ, build_profile_pool}
use ne_encryptor.Wan.Pick.{
  find_legacy, dp_for_legacy_cfg, Best, no_best, less_loaded, consider_live, least_of_profile,
  least_of_all, or_selected, pick_fallback, pick_least_loaded_wan, wan_profile_at, pick_from_pool,
  dp_of_cfg, settle_dp, settle_pick, pick_in_profile, pick_for_local,
}

find_live-ok :
    (n : ℕ) (fwd : Forwarder) (cfg_wan : ℤ) (dp d : ℕ)
    → find_live n fwd cfg_wan dp ≡ some d
    → dp_ok_for_new_traffic fwd (pos d) ≡ true
unfolding find_live
find_live-ok zero fwd cfg_wan dp d e = absurd (none-ne-some d e)
find_live-ok (suc n) fwd cfg_wan dp d e = ground (arith, e, find_live-ok n fwd cfg_wan (dp + 1) d)

live_dp_for_cfg-ok :
    (fwd : Forwarder) (cfg_wan : ℤ) (d : ℕ)
    → live_dp_for_cfg fwd cfg_wan ≡ some d
    → dp_ok_for_new_traffic fwd (pos d) ≡ true
unfolding live_dp_for_cfg
live_dp_for_cfg-ok fwd cfg_wan d e =
    ground
      (arith, e, find_live-ok (dp_limit (max_ℤ fwd.wan_count fwd.pair_wan_count)) fwd cfg_wan 0 d)

-- A WAN that drains takes no new traffic.
find_legacy-not_ok :
    (n now : ℕ) (fwd : Forwarder) (cfg_wan : ℤ) (dp d : ℕ)
    → find_legacy n now fwd cfg_wan dp ≡ some d
    → dp_ok_for_new_traffic fwd (pos d) ≡ false
unfolding find_legacy dp_ok_for_new_traffic
find_legacy-not_ok zero now fwd cfg_wan dp d e = absurd (none-ne-some d e)
find_legacy-not_ok (suc n) now fwd cfg_wan dp d e =
    ground (arith, e, find_legacy-not_ok n now fwd cfg_wan (dp + 1) d)

-- Either nothing is found yet, or a WAN that takes new traffic.
abbrev IsFound : Forwarder → Best → Type 0
IsFound fwd best = (ltb_ℤ (best.0) (pos 0) ≡ true) ⊎ (dp_ok_for_new_traffic fwd (best.0) ≡ true)

-- A WAN that takes new traffic, or the WAN 0.
abbrev pub IsChosen : Forwarder → ℤ → Type 0
IsChosen fwd dp = (dp ≡ pos 0) ⊎ (dp_ok_for_new_traffic fwd dp ≡ true)

module _ (ring_idx : ℕ) (fwd : Forwarder) where
  less_loaded-IsFound :
      (dp : ℤ) (best : Best)
      → dp_ok_for_new_traffic fwd dp ≡ true
      → IsFound fwd best
      → IsFound fwd (less_loaded fwd dp best)
  less_loaded-IsFound dp best ok h =
      if_intro (IsFound fwd) (ltb (mid_to_wan_depth fwd dp) (best.1))
        {x = (dp, mid_to_wan_depth fwd dp)} {y = best} (λ _. inr ok) (λ _. h)

  consider_live-IsFound :
      (o : Option ℕ) (best : Best)
      → ((d : ℕ) → o ≡ some d → dp_ok_for_new_traffic fwd (pos d) ≡ true)
      → IsFound fwd best
      → IsFound fwd (consider_live ring_idx fwd o best)
  unfolding consider_live
  consider_live-IsFound none best ok h = h
  consider_live-IsFound (some d) best ok h =
      if_intro (IsFound fwd) (not (has_tx_room ring_idx fwd (pos d))) (λ _. h)
        (λ _. less_loaded-IsFound (pos d) best (ok d refl) h)

  least_of_profile-IsFound :
      (wans : List (ℤ × ℤ)) (best : Best)
      → IsFound fwd best
      → IsFound fwd (least_of_profile ring_idx fwd wans best)
  unfolding least_of_profile
  least_of_profile-IsFound [] best h = h
  least_of_profile-IsFound ((wi, weight) ∷ wans) best h = least_of_profile-IsFound wans _ (
      if_intro (IsFound fwd) (not (ltb_ℤ (pos 0) weight)) {x = best}
        {y = consider_live ring_idx fwd (live_dp_for_cfg fwd wi) best} (λ _. h)
        (λ _. consider_live-IsFound (live_dp_for_cfg fwd wi) best (live_dp_for_cfg-ok fwd wi) h))

  least_of_all-IsFound :
      (n wi : ℕ) (best : Best)
      → IsFound fwd best
      → IsFound fwd (least_of_all n ring_idx fwd wi best)
  unfolding least_of_all
  least_of_all-IsFound zero wi best h = h
  least_of_all-IsFound (suc n) wi best h = least_of_all-IsFound n (wi + 1) _ (
      if_intro (IsFound fwd)
        (not (dp_ok_for_new_traffic fwd (pos wi)) || not (has_tx_room ring_idx fwd (pos wi)))
        {x = best} {y = less_loaded fwd (pos wi) best} (λ _. h)
        (λ e. less_loaded-IsFound (pos wi) best (ground (arith, e)) h))

  or_selected-IsChosen :
      (best : Best) (selected : ℤ)
      → IsFound fwd best
      → IsChosen fwd selected
      → IsChosen fwd (or_selected best selected)
  or_selected-IsChosen best selected found h = ground (arith, found, h)

  pick_fallback-IsChosen :
      (p : Option WanProfile) (selected : ℤ)
      → IsChosen fwd selected
      → IsChosen fwd (pick_fallback ring_idx fwd p selected)
  unfolding pick_fallback
  pick_fallback-IsChosen none selected h =
      or_selected-IsChosen (least_of_all (pos_part fwd.wan_count) ring_idx fwd 0 no_best) selected
        (least_of_all-IsFound (pos_part fwd.wan_count) 0 no_best (inl refl)) h
  pick_fallback-IsChosen (some p) selected h =
      let best = least_of_profile ring_idx fwd p.wans no_best in
      let found = least_of_profile-IsFound p.wans no_best (inl refl) in
      if_intro (IsChosen fwd) (not (ltb_ℤ (best.0) (pos 0))) (λ e. ground (arith, e, found))
        (λ _.
          if_intro (IsChosen fwd) (ltb 0 (length p.wans)) (λ _. h)
            (λ _.
              or_selected-IsChosen (least_of_all (pos_part fwd.wan_count) ring_idx fwd 0 no_best)
                selected (least_of_all-IsFound (pos_part fwd.wan_count) 0 no_best (inl refl)) h))

  pick_least_loaded_wan-IsChosen :
      (p : Option WanProfile) (selected : ℤ)
      → IsChosen fwd selected
      → IsChosen fwd (pick_least_loaded_wan ring_idx fwd p selected)
  unfolding pick_least_loaded_wan
  pick_least_loaded_wan-IsChosen p selected h =
      if_intro (IsChosen fwd) (has_tx_room ring_idx fwd selected) (λ _. h)
        (λ _. pick_fallback-IsChosen p selected h)

  settle_dp-IsChosen :
      (p : Option WanProfile) (o : Option ℕ) → IsChosen fwd (settle_dp ring_idx fwd p o)
  unfolding settle_dp
  settle_dp-IsChosen p none = pick_least_loaded_wan-IsChosen p (pos 0) (inl refl)
  settle_dp-IsChosen p (some dp) =
      if_intro (IsChosen fwd)
        (not (ltb_ℤ (pos dp) fwd.wan_count) || not (dp_ok_for_new_traffic fwd (pos dp)))
        (λ _. pick_least_loaded_wan-IsChosen p (pos 0) (inl refl))
        (λ e. pick_least_loaded_wan-IsChosen p (pos dp) (inr (ground (arith, e))))

  settle_pick-IsChosen :
      (now : ℕ) (p : Option WanProfile) (wan_cfg : ℤ)
      → IsChosen fwd (settle_pick now ring_idx fwd p wan_cfg)
  unfolding settle_pick
  settle_pick-IsChosen now p wan_cfg =
      if_intro (IsChosen fwd) (ltb_ℤ wan_cfg (pos 0))
        (λ _. pick_least_loaded_wan-IsChosen p (pos 0) (inl refl))
        (λ _. settle_dp-IsChosen p (dp_of_cfg now fwd wan_cfg))

  pick_in_profile-IsChosen :
      (ntohl : ℕ → ℕ) (alloc_ok : Bool) (now : ℕ) (p : WanProfile) (flow_ok : Bool) (t : Tls)
      (flow : FiveTuple)
      → IsChosen fwd ((pick_in_profile ntohl alloc_ok now ring_idx fwd p flow_ok t flow).1)
  unfolding pick_in_profile
  pick_in_profile-IsChosen ntohl alloc_ok now p flow_ok t flow =
      let shares = build_profile_pool now fwd p max_interfaces in
      let picked = pick_from_pool ntohl alloc_ok flow_ok t flow shares in
      if_intro (λ (r : Tls × ℤ). IsChosen fwd (r.1)) (length shares == 0)
        (λ _. pick_least_loaded_wan-IsChosen (some p) (pos 0) (inl refl))
        (λ _. settle_pick-IsChosen now (some p) (picked.1))

-- With at least one WAN, the WAN that `pick_for_local` returns is one that takes new traffic, or the
-- WAN 0, whatever the flow table picks and whatever the queues hold.
pub pick_for_local-IsChosen :
    (ntohl : ℕ → ℕ) (alloc_ok : Bool) (now ring_idx : ℕ) (fwd : Forwarder)
    (profiles : List WanProfile) (profile_idx : ℤ) (flow_ok : Bool) (t : Tls) (flow : FiveTuple)
    → ltb_ℤ (pos 0) fwd.wan_count ≡ true
    → IsChosen fwd
        ((pick_for_local ntohl alloc_ok now ring_idx fwd profiles profile_idx flow_ok t flow).1)
unfolding pick_for_local
pick_for_local-IsChosen ntohl alloc_ok now ring_idx fwd profiles profile_idx flow_ok t flow
      some_wan =
    rw some_wan
      (elim (wan_profile_at profiles profile_idx)
        as (λ o. IsChosen fwd (
          (elim o as (λ _. Tls × ℤ) [
            | none ↦ (t, pick_least_loaded_wan ring_idx fwd none (pos 0))
            | some p ↦ pick_in_profile ntohl alloc_ok now ring_idx fwd p flow_ok t flow
          ]).1)) [
            | none ↦ pick_least_loaded_wan-IsChosen ring_idx fwd none (pos 0) (inl refl)
            | some p ↦ pick_in_profile-IsChosen ring_idx fwd ntohl alloc_ok now p flow_ok t flow
          ])

dp_for_legacy_cfg-not_ok :
    (now : ℕ) (fwd : Forwarder) (cfg_wan : ℤ) (d : ℕ)
    → dp_for_legacy_cfg now fwd cfg_wan ≡ some d
    → dp_ok_for_new_traffic fwd (pos d) ≡ false
unfolding dp_for_legacy_cfg
dp_for_legacy_cfg-not_ok now fwd cfg_wan d e =
    find_legacy-not_ok (dp_limit fwd.wan_count) now fwd cfg_wan 0 d e

-- If the flow table picks a WAN that is not live, also one that drains and still has a share of the
-- pool, the packet is given to the WAN 0, or to the fallback if the queue of WAN 0 is full.
pub settle_pick_not_live :
    (now ring_idx : ℕ) (fwd : Forwarder) (p : Option WanProfile) (wan_cfg : ℤ)
    → live_dp_for_cfg fwd wan_cfg ≡ none
    → settle_pick now ring_idx fwd p wan_cfg
      ≡ (if has_tx_room ring_idx fwd (pos 0) then pos 0 else pick_fallback ring_idx fwd p (pos 0))
unfolding settle_pick settle_dp dp_of_cfg pick_least_loaded_wan
settle_pick_not_live now ring_idx fwd p wan_cfg e =
    elim (Option-cases (dp_for_legacy_cfg now fwd wan_cfg)) [
      | inl none_drains ↦ ground (arith, e, none_drains)
      | inr (d, drains) ↦
          ground (arith, e, drains, dp_for_legacy_cfg-not_ok now fwd wan_cfg d drains)
    ]
