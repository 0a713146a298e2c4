-- ===== src/Wan/Balance.antt =====
-- src/core/forwarder/wan_scheduler.c: the weights of the pool of a profile.
use ne_encryptor.Prelude.{
  ℕ, zero, suc, ◌+◌, ◌-◌, ◌*◌, ◌/◌, ◌%◌, ◌≤◌, ◌≡◌, refl, ap, Bool, true, false, none, some, List,
  [], ◌∷◌, ◌++◌, arith, ltb, ◌==◌, ◌&&◌, ◌||◌, not, if◌then◌else◌, get_or, length, take, if_intro,
}
use native.Mathlib.Nat.{div-add-mod, mod-lt}
use ne_encryptor.Prelude.Int.{
  ℤ, pos, negsuc, ltb_ℤ, eqb_ℤ, ◌+ℤ◌, ◌*ℤ◌, ◌≤ℤ◌, quot_ℤ, rem_ℤ, int_laws,
}
use ne_encryptor.Wan.{Forwarder, drain_at, dp_limit}
use ne_encryptor.Wan.Drain.{drain_taper_pct}
use ne_encryptor.Wan.Weight.{WanProfile, join_ramp_pct}
use ne_encryptor.Wan.Share.{
  Shares, ramped, add_share, collect_shares, add_dead, redistribute, drain_shares,
  build_profile_pool, live_dp_for_cfg, max_profile_interfaces,
}

-- Every weight is positive.
abbrev pub IsPositive : List (ℤ × ℤ) → Type 0
IsPositive [] = Unit
IsPositive ((wi, w) ∷ shares) = (ltb_ℤ (pos 0) w ≡ true) × IsPositive shares

IsPositive-append : (xs ys : List (ℤ × ℤ)) → IsPositive xs → IsPositive ys → IsPositive (xs ++ ys)
IsPositive-append [] ys h k = k
IsPositive-append ((wi, w) ∷ xs) ys h k = (h.0, IsPositive-append xs ys h.1 k)

IsPositive-take : (n : ℕ) (xs : List (ℤ × ℤ)) → IsPositive xs → IsPositive (take n xs)
IsPositive-take zero xs h = tt
IsPositive-take (suc n) [] h = tt
IsPositive-take (suc n) ((wi, w) ∷ xs) h = (h.0, IsPositive-take n xs h.1)

ramped_positive :
    (base ramp : ℤ) → ltb_ℤ (pos 0) base ≡ true → ltb_ℤ (pos 0) (ramped base ramp) ≡ true
ramped_positive base ramp h =
    if_intro (λ w. ltb_ℤ (pos 0) w ≡ true) (ltb_ℤ (pos 0) ramp && ltb_ℤ ramp (pos 100))
      (λ _.
        if_intro (λ w. ltb_ℤ (pos 0) w ≡ true) (ltb_ℤ (pos 0) (quot_ℤ (base *ℤ ramp) 100)) (λ e. e)
          (λ _. ground arith))
      (λ _. h)

-- The state of the first loop: positive weights, and no negative dead weight.
record IsFair (s : Shares) : Type 0 where
  live : IsPositive s.live
  dead : pos 0 ≤ℤ s.dead_weight

nonneg_add : (a b : ℤ) → pos 0 ≤ℤ a → ltb_ℤ (pos 0) b ≡ true → pos 0 ≤ℤ a +ℤ b
nonneg_add a b h k = grind int_laws

IsFair-add_dead :
    (base : ℤ) (s : Shares)
    → ltb_ℤ (pos 0) base ≡ true
    → IsFair s
    → IsFair (record s { dead_weight = s.dead_weight +ℤ base })
IsFair-add_dead base s h k = record { live = k.live; dead = nonneg_add s.dead_weight base k.dead h }

add_share-IsFair :
    (now : ℕ) (fwd : Forwarder) (wi base : ℤ) (s : Shares)
    → IsFair s
    → IsFair (add_share now fwd wi base s)
unfolding add_share
add_share-IsFair now fwd wi base s h =
    let ramp = join_ramp_pct now fwd wi in
    if_intro IsFair (not (ltb_ℤ (pos 0) base)) (λ _. h)
      (λ e.
        elim (live_dp_for_cfg fwd wi)
          as (λ o. IsFair (elim o as (λ _. Shares) [
            | none ↦ record s { dead_weight = s.dead_weight +ℤ base }
            | some dp ↦
                if eqb_ℤ ramp (pos 0)
                then record s { dead_weight = s.dead_weight +ℤ base }
                else record s { live = s.live ++ (wi, ramped base ramp) ∷ [] }
          ])) [
            | none ↦ IsFair-add_dead base s (ground (arith, e)) h
            | some dp ↦
                if_intro IsFair (eqb_ℤ ramp (pos 0))
                  (λ _. IsFair-add_dead base s (ground (arith, e)) h)
                  (λ _. record {
                    live =
                        IsPositive-append s.live ((wi, ramped base ramp) ∷ []) h.live
                          (ramped_positive base ramp (ground (arith, e)), tt);
                    dead = h.dead;
                  })
          ])

collect_shares-IsFair :
    (now : ℕ) (fwd : Forwarder) (id : ℤ) (wans : List (ℤ × ℤ)) (s : Shares)
    → IsFair s
    → IsFair (collect_shares now fwd id wans s)
unfolding collect_shares
collect_shares-IsFair now fwd id [] s h = h
collect_shares-IsFair now fwd id ((wi, weight) ∷ wans) s h =
    if_intro IsFair (not (ltb (length s.live) max_profile_interfaces)) (λ _. h)
      (λ _. collect_shares-IsFair now fwd id wans _ (add_share-IsFair now fwd wi _ s h))

positive_add :
    (w share : ℤ) (more : Bool)
    → ltb_ℤ (pos 0) w ≡ true
    → pos 0 ≤ℤ share
    → ltb_ℤ (pos 0) (w +ℤ (share +ℤ (if more then pos 1 else pos 0))) ≡ true
positive_add w share true h k = grind int_laws
positive_add w share false h k = grind int_laws

add_dead-IsPositive :
    (share rem : ℤ) (i : ℕ) (live : List (ℤ × ℤ))
    → pos 0 ≤ℤ share
    → IsPositive live
    → IsPositive (add_dead share rem i live)
unfolding add_dead
add_dead-IsPositive share rem i [] h k = tt
add_dead-IsPositive share rem i ((wi, w) ∷ live) h k = (
  positive_add w share (ltb_ℤ (pos i) rem) (k.0) h,
  add_dead-IsPositive share rem (i + 1) live h (k.1),
)

quot_ℤ_nonneg : (a : ℤ) (n : ℕ) → ltb_ℤ (pos 0) a ≡ true → pos 0 ≤ℤ quot_ℤ a n
unfolding quot_ℤ
quot_ℤ_nonneg (pos a) n h = omega arith
quot_ℤ_nonneg (negsuc a) n h = ground (arith, h)

redistribute-IsPositive : (s : Shares) → IsFair s → IsPositive (redistribute s)
unfolding redistribute
redistribute-IsPositive s h =
    if_intro IsPositive (ltb 0 (length s.live) && ltb_ℤ (pos 0) s.dead_weight)
      (λ e.
        add_dead-IsPositive _ _ 0 s.live
          (quot_ℤ_nonneg s.dead_weight (length s.live) (ground (arith, e))) h.live)
      (λ _. h.live)

positive_or_one : (w : ℤ) → ltb_ℤ (pos 0) (if ltb_ℤ (pos 0) w then w else pos 1) ≡ true
positive_or_one w = ground arith

drain_shares-IsPositive :
    (k now : ℕ) (fwd : Forwarder) (room dp : ℕ) → IsPositive (drain_shares k now fwd room dp)
unfolding drain_shares
drain_shares-IsPositive zero now fwd room dp = tt
drain_shares-IsPositive (suc k) now fwd room dp =
    if_intro IsPositive (room == 0) (λ _. tt)
      (λ _.
        if_intro IsPositive (not (drain_at fwd dp).active || get_or fwd.stopped dp false)
          (λ _. drain_shares-IsPositive k now fwd room (dp + 1))
          (λ _.
            if_intro IsPositive (not (ltb_ℤ (pos 0) (drain_taper_pct now fwd (pos dp))))
              (λ _. drain_shares-IsPositive k now fwd room (dp + 1))
              (λ _. (
                positive_or_one (
                    quot_ℤ ((drain_at fwd dp).seed_weight *ℤ drain_taper_pct now fwd (pos dp)) 100),
                drain_shares-IsPositive k now fwd (room - 1) (dp + 1),
              ))))

-- Every weight of the pool of a profile is positive, also after a ramp, a blend, a share of the dead
-- weight or a drain has scaled it down.
pub build_profile_pool-IsPositive :
    (now : ℕ) (fwd : Forwarder) (p : WanProfile) (max_n : ℕ)
    → IsPositive (build_profile_pool now fwd p max_n)
unfolding build_profile_pool
build_profile_pool-IsPositive now fwd p max_n =
    let s = collect_shares now fwd p.id p.wans (record { live = []; dead_weight = pos 0 }) in
    let fair =
      collect_shares-IsFair now fwd p.id p.wans (record { live = []; dead_weight = pos 0 })
        (record { live = tt; dead = omega arith }) in
    IsPositive-append (take max_n (redistribute s)) _
      (IsPositive-take max_n (redistribute s) (redistribute-IsPositive s fair))
      (drain_shares-IsPositive (dp_limit fwd.wan_count) now fwd _ 0)

unfoldable pub total_weight : List (ℤ × ℤ) → ℤ
total_weight [] = pos 0
total_weight ((wi, w) ∷ live) = w +ℤ total_weight live

-- One WAN takes the share `q` and, while the rest lasts, one more.
add_one :
    (w t : ℤ) (q more left : ℕ)
    → w +ℤ (pos q +ℤ pos more) +ℤ (t +ℤ pos left) ≡ w +ℤ t +ℤ pos (q + more + left)
add_one w t q more left = omega int_laws

pos_if : (b : Bool) → (if b then pos 1 else pos 0) ≡ pos (if b then 1 else 0)
pos_if true = refl
pos_if false = refl

shares_suc :
    (q r i n : ℕ)
    → r - i ≤ suc n
    → q + (if ltb_ℤ (pos i) (pos r) then 1 else 0) + (n * q + (r - (i + 1))) ≡ suc n * q + (r - i)
shares_suc q r i n h = ground arith

total_weight-add_dead :
    (q r i : ℕ) (live : List (ℤ × ℤ))
    → r - i ≤ length live
    → total_weight (add_dead (pos q) (pos r) i live)
      ≡ total_weight live +ℤ pos (length live * q + (r - i))
unfolding add_dead total_weight
total_weight-add_dead q r i [] h = omega int_laws
total_weight-add_dead q r i ((wi, w) ∷ live) h = rw (
  total_weight-add_dead q r (i + 1) live (omega (arith, h)),
  pos_if (ltb_ℤ (pos i) (pos r)),
  add_one w (total_weight live) q (if ltb_ℤ (pos i) (pos r) then 1 else 0)
      (length live * q + (r - (i + 1))),
  shares_suc q r i (length live) h,
)

total_weight_shared :
    (live : List (ℤ × ℤ)) (d : ℤ)
    → ltb 0 (length live) ≡ true
    → ltb_ℤ (pos 0) d ≡ true
    → total_weight (
        if ltb 0 (length live) && ltb_ℤ (pos 0) d
        then add_dead (quot_ℤ d (length live)) (rem_ℤ d (length live)) 0 live
        else live)
      ≡ total_weight live +ℤ d
unfolding quot_ℤ rem_ℤ
total_weight_shared live (pos d) h k =
    let n = length live in
    rw
      (
        h,
        k,
        total_weight-add_dead (d / n) (d % n) 0 live
            (omega (arith, mod-lt d {m = n} (ground (arith, h)))),
      )
      (ap (λ m. total_weight live +ℤ pos m) (omega (arith, div-add-mod d n)))
total_weight_shared live (negsuc d) h k = ground (arith, k)

-- As long as one WAN is live, no weight is lost: what `redistribute` gives to the live WANs together
-- is the weight they had and the positive weight of the WANs that are left out.
pub total_weight-redistribute :
    (s : Shares)
    → ltb 0 (length s.live) ≡ true
    → ltb_ℤ (pos 0) s.dead_weight ≡ true
    → total_weight (redistribute s) ≡ total_weight s.live +ℤ s.dead_weight
unfolding redistribute
total_weight-redistribute s some_live dead = total_weight_shared s.live s.dead_weight some_live dead
