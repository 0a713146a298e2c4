-- ===== src/Flow/Table/Pool.antt =====
-- src/core/flow/flow_table.c: a pick and the WANs of its pool.
use native.Mathlib.Nat.{mod-lt}
use ne_encryptor.Prelude.{
  ℕ, zero, suc, ◌+◌, ◌%◌, ◌≤◌, ◌<◌, ◌≡◌, refl, inl, inr, Bool, Option, some, none, List, arith,
  ◌==◌, get_or, if_intro, Option-cases,
}
use ne_encryptor.Prelude.Int.{ℤ, pos, ltb_ℤ}
use ne_encryptor.Flow.Swrr.{
  SwrrState, better, richest, or_zero, earn, settle, pick_earned, flow_swrr_pick,
}
use ne_encryptor.Flow.Table.{
  Tls, FiveTuple, pick_wan_per_packet, pick_in_set, pick_prepared, pick_wan_per_flow_packet, capped,
}

abbrev pub IsIn : List ℤ → ℕ → ℤ → Type 0
IsIn aw n wan = (i : ℕ) × (i < n) × (wan ≡ get_or aw i (pos 0))

module _ (weights : Option (List ℤ)) (c : List ℤ) (count tie : ℕ) where
  better-lt :
      (i : ℕ) (r : Option ℕ × ℤ)
      → i < count
      → or_zero r.0 < count
      → or_zero (better weights c i r).0 < count
  unfolding better
  better-lt i (none, x) h k = ground arith
  better-lt i (some b, x) h k = ground arith

  richest-lt :
      (n off : ℕ) (r : Option ℕ × ℤ)
      → 0 < count
      → or_zero r.0 < count
      → or_zero (richest weights c count tie n off r).0 < count
  unfolding richest
  richest-lt zero off r h k = k
  richest-lt (suc n) off r h k =
      richest-lt n (off + 1) _ h (better-lt ((tie + off) % count) r (mod-lt _ h) k)

pick_earned-IsIn :
    (s : SwrrState) (aw : List ℤ) (weights : Option (List ℤ)) (n : ℕ) (e : List ℤ × ℤ)
    → 0 < n
    → IsIn aw n (pick_earned s aw weights n e).1
unfolding pick_earned settle
pick_earned-IsIn s aw weights n (c, total) h =
    if_intro (λ (r : SwrrState × ℤ). IsIn aw n r.1) (ltb_ℤ (pos 0) total)
      (λ _. (_, richest-lt weights c n s.tie_start n 0 (none, _) h h, refl))
      (λ _. (s.tie_start % n, mod-lt s.tie_start h, refl))

pub flow_swrr_pick-IsIn :
    (s : SwrrState) (aw : List ℤ) (weights : Option (List ℤ)) (n : ℕ)
    → 0 < n
    → IsIn aw n (flow_swrr_pick s aw weights n).1
unfolding flow_swrr_pick
flow_swrr_pick-IsIn s aw weights n h =
    if_intro InPool (n == 0) (λ e. absurd (ground arith))
      (λ _.
        if_intro InPool (n == 1) (λ _. (0, h, refl))
          (λ _. pick_earned-IsIn s aw weights n (earn weights n 0 s.current (pos 0)) h))
  where
    InPool : SwrrState × ℤ → Type 0
    InPool r = IsIn aw n r.1

capped_bounds : (n : ℕ) → 0 < n → (0 < capped n) × (capped n ≤ n)
capped_bounds n h = ground arith

IsIn-le : (aw : List ℤ) (m n : ℕ) (wan : ℤ) → m ≤ n → IsIn aw m wan → IsIn aw n wan
IsIn-le aw m n wan h (i, lt, e) = (i, omega arith, e)

pick_wan_per_packet-IsIn :
    (t : Tls) (aw : List ℤ) (weights : Option (List ℤ)) (n : ℕ)
    → 0 < n
    → IsIn aw n (pick_wan_per_packet t aw weights n).1
unfolding pick_wan_per_packet
pick_wan_per_packet-IsIn t aw weights n h =
    if_intro (λ (r : Tls × ℤ). IsIn aw n r.1) (n == 0) (λ e. absurd (ground arith))
      (λ _.
        IsIn-le aw (capped n) n _ (capped_bounds n h).1
          (flow_swrr_pick-IsIn _ aw weights (capped n) (capped_bounds n h).0))

pick_prepared-IsIn :
    (t : Tls) (p : FiveTuple) (aw : List ℤ) (weights : Option (List ℤ)) (n : ℕ)
    → 0 < n
    → IsIn aw n (pick_prepared t p aw weights n).1
unfolding pick_prepared pick_in_set
pick_prepared-IsIn t p aw weights n h = elim (Option-cases t.sets) [
  | inl e ↦ rw (e, pick_prepared) (pick_wan_per_packet-IsIn t aw weights n h)
  | inr (sets, e) ↦ rw (e, pick_prepared) (flow_swrr_pick-IsIn _ aw weights n h)
]

-- Whatever the weights, the cache and the success of its allocation, a pick from a pool that is
-- not empty returns one of the pool's WANs.
pub pick-IsIn :
    (ntohl : ℕ → ℕ) (alloc_ok : Bool) (t : Tls) (p : FiveTuple) (aw : List ℤ)
    (weights : Option (List ℤ)) (n : ℕ)
    → 0 < n
    → IsIn aw n (pick_wan_per_flow_packet ntohl alloc_ok t p aw weights n).1
unfolding pick_wan_per_flow_packet
pick-IsIn ntohl alloc_ok t p aw weights n h =
    if_intro (λ (r : Tls × ℤ). IsIn aw n r.1) (n == 0) (λ e. absurd (ground arith))
      (λ _.
        IsIn-le aw (capped n) n _ (capped_bounds n h).1
          (pick_prepared-IsIn _ _ aw weights (capped n) (capped_bounds n h).0))
