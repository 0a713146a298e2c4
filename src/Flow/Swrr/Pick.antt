-- ===== src/Flow/Swrr/Pick.antt =====
-- src/core/flow/flow_table.c: the second loop of `flow_swrr_pick`, for the WAN with the most credit.
use native.Mathlib.Nat.{mod-add-mod, add-mod-mod, mod-eq_of_lt, mod-lt, add-mod_right}
use mathlib.Core.Path.{subst}
use ne_encryptor.Prelude.{
  ℕ, zero, suc, ◌+◌, ◌-◌, ◌%◌, ◌≤◌, ◌<◌, ◌≡◌, refl, sym, ap, ◌∙◌, ◌⊎◌, inl, inr, Option, none, some,
  List, arith, Bool-cases, get_or, ℕ_discrete,
}
use ne_encryptor.Prelude.Int.{ℤ, ◌≤ℤ◌, ltb_ℤ}
use ne_encryptor.Flow.Swrr.{better, richest, int64_min}
use ne_encryptor.Flow.Swrr.Credits.{credit, pool_weights, weight_at-pool}

module _ (ws : List ℕ) (c : List ℤ) where
  better-some :
      (i b : ℕ)
      → 0 < get_or ws i 0
      → (b' : ℕ) × (better (pool_weights ws) c i (some b, credit c b) ≡ (some b', credit c b'))
        × ((b' ≡ b) ⊎ (b' ≡ i))
        × (credit c b ≤ℤ credit c b')
        × (credit c i ≤ℤ credit c b')
  unfolding better
  better-some i b h = elim (Bool-cases (ltb_ℤ (credit c b) (credit c i))) [
    | inl e ↦ (i, rw (weight_at-pool ws i) (ground arith), inr refl, ground arith, ground arith)
    | inr e ↦ (b, rw (weight_at-pool ws i) (ground arith), inl refl, ground arith, ground arith)
  ]

  better-none :
      (i : ℕ) (x : ℤ)
      → 0 < get_or ws i 0
      → better (pool_weights ws) c i (none, x) ≡ (some i, credit c i)
  unfolding better
  better-none i x h = rw (weight_at-pool ws i) (ground arith)

module _ (ws : List ℕ) (c : List ℤ) (count tie : ℕ) (some_wan : 0 < count)
    (eligible : (i : ℕ) → i < count → 0 < get_or ws i 0) where
  -- What the rest of the loop returns, from a best so far `b`.
  abbrev Beats : ℕ → ℕ → ℕ → Option ℕ × ℤ → Type 0
  Beats n off b r =
      (b' : ℕ) × (r ≡ (some b', credit c b'))
      × (b' < count)
      × (credit c b ≤ℤ credit c b')
      × ((k : ℕ) → off ≤ k → k < off + n → credit c ((tie + k) % count) ≤ℤ credit c b')

  richest-Beats :
      (n off b : ℕ)
      → b < count
      → Beats n off b (richest (pool_weights ws) c count tie n off (some b, credit c b))
  unfolding richest
  richest-Beats zero off b h = (b, refl, h, omega arith, λ k p q. absurd (omega arith))
  richest-Beats (suc n) off b h =
      let i = (tie + off) % count in
      let i_lt : i < count = mod-lt (tie + off) some_wan in
      let (b', e, which, le_b, le_i) = better-some ws c i b (eligible i i_lt) in
      let (w, e', w_lt, le_w, rest) = richest-Beats n (off + 1) b' (ground arith) in
      (
        w,
        rw e e',
        w_lt,
        omega arith,
        λ k p q. elim (ℕ_discrete off k) [
          | yes eq ↦ rw (← eq) (omega arith)
          | no ne ↦ rest k (omega arith) (omega arith)
        ],
      )

  -- Each index is met in one of `count` rounds.
  round_of : (j : ℕ) → j < count → (k : ℕ) × (k < count) × ((tie + k) % count ≡ j)
  round_of j h =
      let k = j + (count - tie % count) in
      (
        k % count,
        mod-lt k some_wan,
        (add-mod-mod tie k count
            ∙ sym (mod-add-mod tie count k)
            ∙ ap (λ x. x % count) (omega (arith, mod-lt tie {m = count} some_wan))
            ∙ add-mod_right j count
            ∙ mod-eq_of_lt h),
      )

  first : ℕ
  first = (tie + 0) % count

  -- The first round takes whatever it finds, since nothing was found before.
  richest_unroll :
      (n : ℕ) (x : ℤ)
      → richest (pool_weights ws) c count tie (suc n) 0 (none, x)
        ≡ richest (pool_weights ws) c count tie n 1 (some first, credit c first)
  unfolding richest first
  richest_unroll n x = rw (better-none ws c first x (eligible first (mod-lt (tie + 0) some_wan)))

  abbrev IsBest : Option ℕ × ℤ → Type 0
  IsBest r =
      (b : ℕ) × (r.0 ≡ some b) × (b < count) × ((j : ℕ) → j < count → credit c j ≤ℤ credit c b)

  all_rounds :
      (n : ℕ) (x : ℤ)
      → suc n ≡ count
      → IsBest (richest (pool_weights ws) c count tie (suc n) 0 (none, x))
  unfolding first
  all_rounds n x e =
      let (b, found, b_lt, le_b, rest) = richest-Beats n 1 first (mod-lt (tie + 0) some_wan) in
      (
        b,
        rw (richest_unroll n x) (ap (λ r. r.0) found),
        b_lt,
        λ j h.
            let (k, k_lt, at_j) = round_of j h in
            elim (ℕ_discrete 0 k) [
              | yes z ↦ rw (← at_j, ← z) le_b
              | no nz ↦ rw (← at_j) (rest k (omega arith) (omega arith))
            ],
      )

  -- The winner is a WAN of the pool, and no WAN of the pool has more credit.
  pub richest-IsBest : IsBest (richest (pool_weights ws) c count tie count 0 (none, int64_min))
  richest-IsBest =
      let e : suc (count - 1) ≡ count = omega arith in
      subst (λ m. IsBest (richest (pool_weights ws) c count tie m 0 (none, int64_min))) e
        (all_rounds (count - 1) int64_min e)
