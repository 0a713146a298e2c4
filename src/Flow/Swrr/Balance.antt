-- ===== src/Flow/Swrr/Balance.antt =====
-- src/core/flow/flow_table.c: the balance of the credits of a state.
use mathlib.Core.Path.{subst}
use ne_encryptor.Prelude.{
  ℕ, zero, suc, ◌+◌, ◌*◌, ◌≤◌, ◌<◌, ◌≡◌, ◌≢◌, refl, ap, ◌∙◌, List, [], ◌∷◌, arith, true, false,
  ◌==◌, if◌then◌else◌, length, get_or, set, ℕ_discrete, dec_lt, length-set, get_or-set_self,
  get_or-set_ne,
}
use ne_encryptor.Prelude.Int.{
  ℤ, pos, pos_part, neg_part, ◌-ℤ◌, ◌≤ℤ◌, int_laws, parts_of_eq, eq_of_parts, one_part,
}
use ne_encryptor.Flow.Swrr.{SwrrState, settle, flow_swrr_pick}
use ne_encryptor.Flow.Swrr.Credits.{
  credit, span, sum_ℤ, pool_weights, length-earn, sum-earn, total-earn, sum_ℤ-set,
}
use ne_encryptor.Flow.Swrr.Step.{
  IsPool, earned, total_pos, credit-earned, credit-earned_above, pick_lem,
}

-- The credits of a pool of `n` WANs whose weights never sum to more than `bound`: they cancel
-- out, none is a full round behind, and the unused ones are 0.
pub record IsBalanced (n bound : ℕ) (c : List ℤ) : Type 0 where
  pub room : n ≤ length c
  pub cancel : sum_ℤ c ≡ pos 0
  pub unused : (j : ℕ) → n ≤ j → credit c j ≡ pos 0
  pub behind : (j : ℕ) → j < n → neg_part (credit c j) < bound

sum_nonpos : (c : List ℤ) → ((j : ℕ) → credit c j ≤ℤ pos 0) → sum_ℤ c ≤ℤ pos 0
sum_nonpos [] h = omega arith
sum_nonpos (x ∷ c) h = omega (int_laws, h 0, sum_nonpos c (λ j. h (suc j)))

eq_self : (b : ℕ) → (b == b) ≡ true
eq_self b = ground arith

eq_other : (b j : ℕ) → b ≢ j → (b == j) ≡ false
eq_other b j h = ground arith

module _ (s : SwrrState) (aw : List ℤ) (ws : List ℕ) (n bound : ℕ) (pool : IsPool ws n)
    (small : span ws 0 n ≤ bound) (bal : IsBalanced n bound s.current) where
  abbrev e : List ℤ
  e = earned ws n s.current

  sum-earned : sum_ℤ e ≡ pos (span ws 0 n)
  sum-earned = eq_of_parts _ _ (
      omega (
        int_laws,
        parts_of_eq (sum-earn (pool_weights ws) n 0 s.current (pos 0) (omega (arith, bal.room))),
        parts_of_eq bal.cancel,
        parts_of_eq (total-earn ws n 0 0 s.current),
      ))

  -- The best credit is positive, since the credits sum to a positive total.
  best_pos :
      (b : ℕ) → b < n → ((j : ℕ) → j < n → credit e j ≤ℤ credit e b) → 0 < pos_part (credit e b)
  best_pos b h best = elim (dec_lt 0 (pos_part (credit e b))) [
    | yes p ↦ p
    | no p ↦ absurd (
        omega (
          int_laws,
          total_pos s aw ws n pool bal.room,
          parts_of_eq sum-earned,
          sum_nonpos e (λ j. elim (dec_lt j n) [
            | yes q ↦ omega (arith, best j q)
            | no q ↦ omega (
              int_laws,
              parts_of_eq (credit-earned_above s aw ws n pool bal.room j (omega arith)),
              parts_of_eq (bal.unused j (omega arith)),
            )
          ]),
        ))
  ]

  length-e : n ≤ length e
  length-e = omega (arith, length-earn (pool_weights ws) n 0 s.current (pos 0), bal.room)

  -- The winner pays, and nobody else.
  paid : ℕ → List ℤ
  paid b = set e b (credit e b -ℤ pos (span ws 0 n))

  paid_self : (b : ℕ) → b < n → credit (paid b) b ≡ credit e b -ℤ pos (span ws 0 n)
  unfolding paid
  paid_self b h = get_or-set_self e b _ (pos 0) (omega (arith, length-e))

  paid_ne : (b j : ℕ) → b ≢ j → credit (paid b) j ≡ credit e j
  unfolding paid
  paid_ne b j ne = get_or-set_ne e b j _ (pos 0) ne

  sum-paid : (b : ℕ) → b < n → sum_ℤ (paid b) ≡ pos 0
  unfolding paid
  sum-paid b h = eq_of_parts _ _ (
      omega (
        int_laws,
        parts_of_eq (sum_ℤ-set e b (credit e b -ℤ pos (span ws 0 n)) (omega (arith, length-e))),
        parts_of_eq sum-earned,
      ))

  paid_unused : (b j : ℕ) → b < n → n ≤ j → credit (paid b) j ≡ pos 0
  paid_unused b j h k = eq_of_parts _ _ (
      omega (
        int_laws,
        parts_of_eq (paid_ne b j (omega arith)),
        parts_of_eq (credit-earned_above s aw ws n pool bal.room j k),
        parts_of_eq (bal.unused j k),
      ))

  paid_behind :
      (b j : ℕ)
      → b < n
      → j < n
      → ((j : ℕ) → j < n → credit e j ≤ℤ credit e b)
      → neg_part (credit (paid b) j) < bound
  paid_behind b j h k best = elim (ℕ_discrete b j) [
    | yes p ↦ rw (← p) (
        omega (
          int_laws,
          parts_of_eq (paid_self b h),
          best_pos b h best,
          one_part (credit e b),
          total_pos s aw ws n pool bal.room,
          one_part (credit (paid b) b),
        ))
    | no p ↦ rw (paid_ne b j p) (
        omega (
          int_laws,
          parts_of_eq (credit-earned s aw ws n pool bal.room j k),
          bal.behind j k,
          one_part (credit e j),
        ))
  ]

  pub settle-IsBalanced :
      (b : ℕ)
      → b < n
      → ((j : ℕ) → j < n → credit e j ≤ℤ credit e b)
      → IsBalanced n bound (settle s aw e (pos (span ws 0 n)) n b).0.current
  unfolding settle paid
  settle-IsBalanced b h best = record {
    room = omega (arith, length-e, length-set e b (credit e b -ℤ pos (span ws 0 n)));
    cancel = sum-paid b h;
    unused = λ j k. paid_unused b j h k;
    behind = λ j k. paid_behind b j h k best;
  }

  paid_account :
      (b j : ℕ)
      → b < n
      → j < n
      → pos_part (credit (paid b) j)
          + neg_part (credit s.current j)
          + (if b == j then span ws 0 n else 0)
        ≡ pos_part (credit s.current j) + get_or ws j 0 + neg_part (credit (paid b) j)
  paid_account b j h k = elim (ℕ_discrete b j) [
    | yes p ↦
        subst
          (λ i.
            pos_part (credit (paid b) i)
              + neg_part (credit s.current i)
              + (if b == i then span ws 0 n else 0)
            ≡ pos_part (credit s.current i) + get_or ws i 0 + neg_part (credit (paid b) i))
          p
          (rw (eq_self b) (
            omega (
              int_laws,
              parts_of_eq (paid_self b h),
              parts_of_eq (credit-earned s aw ws n pool bal.room b h),
            )))
    | no p ↦ rw (eq_other b j p) (
        omega (
          int_laws,
          parts_of_eq (paid_ne b j p),
          parts_of_eq (credit-earned s aw ws n pool bal.room j k),
        ))
  ]

  -- What a pick does to each credit: it earns the weight, and the winner's pays the total.
  pub pick_account :
      (b : ℕ) × (b < n)
      × ((flow_swrr_pick s aw (pool_weights ws) n).1 ≡ get_or aw b (pos 0))
      × ((j : ℕ)
          → j < n
          → pos_part (credit (flow_swrr_pick s aw (pool_weights ws) n).0.current j)
              + neg_part (credit s.current j)
              + (if b == j then span ws 0 n else 0)
            ≡ pos_part (credit s.current j)
              + get_or ws j 0
              + neg_part (credit (flow_swrr_pick s aw (pool_weights ws) n).0.current j))
  unfolding settle paid
  pick_account =
      let (b, h, best, e') = pick_lem s aw ws n pool bal.room in
      (b, h, rw e' refl, λ j k. rw e' (paid_account b j h k))

  pub length-pick : length (flow_swrr_pick s aw (pool_weights ws) n).0.current ≡ length s.current
  unfolding settle
  length-pick =
      let (b, h, best, e') = pick_lem s aw ws n pool bal.room in
      rw e' (
        length-set e b (credit e b -ℤ pos (span ws 0 n))
        ∙ length-earn (pool_weights ws) n 0 s.current (pos 0))

  -- A pick keeps the balance.
  pub pick-IsBalanced : IsBalanced n bound (flow_swrr_pick s aw (pool_weights ws) n).0.current
  pick-IsBalanced =
      let (b, h, best, e') = pick_lem s aw ws n pool bal.room in rw e' (settle-IsBalanced b h best)

-- Debts bound the credits from above.
module _ (bound : ℕ) where
  sum_low :
      (c : List ℤ)
      → ((i : ℕ) → neg_part (credit c i) ≤ bound)
      → neg_part (sum_ℤ c) ≤ pos_part (sum_ℤ c) + length c * bound
  sum_low [] h = omega arith
  sum_low (x ∷ c) h = omega (int_laws, h 0, sum_low c (λ i. h (suc i)))

  pos_part-le :
      (c : List ℤ) (j : ℕ)
      → ((i : ℕ) → neg_part (credit c i) ≤ bound)
      → pos_part (credit c j) + neg_part (sum_ℤ c) ≤ pos_part (sum_ℤ c) + length c * bound
  pos_part-le [] j h = omega arith
  pos_part-le (x ∷ c) zero h = omega (int_laws, h 0, sum_low c (λ i. h (suc i)))
  pos_part-le (x ∷ c) (suc j) h = omega (int_laws, h 0, pos_part-le c j (λ i. h (suc i)))

debt-le :
    {n bound : ℕ} {c : List ℤ} → IsBalanced n bound c → (i : ℕ) → neg_part (credit c i) ≤ bound
debt-le {n} bal i = elim (dec_lt i n) [
  | yes p ↦ omega (arith, bal.behind i p)
  | no p ↦ omega (arith, ap neg_part (bal.unused i (omega arith)))
]

-- In balance, no credit leaves the range from `- bound` to `bound` times the number of slots.
pub IsBalanced-le :
    {n bound : ℕ} {c : List ℤ}
    → IsBalanced n bound c
    → (j : ℕ) → (neg_part (credit c j) ≤ bound) × (pos_part (credit c j) ≤ length c * bound)
IsBalanced-le {bound} {c} bal j =
    (debt-le bal j, omega (arith, parts_of_eq bal.cancel, pos_part-le bound c j (debt-le bal)))

-- Where nobody owes anything, nobody has anything.
pub credit_zero :
    {n bound : ℕ} {c : List ℤ}
    → IsBalanced n bound c
    → ((i : ℕ) → neg_part (credit c i) ≡ 0)
    → (j : ℕ) → credit c j ≡ pos 0
credit_zero {c} bal h j =
    eq_of_parts _ _
      (omega (arith, parts_of_eq bal.cancel, h j, pos_part-le 0 c j (λ i. omega (arith, h i))))
