-- ===== src/Flow/Swrr/Fair.antt =====
-- src/core/flow/flow_table.c: what a flow gets from many picks on one pool.
use native.Mathlib.Nat.{mul-le-mul_left, eq_of_mul-eq-mul_left}
use ne_encryptor.Prelude.{
  ℕ, zero, suc, ◌+◌, ◌*◌, ◌≤◌, ◌<◌, ◌≡◌, ap, ◌∙◌, inl, inr, List, [], ◌∷◌, arith, Bool, true, false,
  ◌==◌, if◌then◌else◌, get_or, ℕ_discrete, dec_lt, Bool-cases, get_or-replicate,
}
use ne_encryptor.Prelude.Int.{
  ℤ, pos, pos_part, neg_part, eqb_ℤ, eqb_ℤ_refl, eqb_ℤ→eq, int_laws, parts_of_eq, one_part,
  eq_of_parts,
}
use ne_encryptor.Flow.Swrr.{SwrrState, FlowKey, max_interfaces, flow_swrr_pick, flow_swrr_reset}
use ne_encryptor.Flow.Swrr.Credits.{credit, span, pool_weights}
use ne_encryptor.Flow.Swrr.Step.{IsPool, span-pos}
use ne_encryptor.Flow.Swrr.Balance.{IsBalanced, pick-IsBalanced, pick_account, credit_zero}

-- `m` picks one after the other, with the WANs that they returned.
unfoldable pub serve : ℕ → SwrrState → List ℤ → List ℕ → ℕ → SwrrState × List ℤ
serve zero s aw ws n = (s, [])
serve (suc m) s aw ws n =
    let (s', wan) = flow_swrr_pick s aw (pool_weights ws) n in
    let (s'', rest) = serve m s' aw ws n in (s'', wan ∷ rest)

-- How often a WAN was returned.
abbrev pub times : ℤ → List ℤ → ℕ
times v [] = 0
times v (x ∷ xs) = (if eqb_ℤ x v then 1 else 0) + times v xs

-- The WANs of the pool differ.
abbrev pub AreDistinct : List ℤ → ℕ → Type 0
AreDistinct aw n = (i j : ℕ) → i < n → j < n → get_or aw i (pos 0) ≡ get_or aw j (pos 0) → i ≡ j

-- Two accounts joined, of one pick and of those after it.
account_step :
    (hit : Bool) (w k m g p0 n0 p1 n1 p2 n2 : ℕ)
    → p1 + n0 + (if hit then w else 0) ≡ p0 + g + n1
    → p2 + n1 + w * k ≡ p1 + m * g + n2
    → p2 + n0 + w * ((if hit then 1 else 0) + k) ≡ p0 + suc m * g + n2
account_step true w k m g p0 n0 p1 n1 p2 n2 h r = omega arith
account_step false w k m g p0 n0 p1 n1 p2 n2 h r = omega arith

le_of_rounds : (w k g : ℕ) → w * k < w * g + w → k ≤ g
le_of_rounds w k g h = elim (dec_lt g k) [
  | yes p ↦ absurd (omega (arith, h, mul-le-mul_left w p))
  | no p ↦ omega arith
]

module _ (aw : List ℤ) (ws : List ℕ) (n : ℕ) (pool : IsPool ws n)
    (distinct : AreDistinct aw n) where
  hit : (b j : ℕ) → b < n → j < n → eqb_ℤ (get_or aw b (pos 0)) (get_or aw j (pos 0)) ≡ (b == j)
  hit b j h k = elim (ℕ_discrete b j) [
    | yes p ↦ rw (← p, eqb_ℤ_refl (get_or aw b (pos 0))) (ground arith)
    | no p ↦ elim (Bool-cases (eqb_ℤ (get_or aw b (pos 0)) (get_or aw j (pos 0)))) [
      | inl e ↦ absurd (p (distinct b j h k (eqb_ℤ→eq _ _ e)))
      | inr e ↦ e ∙ ground arith
    ]
  ]

  serve-IsBalanced :
      (m : ℕ) (s : SwrrState)
      → IsBalanced n (span ws 0 n) s.current
      → IsBalanced n (span ws 0 n) (serve m s aw ws n).0.current
  unfolding serve
  serve-IsBalanced zero s bal = bal
  serve-IsBalanced (suc m) s bal =
      serve-IsBalanced m _ (pick-IsBalanced s aw ws n (span ws 0 n) pool (omega arith) bal)

  serve_account :
      (m : ℕ) (s : SwrrState) (j : ℕ)
      → j < n
      → IsBalanced n (span ws 0 n) s.current
      → let (s', out) = serve m s aw ws n in
        pos_part (credit s'.current j)
          + neg_part (credit s.current j)
          + span ws 0 n * times (get_or aw j (pos 0)) out
        ≡ pos_part (credit s.current j) + m * get_or ws j 0 + neg_part (credit s'.current j)
  unfolding serve
  serve_account zero s j h bal = omega arith
  serve_account (suc m) s j h bal =
      let (b, b_lt, wan, acc) = pick_account s aw ws n (span ws 0 n) pool (omega arith) bal in
      let next = (flow_swrr_pick s aw (pool_weights ws) n).0 in
      let rest =
        serve_account m next j h (pick-IsBalanced s aw ws n (span ws 0 n) pool (omega arith) bal) in
      let seen : eqb_ℤ (flow_swrr_pick s aw (pool_weights ws) n).1 (get_or aw j (pos 0))
          ≡ (b == j) =
        rw wan (hit b j b_lt h) in
      rw seen (account_step (b == j) _ _ m _ _ _ _ _ _ _ (acc j h) rest)

pub reset-IsBalanced :
    (key : FlowKey) (hash : ℕ) (aw : List ℤ) (n bound : ℕ)
    → n ≤ max_interfaces
    → 0 < bound
    → IsBalanced n bound (flow_swrr_reset key hash aw n).current
unfolding flow_swrr_reset
reset-IsBalanced key hash aw n bound h p = record {
  room = h;
  cancel = eq_of_parts _ _ (omega int_laws);
  unused = λ j _. get_or-replicate max_interfaces j (pos 0);
  behind = λ j _. rw (get_or-replicate max_interfaces j (pos 0)) p;
}

credit-reset :
    (key : FlowKey) (hash : ℕ) (aw : List ℤ) (n j : ℕ)
    → credit (flow_swrr_reset key hash aw n).current j ≡ pos 0
unfolding flow_swrr_reset
credit-reset key hash aw n j = get_or-replicate max_interfaces j (pos 0)

module _ (key : FlowKey) (hash : ℕ) (aw : List ℤ) (ws : List ℕ) (n : ℕ) (pool : IsPool ws n)
    (fits : n ≤ max_interfaces) (distinct : AreDistinct aw n) where
  -- the state of a flow that is new, or whose pool has changed
  abbrev new : SwrrState
  new = flow_swrr_reset key hash aw n

  total-pos : 0 < span ws 0 n
  total-pos =
      span-pos ws n (omega (arith, pool.several)) (pool.eligible 0 (omega (arith, pool.several)))

  new-IsBalanced : IsBalanced n (span ws 0 n) new.current
  new-IsBalanced = reset-IsBalanced key hash aw n (span ws 0 n) fits total-pos

  after : (m : ℕ) → IsBalanced n (span ws 0 n) (serve m new aw ws n).0.current
  after m = serve-IsBalanced aw ws n pool distinct m new new-IsBalanced

  new_account :
      (m j : ℕ)
      → j < n
      → pos_part (credit (serve m new aw ws n).0.current j)
          + span ws 0 n * times (get_or aw j (pos 0)) (serve m new aw ws n).1
        ≡ m * get_or ws j 0 + neg_part (credit (serve m new aw ws n).0.current j)
  new_account m j h = omega (
    arith,
    serve_account aw ws n pool distinct m new j h new-IsBalanced,
    parts_of_eq (credit-reset key hash aw n j),
  )

  -- On a pool of 2 to 16 distinct WANs with positive weights, however many picks a new flow has
  -- made, no WAN is a full pick ahead of its share: its picks times the total weight stay below
  -- the picks made times its own weight, plus the total weight.
  pub serve_not_ahead :
      (m j : ℕ)
      → j < n
      → span ws 0 n * times (get_or aw j (pos 0)) (serve m new aw ws n).1
        < m * get_or ws j 0 + span ws 0 n
  serve_not_ahead m j h = omega (arith, new_account m j h, (after m).behind j h)

  round_le :
      (j : ℕ)
      → j < n
      → times (get_or aw j (pos 0)) (serve (span ws 0 n) new aw ws n).1 ≤ get_or ws j 0
  round_le j h = le_of_rounds (span ws 0 n) _ _ (serve_not_ahead (span ws 0 n) j h)

  no_debt : (i : ℕ) → neg_part (credit (serve (span ws 0 n) new aw ws n).0.current i) ≡ 0
  no_debt i = elim (dec_lt i n) [
    | yes p ↦ omega (
      arith,
      new_account (span ws 0 n) i p,
      mul-le-mul_left (span ws 0 n) (round_le i p),
      one_part (credit (serve (span ws 0 n) new aw ws n).0.current i),
    )
    | no p ↦ ap neg_part ((after (span ws 0 n)).unused i (omega arith))
  ]

  -- On a pool of 2 to 16 distinct WANs with positive weights, the first round of a new flow, of
  -- as many picks as the weights sum to, returns every WAN exactly as often as its weight says
  -- and leaves every credit at 0.
  pub serve_full_round :
      (j : ℕ)
      → j < n
      → (times (get_or aw j (pos 0)) (serve (span ws 0 n) new aw ws n).1 ≡ get_or ws j 0)
        × (credit (serve (span ws 0 n) new aw ws n).0.current j ≡ pos 0)
  serve_full_round j h =
      let even = credit_zero (after (span ws 0 n)) no_debt j in
      (
        eq_of_mul-eq-mul_left (span ws 0 n) total-pos _ _
            (omega (arith, new_account (span ws 0 n) j h, parts_of_eq even)),
        even,
      )
