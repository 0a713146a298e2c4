-- ===== src/Flow/Swrr/Range.antt =====
-- src/core/flow/flow_table.c: the range of the 64-bit credits, also when the weights change from
-- pick to pick, as they do while a WAN joins or drains.
use ne_encryptor.Prelude.{
  ℕ, zero, suc, ◌+◌, ◌*◌, ◌^◌, ◌≤◌, ◌<◌, ◌≡◌, refl, ◌∙◌, List, [], ◌∷◌, arith, length, get_or, ap,
  ℕ_discrete,
}
use ne_encryptor.Prelude.Int.{ℤ, pos_part, neg_part, int_laws, parts_of_eq, one_part}
use ne_encryptor.Flow.Swrr.{SwrrState, FlowKey, max_interfaces, flow_swrr_pick, flow_swrr_reset}
use ne_encryptor.Flow.Swrr.Credits.{credit, span, pool_weights}
use ne_encryptor.Flow.Swrr.Step.{IsPool, earned, credit-earned}
use ne_encryptor.Flow.Swrr.Balance.{IsBalanced, pick-IsBalanced, length-pick, IsBalanced-le}
use ne_encryptor.Flow.Swrr.Fair.{reset-IsBalanced}

-- Picks one after the other, each with the weights of its moment.
unfoldable pub serve_each : List (List ℕ) → SwrrState → List ℤ → ℕ → SwrrState
serve_each [] s aw n = s
serve_each (ws ∷ rounds) s aw n = serve_each rounds (flow_swrr_pick s aw (pool_weights ws) n).0 aw n

-- In every round the weights are positive and sum to no more than `bound`.
abbrev pub AreRounds : ℕ → ℕ → List (List ℕ) → Type 0
AreRounds n bound [] = Unit {0}
AreRounds n bound (ws ∷ rounds) = IsPool ws n × (span ws 0 n ≤ bound) × AreRounds n bound rounds

abbrev Fits : ℕ → ℕ → SwrrState → Type 0
Fits n bound s = IsBalanced n bound s.current × (length s.current ≡ max_interfaces)

serve_each-Fits :
    (rounds : List (List ℕ)) (s : SwrrState) (aw : List ℤ) (n bound : ℕ)
    → AreRounds n bound rounds
    → Fits n bound s
    → Fits n bound (serve_each rounds s aw n)
unfolding serve_each
serve_each-Fits [] s aw n bound r f = f
serve_each-Fits (ws ∷ rounds) s aw n bound (pool, small, r) (bal, len) =
    serve_each-Fits rounds _ aw n bound r (
      pick-IsBalanced s aw ws n bound pool small bal,
      length-pick s aw ws n bound pool small bal ∙ len,
    )

reset-Fits :
    (key : FlowKey) (hash : ℕ) (aw : List ℤ) (n bound : ℕ)
    → n ≤ max_interfaces
    → 0 < bound
    → Fits n bound (flow_swrr_reset key hash aw n)
unfolding flow_swrr_reset
reset-Fits key hash aw n bound h p = (reset-IsBalanced key hash aw n bound h p, refl)

-- the weight of one WAN is part of the total
weight-le_span : (ws : List ℕ) (n i j : ℕ) → i ≤ j → j < i + n → get_or ws j 0 ≤ span ws i n
weight-le_span ws zero i j h k = absurd (omega arith)
weight-le_span ws (suc n) i j h k = elim (ℕ_discrete i j) [
  | yes p ↦ rw (← p) (omega arith)
  | no p ↦ omega (arith, weight-le_span ws n (i + 1) j (omega arith) (omega arith))
]

-- Where the positive weights of each round sum to at most `bound`, below 2^58, the credits of
-- a pool of at most 16 WANs keep within `int64_t` after any number of rounds, and so do the
-- credits of the next round after the loop that adds the weights.
pub serve_each_in_range :
    (key : FlowKey) (hash : ℕ) (aw : List ℤ) (n bound : ℕ) (rounds : List (List ℕ)) (ws : List ℕ)
    (j : ℕ)
    → n ≤ max_interfaces
    → 0 < bound
    → bound < 2 ^ 58
    → AreRounds n bound rounds
    → IsPool ws n
    → span ws 0 n ≤ bound
    → j < n
    → let c = (serve_each rounds (flow_swrr_reset key hash aw n) aw n).current in
      (neg_part (credit c j) < 2 ^ 63)
      × (pos_part (credit c j) < 2 ^ 63)
      × (neg_part (credit (earned ws n c) j) < 2 ^ 63)
      × (pos_part (credit (earned ws n c) j) < 2 ^ 63)
serve_each_in_range key hash aw n bound rounds ws j h p b r pool small k =
    let s = serve_each rounds (flow_swrr_reset key hash aw n) aw n in
    let (bal, len) = serve_each-Fits rounds _ aw n bound r (reset-Fits key hash aw n bound h p) in
    let (low, high) = IsBalanced-le bal j in
    let earn_j = parts_of_eq (credit-earned s aw ws n pool bal.room j k) in
    let sixteen : length s.current * bound ≡ 16 * bound = ap (λ t. t * bound) len in
    let w_le = weight-le_span ws n 0 j (omega arith) (omega arith) in
    let e = credit (earned ws n s.current) j in
    (
      omega arith,
      omega arith,
      omega (int_laws, earn_j, one_part e),
      omega (int_laws, earn_j, one_part e),
    )
