-- ===== src/Flow/Swrr/Credits.antt =====
-- src/core/flow/flow_table.c: what the first loop of `flow_swrr_pick` does to the credits of a
-- pool of natural weights.
use ne_encryptor.Prelude.{
  ℕ, zero, suc, ◌+◌, ◌≤◌, ◌<◌, ◌≡◌, refl, sym, ap, ◌∙◌, inl, inr, Option, some, List, [], ◌∷◌, map,
  arith, ◌==◌, Bool-cases, if◌then◌else◌, length, get_or, set, length-set, get_or-set_self,
  get_or-set_ne, get_or-map, ℕ_discrete,
}
use ne_encryptor.Prelude.Int.{
  ℤ, pos, ◌+ℤ◌, ltb_ℤ, int_laws, parts_of_eq, +ℤ-zero, +ℤ_assoc, pos-+ℤ, eq_of_parts,
}
use ne_encryptor.Flow.Swrr.{earn_credit, earn_total, earn, weight_at}

-- The weights `i` to `i + n - 1` together.
abbrev pub span : List ℕ → ℕ → ℕ → ℕ
span ws i zero = 0
span ws i (suc n) = get_or ws i 0 + span ws (i + 1) n

abbrev pub sum_ℤ : List ℤ → ℤ
sum_ℤ [] = pos 0
sum_ℤ (x ∷ xs) = x +ℤ sum_ℤ xs

abbrev pub credit : List ℤ → ℕ → ℤ
credit c j = get_or c j (pos 0)

abbrev pub pool_weights : List ℕ → Option (List ℤ)
pool_weights ws = some (map pos ws)

pub weight_at-pool : (ws : List ℕ) (i : ℕ) → weight_at (pool_weights ws) i ≡ pos (get_or ws i 0)
weight_at-pool ws i = get_or-map pos ws i 0

pub sum_ℤ-set :
    (c : List ℤ) (i : ℕ) (v : ℤ) → i < length c → sum_ℤ (set c i v) +ℤ credit c i ≡ sum_ℤ c +ℤ v
sum_ℤ-set [] i v h = elim h [ ]
sum_ℤ-set (x ∷ c) zero v h = omega int_laws
sum_ℤ-set (x ∷ c) (suc i) v h = omega (int_laws, parts_of_eq (sum_ℤ-set c i v (omega arith)))

abbrev pub at_index : ℕ → ℕ → ℕ → ℕ
at_index i w j = if i == j then w else 0

-- One round of the loop, with the guard gone: a weight of zero adds nothing.
credit-earn_credit :
    (c : List ℤ) (i w j : ℕ)
    → i < length c
    → credit (earn_credit (pos w) c i) j ≡ credit c j +ℤ pos (at_index i w j)
unfolding earn_credit
credit-earn_credit c i zero j h =
    let e : at_index i 0 j ≡ 0 = ground arith in rw e (sym (+ℤ-zero _))
credit-earn_credit c i (suc w) j h = elim (ℕ_discrete i j) [
  | yes p ↦ ground (arith, get_or-set_self c i (credit c i +ℤ pos (suc w)) (pos 0) h)
  | no p ↦
      ground
        (arith, get_or-set_ne c i j (credit c i +ℤ pos (suc w)) (pos 0) p, +ℤ-zero (credit c j))
]

length-earn_credit : (c : List ℤ) (i : ℕ) (w : ℤ) → length (earn_credit w c i) ≡ length c
unfolding earn_credit
length-earn_credit c i w = ground (arith, length-set c i (credit c i +ℤ w))

earn_total-pos : (w t : ℕ) → earn_total (pos w) (pos t) ≡ pos (t + w)
unfolding earn_total
earn_total-pos w t = ground (arith, pos-+ℤ t w)

earn_step :
    (ws : List ℕ) (n i t : ℕ) (c : List ℤ)
    → earn (pool_weights ws) (suc n) i c (pos t)
      ≡ earn
          (pool_weights ws)
          n
          (i + 1)
          (earn_credit (pos (get_or ws i 0)) c i)
          (pos (t + get_or ws i 0))
unfolding earn
earn_step ws n i t c = rw (get_or-map pos ws i 0, earn_total-pos)

-- What the rounds from `i` on give to the WAN `j`.
abbrev pub share : List ℕ → ℕ → ℕ → ℕ → ℕ
share ws zero i j = 0
share ws (suc n) i j = at_index i (get_or ws i 0) j + share ws n (i + 1) j

share_below : (ws : List ℕ) (n i j : ℕ) → j < i → share ws n i j ≡ 0
share_below ws zero i j h = refl
share_below ws (suc n) i j h = ground (arith, share_below ws n (i + 1) j)

pub share_in : (ws : List ℕ) (n i j : ℕ) → i ≤ j → j < i + n → share ws n i j ≡ get_or ws j 0
share_in ws zero i j h k = absurd (omega arith)
share_in ws (suc n) i j h k = elim (ℕ_discrete i j) [
  | yes p ↦ ground (arith, share_below ws n (i + 1) j, ap (λ k. get_or ws k 0) p)
  | no p ↦ ground (arith, share_in ws n (i + 1) j)
]

pub share_above : (ws : List ℕ) (n i j : ℕ) → i + n ≤ j → share ws n i j ≡ 0
share_above ws zero i j h = refl
share_above ws (suc n) i j h = ground (arith, share_above ws n (i + 1) j)

-- The credits after the loop, for every WAN.
pub credit-earn :
    (ws : List ℕ) (n i t j : ℕ) (c : List ℤ)
    → i + n ≤ length c
    → credit (earn (pool_weights ws) n i c (pos t)).0 j ≡ credit c j +ℤ pos (share ws n i j)
unfolding earn
credit-earn ws zero i t j c h = sym (+ℤ-zero _)
credit-earn ws (suc n) i t j c h = rw earn_step (
    credit-earn ws n (i + 1) (t + get_or ws i 0) j (earn_credit (pos (get_or ws i 0)) c i)
      (omega (arith, length-earn_credit c i (pos (get_or ws i 0))))
    ∙ (rw (credit-earn_credit c i (get_or ws i 0) j (omega arith))
        (+ℤ_assoc _ _ _ ∙ ap (λ x. credit c j +ℤ x) (pos-+ℤ _ _))))

pub total-earn :
    (ws : List ℕ) (n i t : ℕ) (c : List ℤ)
    → (earn (pool_weights ws) n i c (pos t)).1 ≡ pos (t + span ws i n)
unfolding earn
total-earn ws zero i t c = ap pos (omega arith)
total-earn ws (suc n) i t c =
    rw earn_step (total-earn ws n (i + 1) (t + get_or ws i 0) _ ∙ ap pos (omega arith))

pub length-earn :
    (weights : Option (List ℤ)) (n i : ℕ) (c : List ℤ) (t : ℤ)
    → length (earn weights n i c t).0 ≡ length c
unfolding earn
length-earn weights zero i c t = refl
length-earn weights (suc n) i c t =
    length-earn weights n (i + 1) _ _ ∙ length-earn_credit c i (weight_at weights i)

-- The loop adds to the sum of the credits what it adds to the total.
sum-earn_credit :
    (c : List ℤ) (i : ℕ) (w t : ℤ)
    → i < length c
    → sum_ℤ (earn_credit w c i) +ℤ t ≡ sum_ℤ c +ℤ earn_total w t
unfolding earn_credit earn_total
sum-earn_credit c i w t h = elim (Bool-cases (ltb_ℤ (pos 0) w)) [
  | inl e ↦
      rw e (eq_of_parts _ _ (omega (int_laws, parts_of_eq (sum_ℤ-set c i (credit c i +ℤ w) h))))
  | inr e ↦ rw e
]

pub sum-earn :
    (weights : Option (List ℤ)) (n i : ℕ) (c : List ℤ) (t : ℤ)
    → i + n ≤ length c
    → sum_ℤ (earn weights n i c t).0 +ℤ t ≡ sum_ℤ c +ℤ (earn weights n i c t).1
unfolding earn
sum-earn weights zero i c t h = refl
sum-earn weights (suc n) i c t h =
    let w = weight_at weights i in
    eq_of_parts _ _ (
      omega (
        int_laws,
        parts_of_eq (sum-earn_credit c i w t (omega arith)),
        parts_of_eq (
            sum-earn weights n (i + 1) (earn_credit w c i) (earn_total w t)
              (omega (arith, length-earn_credit c i w))),
      ))
