-- ===== src/Policy/Select.antt =====
-- src/db/config.c: the order of policies and `config_select_crypto_policy`.
use ne_encryptor.Prelude.{
  ℕ, zero, suc, ◌≡◌, refl, sym, ◌∙◌, ap, ◌⊎◌, inl, inr, true, false, Option, none, some, List, [],
  ◌∷◌, arith, get_elem?, Bool-cases,
}
use mathlib.Core.Option.{some-injective, none-ne-some}
use ne_encryptor.Prelude.Int.{ℤ}
use ne_encryptor.Policy.{
  CryptoPolicy, Tuple, Profile, AppConfig, policy_at, crypto_policy_match_packet, goes_first,
  consider, select_loop, profile_at, select_crypto_policy,
}

-- `best` is a result that `cp` does not go before.
abbrev pub Beats : Option CryptoPolicy → CryptoPolicy → Type 0
Beats best cp = (b : CryptoPolicy) × (best ≡ some b) × (goes_first cp b ≡ false)

-- To go first is an order.
goes_first_irrefl : (x : CryptoPolicy) → goes_first x x ≡ false
unfolding goes_first
goes_first_irrefl x = ground arith

goes_first_asym : (x y : CryptoPolicy) → goes_first x y ≡ true → goes_first y x ≡ false
unfolding goes_first
goes_first_asym x y h = ground (arith, h)

goes_first_trans :
    (x y z : CryptoPolicy) → goes_first x y ≡ true → goes_first z y ≡ false → goes_first z x ≡ false
unfolding goes_first
goes_first_trans x y z h k = ground (arith, h, k)

module _ (t : Tuple) where
  -- One round keeps what was beaten.
  consider_keeps :
      (o : Option CryptoPolicy) (y cp : CryptoPolicy)
      → goes_first cp y ≡ false
      → Beats (consider t o (some y)) cp
  unfolding consider
  consider_keeps none y cp h = (y, refl, h)
  consider_keeps (some x) y cp h = elim (Bool-cases (crypto_policy_match_packet x t)) [
    | inr e ↦ (y, rw e refl, h)
    | inl e ↦ elim (Bool-cases (goes_first x y)) [
      | inl first ↦ (x, rw (e, first) refl, goes_first_trans x y cp first h)
      | inr later ↦ (y, rw (e, later) refl, h)
    ]
  ]

  -- One round beats the policy that it looks at.
  consider-Beats :
      (best : Option CryptoPolicy) (x : CryptoPolicy)
      → crypto_policy_match_packet x t ≡ true
      → Beats (consider t (some x) best) x
  unfolding consider
  consider-Beats none x e = (x, rw e refl, goes_first_irrefl x)
  consider-Beats (some y) x e = elim (Bool-cases (goes_first x y)) [
    | inl first ↦ (x, rw (e, first) refl, goes_first_irrefl x)
    | inr later ↦ (y, rw (e, later) refl, later)
  ]

  select_loop_keeps :
      (policies : List CryptoPolicy) (indices : List ℤ) (best : Option CryptoPolicy)
      (cp : CryptoPolicy)
      → Beats best cp
      → Beats (select_loop policies t indices best) cp
  unfolding select_loop
  select_loop_keeps policies [] best cp h = h
  select_loop_keeps policies (poli ∷ indices) none cp (b, e, h) = absurd (none-ne-some b e)
  select_loop_keeps policies (poli ∷ indices) (some y) cp (b, e, h) =
      select_loop_keeps policies indices (consider t (policy_at policies poli) (some y)) cp (
        consider_keeps (policy_at policies poli) y cp
          (ap (goes_first cp) (some-injective y b e) ∙ h))

  select_loop-Beats :
      (policies : List CryptoPolicy) (indices : List ℤ) (best : Option CryptoPolicy) (i : ℕ)
      (poli : ℤ) (cp : CryptoPolicy)
      → get_elem? indices i ≡ some poli
      → policy_at policies poli ≡ some cp
      → crypto_policy_match_packet cp t ≡ true
      → Beats (select_loop policies t indices best) cp
  unfolding select_loop
  select_loop-Beats policies [] best i poli cp e at_poli h = absurd (none-ne-some poli e)
  select_loop-Beats policies (x ∷ indices) best zero poli cp e at_poli h =
      let found : policy_at policies x ≡ some cp =
        ap (policy_at policies) (some-injective x poli e) ∙ at_poli in
      rw found (
        select_loop_keeps policies indices (consider t (some cp) best) cp
          (consider-Beats best cp h))
  select_loop-Beats policies (x ∷ indices) best (suc i) poli cp e at_poli h =
      select_loop-Beats policies indices (consider t (policy_at policies x) best) i poli cp e
        at_poli h

  -- `cp` stands at one of the `indices` and takes the packet.
  abbrev pub IsApplicable : List CryptoPolicy → List ℤ → CryptoPolicy → Type 0
  IsApplicable policies indices cp =
      (i : ℕ) × (poli : ℤ) × (get_elem? indices i ≡ some poli)
      × (policy_at policies poli ≡ some cp)
      × (crypto_policy_match_packet cp t ≡ true)

  consider_source :
      (o best : Option CryptoPolicy) (b : CryptoPolicy)
      → consider t o best ≡ some b
      → (best ≡ some b) ⊎ ((o ≡ some b) × (crypto_policy_match_packet b t ≡ true))
  unfolding consider
  consider_source none best b e = inl e
  consider_source (some x) none b e = elim (Bool-cases (crypto_policy_match_packet x t)) [
    | inl h ↦
        let same : Path (Option CryptoPolicy) (some x) (some b) = sym (rw h refl) ∙ e in
        inr (same, ap (λ c. crypto_policy_match_packet c t) (sym (some-injective x b same)) ∙ h)
    | inr h ↦ absurd (none-ne-some b (sym (rw h refl) ∙ e))
  ]
  consider_source (some x) (some y) b e = elim (Bool-cases (crypto_policy_match_packet x t)) [
    | inr h ↦ inl (sym (rw h refl) ∙ e)
    | inl h ↦ elim (Bool-cases (goes_first x y)) [
      | inr later ↦ inl (sym (rw (h, later) refl) ∙ e)
      | inl first ↦
          let same : Path (Option CryptoPolicy) (some x) (some b) = sym (rw (h, first) refl) ∙ e in
          inr (same, ap (λ c. crypto_policy_match_packet c t) (sym (some-injective x b same)) ∙ h)
    ]
  ]

  select_loop_source :
      (policies : List CryptoPolicy) (indices : List ℤ) (best : Option CryptoPolicy)
      (b : CryptoPolicy)
      → select_loop policies t indices best ≡ some b
      → (best ≡ some b) ⊎ IsApplicable policies indices b
  unfolding select_loop
  select_loop_source policies [] best b e = inl e
  select_loop_source policies (poli ∷ indices) best b e =
      elim (select_loop_source policies indices (consider t (policy_at policies poli) best) b e) [
        | inr (i, x, at_i, at_x, h) ↦ inr (suc i, x, at_i, at_x, h)
        | inl now ↦ elim (consider_source (policy_at policies poli) best b now) [
          | inl before ↦ inl before
          | inr (at_poli, h) ↦ inr (zero, poli, refl, at_poli, h)
        ]
      ]

chosen_lem :
    (cfg : AppConfig) (profile_idx : ℤ) (p : Profile) (t : Tuple)
    → profile_at cfg profile_idx ≡ some p
    → select_crypto_policy cfg profile_idx t ≡ select_loop cfg.policies t p.policy_indices none
unfolding select_crypto_policy
chosen_lem cfg profile_idx p t at_idx = rw (at_idx, select_crypto_policy) refl

-- A policy that `select_crypto_policy` returns for the profile `p` at `profile_idx` stands at one of
-- the policy indices of `p` and takes the packet.
pub select_crypto_policy-IsApplicable :
    (cfg : AppConfig) (profile_idx : ℤ) (p : Profile) (t : Tuple) (b : CryptoPolicy)
    → profile_at cfg profile_idx ≡ some p
    → select_crypto_policy cfg profile_idx t ≡ some b
    → IsApplicable t cfg.policies p.policy_indices b
select_crypto_policy-IsApplicable cfg profile_idx p t b at_idx e =
    elim (select_loop_source t cfg.policies p.policy_indices none b
      (sym (chosen_lem cfg profile_idx p t at_idx) ∙ e)) [
        | inl absent ↦ absurd (none-ne-some b absent)
        | inr found ↦ found
      ]

-- If a policy `cp` stands at one of the policy indices of the profile `p` at `profile_idx` and takes
-- the packet, then `select_crypto_policy` returns a policy, and `cp` does not go before it, by
-- priority and then by id.
pub select_crypto_policy-Beats :
    (cfg : AppConfig) (profile_idx : ℤ) (p : Profile) (t : Tuple) (cp : CryptoPolicy)
    → profile_at cfg profile_idx ≡ some p
    → IsApplicable t cfg.policies p.policy_indices cp
    → Beats (select_crypto_policy cfg profile_idx t) cp
select_crypto_policy-Beats cfg profile_idx p t cp at_idx (i, poli, at_i, at_poli, h) =
    let (b, e, first) =
      select_loop-Beats t cfg.policies p.policy_indices none i poli cp at_i at_poli h in
    (b, chosen_lem cfg profile_idx p t at_idx ∙ e, first)
