-- ===== src/Policy/Gate.antt =====
-- src/db/config.c, src/core/dataplane/wan_ingress.c: the policy gate of the first profile, beside the
-- selection for packets that leave.
use ne_encryptor.Prelude.{
  ℕ, suc, ◌+◌, ◌≤◌, ◌≡◌, refl, ap, sym, ◌∙◌, inl, inr, Bool, true, false, Option, none, some, List,
  [], ◌∷◌, ◌++◌, arith, ltb, ◌||◌, not, if◌then◌else◌, length, Bool-cases, Option-cases,
  length-append, get_elem?, get_or, set,
}
use mathlib.Core.Option.{none-ne-some}
use mathlib.Core.Bool.{true≢false}
use ne_encryptor.Prelude.Int.{ℤ, pos, pos_part, ltb_ℤ}
use ne_encryptor.Policy.{
  CryptoPolicy, Tuple, Profile, AppConfig, policy_at, proto_ok, port_ok, cidr_match_with_negate,
  crypto_policy_match_packet, select_loop, consider, select_crypto_policy, profile_at,
}
use ne_encryptor.Policy.Inbound.{
  PolInMatch, InTable, pol_in_fill, policy_port_is_any, crypto_policy_is_catchall, has_catchall,
  add_entry, fill_entries, refresh_policy_in_any, any_entry_ok, policy_in_ok, max_crypto_policies,
  empty_table,
}
use ne_encryptor.Policy.Mirror.{reverse, IsParsed, IsPacket, entry_lem}

abbrev pub is_some {ℓ} : {A : Type ℓ} → Option A → Bool
is_some none = false
is_some (some a) = true

-- The condition under which `wan_ingress.c` lets a decrypted packet of the first profile pass.
unfoldable pub gate_open : AppConfig → InTable → Tuple → Bool
gate_open cfg table t = elim cfg.profiles [
  | [] ↦ false
  | p ∷ profiles ↦ if not p.policy_in_any then policy_in_ok cfg table (pos 0) t else true
]

-- Whether one of the policies at `indices` takes the packet.
abbrev pub takes : Option CryptoPolicy → Tuple → Bool
takes none t = false
takes (some cp) t = crypto_policy_match_packet cp t

abbrev pub any_match : List CryptoPolicy → Tuple → List ℤ → Bool
any_match policies t [] = false
any_match policies t (poli ∷ indices) =
    takes (policy_at policies poli) t || any_match policies t indices

module _ (t : Tuple) where
  consider_lem :
      (o best : Option CryptoPolicy) → is_some (consider t o best) ≡ (is_some best || takes o t)
  unfolding consider
  consider_lem none none = refl
  consider_lem none (some best) = refl
  consider_lem (some cp) none = ground arith
  consider_lem (some cp) (some best) = ground arith

  select_loop_lem :
      (policies : List CryptoPolicy) (indices : List ℤ) (best : Option CryptoPolicy)
      → is_some (select_loop policies t indices best)
        ≡ (is_some best || any_match policies t indices)
  unfolding select_loop
  select_loop_lem policies [] best = ground arith
  select_loop_lem policies (poli ∷ indices) best =
      let o = policy_at policies poli in
      ground (arith, select_loop_lem policies indices (consider t o best), consider_lem o best)

  fill_one-entry :
      (cp : CryptoPolicy) (entries : List PolInMatch)
      → IsParsed cp
      → IsPacket t
      → any_entry_ok (entries ++ pol_in_fill cp ∷ []) (reverse t)
        ≡ (any_entry_ok entries (reverse t) || crypto_policy_match_packet cp t)
  unfolding any_entry_ok
  fill_one-entry cp [] parsed packet = ground (arith, entry_lem cp t parsed packet)
  fill_one-entry cp (e ∷ entries) parsed packet =
      ground (arith, fill_one-entry cp entries parsed packet)

-- Every policy has ranges that were parsed.
abbrev pub AllParsed : List CryptoPolicy → Type 0
AllParsed policies = (i : ℕ) (cp : CryptoPolicy) → get_elem? policies i ≡ some cp → IsParsed cp

policy_at-IsParsed :
    (policies : List CryptoPolicy) (poli : ℤ) (cp : CryptoPolicy)
    → AllParsed policies
    → policy_at policies poli ≡ some cp
    → IsParsed cp
unfolding policy_at
policy_at-IsParsed policies poli cp all e =
    elim (Bool-cases (ltb_ℤ poli (pos 0) || not (ltb_ℤ poli (pos (length policies))))) [
      | inl out ↦ absurd (none-ne-some cp (sym (rw out refl) ∙ e))
      | inr in_range ↦ all (pos_part poli) cp (sym (rw in_range refl) ∙ e)
    ]

add_entry_lem :
    (o : Option CryptoPolicy) (entries : List PolInMatch) (t : Tuple)
    → ((cp : CryptoPolicy) → o ≡ some cp → IsParsed cp)
    → IsPacket t
    → length entries + 1 ≤ max_crypto_policies
    → (any_entry_ok (add_entry o entries) (reverse t)
        ≡ (any_entry_ok entries (reverse t) || takes o t))
      × (length (add_entry o entries) ≤ length entries + 1)
unfolding add_entry
add_entry_lem none entries t parsed packet room = ground arith
add_entry_lem (some cp) entries t parsed packet room =
    let fits : ltb (length entries) max_crypto_policies ≡ true = ground (arith, room) in
    rw fits (
      fill_one-entry t cp entries (parsed cp refl) packet,
      omega (arith, length-append entries (pol_in_fill cp ∷ [])),
    )

module _ (policies : List CryptoPolicy) (t : Tuple) (all : AllParsed policies)
    (packet : IsPacket t) where
  fill_entries_lem :
      (indices : List ℤ) (entries : List PolInMatch)
      → length entries + length indices ≤ max_crypto_policies
      → any_entry_ok (fill_entries policies indices entries) (reverse t)
        ≡ (any_entry_ok entries (reverse t) || any_match policies t indices)
  unfolding fill_entries
  fill_entries_lem [] entries room = ground arith
  fill_entries_lem (poli ∷ indices) entries room =
      let o = policy_at policies poli in
      let (same, longer) =
        add_entry_lem o entries t (λ cp. policy_at-IsParsed policies poli cp all) packet
          (omega (arith, room)) in
      let rest = fill_entries_lem indices (add_entry o entries) (omega (arith, longer, room)) in
      ground (arith, same, rest)

  catchall_lem :
      (cp : CryptoPolicy)
      → crypto_policy_is_catchall cp ≡ true
      → crypto_policy_match_packet cp t ≡ true
  unfolding crypto_policy_is_catchall crypto_policy_match_packet policy_port_is_any port_ok proto_ok
      cidr_match_with_negate
  catchall_lem cp h = ground (arith, h, packet.src_in, packet.dst_in)

  has_catchall_lem :
      (indices : List ℤ)
      → has_catchall policies indices ≡ true
      → any_match policies t indices ≡ true
  unfolding has_catchall
  has_catchall_lem (poli ∷ indices) h = elim (Option-cases (policy_at policies poli)) [
    | inl e ↦ ground (arith, e, h, has_catchall_lem indices)
    | inr (cp, e) ↦ ground (arith, e, h, has_catchall_lem indices, catchall_lem cp)
  ]
  has_catchall_lem [] h = absurd (true≢false (sym h))

select_first :
    (p : Profile) (profiles : List Profile) (policies : List CryptoPolicy) (t : Tuple)
    → select_crypto_policy (record { profiles = p ∷ profiles; policies = policies }) (pos 0) t
      ≡ select_loop policies t p.policy_indices none
unfolding select_crypto_policy profile_at
select_first p profiles policies t =
    let in_range : ltb_ℤ (pos 0) (pos (suc (length profiles))) ≡ true = ground arith in
    rw (in_range, select_crypto_policy, profile_at) refl

policy_in_ok_first :
    (p : Profile) (profiles : List Profile) (policies : List CryptoPolicy) (table : InTable)
    (t : Tuple)
    → policy_in_ok (record { profiles = p ∷ profiles; policies = policies }) table (pos 0) t
      ≡ any_entry_ok (get_or table 0 []) t
unfolding policy_in_ok
policy_in_ok_first p profiles policies table t =
    let in_range : ltb_ℤ (pos 0) (pos (suc (length profiles))) ≡ true = ground arith in
    rw in_range refl

-- For a first profile `p` with at most 128 policy indices, policies with parsed ranges and a
-- packet with 16-bit ports: after `refresh_policy_in_any`, the gate for packets that come in is
-- open for the answer to the packet if and only if the packet falls under a policy.
pub gate_open-reverse :
    (p : Profile) (profiles : List Profile) (policies : List CryptoPolicy) (t : Tuple)
    → AllParsed policies
    → IsPacket t
    → length p.policy_indices ≤ max_crypto_policies
    → let cfg : AppConfig = record { profiles = p ∷ profiles; policies = policies } in
      gate_open ((refresh_policy_in_any cfg).0) ((refresh_policy_in_any cfg).1) (reverse t)
      ≡ is_some (select_crypto_policy cfg (pos 0) t)
unfolding gate_open refresh_policy_in_any any_entry_ok
gate_open-reverse p profiles policies t all packet few =
    let chosen =
      ap is_some (select_first p profiles policies t)
      ∙ select_loop_lem t policies p.policy_indices none in
    elim (Bool-cases (has_catchall policies p.policy_indices)) [
      | inl skip ↦
          rw skip (sym (chosen ∙ has_catchall_lem policies t all packet p.policy_indices skip))
      | inr keep ↦ rw keep (
          policy_in_ok_first (record p { policy_in_any = false }) profiles policies
            (set empty_table 0 (fill_entries policies p.policy_indices [])) (reverse t)
          ∙ fill_entries_lem policies t all packet p.policy_indices [] (omega (arith, few))
          ∙ sym chosen)
    ]
