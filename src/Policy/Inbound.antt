-- ===== src/Policy/Inbound.antt =====
-- src/db/config.c: the compact table for packets that come in from a WAN. Its entries have the
-- ends of a policy the other way round.
use ne_encryptor.Prelude.{
  ℕ, Bool, true, false, Option, none, some, List, [], ◌∷◌, ◌++◌, ltb, ◌==◌, ◌&&◌, ◌||◌, not,
  if◌then◌else◌, length, get_or, set, replicate, bit_and,
}
use ne_encryptor.Prelude.Int.{ℤ, pos, pos_part, ltb_ℤ}
use ne_encryptor.Policy.{CryptoPolicy, Tuple, AppConfig, policy_at, proto_any, proto_ok}

abbrev pub max_profiles : ℕ
max_profiles = 32

abbrev pub max_crypto_policies : ℕ
max_crypto_policies = 128

-- The two bits of `flags` are fields.
pub record PolInMatch : Type 0 where
  pub src_net : ℕ
  pub src_mask : ℕ
  pub dst_net : ℕ
  pub dst_mask : ℕ
  pub sport_lo : ℕ
  pub sport_hi : ℕ
  pub dport_lo : ℕ
  pub dport_hi : ℕ
  pub proto : ℕ
  pub src_neg : Bool
  pub dst_neg : Bool

unfoldable pub policy_port_is_any : ℤ → ℤ → Bool
policy_port_is_any from to =
    if ltb_ℤ from (pos 0) || ltb_ℤ to (pos 0)
    then true
    else not (ltb_ℤ (pos 0) from) && not (ltb_ℤ to (pos 65535))

unfoldable pub crypto_policy_is_catchall : CryptoPolicy → Bool
crypto_policy_is_catchall cp =
    if not cp.src_any || not cp.dst_any
    then false
    else if not (cp.protocol == proto_any)
    then false
    else if not (policy_port_is_any cp.src_port_from cp.src_port_to)
    then false
    else policy_port_is_any cp.dst_port_from cp.dst_port_to

abbrev pub clamp_port : ℤ → ℤ
clamp_port port = if ltb_ℤ (pos 65535) port then pos 65535 else port

unfoldable pub pol_in_port_range : ℤ → ℤ → ℕ × ℕ
pol_in_port_range from to =
    let f = clamp_port from in
    let t = clamp_port to in
    if ltb_ℤ from (pos 0) || ltb_ℤ to (pos 0)
    then (0, 65535)
    else if ltb_ℤ t f
    then (pos_part t, pos_part f)
    else (pos_part f, pos_part t)

unfoldable pub pol_in_fill : CryptoPolicy → PolInMatch
pol_in_fill cp =
    let sport = pol_in_port_range cp.dst_port_from cp.dst_port_to in
    let dport = pol_in_port_range cp.src_port_from cp.src_port_to in
    record {
      src_net = if cp.dst_any then 0 else bit_and cp.dst_net cp.dst_mask;
      src_mask = if cp.dst_any then 0 else cp.dst_mask;
      dst_net = if cp.src_any then 0 else bit_and cp.src_net cp.src_mask;
      dst_mask = if cp.src_any then 0 else cp.src_mask;
      sport_lo = sport.0;
      sport_hi = sport.1;
      dport_lo = dport.0;
      dport_hi = dport.1;
      proto = cp.protocol;
      src_neg = not cp.dst_any && cp.dst_negate;
      dst_neg = not cp.src_any && cp.src_negate;
    }

-- The static table: for each profile its entries, as many as `s_pol_in_n` says.
abbrev pub InTable : Type 0
InTable = List (List PolInMatch)

abbrev pub empty_table : InTable
empty_table = replicate max_profiles []

-- The first loop of `config_refresh_policy_in_any`.
unfoldable pub has_catchall : List CryptoPolicy → List ℤ → Bool
has_catchall policies [] = false
has_catchall policies (poli ∷ indices) = elim (policy_at policies poli) [
  | none ↦ has_catchall policies indices
  | some cp ↦ if crypto_policy_is_catchall cp then true else has_catchall policies indices
]

-- One round of the second loop, with the `entries` so far, and the loop.
unfoldable pub add_entry : Option CryptoPolicy → List PolInMatch → List PolInMatch
add_entry none entries = entries
add_entry (some cp) entries =
    if ltb (length entries) max_crypto_policies then entries ++ pol_in_fill cp ∷ [] else entries

unfoldable pub fill_entries : List CryptoPolicy → List ℤ → List PolInMatch → List PolInMatch
fill_entries policies [] entries = entries
fill_entries policies (poli ∷ indices) entries =
    fill_entries policies indices (add_entry (policy_at policies poli) entries)

-- Only the first profile has a table.
unfoldable pub refresh_policy_in_any : AppConfig → AppConfig × InTable
refresh_policy_in_any cfg = elim cfg.profiles [
  | [] ↦ (cfg, empty_table)
  | p ∷ profiles ↦
      let skip = has_catchall cfg.policies p.policy_indices in
      (
        record cfg { profiles = record p { policy_in_any = skip } ∷ profiles },
        set empty_table 0 (if skip then [] else fill_entries cfg.policies p.policy_indices []),
      )
]

-- The tests of one round of the loop of `config_policy_in_ok`.
unfoldable pub entry_ok : PolInMatch → Tuple → Bool
entry_ok e t =
    let src_in = bit_and t.src_ip e.src_mask == e.src_net in
    let dst_in = bit_and t.dst_ip e.dst_mask == e.dst_net in
    let src_ok = if e.src_neg then not src_in else src_in in
    let dst_ok = if e.dst_neg then not dst_in else dst_in in
    if not (proto_ok e.proto t.protocol)
    then false
    else if not src_ok || not dst_ok
    then false
    else if ltb t.src_port e.sport_lo || ltb e.sport_hi t.src_port
    then false
    else if ltb t.dst_port e.dport_lo || ltb e.dport_hi t.dst_port
    then false
    else true

unfoldable pub any_entry_ok : List PolInMatch → Tuple → Bool
any_entry_ok [] t = false
any_entry_ok (e ∷ entries) t = if entry_ok e t then true else any_entry_ok entries t

unfoldable pub policy_in_ok : AppConfig → InTable → ℤ → Tuple → Bool
policy_in_ok cfg table profile_idx t =
    if ltb_ℤ profile_idx (pos 0)
      || not (ltb_ℤ profile_idx (pos (length cfg.profiles)))
      || not (ltb_ℤ profile_idx (pos max_profiles))
    then false
    else any_entry_ok (get_or table (pos_part profile_idx) []) t
