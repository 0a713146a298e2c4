-- ===== src/Policy.antt =====
-- src/db/config.c: which policy a packet falls under. `select_crypto_policy` serves the packets
-- that leave; the compact table of `refresh_policy_in_any` and `policy_in_ok` those that come in,
-- whose source is the policy's destination. The code is the default build, in which
-- CRYPTO_POLICY_MATCH_IP_ONLY is 0; flags are Booleans, and `policies` is the first `policy_count`
-- entries of the array.
pub mod Inbound
pub mod Select
pub mod Mirror
pub mod Gate
mod Tests
use ne_encryptor.Prelude.{
  ℕ, ◌≤◌, ◌<◌, ◌^◌, ◌≡◌, Bool, true, false, Option, none, some, List, [], ◌∷◌, ltb, ◌==◌, ◌&&◌,
  ◌||◌, not, if◌then◌else◌, length, get_elem?, bit_and,
}
use ne_encryptor.Prelude.Int.{ℤ, pos, pos_part, ltb_ℤ, eqb_ℤ}

abbrev pub proto_any : ℕ
proto_any = 0

abbrev pub proto_tcp_udp : ℕ
proto_tcp_udp = 254

pub record CryptoPolicy : Type 0 where
  pub id : ℤ
  pub db_id : ℤ
  pub priority : ℤ
  pub action : ℤ
  pub protocol : ℕ
  pub src_port_from : ℤ
  pub src_port_to : ℤ
  pub dst_port_from : ℤ
  pub dst_port_to : ℤ
  pub src_any : Bool
  pub dst_any : Bool
  pub src_negate : Bool
  pub dst_negate : Bool
  pub src_net : ℕ
  pub src_mask : ℕ
  pub dst_net : ℕ
  pub dst_mask : ℕ

-- The arguments of a lookup that describe the packet.
pub record Tuple : Type 0 where
  pub src_ip : ℕ
  pub dst_ip : ℕ
  pub src_port : ℕ
  pub dst_port : ℕ
  pub protocol : ℕ

unfoldable pub cidr_match_with_negate : Bool → Bool → ℕ → ℕ → ℕ → Bool
cidr_match_with_negate any_flag negate ip net mask =
    let in_cidr = bit_and ip mask == bit_and net mask in
    if any_flag then true else if negate then not in_cidr else in_cidr

-- The protocol test that both tables share.
unfoldable pub proto_ok : ℕ → ℕ → Bool
proto_ok wanted protocol =
    if wanted == proto_tcp_udp
    then protocol == 6 || protocol == 17
    else wanted == proto_any || wanted == protocol

-- The test of one port; a negative bound stands for any port.
unfoldable pub port_ok : ℤ → ℤ → ℕ → Bool
port_ok from to port =
    if not (ltb_ℤ from (pos 0)) && not (ltb_ℤ to (pos 0))
    then not (ltb_ℤ (pos port) from || ltb_ℤ to (pos port))
    else true

unfoldable pub crypto_policy_match_packet : CryptoPolicy → Tuple → Bool
crypto_policy_match_packet cp t =
    if not (proto_ok cp.protocol t.protocol)
    then false
    else if not (cidr_match_with_negate cp.src_any cp.src_negate t.src_ip cp.src_net cp.src_mask)
    then false
    else if not (cidr_match_with_negate cp.dst_any cp.dst_negate t.dst_ip cp.dst_net cp.dst_mask)
    then false
    else if not (port_ok cp.src_port_from cp.src_port_to t.src_port)
    then false
    else port_ok cp.dst_port_from cp.dst_port_to t.dst_port

-- `policies[pi]`, with the test of `pi` against the bounds.
unfoldable pub policy_at : List CryptoPolicy → ℤ → Option CryptoPolicy
policy_at policies poli =
    if ltb_ℤ poli (pos 0) || not (ltb_ℤ poli (pos (length policies)))
    then none
    else get_elem? policies (pos_part poli)

-- A smaller priority goes first, and then a smaller id.
unfoldable pub goes_first : CryptoPolicy → CryptoPolicy → Bool
goes_first cp best =
    ltb_ℤ cp.priority best.priority || (eqb_ℤ cp.priority best.priority && ltb_ℤ cp.id best.id)

-- One round of the loop of `config_select_crypto_policy`. The code keeps the priority and the id
-- of `best` in variables of their own.
unfoldable pub consider : Tuple → Option CryptoPolicy → Option CryptoPolicy → Option CryptoPolicy
consider t none best = best
consider t (some cp) none = if crypto_policy_match_packet cp t then some cp else none
consider t (some cp) (some best) =
    if not (crypto_policy_match_packet cp t)
    then some best
    else if goes_first cp best
    then some cp
    else some best

unfoldable pub select_loop :
    List CryptoPolicy → Tuple → List ℤ → Option CryptoPolicy → Option CryptoPolicy
select_loop policies t [] best = best
select_loop policies t (poli ∷ indices) best =
    select_loop policies t indices (consider t (policy_at policies poli) best)

-- What the lookups read of `profile_config` and `app_config`.
pub record Profile : Type 0 where
  pub policy_indices : List ℤ
  pub policy_in_any : Bool

pub record AppConfig : Type 0 where
  pub profiles : List Profile
  pub policies : List CryptoPolicy

unfoldable pub profile_at : AppConfig → ℤ → Option Profile
profile_at cfg profile_idx =
    if ltb_ℤ profile_idx (pos 0) || not (ltb_ℤ profile_idx (pos (length cfg.profiles)))
    then none
    else get_elem? cfg.profiles (pos_part profile_idx)

unfoldable pub select_crypto_policy : AppConfig → ℤ → Tuple → Option CryptoPolicy
select_crypto_policy cfg profile_idx t = elim (profile_at cfg profile_idx) [
  | none ↦ none
  | some p ↦ select_loop cfg.policies t p.policy_indices none
]
