-- ===== src/Eth.antt =====
-- src/crypto/common/eth_parse.c, src/core/dataplane/packet_util.c: where the parts of a packet lie.
-- A packet is its bytes, with the length that the caller gives beside it; `none` stands for -1.
pub mod Fields
pub mod Kind
pub mod Mss
pub mod Clamp
mod Tests
use ne_encryptor.Prelude.{
  ℕ, ◌+◌, ◌*◌, ◌^◌, Bool, true, false, Option, none, some, List, ltb, ◌==◌, ◌&&◌, ◌||◌, not,
  if◌then◌else◌, get_or, set, bit_or,
}
use ne_encryptor.Prelude.Int.{ℤ, pos, pos_part, ltb_ℤ}

abbrev pub eth_p_8021q : ℕ
eth_p_8021q = 0x8100

abbrev pub eth_p_ip : ℕ
eth_p_ip = 0x0800

abbrev pub eth_p_arp : ℕ
eth_p_arp = 0x0806

abbrev pub fake_ethertype : ℕ
fake_ethertype = 0x104A

abbrev pub fake_ethertype_udp : ℕ
fake_ethertype_udp = 0x104B

abbrev pub fake_ethertype_arp : ℕ
fake_ethertype_arp = 0x1048

abbrev pub byte : List ℕ → ℕ → ℕ
byte pkt off = get_or pkt off 0

unfoldable pub eth_read_et : List ℕ → ℕ → ℕ
eth_read_et pkt off = bit_or (byte pkt off * 2 ^ 8) (byte pkt (off + 1))

unfoldable pub eth_match_et : ℕ → ℕ → ℕ → Bool
eth_match_et et target fake = et == target || (not (fake == 0) && et == fake)

-- The ethertypes at which the payload of the program begins.
abbrev pub is_inner : ℕ → Bool
is_inner et =
    eth_match_et et eth_p_ip fake_ethertype
    || (et == fake_ethertype_udp || et == fake_ethertype_arp)

unfoldable pub crypto_eth_inner_et_off : List ℕ → ℕ → Option ℕ
crypto_eth_inner_et_off pkt pkt_len =
    if ltb pkt_len 14
    then none
    else if is_inner (eth_read_et pkt 12)
    then some 12
    else if not (eth_read_et pkt 12 == eth_p_8021q)
    then none
    else if ltb pkt_len 18
    then none
    else if is_inner (eth_read_et pkt 16)
    then some 16
    else none

unfoldable pub crypto_eth_ipv4_offset : List ℕ → ℕ → Option ℕ
crypto_eth_ipv4_offset pkt pkt_len = elim (crypto_eth_inner_et_off pkt pkt_len) [
  | none ↦ none
  | some et_off ↦
      if not (eth_read_et pkt et_off == eth_p_ip)
      then none
      else if ltb pkt_len (et_off + 2 + 20)
      then none
      else some (et_off + 2)
]

-- The end of `crypto_eth_arp_offset`, with the ethertype at `et_off`.
unfoldable pub arp_at : List ℕ → ℕ → ℕ → Option ℕ
arp_at pkt pkt_len et_off =
    if not (eth_read_et pkt et_off == eth_p_arp)
    then none
    else if ltb pkt_len (et_off + 2 + 28)
    then none
    else some (et_off + 2)

unfoldable pub crypto_eth_arp_offset : List ℕ → ℕ → Option ℕ
crypto_eth_arp_offset pkt pkt_len =
    if ltb pkt_len 14
    then none
    else if eth_read_et pkt 12 == eth_p_8021q
    then if ltb pkt_len 18 then none else arp_at pkt pkt_len 16
    else arp_at pkt pkt_len 12

unfoldable pub crypto_eth_l2_prefix_len : List ℕ → ℕ → Option ℕ
crypto_eth_l2_prefix_len pkt pkt_len = crypto_eth_inner_et_off pkt pkt_len

abbrev pub found : Option ℕ → Bool
found none = false
found (some off) = true

unfoldable pub crypto_pkt_is_ipv4 : List ℕ → ℕ → Bool
crypto_pkt_is_ipv4 pkt pkt_len = found (crypto_eth_ipv4_offset pkt pkt_len)

unfoldable pub crypto_pkt_is_arp : List ℕ → ℕ → Bool
crypto_pkt_is_arp pkt pkt_len = found (crypto_eth_arp_offset pkt pkt_len)

unfoldable pub crypto_eth_set_ipv4_et : List ℕ → ℤ → List ℕ
crypto_eth_set_ipv4_et pkt inner_et_off =
    let off = pos_part inner_et_off in
    if ltb_ℤ inner_et_off (pos 0) then pkt else set (set pkt off 0x08) (off + 1) 0x00

unfoldable pub crypto_eth_set_arp_et : List ℕ → ℤ → List ℕ
crypto_eth_set_arp_et pkt inner_et_off =
    let off = pos_part inner_et_off in
    if ltb_ℤ inner_et_off (pos 0) then pkt else set (set pkt off 0x08) (off + 1) 0x06

unfoldable pub crypto_eth_l2_has_marker : List ℕ → ℕ → Bool
crypto_eth_l2_has_marker pkt pkt_len = elim (crypto_eth_inner_et_off pkt pkt_len) [
  | none ↦ false
  | some et_off ↦
      eth_read_et pkt et_off == fake_ethertype || eth_read_et pkt et_off == fake_ethertype_udp
]

unfoldable pub crypto_eth_l2_has_arp_marker : List ℕ → ℕ → Bool
crypto_eth_l2_has_arp_marker pkt pkt_len = elim (crypto_eth_inner_et_off pkt pkt_len) [
  | none ↦ false
  | some et_off ↦ eth_read_et pkt et_off == fake_ethertype_arp
]

unfoldable pub crypto_eth_l2_policy_off : List ℕ → ℕ → Option ℕ
crypto_eth_l2_policy_off pkt pkt_len = elim (crypto_eth_inner_et_off pkt pkt_len) [
  | none ↦ none
  | some et_off ↦ if ltb pkt_len (et_off + 2 + 1) then none else some (et_off + 2)
]

unfoldable pub crypto_eth_l2_read_policy_id : List ℕ → ℕ → Option ℕ
crypto_eth_l2_read_policy_id pkt pkt_len = elim (crypto_eth_l2_policy_off pkt pkt_len) [
  | none ↦ none
  | some off ↦ some (byte pkt off)
]

unfoldable pub crypto_eth_l2_core_id_off : List ℕ → ℕ → Option ℕ
crypto_eth_l2_core_id_off pkt pkt_len = elim (crypto_eth_l2_policy_off pkt pkt_len) [
  | none ↦ none
  | some off ↦ some (off + 1)
]

unfoldable pub crypto_eth_l2_frag_magic_off : List ℕ → ℕ → ℤ → Option ℕ
crypto_eth_l2_frag_magic_off pkt pkt_len nonce_size = elim (crypto_eth_l2_core_id_off pkt pkt_len) [
  | none ↦ none
  | some off ↦
      if ltb_ℤ nonce_size (pos 0)
      then none
      else if ltb pkt_len (off + 1 + pos_part nonce_size)
      then none
      else some (off + 1 + pos_part nonce_size)
]

unfoldable pub crypto_eth_l2_read_worker_idx : List ℕ → ℕ → Option ℕ
crypto_eth_l2_read_worker_idx pkt pkt_len =
    if not (crypto_eth_l2_has_marker pkt pkt_len)
    then none
    else elim (crypto_eth_l2_core_id_off pkt pkt_len) [
      | none ↦ none
      | some core_off ↦ some (byte pkt core_off)
    ]
