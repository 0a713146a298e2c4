-- ===== src/Eth/Tests.antt =====
-- src/crypto/common/eth_parse.c: a marked packet behind a VLAN tag, and a TCP SYN.
use ne_encryptor.Prelude.{
  ℕ, ◌+◌, ◌%◌, ◌≤◌, ◌≡◌, refl, Option, some, none, List, [], ◌∷◌, arith, get_or, set, replicate,
  if◌then◌else◌, ◌++◌, ◌&&◌, leb,
}
use ne_encryptor.Prelude.Int.{ℤ, pos}
use ne_encryptor.Eth.{
  crypto_eth_inner_et_off, crypto_eth_ipv4_offset, crypto_eth_arp_offset, crypto_eth_set_ipv4_et,
  crypto_pkt_is_ipv4, crypto_pkt_is_arp, crypto_eth_l2_has_marker, crypto_eth_l2_has_arp_marker,
  eth_read_et, eth_match_et,
}
use ne_encryptor.Eth.Fields.{dp_pkt_is_arp, arp_payload_offset}
use ne_encryptor.Eth.Kind.{
  count_true, arp_end, crypto_eth_arp_offset_agrees, one_kind, set_ipv4_et-offset,
}
use ne_encryptor.Eth.Mss.{
  crypto_tcp_clamp_mss, clamp_ipv4, clamp_syn, option_loop, clamp_option, tcp_checksum_replace_word,
  replaced_checksum,
}
use ne_encryptor.Eth.Clamp.{crypto_tcp_clamp_mss_ends, replaced_checksum-sum}

-- Byte 12 and 13 have the tag, 16 and 17 the ethertype `hi`, `lo`.
abbrev tagged : ℕ → ℕ → List ℕ
tagged hi lo = set (set (set (set (replicate 62 0) 12 0x81) 13 0x00) 16 hi) 17 lo

abbrev marked : List ℕ
marked = tagged 0x10 0x4A

set_ipv4_et-offset_example :
    crypto_eth_ipv4_offset (crypto_eth_set_ipv4_et marked (pos 16)) 62 ≡ some 18
unfolding crypto_eth_inner_et_off eth_read_et eth_match_et
set_ipv4_et-offset_example = set_ipv4_et-offset marked 62 16 refl (omega arith) (omega arith)

one_kind_example :
    count_true
      (crypto_pkt_is_ipv4 marked 62)
      (crypto_pkt_is_arp marked 62)
      (crypto_eth_l2_has_marker marked 62)
      (crypto_eth_l2_has_arp_marker marked 62)
    ≤ 1
one_kind_example = one_kind marked 62

crypto_eth_arp_offset_agrees_example :
    (crypto_eth_arp_offset (tagged 0x08 0x06) 30 ≡ (
      if dp_pkt_is_arp (tagged 0x08 0x06) 30
      then arp_payload_offset (tagged 0x08 0x06) 30
      else none))
    × (crypto_pkt_is_arp (tagged 0x08 0x06) 30
        ≡ dp_pkt_is_arp (tagged 0x08 0x06) 30 && leb (arp_end (tagged 0x08 0x06)) 30)
crypto_eth_arp_offset_agrees_example = crypto_eth_arp_offset_agrees (tagged 0x08 0x06) 30

-- An IPv4 header of 20 bytes at 14, a TCP header of 24 at 34 with SYN, and the option at 54 that
-- offers 1460.
abbrev syn : List ℕ
syn =
    replicate 12 0
    ++ (0x08 ∷ 0x00 ∷ 0x45 ∷ replicate 8 0)
    ++ (6 ∷ replicate 10 0)
    ++ (replicate 12 0 ++ (0x60 ∷ 0x02 ∷ 0 ∷ 0 ∷ 0x12 ∷ 0x34 ∷ 0 ∷ 0 ∷ 2 ∷ 4 ∷ 5 ∷ 180 ∷ []))

abbrev offered : Option (ℤ × List ℕ) → Option (ℤ × ℕ × ℕ)
offered none = none
offered (some (code, pkt)) = some (code, get_or pkt 56 0, get_or pkt 57 0)

-- The option offers 1300 afterwards.
clamp_run : offered (crypto_tcp_clamp_mss syn 58 1400 60) ≡ some (pos 1, 5, 20)
unfolding crypto_tcp_clamp_mss crypto_eth_ipv4_offset crypto_eth_inner_et_off eth_read_et
    eth_match_et clamp_ipv4 clamp_syn option_loop clamp_option tcp_checksum_replace_word
clamp_run = refl

crypto_tcp_clamp_mss_ends_example :
    (r : ℤ × List ℕ) × (crypto_tcp_clamp_mss syn 58 1400 60 ≡ some r)
crypto_tcp_clamp_mss_ends_example = crypto_tcp_clamp_mss_ends syn 58 1400 60

replaced_checksum-sum_example :
    (replaced_checksum 4660 1460 1300 + 1300) % 65535 ≡ (4660 + 1460) % 65535
replaced_checksum-sum_example =
    replaced_checksum-sum 4660 1460 1300 (omega arith) (omega arith) (omega arith)
