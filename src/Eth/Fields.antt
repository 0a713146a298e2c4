-- ===== src/Eth/Fields.antt =====
-- src/core/dataplane/packet_util.c: the fields that the rest of the path reads of a packet.
use ne_encryptor.Prelude.{
  ℕ, ◌+◌, ◌*◌, ◌^◌, ◌%◌, Bool, false, Option, none, some, List, ltb, ◌==◌, ◌&&◌, ◌||◌, not,
  if◌then◌else◌,
}
use ne_encryptor.Eth.{byte, eth_read_et, eth_p_8021q, eth_p_arp, crypto_eth_ipv4_offset}
use ne_encryptor.Policy.{Tuple}

-- A 32-bit field in memory order, as a little-endian machine loads it.
unfoldable pub read_u32 : List ℕ → ℕ → ℕ
read_u32 pkt off =
    byte pkt off
    + byte pkt (off + 1) * 2 ^ 8
    + byte pkt (off + 2) * 2 ^ 16
    + byte pkt (off + 3) * 2 ^ 24

-- The length in bytes of the IPv4 header at `l3_off`, by the low half of its first byte.
abbrev pub ihl_at : List ℕ → ℕ → ℕ
ihl_at pkt l3_off = byte pkt l3_off % 16 * 4

-- The end of `dp_parse_flow`, with the header at `l3_off`. The ports are read in network order.
unfoldable pub parse_at : List ℕ → ℕ → ℕ → Option Tuple
parse_at pkt pkt_len l3_off =
    let ihl = ihl_at pkt l3_off in
    let proto = byte pkt (l3_off + 9) in
    let l4 = l3_off + ihl in
    let flow : Tuple = record {
      src_ip = read_u32 pkt (l3_off + 12);
      dst_ip = read_u32 pkt (l3_off + 16);
      src_port = 0;
      dst_port = 0;
      protocol = proto;
    } in
    if ltb ihl 20 || ltb pkt_len (l3_off + ihl)
    then none
    else if not (proto == 6 || proto == 17)
    then some flow
    else if ltb pkt_len (l4 + 4)
    then none
    else some (record flow { src_port = eth_read_et pkt l4; dst_port = eth_read_et pkt (l4 + 2) })

unfoldable pub dp_parse_flow : List ℕ → ℕ → Option Tuple
dp_parse_flow pkt pkt_len = elim (crypto_eth_ipv4_offset pkt pkt_len) [
  | none ↦ none
  | some l3_off ↦ parse_at pkt pkt_len l3_off
]

unfoldable pub dp_pkt_is_arp : List ℕ → ℕ → Bool
dp_pkt_is_arp pkt len =
    if ltb len 14
    then false
    else if eth_read_et pkt 12 == eth_p_8021q
    then if ltb len 18 then false else eth_read_et pkt 16 == eth_p_arp
    else eth_read_et pkt 12 == eth_p_arp

unfoldable pub arp_payload_offset : List ℕ → ℕ → Option ℕ
arp_payload_offset pkt len =
    if ltb len (14 + 28)
    then none
    else if eth_read_et pkt 12 == eth_p_8021q
    then if ltb len (18 + 28) then none else some 18
    else some 14

-- The tests of the fixed fields of an ARP payload at `off`.
abbrev pub is_ethernet_ipv4 : List ℕ → ℕ → Bool
is_ethernet_ipv4 pkt off =
    byte pkt off == 0x00
    && (byte pkt (off + 1) == 0x01
        && (byte pkt (off + 2) == 0x08
            && (byte pkt (off + 3) == 0x00
                && (byte pkt (off + 4) == 6 && byte pkt (off + 5) == 4))))

unfoldable pub dp_parse_arp_ips : List ℕ → ℕ → Option (ℕ × ℕ)
dp_parse_arp_ips pkt len = elim (arp_payload_offset pkt len) [
  | none ↦ none
  | some off ↦
      if is_ethernet_ipv4 pkt off
      then some (read_u32 pkt (off + 14), read_u32 pkt (off + 24))
      else none
]

unfoldable pub dp_parse_arp_op : List ℕ → ℕ → Option ℕ
dp_parse_arp_op pkt len = elim (arp_payload_offset pkt len) [
  | none ↦ none
  | some off ↦ some (eth_read_et pkt (off + 6))
]
