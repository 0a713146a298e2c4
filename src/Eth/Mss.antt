-- ===== src/Eth/Mss.antt =====
-- src/crypto/common/eth_parse.c: `crypto_tcp_clamp_mss` lowers the segment size that a TCP SYN
-- offers, and mends the checksum. Return values are with the packet that is left; `none` is a loop that has not ended.
use ne_encryptor.Prelude.{
  ℕ, zero, suc, ◌+◌, ◌-◌, ◌*◌, ◌/◌, ◌%◌, ◌^◌, Option, none, some, List, ltb, leb, ◌==◌, ◌&&◌, ◌||◌,
  not, if◌then◌else◌, set, bit_and,
}
use ne_encryptor.Prelude.Int.{ℤ, pos, negsuc}
use ne_encryptor.Iface.Window.{u32, sub32}
use ne_encryptor.Eth.{byte, eth_read_et, crypto_eth_ipv4_offset}

-- The loop that folds the carries in, which two rounds end.
unfoldable pub fold_carry : ℕ → ℕ → ℕ
fold_carry zero sum = sum
fold_carry (suc fuel) sum =
    let rest = fold_carry fuel (sum % 2 ^ 16 + sum / 2 ^ 16) in
    if sum / 2 ^ 16 == 0 then sum else rest

-- The checksum after the word `old_word` was replaced by `new_word`.
unfoldable pub replaced_checksum : ℕ → ℕ → ℕ → ℕ
replaced_checksum hc old_word new_word =
    65535 - fold_carry 2 ((65535 - hc) + (65535 - old_word) + new_word) % 2 ^ 16

-- `tcp` is where the TCP header begins.
unfoldable pub tcp_checksum_replace_word : List ℕ → ℕ → ℕ → ℕ → List ℕ
tcp_checksum_replace_word pkt tcp old_word new_word =
    let hc = replaced_checksum (eth_read_et pkt (tcp + 16)) old_word new_word in
    if old_word == new_word
    then pkt
    else set (set pkt (tcp + 16) (hc / 2 ^ 8)) (tcp + 17) (hc % 2 ^ 8)

-- The option at `off` offers at most `mss_cap` afterwards.
unfoldable pub clamp_option : List ℕ → ℕ → ℕ → ℕ → ℤ × List ℕ
clamp_option pkt tcp off mss_cap =
    let old_mss = eth_read_et pkt (off + 2) in
    let new_mss = if ltb (mss_cap % 2 ^ 16) old_mss then mss_cap % 2 ^ 16 else old_mss in
    if new_mss == old_mss then (pos 0, pkt) else (
      pos 1,
      tcp_checksum_replace_word
          (set (set pkt (off + 2) (new_mss / 2 ^ 8)) (off + 3) (new_mss % 2 ^ 8)) tcp old_mss
          new_mss,
    )

-- The loop over the options from `opt_off` to `opt_end`; `none` if the fuel runs out before the
-- loop ends. The test of `opt_off + 1` that the code makes twice is made once.
unfoldable pub option_loop : ℕ → List ℕ → ℕ → ℕ → ℕ → ℕ → Option (ℤ × List ℕ)
option_loop zero pkt tcp mss_cap opt_end opt_off = none
option_loop (suc fuel) pkt tcp mss_cap opt_end opt_off =
    let kind = byte pkt (tcp + opt_off) in
    let olen = byte pkt (tcp + opt_off + 1) in
    let after_nop = option_loop fuel pkt tcp mss_cap opt_end (opt_off + 1) in
    let after_option = option_loop fuel pkt tcp mss_cap opt_end (opt_off + olen) in
    if leb opt_end (opt_off + 1)
    then some (pos 0, pkt)
    else if kind == 0
    then some (pos 0, pkt)
    else if kind == 1
    then after_nop
    else if ltb olen 2 || ltb opt_end (opt_off + olen)
    then some (pos 0, pkt)
    else if kind == 2 && (olen == 4 && leb (opt_off + 4) opt_end)
    then some (clamp_option pkt tcp (tcp + opt_off) mss_cap)
    else after_option

abbrev pub between : ℕ → ℕ → ℕ → ℕ
between lo hi n = if ltb n lo then lo else if ltb hi n then hi else n

-- What follows the test for SYN, with the IPv4 header of `ihl` bytes at `l3_off`. A round of the
-- loop moves on by at least one byte, so that the length of the header is fuel enough.
unfoldable pub clamp_syn : List ℕ → ℕ → ℕ → ℕ → ℕ → ℕ → Option (ℤ × List ℕ)
clamp_syn pkt pkt_len path_mtu wire_overhead l3_off ihl =
    let tcp = l3_off + ihl in
    let data_off = bit_and (byte pkt (tcp + 12) / 2 ^ 4) 15 * 4 in
    let mss_cap = between 536 65535 (sub32 (sub32 (sub32 path_mtu ihl) 20) wire_overhead) in
    if ltb data_off 20 || ltb pkt_len (l3_off + ihl + data_off)
    then some (negsuc 0, pkt)
    else if leb path_mtu (u32 (ihl + 20 + wire_overhead))
    then some (negsuc 0, pkt)
    else option_loop data_off pkt tcp mss_cap data_off 20

unfoldable pub clamp_ipv4 : List ℕ → ℕ → ℕ → ℕ → ℕ → Option (ℤ × List ℕ)
clamp_ipv4 pkt pkt_len path_mtu wire_overhead l3_off =
    let ihl = bit_and (byte pkt l3_off) 15 * 4 in
    if ltb pkt_len (l3_off + 20)
    then some (negsuc 0, pkt)
    else if not (bit_and (byte pkt l3_off) 0xF0 == 0x40)
    then some (negsuc 0, pkt)
    else if not (byte pkt (l3_off + 9) == 6)
    then some (negsuc 0, pkt)
    else if ltb ihl 20 || ltb pkt_len (l3_off + ihl + 20)
    then some (negsuc 0, pkt)
    else if bit_and (byte pkt (l3_off + ihl + 13)) 0x02 == 0
    then some (pos 0, pkt)
    else clamp_syn pkt pkt_len path_mtu wire_overhead l3_off ihl

unfoldable pub crypto_tcp_clamp_mss : List ℕ → ℕ → ℕ → ℕ → Option (ℤ × List ℕ)
crypto_tcp_clamp_mss pkt pkt_len path_mtu wire_overhead =
    if ltb path_mtu 576 then some (negsuc 0, pkt) else elim (crypto_eth_ipv4_offset pkt pkt_len) [
      | none ↦ some (negsuc 0, pkt)
      | some l3_off ↦ clamp_ipv4 pkt pkt_len path_mtu wire_overhead l3_off
    ]
