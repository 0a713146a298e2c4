-- ===== src/Eth/Clamp.antt =====
-- src/crypto/common/eth_parse.c: the loop over the TCP options and the checksum.
use ne_encryptor.Prelude.{
  ℕ, zero, suc, ◌+◌, ◌*◌, ◌/◌, ◌%◌, ◌^◌, ◌≤◌, ◌<◌, ◌≡◌, refl, false, Option, none, some, List,
  arith, ltb, leb, ◌==◌, ◌&&◌, ◌||◌, not, bit_and, if_intro,
}
use ne_encryptor.Prelude.Int.{ℤ, pos, negsuc}
use ne_encryptor.Iface.Window.{u32}
use ne_encryptor.Eth.{byte, crypto_eth_ipv4_offset}
use ne_encryptor.Eth.Mss.{
  fold_carry, replaced_checksum, clamp_option, option_loop, clamp_syn, clamp_ipv4,
  crypto_tcp_clamp_mss,
}

-- The run has come to an end, with a result.
abbrev Ended : Option (ℤ × List ℕ) → Type 0
Ended o = (r : ℤ × List ℕ) × (o ≡ some r)

-- Each round that goes on moves on by at least one byte.
option_loop_ends :
    (fuel : ℕ) (pkt : List ℕ) (tcp mss_cap opt_end opt_off : ℕ)
    → 0 < fuel
    → opt_end ≤ opt_off + fuel
    → Ended (option_loop fuel pkt tcp mss_cap opt_end opt_off)
unfolding option_loop
option_loop_ends zero pkt tcp mss_cap opt_end opt_off some_fuel h =
    absurd (omega (arith, some_fuel))
option_loop_ends (suc fuel) pkt tcp mss_cap opt_end opt_off some_fuel h =
    let kind = byte pkt (tcp + opt_off) in
    let olen = byte pkt (tcp + opt_off + 1) in
    let next : (step : ℕ)
        → 1 ≤ step
        → leb opt_end (opt_off + 1) ≡ false
        → Ended (option_loop fuel pkt tcp mss_cap opt_end (opt_off + step)) =
      λ step moves more.
        option_loop_ends fuel pkt tcp mss_cap opt_end (opt_off + step) (ground (arith, h, more))
          (omega (arith, h, moves)) in
    if_intro Ended (leb opt_end (opt_off + 1)) (λ _. ((pos 0, pkt), refl))
      (λ more.
        if_intro Ended (kind == 0) (λ _. ((pos 0, pkt), refl))
          (λ _.
            if_intro Ended (kind == 1) (λ _. next 1 (omega arith) more)
              (λ _.
                if_intro Ended (ltb olen 2 || ltb opt_end (opt_off + olen))
                  (λ _. ((pos 0, pkt), refl))
                  (λ wide.
                    if_intro Ended (kind == 2 && (olen == 4 && leb (opt_off + 4) opt_end))
                      (λ _. (clamp_option pkt tcp (tcp + opt_off) mss_cap, refl))
                      (λ _. next olen (ground (arith, wide)) more)))))

clamp_syn_ends :
    (pkt : List ℕ) (pkt_len path_mtu wire_overhead l3_off ihl : ℕ)
    → Ended (clamp_syn pkt pkt_len path_mtu wire_overhead l3_off ihl)
unfolding clamp_syn
clamp_syn_ends pkt pkt_len path_mtu wire_overhead l3_off ihl =
    let tcp = l3_off + ihl in
    let data_off = bit_and (byte pkt (tcp + 12) / 2 ^ 4) 15 * 4 in
    if_intro Ended (ltb data_off 20 || ltb pkt_len (l3_off + ihl + data_off))
      (λ _. ((negsuc 0, pkt), refl))
      (λ wide.
        if_intro Ended (leb path_mtu (u32 (ihl + 20 + wire_overhead)))
          (λ _. ((negsuc 0, pkt), refl))
          (λ _.
            option_loop_ends data_off pkt tcp _ data_off 20 (ground (arith, wide)) (omega arith)))

clamp_ipv4_ends :
    (pkt : List ℕ) (pkt_len path_mtu wire_overhead l3_off : ℕ)
    → Ended (clamp_ipv4 pkt pkt_len path_mtu wire_overhead l3_off)
unfolding clamp_ipv4
clamp_ipv4_ends pkt pkt_len path_mtu wire_overhead l3_off =
    let ihl = bit_and (byte pkt l3_off) 15 * 4 in
    if_intro Ended (ltb pkt_len (l3_off + 20)) (λ _. ((negsuc 0, pkt), refl))
      (λ _.
        if_intro Ended (not (bit_and (byte pkt l3_off) 0xF0 == 0x40)) (λ _. ((negsuc 0, pkt), refl))
          (λ _.
            if_intro Ended (not (byte pkt (l3_off + 9) == 6)) (λ _. ((negsuc 0, pkt), refl))
              (λ _.
                if_intro Ended (ltb ihl 20 || ltb pkt_len (l3_off + ihl + 20))
                  (λ _. ((negsuc 0, pkt), refl))
                  (λ _.
                    if_intro Ended (bit_and (byte pkt (l3_off + ihl + 13)) 0x02 == 0)
                      (λ _. ((pos 0, pkt), refl))
                      (λ _. clamp_syn_ends pkt pkt_len path_mtu wire_overhead l3_off ihl)))))

clamp_found_ends :
    (pkt : List ℕ) (pkt_len path_mtu wire_overhead : ℕ) (o : Option ℕ)
    → Ended (elim o [
      | none ↦ some (negsuc 0, pkt)
      | some l3_off ↦ clamp_ipv4 pkt pkt_len path_mtu wire_overhead l3_off
    ])
clamp_found_ends pkt pkt_len path_mtu wire_overhead none = ((negsuc 0, pkt), refl)
clamp_found_ends pkt pkt_len path_mtu wire_overhead (some l3_off) =
    clamp_ipv4_ends pkt pkt_len path_mtu wire_overhead l3_off

-- For every packet and length, crypto_tcp_clamp_mss ends with a result: its loop over the TCP
-- options stops by one of its tests before the rounds are used up, which are as many as the TCP
-- header has bytes.
pub crypto_tcp_clamp_mss_ends :
    (pkt : List ℕ) (pkt_len path_mtu wire_overhead : ℕ)
    → (r : ℤ × List ℕ) × (crypto_tcp_clamp_mss pkt pkt_len path_mtu wire_overhead ≡ some r)
unfolding crypto_tcp_clamp_mss
crypto_tcp_clamp_mss_ends pkt pkt_len path_mtu wire_overhead =
    if_intro Ended (ltb path_mtu 576) (λ _. ((negsuc 0, pkt), refl))
      (λ _.
        clamp_found_ends pkt pkt_len path_mtu wire_overhead (crypto_eth_ipv4_offset pkt pkt_len))

-- Two rounds leave no carry in the sum of three 16-bit words.
fold_carry_ends : (sum : ℕ) → sum ≤ 3 * 65535 → fold_carry 2 sum < 2 ^ 16
unfolding fold_carry
fold_carry_ends sum h = ground (arith, h)

-- For 16-bit words, the sum of the checksum and the word is the same before and after the word is
-- replaced, in the arithmetic of checksums, which is that modulo 65535.
pub replaced_checksum-sum :
    (hc old_word new_word : ℕ)
    → hc ≤ 65535
    → old_word ≤ 65535
    → new_word ≤ 65535
    → (replaced_checksum hc old_word new_word + new_word) % 65535 ≡ (hc + old_word) % 65535
unfolding replaced_checksum fold_carry
replaced_checksum-sum hc old_word new_word h k m = ground (arith, h, k, m)
