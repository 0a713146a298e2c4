-- ===== src/L2/Plain.antt =====
-- src/crypto/pqc/pqc_l2_option.c: encryption and decryption of the packets that are never split: TCP,
-- ICMP, OSPF and ARP. There is no shim and no marker. A call that fails gives `none`.
use ne_encryptor.Prelude.{
  ℕ, ◌+◌, ◌-◌, Option, none, some, List, ltb, leb, ◌==◌, ◌&&◌, ◌||◌, not, if◌then◌else◌, length,
  drop,
}
use ne_encryptor.Prelude.Int.{pos}
use ne_encryptor.Eth.{
  byte, crypto_eth_ipv4_offset, crypto_eth_arp_offset, crypto_eth_inner_et_off,
  crypto_eth_l2_prefix_len, crypto_eth_set_ipv4_et, crypto_eth_set_arp_et, crypto_pkt_is_ipv4,
  crypto_pkt_is_arp, crypto_eth_l2_has_marker, crypto_eth_l2_has_arp_marker, fake_ethertype,
  fake_ethertype_arp,
}
use ne_encryptor.L2.{slice, put}
use ne_encryptor.L2.Packet.{
  Scrypt, CryptoCtx, and_then, nonce_size, min_eth_pkt, sess_load, encrypt_payload,
  decrypt_payload_resilient, write_wire_header_et, nonce_off, enc_start_off,
}

-- The header in clear and the ciphertext of `len` bytes that already lie at `enc_start`.
unfoldable pub seal_plain :
    Scrypt → ℕ → CryptoCtx → Option (List ℕ) → ℕ → ℕ → List ℕ → ℕ → ℕ → Option (List ℕ × ℕ)
seal_plain c worker_idx ctx nonce fake et_off packet enc_start len =
    and_then (sess_load ctx) (λ key. and_then nonce (λ n.
      let headed = write_wire_header_et packet et_off fake ctx.wire_id worker_idx n in
      and_then (encrypt_payload c key n (slice len enc_start headed))
        (λ cipher. some (put headed enc_start cipher, enc_start + length cipher))))

unfoldable pub do_encrypt :
    Scrypt → ℕ → CryptoCtx → Option (List ℕ) → List ℕ → ℕ → Option (List ℕ × ℕ)
do_encrypt c worker_idx ctx nonce packet pkt_len =
    and_then (crypto_eth_ipv4_offset packet pkt_len) (λ l3_off.
      and_then (crypto_eth_l2_prefix_len packet pkt_len) (λ et_off.
        let enc_start = et_off + 2 + 1 + 1 + nonce_size in
        let moved = put packet enc_start (slice (pkt_len - l3_off) l3_off packet) in
        if ltb pkt_len enc_start
        then none
        else seal_plain c worker_idx ctx nonce fake_ethertype et_off moved enc_start
            (pkt_len - l3_off)))

-- Bytes that begin with the ethertype of IPv4 go back without it.
unfoldable pub restore_plain_packet : List ℕ → ℕ → List ℕ → Option (List ℕ × ℕ)
restore_plain_packet packet pkt_len payload =
    and_then (crypto_eth_l2_prefix_len packet pkt_len) (λ et_off.
      let typed = crypto_eth_set_ipv4_et packet (pos et_off) in
      if leb 2 (length payload) && (byte payload 0 == 0x08 && byte payload 1 == 0x00)
      then some (put typed (et_off + 2) (drop 2 payload), et_off + 2 + length payload - 2)
      else some (put typed (et_off + 2) payload, et_off + 2 + length payload))

unfoldable pub do_decrypt : Scrypt → CryptoCtx → List ℕ → ℕ → Option (List ℕ × ℕ)
do_decrypt c ctx packet pkt_len = and_then (enc_start_off packet pkt_len) (λ enc_start.
    and_then (sess_load ctx) (λ key. and_then (nonce_off packet pkt_len) (λ nonce_at.
      and_then
        (decrypt_payload_resilient c ctx (slice nonce_size nonce_at packet)
          (slice (pkt_len - enc_start) enc_start packet))
        (λ plain. restore_plain_packet (put packet enc_start plain) pkt_len plain))))

-- `l2_tcp_encrypt`, `l2_icmp_encrypt` and `l2_ospf_encrypt`, which are the same.
unfoldable pub plain_encrypt :
    Scrypt → ℕ → CryptoCtx → Option (List ℕ) → List ℕ → ℕ → Option (List ℕ × ℕ)
plain_encrypt c worker_idx ctx nonce packet pkt_len =
    if not ctx.initialized || ltb pkt_len min_eth_pkt
    then none
    else if not (crypto_pkt_is_ipv4 packet pkt_len)
    then some (packet, pkt_len)
    else do_encrypt c worker_idx ctx nonce packet pkt_len

-- `l2_tcp_decrypt`, `l2_icmp_decrypt` and `l2_ospf_decrypt`
unfoldable pub plain_decrypt : Scrypt → CryptoCtx → List ℕ → ℕ → Option (List ℕ × ℕ)
plain_decrypt c ctx packet pkt_len =
    if not ctx.initialized
    then none
    else if not (crypto_eth_l2_has_marker packet pkt_len)
    then some (packet, pkt_len)
    else do_decrypt c ctx packet pkt_len

abbrev pub arp_payload : ℕ
arp_payload = 28

unfoldable pub do_encrypt_arp :
    Scrypt → ℕ → CryptoCtx → Option (List ℕ) → List ℕ → ℕ → Option (List ℕ × ℕ)
do_encrypt_arp c worker_idx ctx nonce packet pkt_len =
    and_then (crypto_eth_arp_offset packet pkt_len) (λ arp_off.
      let et_off = arp_off - 2 in
      let enc_start = et_off + 2 + (1 + 1 + nonce_size) in
      let moved = put packet enc_start (slice arp_payload arp_off packet) in
      if ltb pkt_len (arp_off + arp_payload)
      then none
      else seal_plain c worker_idx ctx nonce fake_ethertype_arp et_off moved enc_start arp_payload)

unfoldable pub do_decrypt_arp : Scrypt → CryptoCtx → List ℕ → ℕ → Option (List ℕ × ℕ)
do_decrypt_arp c ctx packet pkt_len = and_then (crypto_eth_inner_et_off packet pkt_len) (λ et_off.
    let enc_start = et_off + 2 + (1 + 1 + nonce_size) in
    if ltb pkt_len enc_start
    then none
    else and_then (sess_load ctx) (λ key.
      and_then
        (decrypt_payload_resilient c ctx (slice nonce_size (et_off + 2 + 1 + 1) packet)
          (slice (pkt_len - enc_start) enc_start packet))
        (λ plain.
          let typed = crypto_eth_set_arp_et (put packet enc_start plain) (pos et_off) in
          if ltb (length plain) arp_payload
          then none
          else some (put typed (et_off + 2) plain, et_off + 2 + length plain))))

unfoldable pub arp_encrypt :
    Scrypt → ℕ → CryptoCtx → Option (List ℕ) → List ℕ → ℕ → Option (List ℕ × ℕ)
arp_encrypt c worker_idx ctx nonce packet pkt_len =
    if not ctx.initialized || ltb pkt_len min_eth_pkt
    then none
    else if not (crypto_pkt_is_arp packet pkt_len)
    then some (packet, pkt_len)
    else do_encrypt_arp c worker_idx ctx nonce packet pkt_len

unfoldable pub arp_decrypt : Scrypt → CryptoCtx → List ℕ → ℕ → Option (List ℕ × ℕ)
arp_decrypt c ctx packet pkt_len =
    if not ctx.initialized
    then none
    else if not (crypto_eth_l2_has_arp_marker packet pkt_len)
    then some (packet, pkt_len)
    else do_decrypt_arp c ctx packet pkt_len
