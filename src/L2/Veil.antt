-- ===== src/L2/Veil.antt =====
-- src/crypto/pqc/pqc_l2_option.c: where the parts of an encrypted TCP, ICMP or OSPF packet come to lie.
use ne_encryptor.Prelude.{
  ℕ, ◌+◌, ◌-◌, ◌≤◌, ◌<◌, ◌≡◌, sym, ap, ◌∙◌, false, Option, none, some, List, ◌∷◌, ◌++◌, arith, ltb,
  ◌==◌, if◌then◌else◌, if_false, ltb_of_le, length,
}
use ne_encryptor.Eth.{
  crypto_eth_ipv4_offset, crypto_eth_inner_et_off, crypto_eth_l2_prefix_len, fake_ethertype,
}
use ne_encryptor.L2.{slice, put}
use ne_encryptor.L2.Buffer.{put_before, put_over, slice-put, length-slice}
use ne_encryptor.L2.Packet.{
  Scrypt, CryptoCtx, and_then, nonce_size, sess_load, encrypt_payload, write_wire_header_et,
}
use ne_encryptor.L2.Plain.{seal_plain, do_encrypt}

-- The ethertype of such a packet, the policy, the worker and the nonce, in clear.
abbrev pub veil_header : ℕ → ℕ → List ℕ → List ℕ
veil_header wire_id worker_idx nonce = 0x10 ∷ 0x4a ∷ wire_id ∷ worker_idx ∷ nonce

seal_plain_lays :
    (c : Scrypt) (worker_idx : ℕ) (ctx : CryptoCtx) (key nonce pkt payload cipher : List ℕ)
    (et_off : ℕ)
    → sess_load ctx ≡ some key
    → et_off + length (veil_header ctx.wire_id worker_idx nonce) ≤ length pkt
    → encrypt_payload c key nonce payload ≡ some cipher
    → length payload ≤ length cipher
    → let head = veil_header ctx.wire_id worker_idx nonce in
      let start = et_off + length head in
      seal_plain c worker_idx ctx
        (some nonce)
        fake_ethertype
        et_off
        (put pkt start payload)
        start
        (length payload)
      ≡ some (put pkt et_off (head ++ cipher), start + length cipher)
unfolding seal_plain write_wire_header_et
seal_plain_lays c worker_idx ctx key nonce pkt payload cipher et_off loads room seals long =
    let head = veil_header ctx.wire_id worker_idx nonce in
    let start = et_off + length head in
    let near : et_off ≤ length pkt = omega (arith, room) in
    let out : List ℕ → List ℕ → Option (List ℕ × ℕ) =
      λ packet cip. some (put packet start cip, start + length cip) in
    let body : List ℕ → List ℕ → Option (List ℕ × ℕ) = λ k packet.
      and_then (encrypt_payload c k nonce (slice (length payload) start packet)) (out packet) in
    let whole = put pkt et_off (head ++ payload) in
    ap (λ o. and_then o (λ k. body k (put (put pkt start payload) et_off head))) loads
    ∙ ap (body key) (put_before pkt et_off head payload room)
    ∙ ap (λ bytes. and_then (encrypt_payload c key nonce bytes) (out whole))
        (slice-put pkt et_off head payload near)
    ∙ ap (λ o. and_then o (out whole)) seals
    ∙ ap (λ b. some (b, start + length cipher)) (put_over pkt et_off head payload cipher near long)

some_bytes : (n : ℕ) → 0 < n → n == 0 ≡ false
some_bytes n h = ground (arith, h)

-- A frame with the ethertype of IPv4 at `et_off`, at least 16 bytes from there on and room for what
-- comes out, with a nonce of 12 bytes, a usable key and a library that encrypts the IPv4 packet and
-- does not shorten it: `l2_do_encrypt` succeeds, and from `et_off` on there are the ethertype for
-- encrypted packets, the policy, the worker, the nonce and the ciphertext of the whole IPv4 packet,
-- where the frame ends.
pub do_encrypt_lays :
    (c : Scrypt) (worker_idx : ℕ) (ctx : CryptoCtx) (key nonce pkt cipher : List ℕ)
    (pkt_len et_off : ℕ)
    → crypto_eth_inner_et_off pkt pkt_len ≡ some et_off
    → crypto_eth_ipv4_offset pkt pkt_len ≡ some (et_off + 2)
    → et_off + 16 ≤ pkt_len
    → et_off + 16 + length cipher ≤ length pkt
    → length nonce ≡ nonce_size
    → sess_load ctx ≡ some key
    → c.seal_gcm key nonce (slice (pkt_len - (et_off + 2)) (et_off + 2) pkt) ≡ some cipher
    → pkt_len - (et_off + 2) ≤ length cipher
    → do_encrypt c worker_idx ctx (some nonce) pkt pkt_len
      ≡ some (
        put pkt et_off (veil_header ctx.wire_id worker_idx nonce ++ cipher),
        et_off + 16 + length cipher,
      )
unfolding do_encrypt crypto_eth_l2_prefix_len encrypt_payload
do_encrypt_lays c worker_idx ctx key nonce pkt cipher pkt_len et_off type_at ip_at long room size
      loads seals grows =
    let head = veil_header ctx.wire_id worker_idx nonce in
    let start = et_off + 2 + 1 + 1 + nonce_size in
    let n = pkt_len - (et_off + 2) in
    let payload = slice n (et_off + 2) pkt in
    let next : ℕ → ℕ → Option (List ℕ × ℕ) = λ l3 et.
      if ltb pkt_len (et + 2 + 1 + 1 + nonce_size)
      then none
      else seal_plain c worker_idx ctx (some nonce) fake_ethertype et
          (put pkt (et + 2 + 1 + 1 + nonce_size) (slice (pkt_len - l3) l3 pkt))
          (et + 2 + 1 + 1 + nonce_size) (pkt_len - l3) in
    let whole : length payload ≡ n =
      length-slice n (et_off + 2) pkt (omega (arith, long, room, grows)) in
    let at_start : start ≡ et_off + length head = omega (arith, size) in
    let sealed : encrypt_payload c key nonce payload ≡ some cipher =
      if_false (length payload == 0) _ _ (some_bytes (length payload) (omega (arith, whole, long)))
      ∙ seals in
    ap (λ o. and_then o (λ l3. and_then (crypto_eth_inner_et_off pkt pkt_len) (next l3))) ip_at
    ∙ ap (λ o. and_then o (next (et_off + 2))) type_at
    ∙ if_false (ltb pkt_len start) _ _ (ltb_of_le pkt_len _ (omega (arith, long)))
    ∙ ap
        (λ m.
          seal_plain c worker_idx ctx (some nonce) fake_ethertype et_off (put pkt m payload) m n)
        at_start
    ∙ ap
        (seal_plain c worker_idx ctx (some nonce) fake_ethertype et_off
          (put pkt (et_off + length head) payload) (et_off + length head))
        (sym whole)
    ∙ seal_plain_lays c worker_idx ctx key nonce pkt payload cipher et_off loads
        (omega (arith, size, room)) sealed (omega (arith, whole, grows))
    ∙ ap (λ m. some (put pkt et_off (head ++ cipher), m + length cipher)) (omega (arith, size))
