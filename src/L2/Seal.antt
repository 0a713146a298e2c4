-- ===== src/L2/Seal.antt =====
-- src/crypto/pqc/pqc_l2_option.c: where the parts of an encrypted UDP packet come to lie.
use ne_encryptor.Prelude.{
  ℕ, ◌+◌, ◌-◌, ◌≤◌, ◌≡◌, refl, sym, ap, ◌∙◌, Option, some, List, ◌∷◌, ◌++◌, arith, ltb, if_false,
  ltb_of_le, length, length-append,
}
use ne_encryptor.L2.{slice, put, ShimFields, write_shim, shim_size, kind_full}
use ne_encryptor.L2.Reasm.{ne_frame}
use ne_encryptor.L2.Buffer.{put_before, put_parts, put_over, slice-put}
use ne_encryptor.L2.Packet.{
  Scrypt, CryptoCtx, and_then, marker, nonce_size, tag_size, sess_load, encrypt_payload,
  write_wire_header_et, seal_udp, encrypt_udp_at,
}

-- The ethertype, the policy, the worker and the nonce, as they go in clear.
abbrev pub wire_header : ℕ → ℕ → List ℕ → List ℕ
wire_header wire_id worker_idx nonce = 0x10 ∷ 0x4b ∷ wire_id ∷ worker_idx ∷ nonce

-- The encrypted packet in the buffer, with the ciphertext `cipher`.
abbrev pub sealed : List ℕ → ℕ → ℕ → ℕ → List ℕ → List ℕ → List ℕ
sealed buf et_off wire_id worker_idx nonce cipher =
    put buf et_off ((wire_header wire_id worker_idx nonce ++ marker) ++ cipher)

seal_udp_lays :
    (c : Scrypt) (worker_idx : ℕ) (ctx : CryptoCtx) (buf : List ℕ) (et_off : ℕ)
    (key nonce plain cipher : List ℕ)
    → length nonce ≡ nonce_size
    → et_off + 20 ≤ length buf
    → encrypt_payload c key nonce plain ≡ some cipher
    → length plain ≤ length cipher
    → seal_udp c worker_idx ctx et_off key nonce (put buf (et_off + 20) plain) (length plain)
      ≡ some (sealed buf et_off ctx.wire_id worker_idx nonce cipher, et_off + 20 + length cipher)
unfolding seal_udp write_wire_header_et
seal_udp_lays c worker_idx ctx buf et_off key nonce plain cipher size room seals long =
    let head = wire_header ctx.wire_id worker_idx nonce in
    let front = head ++ marker in
    let start = et_off + length front in
    let short : et_off + 20 ≡ start = omega (arith, size, length-append head marker) in
    let at_marker : et_off + 2 + 1 + 1 + nonce_size ≡ et_off + length head = omega (arith, size) in
    let at_start : et_off + 2 + 1 + 1 + nonce_size + 4 ≡ start =
      omega (arith, size, length-append head marker) in
    let whole = put buf et_off (front ++ plain) in
    let body : List ℕ → ℕ → Option (List ℕ × ℕ) = λ packet n.
      and_then (encrypt_payload c key nonce (slice (length plain) n packet))
        (λ out. some (put packet n out, n + length out)) in
    let lays : put (put (put buf (et_off + 20) plain) et_off head) (et_off + 2 + 1 + 1 + nonce_size)
          marker
        ≡ whole =
      ap (λ n. put (put (put buf n plain) et_off head) (et_off + 2 + 1 + 1 + nonce_size) marker)
        short
      ∙ ap (λ n. put (put (put buf start plain) et_off head) n marker) at_marker
      ∙ put_parts buf et_off head marker plain (omega (arith, short, room)) in
    ap (λ packet. body packet (et_off + 2 + 1 + 1 + nonce_size + 4)) lays
    ∙ ap (body whole) at_start
    ∙ ap
        (λ bytes.
          and_then (encrypt_payload c key nonce bytes)
            (λ out. some (put whole start out, start + length out)))
        (slice-put buf et_off front plain (omega (arith, room)))
    ∙ ap (λ o. and_then o (λ out. some (put whole start out, start + length out))) seals
    ∙ ap (λ packet. some (packet, start + length cipher))
        (put_over buf et_off front plain cipher (omega (arith, room)) long)
    ∙ ap (λ n. some (sealed buf et_off ctx.wire_id worker_idx nonce cipher, n + length cipher))
        (sym short)

-- The bytes that are encrypted: the shim and the payload.
abbrev pub plain_of : ShimFields → List ℕ → List ℕ
plain_of shim payload = write_shim (record shim { kind = kind_full }) ++ payload

pub length-write_shim : (shim : ShimFields) → length (write_shim shim) ≡ shim_size
unfolding write_shim
length-write_shim shim = refl

pub length-plain_of :
    (shim : ShimFields) (payload : List ℕ)
    → length (plain_of shim payload) ≡ shim_size + length payload
length-plain_of shim payload = omega (
  arith,
  length-append (write_shim (record shim { kind = kind_full })) payload,
  length-write_shim (record shim { kind = kind_full }),
)

-- The payload and the shim are put in place, and then encrypted.
pub seal_moved :
    (c : Scrypt) (worker_idx : ℕ) (ctx : CryptoCtx) (key nonce : List ℕ) (shim : ShimFields)
    (buf payload bytes cipher : List ℕ) (et_off len : ℕ)
    → length nonce ≡ nonce_size
    → et_off + 33 ≤ length buf
    → bytes ≡ payload
    → len ≡ length payload
    → encrypt_payload c key nonce (write_shim shim ++ payload) ≡ some cipher
    → length cipher ≡ shim_size + length payload + tag_size
    → let start = et_off + 2 + 1 + 1 + nonce_size + 4 in
      seal_udp c worker_idx ctx et_off key nonce
        (put (put buf (start + shim_size) bytes) start (write_shim shim))
        (shim_size + len)
      ≡ some (sealed buf et_off ctx.wire_id worker_idx nonce cipher, et_off + 20 + length cipher)
seal_moved c worker_idx ctx key nonce shim buf payload bytes cipher et_off len size room same count
      seals tag =
    let start = et_off + 2 + 1 + 1 + nonce_size + 4 in
    let plain = write_shim shim ++ payload in
    let at_start : start ≡ et_off + 20 = omega arith in
    let plain_size : length plain ≡ shim_size + length payload =
      omega (arith, length-append (write_shim shim) payload, length-write_shim shim) in
    let whole : shim_size + len ≡ length plain = omega (arith, count, plain_size) in
    let lays : put (put buf (start + shim_size) bytes) start (write_shim shim)
        ≡ put buf (et_off + 20) plain =
      ap (λ bs. put (put buf (start + shim_size) bs) start (write_shim shim)) same
      ∙ ap (λ n. put (put buf (n + shim_size) payload) n (write_shim shim)) at_start
      ∙ ap (λ n. put (put buf (et_off + 20 + n) payload) (et_off + 20) (write_shim shim))
          (sym (length-write_shim shim))
      ∙ put_before buf (et_off + 20) (write_shim shim) payload
          (omega (arith, length-write_shim shim, room)) in
    ap (λ packet. seal_udp c worker_idx ctx et_off key nonce packet (shim_size + len)) lays
    ∙ ap (seal_udp c worker_idx ctx et_off key nonce (put buf (et_off + 20) plain)) whole
    ∙ seal_udp_lays c worker_idx ctx buf et_off key nonce plain cipher size (omega (arith, room))
        seals (omega (arith, tag, plain_size))

-- If the packet fits, the key is there and the library encrypts, the packet is laid out as `sealed`.
pub encrypt_udp_at_lays :
    (c : Scrypt) (worker_idx : ℕ) (ctx : CryptoCtx) (key nonce : List ℕ) (shim : ShimFields)
    (buf payload cipher : List ℕ) (pkt_len et_off : ℕ)
    → length nonce ≡ nonce_size
    → sess_load ctx ≡ some key
    → et_off + 2 ≤ pkt_len
    → pkt_len + 47 ≤ ne_frame
    → ne_frame ≤ length buf
    → slice (pkt_len - (et_off + 2)) (et_off + 2) buf ≡ payload
    → length payload ≡ pkt_len - (et_off + 2)
    → encrypt_payload c key nonce (plain_of shim payload) ≡ some cipher
    → length cipher ≡ length (plain_of shim payload) + tag_size
    → encrypt_udp_at c worker_idx ctx (some nonce) shim buf pkt_len (et_off + 2) et_off
      ≡ some (sealed buf et_off ctx.wire_id worker_idx nonce cipher, pkt_len + 47)
unfolding encrypt_udp_at
encrypt_udp_at_lays c worker_idx ctx key nonce shim buf payload cipher pkt_len et_off size loads
      head fits room bytes long seals tag =
    let shim' : ShimFields = record shim { kind = kind_full } in
    let start = et_off + 2 + 1 + 1 + nonce_size + 4 in
    let moved =
      put (put buf (start + shim_size) (slice (pkt_len - (et_off + 2)) (et_off + 2) buf)) start
        (write_shim shim') in
    let cipher_size : length cipher ≡ shim_size + length payload + tag_size =
      omega (arith, tag, length-plain_of shim payload) in
    let ends : et_off + 20 + length cipher ≡ pkt_len + 47 =
      omega (arith, cipher_size, long, head) in
    if_false (ltb ne_frame (start + (shim_size + (pkt_len - (et_off + 2))) + tag_size)) _ _
      (ltb_of_le ne_frame _ (omega (arith, head, fits)))
    ∙ ap
        (λ o. and_then o (λ k.
          seal_udp c worker_idx ctx et_off k nonce moved (shim_size + (pkt_len - (et_off + 2)))))
        loads
    ∙ seal_moved c worker_idx ctx key nonce shim' buf payload _ cipher et_off
        (pkt_len - (et_off + 2)) size (omega (arith, head, fits, room)) bytes (sym long) seals
        cipher_size
    ∙ ap (λ n. some (sealed buf et_off ctx.wire_id worker_idx nonce cipher, n)) ends
