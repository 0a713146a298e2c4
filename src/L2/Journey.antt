-- ===== src/L2/Journey.antt =====
-- src/crypto/pqc/pqc_l2_option.c: a UDP packet is encrypted on one side and decrypted on the other.
use ne_encryptor.Prelude.{
  ℕ, ◌+◌, ◌-◌, ◌≤◌, ◌≡◌, refl, sym, ap, ◌∙◌, true, false, Option, none, some, List, [], ◌∷◌, ◌++◌,
  arith, ltb, leb, ◌&&◌, not, if◌then◌else◌, if_true, if_false, ltb_of_le, length, take, drop,
  length-append,
}
use ne_encryptor.Eth.{crypto_eth_inner_et_off}
use ne_encryptor.L2.{slice, put, ShimFields, write_shim, read_shim, kind_full, shim_size}
use ne_encryptor.L2.Shim.{IsShim, read_shim-write_shim}
use ne_encryptor.L2.Buffer.{append_assoc, take_at, drop_at, length-take_le}
use ne_encryptor.L2.Packet.{
  Scrypt, CryptoCtx, and_then, marker, nonce_size, tag_size, sess_load, same_key,
  decrypt_payload_resilient, nonce_off, enc_start_off, marker_match, open_udp, do_decrypt_udp,
  restore_udp,
}
use ne_encryptor.L2.Seal.{wire_header, length-write_shim}
use ne_encryptor.L2.Parse.{framed_nonce, framed_start_off}
use ne_encryptor.L2.Open.{front, front-framed, length-front_at, restore_udp_lays, opened_parts}

-- A part of the clear bytes, by what goes before it.
part_at :
    (start : List ℕ) (part rest : List ℕ) (n m : ℕ)
    → length start ≡ m
    → length part ≡ n
    → slice n m (start ++ (part ++ rest)) ≡ part
part_at start part rest n m e f =
    ap (take n) (drop_at start (part ++ rest) m e) ∙ take_at part rest n f

fits_marker : (m k : ℕ) → m + 4 ≤ k → not (leb (m + 4) k && true) ≡ false
fits_marker m k h = ground (arith, h)

module _ (pkt : List ℕ) (pkt_len et_off wire_id worker_idx : ℕ) (nonce : List ℕ)
    (found : crypto_eth_inner_et_off pkt pkt_len ≡ some et_off) (inside : et_off ≤ length pkt)
    (size : length nonce ≡ nonce_size) where
  abbrev start : List ℕ
  start = front pkt pkt_len et_off wire_id worker_idx nonce found inside

  nonce_at : (rest : List ℕ) → slice nonce_size (et_off + 2 + 1 + 1) (start ++ rest) ≡ nonce
  nonce_at rest =
      let head = take et_off pkt ++ (0x10 ∷ 0x4b ∷ wire_id ∷ worker_idx ∷ []) in
      ap (slice nonce_size (et_off + 2 + 1 + 1)) (
        append_assoc (take et_off pkt) (wire_header wire_id worker_idx nonce ++ marker) rest
        ∙ sym (
            append_assoc (take et_off pkt) (0x10 ∷ 0x4b ∷ wire_id ∷ worker_idx ∷ [])
              (nonce ++ marker ++ rest))
        ∙ ap (λ xs. head ++ xs) (append_assoc nonce marker rest))
      ∙ part_at head nonce (marker ++ rest) nonce_size (et_off + 2 + 1 + 1)
          (omega (
            arith,
            length-append (take et_off pkt) (0x10 ∷ 0x4b ∷ wire_id ∷ worker_idx ∷ []),
            length-take_le et_off pkt inside,
          ))
          size

  marker_at : (rest : List ℕ) → slice 4 (et_off + 2 + 1 + 1 + nonce_size) (start ++ rest) ≡ marker
  marker_at rest =
      let head = wire_header wire_id worker_idx nonce in
      ap (slice 4 (et_off + 2 + 1 + 1 + nonce_size)) (
        ap (λ xs. xs ++ rest) (sym (append_assoc (take et_off pkt) head marker))
        ∙ append_assoc (take et_off pkt ++ head) marker rest)
      ∙ part_at (take et_off pkt ++ head) marker rest 4 (et_off + 2 + 1 + 1 + nonce_size)
          (omega
            (arith, length-append (take et_off pkt) head, length-take_le et_off pkt inside, size))
          refl

  -- The opened bytes of a packet that `open_udp` takes.
  open_udp_lays :
      (c : Scrypt) (ctx : CryptoCtx) (key : List ℕ) (shim : ShimFields)
      (payload cipher back : List ℕ) (k : ℕ)
      → IsShim shim
      → shim.kind ≡ kind_full
      → sess_load ctx ≡ some key
      → decrypt_payload_resilient c ctx nonce cipher ≡ some (write_shim shim ++ payload)
      → length cipher ≡ shim_size + length payload + tag_size
      → k ≡ et_off + 20 + length cipher
      → (b : List ℕ) × ((open_udp c ctx
              (start ++ (cipher ++ back))
              k
              (et_off + 2 + 1 + 1 + nonce_size)
              (et_off + 2 + 1 + 1)
            ≡ some (b, et_off + 2 + length payload, shim))
          × (take (et_off + 2 + length payload) b ≡ take et_off pkt ++ (0x08 ∷ 0x00 ∷ payload)))
  unfolding open_udp
  open_udp_lays c ctx key shim payload cipher back k fields full loads opens tag ends =
      let at = et_off + 2 + 1 + 1 + nonce_size + 4 in
      let nonce_off' = et_off + 2 + 1 + 1 in
      let plain = write_shim shim ++ payload in
      let whole = start ++ (cipher ++ back) in
      let here : at ≡ et_off + 20 = omega arith in
      let start_size : length start ≡ at = omega (
        arith,
        here,
        length-front_at pkt pkt_len et_off wire_id worker_idx nonce found inside size,
      ) in
      let plain_size : length plain ≡ 13 + length payload =
        omega (arith, length-append (write_shim shim) payload, length-write_shim shim) in
      let tail = drop (at + length plain) whole in
      let (b, (restored, same)) =
        restore_udp_lays pkt pkt_len et_off wire_id worker_idx nonce found inside shim payload tail
          k at (length plain) size full (omega (arith, ends, tag)) here plain_size in
      let read : List ℕ → Option (List ℕ × ℕ × ShimFields) = λ bytes.
        and_then (read_shim (drop at bytes)) (λ s. restore_udp bytes k at (length plain) s) in
      let after : List ℕ → Option (List ℕ × ℕ × ShimFields) = λ p.
        if ltb (length p) shim_size
        then none
        else and_then (read_shim (drop at (put whole at p)))
            (λ s. restore_udp (put whole at p) k at (length p) s) in
      let cipher_at : slice (k - at) at whole ≡ cipher =
        part_at start cipher back (k - at) at start_size (omega (arith, ends, here)) in
      let shim_at : read_shim (drop at (start ++ (plain ++ tail))) ≡ some shim =
        ap read_shim (
          drop_at start (plain ++ tail) at start_size ∙ append_assoc (write_shim shim) payload tail)
        ∙ read_shim-write_shim shim (payload ++ tail) fields
        ∙ if_true (leb shim.kind kind_full) _ _ (ground (arith, full)) in
      (
        b,
        (
          if_false (ltb k (at + shim_size + tag_size)) _ _
                (ltb_of_le k (at + shim_size + tag_size) (omega (arith, ends, tag, here)))
              ∙ ap
                  (λ o. and_then o (λ _.
                    and_then
                      (decrypt_payload_resilient c ctx (slice nonce_size nonce_off' whole)
                        (slice (k - at) at whole))
                      after))
                  loads
              ∙ ap
                  (λ n.
                    and_then (decrypt_payload_resilient c ctx n (slice (k - at) at whole)) after)
                  (nonce_at (cipher ++ back))
              ∙ ap (λ bytes. and_then (decrypt_payload_resilient c ctx nonce bytes) after) cipher_at
              ∙ ap (λ o. and_then o after) opens
              ∙ if_false (ltb (length plain) shim_size) _ _
                  (ltb_of_le (length plain) shim_size (omega (arith, plain_size)))
              ∙ ap read (opened_parts start (cipher ++ back) at plain start_size)
              ∙ ap
                  (λ o.
                    and_then o (λ s. restore_udp (start ++ (plain ++ tail)) k at (length plain) s))
                  shim_at
              ∙ restored,
          same,
        ),
      )

  pub do_decrypt_udp_lays :
      (c : Scrypt) (ctx : CryptoCtx) (key : List ℕ) (shim : ShimFields)
      (payload cipher back : List ℕ) (k : ℕ)
      → IsShim shim
      → shim.kind ≡ kind_full
      → sess_load ctx ≡ some key
      → decrypt_payload_resilient c ctx nonce cipher ≡ some (write_shim shim ++ payload)
      → length cipher ≡ shim_size + length payload + tag_size
      → k ≡ et_off + 20 + length cipher
      → (b : List ℕ) × ((do_decrypt_udp c ctx (start ++ (cipher ++ back)) k
            ≡ some (b, et_off + 2 + length payload, shim))
          × (take (et_off + 2 + length payload) b ≡ take et_off pkt ++ (0x08 ∷ 0x00 ∷ payload)))
  unfolding do_decrypt_udp marker_match same_key
  do_decrypt_udp_lays c ctx key shim payload cipher back k fields full loads opens tag ends =
      let whole = start ++ (cipher ++ back) in
      let magic = et_off + 2 + 1 + 1 + nonce_size in
      let rest = (wire_id ∷ worker_idx ∷ nonce ++ marker) ++ (cipher ++ back) in
      let framed_whole =
        front-framed pkt pkt_len et_off wire_id worker_idx nonce found inside (cipher ++ back) in
      let long : et_off + 36 ≤ k = omega (arith, ends, tag) in
      let magic_at : enc_start_off whole k ≡ some magic =
        ap (λ b. enc_start_off b k) framed_whole
        ∙ framed_start_off pkt pkt_len et_off k rest found inside (omega (arith, long))
            (omega (arith, long)) in
      let nonce_place : nonce_off whole k ≡ some (et_off + 2 + 1 + 1) =
        ap (λ b. nonce_off b k) framed_whole
        ∙ framed_nonce pkt pkt_len et_off k rest found inside (omega (arith, long))
            (omega (arith, long)) in
      let (b, (opened, same)) =
        open_udp_lays c ctx key shim payload cipher back k fields full loads opens tag ends in
      let matches : not (marker_match whole k magic) ≡ false =
        ap (λ m. not (leb (magic + 4) k && same_key m marker)) (marker_at (cipher ++ back))
        ∙ fits_marker magic k (omega (arith, long)) in
      (
        b,
        (
          ap
                (λ o. and_then o (λ m.
                  and_then (nonce_off whole k) (λ n.
                    if not (marker_match whole k m) then none else open_udp c ctx whole k m n)))
                magic_at
              ∙ ap
                  (λ o. and_then o (λ n.
                    if not (marker_match whole k magic)
                    then none
                    else open_udp c ctx whole k magic n))
                  nonce_place
              ∙ if_false (not (marker_match whole k magic)) _ _ matches
              ∙ opened,
          same,
        ),
      )
