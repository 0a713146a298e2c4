-- ===== src/L2/Open.antt =====
-- src/crypto/pqc/pqc_l2_option.c: an encrypted UDP packet after its bytes were decrypted in place.
use ne_encryptor.Prelude.{
  ℕ, zero, suc, ◌+◌, ◌-◌, ◌≤◌, ◌≡◌, refl, sym, ap, ◌∙◌, Option, some, List, [], ◌∷◌, ◌++◌, arith,
  ltb, ◌==◌, if◌then◌else◌, if_true, if_false, ltb_of_le, length, take, drop, set, length-append,
}
use ne_encryptor.Prelude.Int.{pos}
use ne_encryptor.Eth.{crypto_eth_inner_et_off, crypto_eth_l2_prefix_len, crypto_eth_set_ipv4_et}
use ne_encryptor.L2.{slice, put, ShimFields, write_shim, kind_full, shim_size}
use ne_encryptor.L2.Buffer.{append_assoc, take_at, drop_at, length-take_le}
use ne_encryptor.L2.Packet.{and_then, marker, nonce_size, restore_udp}
use ne_encryptor.L2.Seal.{wire_header, length-write_shim}
use ne_encryptor.L2.Parse.{framed, framed_offset}

set_at : (xs ys : List ℕ) (y v n : ℕ) → length xs ≡ n → set (xs ++ (y ∷ ys)) n v ≡ xs ++ (v ∷ ys)
set_at [] ys y v zero e = refl
set_at [] ys y v (suc n) e = absurd (omega (arith, e))
set_at (x ∷ xs) ys y v zero e = absurd (omega (arith, e))
set_at (x ∷ xs) ys y v (suc n) e = ap (λ zs. x ∷ zs) (set_at xs ys y v n (omega (arith, e)))

set_next :
    (xs ys : List ℕ) (a b v n : ℕ)
    → length xs ≡ n
    → set (xs ++ (a ∷ b ∷ ys)) (n + 1) v ≡ xs ++ (a ∷ v ∷ ys)
set_next xs ys a b v n e =
    ap (λ zs. set zs (n + 1) v) (sym (append_assoc xs (a ∷ []) (b ∷ ys)))
    ∙ set_at (xs ++ a ∷ []) ys b v (n + 1) (omega (arith, e, length-append xs (a ∷ [])))
    ∙ append_assoc xs (a ∷ []) (v ∷ ys)

-- The ethertype of IPv4 replaces the one that is there.
set_type :
    (xs ys : List ℕ) (a b n : ℕ)
    → length xs ≡ n
    → crypto_eth_set_ipv4_et (xs ++ (a ∷ b ∷ ys)) (pos n) ≡ xs ++ (0x08 ∷ 0x00 ∷ ys)
unfolding crypto_eth_set_ipv4_et
set_type xs ys a b n e =
    if_false (ltb (n + 0) 0) _ _ (ltb_of_le (n + 0) 0 (omega arith))
    ∙ ap (λ zs. set zs (n + 1) 0x00) (set_at xs (b ∷ ys) a 0x08 n e)
    ∙ set_next xs ys 0x08 b 0x00 n e

-- The buffer once the plain bytes are in their place: `front` is what goes in clear.
pub opened_parts :
    (front back : List ℕ) (n : ℕ) (c : List ℕ)
    → length front ≡ n
    → put (front ++ back) n c ≡ front ++ (c ++ drop (n + length c) (front ++ back))
unfolding put
opened_parts front back n c e =
    ap (λ xs. xs ++ c ++ drop (n + length c) (front ++ back)) (take_at front back n e)
    ∙ append_assoc front c (drop (n + length c) (front ++ back))

module _ (pkt : List ℕ) (pkt_len et_off wire_id worker_idx : ℕ) (nonce : List ℕ)
    (found : crypto_eth_inner_et_off pkt pkt_len ≡ some et_off) (inside : et_off ≤ length pkt) where
  -- What goes in clear, up to the ciphertext.
  abbrev pub front : List ℕ
  front = take et_off pkt ++ (wire_header wire_id worker_idx nonce ++ marker)

  pub front-framed :
      (rest : List ℕ)
      → front ++ rest ≡ framed pkt et_off ((wire_id ∷ worker_idx ∷ nonce ++ marker) ++ rest)
  front-framed rest =
      append_assoc (take et_off pkt) (wire_header wire_id worker_idx nonce ++ marker) rest

  pub length-front_at : length nonce ≡ nonce_size → length front ≡ et_off + 20
  length-front_at size = omega (
    arith,
    length-append (take et_off pkt) (wire_header wire_id worker_idx nonce ++ marker),
    length-append (wire_header wire_id worker_idx nonce) marker,
    length-take_le et_off pkt inside,
    size,
  )

  pub front-offset :
      (rest : List ℕ) (k : ℕ) → 18 ≤ k → crypto_eth_l2_prefix_len (front ++ rest) k ≡ some et_off
  unfolding crypto_eth_l2_prefix_len
  front-offset rest k long =
      ap (λ b. crypto_eth_inner_et_off b k) (front-framed rest)
      ∙ framed_offset pkt pkt_len et_off k _ found inside long

  front_payload :
      (shim : ShimFields) (payload back : List ℕ) (n m : ℕ)
      → length nonce ≡ nonce_size
      → n ≡ length payload
      → m ≡ et_off + 33
      → slice n m (front ++ (write_shim shim ++ payload ++ back)) ≡ payload
  front_payload shim payload back n m size e at =
      let whole : length (front ++ write_shim shim) ≡ m = omega (
        arith,
        at,
        length-append front (write_shim shim),
        length-front_at size,
        length-write_shim shim,
      ) in
      ap (λ b. slice n m (front ++ b)) (append_assoc (write_shim shim) payload back)
      ∙ ap (slice n m) (sym (append_assoc front (write_shim shim) (payload ++ back)))
      ∙ ap (take n) (drop_at (front ++ write_shim shim) (payload ++ back) m whole)
      ∙ take_at payload back n (sym e)

  -- The payload over the clear part, behind the ethertype.
  front_moved :
      (rest payload : List ℕ)
      → (back : List ℕ) × (crypto_eth_set_ipv4_et
            (put (front ++ rest) (et_off + 2) payload)
            (pos et_off)
          ≡ take et_off pkt ++ (0x08 ∷ 0x00 ∷ (payload ++ back)))
  front_moved rest payload =
      let head = take et_off pkt ++ (0x10 ∷ 0x4b ∷ []) in
      let tail = (wire_id ∷ worker_idx ∷ nonce ++ marker) ++ rest in
      let size : length head ≡ et_off + 2 = omega (
        arith,
        length-append (take et_off pkt) (0x10 ∷ 0x4b ∷ []),
        length-take_le et_off pkt inside,
      ) in
      let back = drop (et_off + 2 + length payload) (head ++ tail) in
      (
        back,
        ap (λ b. crypto_eth_set_ipv4_et (put b (et_off + 2) payload) (pos et_off))
              (front-framed rest ∙ sym (append_assoc (take et_off pkt) (0x10 ∷ 0x4b ∷ []) tail))
            ∙ ap (λ b. crypto_eth_set_ipv4_et b (pos et_off))
                (opened_parts head tail (et_off + 2) payload size
                  ∙ append_assoc (take et_off pkt) (0x10 ∷ 0x4b ∷ []) (payload ++ back))
            ∙ set_type (take et_off pkt) (payload ++ back) 0x10 0x4b et_off
                (length-take_le et_off pkt inside),
      )

  -- The payload slides back behind the ethertype, which is that of IPv4 again.
  pub restore_udp_lays :
      (shim : ShimFields) (payload back : List ℕ) (k at len : ℕ)
      → length nonce ≡ nonce_size
      → shim.kind ≡ kind_full
      → 18 ≤ k
      → at ≡ et_off + 20
      → len ≡ 13 + length payload
      → (b : List ℕ) × ((restore_udp (front ++ (write_shim shim ++ payload ++ back)) k at len shim
            ≡ some (b, et_off + 2 + length payload, shim))
          × (take (et_off + 2 + length payload) b ≡ take et_off pkt ++ (0x08 ∷ 0x00 ∷ payload)))
  unfolding restore_udp
  restore_udp_lays shim payload back k at len size full long here count =
      let rest = write_shim shim ++ payload ++ back in
      let (tail, moved) = front_moved rest payload in
      let b = take et_off pkt ++ (0x08 ∷ 0x00 ∷ (payload ++ tail)) in
      let n : len - shim_size ≡ length payload = omega (arith, count) in
      let m : at + shim_size ≡ et_off + 33 = omega (arith, here) in
      let result : List ℕ → ℕ → Option (List ℕ × ℕ × ShimFields) = λ bytes w. some (
        (if shim.kind == kind_full
            then crypto_eth_set_ipv4_et (put (front ++ rest) (et_off + 2) bytes) (pos et_off)
            else put (front ++ rest) (et_off + 2) bytes),
        et_off + 2 + w,
        shim,
      ) in
      (
        b,
        (
          ap
                (λ o. and_then o (λ e. some (
                  (if shim.kind == kind_full
                      then crypto_eth_set_ipv4_et
                          (put (front ++ rest) (e + 2)
                            (slice (len - shim_size) (at + shim_size) (front ++ rest)))
                          (pos e)
                      else put (front ++ rest) (e + 2)
                          (slice (len - shim_size) (at + shim_size) (front ++ rest))),
                  e + 2 + (len - shim_size),
                  shim,
                )))
                (front-offset rest k long)
              ∙ ap (λ bytes. result bytes (len - shim_size))
                  (front_payload shim payload back (len - shim_size) (at + shim_size) size n m)
              ∙ ap (result payload) n
              ∙ ap (λ x. some (x, et_off + 2 + length payload, shim))
                  (if_true (shim.kind == kind_full) _ _ (ground (arith, full)) ∙ moved),
          ap (take (et_off + 2 + length payload))
                (sym (append_assoc (take et_off pkt) (0x08 ∷ 0x00 ∷ payload) tail))
              ∙ take_at (take et_off pkt ++ (0x08 ∷ 0x00 ∷ payload)) tail
                  (et_off + 2 + length payload)
                  (omega (
                    arith,
                    length-append (take et_off pkt) (0x08 ∷ 0x00 ∷ payload),
                    length-take_le et_off pkt inside,
                  )),
        ),
      )
