-- ===== src/L2/RoundTrip.antt =====
-- src/crypto/pqc/pqc_l2_option.c: `l2_do_encrypt_udp` on one node and `l2_do_decrypt_udp` on the
-- other.
use ne_encryptor.Prelude.{
  ℕ, ◌+◌, ◌-◌, ◌≤◌, ◌<◌, ◌≡◌, refl, sym, ap, ◌∙◌, true, false, Option, some, List, [], ◌∷◌, ◌++◌,
  arith, length, take, drop, if_false, ◌==◌,
}
use ne_encryptor.Eth.{crypto_eth_inner_et_off, crypto_eth_ipv4_offset, crypto_eth_l2_prefix_len}
use ne_encryptor.L2.{slice, ShimFields, kind_full, shim_size}
use ne_encryptor.L2.Shim.{IsShim}
use ne_encryptor.L2.Reasm.{ne_frame}
use ne_encryptor.L2.Buffer.{put_split}
use ne_encryptor.L2.Packet.{
  Scrypt, CryptoCtx, and_then, marker, nonce_size, tag_size, meta_len, sess_load, encrypt_payload,
  encrypt_udp_at, do_encrypt_udp, do_decrypt_udp, is_duplicate,
}
use ne_encryptor.L2.Seal.{wire_header, sealed, plain_of, length-plain_of, encrypt_udp_at_lays}
use ne_encryptor.L2.Journey.{do_decrypt_udp_lays}
use ne_encryptor.L2.Rotation.{OpensWith, decrypt_payload_resilient_opens}

-- A plain IPv4 packet in a frame, with its ethertype at `et_off`, that has room for the headers of
-- the encryption.
pub record IsPlain (pkt : List ℕ) (pkt_len et_off : ℕ) (payload : List ℕ) : Type 0 where
  pub type_at : crypto_eth_inner_et_off pkt pkt_len ≡ some et_off
  pub ip_at : crypto_eth_ipv4_offset pkt pkt_len ≡ some (et_off + 2)
  pub bytes : take pkt_len pkt ≡ take et_off pkt ++ (0x08 ∷ 0x00 ∷ payload)
  pub payload_bytes : slice (pkt_len - (et_off + 2)) (et_off + 2) pkt ≡ payload
  pub size : pkt_len ≡ et_off + 2 + length payload
  pub fits : pkt_len + meta_len ≤ ne_frame
  pub frame : ne_frame ≤ length pkt

-- The library gives a ciphertext with a tag, which the key opens.
pub record IsSealed (c : Scrypt) (key nonce plain cipher : List ℕ) : Type 0 where
  pub nonce_len : length nonce ≡ nonce_size
  pub seals : c.seal_gcm key nonce plain ≡ some cipher
  pub tagged : length cipher ≡ length plain + tag_size
  pub opens : OpensWith c key nonce cipher plain

some_bytes : (n : ℕ) → 0 < n → n == 0 ≡ false
some_bytes n h = ground (arith, h)

encrypt_lays :
    (c : Scrypt) (worker_idx : ℕ) (ctx : CryptoCtx) (key nonce : List ℕ) (shim : ShimFields)
    (pkt payload cipher : List ℕ) (pkt_len et_off : ℕ)
    → IsPlain pkt pkt_len et_off payload
    → sess_load ctx ≡ some key
    → IsSealed c key nonce (plain_of shim payload) cipher
    → do_encrypt_udp c worker_idx ctx (some nonce) (some shim) pkt pkt_len
      ≡ some (sealed pkt et_off ctx.wire_id worker_idx nonce cipher, pkt_len + meta_len)
unfolding do_encrypt_udp crypto_eth_l2_prefix_len encrypt_payload
encrypt_lays c worker_idx ctx key nonce shim pkt payload cipher pkt_len et_off plain loads seals =
    let next : ℕ → ℕ → Option (List ℕ × ℕ) =
      λ l3 et. encrypt_udp_at c worker_idx ctx (some nonce) shim pkt pkt_len l3 et in
    ap (λ o. and_then o (λ l3. and_then (crypto_eth_inner_et_off pkt pkt_len) (next l3)))
      plain.ip_at
    ∙ ap (λ o. and_then o (next (et_off + 2))) plain.type_at
    ∙ encrypt_udp_at_lays c worker_idx ctx key nonce shim pkt payload cipher pkt_len et_off
        seals.nonce_len loads (omega (arith, plain.size)) plain.fits plain.frame plain.payload_bytes
        (omega (arith, plain.size))
        (if_false (length (plain_of shim payload) == 0) _ _ (
            some_bytes (length (plain_of shim payload))
              (omega (arith, length-plain_of shim payload)))
          ∙ seals.seals)
        seals.tagged

-- A plain IPv4 packet that has room for the headers is encrypted, and is then 47 bytes longer. A
-- node that has the key of the sender in one of its three slots, and any key that is not zero as
-- its current one, decrypts it to the same bytes and the same length, with the number and the epoch
-- that were sent, if the library opens the ciphertext with that key and no other.
pub do_decrypt_udp-do_encrypt_udp :
    (c : Scrypt) (worker_idx : ℕ) (ctx ctx' : CryptoCtx) (key key' nonce : List ℕ)
    (shim : ShimFields) (pkt payload cipher : List ℕ) (pkt_len et_off : ℕ)
    → IsPlain pkt pkt_len et_off payload
    → IsShim shim
    → sess_load ctx ≡ some key
    → sess_load ctx' ≡ some key'
    → is_duplicate (ctx'.current ∷ ctx'.next ∷ ctx'.prev ∷ []) key ≡ true
    → IsSealed c key nonce (plain_of shim payload) cipher
    → (wire : List ℕ) × ((do_encrypt_udp c worker_idx ctx (some nonce) (some shim) pkt pkt_len
          ≡ some (wire, pkt_len + meta_len))
        × ((b : List ℕ) × ((do_decrypt_udp c ctx' wire (pkt_len + meta_len)
                ≡ some (b, pkt_len, record shim { kind = kind_full }))
              × (take pkt_len b ≡ take pkt_len pkt))))
do_decrypt_udp-do_encrypt_udp c worker_idx ctx ctx' key key' nonce shim pkt payload cipher pkt_len
      et_off plain fields loads loads' there seals =
    let shim' : ShimFields = record shim { kind = kind_full } in
    let wire = sealed pkt et_off ctx.wire_id worker_idx nonce cipher in
    let head = wire_header ctx.wire_id worker_idx nonce ++ marker in
    let back = drop (et_off + length head + length cipher) pkt in
    let inside : et_off ≤ length pkt = omega (arith, plain.size, plain.fits, plain.frame) in
    let size : length cipher ≡ shim_size + length payload + tag_size =
      omega (arith, seals.tagged, length-plain_of shim payload) in
    let opens =
      decrypt_payload_resilient_opens c ctx' key nonce cipher (plain_of shim payload)
        (omega (arith, size)) (omega (arith, size, plain.size, plain.fits)) seals.opens there in
    let (b, (opened, same)) =
      do_decrypt_udp_lays pkt pkt_len et_off ctx.wire_id worker_idx nonce plain.type_at inside
        seals.nonce_len c ctx' key' shim' payload cipher back (pkt_len + meta_len)
        (record {
          kind = omega arith;
          epoch = fields.epoch;
          seq = fields.seq;
          datagram_id = fields.datagram_id;
        })
        refl loads' opens size (omega (arith, size, plain.size)) in
    (
      wire,
      (
        encrypt_lays c worker_idx ctx key nonce shim pkt payload cipher pkt_len et_off plain loads
            seals,
        (
          b,
          (
            ap (λ x. do_decrypt_udp c ctx' x (pkt_len + meta_len))
                  (put_split pkt et_off head cipher)
                ∙ opened
                ∙ ap (λ n. some (b, n, shim')) (sym plain.size),
            ap (λ n. take n b) plain.size ∙ same ∙ sym plain.bytes,
          ),
        ),
      ),
    )
