-- ===== src/L2/Packet.antt =====
-- src/crypto/pqc/pqc_l2_option.c, src/crypto/pqc/include/crypto_pqc_layer.h: encryption and
-- decryption of a UDP packet in place. A call that fails gives `none`: the packet is dropped, and
-- the buffer with it. The calls of the scrypt library are a parameter.
use ne_encryptor.Prelude.{
  ℕ, ◌+◌, ◌-◌, ◌/◌, ◌^◌, Bool, true, false, Option, none, some, List, [], ◌∷◌, ltb, leb, ◌==◌, ◌&&◌,
  ◌||◌, not, if◌then◌else◌, length, drop,
}
use ne_encryptor.Prelude.Int.{pos}
use ne_encryptor.Eth.{
  crypto_eth_ipv4_offset, crypto_eth_l2_prefix_len, crypto_eth_l2_policy_off,
  crypto_eth_set_ipv4_et, crypto_pkt_is_ipv4, crypto_eth_l2_has_marker, fake_ethertype_udp,
}
use ne_encryptor.L2.{slice, put, u8, ShimFields, write_shim, read_shim, kind_full, shim_size}
use ne_encryptor.L2.Reasm.{ne_frame}

abbrev pub and_then {ℓ κ} : {A : Type ℓ} {B : Type κ} → Option A → (A → Option B) → Option B
and_then none f = none
and_then (some a) f = f a

abbrev pub tag_size : ℕ
tag_size = 16

abbrev pub nonce_size : ℕ
nonce_size = 12

abbrev pub marker : List ℕ
marker = 0x5b ∷ 0x55 ∷ 0x44 ∷ 0x01 ∷ []

abbrev pub meta_len : ℕ
meta_len = 47

abbrev pub min_eth_pkt : ℕ
min_eth_pkt = 22

-- AES-256-GCM of the scrypt library, by key, nonce and bytes; the tag is at the end of the
-- ciphertext. `none` is an error.
pub record Scrypt : Type 0 where
  pub seal_gcm : List ℕ → List ℕ → List ℕ → Option (List ℕ)
  pub open_gcm : List ℕ → List ℕ → List ℕ → Option (List ℕ)

-- What the functions read of `struct packet_crypto_ctx`; a slot is `none` if it has no key.
pub record CryptoCtx : Type 0 where
  pub initialized : Bool
  pub wire_id : ℕ
  pub current : Option (List ℕ)
  pub next : Option (List ℕ)
  pub prev : Option (List ℕ)

unfoldable pub key_is_all_zero : List ℕ → Bool
key_is_all_zero [] = true
key_is_all_zero (k ∷ key) = k == 0 && key_is_all_zero key

unfoldable pub same_key : List ℕ → List ℕ → Bool
same_key [] [] = true
same_key [] (k ∷ key) = false
same_key (k ∷ key) [] = false
same_key (j ∷ key) (k ∷ key') = j == k && same_key key key'

unfoldable pub sess_load : CryptoCtx → Option (List ℕ)
sess_load ctx = and_then ctx.current (λ key. if key_is_all_zero key then none else some key)

unfoldable pub encrypt_payload : Scrypt → List ℕ → List ℕ → List ℕ → Option (List ℕ)
encrypt_payload c key nonce bytes = if length bytes == 0 then none else c.seal_gcm key nonce bytes

-- `trf_decrypt_payload_gcm` needs more than a tag.
unfoldable pub decrypt_payload : Scrypt → List ℕ → List ℕ → List ℕ → Option (List ℕ)
decrypt_payload c key nonce bytes =
    if length bytes == 0 || leb (length bytes) tag_size then none else c.open_gcm key nonce bytes

abbrev pub is_key : List ℕ → Option (List ℕ) → Bool
is_key key none = false
is_key key (some k) = same_key k key

unfoldable pub is_duplicate : List (Option (List ℕ)) → List ℕ → Bool
is_duplicate [] key = false
is_duplicate (slot ∷ prior) key = is_key key slot || is_duplicate prior key

abbrev pub or_else : Option (List ℕ) → Option (List ℕ) → Option (List ℕ)
or_else none y = y
or_else (some x) y = some x

-- One slot: `prior` are those before it, `rest` is what the slots after it give.
unfoldable pub try_slot :
    Scrypt
    → List ℕ
    → List ℕ
    → List (Option (List ℕ))
    → Option (List ℕ)
    → Option (List ℕ)
    → Option (List ℕ)
try_slot c nonce bytes prior none rest = rest
try_slot c nonce bytes prior (some key) rest =
    if key_is_all_zero key || is_duplicate prior key
    then rest
    else or_else (decrypt_payload c key nonce bytes) rest

unfoldable pub try_keys :
    Scrypt → List ℕ → List ℕ → List (Option (List ℕ)) → List (Option (List ℕ)) → Option (List ℕ)
try_keys c nonce bytes prior [] = none
try_keys c nonce bytes prior (slot ∷ slots) =
    try_slot c nonce bytes prior slot (try_keys c nonce bytes (slot ∷ prior) slots)

unfoldable pub decrypt_payload_resilient : Scrypt → CryptoCtx → List ℕ → List ℕ → Option (List ℕ)
decrypt_payload_resilient c ctx nonce bytes =
    if length bytes == 0 || ltb ne_frame (length bytes)
    then none
    else try_keys c nonce bytes [] (ctx.current ∷ ctx.next ∷ ctx.prev ∷ [])

unfoldable pub write_wire_header_et : List ℕ → ℕ → ℕ → ℕ → ℕ → List ℕ → List ℕ
write_wire_header_et packet et_off fake policy_id worker_idx nonce =
    put packet et_off (u8 (fake / 2 ^ 8) ∷ u8 fake ∷ policy_id ∷ worker_idx ∷ nonce)

-- The end of `l2_do_encrypt_udp`, on the buffer with the payload and the shim in place.
unfoldable pub seal_udp :
    Scrypt → ℕ → CryptoCtx → ℕ → List ℕ → List ℕ → List ℕ → ℕ → Option (List ℕ × ℕ)
seal_udp c worker_idx ctx et_off key nonce packet plain_len =
    let magic_off = et_off + 2 + 1 + 1 + nonce_size in
    let enc_start = magic_off + 4 in
    let headed =
      write_wire_header_et packet et_off fake_ethertype_udp ctx.wire_id worker_idx nonce in
    let marked = put headed magic_off marker in
    and_then (encrypt_payload c key nonce (slice plain_len enc_start marked))
      (λ cipher. some (put marked enc_start cipher, enc_start + length cipher))

-- `l2_do_encrypt_udp`, with the offsets known. `shim` has what `crypto_option_udp_tx_meta` gives.
unfoldable pub encrypt_udp_at :
    Scrypt → ℕ → CryptoCtx → Option (List ℕ) → ShimFields → List ℕ → ℕ → ℕ → ℕ → Option (List ℕ × ℕ)
encrypt_udp_at c worker_idx ctx nonce shim packet pkt_len l3_off et_off =
    let payload_len = pkt_len - l3_off in
    let enc_start = et_off + 2 + 1 + 1 + nonce_size + 4 in
    let plain_len = shim_size + payload_len in
    let moved = put packet (enc_start + shim_size) (slice payload_len l3_off packet) in
    let shimmed = put moved enc_start (write_shim (record shim { kind = kind_full })) in
    if ltb ne_frame (enc_start + plain_len + tag_size)
    then none
    else and_then (sess_load ctx)
        (λ key. and_then nonce (λ n. seal_udp c worker_idx ctx et_off key n shimmed plain_len))

unfoldable pub do_encrypt_udp :
    Scrypt → ℕ → CryptoCtx → Option (List ℕ) → Option ShimFields → List ℕ → ℕ → Option (List ℕ × ℕ)
do_encrypt_udp c worker_idx ctx nonce tx_meta packet pkt_len =
    and_then (crypto_eth_ipv4_offset packet pkt_len) (λ l3_off.
      and_then (crypto_eth_l2_prefix_len packet pkt_len) (λ et_off.
        and_then tx_meta
          (λ shim. encrypt_udp_at c worker_idx ctx nonce shim packet pkt_len l3_off et_off)))

-- A packet that is not IPv4 stays as it is.
unfoldable pub udp_encrypt :
    Scrypt → ℕ → CryptoCtx → Option (List ℕ) → Option ShimFields → List ℕ → ℕ → Option (List ℕ × ℕ)
udp_encrypt c worker_idx ctx nonce tx_meta packet pkt_len =
    if not ctx.initialized || ltb pkt_len min_eth_pkt
    then none
    else if not (crypto_pkt_is_ipv4 packet pkt_len)
    then some (packet, pkt_len)
    else do_encrypt_udp c worker_idx ctx nonce tx_meta packet pkt_len

-- `l2_nonce_off` and `l2_enc_start_off`
unfoldable pub nonce_off : List ℕ → ℕ → Option ℕ
nonce_off packet pkt_len =
    and_then (crypto_eth_l2_policy_off packet pkt_len) (λ off. some (off + 1 + 1))

unfoldable pub enc_start_off : List ℕ → ℕ → Option ℕ
enc_start_off packet pkt_len =
    and_then (nonce_off packet pkt_len)
      (λ off. if ltb pkt_len (off + nonce_size) then none else some (off + nonce_size))

unfoldable pub marker_match : List ℕ → ℕ → ℕ → Bool
marker_match packet pkt_len off = leb (off + 4) pkt_len && same_key (slice 4 off packet) marker

-- The end of `l2_do_decrypt_udp`, with the plain bytes.
unfoldable pub restore_udp : List ℕ → ℕ → ℕ → ℕ → ShimFields → Option (List ℕ × ℕ × ShimFields)
restore_udp packet pkt_len enc_start dec_len shim =
    let payload_len = dec_len - shim_size in
    and_then (crypto_eth_l2_prefix_len packet pkt_len) (λ et_off.
      let moved = put packet (et_off + 2) (slice payload_len (enc_start + shim_size) packet) in
      let typed =
        if shim.kind == kind_full then crypto_eth_set_ipv4_et moved (pos et_off) else moved in
      some (typed, et_off + 2 + payload_len, shim))

unfoldable pub open_udp : Scrypt → CryptoCtx → List ℕ → ℕ → ℕ → ℕ → Option (List ℕ × ℕ × ShimFields)
open_udp c ctx packet pkt_len magic_off nonce_at =
    let enc_start = magic_off + 4 in
    if ltb pkt_len (enc_start + shim_size + tag_size)
    then none
    else and_then (sess_load ctx) (λ key.
      and_then
        (decrypt_payload_resilient c ctx (slice nonce_size nonce_at packet)
          (slice (pkt_len - enc_start) enc_start packet))
        (λ plain.
          let opened = put packet enc_start plain in
          if ltb (length plain) shim_size
          then none
          else and_then (read_shim (drop enc_start opened))
              (λ shim. restore_udp opened pkt_len enc_start (length plain) shim)))

unfoldable pub do_decrypt_udp : Scrypt → CryptoCtx → List ℕ → ℕ → Option (List ℕ × ℕ × ShimFields)
do_decrypt_udp c ctx packet pkt_len = and_then (enc_start_off packet pkt_len) (λ magic_off.
    and_then (nonce_off packet pkt_len) (λ nonce_at.
      if not (marker_match packet pkt_len magic_off)
      then none
      else open_udp c ctx packet pkt_len magic_off nonce_at))

-- `l2_udp_decrypt`, with the epoch and number that it reports; none for an unmarked packet.
unfoldable pub udp_decrypt :
    Scrypt → CryptoCtx → List ℕ → ℕ → Option (List ℕ × ℕ × Option ShimFields)
udp_decrypt c ctx packet pkt_len =
    if not ctx.initialized
    then none
    else if not (crypto_eth_l2_has_marker packet pkt_len)
    then some (packet, pkt_len, none)
    else and_then (do_decrypt_udp c ctx packet pkt_len) (λ r.
      if not (r.2.kind == kind_full) || not (crypto_pkt_is_ipv4 (r.0) (r.1))
      then none
      else some (r.0, r.1, some (r.2)))

unfoldable pub udp_need_split : ℕ → ℕ → Bool
udp_need_split mtu pkt_len = ltb mtu (pkt_len + meta_len)
