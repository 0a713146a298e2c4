-- ===== src/L2/Split.antt =====
-- src/crypto/pqc/pqc_l2_option.c: a UDP packet that is too long for the MTU leaves in two fragments,
-- each encrypted for itself.
use ne_encryptor.Prelude.{
  ℕ, ◌+◌, ◌-◌, ◌*◌, ◌/◌, ◌^◌, Option, none, some, List, ltb, leb, ◌==◌, ◌||◌, not, if◌then◌else◌,
  length, take, bit_and,
}
use ne_encryptor.Eth.{byte, crypto_eth_ipv4_offset, crypto_eth_l2_prefix_len}
use ne_encryptor.L2.{slice, put, ShimFields, write_shim, kind_frag0, kind_frag1, shim_size}
use ne_encryptor.L2.Reasm.{hdr_max}
use ne_encryptor.L2.Packet.{
  Scrypt, CryptoCtx, and_then, nonce_size, tag_size, meta_len, sess_load, seal_udp,
}

-- Where `l2_split` cuts: the offset of the IPv4 header, the bytes from there that the first
-- fragment has, and those that the second has.
pub record SplitPlan : Type 0 where
  pub l3_off : ℕ
  pub frag0_plain_len : ℕ
  pub half2 : ℕ

abbrev pub first_half : ℕ → ℕ → ℕ
first_half room app_len = if leb app_len room then app_len - 1 else room

-- The sizes, with the IPv4 header at `l3_off`.
unfoldable pub plan_at : ℕ → List ℕ → ℕ → ℕ → Option SplitPlan
plan_at frag_mtu pkt pkt_len l3_off =
    let ip_hdr_len = bit_and (byte pkt l3_off) 0x0f * 4 in
    let ip_payload_len = pkt_len - l3_off - ip_hdr_len in
    let app_len = ip_payload_len - 8 in
    let overhead = l3_off + meta_len in
    let max_plain0 = frag_mtu - overhead in
    let fixed_plain0 = ip_hdr_len + 8 in
    let half1 = first_half (max_plain0 - fixed_plain0) app_len in
    if not (byte pkt l3_off / 2 ^ 4 == 4)
      || (ltb ip_hdr_len 20 || ltb pkt_len (l3_off + ip_hdr_len))
    then none
    else if not (byte pkt (l3_off + 9) == 17) || ltb ip_payload_len 8
    then none
    else if app_len == 0 || leb frag_mtu overhead
    then none
    else if leb max_plain0 fixed_plain0
    then none
    else some (record {
      l3_off = l3_off;
      frag0_plain_len = ip_hdr_len + 8 + half1;
      half2 = app_len - half1;
    })

unfoldable pub plan_split : ℕ → List ℕ → ℕ → Option SplitPlan
plan_split frag_mtu pkt pkt_len =
    and_then (crypto_eth_ipv4_offset pkt pkt_len) (plan_at frag_mtu pkt pkt_len)

-- The start of the ciphertext of a fragment, and the length of the whole.
abbrev pub enc_off : ℕ → ℕ
enc_off et_off = et_off + 2 + 1 + 1 + nonce_size + 4

abbrev pub frag_len : ℕ → ℕ → ℕ
frag_len et_off plain_len = enc_off et_off + (shim_size + plain_len) + tag_size

unfoldable pub encrypt_fragment_single :
    Scrypt
    → ℕ
    → CryptoCtx
    → Option (List ℕ)
    → ShimFields
    → List ℕ
    → List ℕ
    → List ℕ
    → ℕ
    → ℕ
    → Option (List ℕ × ℕ)
encrypt_fragment_single c worker_idx ctx nonce shim eth_hdr enc_plain out_buf out_max et_off =
    let headed = put out_buf 0 (take et_off eth_hdr) in
    let moved = put headed (enc_off et_off + shim_size) enc_plain in
    let shimmed = put moved (enc_off et_off) (write_shim shim) in
    if ltb out_max (frag_len et_off (length enc_plain))
    then none
    else and_then (sess_load ctx) (λ key.
      and_then nonce
        (λ n. seal_udp c worker_idx ctx et_off key n shimmed (shim_size + length enc_plain)))

unfoldable pub encrypt_fragment0_inplace :
    Scrypt
    → ℕ
    → CryptoCtx
    → Option (List ℕ)
    → ShimFields
    → List ℕ
    → ℕ
    → ℕ
    → ℕ
    → ℕ
    → Option (List ℕ × ℕ)
encrypt_fragment0_inplace c worker_idx ctx nonce shim packet frag0_plain_len out_max et_off l3_off =
    let moved = put packet (enc_off et_off + shim_size) (slice frag0_plain_len l3_off packet) in
    let shimmed = put moved (enc_off et_off) (write_shim (record shim { kind = kind_frag0 })) in
    if ltb out_max (frag_len et_off frag0_plain_len)
    then none
    else and_then (sess_load ctx) (λ key.
      and_then nonce
        (λ n. seal_udp c worker_idx ctx et_off key n shimmed (shim_size + frag0_plain_len)))

-- The end of `l2_split`: the second fragment into a buffer of its own, then the first in place. The
-- first result is the first fragment. Each of the two takes a nonce. The offset for the second
-- fragment is looked up in the first 18 bytes, where it is if an IPv4 header was found.
unfoldable pub split_at :
    Scrypt
    → ℕ
    → CryptoCtx
    → Option (List ℕ)
    → Option (List ℕ)
    → ShimFields
    → List ℕ
    → ℕ
    → ℕ
    → List ℕ
    → ℕ
    → SplitPlan
    → Option ((List ℕ × ℕ) × (List ℕ × ℕ))
split_at c worker_idx ctx nonce0 nonce1 shim pkt pkt_len frag0_max frag1 frag1_max plan =
    and_then (crypto_eth_l2_prefix_len pkt hdr_max) (λ et1.
      and_then
        (encrypt_fragment_single c worker_idx ctx nonce1 (record shim { kind = kind_frag1 }) pkt
          (slice plan.half2 (plan.l3_off + plan.frag0_plain_len) pkt) frag1 frag1_max et1)
        (λ second. and_then (crypto_eth_l2_prefix_len pkt pkt_len) (λ et0.
          and_then
            (encrypt_fragment0_inplace c worker_idx ctx nonce0 shim pkt plan.frag0_plain_len
              frag0_max et0 plan.l3_off)
            (λ first. some (first, second)))))

unfoldable pub split_packet :
    Scrypt
    → ℕ
    → CryptoCtx
    → Option (List ℕ)
    → Option (List ℕ)
    → ℕ
    → Option ShimFields
    → List ℕ
    → ℕ
    → ℕ
    → List ℕ
    → ℕ
    → Option ((List ℕ × ℕ) × (List ℕ × ℕ))
split_packet c worker_idx ctx nonce0 nonce1 frag_mtu tx_meta pkt pkt_len frag0_max frag1 frag1_max =
    and_then (plan_split frag_mtu pkt pkt_len) (λ plan. and_then tx_meta (λ shim.
      split_at c worker_idx ctx nonce0 nonce1 shim pkt pkt_len frag0_max frag1 frag1_max plan))
