-- ===== src/L2/Fit.antt =====
-- src/crypto/pqc/pqc_l2_option.c: the sizes that `l2_split` gives the two fragments.
use ne_encryptor.Prelude.{
  ℕ, ◌+◌, ◌-◌, ◌*◌, ◌/◌, ◌^◌, ◌≤◌, ◌<◌, ◌≡◌, refl, sym, ap, ◌∙◌, Bool, false, Option, none, some,
  List, ◌++◌, arith, ltb, leb, ◌==◌, ◌||◌, not, length, bit_and, bit_and_mask, ◌%◌, if_intro,
  if_false, ltb_of_le,
}
use mathlib.Core.Path.{subst}
use ne_encryptor.Eth.{byte, crypto_eth_ipv4_offset}
use ne_encryptor.L2.{slice, put, ShimFields, write_shim, shim_size, kind_frag0}
use ne_encryptor.L2.Reasm.{ne_frame}
use ne_encryptor.L2.Buffer.{length-slice}
use ne_encryptor.L2.Seal.{sealed, seal_moved}
use ne_encryptor.L2.Packet.{
  Scrypt, CryptoCtx, sess_load, encrypt_payload, seal_udp, and_then, meta_len, nonce_size, tag_size,
}
use ne_encryptor.L2.Split.{
  SplitPlan, first_half, plan_at, plan_split, enc_off, frag_len, encrypt_fragment0_inplace,
}

-- The length that the IPv4 header at `l3_off` gives for itself, options included.
abbrev pub header_len : List ℕ → ℕ → ℕ
header_len pkt l3_off = byte pkt l3_off % 16 * 4

-- What a plan promises: the cut pieces are the IPv4 packet, both have bytes, the first one the whole
-- IPv4 header, with its options, and the UDP header, and once encrypted it is not longer than the
-- MTU.
pub record IsGoodPlan (frag_mtu : ℕ) (pkt : List ℕ) (pkt_len : ℕ) (plan : SplitPlan) : Type 0 where
  pub whole : plan.l3_off + plan.frag0_plain_len + plan.half2 ≡ pkt_len
  pub second_some : 0 < plan.half2
  pub header_whole : 20 ≤ header_len pkt plan.l3_off
  pub first_headers : header_len pkt plan.l3_off + 8 ≤ plan.frag0_plain_len
  pub first_fits : plan.l3_off + meta_len + plan.frag0_plain_len ≤ frag_mtu

abbrev pub AllGood : ℕ → List ℕ → ℕ → Option SplitPlan → Type 0
AllGood frag_mtu pkt pkt_len none = Unit
AllGood frag_mtu pkt pkt_len (some plan) = IsGoodPlan frag_mtu pkt pkt_len plan

-- The arithmetic of the guards, for the length `ihl` of the IPv4 header.
sizes_fit :
    (frag_mtu : ℕ) (pkt : List ℕ) (pkt_len l3_off ihl : ℕ) (not_four not_udp : Bool)
    → ihl ≡ header_len pkt l3_off
    → not_four || (ltb ihl 20 || ltb pkt_len (l3_off + ihl)) ≡ false
    → not_udp || ltb (pkt_len - l3_off - ihl) 8 ≡ false
    → pkt_len - l3_off - ihl - 8 == 0 || leb frag_mtu (l3_off + meta_len) ≡ false
    → leb (frag_mtu - (l3_off + meta_len)) (ihl + 8) ≡ false
    → IsGoodPlan frag_mtu pkt pkt_len (record {
      l3_off = l3_off;
      frag0_plain_len =
          ihl
          + 8
          + first_half (frag_mtu - (l3_off + meta_len) - (ihl + 8)) (pkt_len - l3_off - ihl - 8);
      half2 =
          pkt_len
          - l3_off
          - ihl
          - 8
          - first_half (frag_mtu - (l3_off + meta_len) - (ihl + 8)) (pkt_len - l3_off - ihl - 8);
    })
sizes_fit frag_mtu pkt pkt_len l3_off ihl not_four not_udp same a b c d = record {
  whole = ground (arith, a, b, c, d);
  second_some = ground (arith, a, b, c, d);
  header_whole = ground (arith, a, same);
  first_headers = ground (arith, a, b, c, d, same);
  first_fits = ground (arith, a, b, c, d);
}

plan_at-AllGood :
    (frag_mtu : ℕ) (pkt : List ℕ) (pkt_len l3_off : ℕ)
    → AllGood frag_mtu pkt pkt_len (plan_at frag_mtu pkt pkt_len l3_off)
unfolding plan_at
plan_at-AllGood frag_mtu pkt pkt_len l3_off =
    let ihl = bit_and (byte pkt l3_off) 0x0f * 4 in
    let same : ihl ≡ header_len pkt l3_off = ap (λ n. n * 4) (bit_and_mask 4 (byte pkt l3_off)) in
    let not_four = not (byte pkt l3_off / 2 ^ 4 == 4) in
    let not_udp = not (byte pkt (l3_off + 9) == 17) in
    if_intro (AllGood frag_mtu pkt pkt_len) (not_four || (ltb ihl 20 || ltb pkt_len (l3_off + ihl)))
      (λ _. tt)
      (λ a.
        if_intro (AllGood frag_mtu pkt pkt_len) (not_udp || ltb (pkt_len - l3_off - ihl) 8)
          (λ _. tt)
          (λ b.
            if_intro (AllGood frag_mtu pkt pkt_len)
              (pkt_len - l3_off - ihl - 8 == 0 || leb frag_mtu (l3_off + meta_len)) (λ _. tt)
              (λ c.
                if_intro (AllGood frag_mtu pkt pkt_len)
                  (leb (frag_mtu - (l3_off + meta_len)) (ihl + 8)) (λ _. tt)
                  (λ d. sizes_fit frag_mtu pkt pkt_len l3_off ihl not_four not_udp same a b c d))))

plan_split-AllGood :
    (frag_mtu : ℕ) (pkt : List ℕ) (pkt_len : ℕ) (o : Option ℕ)
    → AllGood frag_mtu pkt pkt_len (and_then o (plan_at frag_mtu pkt pkt_len))
plan_split-AllGood frag_mtu pkt pkt_len none = tt
plan_split-AllGood frag_mtu pkt pkt_len (some l3_off) = plan_at-AllGood frag_mtu pkt pkt_len l3_off

-- If l2_split finds a place to cut, the two pieces are the IPv4 packet, the second one has bytes,
-- the first one has at least the whole IPv4 header, with its options, and the UDP header, and the
-- first fragment, once encrypted, is not longer than the MTU.
pub plan_split-IsGoodPlan :
    (frag_mtu : ℕ) (pkt : List ℕ) (pkt_len : ℕ) (plan : SplitPlan)
    → plan_split frag_mtu pkt pkt_len ≡ some plan
    → IsGoodPlan frag_mtu pkt pkt_len plan
unfolding plan_split
plan_split-IsGoodPlan frag_mtu pkt pkt_len plan e =
    subst (AllGood frag_mtu pkt pkt_len) e
      (plan_split-AllGood frag_mtu pkt pkt_len (crypto_eth_ipv4_offset pkt pkt_len))

-- The first fragment of a packet that `l2_split` cuts, with the ethertype at `et_off` and in a frame
-- that the MTU does not exceed, is encrypted in place behind the Ethernet header if the library
-- encrypts it, and what is sent is not longer than the MTU.
pub encrypt_fragment0_inplace_fits :
    (c : Scrypt) (worker_idx : ℕ) (ctx : CryptoCtx) (key nonce : List ℕ) (shim : ShimFields)
    (pkt cipher : List ℕ) (pkt_len et_off frag_mtu : ℕ) (plan : SplitPlan)
    → plan_split frag_mtu pkt pkt_len ≡ some plan
    → plan.l3_off ≡ et_off + 2
    → frag_mtu ≤ ne_frame
    → ne_frame ≤ length pkt
    → length nonce ≡ nonce_size
    → sess_load ctx ≡ some key
    → encrypt_payload c key nonce (
        write_shim (record shim { kind = kind_frag0 })
        ++ slice plan.frag0_plain_len plan.l3_off pkt)
      ≡ some cipher
    → length cipher ≡ shim_size + plan.frag0_plain_len + tag_size
    → (encrypt_fragment0_inplace c worker_idx ctx
          (some nonce)
          shim
          pkt
          plan.frag0_plain_len
          ne_frame
          et_off
          plan.l3_off
        ≡ some (sealed pkt et_off ctx.wire_id worker_idx nonce cipher, et_off + 20 + length cipher))
      × (et_off + 20 + length cipher ≤ frag_mtu)
unfolding encrypt_fragment0_inplace
encrypt_fragment0_inplace_fits c worker_idx ctx key nonce shim pkt cipher pkt_len et_off frag_mtu
      plan planned at small room size loads seals tag =
    let good = plan_split-IsGoodPlan frag_mtu pkt pkt_len plan planned in
    let shim' : ShimFields = record shim { kind = kind_frag0 } in
    let piece = slice plan.frag0_plain_len plan.l3_off pkt in
    let fits : et_off + 2 + meta_len + plan.frag0_plain_len ≤ frag_mtu =
      omega (arith, good.first_fits, at) in
    let piece_size : length piece ≡ plan.frag0_plain_len =
      length-slice plan.frag0_plain_len plan.l3_off pkt (omega (arith, fits, at, small, room)) in
    let moved =
      put (put pkt (enc_off et_off + shim_size) piece) (enc_off et_off) (write_shim shim') in
    (
      if_false (ltb ne_frame (frag_len et_off plan.frag0_plain_len)) _ _
            (ltb_of_le ne_frame (frag_len et_off plan.frag0_plain_len) (omega (arith, fits, small)))
          ∙ ap
              (λ o. and_then o (λ k.
                seal_udp c worker_idx ctx et_off k nonce moved (shim_size + plan.frag0_plain_len)))
              loads
          ∙ seal_moved c worker_idx ctx key nonce shim' pkt piece piece cipher et_off
              plan.frag0_plain_len size (omega (arith, fits, small, room)) refl (sym piece_size)
              seals (omega (arith, tag, piece_size)),
      omega (arith, tag, fits),
    )
