-- ===== src/L2/Parse.antt =====
-- src/crypto/pqc/pqc_l2_option.c, src/crypto/common/eth_parse.c: how an encrypted packet is read.
use mathlib.Core.Path.{ap₂}
use ne_encryptor.Prelude.{
  ℕ, zero, suc, ◌+◌, ◌*◌, ◌^◌, ◌≤◌, ◌<◌, ◌≡◌, refl, ap, ◌∙◌, inl, inr, none, some, List, [], ◌∷◌,
  ◌++◌, arith, ltb, if◌then◌else◌, if_false, ltb_of_le, length, take, bit_or,
}
use ne_encryptor.Eth.{
  byte, eth_read_et, eth_match_et, crypto_eth_inner_et_off, crypto_eth_l2_policy_off,
  fake_ethertype_udp,
}
use ne_encryptor.Eth.Kind.{inner_cases}
use ne_encryptor.L2.Buffer.{byte_after, get_or-append_le, length-take_le}
use ne_encryptor.L2.Packet.{and_then, nonce_size, nonce_off, enc_start_off}

byte-take : (n i : ℕ) (xs : List ℕ) → i < n → byte (take n xs) i ≡ byte xs i
byte-take zero i xs h = absurd (omega (arith, h))
byte-take (suc n) i [] h = refl
byte-take (suc n) zero (x ∷ xs) h = refl
byte-take (suc n) (suc i) (x ∷ xs) h = byte-take n i xs (omega (arith, h))

-- A buffer that starts like `pkt`, and has the encrypted ethertype at `et_off`.
abbrev pub framed : List ℕ → ℕ → List ℕ → List ℕ
framed pkt et_off rest = take et_off pkt ++ (0x10 ∷ 0x4b ∷ rest)

framed_start :
    (pkt : List ℕ) (et_off i : ℕ) (rest : List ℕ)
    → et_off ≤ length pkt
    → i < et_off
    → byte (framed pkt et_off rest) i ≡ byte pkt i
framed_start pkt et_off i rest h lt =
    get_or-append_le (take et_off pkt) (0x10 ∷ 0x4b ∷ rest) i
      (omega (arith, lt, length-take_le et_off pkt h))
    ∙ byte-take et_off i pkt lt

framed_type :
    (pkt : List ℕ) (et_off : ℕ) (rest : List ℕ)
    → et_off ≤ length pkt
    → eth_read_et (framed pkt et_off rest) et_off ≡ fake_ethertype_udp
unfolding eth_read_et
framed_type pkt et_off rest h =
    let size = length-take_le et_off pkt h in
    let at : et_off ≡ et_off + 0 = omega arith in
    ap₂ (λ a b. bit_or (a * 2 ^ 8) b)
      (ap (byte (framed pkt et_off rest)) at
        ∙ byte_after (take et_off pkt) (0x10 ∷ 0x4b ∷ rest) et_off 0 size)
      (byte_after (take et_off pkt) (0x10 ∷ 0x4b ∷ rest) et_off 1 size)

framed_tag :
    (pkt : List ℕ) (et_off : ℕ) (rest : List ℕ)
    → et_off ≤ length pkt
    → 14 ≤ et_off
    → eth_read_et (framed pkt et_off rest) 12 ≡ eth_read_et pkt 12
unfolding eth_read_et
framed_tag pkt et_off rest h lt =
    ap₂ (λ a b. bit_or (a * 2 ^ 8) b) (framed_start pkt et_off 12 rest h (omega (arith, lt)))
      (framed_start pkt et_off 13 rest h (omega (arith, lt)))

-- The place of the ethertype is found again.
pub framed_offset :
    (pkt : List ℕ) (pkt_len et_off k : ℕ) (rest : List ℕ)
    → crypto_eth_inner_et_off pkt pkt_len ≡ some et_off
    → et_off ≤ length pkt
    → 18 ≤ k
    → crypto_eth_inner_et_off (framed pkt et_off rest) k ≡ some et_off
unfolding crypto_eth_inner_et_off eth_match_et
framed_offset pkt pkt_len et_off k rest e h long =
    let now = framed_type pkt et_off rest h in
    elim (inner_cases pkt pkt_len et_off e) [
      | inl at_12 ↦ ground (arith, now, at_12, long)
      | inr (at_16, tagged) ↦
          ground
            (arith, now, at_16, long, framed_tag pkt et_off rest h (omega (arith, at_16)) ∙ tagged)
    ]

pub framed_policy :
    (pkt : List ℕ) (pkt_len et_off k : ℕ) (rest : List ℕ)
    → crypto_eth_inner_et_off pkt pkt_len ≡ some et_off
    → et_off ≤ length pkt
    → 18 ≤ k
    → et_off + 3 ≤ k
    → crypto_eth_l2_policy_off (framed pkt et_off rest) k ≡ some (et_off + 2)
unfolding crypto_eth_l2_policy_off
framed_policy pkt pkt_len et_off k rest e h long room =
    rw (crypto_eth_l2_policy_off, framed_offset pkt pkt_len et_off k rest e h long)
      (if_false (ltb k (et_off + 2 + 1)) _ _ (ltb_of_le k _ (omega (arith, room))))

-- The nonce lies behind the ethertype, the policy and the worker, and the ciphertext behind it.
pub framed_nonce :
    (pkt : List ℕ) (pkt_len et_off k : ℕ) (rest : List ℕ)
    → crypto_eth_inner_et_off pkt pkt_len ≡ some et_off
    → et_off ≤ length pkt
    → 18 ≤ k
    → et_off + 3 ≤ k
    → nonce_off (framed pkt et_off rest) k ≡ some (et_off + 2 + 1 + 1)
unfolding nonce_off
framed_nonce pkt pkt_len et_off k rest e h long room =
    ap (λ o. and_then o (λ off. some (off + 1 + 1)))
      (framed_policy pkt pkt_len et_off k rest e h long room)

pub framed_start_off :
    (pkt : List ℕ) (pkt_len et_off k : ℕ) (rest : List ℕ)
    → crypto_eth_inner_et_off pkt pkt_len ≡ some et_off
    → et_off ≤ length pkt
    → 18 ≤ k
    → et_off + 16 ≤ k
    → enc_start_off (framed pkt et_off rest) k ≡ some (et_off + 2 + 1 + 1 + nonce_size)
unfolding enc_start_off
framed_start_off pkt pkt_len et_off k rest e h long room =
    ap (λ o. and_then o (λ off. if ltb k (off + nonce_size) then none else some (off + nonce_size)))
      (framed_nonce pkt pkt_len et_off k rest e h long (omega (arith, room)))
    ∙ if_false (ltb k (et_off + 2 + 1 + 1 + nonce_size)) _ _ (ltb_of_le k _ (omega (arith, room)))
