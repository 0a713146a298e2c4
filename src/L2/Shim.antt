-- ===== src/L2/Shim.antt =====
-- src/crypto/pqc/pqc_l2_option.c: the header inside the ciphertext of a UDP packet.
use ne_encryptor.Prelude.{
  ℕ, ◌+◌, ◌*◌, ◌/◌, ◌%◌, ◌^◌, ◌<◌, ◌≡◌, ap, ◌∙◌, none, some, List, ◌++◌, arith, leb, if◌then◌else◌,
  bit_and, bit_or, bit_and_mask, bit_or_shifted,
}
use ne_encryptor.L2.{u8, ShimFields, write_shim, read_shim, kind_full}

-- Four bytes put together.
merge_bytes :
    (a b c d : ℕ)
    → b < 256
    → c < 256
    → d < 256
    → bit_or (bit_or (bit_or (a * 2 ^ 24) (b * 2 ^ 16)) (c * 2 ^ 8)) d
      ≡ a * 2 ^ 24 + b * 2 ^ 16 + c * 2 ^ 8 + d
merge_bytes a b c d hb hc hd =
    let two : bit_or (a * 2 ^ 24) (b * 2 ^ 16) ≡ (a * 2 ^ 8 + b) * 2 ^ 16 =
      bit_or_shifted 24 a (b * 2 ^ 16) (omega (arith, hb)) ∙ omega arith in
    let three : bit_or ((a * 2 ^ 8 + b) * 2 ^ 16) (c * 2 ^ 8)
        ≡ ((a * 2 ^ 8 + b) * 2 ^ 8 + c) * 2 ^ 8 =
      bit_or_shifted 16 (a * 2 ^ 8 + b) (c * 2 ^ 8) (omega (arith, hc)) ∙ omega arith in
    rw (two, three)
      (bit_or_shifted 8 ((a * 2 ^ 8 + b) * 2 ^ 8 + c) d (omega (arith, hd)) ∙ omega arith)

read_be32-be32 :
    (n : ℕ)
    → n < 2 ^ 32
    → bit_or
        (bit_or
          (bit_or (u8 (n / 2 ^ 24) * 2 ^ 24) (u8 (n / 2 ^ 16) * 2 ^ 16))
          (u8 (n / 2 ^ 8) * 2 ^ 8))
        (u8 n)
      ≡ n
read_be32-be32 n h =
    merge_bytes (u8 (n / 2 ^ 24)) (u8 (n / 2 ^ 16)) (u8 (n / 2 ^ 8)) (u8 n) (omega arith)
      (omega arith) (omega arith)
    ∙ omega (arith, h)

first_byte : (kind : ℕ) → u8 (bit_or (1 * 2 ^ 4) (bit_and kind 0x0f)) ≡ 16 + kind % 16
first_byte kind =
    ap (λ k. u8 (bit_or (1 * 2 ^ 4) k)) (bit_and_mask 4 kind)
    ∙ ap u8 (bit_or_shifted 4 1 (kind % 16) (omega arith))
    ∙ omega arith

-- The fields fit in their places.
pub record IsShim (s : ShimFields) : Type 0 where
  pub kind : s.kind < 16
  pub epoch : s.epoch < 2 ^ 32
  pub seq : s.seq < 2 ^ 32
  pub datagram_id : s.datagram_id < 2 ^ 32

-- Fields that fit, once written, are read back as they were, whatever follows them, if the kind is
-- one of the three; with another kind the header is refused.
pub read_shim-write_shim :
    (s : ShimFields) (rest : List ℕ)
    → IsShim s
    → read_shim (write_shim s ++ rest) ≡ (if leb s.kind kind_full then some s else none)
unfolding read_shim write_shim
read_shim-write_shim s rest h =
    let low : bit_and (16 + s.kind % 16) 0x0f ≡ s.kind =
      bit_and_mask 4 (16 + s.kind % 16) ∙ omega (arith, h.kind) in
    rw
      (
        first_byte s.kind,
        low,
        read_be32-be32 s.epoch h.epoch,
        read_be32-be32 s.seq h.seq,
        read_be32-be32 s.datagram_id h.datagram_id,
      )
      (ground (arith, h.kind))
