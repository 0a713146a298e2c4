-- ===== src/L2.antt =====
-- src/crypto/pqc/pqc_l2_option.c: the encrypted packets between two nodes. A buffer is the list of
-- the bytes of its frame, with the length of the packet in it beside; `none` stands for -1.
pub mod Shim
pub mod Reasm
pub mod Pick
pub mod Again
pub mod Join
pub mod Both
pub mod Arrive
pub mod Reverse
pub mod Buffer
pub mod Packet
pub mod Seal
pub mod Parse
pub mod Open
pub mod Journey
pub mod Rotation
pub mod RoundTrip
pub mod Split
pub mod Fit
pub mod Tables
pub mod Plain
pub mod Veil
pub mod Detect
pub mod Sweep
mod Tests
mod Samples
use ne_encryptor.Prelude.{
  ℕ, zero, suc, ◌+◌, ◌-◌, ◌*◌, ◌/◌, ◌%◌, ◌^◌, Bool, true, false, Option, none, some, List, [], ◌∷◌,
  ◌++◌, ltb, leb, ◌==◌, ◌&&◌, ◌||◌, not, if◌then◌else◌, bit_and, bit_or, take, drop, length,
}
use ne_encryptor.Eth.{byte}

-- `memcpy` out of and into a buffer.
abbrev pub slice : ℕ → ℕ → List ℕ → List ℕ
slice n off buf = take n (drop off buf)

unfoldable pub put : List ℕ → ℕ → List ℕ → List ℕ
put buf off bytes = take off buf ++ bytes ++ drop (off + length bytes) buf

abbrev pub u8 : ℕ → ℕ
u8 n = n % 2 ^ 8

abbrev pub kind_frag0 : ℕ
kind_frag0 = 0

abbrev pub kind_frag1 : ℕ
kind_frag1 = 1

abbrev pub kind_full : ℕ
kind_full = 2

abbrev pub shim_version : ℕ
shim_version = 1

abbrev pub shim_size : ℕ
shim_size = 13

-- The output parameters of `l2_udp_read_shim`.
pub record ShimFields : Type 0 where
  pub kind : ℕ
  pub epoch : ℕ
  pub seq : ℕ
  pub datagram_id : ℕ

-- A 32-bit number in network order, as the two functions write it out.
abbrev pub be32 : ℕ → List ℕ
be32 n = u8 (n / 2 ^ 24) ∷ u8 (n / 2 ^ 16) ∷ u8 (n / 2 ^ 8) ∷ u8 n ∷ []

abbrev pub read_be32 : List ℕ → ℕ → ℕ
read_be32 buf off =
    bit_or
      (bit_or (bit_or (byte buf off * 2 ^ 24) (byte buf (off + 1) * 2 ^ 16))
        (byte buf (off + 2) * 2 ^ 8))
      (byte buf (off + 3))

-- The 13 bytes that `l2_udp_write_shim` writes.
unfoldable pub write_shim : ShimFields → List ℕ
write_shim s =
    u8 (bit_or (shim_version * 2 ^ 4) (bit_and s.kind 0x0f))
    ∷ (be32 s.epoch ++ be32 s.seq ++ be32 s.datagram_id)

unfoldable pub read_shim : List ℕ → Option ShimFields
read_shim buf =
    let version = byte buf 0 / 2 ^ 4 in
    let kind = bit_and (byte buf 0) 0x0f in
    if not (version == shim_version) || ltb kind_full kind
    then none
    else some (record {
      kind = kind;
      epoch = read_be32 buf 1;
      seq = read_be32 buf 5;
      datagram_id = read_be32 buf 9;
    })
