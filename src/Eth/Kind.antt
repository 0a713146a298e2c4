-- ===== src/Eth/Kind.antt =====
-- src/crypto/common/eth_parse.c, src/core/dataplane/packet_util.c: what kind of packet it is.
use mathlib.Core.Path.{ap₂}
use ne_encryptor.Prelude.{
  ℕ, ◌+◌, ◌*◌, ◌^◌, ◌≤◌, ◌<◌, ◌≡◌, refl, ap, ◌∙◌, ◌⊎◌, inl, inr, Bool, false, none, some, List, leb,
  ◌==◌, ◌&&◌, arith, if◌then◌else◌, length, set, length-set, get_or-set_self, get_or-set_ne, bit_or,
}
use ne_encryptor.Prelude.Int.{pos, ltb_ℤ}
use ne_encryptor.Eth.{
  byte, eth_read_et, eth_match_et, eth_p_ip, eth_p_8021q, crypto_eth_inner_et_off,
  crypto_eth_ipv4_offset, arp_at, crypto_eth_arp_offset, crypto_pkt_is_ipv4, crypto_pkt_is_arp,
  crypto_eth_l2_has_marker, crypto_eth_l2_has_arp_marker, crypto_eth_set_ipv4_et,
}
use ne_encryptor.Eth.Fields.{dp_pkt_is_arp, arp_payload_offset}

-- The end of the ARP payload, behind a tag or not.
abbrev pub arp_end : List ℕ → ℕ
arp_end pkt = (if eth_read_et pkt 12 == eth_p_8021q then 18 else 14) + 28

-- The ARP parsers of eth_parse.c and packet_util.c, for every packet and length:
-- crypto_eth_arp_offset gives an offset only for a packet that dp_pkt_is_arp takes, and then what
-- arp_payload_offset gives; crypto_pkt_is_arp takes the packets that dp_pkt_is_arp takes and
-- whose ARP payload is not cut short.
pub crypto_eth_arp_offset_agrees :
    (pkt : List ℕ) (len : ℕ)
    → (crypto_eth_arp_offset pkt len
        ≡ (if dp_pkt_is_arp pkt len then arp_payload_offset pkt len else none))
      × (crypto_pkt_is_arp pkt len ≡ dp_pkt_is_arp pkt len && leb (arp_end pkt) len)
unfolding crypto_eth_arp_offset arp_at dp_pkt_is_arp arp_payload_offset crypto_pkt_is_arp
crypto_eth_arp_offset_agrees pkt len = (ground arith, ground arith)

-- How many of four tests hold.
abbrev pub count_true : Bool → Bool → Bool → Bool → ℕ
count_true a b c d =
    (if a then 1 else 0) + (if b then 1 else 0) + (if c then 1 else 0) + (if d then 1 else 0)

-- A packet is of at most one kind: plain IPv4, plain ARP, marked as encrypted, or marked as
-- encrypted ARP.
pub one_kind :
    (pkt : List ℕ) (len : ℕ)
    → count_true
        (crypto_pkt_is_ipv4 pkt len)
        (crypto_pkt_is_arp pkt len)
        (crypto_eth_l2_has_marker pkt len)
        (crypto_eth_l2_has_arp_marker pkt len)
      ≤ 1
unfolding crypto_pkt_is_ipv4 crypto_pkt_is_arp crypto_eth_l2_has_marker crypto_eth_l2_has_arp_marker
    crypto_eth_inner_et_off crypto_eth_ipv4_offset crypto_eth_arp_offset arp_at eth_match_et
one_kind pkt len = ground arith

-- An offset is not negative.
set_ipv4_lem :
    (pkt : List ℕ) (off : ℕ)
    → crypto_eth_set_ipv4_et pkt (pos off) ≡ set (set pkt off 0x08) (off + 1) 0x00
unfolding crypto_eth_set_ipv4_et
set_ipv4_lem pkt off =
    let not_behind : ltb_ℤ (pos off) (pos 0) ≡ false = ground arith in
    rw (not_behind, crypto_eth_set_ipv4_et) refl

-- The ethertype that `crypto_eth_set_ipv4_et` writes, and those before it.
set_ipv4-read :
    (pkt : List ℕ) (off : ℕ)
    → off + 2 ≤ length pkt
    → eth_read_et (crypto_eth_set_ipv4_et pkt (pos off)) off ≡ eth_p_ip
unfolding eth_read_et
set_ipv4-read pkt off h =
    let first = set pkt off 0x08 in
    let high : byte (set first (off + 1) 0x00) off ≡ 0x08 =
      get_or-set_ne first (off + 1) off 0x00 0 (λ e. omega (arith, e))
      ∙ get_or-set_self pkt off 0x08 0 (omega (arith, h)) in
    let low : byte (set first (off + 1) 0x00) (off + 1) ≡ 0x00 =
      get_or-set_self first (off + 1) 0x00 0 (omega (arith, h, length-set pkt off 0x08)) in
    ap (λ p. bit_or (byte p off * 2 ^ 8) (byte p (off + 1))) (set_ipv4_lem pkt off)
    ∙ ap₂ (λ a b. bit_or (a * 2 ^ 8) b) high low

set_ipv4-before :
    (pkt : List ℕ) (off i : ℕ)
    → i + 2 ≤ off
    → eth_read_et (crypto_eth_set_ipv4_et pkt (pos off)) i ≡ eth_read_et pkt i
unfolding eth_read_et
set_ipv4-before pkt off i h =
    let first = set pkt off 0x08 in
    let same : (j : ℕ) → j < off → byte (set first (off + 1) 0x00) j ≡ byte pkt j = λ j lt.
      get_or-set_ne first (off + 1) j 0x00 0 (λ e. omega (arith, e, lt))
      ∙ get_or-set_ne pkt off j 0x08 0 (λ e. omega (arith, e, lt)) in
    ap (λ p. bit_or (byte p i * 2 ^ 8) (byte p (i + 1))) (set_ipv4_lem pkt off)
    ∙ ap₂ (λ a b. bit_or (a * 2 ^ 8) b) (same i (omega (arith, h)))
        (same (i + 1) (omega (arith, h)))

-- The inner ethertype lies at 12, or at 16 behind a tag that is not one of its values.
pub inner_cases :
    (pkt : List ℕ) (len off : ℕ)
    → crypto_eth_inner_et_off pkt len ≡ some off
    → (off ≡ 12) ⊎ ((off ≡ 16) × (eth_read_et pkt 12 ≡ eth_p_8021q))
unfolding crypto_eth_inner_et_off
inner_cases pkt len off e = ground (arith, e)

-- If the inner ethertype of a packet lies at `off`, there is room behind it for an IPv4 header, and
-- the bytes of the packet are there, then after `crypto_eth_set_ipv4_et` at that offset, which ends
-- a decryption, the IPv4 header is found right behind the ethertype.
pub set_ipv4_et-offset :
    (pkt : List ℕ) (len off : ℕ)
    → crypto_eth_inner_et_off pkt len ≡ some off
    → off + 22 ≤ len
    → len ≤ length pkt
    → crypto_eth_ipv4_offset (crypto_eth_set_ipv4_et pkt (pos off)) len ≡ some (off + 2)
unfolding crypto_eth_ipv4_offset crypto_eth_inner_et_off eth_match_et
set_ipv4_et-offset pkt len off e room bytes =
    let now = set_ipv4-read pkt off (omega (arith, room, bytes)) in
    elim (inner_cases pkt len off e) [
      | inl at_12 ↦ ground (arith, now, at_12, room)
      | inr (at_16, tagged) ↦
          ground
            (arith, now, at_16, room, tagged, set_ipv4-before pkt off 12 (omega (arith, at_16)))
    ]
