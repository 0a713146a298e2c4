-- ===== src/Policy/Mirror.antt =====
-- src/db/config.c: an entry of the table for packets that come in, beside the policy it is made of.
use ne_encryptor.Prelude.{
  ℕ, ◌≤◌, ◌≡◌, refl, ◌⊎◌, inl, inr, Bool, true, false, arith, ltb, ◌==◌, ◌&&◌, ◌||◌, not,
  if◌then◌else◌, bit_and, bit_and_mask,
}
use ne_encryptor.Prelude.Int.{ℤ, pos, ltb_ℤ, ◌≤ℤ◌}
use ne_encryptor.Policy.{
  CryptoPolicy, Tuple, proto_ok, port_ok, cidr_match_with_negate, crypto_policy_match_packet,
}
use ne_encryptor.Policy.Inbound.{pol_in_port_range, pol_in_fill, entry_ok}

-- The packet that answers.
abbrev pub reverse : Tuple → Tuple
reverse t = record {
  src_ip = t.dst_ip;
  dst_ip = t.src_ip;
  src_port = t.dst_port;
  dst_port = t.src_port;
  protocol = t.protocol;
}

-- What `parse_port_range` of src/db/db_config.c makes of a range: any port, or bounds in order.
abbrev pub IsRange : ℤ → ℤ → Type 0
IsRange from to = (ltb_ℤ from (pos 0) ≡ true) ⊎ ((from ≤ℤ to) × (to ≤ℤ pos 65535))

pub record IsParsed (cp : CryptoPolicy) : Type 0 where
  pub src_range : IsRange cp.src_port_from cp.src_port_to
  pub dst_range : IsRange cp.dst_port_from cp.dst_port_to

pub record IsPacket (t : Tuple) : Type 0 where
  pub src_in : t.src_port ≤ 65535
  pub dst_in : t.dst_port ≤ 65535

range_lem :
    (from to : ℤ) (port : ℕ)
    → IsRange from to
    → port ≤ 65535
    → (ltb port ((pol_in_port_range from to).0) || ltb ((pol_in_port_range from to).1) port)
      ≡ not (port_ok from to port)
unfolding pol_in_port_range port_ok
range_lem from to port (inl any) h = ground (arith, any)
range_lem from to port (inr (in_order, in_range)) h = ground (arith, in_order, in_range)

cidr_lem :
    (any_flag negate : Bool) (ip net mask : ℕ)
    → (if not any_flag && negate
        then not (
            bit_and ip (if any_flag then 0 else mask) == (if any_flag then 0 else bit_and net mask))
        else bit_and ip (if any_flag then 0 else mask)
          == (if any_flag then 0 else bit_and net mask))
      ≡ cidr_match_with_negate any_flag negate ip net mask
unfolding cidr_match_with_negate
cidr_lem true negate ip net mask =
    let z : bit_and ip 0 ≡ 0 = omega (arith, bit_and_mask 0 ip) in rw z refl
cidr_lem false negate ip net mask = refl

pub entry_lem :
    (cp : CryptoPolicy) (t : Tuple)
    → IsParsed cp
    → IsPacket t
    → entry_ok (pol_in_fill cp) (reverse t) ≡ crypto_policy_match_packet cp t
unfolding entry_ok pol_in_fill crypto_policy_match_packet
entry_lem cp t parsed packet =
    rw
      (
        cidr_lem cp.dst_any cp.dst_negate t.dst_ip cp.dst_net cp.dst_mask,
        cidr_lem cp.src_any cp.src_negate t.src_ip cp.src_net cp.src_mask,
        range_lem cp.dst_port_from cp.dst_port_to t.dst_port parsed.dst_range packet.dst_in,
        range_lem cp.src_port_from cp.src_port_to t.src_port parsed.src_range packet.src_in,
      )
      (tests_lem (proto_ok cp.protocol t.protocol)
        (cidr_match_with_negate cp.src_any cp.src_negate t.src_ip cp.src_net cp.src_mask)
        (cidr_match_with_negate cp.dst_any cp.dst_negate t.dst_ip cp.dst_net cp.dst_mask)
        (port_ok cp.src_port_from cp.src_port_to t.src_port)
        (port_ok cp.dst_port_from cp.dst_port_to t.dst_port))
  where
    tests_lem :
        (a b c d e : Bool)
        → (if not a
            then false
            else if not c || not b
            then false
            else if not e
            then false
            else if not d
            then false
            else true)
          ≡ (if not a
              then false
              else if not b
              then false
              else if not c
              then false
              else if not d
              then false
              else e)
    tests_lem a b c d e = ground arith
