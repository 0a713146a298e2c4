-- ===== src/L2/Both.antt =====
-- src/crypto/pqc/pqc_l2_option.c: `l2_reassemble` on the two fragments of a datagram.
use ne_encryptor.Prelude.{
  ℕ, ◌+◌, ◌-◌, ◌%◌, ◌^◌, ◌≤◌, ◌<◌, ◌≡◌, ap, ◌∙◌, Bool, true, false, some, List, arith, ltb, ◌==◌,
  ◌&&◌, ◌||◌, not, if_false, ltb_of_le, length, take, set,
}
use native.Mathlib.Nat.{mod-eq_of_lt, add-mod_right}
use ne_encryptor.L2.{slice}
use ne_encryptor.L2.Reasm.{
  Entry, FragTable, clear_entry, store_first, store_second, settle_entry, is_occupied, is_expired,
  age, holds, entry_at, timeout_ns, hdr_max, pick_slot, is_ipv4_start, reassemble_at, reassemble,
  wire_prefix_len,
}
use ne_encryptor.L2.Pick.{is_hit}
use ne_encryptor.L2.Join.{IsOf}

-- A packet that holds the bytes `inner` behind the header `eth`.
pub record IsFragment (pkt : List ℕ) (pkt_len : ℕ) (eth inner : List ℕ) : Type 0 where
  pub parsed : wire_prefix_len pkt pkt_len ≡ some (length eth)
  pub eth_max : length eth ≤ hdr_max
  pub long : length eth ≤ pkt_len
  pub eth_bytes : take (length eth) pkt ≡ eth
  pub inner_bytes : slice (pkt_len - length eth) (length eth) pkt ≡ inner

fits : (a b n : ℕ) → n ≤ a → n ≤ b → ltb a n || ltb b n ≡ false
fits a b n h k = ground (arith, h, k)

pub reassemble_parsed :
    (ft : FragTable) (pkt : List ℕ) (pkt_len epoch datagram_id bond_seq frag_index now : ℕ)
    (eth inner : List ℕ)
    → IsFragment pkt pkt_len eth inner
    → reassemble ft pkt pkt_len epoch datagram_id bond_seq frag_index now
      ≡ reassemble_at ft
          (pick_slot epoch datagram_id now ft.entries).0
          (pick_slot epoch datagram_id now ft.entries).1
          epoch
          datagram_id
          bond_seq
          frag_index
          eth
          inner
          now
unfolding reassemble
reassemble_parsed ft pkt pkt_len epoch datagram_id bond_seq frag_index now eth inner h =
    let (entries, idx) = pick_slot epoch datagram_id now ft.entries in
    rw (reassemble, h.parsed)
      (if_false (ltb hdr_max (length eth) || ltb pkt_len (length eth)) _ _
          (fits hdr_max pkt_len (length eth) h.eth_max h.long)
        ∙ ap
            (λ e.
              reassemble_at ft entries idx epoch datagram_id bond_seq frag_index e
                (slice (pkt_len - length eth) (length eth) pkt) now)
            h.eth_bytes
        ∙ ap (λ i. reassemble_at ft entries idx epoch datagram_id bond_seq frag_index eth i now)
            h.inner_bytes)

-- The two branches, where the entry is not cleared first.
pub first_branch :
    (ft : FragTable) (entries : List Entry) (idx epoch datagram_id bond_seq : ℕ)
    (eth inner : List ℕ) (now : ℕ)
    → is_ipv4_start inner ≡ true
    → reassemble_at ft entries idx epoch datagram_id bond_seq 0 eth inner now
      ≡ settle_entry ft entries idx
          (store_first epoch datagram_id bond_seq eth inner now (entry_at entries idx))
unfolding reassemble_at
first_branch ft entries idx epoch datagram_id bond_seq eth inner now h =
    if_false (not (is_ipv4_start inner)) _ _ (ap not h)

pub second_branch :
    (ft : FragTable) (entries : List Entry) (idx epoch datagram_id bond_seq : ℕ)
    (eth inner : List ℕ) (now : ℕ)
    → is_expired now (entry_at entries idx) && holds epoch datagram_id (entry_at entries idx)
      ≡ false
    → reassemble_at ft entries idx epoch datagram_id bond_seq 1 eth inner now
      ≡ settle_entry ft
          (set entries idx (entry_at entries idx))
          idx
          (store_second epoch datagram_id bond_seq inner now (entry_at entries idx))
unfolding reassemble_at
second_branch ft entries idx epoch datagram_id bond_seq eth inner now h =
    ap
      (λ e.
        settle_entry ft (set entries idx e) idx
          (store_second epoch datagram_id bond_seq inner now e))
      (if_false
        (is_expired now (entry_at entries idx) && holds epoch datagram_id (entry_at entries idx))
        (clear_entry (entry_at entries idx)) (entry_at entries idx) h)

-- Two moments that are no further apart than the timeout.
pub record IsTimely (t now : ℕ) : Type 0 where
  pub after : t ≤ now
  pub close : now - t ≤ timeout_ns
  pub machine : now < 2 ^ 64

span : (t now : ℕ) → t ≤ now → now + 2 ^ 64 - t ≡ now - t + 2 ^ 64
span t now h = omega (arith, h)

less : (t now : ℕ) → now < 2 ^ 64 → now - t < 2 ^ 64
less t now h = omega (arith, h)

age_timely : (t now : ℕ) → IsTimely t now → ltb timeout_ns ((now + 2 ^ 64 - t) % 2 ^ 64) ≡ false
age_timely t now h = ltb_of_le timeout_ns _ (
    omega (
      arith,
      h.after,
      h.close,
      h.machine,
      ap (λ d. d % 2 ^ 64) (span t now h.after),
      add-mod_right (now - t) (2 ^ 64),
      mod-eq_of_lt (less t now h.machine),
    ))

hit_of :
    (o late : Bool) (a b c d : ℕ)
    → o ≡ true
    → late ≡ false
    → a ≡ b
    → c ≡ d
    → (o && not (o && late)) && (a == b && c == d) ≡ true
hit_of o late a b c d h k e f = ground (arith, h, k, e, f)

pub stored_hit :
    (epoch datagram_id bond_seq t now : ℕ) (e : Entry)
    → IsOf epoch datagram_id bond_seq t e
    → is_occupied e ≡ true
    → IsTimely t now
    → is_hit now epoch datagram_id e ≡ true
stored_hit epoch datagram_id bond_seq t now e h occupied timely =
    hit_of (is_occupied e) (ltb timeout_ns (age now e)) e.epoch epoch e.datagram_id datagram_id
      occupied
      (ap (λ s. ltb timeout_ns ((now + 2 ^ 64 - s) % 2 ^ 64)) h.time_same ∙ age_timely t now timely)
      h.epoch_same h.datagram_same
