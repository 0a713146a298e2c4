-- ===== src/L2/Reverse.antt =====
-- src/crypto/pqc/pqc_l2_option.c: the second fragment of a datagram comes before the first.
use ne_encryptor.Prelude.{
  ℕ, ◌-◌, ◌≡◌, ap, ◌∙◌, Bool, true, false, List, ◌++◌, arith, ltb, ◌&&◌, ◌||◌, length, set, set-set,
}
use ne_encryptor.Prelude.Int.{pos}
use ne_encryptor.Eth.{crypto_eth_set_ipv4_et}
use ne_encryptor.L2.Reasm.{
  Entry, FragTable, Reply, held, joined, prepare_entry, store_first, settle_entry, put_entry,
  is_occupied, is_expired, age, holds, entry_at, timeout_ns, pick_slot, is_ipv4_start, reassemble,
}
use ne_encryptor.L2.Pick.{is_hit, pick_slot-IsPicked}
use ne_encryptor.L2.Again.{IsFoundAt, pick_slot-IsFoundAt}
use ne_encryptor.L2.Both.{
  IsFragment, IsTimely, reassemble_parsed, first_branch, second_branch, stored_hit,
}
use ne_encryptor.L2.Join.{
  IsOf, HasSecond, IsSmall, first_stored, second_stored, store_first_takes, store_second_takes,
  first_stored-HasFirst, second_stored-HasSecond, prepare_new, prepare_entry-IsOf,
}
use ne_encryptor.L2.Arrive.{
  IsSplit, IsNew, first_keeps-HasSecond, settle_waits, settle_joins, picked_unused, no_first,
  fresh_of_hit,
}

expired_waits : (o late h : Bool) → o && h ≡ false → (o && late) && h ≡ false
expired_waits o late h e = ground (arith, e)

or_true : (b : Bool) → b || true ≡ true
or_true b = ground arith

module _ (epoch datagram_id bond_seq t now : ℕ) (eth eth' first second : List ℕ) where
  second_held :
      (ft : FragTable) (pkt : List ℕ) (pkt_len : ℕ)
      → IsFragment pkt pkt_len eth' second
      → IsSmall eth first second
      → IsNew epoch datagram_id t ft
      → let r = pick_slot epoch datagram_id t ft.entries in
        reassemble ft pkt pkt_len epoch datagram_id bond_seq 1 t ≡ (
          put_entry ft r.0 r.1
              (second_stored epoch datagram_id bond_seq second t (entry_at r.0 r.1)),
          held,
        )
  second_held ft pkt pkt_len frag small new =
      let r = pick_slot epoch datagram_id t ft.entries in
      let e = entry_at r.0 r.1 in
      let e' = second_stored epoch datagram_id bond_seq second t e in
      let unused =
        picked_unused epoch datagram_id _ r
          (pick_slot-IsPicked epoch datagram_id t ft.entries new.size new.no_hit) in
      reassemble_parsed ft pkt pkt_len epoch datagram_id bond_seq 1 t eth' second frag
      ∙ second_branch ft r.0 r.1 epoch datagram_id bond_seq eth' second t (
          expired_waits (is_occupied e) (ltb timeout_ns (age t e)) (holds epoch datagram_id e)
            unused)
      ∙ ap (settle_entry ft (set r.0 r.1 e) r.1)
          (store_second_takes epoch datagram_id bond_seq eth first second t e small)
      ∙ settle_waits ft (set r.0 r.1 e) r.1 e' (
          no_first (prepare_entry epoch datagram_id bond_seq t e)
            (prepare_new epoch datagram_id bond_seq t e unused))
      ∙ ap (λ es. (record ft { entries = es }, held)) (set-set r.0 r.1 e e')

  first_joins :
      (ft : FragTable) (pkt : List ℕ) (pkt_len idx : ℕ) (e : Entry)
      → IsFragment pkt pkt_len eth first
      → is_ipv4_start first ≡ true
      → IsSmall eth first second
      → IsOf epoch datagram_id bond_seq t e
      → HasSecond second e
      → is_hit now epoch datagram_id e ≡ true
      → IsFoundAt idx e (pick_slot epoch datagram_id now ft.entries)
      → (reassemble ft pkt pkt_len epoch datagram_id bond_seq 0 now).1
        ≡ joined (crypto_eth_set_ipv4_et (eth ++ first ++ second) (pos (length eth - 2)))
  first_joins ft pkt pkt_len idx e frag start small of got hit found =
      let r = pick_slot epoch datagram_id now ft.entries in
      let same : entry_at r.0 r.1 ≡ e = ap (entry_at r.0) found.found ∙ found.same in
      let fresh : is_expired now e ≡ false =
        fresh_of_hit (is_occupied e) (is_expired now e) (holds epoch datagram_id e) hit in
      ap (λ (x : FragTable × Reply). x.1)
        (reassemble_parsed ft pkt pkt_len epoch datagram_id bond_seq 0 now eth first frag
          ∙ first_branch ft r.0 r.1 epoch datagram_id bond_seq eth first now start
          ∙ ap
              (λ x.
                settle_entry ft r.0 r.1 (store_first epoch datagram_id bond_seq eth first now x))
              same
          ∙ ap (settle_entry ft r.0 r.1)
              (store_first_takes epoch datagram_id bond_seq eth first second now e small))
      ∙ settle_joins ft r.0 r.1 eth first second
          (first_stored epoch datagram_id bond_seq eth first now e)
          (first_stored-HasFirst epoch datagram_id bond_seq eth first now e)
          (first_keeps-HasSecond epoch datagram_id bond_seq t now eth first second e of fresh got)
          small

-- Two calls in a row, with no other fragment between them, at most 200 ms apart on a clock that
-- does not wrap around. The table waits for no part of the datagram, the Ethernet headers are of
-- 2 to 18 bytes, each part is at most 1600 bytes and the whole with its header at most 2048, and
-- the first part begins with a whole IPv4 header. If the second fragment is the first to come,
-- then it is held, and the first fragment gives the same packet: its Ethernet header, the
-- ethertype of IPv4 and both parts.
pub reassemble_in_reverse :
    (epoch datagram_id bond_seq t now : ℕ) (eth eth' first second : List ℕ) (ft : FragTable)
    (p0 : List ℕ) (n0 : ℕ) (p1 : List ℕ) (n1 : ℕ)
    → IsSplit p0 n0 p1 n1 eth eth' first second
    → IsNew epoch datagram_id t ft
    → IsTimely t now
    → let one = reassemble ft p1 n1 epoch datagram_id bond_seq 1 t in
      (one.1 ≡ held)
      × ((reassemble one.0 p0 n0 epoch datagram_id bond_seq 0 now).1
          ≡ joined (crypto_eth_set_ipv4_et (eth ++ first ++ second) (pos (length eth - 2))))
reassemble_in_reverse epoch datagram_id bond_seq t now eth eth' first second ft p0 n0 p1 n1 split
      new timely =
    let r = pick_slot epoch datagram_id t ft.entries in
    let e0 = entry_at r.0 r.1 in
    let e = second_stored epoch datagram_id bond_seq second t e0 in
    let one =
      second_held epoch datagram_id bond_seq t now eth eth' first second ft p1 n1 split.second_frag
        split.small new in
    let of : IsOf epoch datagram_id bond_seq t e =
      let p = prepare_entry-IsOf epoch datagram_id bond_seq t e0 in
      record {
        epoch_same = p.epoch_same;
        datagram_same = p.datagram_same;
        bond_same = p.bond_same;
        time_same = p.time_same;
      } in
    let hit =
      stored_hit epoch datagram_id bond_seq t now e of
        (or_true (prepare_entry epoch datagram_id bond_seq t e0).got_first) timely in
    (
      ap (λ (x : FragTable × Reply). x.1) one,
      ap (λ (x : FragTable × Reply). (reassemble x.0 p0 n0 epoch datagram_id bond_seq 0 now).1) one
          ∙ first_joins epoch datagram_id bond_seq t now eth eth' first second
              (put_entry ft r.0 r.1 e) p0 n0 r.1 e split.first_frag split.start split.small of
              (second_stored-HasSecond epoch datagram_id bond_seq second t e0) hit
              (pick_slot-IsFoundAt epoch datagram_id now r e
                (pick_slot-IsPicked epoch datagram_id t ft.entries new.size new.no_hit) hit),
    )
