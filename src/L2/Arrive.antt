-- ===== src/L2/Arrive.antt =====
-- src/crypto/pqc/pqc_l2_option.c: the two fragments of a datagram, in either order.
use ne_encryptor.Prelude.{
  ℕ, ◌-◌, ◌≡◌, refl, ap, ◌∙◌, Bool, true, false, some, List, ◌++◌, arith, ◌&&◌, not, length, take,
  set,
}
use ne_encryptor.Prelude.Int.{pos}
use ne_encryptor.Eth.{crypto_eth_set_ipv4_et}
use ne_encryptor.L2.Reasm.{
  Entry, FragTable, Reply, held, joined, prepare_entry, store_second, settle_entry, put_entry,
  is_occupied, is_expired, holds, entry_at, table_size, pick_slot, is_ipv4_start, reassemble,
}
use ne_encryptor.L2.Pick.{is_waiting, is_hit, NoHit, IsPicked, pick_slot-IsPicked}
use ne_encryptor.L2.Again.{IsFoundAt, pick_slot-IsFoundAt}
use ne_encryptor.L2.Both.{
  IsFragment, IsTimely, reassemble_parsed, first_branch, second_branch, stored_hit,
}
use ne_encryptor.L2.Join.{
  IsOf, HasFirst, HasSecond, IsSmall, first_stored, second_stored, store_first_takes,
  store_second_takes, first_stored-HasFirst, second_stored-HasSecond, prepare_again, prepare_new,
  prepare_entry-IsOf, emit_both, emit_waits,
}

-- What stays of the other fragment when one is stored in time.
second_keeps-HasFirst :
    (epoch datagram_id bond_seq t now : ℕ) (eth first second : List ℕ) (e : Entry)
    → IsOf epoch datagram_id bond_seq t e
    → is_expired now e ≡ false
    → HasFirst eth first e
    → HasFirst eth first (second_stored epoch datagram_id bond_seq second now e)
second_keeps-HasFirst epoch datagram_id bond_seq t now eth first second e h fresh f =
    let p = prepare_again epoch datagram_id bond_seq t now e h fresh in
    record {
      got = ap (λ (x : Entry). x.got_first) p ∙ f.got;
      eth_size = ap (λ (x : Entry). x.eth_len) p ∙ f.eth_size;
      eth_bytes = ap (λ (x : Entry). take (length eth) x.eth_hdr) p ∙ f.eth_bytes;
      size = ap (λ (x : Entry). x.first_len) p ∙ f.size;
      stored = ap (λ (x : Entry). take (length first) x.first) p ∙ f.stored;
    }

pub first_keeps-HasSecond :
    (epoch datagram_id bond_seq t now : ℕ) (eth first second : List ℕ) (e : Entry)
    → IsOf epoch datagram_id bond_seq t e
    → is_expired now e ≡ false
    → HasSecond second e
    → HasSecond second (first_stored epoch datagram_id bond_seq eth first now e)
first_keeps-HasSecond epoch datagram_id bond_seq t now eth first second e h fresh f =
    let p = prepare_again epoch datagram_id bond_seq t now e h fresh in
    record {
      got = ap (λ (x : Entry). x.got_second) p ∙ f.got;
      size = ap (λ (x : Entry). x.second_len) p ∙ f.size;
      stored = ap (λ (x : Entry). take (length second) x.second) p ∙ f.stored;
    }

pub settle_waits :
    (ft : FragTable) (entries : List Entry) (idx : ℕ) (e : Entry)
    → e.got_first && e.got_second ≡ false
    → settle_entry ft entries idx (some e) ≡ (put_entry ft entries idx e, held)
unfolding settle_entry
settle_waits ft entries idx e h =
    ap (λ (r : Entry × Reply). (put_entry ft entries idx r.0, r.1)) (emit_waits e h)

pub settle_joins :
    (ft : FragTable) (entries : List Entry) (idx : ℕ) (eth first second : List ℕ) (e : Entry)
    → HasFirst eth first e
    → HasSecond second e
    → IsSmall eth first second
    → (settle_entry ft entries idx (some e)).1
      ≡ joined (crypto_eth_set_ipv4_et (eth ++ first ++ second) (pos (length eth - 2)))
unfolding settle_entry
settle_joins ft entries idx eth first second e f s h =
    ap (λ (r : Entry × Reply). r.1) (emit_both eth first second e f s h)

-- At the place of a new datagram nothing of it waits.
pub picked_unused :
    (epoch datagram_id base : ℕ) (r : List Entry × ℕ)
    → IsPicked epoch datagram_id base r
    → is_waiting epoch datagram_id (entry_at r.0 r.1) ≡ false
picked_unused epoch datagram_id base r h =
    let (k, (lt, spot)) = h.spot in
    ap (λ i. is_waiting epoch datagram_id (entry_at r.0 i)) spot ∙ h.unused k lt

-- Both halves of a datagram, and the table as it is before.
pub record IsSplit (p0 : List ℕ) (n0 : ℕ) (p1 : List ℕ) (n1 : ℕ) (eth eth' first second : List ℕ)
    : Type 0 where
  pub first_frag : IsFragment p0 n0 eth first
  pub second_frag : IsFragment p1 n1 eth' second
  pub start : is_ipv4_start first ≡ true
  pub small : IsSmall eth first second

pub record IsNew (epoch datagram_id now : ℕ) (ft : FragTable) : Type 0 where
  pub size : length ft.entries ≡ table_size
  pub no_hit : NoHit now epoch datagram_id ft.entries

no_second : (e : Entry) → is_occupied e ≡ false → true && e.got_second ≡ false
no_second e h = ground (arith, h)

pub no_first : (e : Entry) → is_occupied e ≡ false → e.got_first && true ≡ false
no_first e h = ground (arith, h)

pub fresh_of_hit : (o x h : Bool) → (o && not x) && h ≡ true → x ≡ false
fresh_of_hit o x h e = ground (arith, e)

module _ (epoch datagram_id bond_seq t now : ℕ) (eth eth' first second : List ℕ) where
  -- A fragment of a new datagram is held.
  first_held :
      (ft : FragTable) (pkt : List ℕ) (pkt_len : ℕ)
      → IsFragment pkt pkt_len eth first
      → is_ipv4_start first ≡ true
      → IsSmall eth first second
      → IsNew epoch datagram_id t ft
      → let r = pick_slot epoch datagram_id t ft.entries in
        reassemble ft pkt pkt_len epoch datagram_id bond_seq 0 t ≡ (
          put_entry ft r.0 r.1
              (first_stored epoch datagram_id bond_seq eth first t (entry_at r.0 r.1)),
          held,
        )
  first_held ft pkt pkt_len frag start small new =
      let r = pick_slot epoch datagram_id t ft.entries in
      let e = entry_at r.0 r.1 in
      let unused =
        picked_unused epoch datagram_id _ r
          (pick_slot-IsPicked epoch datagram_id t ft.entries new.size new.no_hit) in
      reassemble_parsed ft pkt pkt_len epoch datagram_id bond_seq 0 t eth first frag
      ∙ first_branch ft r.0 r.1 epoch datagram_id bond_seq eth first t start
      ∙ ap (settle_entry ft r.0 r.1)
          (store_first_takes epoch datagram_id bond_seq eth first second t e small)
      ∙ settle_waits ft r.0 r.1 (first_stored epoch datagram_id bond_seq eth first t e) (
          no_second (prepare_entry epoch datagram_id bond_seq t e)
            (prepare_new epoch datagram_id bond_seq t e unused))

  -- The entry that waits meets the second fragment.
  second_joins :
      (ft : FragTable) (pkt : List ℕ) (pkt_len idx : ℕ) (e : Entry)
      → IsFragment pkt pkt_len eth' second
      → IsSmall eth first second
      → IsOf epoch datagram_id bond_seq t e
      → HasFirst eth first e
      → is_hit now epoch datagram_id e ≡ true
      → IsFoundAt idx e (pick_slot epoch datagram_id now ft.entries)
      → (reassemble ft pkt pkt_len epoch datagram_id bond_seq 1 now).1
        ≡ joined (crypto_eth_set_ipv4_et (eth ++ first ++ second) (pos (length eth - 2)))
  second_joins ft pkt pkt_len idx e frag small of got hit found =
      let r = pick_slot epoch datagram_id now ft.entries in
      let same : entry_at r.0 r.1 ≡ e = ap (entry_at r.0) found.found ∙ found.same in
      let fresh : is_expired now e ≡ false =
        fresh_of_hit (is_occupied e) (is_expired now e) (holds epoch datagram_id e) hit in
      ap (λ (x : FragTable × Reply). x.1)
        (reassemble_parsed ft pkt pkt_len epoch datagram_id bond_seq 1 now eth' second frag
          ∙ second_branch ft r.0 r.1 epoch datagram_id bond_seq eth' second now (
              ap (λ x. is_expired now x && holds epoch datagram_id x) same
              ∙ ap (λ b. b && holds epoch datagram_id e) fresh)
          ∙ ap
              (λ x.
                settle_entry ft (set r.0 r.1 (entry_at r.0 r.1)) r.1
                  (store_second epoch datagram_id bond_seq second now x))
              same
          ∙ ap (settle_entry ft (set r.0 r.1 (entry_at r.0 r.1)) r.1)
              (store_second_takes epoch datagram_id bond_seq eth first second now e small))
      ∙ settle_joins ft (set r.0 r.1 (entry_at r.0 r.1)) r.1 eth first second
          (second_stored epoch datagram_id bond_seq second now e)
          (second_keeps-HasFirst epoch datagram_id bond_seq t now eth first second e of fresh got)
          (second_stored-HasSecond epoch datagram_id bond_seq second now e) small

-- Two calls in a row, with no other fragment between them, at most 200 ms apart on a clock that
-- does not wrap around. The table waits for no part of the datagram, the Ethernet headers are of
-- 2 to 18 bytes, each part is at most 1600 bytes and the whole with its header at most 2048, and
-- the first part begins with a whole IPv4 header. Then the first fragment is held, and the second
-- gives the Ethernet header of the first, the ethertype of IPv4 and both parts.
pub reassemble_in_order :
    (epoch datagram_id bond_seq t now : ℕ) (eth eth' first second : List ℕ) (ft : FragTable)
    (p0 : List ℕ) (n0 : ℕ) (p1 : List ℕ) (n1 : ℕ)
    → IsSplit p0 n0 p1 n1 eth eth' first second
    → IsNew epoch datagram_id t ft
    → IsTimely t now
    → let one = reassemble ft p0 n0 epoch datagram_id bond_seq 0 t in
      (one.1 ≡ held)
      × ((reassemble one.0 p1 n1 epoch datagram_id bond_seq 1 now).1
          ≡ joined (crypto_eth_set_ipv4_et (eth ++ first ++ second) (pos (length eth - 2))))
reassemble_in_order epoch datagram_id bond_seq t now eth eth' first second ft p0 n0 p1 n1 split new
      timely =
    let r = pick_slot epoch datagram_id t ft.entries in
    let e = first_stored epoch datagram_id bond_seq eth first t (entry_at r.0 r.1) in
    let one =
      first_held epoch datagram_id bond_seq t now eth eth' first second ft p0 n0 split.first_frag
        split.start split.small new in
    let of : IsOf epoch datagram_id bond_seq t e =
      let p = prepare_entry-IsOf epoch datagram_id bond_seq t (entry_at r.0 r.1) in
      record {
        epoch_same = p.epoch_same;
        datagram_same = p.datagram_same;
        bond_same = p.bond_same;
        time_same = p.time_same;
      } in
    let hit = stored_hit epoch datagram_id bond_seq t now e of refl timely in
    (
      ap (λ (x : FragTable × Reply). x.1) one,
      ap (λ (x : FragTable × Reply). (reassemble x.0 p1 n1 epoch datagram_id bond_seq 1 now).1) one
          ∙ second_joins epoch datagram_id bond_seq t now eth eth' first second
              (put_entry ft r.0 r.1 e) p1 n1 r.1 e split.second_frag split.small of
              (first_stored-HasFirst epoch datagram_id bond_seq eth first t (entry_at r.0 r.1)) hit
              (pick_slot-IsFoundAt epoch datagram_id now r e
                (pick_slot-IsPicked epoch datagram_id t ft.entries new.size new.no_hit) hit),
    )
