-- ===== src/L2/Join.antt =====
-- src/crypto/pqc/pqc_l2_option.c: an entry that gets the two fragments of a datagram.
use ne_encryptor.Prelude.{
  ℕ, ◌+◌, ◌-◌, ◌≤◌, ◌≡◌, refl, ap, ◌∙◌, Bool, true, false, some, List, [], ◌∷◌, ◌++◌, arith, ltb,
  leb, ◌==◌, ◌&&◌, ◌||◌, not, if◌then◌else◌, if_true, if_false, ltb_of_le, length, take, drop,
  if_intro,
}
use ne_encryptor.Prelude.Int.{pos}
use ne_encryptor.Eth.{crypto_eth_set_ipv4_et}
use ne_encryptor.L2.{put}
use ne_encryptor.L2.Reasm.{
  Entry, Reply, refused, held, joined, clear_entry, prepare_entry, store_first, store_second,
  emit_join, join_bytes, is_occupied, is_expired, frag_max, hdr_max, ne_frame,
}
use ne_encryptor.L2.Pick.{is_waiting}

take_append : (xs ys : List ℕ) → take (length xs) (xs ++ ys) ≡ xs
take_append [] ys = refl
take_append (x ∷ xs) ys = ap (λ zs. x ∷ zs) (take_append xs ys)

take-put : (buf xs : List ℕ) → take (length xs) (put buf 0 xs) ≡ xs
unfolding put
take-put buf xs = take_append xs (drop (0 + length xs) buf)

-- The entry is that of the datagram, and was written last at the time `now`.
pub record IsOf (epoch datagram_id bond_seq now : ℕ) (e : Entry) : Type 0 where
  pub epoch_same : e.epoch ≡ epoch
  pub datagram_same : e.datagram_id ≡ datagram_id
  pub bond_same : e.bond_seq ≡ bond_seq
  pub time_same : e.timestamp_ns ≡ now

pub record HasFirst (eth bytes : List ℕ) (e : Entry) : Type 0 where
  pub got : e.got_first ≡ true
  pub eth_size : e.eth_len ≡ length eth
  pub eth_bytes : take (length eth) e.eth_hdr ≡ eth
  pub size : e.first_len ≡ length bytes
  pub stored : take (length bytes) e.first ≡ bytes

pub record HasSecond (bytes : List ℕ) (e : Entry) : Type 0 where
  pub got : e.got_second ≡ true
  pub size : e.second_len ≡ length bytes
  pub stored : take (length bytes) e.second ≡ bytes

-- The entries that the two stores write.
abbrev pub first_stored : ℕ → ℕ → ℕ → List ℕ → List ℕ → ℕ → Entry → Entry
first_stored epoch datagram_id bond_seq eth bytes now e =
    let e' = prepare_entry epoch datagram_id bond_seq now e in
    record e' {
      first_len = length bytes;
      first = put e'.first 0 bytes;
      eth_hdr = put e'.eth_hdr 0 eth;
      eth_len = length eth;
      got_first = true;
    }

abbrev pub second_stored : ℕ → ℕ → ℕ → List ℕ → ℕ → Entry → Entry
second_stored epoch datagram_id bond_seq bytes now e =
    let e' = prepare_entry epoch datagram_id bond_seq now e in
    record e' { second_len = length bytes; second = put e'.second 0 bytes; got_second = true }

-- The sizes that the table takes.
pub record IsSmall (eth first second : List ℕ) : Type 0 where
  pub eth_some : 2 ≤ length eth
  pub eth_max : length eth ≤ hdr_max
  pub first_max : length first ≤ frag_max
  pub second_max : length second ≤ frag_max
  pub total_max : length first + length second + length eth ≤ ne_frame

eth_fits : (n : ℕ) → 2 ≤ n → n ≤ hdr_max → n == 0 || ltb hdr_max n ≡ false
eth_fits n h k = ground (arith, h, k)

pub store_first_takes :
    (epoch datagram_id bond_seq : ℕ) (eth first second : List ℕ) (now : ℕ) (e : Entry)
    → IsSmall eth first second
    → store_first epoch datagram_id bond_seq eth first now e
      ≡ some (first_stored epoch datagram_id bond_seq eth first now e)
unfolding store_first
store_first_takes epoch datagram_id bond_seq eth first second now e h =
    if_false (ltb frag_max (length first)) _ _ (ltb_of_le frag_max (length first) h.first_max)
    ∙ if_false (length eth == 0 || ltb hdr_max (length eth)) _ _
        (eth_fits (length eth) h.eth_some h.eth_max)

pub store_second_takes :
    (epoch datagram_id bond_seq : ℕ) (eth first second : List ℕ) (now : ℕ) (e : Entry)
    → IsSmall eth first second
    → store_second epoch datagram_id bond_seq second now e
      ≡ some (second_stored epoch datagram_id bond_seq second now e)
unfolding store_second
store_second_takes epoch datagram_id bond_seq eth first second now e h =
    if_false (ltb frag_max (length second)) _ _ (ltb_of_le frag_max (length second) h.second_max)

pub first_stored-HasFirst :
    (epoch datagram_id bond_seq : ℕ) (eth bytes : List ℕ) (now : ℕ) (e : Entry)
    → HasFirst eth bytes (first_stored epoch datagram_id bond_seq eth bytes now e)
first_stored-HasFirst epoch datagram_id bond_seq eth bytes now e = record {
  got = refl;
  eth_size = refl;
  eth_bytes = take-put _ eth;
  size = refl;
  stored = take-put _ bytes;
}

pub second_stored-HasSecond :
    (epoch datagram_id bond_seq : ℕ) (bytes : List ℕ) (now : ℕ) (e : Entry)
    → HasSecond bytes (second_stored epoch datagram_id bond_seq bytes now e)
second_stored-HasSecond epoch datagram_id bond_seq bytes now e = record {
  got = refl;
  size = refl;
  stored = take-put _ bytes;
}

pub prepare_entry-IsOf :
    (epoch datagram_id bond_seq now : ℕ) (e : Entry)
    → IsOf epoch datagram_id bond_seq now (prepare_entry epoch datagram_id bond_seq now e)
unfolding prepare_entry
prepare_entry-IsOf epoch datagram_id bond_seq now e = record {
  epoch_same = refl;
  datagram_same = refl;
  bond_same = refl;
  time_same = refl;
}

not_stale :
    (a b c d x y : ℕ) (over : Bool)
    → a ≡ b
    → c ≡ d
    → x ≡ y
    → over ≡ false
    → not (a == b) || not (c == d) || not (x == y) || over ≡ false
not_stale a b c d x y over e f g h = ground (arith, e, f, g, h)

new_idle :
    (a b c d x y : ℕ) (over occupied : Bool)
    → not (a == b) || not (c == d) || not (x == y) || over ≡ false
    → occupied && (a == b && c == d) ≡ false
    → occupied ≡ false
new_idle a b c d x y over occupied h k = ground (arith, h, k)

-- What `prepare_entry` keeps of an entry of the same datagram whose time is not over.
pub prepare_again :
    (epoch datagram_id bond_seq t now : ℕ) (e : Entry)
    → IsOf epoch datagram_id bond_seq t e
    → is_expired now e ≡ false
    → prepare_entry epoch datagram_id bond_seq now e ≡ record e {
      epoch = epoch;
      datagram_id = datagram_id;
      bond_seq = bond_seq;
      timestamp_ns = now;
    }
unfolding prepare_entry
prepare_again epoch datagram_id bond_seq t now e h fresh =
    ap
      (λ (x : Entry). record x {
        epoch = epoch;
        datagram_id = datagram_id;
        bond_seq = bond_seq;
        timestamp_ns = now;
      })
      (if_false
        (not (e.epoch == epoch)
          || not (e.datagram_id == datagram_id)
          || not (e.bond_seq == bond_seq)
          || is_expired now e)
        (clear_entry e) e
        (not_stale e.epoch epoch e.datagram_id datagram_id e.bond_seq bond_seq (is_expired now e)
          h.epoch_same h.datagram_same h.bond_same fresh))

-- What it makes of one in which nothing of the datagram waits.
pub prepare_new :
    (epoch datagram_id bond_seq now : ℕ) (e : Entry)
    → is_waiting epoch datagram_id e ≡ false
    → is_occupied (prepare_entry epoch datagram_id bond_seq now e) ≡ false
unfolding prepare_entry clear_entry
prepare_new epoch datagram_id bond_seq now e h =
    if_intro (λ (x : Entry). is_occupied x ≡ false)
      (not (e.epoch == epoch)
        || not (e.datagram_id == datagram_id)
        || not (e.bond_seq == bond_seq)
        || is_expired now e)
      (λ _. refl)
      (λ same.
        new_idle e.epoch epoch e.datagram_id datagram_id e.bond_seq bond_seq (is_expired now e)
          (is_occupied e) same h)

emit_sizes :
    (eth_len first_len second_len : ℕ) (got_first got_second : Bool) (A : Type 0)
    (waits over whole : A)
    → got_first ≡ true
    → got_second ≡ true
    → 2 ≤ eth_len
    → first_len + second_len + eth_len ≤ ne_frame
    → (if not got_first || not got_second
        then waits
        else if ltb ne_frame (first_len + second_len + (if eth_len == 0 then 14 else eth_len))
        then over
        else whole)
      ≡ whole
emit_sizes eth_len first_len second_len got_first got_second A waits over whole f s h k =
    ground (arith, f, s, h, k)

one_missing : (a b : Bool) → a && b ≡ false → not a || not b ≡ true
one_missing a b h = ground (arith, h)

len_used : (n m : ℕ) → n ≡ m → 2 ≤ m → (if n == 0 then 14 else n) ≡ m
len_used n m e h = ground (arith, e, h)

two_le : (n : ℕ) → 2 ≤ n → leb 2 n ≡ true
two_le n h = ground (arith, h)

joined_whole :
    (eth first second : List ℕ) (e : Entry)
    → HasFirst eth first e
    → HasSecond second e
    → join_bytes (length eth) e ≡ eth ++ first ++ second
joined_whole eth first second e f s = rw (f.size, s.size, f.eth_bytes, f.stored, s.stored) refl

-- An entry with both fragments gives the datagram, and is cleared.
pub emit_both :
    (eth first second : List ℕ) (e : Entry)
    → HasFirst eth first e
    → HasSecond second e
    → IsSmall eth first second
    → emit_join e ≡ (
      clear_entry e,
      joined (crypto_eth_set_ipv4_et (eth ++ first ++ second) (pos (length eth - 2))),
    )
unfolding emit_join
emit_both eth first second e f s h =
    let out : ℕ → Reply = λ n.
      joined (
        if leb 2 n
        then crypto_eth_set_ipv4_et (join_bytes n e) (pos (n - 2))
        else join_bytes n e) in
    emit_sizes e.eth_len e.first_len e.second_len e.got_first e.got_second (Entry × Reply) (e, held)
      (clear_entry e, refused) (clear_entry e, out (if e.eth_len == 0 then 14 else e.eth_len)) f.got
      s.got (omega (arith, f.eth_size, h.eth_some))
      (omega (arith, f.size, s.size, f.eth_size, h.total_max))
    ∙ ap (λ n. (clear_entry e, out n)) (len_used e.eth_len (length eth) f.eth_size h.eth_some)
    ∙ ap (λ r. (clear_entry e, joined r))
        (if_true (leb 2 (length eth)) _ _ (two_le (length eth) h.eth_some))
    ∙ ap (λ b. (clear_entry e, joined (crypto_eth_set_ipv4_et b (pos (length eth - 2)))))
        (joined_whole eth first second e f s)

-- An entry that lacks a fragment is left as it is.
pub emit_waits : (e : Entry) → e.got_first && e.got_second ≡ false → emit_join e ≡ (e, held)
unfolding emit_join
emit_waits e h =
    if_true (not e.got_first || not e.got_second) _ _ (one_missing e.got_first e.got_second h)
