-- ===== src/L2/Reasm.antt =====
-- src/crypto/pqc/pqc_l2_option.c: the table where a fragment of a UDP packet waits for the other.
-- The time in nanoseconds is an argument.
use ne_encryptor.Prelude.{
  ℕ, zero, suc, ◌+◌, ◌-◌, ◌*◌, ◌/◌, ◌%◌, ◌^◌, Bool, true, false, Option, none, some, List, ◌++◌,
  ltb, leb, ◌==◌, ◌&&◌, ◌||◌, not, if◌then◌else◌, get_or, set, replicate, length, take, bit_xor,
  bit_and,
}
use ne_encryptor.Prelude.Int.{pos}
use ne_encryptor.Eth.{byte, crypto_eth_l2_prefix_len, crypto_eth_set_ipv4_et}
use ne_encryptor.L2.{slice, put}

abbrev pub table_size : ℕ
table_size = 4096

abbrev pub timeout_ns : ℕ
timeout_ns = 200 * 1000000

abbrev pub frag_max : ℕ
frag_max = 1600

abbrev pub hdr_max : ℕ
hdr_max = 18

abbrev pub ne_frame : ℕ
ne_frame = 2048

pub record Entry : Type 0 where
  pub epoch : ℕ
  pub datagram_id : ℕ
  pub bond_seq : ℕ
  pub first_len : ℕ
  pub second_len : ℕ
  pub timestamp_ns : ℕ
  pub eth_hdr : List ℕ
  pub eth_len : ℕ
  pub got_first : Bool
  pub got_second : Bool
  pub first : List ℕ
  pub second : List ℕ

abbrev pub zero_entry : Entry
zero_entry = record {
  epoch = 0;
  datagram_id = 0;
  bond_seq = 0;
  first_len = 0;
  second_len = 0;
  timestamp_ns = 0;
  eth_hdr = replicate hdr_max 0;
  eth_len = 0;
  got_first = false;
  got_second = false;
  first = replicate frag_max 0;
  second = replicate frag_max 0;
}

pub record FragTable : Type 0 where
  pub gc_cursor : ℕ
  pub entries : List Entry

-- The bytes stay.
unfoldable pub clear_entry : Entry → Entry
clear_entry e = record e {
  epoch = 0;
  datagram_id = 0;
  bond_seq = 0;
  first_len = 0;
  second_len = 0;
  timestamp_ns = 0;
  eth_len = 0;
  got_first = false;
  got_second = false;
}

-- `now - entry->timestamp_ns`
abbrev pub age : ℕ → Entry → ℕ
age now e = (now + 2 ^ 64 - e.timestamp_ns) % 2 ^ 64

abbrev pub is_occupied : Entry → Bool
is_occupied e = e.got_first || e.got_second

abbrev pub is_expired : ℕ → Entry → Bool
is_expired now e = is_occupied e && ltb timeout_ns (age now e)

unfoldable pub prepare_entry : ℕ → ℕ → ℕ → ℕ → Entry → Entry
prepare_entry epoch datagram_id bond_seq now e =
    let stale =
      not (e.epoch == epoch)
      || not (e.datagram_id == datagram_id)
      || not (e.bond_seq == bond_seq)
      || is_expired now e in
    record (if stale then clear_entry e else e) {
      epoch = epoch;
      datagram_id = datagram_id;
      bond_seq = bond_seq;
      timestamp_ns = now;
    }

-- The first free place that was probed, and the oldest of the others with its age.
pub record Probe : Type 0 where
  pub empty_idx : Option ℕ
  pub oldest_idx : Option ℕ
  pub oldest_age : ℕ

abbrev pub first_free : Option ℕ → ℕ → Option ℕ
first_free none idx = some idx
first_free (some i) idx = some i

abbrev pub older : ℕ → ℕ → Probe → Probe
older idx a p = elim p.oldest_idx [
  | none ↦ record p { oldest_idx = some idx; oldest_age = a }
  | some i ↦ if ltb p.oldest_age a then record p { oldest_idx = some idx; oldest_age = a } else p
]

abbrev pub probed : Probe → ℕ → ℕ
probed p base = elim p.empty_idx [
  | some i ↦ i
  | none ↦ elim p.oldest_idx [ none ↦ base | some i ↦ i ]
]

abbrev pub entry_at : List Entry → ℕ → Entry
entry_at entries i = get_or entries i zero_entry

-- The entries after the probe of the place `idx`: an expired one is cleared.
abbrev pub expire_at : ℕ → List Entry → ℕ → List Entry
expire_at now entries idx =
    if is_expired now (entry_at entries idx)
    then set entries idx (clear_entry (entry_at entries idx))
    else entries

abbrev pub holds : ℕ → ℕ → Entry → Bool
holds epoch datagram_id e = e.epoch == epoch && e.datagram_id == datagram_id

-- The loop of `opt_pick_slot`, over `n` places from the `i`-th on.
unfoldable pub pick_loop : ℕ → ℕ → ℕ → ℕ → ℕ → ℕ → List Entry → Probe → List Entry × ℕ
pick_loop zero epoch datagram_id now base i entries p = (entries, probed p base)
pick_loop (suc n) epoch datagram_id now base i entries p =
    let idx = (base + i) % table_size in
    let e = entry_at entries idx in
    let occupied = is_occupied e && not (is_expired now e) in
    let p' =
      if not occupied
      then record p { empty_idx = first_free p.empty_idx idx }
      else older idx (age now e) p in
    let rest = pick_loop n epoch datagram_id now base (i + 1) (expire_at now entries idx) p' in
    if occupied && holds epoch datagram_id e then (entries, idx) else rest

abbrev pub base_of : ℕ → ℕ → ℕ
base_of epoch datagram_id = bit_xor datagram_id (epoch * 0x9e3779b9 % 2 ^ 32) % table_size

unfoldable pub pick_slot : ℕ → ℕ → ℕ → List Entry → List Entry × ℕ
pick_slot epoch datagram_id now entries =
    pick_loop 8 epoch datagram_id now (base_of epoch datagram_id) 0 entries
      (record { empty_idx = none; oldest_idx = none; oldest_age = 0 })

unfoldable pub store_first : ℕ → ℕ → ℕ → List ℕ → List ℕ → ℕ → Entry → Option Entry
store_first epoch datagram_id bond_seq eth bytes now e =
    let e' = prepare_entry epoch datagram_id bond_seq now e in
    if ltb frag_max (length bytes)
    then none
    else if length eth == 0 || ltb hdr_max (length eth)
    then none
    else some (record e' {
      first_len = length bytes;
      first = put e'.first 0 bytes;
      eth_hdr = put e'.eth_hdr 0 eth;
      eth_len = length eth;
      got_first = true;
    })

unfoldable pub store_second : ℕ → ℕ → ℕ → List ℕ → ℕ → Entry → Option Entry
store_second epoch datagram_id bond_seq bytes now e =
    let e' = prepare_entry epoch datagram_id bond_seq now e in
    if ltb frag_max (length bytes)
    then none
    else some
        (record e' { second_len = length bytes; second = put e'.second 0 bytes; got_second = true })

-- What a call gives back: -1, 0, or 1 with the packet.
pub data Reply : Type 0 where
  refused : Reply
  held : Reply
  joined : List ℕ → Reply

abbrev pub join_bytes : ℕ → Entry → List ℕ
join_bytes eth_len e =
    take eth_len e.eth_hdr ++ take e.first_len e.first ++ take e.second_len e.second

unfoldable pub emit_join : Entry → Entry × Reply
emit_join e =
    let eth_len = if e.eth_len == 0 then 14 else e.eth_len in
    if not e.got_first || not e.got_second
    then (e, held)
    else if ltb ne_frame (e.first_len + e.second_len + eth_len)
    then (clear_entry e, refused)
    else (
      clear_entry e,
      joined (
          if leb 2 eth_len
          then crypto_eth_set_ipv4_et (join_bytes eth_len e) (pos (eth_len - 2))
          else join_bytes eth_len e),
    )

-- The end of a call: the entry that was stored goes into its place, with what `opt_emit_join` says.
abbrev pub put_entry : FragTable → List Entry → ℕ → Entry → FragTable
put_entry ft entries idx e = record ft { entries = set entries idx e }

unfoldable pub settle_entry : FragTable → List Entry → ℕ → Option Entry → FragTable × Reply
settle_entry ft entries idx none = (record ft { entries = entries }, refused)
settle_entry ft entries idx (some e) =
    let (e', reply) = emit_join e in (put_entry ft entries idx e', reply)

-- The tests on the IPv4 header of the first fragment.
abbrev pub is_ipv4_start : List ℕ → Bool
is_ipv4_start inner =
    let ip_hdr_len = bit_and (byte inner 0) 0x0f * 4 in
    not (ltb (length inner) 20 || not (byte inner 0 / 2 ^ 4 == 4))
    && not (ltb ip_hdr_len 20 || ltb (length inner) ip_hdr_len)

-- The branches on the index of the fragment; `e` is the entry of the place `idx`.
unfoldable pub reassemble_at :
    FragTable → List Entry → ℕ → ℕ → ℕ → ℕ → ℕ → List ℕ → List ℕ → ℕ → FragTable × Reply
reassemble_at ft entries idx epoch datagram_id bond_seq frag_index eth inner now =
    let e = entry_at entries idx in
    let e' = if is_expired now e && holds epoch datagram_id e then clear_entry e else e in
    if frag_index == 0
    then if not (is_ipv4_start inner)
      then (record ft { entries = entries }, refused)
      else settle_entry ft entries idx (store_first epoch datagram_id bond_seq eth inner now e)
    else if frag_index == 1
    then settle_entry ft (set entries idx e') idx
        (store_second epoch datagram_id bond_seq inner now e')
    else (record ft { entries = entries }, refused)

-- `l2_wire_prefix_len`
unfoldable pub wire_prefix_len : List ℕ → ℕ → Option ℕ
wire_prefix_len pkt pkt_len = elim (crypto_eth_l2_prefix_len pkt pkt_len) [
  | none ↦ none
  | some et_off ↦ some (et_off + 2)
]

unfoldable pub reassemble : FragTable → List ℕ → ℕ → ℕ → ℕ → ℕ → ℕ → ℕ → FragTable × Reply
reassemble ft pkt pkt_len epoch datagram_id bond_seq frag_index now =
    elim (wire_prefix_len pkt pkt_len) [
      | none ↦ (ft, refused)
      | some wire_eth ↦
          let (entries, idx) = pick_slot epoch datagram_id now ft.entries in
          if ltb hdr_max wire_eth || ltb pkt_len wire_eth
          then (ft, refused)
          else reassemble_at ft entries idx epoch datagram_id bond_seq frag_index
              (take wire_eth pkt) (slice (pkt_len - wire_eth) wire_eth pkt) now
    ]

-- The loop of `opt_frag_gc_table`, over `n` places from the `k`-th on.
unfoldable pub gc_entries : ℕ → ℕ → ℕ → ℕ → List Entry → List Entry
gc_entries zero now start k entries = entries
gc_entries (suc n) now start k entries =
    gc_entries n now start (k + 1) (expire_at now entries ((start + k) % table_size))

abbrev pub gc_slice : ℕ
gc_slice = 256

unfoldable pub frag_gc_table : ℕ → FragTable → FragTable
frag_gc_table now ft = record ft {
  gc_cursor = (ft.gc_cursor + gc_slice) % table_size;
  entries = gc_entries gc_slice now ft.gc_cursor 0 ft.entries;
}
