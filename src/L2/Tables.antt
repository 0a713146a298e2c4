-- ===== src/L2/Tables.antt =====
-- src/crypto/pqc/pqc_l2_option.c: the fragment tables of all workers, and the calls that reach them.
use ne_encryptor.Prelude.{
  ℕ, Bool, true, false, Option, none, some, List, [], ◌==◌, ◌&&◌, ◌||◌, not, ltb, if◌then◌else◌,
  get_or, set, replicate, take,
}
use ne_encryptor.Prelude.Int.{ℤ, pos, pos_part, ltb_ℤ}
use ne_encryptor.Eth.{crypto_pkt_is_ipv4}
use ne_encryptor.Policy.Inbound.{max_profiles}
use ne_encryptor.Reorder.Worker.{crypto_workers}
use ne_encryptor.L2.{ShimFields, kind_full, kind_frag1}
use ne_encryptor.L2.Reasm.{
  FragTable, zero_entry, table_size, Reply, refused, held, joined, reassemble, frag_gc_table,
}
use ne_encryptor.L2.Packet.{Scrypt, CryptoCtx, do_decrypt_udp}

-- `g_tables`, by profile and worker.
abbrev pub Tables : Type 0
Tables = List (List (Option FragTable))

abbrev pub empty_frags : FragTable
empty_frags = record { gc_cursor = 0; entries = replicate table_size zero_entry }

-- An index out of range counts as 0.
abbrev pub clamp_index : ℤ → ℤ → ℕ
clamp_index i n = if ltb_ℤ i (pos 0) || not (ltb_ℤ i n) then 0 else pos_part i

abbrev pub table_of : Tables → ℕ → ℕ → Option FragTable
table_of tables p w = get_or (get_or tables p []) w none

abbrev pub put_table : Tables → ℕ → ℕ → FragTable → Tables
put_table tables p w t = set tables p (set (get_or tables p []) w (some t))

-- `create` together with the success of `calloc`; the tables, and the one that was found.
unfoldable pub opt_table : ℤ → ℤ → Bool → Bool → Tables → Tables × Option FragTable
opt_table profile_slot worker_idx create alloc_ok tables =
    let p = clamp_index profile_slot (pos max_profiles) in
    let w = clamp_index worker_idx crypto_workers in
    elim (table_of tables p w) [
      | some t ↦ (tables, some t)
      | none ↦
          if create && alloc_ok
          then (put_table tables p w empty_frags, some empty_frags)
          else (tables, none)
    ]

-- What `l2_udp_reasm` gives back: the reply, and the epoch and number that it reports with a packet.
abbrev pub Reported : Type 0
Reported = Reply × Option ShimFields

abbrev pub report : ShimFields → Reply → Reported
report shim refused = (refused, none)
report shim held = (held, none)
report shim (joined out) = (joined out, some shim)

-- The branch of a fragment, with the table of the worker.
unfoldable pub reasm_in :
    ℤ → ℤ → Tables → Option FragTable → List ℕ → ℕ → ShimFields → ℕ → Tables × Reported
reasm_in profile_slot worker_idx tables none packet n shim now = (tables, (refused, none))
reasm_in profile_slot worker_idx tables (some ft) packet n shim now =
    let p = clamp_index profile_slot (pos max_profiles) in
    let w = clamp_index worker_idx crypto_workers in
    let (ft', reply) = reassemble ft packet n shim.epoch shim.datagram_id shim.seq shim.kind now in
    (put_table tables p w ft', report shim reply)

-- The branches on the kind, after the decryption.
unfoldable pub reasm_kind : ℤ → ℤ → Bool → Tables → List ℕ → ℕ → ShimFields → ℕ → Tables × Reported
reasm_kind profile_slot worker_idx alloc_ok tables packet n shim now =
    let (tables', found) = opt_table profile_slot worker_idx true alloc_ok tables in
    if shim.kind == kind_full
    then (if crypto_pkt_is_ipv4 packet n
        then (tables, (joined (take n packet), some shim))
        else (tables, (refused, none)))
    else if ltb kind_frag1 shim.kind
    then (tables, (refused, none))
    else reasm_in profile_slot worker_idx tables' found packet n shim now

unfoldable pub udp_reasm :
    Scrypt → CryptoCtx → ℤ → ℤ → Bool → Tables → List ℕ → ℕ → ℕ → Tables × Reported
udp_reasm c ctx profile_slot worker_idx alloc_ok tables packet pkt_len now =
    elim (do_decrypt_udp c ctx packet pkt_len) [
      | none ↦ (tables, (refused, none))
      | some (plain, n, shim) ↦ reasm_kind profile_slot worker_idx alloc_ok tables plain n shim now
    ]

unfoldable pub udp_frag_gc : ℤ → ℤ → ℕ → Tables → Tables
udp_frag_gc profile_slot worker_idx now tables =
    let (tables', found) = opt_table profile_slot worker_idx false false tables in
    elim found [
      | none ↦ tables'
      | some ft ↦
          put_table tables' (clamp_index profile_slot (pos max_profiles))
            (clamp_index worker_idx crypto_workers) (frag_gc_table now ft)
    ]
