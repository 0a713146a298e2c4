-- ===== src/L2/Tests.antt =====
-- src/crypto/pqc/pqc_l2_option.c: a datagram in two fragments, on an empty table.
use ne_encryptor.Prelude.{
  ◌<◌, ◌⊎◌, ℕ, ◌≡◌, refl, ap, none, some, List, [], ◌∷◌, ◌++◌, arith, replicate, length-replicate,
  get_or-replicate, if◌then◌else◌, leb,
}
use ne_encryptor.Prelude.Int.{pos}
use ne_encryptor.Eth.{
  crypto_eth_set_ipv4_et, crypto_eth_l2_prefix_len, crypto_eth_inner_et_off, eth_read_et,
  eth_match_et,
}
use ne_encryptor.L2.{ShimFields, read_shim, write_shim, kind_full}
use ne_encryptor.L2.Shim.{IsShim, read_shim-write_shim}
use ne_encryptor.L2.Reasm.{
  gc_slice, frag_gc_table, entry_at, FragTable, zero_entry, table_size, reassemble, held, joined,
  wire_prefix_len,
}
use ne_encryptor.L2.Pick.{is_hit, place}
use ne_encryptor.L2.Sweep.{swept, frag_gc_table_sweeps}
use ne_encryptor.L2.Both.{IsFragment, IsTimely}
use ne_encryptor.L2.Join.{IsSmall}
use ne_encryptor.L2.Arrive.{IsSplit, IsNew, reassemble_in_order}
use ne_encryptor.L2.Reverse.{reassemble_in_reverse}

abbrev fields : ShimFields
fields = record { kind = 1; epoch = 0x12345678; seq = 0xffffffff; datagram_id = 77 }

fields-IsShim : IsShim fields
fields-IsShim = record {
  kind = omega arith;
  epoch = omega arith;
  seq = omega arith;
  datagram_id = omega arith;
}

read_shim-write_shim_example :
    read_shim (write_shim fields ++ 9 ∷ [])
    ≡ (if leb fields.kind kind_full then some fields else none)
read_shim-write_shim_example = read_shim-write_shim fields (9 ∷ []) fields-IsShim

-- The header of a fragment, which still has the ethertype of the wire.
abbrev header : List ℕ
header = replicate 12 0xaa ++ 0x10 ∷ 0x4b ∷ []

-- An IPv4 header without options, and the start of a payload.
abbrev ip_start : List ℕ
ip_start = 0x45 ∷ replicate 8 0 ++ 17 ∷ replicate 18 1

abbrev rest_bytes : List ℕ
rest_bytes = 7 ∷ 8 ∷ 9 ∷ []

abbrev frag0 : List ℕ
frag0 = header ++ ip_start

abbrev frag1 : List ℕ
frag1 = header ++ rest_bytes

parse0 : wire_prefix_len frag0 42 ≡ some 14
unfolding wire_prefix_len crypto_eth_l2_prefix_len crypto_eth_inner_et_off eth_read_et eth_match_et
parse0 = refl

parse1 : wire_prefix_len frag1 17 ≡ some 14
unfolding wire_prefix_len crypto_eth_l2_prefix_len crypto_eth_inner_et_off eth_read_et eth_match_et
parse1 = refl

frag0-IsFragment : IsFragment frag0 42 header ip_start
frag0-IsFragment = record {
  parsed = parse0;
  eth_max = omega arith;
  long = omega arith;
  eth_bytes = refl;
  inner_bytes = refl;
}

frag1-IsFragment : IsFragment frag1 17 header rest_bytes
frag1-IsFragment = record {
  parsed = parse1;
  eth_max = omega arith;
  long = omega arith;
  eth_bytes = refl;
  inner_bytes = refl;
}

ip_start-IsSmall : IsSmall header ip_start rest_bytes
ip_start-IsSmall = record {
  eth_some = omega arith;
  eth_max = omega arith;
  first_max = omega arith;
  second_max = omega arith;
  total_max = omega arith;
}

frags-IsSplit : IsSplit frag0 42 frag1 17 header header ip_start rest_bytes
frags-IsSplit = record {
  first_frag = frag0-IsFragment;
  second_frag = frag1-IsFragment;
  start = refl;
  small = ip_start-IsSmall;
}

abbrev empty_table : FragTable
empty_table = record { gc_cursor = 0; entries = replicate table_size zero_entry }

empty_table-IsNew : IsNew 5 77 1000 empty_table
empty_table-IsNew = record {
  size = length-replicate table_size zero_entry;
  no_hit = λ x. ap (is_hit 1000 5 77) (get_or-replicate table_size x zero_entry);
}

soon : IsTimely 1000 150000000
soon = record { after = omega arith; close = omega arith; machine = omega arith }

reassemble_in_order_example :
    let one = reassemble empty_table frag0 42 5 77 9 0 1000 in
    (one.1 ≡ held)
    × ((reassemble one.0 frag1 17 5 77 9 1 150000000).1
        ≡ joined (crypto_eth_set_ipv4_et (header ++ ip_start ++ rest_bytes) (pos 12)))
reassemble_in_order_example =
    reassemble_in_order 5 77 9 1000 150000000 header header ip_start rest_bytes empty_table frag0 42
      frag1 17 frags-IsSplit empty_table-IsNew soon

reassemble_in_reverse_example :
    let one = reassemble empty_table frag1 17 5 77 9 1 1000 in
    (one.1 ≡ held)
    × ((reassemble one.0 frag0 42 5 77 9 0 150000000).1
        ≡ joined (crypto_eth_set_ipv4_et (header ++ ip_start ++ rest_bytes) (pos 12)))
reassemble_in_reverse_example =
    reassemble_in_reverse 5 77 9 1000 150000000 header header ip_start rest_bytes empty_table frag0
      42 frag1 17 frags-IsSplit empty_table-IsNew soon

frag_gc_table_sweeps_example :
    ((j : ℕ)
      → j < gc_slice
      → entry_at (frag_gc_table 9000 empty_table).entries (place 0 j)
        ≡ swept 9000 (entry_at empty_table.entries (place 0 j)))
    × ((entry_at (frag_gc_table 9000 empty_table).entries 3000 ≡ entry_at empty_table.entries 3000)
        ⊎ (entry_at (frag_gc_table 9000 empty_table).entries 3000
            ≡ swept 9000 (entry_at empty_table.entries 3000)))
frag_gc_table_sweeps_example =
    frag_gc_table_sweeps 9000 3000 empty_table (length-replicate table_size zero_entry)
