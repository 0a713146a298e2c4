-- ===== src/Flow/Table/Direction.antt =====
-- src/core/flow/flow_table.c: the two directions of a connection.
use ne_encryptor.Prelude.{ℕ, ◌≡◌, Bool, Option, List, arith}
use ne_encryptor.Prelude.Int.{ℤ}
use ne_encryptor.Flow.Table.{
  Tls, FiveTuple, swap_ends, normalize_flow_5tuple, pick_wan_per_flow_packet,
}

module _ (ntohl : ℕ → ℕ) (p : FiveTuple)
    (injective : ntohl p.src_ip ≡ ntohl p.dst_ip → p.src_ip ≡ p.dst_ip) where
  normalize-swap_ends : normalize_flow_5tuple ntohl (swap_ends p) ≡ normalize_flow_5tuple ntohl p
  unfolding normalize_flow_5tuple
  normalize-swap_ends = ground arith

  -- Where `ntohl` tells the two addresses apart, a packet and one that goes the other way make
  -- the same pick and leave the same thread state.
  pub pick-swap_ends :
      (alloc_ok : Bool) (t : Tls) (aw : List ℤ) (weights : Option (List ℤ)) (n : ℕ)
      → pick_wan_per_flow_packet ntohl alloc_ok t (swap_ends p) aw weights n
        ≡ pick_wan_per_flow_packet ntohl alloc_ok t p aw weights n
  unfolding pick_wan_per_flow_packet
  pick-swap_ends alloc_ok t aw weights n = rw normalize-swap_ends
