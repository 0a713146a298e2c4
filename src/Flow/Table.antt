-- ===== src/Flow/Table.antt =====
-- src/core/flow/flow_table.c: the thread-local cache of flow states and its two entry points.
-- `ntohl` is the C library's; a call of `calloc` succeeds if `alloc_ok`. A thread's variables are
-- one record, which every function takes and returns. Counts are never negative here.
pub mod Pool
pub mod Direction
pub mod Cache
use ne_encryptor.Prelude.{
  ℕ, zero, suc, ◌+◌, ◌*◌, ◌/◌, ◌%◌, ◌^◌, bit_and, bit_or, bit_xor, Bool, true, false, Option, none,
  some, List, ltb, ◌==◌, ◌&&◌, ◌||◌, ◌-◌, if◌then◌else◌, get_or, set, replicate,
}
use ne_encryptor.Prelude.Int.{ℤ, pos}
use ne_encryptor.Flow.Swrr.{
  FlowKey, zero_key, SwrrState, zero_state, max_interfaces, flow_swrr_pool_same, flow_swrr_reset,
  flow_swrr_pick,
}

abbrev pub swrr_sets : ℕ
swrr_sets = 512

abbrev pub swrr_ways : ℕ
swrr_ways = 4

-- `g_flow_swrr` (`none` before its allocation), `g_default_swrr` and `g_flow_swrr_clock`.
pub record Tls : Type 0 where
  pub sets : Option (List (List SwrrState))
  pub default_swrr : SwrrState
  pub clock : ℕ

abbrev pub empty_set : List SwrrState
empty_set = replicate swrr_ways zero_state

-- The second part is the success of the call.
unfoldable pub flow_table_thread_init : Bool → Tls → Tls × Bool
flow_table_thread_init alloc_ok t = elim t.sets [
  | some _ ↦ (t, true)
  | none ↦
      if alloc_ok
      then (record t { sets = some (replicate swrr_sets empty_set) }, true)
      else (t, false)
]

unfoldable pub flow_table_thread_cleanup : Tls → Tls
flow_table_thread_cleanup t = record { sets = none; default_swrr = zero_state; clock = 0 }

-- Addresses, ports and protocol as the packet has them.
pub record FiveTuple : Type 0 where
  pub src_ip : ℕ
  pub dst_ip : ℕ
  pub src_port : ℕ
  pub dst_port : ℕ
  pub protocol : ℕ

-- The same connection, seen from the other end.
abbrev pub swap_ends : FiveTuple → FiveTuple
swap_ends p = record p {
  src_ip = p.dst_ip;
  dst_ip = p.src_ip;
  src_port = p.dst_port;
  dst_port = p.src_port;
}

unfoldable pub normalize_flow_5tuple : (ℕ → ℕ) → FiveTuple → FiveTuple
normalize_flow_5tuple ntohl p =
    let a = ntohl p.src_ip in
    let b = ntohl p.dst_ip in
    if ltb b a || (a == b && ltb p.dst_port p.src_port) then swap_ends p else p

-- `hash ^= hash >> s; hash *= m`, on 32 bits.
abbrev pub mix : ℕ → ℕ → ℕ → ℕ
mix s m hash = (bit_xor hash (hash / 2 ^ s) * m) % 2 ^ 32

unfoldable pub flow_hash : FiveTuple → ℕ
flow_hash p =
    let ends = bit_xor p.src_ip p.dst_ip in
    let ports = bit_xor ends (bit_or (p.src_port * 2 ^ 16) p.dst_port) in
    let hash = mix 13 0xc2b2ae35 (mix 16 0x85ebca6b (bit_xor ports p.protocol)) in
    bit_xor hash (hash / 2 ^ 16)

abbrev pub key_of : FiveTuple → FlowKey
key_of p = record {
  src_ip = p.src_ip;
  dst_ip = p.dst_ip;
  src_port = p.src_port;
  dst_port = p.dst_port;
  protocol = p.protocol;
}

abbrev pub key_equal : FlowKey → FlowKey → Bool
key_equal a b =
    a.src_ip == b.src_ip
    && a.dst_ip == b.dst_ip
    && a.src_port == b.src_port
    && a.dst_port == b.dst_port
    && a.protocol == b.protocol

-- The search of a set from `way` on: the way that holds the key, or else the way to give up.
unfoldable pub find_way : List SwrrState → FlowKey → ℕ → ℕ → ℕ → Option ℕ × ℕ
find_way set key zero way victim = (none, victim)
find_way set key (suc n) way victim =
    let e = get_or set way zero_state in
    let v = get_or set victim zero_state in
    let victim' = if e.valid then (if ltb e.stamp v.stamp then way else victim) else way in
    let rest = find_way set key n (way + 1) victim' in
    if e.valid && key_equal e.key key then (some way, victim) else rest

-- The state to pick from: the one found, if its pool is the same, and a new one otherwise.
unfoldable pub choose_from :
    List SwrrState → FlowKey → ℕ → List ℤ → ℕ → Option ℕ × ℕ → ℕ × SwrrState
choose_from ways key hash allowed_wans allowed_count (none, victim) =
    (victim, flow_swrr_reset key hash allowed_wans allowed_count)
choose_from ways key hash allowed_wans allowed_count (some way, victim) = (
  way,
  (if flow_swrr_pool_same (get_or ways way zero_state) allowed_wans allowed_count
      then get_or ways way zero_state
      else flow_swrr_reset key hash allowed_wans allowed_count),
)

unfoldable pub choose_state : List SwrrState → FlowKey → ℕ → List ℤ → ℕ → ℕ × SwrrState
choose_state ways key hash allowed_wans allowed_count =
    choose_from ways key hash allowed_wans allowed_count (find_way ways key swrr_ways 0 0)

abbrev pub capped : ℕ → ℕ
capped n = if ltb max_interfaces n then max_interfaces else n

unfoldable pub pick_wan_per_packet : Tls → List ℤ → Option (List ℤ) → ℕ → Tls × ℤ
pick_wan_per_packet t allowed_wans weights allowed_count =
    let n = capped allowed_count in
    let s = t.default_swrr in
    let s' =
      if flow_swrr_pool_same s allowed_wans n
      then s
      else flow_swrr_reset zero_key 0 allowed_wans n in
    let (s'', wan) = flow_swrr_pick s' allowed_wans weights n in
    if allowed_count == 0 then (t, pos 0) else (record t { default_swrr = s'' }, wan)

-- The pick in the set of the flow, whose hash is `hash`; `sets` is the allocated table.
unfoldable pub pick_in_set :
    Tls → List (List SwrrState) → FlowKey → ℕ → List ℤ → Option (List ℤ) → ℕ → Tls × ℤ
pick_in_set t sets key hash allowed_wans weights n =
    let idx = bit_and hash (swrr_sets - 1) in
    let ways = get_or sets idx empty_set in
    let (way, s) = choose_state ways key hash allowed_wans n in
    let clock = (t.clock + 1) % 2 ^ 64 in
    let (s', wan) = flow_swrr_pick (record s { stamp = clock }) allowed_wans weights n in
    (record t { sets = some (set sets idx (set ways way s')); clock = clock }, wan)

-- What follows the allocation: without a table every flow shares the default state.
unfoldable pub pick_prepared : Tls → FiveTuple → List ℤ → Option (List ℤ) → ℕ → Tls × ℤ
pick_prepared t p allowed_wans weights n = elim t.sets [
  | none ↦ pick_wan_per_packet t allowed_wans weights n
  | some sets ↦ pick_in_set t sets (key_of p) (flow_hash p) allowed_wans weights n
]

unfoldable pub pick_wan_per_flow_packet :
    (ℕ → ℕ) → Bool → Tls → FiveTuple → List ℤ → Option (List ℤ) → ℕ → Tls × ℤ
pick_wan_per_flow_packet ntohl alloc_ok t p allowed_wans weights allowed_count =
    if allowed_count == 0
    then (t, pos 0)
    else pick_prepared (flow_table_thread_init alloc_ok t).0 (normalize_flow_5tuple ntohl p)
        allowed_wans weights (capped allowed_count)
