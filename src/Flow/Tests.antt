-- ===== src/Flow/Tests.antt =====
-- src/core/flow/flow_table.c: runs of the scheduler, and its theorems at one pool of two WANs.
use ne_encryptor.Prelude.{
  ℕ, zero, suc, ◌+◌, ◌*◌, ◌^◌, ap, ◌<◌, ◌≡◌, ◌≢◌, refl, sym, ◌∙◌, true, false, some, none, List, [],
  ◌∷◌, arith, get_or, length, replicate, get_or-replicate, length-replicate,
}
use mathlib.Core.Bool.{true≢false}
use ne_encryptor.Prelude.Int.{ℤ, pos, pos_part, neg_part, ◌+ℤ◌, ◌-ℤ◌}
use ne_encryptor.Flow.Swrr.{
  zero_key, zero_state, SwrrState, flow_swrr_pick, flow_swrr_reset, pick_earned, settle, earn,
  earn_credit, earn_total, richest, better,
}
use ne_encryptor.Flow.Swrr.Credits.{credit}
use ne_encryptor.Flow.Swrr.Fair.{serve, times, AreDistinct, serve_not_ahead, serve_full_round}
use ne_encryptor.Flow.Swrr.Range.{serve_each, serve_each_in_range}
use ne_encryptor.Flow.Swrr.Step.{IsPool, earned}
use ne_encryptor.Flow.Table.{
  Tls, FiveTuple, swap_ends, empty_set, swrr_sets, swrr_ways, pick_wan_per_flow_packet, pick_in_set,
}
use ne_encryptor.Flow.Table.Direction.{pick-swap_ends}
use ne_encryptor.Flow.Table.Pool.{IsIn, pick-IsIn}
use ne_encryptor.Flow.Table.Cache.{IsCache, entry, set_of, pick_in_set_caches}

abbrev two_wans : List ℤ
two_wans = pos 3 ∷ pos 5 ∷ []

abbrev two_to_one : List ℕ
two_to_one = 2 ∷ 1 ∷ []

abbrev fresh : SwrrState
fresh = flow_swrr_reset zero_key 7 two_wans 2

-- Credits 2 and 1, then a tie that the rotation breaks, then the first WAN again.
serve_run : (serve 3 fresh two_wans two_to_one 2).1 ≡ pos 3 ∷ pos 5 ∷ pos 3 ∷ []
unfolding serve flow_swrr_pick pick_earned settle earn earn_credit earn_total richest better
    flow_swrr_reset ◌+ℤ◌ ◌-ℤ◌
serve_run = refl

two_to_one-IsPool : IsPool two_to_one 2
two_to_one-IsPool = record { several = omega arith; eligible = eligible }
  where
    eligible : (i : ℕ) → i < 2 → 0 < get_or two_to_one i 0
    eligible zero h = omega arith
    eligible (suc zero) h = omega arith
    eligible (suc (suc i)) h = absurd (omega arith)

two_wans_distinct : AreDistinct two_wans 2
two_wans_distinct zero zero h k e = refl
two_wans_distinct zero (suc zero) h k e = absurd (ground arith)
two_wans_distinct (suc zero) zero h k e = absurd (ground arith)
two_wans_distinct (suc zero) (suc zero) h k e = refl
two_wans_distinct (suc (suc i)) j h k e = absurd (omega arith)
two_wans_distinct i (suc (suc j)) h k e = absurd (omega arith)

serve_not_ahead_example : 3 * times (pos 3) (serve 5 fresh two_wans two_to_one 2).1 < 5 * 2 + 3
serve_not_ahead_example =
    serve_not_ahead zero_key 7 two_wans two_to_one 2 two_to_one-IsPool (omega arith)
      two_wans_distinct 5 0 (omega arith)

serve_full_round_example :
    (times (pos 3) (serve 3 fresh two_wans two_to_one 2).1 ≡ 2)
    × (credit (serve 3 fresh two_wans two_to_one 2).0.current 0 ≡ pos 0)
serve_full_round_example =
    serve_full_round zero_key 7 two_wans two_to_one 2 two_to_one-IsPool (omega arith)
      two_wans_distinct 0 (omega arith)

serve_each_in_range_example :
    let c = (serve_each (two_to_one ∷ two_to_one ∷ []) fresh two_wans 2).current in
    (neg_part (credit c 1) < 2 ^ 63)
    × (pos_part (credit c 1) < 2 ^ 63)
    × (neg_part (credit (earned two_to_one 2 c) 1) < 2 ^ 63)
    × (pos_part (credit (earned two_to_one 2 c) 1) < 2 ^ 63)
serve_each_in_range_example =
    serve_each_in_range zero_key 7 two_wans 2 9 (two_to_one ∷ two_to_one ∷ []) two_to_one 1
      (omega arith) (omega arith) (omega arith)
      (two_to_one-IsPool, omega arith, (two_to_one-IsPool, omega arith, tt)) two_to_one-IsPool
      (omega arith) (omega arith)

abbrev web : FiveTuple
web = record { src_ip = 10; dst_ip = 7; src_port = 50000; dst_port = 443; protocol = 17 }

abbrev no_table : Tls
no_table = record { sets = none; default_swrr = fresh; clock = 0 }

abbrev identity : ℕ → ℕ
identity n = n

pick-swap_ends_example :
    pick_wan_per_flow_packet identity true no_table (swap_ends web) two_wans none 2
    ≡ pick_wan_per_flow_packet identity true no_table web two_wans none 2
pick-swap_ends_example = pick-swap_ends identity web (λ e. e) true no_table two_wans none 2

pick-IsIn_example :
    IsIn two_wans 2 (pick_wan_per_flow_packet identity true no_table web two_wans none 2).1
pick-IsIn_example = pick-IsIn identity true no_table web two_wans none 2 (omega arith)

abbrev empty_table : List (List SwrrState)
empty_table = replicate swrr_sets empty_set

no_entry :
    (i w : ℕ) → i < swrr_sets → (get_or (get_or empty_table i empty_set) w zero_state).valid ≡ false
no_entry i w h =
    ap (λ row. (get_or row w zero_state).valid) (get_or-replicate swrr_sets i empty_set)
    ∙ ap (λ s. s.valid) (get_or-replicate swrr_ways w zero_state)

empty_table-IsCache : IsCache empty_table
empty_table-IsCache = (
  length-replicate swrr_sets empty_set,
  λ i h. ap length (get_or-replicate swrr_sets i empty_set),
  λ i h a b la lb va vb same. absurd (true≢false (sym va ∙ no_entry i a h)),
)

pick_in_set_caches_example :
    let t' = (pick_in_set no_table empty_table zero_key 5 two_wans none 2).0 in
    (sets' : List (List SwrrState)) × (way : ℕ) × (t'.sets ≡ some sets')
    × (way < swrr_ways)
    × (t'.default_swrr ≡ fresh)
    × ((entry sets' (set_of 5) way).valid ≡ true)
    × ((entry sets' (set_of 5) way).key ≡ zero_key)
    × ((entry sets' (set_of 5) way).stamp ≡ t'.clock)
    × ((i w : ℕ) → (set_of 5 ≡ i → way ≢ w) → entry sets' i w ≡ entry empty_table i w)
    × IsCache sets'
pick_in_set_caches_example =
    pick_in_set_caches no_table empty_table zero_key 5 two_wans none 2 empty_table-IsCache
