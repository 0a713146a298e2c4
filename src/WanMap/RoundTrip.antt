-- ===== src/WanMap/RoundTrip.antt =====
-- src/db/config.c: from one number of a WAN to the other.
use ne_encryptor.Prelude.{
  ℕ, zero, suc, ◌+◌, ◌≡◌, refl, true, false, some, List, [], ◌∷◌, arith, get_elem?, take,
}
use ne_encryptor.Prelude.Int.{pos, ltb_ℤ}
use ne_encryptor.WanMap.{
  WanConfig, dataplane_of, config_wan_live, config_count_dataplane_wans, config_wan_cfg_to_dp,
  find_dp, config_wan_dp_to_cfg,
}

find_dp_lem :
    (wans : List WanConfig) (n i j seen t : ℕ)
    → dataplane_of (get_elem? wans n) ≡ true
    → t ≡ seen + config_count_dataplane_wans (take n wans)
    → j ≡ i + n
    → find_dp wans i seen t ≡ some j
unfolding find_dp config_count_dataplane_wans
find_dp_lem [] n i j seen t h e k = ground (arith, h)
find_dp_lem (wan ∷ wans) zero i j seen t h e k = ground (arith, h, e, k)
find_dp_lem (wan ∷ wans) (suc n) i j seen t h e k = ground (
  arith,
  e,
  k,
  find_dp_lem wans n (i + 1) j (seen + 1) t h,
  find_dp_lem wans n (i + 1) j seen t h,
)

live_lem :
    (wans : List WanConfig) (n : ℕ)
    → config_wan_live wans (pos n) ≡ true
    → dataplane_of (get_elem? wans n) ≡ true
unfolding config_wan_live
live_lem wans n h = ground (arith, h)

-- If the WAN at place `n` of the configuration carries traffic, `config_wan_cfg_to_dp` gives it a
-- number, and `config_wan_dp_to_cfg` leads from that number back to `n`.
pub dp_to_cfg-cfg_to_dp :
    (wans : List WanConfig) (n : ℕ)
    → config_wan_live wans (pos n) ≡ true
    → (d : ℕ) × (config_wan_cfg_to_dp wans (pos n) ≡ some d)
      × (config_wan_dp_to_cfg wans (pos d) ≡ some n)
unfolding config_wan_cfg_to_dp config_wan_dp_to_cfg
dp_to_cfg-cfg_to_dp wans n live =
    let d = config_count_dataplane_wans (take n wans) in
    let at_d : find_dp wans 0 0 d ≡ some n =
      find_dp_lem wans n 0 n 0 d (live_lem wans n live) (omega arith) (omega arith) in
    let not_behind : ltb_ℤ (pos d) (pos 0) ≡ false = ground arith in
    (d, rw (live, config_wan_cfg_to_dp) refl, rw (not_behind, config_wan_dp_to_cfg) at_d)
