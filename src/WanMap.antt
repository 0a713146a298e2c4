-- ===== src/WanMap.antt =====
-- src/db/config.c: the WANs of a configuration by their two numbers, the place in the configuration
-- and the place among the WANs that carry traffic. `wans` is the first `wan_count` entries, and a
-- name is the bytes before its NUL.
pub mod RoundTrip
mod Tests
use ne_encryptor.Prelude.{
  ℕ, zero, suc, ◌+◌, Bool, true, false, Option, none, some, List, [], ◌∷◌, ◌==◌, ◌&&◌, ◌||◌, not,
  if◌then◌else◌, length, get_elem?, take,
}
use ne_encryptor.Prelude.Int.{ℤ, pos, pos_part, ltb_ℤ, eqb_ℤ}

-- What these functions read of `wan_config`.
pub record WanConfig : Type 0 where
  pub ifname : List ℕ
  pub dataplane : Bool

-- `strcmp(a, b) == 0`
unfoldable pub same_name : List ℕ → List ℕ → Bool
same_name [] [] = true
same_name [] (y ∷ b) = false
same_name (x ∷ a) [] = false
same_name (x ∷ a) (y ∷ b) = x == y && same_name a b

abbrev pub dataplane_of : Option WanConfig → Bool
dataplane_of none = false
dataplane_of (some wan) = wan.dataplane

unfoldable pub config_wan_live : List WanConfig → ℤ → Bool
config_wan_live wans wan_idx =
    if ltb_ℤ wan_idx (pos 0) || not (ltb_ℤ wan_idx (pos (length wans)))
    then false
    else dataplane_of (get_elem? wans (pos_part wan_idx))

unfoldable pub config_wan_live_in_cfg : List WanConfig → List ℕ → Bool
config_wan_live_in_cfg [] ifname = false
config_wan_live_in_cfg (wan ∷ wans) ifname =
    if same_name wan.ifname ifname then wan.dataplane else config_wan_live_in_cfg wans ifname

unfoldable pub config_local_ifname_in_cfg : List (List ℕ) → List ℕ → Bool
config_local_ifname_in_cfg [] ifname = false
config_local_ifname_in_cfg (local ∷ locals) ifname =
    if same_name local ifname then true else config_local_ifname_in_cfg locals ifname

unfoldable pub config_count_dataplane_wans : List WanConfig → ℕ
config_count_dataplane_wans [] = 0
config_count_dataplane_wans (wan ∷ wans) =
    (if wan.dataplane then 1 else 0) + config_count_dataplane_wans wans

-- The loop runs over the WANs before `cfg_idx`.
unfoldable pub config_wan_cfg_to_dp : List WanConfig → ℤ → Option ℕ
config_wan_cfg_to_dp wans cfg_idx =
    if not (config_wan_live wans cfg_idx)
    then none
    else some (config_count_dataplane_wans (take (pos_part cfg_idx) wans))

-- The loop, with the index `i` of the first of `wans` and the WANs `seen`.
unfoldable pub find_dp : List WanConfig → ℕ → ℕ → ℕ → Option ℕ
find_dp [] i seen dp_idx = none
find_dp (wan ∷ wans) i seen dp_idx =
    if not wan.dataplane
    then find_dp wans (i + 1) seen dp_idx
    else if seen == dp_idx
    then some i
    else find_dp wans (i + 1) (seen + 1) dp_idx

unfoldable pub config_wan_dp_to_cfg : List WanConfig → ℤ → Option ℕ
config_wan_dp_to_cfg wans dp_idx =
    if ltb_ℤ dp_idx (pos 0) then none else find_dp wans 0 0 (pos_part dp_idx)

-- The loop of `config_wan_profile_weight`, over the indices of the first profile and their weights.
unfoldable pub best_weight : List ℤ → List ℤ → ℤ → ℤ → ℤ
best_weight [] weights wan_idx best = best
best_weight (i ∷ indices) [] wan_idx best = best
best_weight (i ∷ indices) (weight ∷ weights) wan_idx best =
    best_weight indices weights wan_idx
      (if not (eqb_ℤ i wan_idx) then best else if ltb_ℤ best weight then weight else best)

-- The bandwidth weights of a profile by place, `none` where there is no profile.
unfoldable pub config_wan_profile_weight : List WanConfig → Option (List ℤ × List ℤ) → ℤ → ℤ
config_wan_profile_weight wans none wan_idx = pos 0
config_wan_profile_weight wans (some (indices, weights)) wan_idx =
    if ltb_ℤ wan_idx (pos 0) || not (ltb_ℤ wan_idx (pos (length wans)))
    then pos 0
    else best_weight indices weights wan_idx (pos 0)

-- Whether an entry of the policies, by their `db_id`, has the number.
unfoldable pub has_db_id : List ℤ → ℤ → Bool
has_db_id [] db_id = false
has_db_id (x ∷ db_ids) db_id = if eqb_ℤ x db_id then true else has_db_id db_ids db_id

unfoldable pub config_policy_db_id_taken : List ℤ → ℤ → Bool
config_policy_db_id_taken db_ids db_id =
    if not (ltb_ℤ (pos 0) db_id) then false else has_db_id db_ids db_id
