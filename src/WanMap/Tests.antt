-- ===== src/WanMap/Tests.antt =====
-- src/db/config.c: three WANs, of which the second carries no traffic.
use ne_encryptor.Prelude.{ℕ, ◌≡◌, refl, true, false, some, List, [], ◌∷◌}
use ne_encryptor.Prelude.Int.{pos}
use ne_encryptor.WanMap.{WanConfig, config_wan_live, config_wan_cfg_to_dp, config_wan_dp_to_cfg}
use ne_encryptor.WanMap.RoundTrip.{dp_to_cfg-cfg_to_dp}

abbrev three_wans : List WanConfig
three_wans =
    record { ifname = 97 ∷ []; dataplane = true }
    ∷ record { ifname = 98 ∷ []; dataplane = false }
    ∷ record { ifname = 99 ∷ []; dataplane = true }
    ∷ []

dp_to_cfg-cfg_to_dp_example :
    (d : ℕ) × (config_wan_cfg_to_dp three_wans (pos 2) ≡ some d)
    × (config_wan_dp_to_cfg three_wans (pos d) ≡ some 2)
unfolding config_wan_live
dp_to_cfg-cfg_to_dp_example = dp_to_cfg-cfg_to_dp three_wans 2 refl
