-- ===== src/Wan/Weight.antt =====
-- src/core/forwarder/wan_scheduler.c: weights change over the grace period, from the old to the new
-- ones for a profile (`blend`), and from nothing for a WAN that joins (`join`).
use ne_encryptor.Prelude.{
  ℕ, zero, suc, ◌+◌, ◌-◌, ◌*◌, ◌/◌, ◌%◌, ◌^◌, Bool, true, false, Option, none, some, List, [], ◌∷◌,
  leb, ◌==◌, ◌&&◌, ◌||◌, not, if◌then◌else◌, set, length, map,
}
use ne_encryptor.Prelude.Int.{ℤ, pos, negsuc, ltb_ℤ, eqb_ℤ, ◌+ℤ◌, ◌-ℤ◌, ◌*ℤ◌, quot_ℤ}
use ne_encryptor.Wan.{Forwarder, WeightBlend, JoinRamp, grace_ms}
use ne_encryptor.Wan.Drain.{to_int}

abbrev pub sub64 : ℕ → ℕ → ℕ
sub64 a b = (a + 2 ^ 64 - b) % 2 ^ 64

-- The progress in percent from `start_ms` to `until_ms`.
unfoldable pub progress : ℕ → ℕ → ℕ → ℤ
progress now start_ms until_ms =
    let total = sub64 until_ms start_ms in
    if leb until_ms now
    then pos 100
    else if total == 0
    then pos 100
    else to_int (sub64 now start_ms * 100 % 2 ^ 64 / total)

unfoldable pub weight_blend_progress : ℕ → WeightBlend → ℤ
weight_blend_progress now b = if not b.active then pos 100 else progress now b.start_ms b.until_ms

-- The loop for the place of `cfg_wan` in the blend: its weights before and after.
unfoldable pub find_way : List (ℤ × ℤ × ℤ) → ℤ → Option (ℤ × ℤ)
find_way [] cfg_wan = none
find_way ((cfg, old_w, new_w) ∷ ways) cfg_wan =
    if eqb_ℤ cfg cfg_wan then some (old_w, new_w) else find_way ways cfg_wan

unfoldable pub blended : ℤ → ℤ → ℤ → ℤ
blended old_w new_w blend =
    let w = quot_ℤ (old_w *ℤ (pos 100 -ℤ blend) +ℤ new_w *ℤ blend) 100 in
    if ltb_ℤ (pos 0) w then w else pos 1

unfoldable pub profile_wan_weight_blended : ℕ → WeightBlend → ℤ → ℤ → ℤ → ℤ
profile_wan_weight_blended now b profile_id cfg_wan nominal_weight =
    if not (ltb_ℤ (pos 0) nominal_weight)
    then nominal_weight
    else if not b.active || not (eqb_ℤ b.profile_id profile_id)
    then nominal_weight
    else elim (find_way b.ways cfg_wan) [
      | none ↦ nominal_weight
      | some (old_w, new_w) ↦ blended old_w new_w (weight_blend_progress now b)
    ]

-- The loop of `wan_join_ramp_pct`.
unfoldable pub join_pct : ℕ → List JoinRamp → ℤ → ℤ
join_pct now [] cfg_wan = negsuc 0
join_pct now (j ∷ joins) cfg_wan =
    if not j.active || not (eqb_ℤ j.cfg_wan cfg_wan)
    then join_pct now joins cfg_wan
    else progress now j.start_ms j.until_ms

unfoldable pub join_ramp_pct : ℕ → Forwarder → ℤ → ℤ
join_ramp_pct now fwd cfg_wan =
    if ltb_ℤ cfg_wan (pos 0) then negsuc 0 else join_pct now fwd.joins cfg_wan

-- The loop of `fwd_wan_join_ramp_begin`, from slot `i` on: the slot of the WAN, or else the first
-- free one.
unfoldable pub join_slot : List JoinRamp → ℤ → ℕ → Option ℕ → Option ℕ
join_slot [] cfg_wan i slot = slot
join_slot (j ∷ joins) cfg_wan i slot =
    let slot' : Option ℕ = elim slot [
      | none ↦ if not j.active then some i else none
      | some k ↦ some k
    ] in
    if j.active && eqb_ℤ j.cfg_wan cfg_wan then some i else join_slot joins cfg_wan (i + 1) slot'

unfoldable pub join_ramp_begin : ℕ → ℤ → ℤ → Forwarder → Forwarder
join_ramp_begin now cfg_wan target_weight fwd =
    if ltb_ℤ cfg_wan (pos 0) then fwd else elim (join_slot fwd.joins cfg_wan 0 none) [
      | none ↦ fwd
      | some slot ↦ record fwd {
        joins = set fwd.joins slot (record {
          active = true;
          cfg_wan = cfg_wan;
          target_w = if ltb_ℤ (pos 0) target_weight then target_weight else pos 1;
          start_ms = now;
          until_ms = (now + grace_ms) % 2 ^ 64;
        });
      }
    ]

abbrev pub tick_join : ℕ → JoinRamp → JoinRamp
tick_join now j = if j.active && leb j.until_ms now then record j { active = false } else j

unfoldable pub join_ramp_tick : ℕ → Forwarder → Forwarder
join_ramp_tick now fwd = record fwd { joins = map (tick_join now) fwd.joins }

unfoldable pub weight_blend_tick : ℕ → Forwarder → Forwarder
weight_blend_tick now fwd =
    let over = fwd.blend.active && not (ltb_ℤ (weight_blend_progress now fwd.blend) (pos 100)) in
    join_ramp_tick now
      (if over then record fwd { blend = record (fwd.blend) { active = false } } else fwd)

-- What the scheduler reads of a profile: the places of its WANs in the configuration, and their
-- weights.
pub record WanProfile : Type 0 where
  pub id : ℤ
  pub wans : List (ℤ × ℤ)

-- The loop that compares two profiles, and the one that fills the blend.
unfoldable pub wans_changed : List (ℤ × ℤ) → List (ℤ × ℤ) → Bool
wans_changed [] new = false
wans_changed (x ∷ old) [] = false
wans_changed ((i, v) ∷ old) ((j, w) ∷ new) =
    not (eqb_ℤ i j) || not (eqb_ℤ v w) || wans_changed old new

unfoldable pub blend_ways : ℕ → List (ℤ × ℤ) → List (ℤ × ℤ) → List (ℤ × ℤ × ℤ)
blend_ways zero old new = []
blend_ways (suc n) [] new = []
blend_ways (suc n) (x ∷ old) [] = []
blend_ways (suc n) ((i, v) ∷ old) ((j, w) ∷ new) = (j, v, w) ∷ blend_ways n old new

-- On the first profiles of the two configurations, `none` where there is none.
unfoldable pub weight_blend_begin :
    ℕ → Option WanProfile → Option WanProfile → Forwarder → Forwarder
weight_blend_begin now none new fwd = record fwd { blend = record (fwd.blend) { active = false } }
weight_blend_begin now (some op) none fwd = record fwd {
  blend = record (fwd.blend) { active = false };
}
weight_blend_begin now (some op) (some np) fwd =
    if not (eqb_ℤ op.id np.id)
      || not (length op.wans == length np.wans)
      || not (wans_changed op.wans np.wans)
    then record fwd { blend = record (fwd.blend) { active = false } }
    else record fwd {
      blend = record {
        active = true;
        profile_id = np.id;
        ways = blend_ways 16 op.wans np.wans;
        start_ms = now;
        until_ms = (now + grace_ms) % 2 ^ 64;
      };
    }
