-- ===== src/Wan/Expire.antt =====
-- src/core/forwarder/wan_scheduler.c: the end of the grace period of a WAN that drains.
use ne_encryptor.Prelude.{
  ℕ, zero, suc, ◌+◌, ◌≤◌, ◌<◌, ◌≡◌, ◌≢◌, refl, sym, ap, ◌∙◌, Bool, true, false, arith, ltb, leb,
  ◌&&◌, ◌||◌, not, if◌then◌else◌, get_or, length, if_intro, Bool-cases, inl, inr, ℕ_discrete,
  length-set, get_or-set_self, get_or-set_ne,
}
use ne_encryptor.Prelude.Int.{ℤ, pos, ltb_ℤ}
use ne_encryptor.Wan.{
  Forwarder, DrainSlot, zero_drain, drain_at, dp_limit, is_outside, max_interfaces, flush_queue,
}
use ne_encryptor.Wan.Drain.{
  drain_taper_pct, drain_finish_slot, drain_tick_dp, drain_tick_loop, drain_tick,
}

-- What one tick makes of a drain and of the flag of its WAN.
abbrev pub is_over : ℕ → DrainSlot → Bool
is_over now d = d.active && leb d.until_ms now

abbrev pub ended : ℕ → DrainSlot → DrainSlot
ended now d = if is_over now d then record d { active = false } else d

-- The state of the WAN `dp`: its drain, and whether it is stopped.
abbrev pub way_at : Forwarder → ℕ → DrainSlot × Bool
way_at fwd dp = (drain_at fwd dp, get_or fwd.stopped dp false)

abbrev pub ended_way : ℕ → DrainSlot × Bool → DrainSlot × Bool
ended_way now (d, stopped) = (ended now d, stopped || is_over now d)

-- The tables have a place for each WAN.
pub record HasTables (fwd : Forwarder) : Type 0 where
  pub drains : length fwd.drains ≡ max_interfaces
  pub stopped : length fwd.stopped ≡ max_interfaces

and_parts : (a b : Bool) → a && b ≡ true → (a ≡ true) × (b ≡ true)
and_parts a b h = ground (arith, h)

inside : (dp : ℕ) → dp < max_interfaces → is_outside (pos dp) ≡ false
inside dp lt = ground (arith, lt)

flush_queue_drains : (w : ℤ) (fwd : Forwarder) → (flush_queue w fwd).0.drains ≡ fwd.drains
unfolding flush_queue
flush_queue_drains w fwd =
    if_intro (λ (r : Forwarder × ℕ). r.0.drains ≡ fwd.drains)
      (ltb_ℤ w (pos 0) || not (ltb_ℤ w fwd.wan_count)) (λ _. refl) (λ _. refl)

flush_queue_stopped : (w : ℤ) (fwd : Forwarder) → (flush_queue w fwd).0.stopped ≡ fwd.stopped
unfolding flush_queue
flush_queue_stopped w fwd =
    if_intro (λ (r : Forwarder × ℕ). r.0.stopped ≡ fwd.stopped)
      (ltb_ℤ w (pos 0) || not (ltb_ℤ w fwd.wan_count)) (λ _. refl) (λ _. refl)

not_early : (now until : ℕ) → leb until now ≡ true → ltb now until ≡ false
not_early now until h = ground (arith, h)

taper_of_over :
    (now dp : ℕ) (fwd : Forwarder)
    → leb (drain_at fwd dp).until_ms now ≡ true
    → ltb_ℤ (pos 0) (drain_taper_pct now fwd (pos dp)) ≡ false
unfolding drain_taper_pct
taper_of_over now dp fwd h =
    if_intro (λ t. ltb_ℤ (pos 0) t ≡ false) (is_outside (pos dp) || not (drain_at fwd dp).active)
      (λ _. refl) (λ _. rw h refl)

drain_tick_dp_over :
    (now dp : ℕ) (fwd : Forwarder)
    → is_over now (drain_at fwd dp) ≡ true
    → drain_tick_dp now dp fwd ≡ drain_finish_slot (pos dp) fwd
unfolding drain_tick_dp
drain_tick_dp_over now dp fwd h =
    let (on, late) = and_parts (drain_at fwd dp).active _ h in
    rw (on, taper_of_over now dp fwd late) (rw (not_early now _ late) refl)

drain_tick_dp_not_over :
    (now dp : ℕ) (fwd : Forwarder)
    → is_over now (drain_at fwd dp) ≡ false
    → drain_tick_dp now dp fwd ≡ fwd
unfolding drain_tick_dp
drain_tick_dp_not_over now dp fwd h =
    if_intro (λ f. f ≡ fwd) (not (drain_at fwd dp).active) (λ _. refl)
      (λ on.
        if_intro (λ f. f ≡ fwd) (ltb_ℤ (pos 0) (drain_taper_pct now fwd (pos dp))) (λ _. refl)
          (λ _.
            if_intro (λ f. f ≡ fwd) (ltb now (drain_at fwd dp).until_ms) (λ _. refl)
              (λ early. ground (arith, h, on, early))))

-- What the end of a drain leaves behind at its own place and at the others.
finish_self :
    (dp : ℕ) (fwd : Forwarder)
    → HasTables fwd
    → dp < max_interfaces
    → (drain_at fwd dp).active ≡ true
    → way_at (drain_finish_slot (pos dp) fwd) dp
      ≡ (record (drain_at fwd dp) { active = false }, true)
unfolding drain_finish_slot
finish_self dp fwd h lt on =
    rw (inside dp lt, on, flush_queue_drains (pos dp) fwd, flush_queue_stopped (pos dp) fwd)
      (rw
        (
          get_or-set_self fwd.drains dp (record (drain_at fwd dp) { active = false }) zero_drain
              (omega (arith, h.drains)),
          get_or-set_self fwd.stopped dp true false (omega (arith, h.stopped)),
        )
        refl)

finish_ne :
    (dp j : ℕ) (fwd : Forwarder) → dp ≢ j → way_at (drain_finish_slot (pos dp) fwd) j ≡ way_at fwd j
unfolding drain_finish_slot
finish_ne dp j fwd ne =
    if_intro (λ f. way_at f j ≡ way_at fwd j) (is_outside (pos dp) || not (drain_at fwd dp).active)
      (λ _. refl)
      (λ _.
        rw (flush_queue_drains (pos dp) fwd, flush_queue_stopped (pos dp) fwd)
          (rw
            (
              get_or-set_ne fwd.drains dp j (record (drain_at fwd dp) { active = false }) zero_drain
                  ne,
              get_or-set_ne fwd.stopped dp j true false ne,
            )
            refl))

finish-HasTables :
    (dp : ℕ) (fwd : Forwarder) → HasTables fwd → HasTables (drain_finish_slot (pos dp) fwd)
unfolding drain_finish_slot
finish-HasTables dp fwd h =
    if_intro HasTables (is_outside (pos dp) || not (drain_at fwd dp).active) (λ _. h)
      (λ _. record {
        drains = length-set _ dp _ ∙ ap length (flush_queue_drains (pos dp) fwd) ∙ h.drains;
        stopped = length-set _ dp true ∙ ap length (flush_queue_stopped (pos dp) fwd) ∙ h.stopped;
      })

tick_self :
    (now dp : ℕ) (fwd : Forwarder)
    → HasTables fwd
    → dp < max_interfaces
    → way_at (drain_tick_dp now dp fwd) dp ≡ ended_way now (way_at fwd dp)
tick_self now dp fwd h lt = elim (Bool-cases (is_over now (drain_at fwd dp))) [
  | inl over ↦
      rw (drain_tick_dp_over now dp fwd over, finish_self dp fwd h lt (and_parts _ _ over).0, over)
        (ap (λ b. (record (drain_at fwd dp) { active = false }, b)) (ground arith))
  | inr early ↦
      rw (drain_tick_dp_not_over now dp fwd early, early)
        (ap (λ b. (drain_at fwd dp, b)) (ground arith))
]

tick_ne :
    (now dp j : ℕ) (fwd : Forwarder) → dp ≢ j → way_at (drain_tick_dp now dp fwd) j ≡ way_at fwd j
tick_ne now dp j fwd ne = elim (Bool-cases (is_over now (drain_at fwd dp))) [
  | inl over ↦ rw (drain_tick_dp_over now dp fwd over) (finish_ne dp j fwd ne)
  | inr early ↦ rw (drain_tick_dp_not_over now dp fwd early) refl
]

tick-HasTables :
    (now dp : ℕ) (fwd : Forwarder) → HasTables fwd → HasTables (drain_tick_dp now dp fwd)
tick-HasTables now dp fwd h = elim (Bool-cases (is_over now (drain_at fwd dp))) [
  | inl over ↦ rw (drain_tick_dp_over now dp fwd over) (finish-HasTables dp fwd h)
  | inr early ↦ rw (drain_tick_dp_not_over now dp fwd early) h
]

loop_before :
    (n now dp j : ℕ) (fwd : Forwarder)
    → j < dp
    → way_at (drain_tick_loop n now dp fwd) j ≡ way_at fwd j
unfolding drain_tick_loop
loop_before zero now dp j fwd lt = refl
loop_before (suc n) now dp j fwd lt =
    loop_before n now (dp + 1) j (drain_tick_dp now dp fwd) (omega (arith, lt))
    ∙ tick_ne now dp j fwd (λ e. omega (arith, e, lt))

loop_at :
    (n now dp j : ℕ) (fwd : Forwarder)
    → HasTables fwd
    → dp ≤ j
    → j < dp + n
    → dp + n ≤ max_interfaces
    → way_at (drain_tick_loop n now dp fwd) j ≡ ended_way now (way_at fwd j)
unfolding drain_tick_loop
loop_at zero now dp j fwd h le lt bound = absurd (omega (arith, le, lt))
loop_at (suc n) now dp j fwd h le lt bound = elim (ℕ_discrete dp j) [
  | yes e ↦
      loop_before n now (dp + 1) j (drain_tick_dp now dp fwd) (omega (arith, e))
      ∙ rw (sym e) (tick_self now dp fwd h (omega (arith, bound)))
  | no ne ↦
      loop_at n now (dp + 1) j (drain_tick_dp now dp fwd) (tick-HasTables now dp fwd h)
        (omega (arith, le, ne)) (omega (arith, lt)) (omega (arith, bound))
      ∙ ap (ended_way now) (tick_ne now dp j fwd ne)
]

dp_limit_le : (n : ℤ) → dp_limit n ≤ max_interfaces
dp_limit_le n = ground arith

-- With a place for each WAN in the tables, `drain_tick` ends the drain of each WAN of the forwarder
-- whose time is over, and stops that WAN; the drains and flags of the other WANs stay as they are.
pub drain_tick_ends :
    (now j : ℕ) (fwd : Forwarder)
    → HasTables fwd
    → j < dp_limit fwd.wan_count
    → way_at (drain_tick now fwd) j ≡ ended_way now (way_at fwd j)
unfolding drain_tick
drain_tick_ends now j fwd h lt =
    loop_at (dp_limit fwd.wan_count) now 0 j fwd h (omega arith) (omega (arith, lt))
      (omega (arith, dp_limit_le fwd.wan_count))
