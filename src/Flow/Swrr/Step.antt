-- ===== src/Flow/Swrr/Step.antt =====
-- src/core/flow/flow_table.c: one call of `flow_swrr_pick` on a pool of at least two WANs.
use ne_encryptor.Prelude.{
  ℕ, zero, suc, ◌≤◌, ◌<◌, ◌≡◌, refl, ap, ◌∙◌, Option, none, some, List, arith, length, get_or,
}
use ne_encryptor.Prelude.Int.{ℤ, pos, ◌+ℤ◌, ◌≤ℤ◌}
use ne_encryptor.Flow.Swrr.{
  SwrrState, settle, pick_earned, flow_swrr_pick, earn, richest, int64_min,
}
use ne_encryptor.Flow.Swrr.Credits.{
  credit, span, pool_weights, credit-earn, total-earn, share_in, share_above,
}
use ne_encryptor.Flow.Swrr.Pick.{richest-IsBest}

-- The credits when every WAN has earned its weight.
abbrev pub earned : List ℕ → ℕ → List ℤ → List ℤ
earned ws n c = (earn (pool_weights ws) n 0 c (pos 0)).0

-- A pool of two WANs at least, with positive weights.
pub record IsPool (ws : List ℕ) (n : ℕ) : Type 0 where
  pub several : 2 ≤ n
  pub eligible : (i : ℕ) → i < n → 0 < get_or ws i 0

pub span-pos : (ws : List ℕ) (n : ℕ) → 0 < n → 0 < get_or ws 0 0 → 0 < span ws 0 n
span-pos ws zero h p = elim h [ ]
span-pos ws (suc n) h p = omega arith

module _ (s : SwrrState) (aw : List ℤ) (ws : List ℕ) (n : ℕ) (pool : IsPool ws n)
    (room : n ≤ length s.current) where
  pub total_pos : 0 < span ws 0 n
  total_pos = span-pos ws n (omega arith) (pool.eligible 0 (omega arith))

  pub credit-earned :
      (j : ℕ) → j < n → credit (earned ws n s.current) j ≡ credit s.current j +ℤ pos (get_or ws j 0)
  credit-earned j h =
      credit-earn ws n 0 0 j s.current (omega (arith, room))
      ∙ ap (λ x. credit s.current j +ℤ pos x) (share_in ws n 0 j (omega arith) (omega arith))

  pub credit-earned_above :
      (j : ℕ) → n ≤ j → credit (earned ws n s.current) j ≡ credit s.current j +ℤ pos 0
  credit-earned_above j h =
      credit-earn ws n 0 0 j s.current (omega (arith, room))
      ∙ ap (λ x. credit s.current j +ℤ pos x) (share_above ws n 0 j (omega arith))

  pick_several :
      flow_swrr_pick s aw (pool_weights ws) n
      ≡ pick_earned s aw (pool_weights ws) n (earn (pool_weights ws) n 0 s.current (pos 0))
  unfolding flow_swrr_pick
  pick_several = ground (arith, pool.several)

  earned_total : (earn (pool_weights ws) n 0 s.current (pos 0)).1 ≡ pos (span ws 0 n)
  earned_total = total-earn ws n 0 0 s.current ∙ ap pos (omega arith)

  pick_paid :
      (r : Option ℕ × ℤ) (b : ℕ)
      → richest (pool_weights ws) (earned ws n s.current) n s.tie_start n 0 (none, int64_min) ≡ r
      → r.0 ≡ some b
      → pick_earned s aw (pool_weights ws) n (earn (pool_weights ws) n 0 s.current (pos 0))
        ≡ settle s aw (earned ws n s.current) (pos (span ws 0 n)) n b
  unfolding pick_earned
  pick_paid r b e f = rw (earned_total, e, f) (ground (arith, total_pos))

  -- The winner, the WAN that is returned, and the state that is left.
  pub pick_lem :
      (b : ℕ) × (b < n)
      × ((j : ℕ) → j < n → credit (earned ws n s.current) j ≤ℤ credit (earned ws n s.current) b)
      × (flow_swrr_pick s aw (pool_weights ws) n
          ≡ settle s aw (earned ws n s.current) (pos (span ws 0 n)) n b)
  pick_lem =
      let (b, found, b_lt, best) =
        richest-IsBest ws (earned ws n s.current) n s.tie_start (omega arith) pool.eligible in
      (b, b_lt, best, pick_several ∙ pick_paid _ b refl found)
