-- ===== src/Reorder/Order.antt =====
-- src/core/dataplane/udp_reorder.c: the order in which a window gives items out.
use ne_encryptor.Prelude.{ℕ, ◌≡◌, ◌⊎◌, Bool, true}
use ne_encryptor.Prelude.Int.{ℤ}
use ne_encryptor.Reorder.{int32_max}
use ne_encryptor.Reorder.Release.{is_ahead}

-- A number that is found is that of a slot, and lies as far ahead as is said.
abbrev Found : ℕ → ℤ × ℕ → Type 0
Found next best = (best.0 ≡ int32_max) ⊎ (is_ahead (best.1) next ≡ true)
