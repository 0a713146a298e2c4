-- ===== src/Reorder/Slots.antt =====
-- src/core/dataplane/udp_reorder.c: what the window and the trace hold, measured by any weight of
-- the items.
use ne_encryptor.Prelude.{
  ℕ, zero, suc, ◌+◌, ◌<◌, ◌≡◌, ap, List, [], ◌∷◌, arith, if◌then◌else◌, length, get_or, set,
}
use ne_encryptor.Reorder.{Item, Slot, zero_slot, Event, emitted, dropped, Lane, reorder_window}

module _ (f : Item → ℕ) where
  abbrev pub slot_weight : Slot → ℕ
  slot_weight s = if s.valid then f s.item else 0

  -- The weight of the items that wait in the window.
  abbrev pub waiting : List Slot → ℕ
  waiting [] = 0
  waiting (s ∷ slots) = slot_weight s + waiting slots

  -- The weight of the items that went to a callback.
  abbrev pub sent : List Event → ℕ
  sent [] = 0
  sent (emitted seq item ∷ out) = f item + sent out
  sent (dropped seq item ∷ out) = f item + sent out

  pub waiting-set :
      (slots : List Slot) (i : ℕ) (s : Slot)
      → i < length slots
      → waiting (set slots i s) + slot_weight (get_or slots i zero_slot)
        ≡ waiting slots + slot_weight s
  waiting-set [] i s h = elim h [ ]
  waiting-set (x ∷ slots) zero s h = omega arith
  waiting-set (x ∷ slots) (suc i) s h = omega (arith, waiting-set slots i s (omega arith))

  -- From `l` to `l'` an amount `n` came in, and nothing was lost or made up.
  pub record Accounts (n : ℕ) (l l' : Lane) : Type 0 where
    pub balance : waiting l'.slots + sent l'.out ≡ waiting l.slots + sent l.out + n
    pub same_size : length l'.slots ≡ length l.slots

  pub Accounts-trans :
      (m n k : ℕ) (l l' l'' : Lane)
      → m + n ≡ k
      → Accounts m l l'
      → Accounts n l' l''
      → Accounts k l l''
  Accounts-trans m n k l l' l'' e a b = omega arith

  pub Accounts-same : (l l' : Lane) → l'.slots ≡ l.slots → l'.out ≡ l.out → Accounts 0 l l'
  Accounts-same l l' same_slots same_out = record {
    balance = rw (same_slots, same_out) (omega arith);
    same_size = ap length same_slots;
  }

  -- The same, of a window of 256 slots.
  abbrev pub Moves : ℕ → Lane → Lane → Type 0
  Moves n l l' = length l.slots ≡ reorder_window → Accounts n l l'

  pub Moves-trans :
      (m n k : ℕ) (l l' l'' : Lane) → m + n ≡ k → Moves m l l' → Moves n l' l'' → Moves k l l''
  Moves-trans m n k l l' l'' e a b w =
      Accounts-trans m n k l l' l'' e (a w) (b (omega (arith, (a w).same_size, w)))
