-- ===== src/Reorder/Release.antt =====
-- src/core/dataplane/udp_reorder.c: what a window promises about the order of the items it gives out.
use ne_encryptor.Prelude.{ℕ, zero, suc, ◌+◌, ◌≡◌, Bool, true, List, [], ◌∷◌, not, get_or, set}
use ne_encryptor.Prelude.Int.{pos, ltb_ℤ, eqb_ℤ}
use ne_encryptor.Iface.Window.{u32}
use ne_encryptor.Reorder.{Item, Slot, zero_slot, Event, emitted, dropped, Lane, seq_delta}

abbrev pub is_ahead : ℕ → ℕ → Bool
is_ahead seq m = not (ltb_ℤ (seq_delta seq m) (pos 0))

abbrev pub is_next : ℕ → ℕ → Bool
is_next seq m = eqb_ℤ (seq_delta seq m) (pos 0)

-- The specification, a counter and a trace: `Releases number n out m out'` leads from the counter `n`
-- and the trace `out` to `m` and `out'`, where `number` tells the number that an item was sent with.
-- Only the item of the counter's number is emitted, and the counter then moves on by one; it may skip
-- to a number that is ahead, and any item may be dropped.
pub data Releases (number : Item → ℕ) (n : ℕ) (out : List Event) : ℕ → List Event → Type 0 where
  stay : Releases number n out n out
  emit :
      {m : ℕ} {out' : List Event} (seq : ℕ) (item : Item)
      → is_next (number item) m ≡ true
      → Releases number n out m out'
      → Releases number n out (u32 (m + 1)) (emitted seq item ∷ out')
  refuse :
      {m : ℕ} {out' : List Event} (seq : ℕ) (item : Item)
      → is_next (number item) m ≡ true
      → Releases number n out m out'
      → Releases number n out (u32 (m + 1)) (dropped seq item ∷ out')
  skip :
      {m : ℕ} {out' : List Event} (seq : ℕ)
      → is_ahead seq m ≡ true
      → Releases number n out m out'
      → Releases number n out seq out'
  drop :
      {m : ℕ} {out' : List Event} (seq : ℕ) (item : Item)
      → Releases number n out m out'
      → Releases number n out m (dropped seq item ∷ out')

Releases-trans :
    (number : Item → ℕ) (n m : ℕ) (out out' : List Event) {k : ℕ} {out'' : List Event}
    → Releases number n out m out'
    → Releases number m out' k out''
    → Releases number n out k out''
Releases-trans number n m out out' a stay = a
Releases-trans number n m out out' a (emit seq item h b) =
    emit seq item h (Releases-trans number n m out out' a b)
Releases-trans number n m out out' a (refuse seq item h b) =
    refuse seq item h (Releases-trans number n m out out' a b)
Releases-trans number n m out out' a (skip seq h b) =
    skip seq h (Releases-trans number n m out out' a b)
Releases-trans number n m out out' a (drop seq item b) =
    drop seq item (Releases-trans number n m out out' a b)

-- Every item that waits stands in a slot with its number.
abbrev pub IsNumbered : (Item → ℕ) → List Slot → Type 0
IsNumbered number slots =
    (i : ℕ)
    → (get_or slots i zero_slot).valid ≡ true
    → number (get_or slots i zero_slot).item ≡ (get_or slots i zero_slot).seq

pub set-IsNumbered :
    (number : Item → ℕ) (slots : List Slot) (k : ℕ) (s : Slot)
    → (s.valid ≡ true → number s.item ≡ s.seq)
    → IsNumbered number slots
    → IsNumbered number (set slots k s)
set-IsNumbered number [] k s v h i = h i
set-IsNumbered number (x ∷ slots) zero s v h zero = v
set-IsNumbered number (x ∷ slots) zero s v h (suc i) = h (suc i)
set-IsNumbered number (x ∷ slots) (suc k) s v h zero = h zero
set-IsNumbered number (x ∷ slots) (suc k) s v h (suc i) =
    set-IsNumbered number slots k s v (λ j. h (suc j)) i

-- The same, between two lanes.
pub record Goes (number : Item → ℕ) (l l' : Lane) : Type 0 where
  pub keeps : IsNumbered number l.slots → IsNumbered number l'.slots
  pub run :
      IsNumbered number l.slots → Releases number l.flow.next_seq l.out l'.flow.next_seq l'.out

pub Goes-refl : (number : Item → ℕ) (l : Lane) → Goes number l l
Goes-refl number l = record { keeps = λ h. h; run = λ _. stay }

pub Goes-trans :
    (number : Item → ℕ) (l l' l'' : Lane)
    → Goes number l l'
    → Goes number l' l''
    → Goes number l l''
Goes-trans number l l' l'' a b = record {
  keeps = λ h. b.keeps (a.keeps h);
  run = λ h.
      Releases-trans number l.flow.next_seq l'.flow.next_seq l.out l'.out (a.run h)
        (b.run (a.keeps h));
}
