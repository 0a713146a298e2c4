-- ===== src/L2/Sweep.antt =====
-- src/crypto/pqc/pqc_l2_option.c: the sweep of a fragment table.
use mathlib.Core.Path.{subst}
use ne_encryptor.Prelude.{
  ℕ, zero, suc, ◌+◌, ◌≤◌, ◌<◌, ◌≡◌, refl, sym, ap, ◌∙◌, ◌⊎◌, inl, inr, List, arith, if◌then◌else◌,
  length, if_true, if_false, ℕ_discrete, get_or-set_self, Bool-cases,
}
use ne_encryptor.L2.Reasm.{
  Entry, zero_entry, FragTable, clear_entry, is_expired, entry_at, expire_at, gc_entries, gc_slice,
  frag_gc_table, table_size,
}
use ne_encryptor.L2.Again.{next_le}
use ne_encryptor.L2.Pick.{place, place_lt, length-expire_at, expire_at_ne}

-- What the sweep makes of an entry that it visits.
abbrev pub swept : ℕ → Entry → Entry
swept now e = if is_expired now e then clear_entry e else e

expire_at_self :
    (now : ℕ) (entries : List Entry) (i : ℕ)
    → i < length entries
    → entry_at (expire_at now entries i) i ≡ swept now (entry_at entries i)
expire_at_self now entries i h = elim (Bool-cases (is_expired now (entry_at entries i))) [
  | inl over ↦
      ap (λ es. entry_at es i) (if_true (is_expired now (entry_at entries i)) _ entries over)
      ∙ get_or-set_self entries i (clear_entry (entry_at entries i)) zero_entry h
      ∙ sym (if_true (is_expired now (entry_at entries i)) _ (entry_at entries i) over)
  | inr fresh ↦
      ap (λ es. entry_at es i) (if_false (is_expired now (entry_at entries i)) _ entries fresh)
      ∙ sym (if_false (is_expired now (entry_at entries i)) _ (entry_at entries i) fresh)
]

swept_twice : (now : ℕ) (e : Entry) → swept now (swept now e) ≡ swept now e
unfolding clear_entry
swept_twice now e = elim (Bool-cases (is_expired now e)) [
  | inl over ↦
      ap (swept now) (if_true (is_expired now e) (clear_entry e) e over)
      ∙ sym (if_true (is_expired now e) (clear_entry e) e over)
  | inr fresh ↦ ap (swept now) (if_false (is_expired now e) (clear_entry e) e fresh)
]

-- What a round does to any one place.
expire_at_any :
    (now : ℕ) (entries : List Entry) (i x : ℕ)
    → i < length entries
    → (entry_at (expire_at now entries i) x ≡ entry_at entries x)
      ⊎ (entry_at (expire_at now entries i) x ≡ swept now (entry_at entries x))
expire_at_any now entries i x h = elim (ℕ_discrete i x) [
  | yes same ↦ inr (
      ap (entry_at (expire_at now entries i)) (sym same)
      ∙ expire_at_self now entries i h
      ∙ ap (λ y. swept now (entry_at entries y)) same)
  | no ne ↦ inl (expire_at_ne now entries i x ne)
]

-- Two rounds do no more than one.
swept_chain :
    (now : ℕ) (a b c : Entry)
    → (b ≡ a) ⊎ (b ≡ swept now a)
    → (c ≡ b) ⊎ (c ≡ swept now b)
    → (c ≡ a) ⊎ (c ≡ swept now a)
swept_chain now a b c (inl p) (inl q) = inl (q ∙ p)
swept_chain now a b c (inl p) (inr q) = inr (q ∙ ap (swept now) p)
swept_chain now a b c (inr p) (inl q) = inr (q ∙ p)
swept_chain now a b c (inr p) (inr q) = inr (q ∙ ap (swept now) p ∙ swept_twice now a)

swept_after :
    (now : ℕ) (a c : Entry) → (c ≡ swept now a) ⊎ (c ≡ swept now (swept now a)) → c ≡ swept now a
swept_after now a c (inl p) = p
swept_after now a c (inr p) = p ∙ swept_twice now a

gc_entries_visits :
    (n now start k x : ℕ) (entries : List Entry)
    → length entries ≡ table_size
    → (entry_at (gc_entries n now start k entries) x ≡ entry_at entries x)
      ⊎ (entry_at (gc_entries n now start k entries) x ≡ swept now (entry_at entries x))
unfolding gc_entries
gc_entries_visits zero now start k x entries size = inl refl
gc_entries_visits (suc n) now start k x entries size =
    let entries' = expire_at now entries (place start k) in
    swept_chain now (entry_at entries x) (entry_at entries' x) _
      (expire_at_any now entries (place start k) x (omega (arith, place_lt (start + k), size)))
      (gc_entries_visits n now start (k + 1) x entries'
        (length-expire_at now entries (place start k) ∙ size))

gc_entries_reaches :
    (n now start k j : ℕ) (entries : List Entry)
    → length entries ≡ table_size
    → k ≤ j
    → j < k + n
    → entry_at (gc_entries n now start k entries) (place start j)
      ≡ swept now (entry_at entries (place start j))
unfolding gc_entries
gc_entries_reaches zero now start k j entries size le lt = absurd (omega (arith, le, lt))
gc_entries_reaches (suc n) now start k j entries size le lt =
    let i = place start k in
    let x = place start j in
    let entries' = expire_at now entries i in
    let inside : i < length entries = omega (arith, place_lt (start + k), size) in
    let size' : length entries' ≡ table_size = length-expire_at now entries i ∙ size in
    elim (ℕ_discrete i x) [
      | yes same ↦
          let here : entry_at entries' x ≡ swept now (entry_at entries x) =
            ap (entry_at entries') (sym same)
            ∙ expire_at_self now entries i inside
            ∙ ap (λ y. swept now (entry_at entries y)) same in
          swept_after now (entry_at entries x) _ (
            subst
              (λ e.
                (entry_at (gc_entries n now start (k + 1) entries') x ≡ e)
                ⊎ (entry_at (gc_entries n now start (k + 1) entries') x ≡ swept now e))
              here (gc_entries_visits n now start (k + 1) x entries' size'))
      | no ne ↦
          gc_entries_reaches n now start (k + 1) j entries' size' (next_le start k j le ne)
            (omega (arith, lt))
          ∙ ap (swept now) (expire_at_ne now entries i x ne)
    ]

-- A sweep of a table clears what is too old at each of the 256 places from the cursor on, and does
-- nothing else to those; any other entry is as it was, or was too old and is cleared as well.
pub frag_gc_table_sweeps :
    (now x : ℕ) (ft : FragTable)
    → length ft.entries ≡ table_size
    → ((j : ℕ)
        → j < gc_slice
        → entry_at (frag_gc_table now ft).entries (place ft.gc_cursor j)
          ≡ swept now (entry_at ft.entries (place ft.gc_cursor j)))
      × ((entry_at (frag_gc_table now ft).entries x ≡ entry_at ft.entries x)
          ⊎ (entry_at (frag_gc_table now ft).entries x ≡ swept now (entry_at ft.entries x)))
unfolding frag_gc_table
frag_gc_table_sweeps now x ft size = (
  λ j lt.
      gc_entries_reaches gc_slice now ft.gc_cursor 0 j ft.entries size (omega arith)
        (omega (arith, lt)),
  gc_entries_visits gc_slice now ft.gc_cursor 0 x ft.entries size,
)
