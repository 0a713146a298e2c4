-- ===== src/L2/Pick.antt =====
-- src/crypto/pqc/pqc_l2_option.c: the place that `opt_pick_slot` gives a fragment.
use ne_encryptor.Prelude.{
  ℕ, zero, suc, ◌+◌, ◌%◌, ◌<◌, ◌≡◌, ◌≢◌, refl, sym, ap, ◌∙◌, Bool, true, false, Option, none, some,
  List, arith, ltb, ◌&&◌, not, if◌then◌else◌, set, length, if_intro, length-set, get_or-set_self,
  get_or-set_ne, ℕ_discrete,
}
use native.Mathlib.Nat.{mod-lt, mod-eq_of_lt}
use ne_encryptor.L2.Reasm.{
  Entry, zero_entry, clear_entry, is_occupied, is_expired, age, holds, entry_at, expire_at, Probe,
  first_free, older, probed, pick_loop, pick_slot, base_of, table_size,
}

-- A fragment of the datagram waits in the entry.
abbrev pub is_waiting : ℕ → ℕ → Entry → Bool
is_waiting epoch datagram_id e = is_occupied e && holds epoch datagram_id e

pub place_lt : (n : ℕ) → n % table_size < table_size
place_lt n = mod-lt n {m = table_size} (omega arith)

pub length-expire_at :
    (now : ℕ) (entries : List Entry) (idx : ℕ) → length (expire_at now entries idx) ≡ length entries
length-expire_at now entries idx =
    if_intro (λ es. length es ≡ length entries) (is_expired now (entry_at entries idx))
      (λ _. length-set entries idx (clear_entry (entry_at entries idx))) (λ _. refl)

pub expire_at_ne :
    (now : ℕ) (entries : List Entry) (idx x : ℕ)
    → idx ≢ x
    → entry_at (expire_at now entries idx) x ≡ entry_at entries x
expire_at_ne now entries idx x ne =
    if_intro (λ es. entry_at es x ≡ entry_at entries x) (is_expired now (entry_at entries idx))
      (λ _. get_or-set_ne entries idx x (clear_entry (entry_at entries idx)) zero_entry ne)
      (λ _. refl)

-- A cleared entry waits for nothing.
cleared-is_waiting :
    (epoch datagram_id : ℕ) (e : Entry) → is_waiting epoch datagram_id (clear_entry e) ≡ false
unfolding clear_entry
cleared-is_waiting epoch datagram_id e = refl

set_cleared :
    (epoch datagram_id : ℕ) (entries : List Entry) (idx x : ℕ) (e : Entry)
    → idx < length entries
    → idx ≡ x
    → is_waiting epoch datagram_id (entry_at (set entries idx (clear_entry e)) x) ≡ false
set_cleared epoch datagram_id entries idx x e lt same =
    ap (λ y. is_waiting epoch datagram_id (entry_at (set entries idx (clear_entry e)) y)) (sym same)
    ∙ ap (is_waiting epoch datagram_id) (get_or-set_self entries idx (clear_entry e) zero_entry lt)
    ∙ cleared-is_waiting epoch datagram_id e

pub expire_at_keeps :
    (now epoch datagram_id : ℕ) (entries : List Entry) (idx x : ℕ)
    → idx < length entries
    → is_waiting epoch datagram_id (entry_at entries x) ≡ false
    → is_waiting epoch datagram_id (entry_at (expire_at now entries idx) x) ≡ false
expire_at_keeps now epoch datagram_id entries idx x lt h = elim (ℕ_discrete idx x) [
  | no ne ↦ ap (is_waiting epoch datagram_id) (expire_at_ne now entries idx x ne) ∙ h
  | yes same ↦
      if_intro (λ es. is_waiting epoch datagram_id (entry_at es x) ≡ false)
        (is_expired now (entry_at entries idx))
        (λ _. set_cleared epoch datagram_id entries idx x (entry_at entries idx) lt same) (λ _. h)
]

-- The probe of a place hits if a fragment of the datagram waits there and its time is not over.
abbrev pub is_hit : ℕ → ℕ → ℕ → Entry → Bool
is_hit now epoch datagram_id e =
    (is_occupied e && not (is_expired now e)) && holds epoch datagram_id e

not_waiting : (o x h : Bool) → (o && not x) && h ≡ false → x ≡ false → o && h ≡ false
not_waiting o x h e f = ground (arith, e, f)

-- A place that is probed without a hit waits for nothing afterwards.
expire_at_self :
    (now epoch datagram_id : ℕ) (entries : List Entry) (idx : ℕ)
    → idx < length entries
    → is_hit now epoch datagram_id (entry_at entries idx) ≡ false
    → is_waiting epoch datagram_id (entry_at (expire_at now entries idx) idx) ≡ false
expire_at_self now epoch datagram_id entries idx lt h =
    if_intro (λ es. is_waiting epoch datagram_id (entry_at es idx) ≡ false)
      (is_expired now (entry_at entries idx))
      (λ _. set_cleared epoch datagram_id entries idx idx (entry_at entries idx) lt refl)
      (λ fresh.
        not_waiting (is_occupied (entry_at entries idx)) (is_expired now (entry_at entries idx))
          (holds epoch datagram_id (entry_at entries idx)) h fresh)

pub waiting-is_hit : (o x h : Bool) → o && h ≡ false → (o && not x) && h ≡ false
waiting-is_hit o x h e = ground (arith, e)

-- No place has a hit.
abbrev pub NoHit : ℕ → ℕ → ℕ → List Entry → Type 0
NoHit now epoch datagram_id entries =
    (x : ℕ) → is_hit now epoch datagram_id (entry_at entries x) ≡ false

expire_at-NoHit :
    (now epoch datagram_id : ℕ) (entries : List Entry) (idx : ℕ)
    → idx < length entries
    → NoHit now epoch datagram_id entries
    → NoHit now epoch datagram_id (expire_at now entries idx)
expire_at-NoHit now epoch datagram_id entries idx lt h x = elim (ℕ_discrete idx x) [
  | no ne ↦ ap (is_hit now epoch datagram_id) (expire_at_ne now entries idx x ne) ∙ h x
  | yes same ↦ waiting-is_hit _ (is_expired now (entry_at (expire_at now entries idx) x)) _ (
      ap (λ y. is_waiting epoch datagram_id (entry_at (expire_at now entries idx) y)) (sym same)
      ∙ expire_at_self now epoch datagram_id entries idx lt (h idx))
]

-- The places that are probed from a base on.
abbrev pub place : ℕ → ℕ → ℕ
place base i = (base + i) % table_size

abbrev pub IsPlace : ℕ → ℕ → Type 0
IsPlace base x = (k : ℕ) × ((k < 8) × (x ≡ place base k))

abbrev pub AllPlaces : ℕ → Option ℕ → Type 0
AllPlaces base none = Unit
AllPlaces base (some x) = IsPlace base x

record IsProbe (base : ℕ) (p : Probe) : Type 0 where
  empty : AllPlaces base p.empty_idx
  oldest : AllPlaces base p.oldest_idx

probed_of :
    (base a : ℕ) (e o : Option ℕ)
    → base < table_size
    → AllPlaces base e
    → AllPlaces base o
    → IsPlace base (probed (record { empty_idx = e; oldest_idx = o; oldest_age = a }) base)
probed_of base a none none lt he ho =
    (0, (omega arith, sym (ap (λ n. n % table_size) (omega arith) ∙ mod-eq_of_lt lt)))
probed_of base a none (some x) lt he ho = ho
probed_of base a (some x) o lt he ho = he

probed-IsPlace :
    (base : ℕ) (p : Probe) → base < table_size → IsProbe base p → IsPlace base (probed p base)
probed-IsPlace base p lt h =
    probed_of base p.oldest_age p.empty_idx p.oldest_idx lt h.empty h.oldest

first_free-AllPlaces :
    (base x : ℕ) (o : Option ℕ)
    → IsPlace base x
    → AllPlaces base o
    → AllPlaces base (first_free o x)
first_free-AllPlaces base x none h k = h
first_free-AllPlaces base x (some y) h k = k

older_of :
    (base x a b : ℕ) (e o : Option ℕ)
    → IsPlace base x
    → AllPlaces base e
    → AllPlaces base o
    → IsProbe base (older x a (record { empty_idx = e; oldest_idx = o; oldest_age = b }))
older_of base x a b e none h he ho = record { empty = he; oldest = h }
older_of base x a b e (some y) h he ho =
    if_intro (IsProbe base) (ltb b a) (λ _. record { empty = he; oldest = h })
      (λ _. record { empty = he; oldest = ho })

step-IsProbe :
    (base i a : ℕ) (p : Probe) (occupied : Bool)
    → i < 8
    → IsProbe base p
    → IsProbe base (
        if not occupied
        then record p { empty_idx = first_free p.empty_idx (place base i) }
        else older (place base i) a p)
step-IsProbe base i a p true lt h =
    older_of base (place base i) a p.oldest_age p.empty_idx p.oldest_idx (i, (lt, refl)) h.empty
      h.oldest
step-IsProbe base i a p false lt h = record {
  empty = first_free-AllPlaces base (place base i) p.empty_idx (i, (lt, refl)) h.empty;
  oldest = h.oldest;
}

-- What a pick without a hit gives: a place that was probed, and nothing waits at any of them.
pub record IsPicked (epoch datagram_id base : ℕ) (r : List Entry × ℕ) : Type 0 where
  pub size : length r.0 ≡ table_size
  pub spot : IsPlace base r.1
  pub unused : (j : ℕ) → j < 8 → is_waiting epoch datagram_id (entry_at r.0 (place base j)) ≡ false

pick_loop-IsPicked :
    (n epoch datagram_id now base i : ℕ) (entries : List Entry) (p : Probe)
    → i + n ≡ 8
    → base < table_size
    → length entries ≡ table_size
    → NoHit now epoch datagram_id entries
    → IsProbe base p
    → ((j : ℕ) → j < i → is_waiting epoch datagram_id (entry_at entries (place base j)) ≡ false)
    → IsPicked epoch datagram_id base (pick_loop n epoch datagram_id now base i entries p)
unfolding pick_loop
pick_loop-IsPicked zero epoch datagram_id now base i entries p count lt size no_hit probe before =
    record {
      size = size;
      spot = probed-IsPlace base p lt probe;
      unused = λ j h. before j (omega (arith, count, h));
    }
pick_loop-IsPicked (suc n) epoch datagram_id now base i entries p count lt size no_hit probe
      before =
    let idx = place base i in
    let inside : idx < length entries = omega (arith, place_lt (base + i), size) in
    rw (no_hit idx) (
      pick_loop-IsPicked n epoch datagram_id now base (i + 1) (expire_at now entries idx) _
        (omega (arith, count)) lt (length-expire_at now entries idx ∙ size)
        (expire_at-NoHit now epoch datagram_id entries idx inside no_hit)
        (step-IsProbe base i (age now (entry_at entries idx)) p _ (omega (arith, count)) probe)
        (λ j h. elim (ℕ_discrete j i) [
          | yes e ↦
              ap
                (λ k.
                  is_waiting epoch datagram_id
                    (entry_at (expire_at now entries idx) (place base k)))
                e
              ∙ expire_at_self now epoch datagram_id entries idx inside (no_hit idx)
          | no ne ↦
              expire_at_keeps now epoch datagram_id entries idx (place base j) inside
                (before j (omega (arith, ne, h)))
        ]))

-- A new datagram gets a place where nothing of it waits.
pub pick_slot-IsPicked :
    (epoch datagram_id now : ℕ) (entries : List Entry)
    → length entries ≡ table_size
    → NoHit now epoch datagram_id entries
    → IsPicked epoch datagram_id
        (base_of epoch datagram_id)
        (pick_slot epoch datagram_id now entries)
unfolding pick_slot
pick_slot-IsPicked epoch datagram_id now entries size no_hit =
    pick_loop-IsPicked 8 epoch datagram_id now (base_of epoch datagram_id) 0 entries _ refl
      (place_lt _) size no_hit (record { empty = tt; oldest = tt })
      (λ j h. absurd (omega (arith, h)))
