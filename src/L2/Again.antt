-- ===== src/L2/Again.antt =====
-- src/crypto/pqc/pqc_l2_option.c: the place where a fragment waits is found again.
use ne_encryptor.Prelude.{
  ℕ, zero, suc, ◌+◌, ◌≤◌, ◌<◌, ◌≡◌, ◌≢◌, refl, sym, ap, ◌∙◌, true, false, List, arith, set, length,
  ℕ_discrete, get_or-set_self, get_or-set_ne, length-set,
}
use ne_encryptor.L2.Reasm.{
  Entry, zero_entry, is_expired, entry_at, expire_at, Probe, pick_loop, pick_slot, base_of,
  table_size,
}
use ne_encryptor.L2.Pick.{
  is_waiting, is_hit, place, place_lt, IsPicked, length-expire_at, expire_at_ne, expire_at_keeps,
  waiting-is_hit,
}

-- At the place `spot` the datagram has a hit, and at the other places nothing of it waits.
record IsHeld (now epoch datagram_id base spot : ℕ) (entries : List Entry) : Type 0 where
  size : length entries ≡ table_size
  hit : is_hit now epoch datagram_id (entry_at entries spot) ≡ true
  others :
      (j : ℕ)
      → j < 8
      → place base j ≢ spot
      → is_waiting epoch datagram_id (entry_at entries (place base j)) ≡ false

expire_at-IsHeld :
    (now epoch datagram_id base spot i : ℕ) (entries : List Entry)
    → place base i ≢ spot
    → IsHeld now epoch datagram_id base spot entries
    → IsHeld now epoch datagram_id base spot (expire_at now entries (place base i))
expire_at-IsHeld now epoch datagram_id base spot i entries ne h = record {
  size = length-expire_at now entries (place base i) ∙ h.size;
  hit = ap (is_hit now epoch datagram_id) (expire_at_ne now entries (place base i) spot ne) ∙ h.hit;
  others = λ j lt other.
      expire_at_keeps now epoch datagram_id entries (place base i) (place base j)
        (omega (arith, place_lt (base + i), h.size)) (h.others j lt other);
}

-- The result of a pick that finds the place again: the place, and the entry there as it was.
pub record IsFoundAt (spot : ℕ) (e : Entry) (r : List Entry × ℕ) : Type 0 where
  pub size : length r.0 ≡ table_size
  pub found : r.1 ≡ spot
  pub same : entry_at r.0 spot ≡ e

pub next_le : (base i k : ℕ) → i ≤ k → place base i ≢ place base k → i + 1 ≤ k
next_le base i k le ne = elim (ℕ_discrete i k) [
  | yes e ↦ absurd (ne (ap (place base) e))
  | no other ↦ omega (arith, le, other)
]

pick_loop-IsFoundAt :
    (n epoch datagram_id now base i k : ℕ) (entries : List Entry) (p : Probe)
    → i + n ≡ 8
    → i ≤ k
    → k < 8
    → IsHeld now epoch datagram_id base (place base k) entries
    → IsFoundAt
        (place base k)
        (entry_at entries (place base k))
        (pick_loop n epoch datagram_id now base i entries p)
unfolding pick_loop
pick_loop-IsFoundAt zero epoch datagram_id now base i k entries p count le lt h =
    absurd (omega (arith, count, le, lt))
pick_loop-IsFoundAt (suc n) epoch datagram_id now base i k entries p count le lt h =
    elim (ℕ_discrete (place base i) (place base k)) [
      | yes e ↦
          rw (ap (λ x. is_hit now epoch datagram_id (entry_at entries x)) e ∙ h.hit)
            (record { size = h.size; found = e; same = refl })
      | no ne ↦
          let miss : is_hit now epoch datagram_id (entry_at entries (place base i)) ≡ false =
            waiting-is_hit _ (is_expired now (entry_at entries (place base i))) _
              (h.others i (omega (arith, count)) ne) in
          let later =
            pick_loop-IsFoundAt n epoch datagram_id now base (i + 1) k
              (expire_at now entries (place base i)) _ (omega (arith, count))
              (next_le base i k le ne) lt
              (expire_at-IsHeld now epoch datagram_id base (place base k) i entries ne h) in
          rw miss (record {
            size = later.size;
            found = later.found;
            same = later.same ∙ expire_at_ne now entries (place base i) (place base k) ne;
          })
    ]

stored-IsHeld :
    (epoch datagram_id now base k : ℕ) (entries : List Entry) (e : Entry)
    → length entries ≡ table_size
    → ((j : ℕ) → j < 8 → is_waiting epoch datagram_id (entry_at entries (place base j)) ≡ false)
    → is_hit now epoch datagram_id e ≡ true
    → IsHeld now epoch datagram_id base (place base k) (set entries (place base k) e)
stored-IsHeld epoch datagram_id now base k entries e size unused hit = record {
  size = length-set entries (place base k) e ∙ size;
  hit =
      ap (is_hit now epoch datagram_id) (
        get_or-set_self entries (place base k) e zero_entry
          (omega (arith, place_lt (base + k), size)))
      ∙ hit;
  others = λ j lt other.
      ap (is_waiting epoch datagram_id) (
        get_or-set_ne entries (place base k) (place base j) e zero_entry (λ same. other (sym same)))
      ∙ unused j lt;
}

-- The entry `e` is stored at the place that was picked for a new datagram. As long as it waits and
-- its time is not over, the next pick of the datagram finds it.
pub pick_slot-IsFoundAt :
    (epoch datagram_id now : ℕ) (r : List Entry × ℕ) (e : Entry)
    → IsPicked epoch datagram_id (base_of epoch datagram_id) r
    → is_hit now epoch datagram_id e ≡ true
    → IsFoundAt (r.1) e (pick_slot epoch datagram_id now (set (r.0) (r.1) e))
unfolding pick_slot
pick_slot-IsFoundAt epoch datagram_id now r e h hit =
    let base = base_of epoch datagram_id in
    let (k, (lt, spot)) = h.spot in
    let held = stored-IsHeld epoch datagram_id now base k (r.0) e h.size h.unused hit in
    let found =
      pick_loop-IsFoundAt 8 epoch datagram_id now base 0 k (set (r.0) (place base k) e) _ refl
        (omega arith) lt held in
    rw (spot) (record {
      size = found.size;
      found = found.found;
      same =
          found.same
          ∙ get_or-set_self (r.0) (place base k) e zero_entry
              (omega (arith, place_lt (base + k), h.size));
    })
