-- ===== src/Flow/Table/Cache.antt =====
-- src/core/flow/flow_table.c: what a pick leaves in the cache of a thread.
use mathlib.Core.Bool.{true≢false}
use mathlib.Core.Path.{subst}
use ne_encryptor.Prelude.{
  ℕ, zero, suc, sym, ◌⊎◌, inl, inr, ◌+◌, ◌-◌, ◌%◌, ◌^◌, ◌<◌, ◌≡◌, ◌≢◌, refl, ap, ◌∙◌, bit_and, Bool,
  true, false, Option, some, none, List, arith, ◌&&◌, length, get_or, set, if_intro, bit_and_mask,
  get_or-set_self, get_or-set_ne, length-set, ℕ_discrete,
}
use ne_encryptor.Prelude.Int.{ℤ}
use ne_encryptor.Flow.Swrr.{
  FlowKey, SwrrState, zero_state, settle, pick_earned, flow_swrr_pick, flow_swrr_reset,
  flow_swrr_pool_same,
}
use ne_encryptor.Flow.Table.{
  Tls, swrr_sets, swrr_ways, empty_set, key_equal, find_way, choose_from, choose_state, pick_in_set,
}

key_equal→eq : (a b : FlowKey) → key_equal a b ≡ true → a ≡ b
key_equal→eq a b h = ground arith

abbrev holds_key : FlowKey → SwrrState → Bool
holds_key key s = s.valid && key_equal s.key key

-- What the search of a set returns: a way that holds the key, or one to give up if none does.
abbrev IsWay : List SwrrState → FlowKey → ℕ → Option ℕ × ℕ → Type 0
IsWay ways key end (none, victim) =
    (victim < end) × ((w : ℕ) → w < end → holds_key key (get_or ways w zero_state) ≡ false)
IsWay ways key end (some way, victim) =
    (way < end)
    × ((get_or ways way zero_state).valid ≡ true)
    × ((get_or ways way zero_state).key ≡ key)

find_way-IsWay :
    (ways : List SwrrState) (key : FlowKey) (n way victim end : ℕ)
    → way + n ≡ end
    → victim < end
    → ((w : ℕ) → w < way → holds_key key (get_or ways w zero_state) ≡ false)
    → IsWay ways key end (find_way ways key n way victim)
unfolding find_way
find_way-IsWay ways key zero way victim end e h clear = (h, λ w lt. clear w (omega (arith, lt, e)))
find_way-IsWay ways key (suc n) way victim end e h clear =
    let entry = get_or ways way zero_state in
    if_intro (IsWay ways key end) (holds_key key entry)
      (λ hit. (omega arith, ground (arith, hit), key_equal→eq _ _ (ground (arith, hit))))
      (λ miss.
        find_way-IsWay ways key n (way + 1) _ end (omega arith) (ground (arith, h, e)) (λ w lt.
          elim (ℕ_discrete w way) [ yes p ↦ rw (p) miss | no p ↦ clear w (omega (arith, lt, p)) ]))

-- No two ways of a set hold the same key.
abbrev pub IsUnique : List SwrrState → Type 0
IsUnique ways =
    (a b : ℕ)
    → a < swrr_ways
    → b < swrr_ways
    → (get_or ways a zero_state).valid ≡ true
    → (get_or ways b zero_state).valid ≡ true
    → (get_or ways a zero_state).key ≡ (get_or ways b zero_state).key
    → a ≡ b

-- No other way of the set holds the key.
abbrev IsAlone : List SwrrState → FlowKey → ℕ → Type 0
IsAlone ways key way =
    (w : ℕ)
    → w < swrr_ways
    → (get_or ways w zero_state).valid ≡ true
    → (get_or ways w zero_state).key ≡ key
    → way ≡ w

key_equal_refl : (k : FlowKey) → key_equal k k ≡ true
key_equal_refl k = ground arith

missed :
    (key : FlowKey) (e : SwrrState) (w way : ℕ)
    → holds_key key e ≡ false
    → e.valid ≡ true
    → e.key ≡ key
    → way ≡ w
missed key e w way miss valid same =
    let found : holds_key key e ≡ true =
      ap (λ b. b && key_equal e.key key) valid
      ∙ ap (λ k. key_equal k key) same
      ∙ key_equal_refl key in
    absurd (true≢false (sym found ∙ miss))

abbrev Serves : List SwrrState → FlowKey → ℕ × SwrrState → Type 0
Serves ways key r =
    (r.0 < swrr_ways) × (r.1.valid ≡ true) × (r.1.key ≡ key) × IsAlone ways key (r.0)

choose_from-Serves :
    (ways : List SwrrState) (key : FlowKey) (hash : ℕ) (aw : List ℤ) (n : ℕ) (r : Option ℕ × ℕ)
    → IsUnique ways
    → IsWay ways key swrr_ways r
    → Serves ways key (choose_from ways key hash aw n r)
unfolding choose_from flow_swrr_reset
choose_from-Serves ways key hash aw n (none, victim) unique (h, miss) =
    (h, refl, refl, λ w lt. missed key (get_or ways w zero_state) w victim (miss w lt))
choose_from-Serves ways key hash aw n (some way, victim) unique (h, valid, same) =
    let alone : IsAlone ways key way = λ w lt v k. unique way w h lt valid v (same ∙ sym k) in
    if_intro (λ s. Serves ways key (way, s)) (flow_swrr_pool_same (get_or ways way zero_state) aw n)
      (λ _. (h, valid, same, alone)) (λ _. (h, refl, refl, alone))

choose_state-Serves :
    (ways : List SwrrState) (key : FlowKey) (hash : ℕ) (aw : List ℤ) (n : ℕ)
    → IsUnique ways
    → Serves ways key (choose_state ways key hash aw n)
unfolding choose_state
choose_state-Serves ways key hash aw n unique = choose_from-Serves ways key hash aw n _ unique (
    find_way-IsWay ways key swrr_ways 0 0 swrr_ways (omega arith) (omega arith)
      (λ w lt. absurd (omega (arith, lt))))

-- What a set has at a way after another entry came to `way`.
at_way :
    (ways : List SwrrState) (way w : ℕ) (s : SwrrState)
    → way < length ways
    → ((way ≡ w) × (get_or (set ways way s) w zero_state ≡ s))
      ⊎ ((way ≢ w) × (get_or (set ways way s) w zero_state ≡ get_or ways w zero_state))
at_way ways way w s h = elim (ℕ_discrete way w) [
  | yes p ↦ inl (
    p,
    subst (λ i. get_or (set ways way s) i zero_state ≡ s) p
        (get_or-set_self ways way s zero_state h),
  )
  | no p ↦ inr (p, get_or-set_ne ways way w s zero_state p)
]

-- An entry for the key, put where it is alone, leaves the keys of a set different.
set-IsUnique :
    (ways : List SwrrState) (way : ℕ) (s : SwrrState)
    → way < length ways
    → IsUnique ways
    → IsAlone ways s.key way
    → IsUnique (set ways way s)
set-IsUnique ways way s h unique alone a b la lb va vb same = elim (at_way ways way a s h) [
  | inl (p, x) ↦ elim (at_way ways way b s h) [
    | inl (q, y) ↦ sym p ∙ q
    | inr (q, y) ↦
        sym p
        ∙ alone b lb (ap (λ e. e.valid) (sym y) ∙ vb)
            (ap (λ e. e.key) (sym y) ∙ sym same ∙ ap (λ e. e.key) x)
  ]
  | inr (p, x) ↦ elim (at_way ways way b s h) [
    | inl (q, y) ↦
        sym (
          alone a la (ap (λ e. e.valid) (sym x) ∙ va)
            (ap (λ e. e.key) (sym x) ∙ same ∙ ap (λ e. e.key) y))
        ∙ q
    | inr (q, y) ↦
        unique a b la lb (ap (λ e. e.valid) (sym x) ∙ va) (ap (λ e. e.valid) (sym y) ∙ vb)
          (ap (λ e. e.key) (sym x) ∙ same ∙ ap (λ e. e.key) y)
  ]
]

pick-key :
    (s : SwrrState) (aw : List ℤ) (weights : Option (List ℤ)) (n : ℕ)
    → ((flow_swrr_pick s aw weights n).0.key ≡ s.key)
      × ((flow_swrr_pick s aw weights n).0.valid ≡ s.valid)
      × ((flow_swrr_pick s aw weights n).0.stamp ≡ s.stamp)
unfolding flow_swrr_pick pick_earned settle
pick-key s aw weights n = ground arith

abbrev pub entry : List (List SwrrState) → ℕ → ℕ → SwrrState
entry sets i way = get_or (get_or sets i empty_set) way zero_state

-- A table of full size in which no set has a key twice.
abbrev pub IsCache : List (List SwrrState) → Type 0
IsCache sets =
    (length sets ≡ swrr_sets)
    × ((i : ℕ) → i < swrr_sets → length (get_or sets i empty_set) ≡ swrr_ways)
    × ((i : ℕ) → i < swrr_sets → IsUnique (get_or sets i empty_set))

set_of-lt : (hash : ℕ) → bit_and hash (swrr_sets - 1) < swrr_sets
set_of-lt hash = omega (arith, bit_and_mask 9 hash)

module _ (sets : List (List SwrrState)) (idx way : ℕ) (s : SwrrState) where
  abbrev stored : List (List SwrrState)
  stored = set sets idx (set (get_or sets idx empty_set) way s)

  entry-stored_self :
      idx < length sets → way < length (get_or sets idx empty_set) → entry stored idx way ≡ s
  entry-stored_self h k =
      rw (get_or-set_self sets idx (set (get_or sets idx empty_set) way s) empty_set h)
        (get_or-set_self (get_or sets idx empty_set) way s zero_state k)

  entry-stored_ne :
      (i w : ℕ) → idx < length sets → (idx ≡ i → way ≢ w) → entry stored i w ≡ entry sets i w
  entry-stored_ne i w h ne = elim (ℕ_discrete idx i) [
    | yes p ↦
        subst (λ i. entry stored i w ≡ entry sets i w) p
          (rw (get_or-set_self sets idx (set (get_or sets idx empty_set) way s) empty_set h)
            (get_or-set_ne (get_or sets idx empty_set) way w s zero_state (ne p)))
    | no p ↦ rw (get_or-set_ne sets idx i (set (get_or sets idx empty_set) way s) empty_set p)
  ]

  stored-IsCache :
      IsCache sets
      → idx < swrr_sets
      → way < swrr_ways
      → IsAlone (get_or sets idx empty_set) s.key way
      → IsCache stored
  stored-IsCache (rows, cols, uniques) h k alone =
      let row = set (get_or sets idx empty_set) way s in
      let here : get_or stored idx empty_set ≡ row =
        get_or-set_self sets idx row empty_set (omega (arith, h, rows)) in
      let good : (length row ≡ swrr_ways) × IsUnique row = (
        length-set (get_or sets idx empty_set) way s ∙ cols idx h,
        set-IsUnique (get_or sets idx empty_set) way s (omega (arith, k, cols idx h))
            (uniques idx h) alone,
      ) in
      let each : (i : ℕ)
          → i < swrr_sets
          → (length (get_or stored i empty_set) ≡ swrr_ways)
            × IsUnique (get_or stored i empty_set) =
        λ i lt. elim (ℕ_discrete idx i) [
          | yes p ↦
              subst
                (λ j.
                  (length (get_or stored j empty_set) ≡ swrr_ways)
                  × IsUnique (get_or stored j empty_set))
                p (rw (here) good)
          | no p ↦ rw (get_or-set_ne sets idx i row empty_set p) (cols i lt, uniques i lt)
        ] in
      (length-set sets idx row ∙ rows, λ i lt. (each i lt).0, λ i lt. (each i lt).1)

abbrev pub set_of : ℕ → ℕ
set_of hash = bit_and hash (swrr_sets - 1)

-- In an allocated table of full size in which no set has a key twice, a pick for a flow leaves
-- one entry in the set of the flow's hash that is valid, holds the key of the flow and bears the
-- new time stamp; every other entry and the default state are as they were, and still no set has
-- a key twice, so that a flow that has an entry keeps to it.
pub pick_in_set_caches :
    (t : Tls) (sets : List (List SwrrState)) (key : FlowKey) (hash : ℕ) (aw : List ℤ)
    (weights : Option (List ℤ)) (n : ℕ)
    → IsCache sets
    → let t' = (pick_in_set t sets key hash aw weights n).0 in
      (sets' : List (List SwrrState)) × (way : ℕ) × (t'.sets ≡ some sets')
      × (way < swrr_ways)
      × (t'.default_swrr ≡ t.default_swrr)
      × ((entry sets' (set_of hash) way).valid ≡ true)
      × ((entry sets' (set_of hash) way).key ≡ key)
      × ((entry sets' (set_of hash) way).stamp ≡ t'.clock)
      × ((i w : ℕ) → (set_of hash ≡ i → way ≢ w) → entry sets' i w ≡ entry sets i w)
      × IsCache sets'
unfolding pick_in_set
pick_in_set_caches t sets key hash aw weights n (rows, cols, uniques) =
    let idx = set_of hash in
    let ways = get_or sets idx empty_set in
    let chosen = choose_state ways key hash aw n in
    let (way_lt, was_valid, had_key, alone) =
      choose_state-Serves ways key hash aw n (uniques idx (set_of-lt hash)) in
    let s = record (chosen.1) { stamp = (t.clock + 1) % 2 ^ 64 } in
    let (key_kept, valid_kept, stamp_kept) = pick-key s aw weights n in
    let picked = (flow_swrr_pick s aw weights n).0 in
    let here =
      entry-stored_self sets idx chosen.0 picked (omega (arith, set_of-lt hash, rows))
        (omega (arith, cols idx (set_of-lt hash), way_lt)) in
    (
      stored sets idx chosen.0 picked,
      chosen.0,
      refl,
      way_lt,
      refl,
      ap (λ e. e.valid) here ∙ valid_kept ∙ was_valid,
      ap (λ e. e.key) here ∙ key_kept ∙ had_key,
      ap (λ e. e.stamp) here ∙ stamp_kept,
      λ i w ne.
          entry-stored_ne sets idx chosen.0 picked i w (omega (arith, set_of-lt hash, rows)) ne,
      stored-IsCache sets idx chosen.0 picked (rows, cols, uniques) (set_of-lt hash) way_lt
          (subst (λ k. IsAlone ways k chosen.0) (sym (key_kept ∙ had_key)) alone),
    )
