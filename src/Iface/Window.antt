-- ===== src/Iface/Window.antt =====
-- Storage that is used round and round: the items at the positions from `t` on, each at its
-- position's remainder by the capacity (src/core/iface/xdp_interface.c, `head & mask`).
use native.Mathlib.Nat.{mod-add-mod, mod-eq_of_lt, mod-eq-sub-mod, mod-lt, add-zero}
use ne_encryptor.Prelude.{
  ℕ, zero, suc, ◌+◌, ◌-◌, ◌%◌, ◌^◌, ◌≤◌, ◌<◌, ◌≡◌, ◌≢◌, refl, sym, ap, ◌∙◌, List, [], ◌∷◌, ◌++◌,
  arith, length, get_or, set, get_or-set_self, get_or-set_ne, dec_lt,
}

abbrev pub u32 : ℕ → ℕ
u32 n = n % 2 ^ 32

-- `uint32_t` subtraction wraps.
abbrev pub sub32 : ℕ → ℕ → ℕ
sub32 a b = (a + 2 ^ 32 - b) % 2 ^ 32

-- Two positions that are less than a round apart lie in different slots.
mod-ne_of_lt : (c a d : ℕ) → 0 < d → d < c → a % c ≢ (a + d) % c
mod-ne_of_lt c a d p q e = elim (dec_lt (a % c + d) c) [
  | yes h ↦ omega (arith, e ∙ sym (mod-add-mod a c d) ∙ mod-eq_of_lt h)
  | no h ↦ omega (
    arith,
    mod-lt a {m = c} (omega arith),
    e
        ∙ sym (mod-add-mod a c d)
        ∙ mod-eq-sub-mod {n = a % c + d} {m = c} (omega arith)
        ∙ mod-eq_of_lt {n = a % c + d - c} {m = c} (omega (arith, mod-lt a {m = c} (omega arith))),
  )
]

module _ {ℓ} {A : Type ℓ} (z : A) (cap : ℕ) where
  abbrev pub window : List A → ℕ → ℕ → List A
  window buf t zero = []
  window buf t (suc n) = get_or buf (t % cap) z ∷ window buf (t + 1) n

  pub length-window : (buf : List A) (t n : ℕ) → length (window buf t n) ≡ n
  length-window buf t zero = refl
  length-window buf t (suc n) = ap suc (length-window buf (t + 1) n)

  -- Only the slots of the positions count.
  pub window-cong : (buf : List A) (t u n : ℕ) → t % cap ≡ u % cap → window buf t n ≡ window buf u n
  window-cong buf t u zero e = refl
  window-cong buf t u (suc n) e = rw (
    e,
    window-cong buf (t + 1) (u + 1) n
        (sym (mod-add-mod t cap 1) ∙ ap (λ x. (x + 1) % cap) e ∙ mod-add-mod u cap 1),
  )

  window-snoc :
      (buf : List A) (t n : ℕ)
      → window buf t (suc n) ≡ window buf t n ++ get_or buf ((t + n) % cap) z ∷ []
  window-snoc buf t zero = rw add-zero
  window-snoc buf t (suc n) =
      ap (λ w. get_or buf (t % cap) z ∷ w)
        (window-snoc buf (t + 1) n
          ∙ ap (λ k. window buf (t + 1) n ++ get_or buf (k % cap) z ∷ []) (omega arith))

  window-set_ne :
      (buf : List A) (t n i : ℕ) (x : A)
      → ((k : ℕ) → k < n → i ≢ (t + k) % cap)
      → window (set buf i x) t n ≡ window buf t n
  window-set_ne buf t zero i x h = refl
  window-set_ne buf t (suc n) i x h = rw (
    get_or-set_ne buf i (t % cap) x z (rw add-zero at (h 0 (omega arith))),
    window-set_ne buf (t + 1) n i x
        (λ k lt. let e : t + suc k ≡ t + 1 + k = omega arith in rw e at (h (suc k) (omega arith))),
  )

  -- A write just behind a window with room to spare extends it.
  pub window-set :
      (buf : List A) (t n : ℕ) (x : A)
      → cap ≤ length buf
      → n < cap
      → window (set buf ((t + n) % cap) x) t (suc n) ≡ window buf t n ++ x ∷ []
  window-set buf t n x h k =
      window-snoc (set buf ((t + n) % cap) x) t n
      ∙ rw (
        window-set_ne buf t n ((t + n) % cap) x (λ i lt e.
            let step : t + n ≡ t + i + (n - i) = omega arith in
            mod-ne_of_lt cap (t + i) (n - i) (omega arith) (omega arith)
              (sym e ∙ ap (λ p. p % cap) step)),
        get_or-set_self buf ((t + n) % cap) x z
            (omega (arith, mod-lt (t + n) {m = cap} (omega arith))),
      )
