-- ===== src/Prelude/Bits.antt =====
-- `x & (2^k - 1)` is the remainder by `2 ^ k`.
use Prim.Native.Nat.{
  ℕ, zero, suc, ◌+◌, ◌-◌, ◌*◌, ◌/◌, ◌%◌, ◌^◌, ◌≤◌, ◌<◌, min, bit_and, digits, bit_and-bitwise,
}
use mathlib.Core.Path.{◌≡◌, refl, sym, ◌∙◌, ap}
use native.Mathlib.Nat.{
  pow-suc, pow-succ', one-le-pow, zero-mod, mod-one, mod-eq_of_lt, add-mul-mod_self_left, mod-lt,
  div-add-mod,
}
use mathlib.Core.Bool.{Bool, true, ◌&&◌}
use native.Mathlib.Omega.{arith}
use native.Mathlib.Decide.{dec_lt}

half_mod : (m a : ℕ) → 0 < m → a / 2 % m * 2 + a % 2 ≡ a % (2 * m)
half_mod m a h =
    let x = a / 2 % m * 2 + a % 2 in
    sym (
      ap (λ t. t % (2 * m)) (omega (arith, div-add-mod (a / 2) m))
      ∙ add-mul-mod_self_left x (2 * m) (a / 2 / m)
      ∙ mod-eq_of_lt (omega (arith, mod-lt (a / 2) h)))

masked : (n k a : ℕ) → a ≤ n → digits (λ _. 0) min n a (2 ^ k - 1) ≡ a % 2 ^ k
masked zero k zero h = omega (arith, zero-mod (2 ^ k))
masked zero k (suc a) h = elim h [ ]
masked (suc n) k zero h = omega (arith, zero-mod (2 ^ k))
masked (suc n) zero (suc a) h =
    omega (arith, masked n 0 (suc a / 2) (omega arith), mod-one (suc a), mod-one (suc a / 2))
masked (suc n) (suc k) (suc a) h =
    let low : (2 ^ suc k - 1) / 2 ≡ 2 ^ k - 1 = omega (arith, pow-suc 2 k, one-le-pow k 2) in
    let odd : (2 ^ suc k - 1) % 2 ≡ 1 = omega (arith, pow-suc 2 k, one-le-pow k 2) in
    rw (low, odd, masked n k (suc a / 2) (omega arith))
      (omega (
        arith,
        half_mod (2 ^ k) (suc a) (one-le-pow k 2 (omega arith)),
        ap (λ t. suc a % t) (pow-succ' 2 k),
      ))

pub bit_and_mask : (k a : ℕ) → bit_and a (2 ^ k - 1) ≡ a % 2 ^ k
bit_and_mask k a = bit_and-bitwise a (2 ^ k - 1) ∙ masked a k a (omega arith)

digits_self : (n a : ℕ) → a ≤ n → digits (λ _. 0) min n a a ≡ a
digits_self zero zero h = refl
digits_self zero (suc a) h = elim h [ ]
digits_self (suc n) zero h = refl
digits_self (suc n) (suc a) h = omega (arith, digits_self n (suc a / 2) (omega arith))

-- Why `(x & (x - 1)) == 0` tests for a power of two.
pow_of_digits :
    (n a : ℕ) → suc a ≤ n → digits (λ _. 0) min n (suc a) a ≡ 0 → (k : ℕ) × (suc a ≡ 2 ^ k)
pow_of_digits zero a h e = elim h [ ]
pow_of_digits (suc n) a h e = elim (dec_lt (a % 2) 1) [
  | yes even ↦
      let q : a / 2 ≡ suc a / 2 = omega arith in
      (
        0,
        omega (
          arith,
          digits_self n (suc a / 2) (omega arith),
          ap (λ b. digits (λ _. 0) min n (suc a / 2) b) q,
          e,
        ),
      )
  | no odd ↦
      let q : suc (a / 2) ≡ suc a / 2 = omega arith in
      let r : digits (λ _. 0) min n (suc (a / 2)) (a / 2) ≡ 0 =
        omega (arith, ap (λ b. digits (λ _. 0) min n b (a / 2)) q, e) in
      let (k, p) = pow_of_digits n (a / 2) (omega arith) r in (suc k, omega (arith, p, pow-suc 2 k))
]

pub pow_of_mask : (a : ℕ) → 0 < a → bit_and a (a - 1) ≡ 0 → (k : ℕ) × (a ≡ 2 ^ k)
pow_of_mask zero h e = elim h [ ]
pow_of_mask (suc a) h e =
    let b : suc a - 1 ≡ a = omega arith in
    pow_of_digits (suc a) a (omega arith)
      (sym (bit_and-bitwise (suc a) a) ∙ ap (bit_and (suc a)) (sym b) ∙ e)

-- Over a small range, every value is tried.
unfoldable pub all_below : ℕ → (ℕ → Bool) → Bool
all_below zero p = true
all_below (suc n) p = p n && all_below n p

pub all_below_sound : (n : ℕ) (p : ℕ → Bool) (x : ℕ) → all_below n p ≡ true → x < n → p x ≡ true
unfolding all_below
all_below_sound zero p x h lt = elim lt [ ]
all_below_sound (suc n) p x h lt = ground (arith, all_below_sound n p x)
