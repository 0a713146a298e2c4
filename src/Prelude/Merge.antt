-- ===== src/Prelude/Merge.antt =====
-- `x << k | y` for a `y` below `2 ^ k`, and a 32-bit number by its bytes.
use Prim.Native.Nat.{
  ℕ, zero, suc, ◌+◌, ◌*◌, ◌/◌, ◌^◌, ◌≤◌, ◌<◌, max, bit_or, digits, bit_or-bitwise,
}
use mathlib.Core.Path.{◌≡◌, refl, ◌∙◌, ap}
use native.Mathlib.Nat.{pow-suc}
use native.Mathlib.Omega.{arith}

merged : (n k q a b : ℕ) → a ≤ n → a ≡ q * 2 ^ k → b < 2 ^ k → digits (λ b. b) max n a b ≡ a + b
merged zero k q zero b h e lt = omega arith
merged zero k q (suc a) b h e lt = absurd (omega (arith, h))
merged (suc n) k q zero b h e lt = omega arith
merged (suc n) zero q (suc a) b h e lt =
    omega
      (arith, merged n 0 (suc a / 2) (suc a / 2) (b / 2) (omega arith) (omega arith) (omega arith))
merged (suc n) (suc k) q (suc a) b h e lt =
    let half : suc a ≡ q * 2 ^ k * 2 = omega (arith, e, ap (λ p. q * p) (pow-suc 2 k)) in
    omega (
      arith,
      half,
      merged n k q (suc a / 2) (b / 2) (omega arith) (omega (arith, half))
          (omega (arith, lt, pow-suc 2 k)),
    )

pub bit_or_shifted : (k q b : ℕ) → b < 2 ^ k → bit_or (q * 2 ^ k) b ≡ q * 2 ^ k + b
bit_or_shifted k q b lt =
    bit_or-bitwise (q * 2 ^ k) b ∙ merged (q * 2 ^ k) k q (q * 2 ^ k) b (omega arith) refl lt
