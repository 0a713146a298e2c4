-- ===== src/Iface/Ring/Shape.antt =====
-- src/core/iface/xdp_interface.c: the shape of a ring.
use native.Mathlib.Nat.{mod-mod_of_dvd, dvd_of_mod-eq-zero, pow-le-pow_right, one-le-pow}
use ne_encryptor.Prelude.{
  ℕ, ◌+◌, ◌-◌, ◌%◌, ◌^◌, ◌≤◌, ◌<◌, ◌≡◌, refl, bit_and, Bool, true, some, arith, ◌==◌, length, set,
  length-set, length-replicate, replicate, bit_and_mask, pow_of_mask, dec_lt, all_below,
  all_below_sound, ==_iff,
}
use ne_encryptor.Iface.Window.{u32, sub32}
use ne_encryptor.Iface.Ring.{
  Packet, zero_packet, Ring, ring_init, ring_count, try_push, try_push_pair, try_pop,
}

pub record IsValid (r : Ring) : Type 0 where
  pub exponent : ℕ
  pub small : exponent < 32
  pub cap_eq : r.cap ≡ 2 ^ exponent
  pub mask_eq : r.mask ≡ 2 ^ exponent - 1
  pub storage : length r.buf ≡ r.cap
  pub head_in : r.head < 2 ^ 32
  pub tail_in : r.tail < 2 ^ 32
  pub filled : sub32 r.head r.tail ≤ r.cap

powers_divide : all_below 32 (λ k. 2 ^ 32 % 2 ^ k == 0) ≡ true
unfolding all_below
powers_divide = refl

pub divides : (k : ℕ) → k < 32 → 2 ^ 32 % 2 ^ k ≡ 0
divides k h = (==_iff _ _).0 (all_below_sound 32 (λ k. 2 ^ 32 % 2 ^ k == 0) k powers_divide h)

small_of_lt : (k : ℕ) → 2 ^ k < 2 ^ 32 → k < 32
small_of_lt k h = elim (dec_lt k 32) [
  | yes p ↦ p
  | no p ↦
      absurd
        (omega (arith, h, pow-le-pow_right {n = 2} (omega arith) {i = 32} {j = k} (omega arith)))
]

module _ (r : Ring) (v : IsValid r) where
  -- `& mask` finds the slot of a position, and a counter's wrap does not change the slot.
  pub slot_lem : (p : ℕ) → bit_and p r.mask ≡ p % r.cap
  slot_lem p = rw (v.mask_eq, v.cap_eq) (bit_and_mask v.exponent p)

  pub slot-u32 : (p : ℕ) → u32 p % r.cap ≡ p % r.cap
  slot-u32 p =
      mod-mod_of_dvd r.cap p (dvd_of_mod-eq-zero r.cap (rw v.cap_eq (divides v.exponent v.small)))

  pub cap_bounds : (0 < r.cap) × (r.cap ≤ 2 ^ 31)
  cap_bounds = omega (
    arith,
    v.cap_eq,
    one-le-pow v.exponent 2 (omega arith),
    pow-le-pow_right {n = 2} (omega arith) {i = v.exponent} {j = 31} (omega (arith, v.small)),
  )

  pub try_push-IsValid : (x : Packet) → IsValid (try_push r x).0
  unfolding try_push
  try_push-IsValid x = ground (arith, v, cap_bounds, length-set r.buf (bit_and r.head r.mask) x)

  pub try_push_pair-IsValid : (x y : Packet) → 2 ≤ r.cap → IsValid (try_push_pair r x y).0
  unfolding try_push_pair
  try_push_pair-IsValid x y h = ground (
    arith,
    v,
    cap_bounds,
    length-set r.buf (bit_and r.head r.mask) x,
    length-set (set r.buf (bit_and r.head r.mask) x) (bit_and (u32 (r.head + 1)) r.mask) y,
  )

  pub try_pop-IsValid : IsValid (try_pop r).0
  unfolding try_pop
  try_pop-IsValid = ground (arith, v, cap_bounds)

-- A ring that `ring_init` makes, of a 32-bit capacity, is valid, empty and as large as asked for.
pub ring_init-IsValid :
    (cap : ℕ) (mpsc alloc_ok push_ok pop_ok : Bool) {r : Ring}
    → cap < 2 ^ 32
    → ring_init cap mpsc alloc_ok push_ok pop_ok ≡ some r
    → IsValid r × (r.cap ≡ cap) × (ring_count r ≡ 0)
unfolding ring_init ring_count
ring_init-IsValid cap mpsc alloc_ok push_ok pop_ok {r} h e =
    let positive : 0 < cap = ground arith in
    let single : bit_and cap (cap - 1) ≡ 0 = ground arith in
    let (k, p) = pow_of_mask cap positive single in
    let made : r ≡ record {
      buf = replicate cap zero_packet;
      cap = cap;
      mask = cap - 1;
      head = 0;
      tail = 0;
      mpsc_pop = mpsc;
    } =
      ground arith in
    rw made (
      record {
        exponent = k;
        small = small_of_lt k (omega arith);
        cap_eq = p;
        mask_eq = omega arith;
        storage = length-replicate cap zero_packet;
        head_in = omega arith;
        tail_in = omega arith;
        filled = omega arith;
      },
      refl,
      refl,
    )
