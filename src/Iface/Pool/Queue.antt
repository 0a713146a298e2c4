-- ===== src/Iface/Pool/Queue.antt =====
-- src/core/iface/xdp_interface.c: the pool of frames, beside a queue of addresses.
use native.Mathlib.Nat.{
  mod-mod_of_dvd, dvd_of_mod-eq-zero, one-le-pow, pow-le-pow_right, add-zero, mod-add-mod,
}
use mathlib.Core.List.{append-nil, append_assoc}
use ne_encryptor.Prelude.{
  ℕ, zero, suc, ◌+◌, ◌-◌, ◌%◌, ◌^◌, ◌≤◌, ◌<◌, ◌≡◌, refl, sym, ap, ◌∙◌, bit_and, bit_and_mask, List,
  [], ◌∷◌, ◌++◌, arith, get_or, set, length, length-set,
}
use ne_encryptor.Iface.Window.{u32, sub32, window, window-set, window-cong, length-window}
use ne_encryptor.Iface.Ring.Shape.{divides}
use ne_encryptor.Iface.Pool.{Pool, fill_slots, read_slots, at_most, pool_push, pool_pop}

-- The shape that `pool_init` makes.
pub record IsPool (p : Pool) : Type 0 where
  pub exponent : ℕ
  pub small : exponent < 32
  pub cap_eq : p.cap ≡ 2 ^ exponent
  pub mask_eq : p.mask ≡ 2 ^ exponent - 1
  pub storage : length p.buf ≡ p.cap
  pub head_in : p.head < 2 ^ 32
  pub tail_in : p.tail < 2 ^ 32
  pub filled : sub32 p.head p.tail ≤ p.cap

-- The free frames, in the order in which they will be given out.
abbrev pub frames : Pool → List ℕ
frames p = window 0 p.cap p.buf p.tail (sub32 p.head p.tail)

module _ (k : ℕ) (small : k < 32) where
  next_slot : (a b : ℕ) → a % 2 ^ k ≡ b % 2 ^ k → u32 (a + 1) % 2 ^ k ≡ (b + 1) % 2 ^ k
  next_slot a b e =
      mod-mod_of_dvd (2 ^ k) (a + 1) (dvd_of_mod-eq-zero (2 ^ k) (divides k small))
      ∙ sym (mod-add-mod a (2 ^ k) 1)
      ∙ ap (λ x. (x + 1) % 2 ^ k) e
      ∙ mod-add-mod b (2 ^ k) 1

  read_slots_lem :
      (buf : List ℕ) (n tail t : ℕ)
      → tail % 2 ^ k ≡ t % 2 ^ k
      → read_slots n (2 ^ k - 1) buf tail ≡ window 0 (2 ^ k) buf t n
  unfolding read_slots
  read_slots_lem buf zero tail t e = refl
  read_slots_lem buf (suc n) tail t e =
      rw
        (bit_and_mask k tail, e, read_slots_lem buf n (u32 (tail + 1)) (t + 1) (next_slot tail t e))

  fill_slots_lem :
      (addrs buf : List ℕ) (head t n : ℕ)
      → head % 2 ^ k ≡ (t + n) % 2 ^ k
      → 2 ^ k ≤ length buf
      → n + length addrs ≤ 2 ^ k
      → window 0 (2 ^ k) (fill_slots (length addrs) (2 ^ k - 1) buf head addrs) t (n + length addrs)
        ≡ window 0 (2 ^ k) buf t n ++ addrs
  unfolding fill_slots
  fill_slots_lem [] buf head t n e h room =
      rw add-zero (sym (append-nil (window 0 (2 ^ k) buf t n)))
  fill_slots_lem (a ∷ addrs) buf head t n e h room =
      let buf' = set buf (bit_and head (2 ^ k - 1)) a in
      let further : n + suc (length addrs) ≡ suc n + length addrs = omega arith in
      let at : bit_and head (2 ^ k - 1) ≡ (t + n) % 2 ^ k = bit_and_mask k head ∙ e in
      let behind : u32 (head + 1) % 2 ^ k ≡ (t + suc n) % 2 ^ k =
        next_slot head (t + n) e ∙ ap (λ x. x % 2 ^ k) (omega arith) in
      let rest =
        fill_slots_lem addrs buf' (u32 (head + 1)) t (suc n) behind
          (omega (arith, h, length-set buf (bit_and head (2 ^ k - 1)) a)) (omega (arith, room)) in
      ap (window 0 (2 ^ k) (fill_slots (length addrs) (2 ^ k - 1) buf' (u32 (head + 1)) addrs) t)
        further
      ∙ rest
      ∙ ap (λ w. w ++ addrs)
          (ap (λ i. window 0 (2 ^ k) (set buf i a) t (suc n)) at
            ∙ window-set 0 (2 ^ k) buf t n a h (omega (arith, room)))
      ∙ append_assoc (window 0 (2 ^ k) buf t n) (a ∷ []) addrs

  window-append :
      (buf : List ℕ) (t m n : ℕ)
      → window 0 (2 ^ k) buf t (m + n) ≡ window 0 (2 ^ k) buf t m ++ window 0 (2 ^ k) buf (t + m) n
  window-append buf t zero n =
      let none_more : 0 + n ≡ n = omega arith in rw (none_more, add-zero) refl
  window-append buf t (suc m) n =
      let more : suc m + n ≡ suc (m + n) = omega arith in
      let moved : t + 1 + m ≡ t + suc m = omega arith in
      ap (window 0 (2 ^ k) buf t) more
      ∙ ap (λ w. get_or buf (t % 2 ^ k) 0 ∷ w)
          (window-append buf (t + 1) m n
            ∙ ap (λ x. window 0 (2 ^ k) buf (t + 1) m ++ window 0 (2 ^ k) buf x n) moved)

module _ (p : Pool) (v : IsPool p) where
  cap_below : (0 < p.cap) × (p.cap ≤ 2 ^ 31)
  cap_below = omega (
    arith,
    v.cap_eq,
    one-le-pow v.exponent 2 (omega arith),
    pow-le-pow_right {n = 2} (omega arith) {i = v.exponent} {j = 31} (omega (arith, v.small)),
  )

  wrap_lem : (x : ℕ) → u32 x % 2 ^ v.exponent ≡ x % 2 ^ v.exponent
  wrap_lem x =
      mod-mod_of_dvd (2 ^ v.exponent) x
        (dvd_of_mod-eq-zero (2 ^ v.exponent) (divides v.exponent v.small))

  head_place : p.head % 2 ^ v.exponent ≡ (p.tail + sub32 p.head p.tail) % 2 ^ v.exponent
  head_place =
      ap (λ x. x % 2 ^ v.exponent) (omega (arith, v.head_in, v.tail_in))
      ∙ wrap_lem (p.tail + sub32 p.head p.tail)

  put_all :
      (addrs : List ℕ)
      → sub32 p.head p.tail + length addrs ≤ p.cap
      → at_most (length addrs) (sub32 p.cap (sub32 p.head p.tail)) ≡ length addrs
  put_all addrs room = ground (arith, room, cap_below)

  head_ahead :
      (m : ℕ)
      → sub32 p.head p.tail + m ≤ p.cap
      → sub32 (u32 (p.head + m)) p.tail ≡ sub32 p.head p.tail + m
  head_ahead m room = omega (arith, room, cap_below, v.head_in, v.tail_in)

-- On a valid pool with room for all of `addrs`, `pool_push` takes all of them, behind the frames
-- that are free already.
pub pool_push-frames :
    (p : Pool) (addrs : List ℕ)
    → IsPool p
    → sub32 p.head p.tail + length addrs ≤ p.cap
    → (frames ((pool_push p addrs).0) ≡ frames p ++ addrs) × ((pool_push p addrs).1 ≡ length addrs)
unfolding pool_push
pool_push-frames p addrs v room =
    let all = put_all p v addrs room in
    rw (all, head_ahead p v (length addrs) room)
      (
        rw (v.mask_eq, v.cap_eq)
            (fill_slots_lem v.exponent v.small addrs p.buf p.head p.tail (sub32 p.head p.tail)
              (head_place p v) (omega (arith, v.storage, v.cap_eq))
              (omega (arith, room, v.cap_eq))),
        refl,
      )

-- On a valid pool, the addresses that `pool_pop` gives out are the first of the free frames, as many
-- as were asked for or as there are, and the others stay free in their order.
pub pool_pop-frames :
    (p : Pool) (n : ℕ)
    → IsPool p
    → (frames p ≡ (pool_pop p n).1 ++ frames ((pool_pop p n).0))
      × (length ((pool_pop p n).1) ≡ at_most n (sub32 p.head p.tail))
unfolding pool_pop
pool_pop-frames p n v =
    let count = sub32 p.head p.tail in
    let got = at_most n count in
    let few : got ≤ count = ground arith in
    let left : sub32 p.head (u32 (p.tail + got)) ≡ count - got =
      omega (arith, few, v.head_in, v.tail_in, v.filled, cap_below p v) in
    let parts : count ≡ got + (count - got) = omega (arith, few) in
    let read = read_slots_lem v.exponent v.small p.buf got p.tail p.tail refl in
    let rest =
      window-cong 0 (2 ^ v.exponent) p.buf (u32 (p.tail + got)) (p.tail + got) (count - got)
        (wrap_lem p v (p.tail + got)) in
    rw (left, v.mask_eq, v.cap_eq, read, rest)
      (
        ap (window 0 (2 ^ v.exponent) p.buf p.tail) parts
            ∙ window-append v.exponent v.small p.buf p.tail got (count - got),
        length-window 0 (2 ^ v.exponent) p.buf p.tail got,
      )
