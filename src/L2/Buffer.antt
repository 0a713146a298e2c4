-- ===== src/L2/Buffer.antt =====
-- src/crypto/pqc/pqc_l2_option.c: what `memcpy` into and out of a buffer do to each other.
use ne_encryptor.Prelude.{
  ℕ, zero, suc, ◌+◌, ◌-◌, ◌≤◌, ◌<◌, ◌≡◌, refl, sym, ap, ◌∙◌, List, [], ◌∷◌, ◌++◌, arith, length,
  take, drop, length-append, length-take, length-drop,
}
use ne_encryptor.Eth.{byte}
use ne_encryptor.L2.{slice, put}

pub drop_at : (xs ys : List ℕ) (n : ℕ) → length xs ≡ n → drop n (xs ++ ys) ≡ ys
drop_at [] ys zero e = refl
drop_at [] ys (suc n) e = absurd (omega (arith, e))
drop_at (x ∷ xs) ys zero e = absurd (omega (arith, e))
drop_at (x ∷ xs) ys (suc n) e = drop_at xs ys n (omega (arith, e))

pub take_at : (xs ys : List ℕ) (n : ℕ) → length xs ≡ n → take n (xs ++ ys) ≡ xs
take_at [] ys zero e = refl
take_at [] ys (suc n) e = absurd (omega (arith, e))
take_at (x ∷ xs) ys zero e = absurd (omega (arith, e))
take_at (x ∷ xs) ys (suc n) e = ap (λ zs. x ∷ zs) (take_at xs ys n (omega (arith, e)))

pub take-append_le : (n : ℕ) (xs ys : List ℕ) → n ≤ length xs → take n (xs ++ ys) ≡ take n xs
take-append_le zero xs ys h = refl
take-append_le (suc n) [] ys h = absurd (omega (arith, h))
take-append_le (suc n) (x ∷ xs) ys h = ap (λ zs. x ∷ zs) (take-append_le n xs ys (omega (arith, h)))

pub take-take : (n m : ℕ) (xs : List ℕ) → n ≤ m → take n (take m xs) ≡ take n xs
take-take zero m xs h = refl
take-take (suc n) zero xs h = absurd (omega (arith, h))
take-take (suc n) (suc m) [] h = refl
take-take (suc n) (suc m) (x ∷ xs) h = ap (λ zs. x ∷ zs) (take-take n m xs (omega (arith, h)))

pub append_assoc : (xs ys zs : List ℕ) → (xs ++ ys) ++ zs ≡ xs ++ (ys ++ zs)
append_assoc [] ys zs = refl
append_assoc (x ∷ xs) ys zs = ap (λ ws. x ∷ ws) (append_assoc xs ys zs)

pub get_or-append_le : (xs ys : List ℕ) (i : ℕ) → i < length xs → byte (xs ++ ys) i ≡ byte xs i
get_or-append_le [] ys i h = absurd (omega (arith, h))
get_or-append_le (x ∷ xs) ys zero h = refl
get_or-append_le (x ∷ xs) ys (suc i) h = get_or-append_le xs ys i (omega (arith, h))

pub length-take_le : (n : ℕ) (xs : List ℕ) → n ≤ length xs → length (take n xs) ≡ n
length-take_le n xs h = omega (arith, length-take n xs, h)

drop-append_over :
    (n : ℕ) (xs ys : List ℕ) → length xs ≤ n → drop n (xs ++ ys) ≡ drop (n - length xs) ys
drop-append_over n [] ys h = ap (λ k. drop k ys) (omega arith)
drop-append_over zero (x ∷ xs) ys h = absurd (omega (arith, h))
drop-append_over (suc n) (x ∷ xs) ys h =
    drop-append_over n xs ys (omega (arith, h)) ∙ ap (λ k. drop k ys) (omega arith)

drop_nil : (n : ℕ) → drop {A = ℕ} n [] ≡ []
drop_nil zero = refl
drop_nil (suc n) = refl

drop-suc : (m n : ℕ) (x : ℕ) (xs : List ℕ) → drop (suc n + m) (x ∷ xs) ≡ drop (n + m) xs
drop-suc m n x xs = let e : suc n + m ≡ suc (n + m) = omega arith in ap (λ k. drop k (x ∷ xs)) e

drop-drop : (m n : ℕ) (xs : List ℕ) → drop m (drop n xs) ≡ drop (n + m) xs
drop-drop m zero xs = ap (λ k. drop k xs) (omega arith)
drop-drop m (suc n) [] = drop_nil m ∙ sym (drop_nil (suc n + m))
drop-drop m (suc n) (x ∷ xs) = drop-drop m n xs ∙ sym (drop-suc m n x xs)

-- A write of two parts, split between them.
pub put_split :
    (buf : List ℕ) (off : ℕ) (a b : List ℕ)
    → put buf off (a ++ b) ≡ (take off buf ++ a) ++ (b ++ drop (off + length a + length b) buf)
unfolding put
put_split buf off a b =
    let ends : off + length (a ++ b) ≡ off + length a + length b =
      omega (arith, length-append a b) in
    ap (λ n. take off buf ++ (a ++ b) ++ drop n buf) ends
    ∙ ap (λ xs. xs ++ drop (off + length a + length b) buf) (sym (append_assoc (take off buf) a b))
    ∙ append_assoc (take off buf ++ a) b (drop (off + length a + length b) buf)

pub length-front :
    (buf : List ℕ) (off : ℕ) (a : List ℕ)
    → off ≤ length buf
    → length (take off buf ++ a) ≡ off + length a
length-front buf off a h = omega (arith, length-append (take off buf) a, length-take_le off buf h)

-- Two writes, the second right before the first, are one.
pub put_before :
    (buf : List ℕ) (off : ℕ) (a b : List ℕ)
    → off + length a ≤ length buf
    → put (put buf (off + length a) b) off a ≡ put buf off (a ++ b)
unfolding put
put_before buf off a b h =
    let n = off + length a in
    let front = take n buf in
    let back = b ++ drop (n + length b) buf in
    let size : length front ≡ n = length-take_le n buf h in
    ap (λ xs. take off xs ++ a ++ drop n xs) (append_assoc front b (drop (n + length b) buf))
    ∙ ap (λ xs. xs ++ a ++ drop n (front ++ back))
        (take-append_le off front back (omega (arith, size)) ∙ take-take off n buf (omega arith))
    ∙ ap (λ xs. take off buf ++ a ++ xs) (drop_at front back n size)
    ∙ sym (put_split buf off a b)

-- A write over the end of one before it.
pub put_over :
    (buf : List ℕ) (off : ℕ) (a b c : List ℕ)
    → off ≤ length buf
    → length b ≤ length c
    → put (put buf off (a ++ b)) (off + length a) c ≡ put buf off (a ++ c)
unfolding put
put_over buf off a b c h k =
    let n = off + length a in
    let front = take off buf ++ a in
    let rest = drop (n + length b) buf in
    let size : length front ≡ n = length-front buf off a h in
    let skip : n + length c - length front ≡ length c = omega (arith, size) in
    let ends : n + length b + (length c - length b) ≡ n + length c = omega (arith, k) in
    ap (λ xs. take n xs ++ c ++ drop (n + length c) xs) (put_split buf off a b)
    ∙ ap (λ xs. xs ++ c ++ drop (n + length c) (front ++ (b ++ rest)))
        (take_at front (b ++ rest) n size)
    ∙ ap (λ xs. front ++ c ++ xs)
        (drop-append_over (n + length c) front (b ++ rest) (omega (arith, size))
          ∙ ap (λ j. drop j (b ++ rest)) skip
          ∙ drop-append_over (length c) b rest k
          ∙ drop-drop (length c - length b) (n + length b) buf
          ∙ ap (λ j. drop j buf) ends)
    ∙ append_assoc front c (drop (n + length c) buf)
    ∙ sym (put_split buf off a c)

-- What was written is read back.
pub slice-put :
    (buf : List ℕ) (off : ℕ) (a b : List ℕ)
    → off ≤ length buf
    → slice (length b) (off + length a) (put buf off (a ++ b)) ≡ b
slice-put buf off a b h =
    ap (slice (length b) (off + length a)) (put_split buf off a b)
    ∙ ap (take (length b))
        (drop_at (take off buf ++ a) _ (off + length a) (length-front buf off a h))
    ∙ take_at b _ (length b) refl

append_nil : (xs : List ℕ) → xs ++ [] ≡ xs
append_nil [] = refl
append_nil (x ∷ xs) = ap (λ ys. x ∷ ys) (append_nil xs)

-- A write right behind one before it.
put_after :
    (buf : List ℕ) (off : ℕ) (a c : List ℕ)
    → off ≤ length buf
    → put (put buf off a) (off + length a) c ≡ put buf off (a ++ c)
put_after buf off a c h =
    ap (λ xs. put (put buf off xs) (off + length a) c) (sym (append_nil a))
    ∙ put_over buf off a [] c h (omega arith)

length-put_le :
    (buf : List ℕ) (off : ℕ) (x : List ℕ) → off ≤ length buf → off ≤ length (put buf off x)
unfolding put
length-put_le buf off x h = omega (
  arith,
  h,
  length-append (take off buf ++ x) (drop (off + length x) buf),
  length-append (take off buf) x,
  length-take_le off buf h,
)

-- Three writes that lie side by side, the last part first.
pub put_parts :
    (buf : List ℕ) (off : ℕ) (a m x : List ℕ)
    → off + length (a ++ m) ≤ length buf
    → put (put (put buf (off + length (a ++ m)) x) off a) (off + length a) m
      ≡ put buf off ((a ++ m) ++ x)
put_parts buf off a m x h =
    put_after (put buf (off + length (a ++ m)) x) off a m
      (omega (arith, h, length-put_le buf (off + length (a ++ m)) x h))
    ∙ put_before buf off (a ++ m) x h

-- The middle of what was written is read back.
pub slice_mid :
    (buf : List ℕ) (off : ℕ) (a m c : List ℕ)
    → off ≤ length buf
    → slice (length m) (off + length a) (put buf off (a ++ (m ++ c))) ≡ m
slice_mid buf off a m c h =
    let d = drop (off + length a + length (m ++ c)) buf in
    ap (slice (length m) (off + length a)) (put_split buf off a (m ++ c))
    ∙ ap (take (length m))
        (drop_at (take off buf ++ a) (m ++ c ++ d) (off + length a) (length-front buf off a h))
    ∙ ap (take (length m)) (append_assoc m c d)
    ∙ take_at m (c ++ d) (length m) refl

pub byte_after : (xs ys : List ℕ) (n i : ℕ) → length xs ≡ n → byte (xs ++ ys) (n + i) ≡ byte ys i
byte_after [] ys zero i e = ap (byte ys) (omega arith)
byte_after [] ys (suc n) i e = absurd (omega (arith, e))
byte_after (x ∷ xs) ys zero i e = absurd (omega (arith, e))
byte_after (x ∷ xs) ys (suc n) i e =
    let next : suc n + i ≡ suc (n + i) = omega arith in
    ap (byte (x ∷ xs ++ ys)) next ∙ byte_after xs ys n i (omega (arith, e))

pub length-slice : (n m : ℕ) (xs : List ℕ) → m + n ≤ length xs → length (slice n m xs) ≡ n
length-slice n m xs h = omega (arith, length-take n (drop m xs), length-drop m xs, h)
