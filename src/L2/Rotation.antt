-- ===== src/L2/Rotation.antt =====
-- src/crypto/pqc/include/crypto_pqc_layer.h: decryption while the keys of the two sides change.
use ne_encryptor.Prelude.{
  ℕ, ◌≤◌, ◌<◌, ◌≡◌, refl, ap, ◌∙◌, Bool, true, false, Option, none, some, List, [], ◌∷◌, arith, ltb,
  leb, ◌==◌, ◌&&◌, ◌||◌, if_false, if_intro, length, Bool-cases, inl, inr,
}
use mathlib.Core.Path.{ap₂}
use mathlib.Core.Bool.{false≢true}
use ne_encryptor.L2.Reasm.{ne_frame}
use ne_encryptor.L2.Packet.{
  Scrypt, CryptoCtx, tag_size, key_is_all_zero, same_key, decrypt_payload, is_duplicate, or_else,
  try_slot, try_keys, decrypt_payload_resilient,
}

both_true : (a b : Bool) → a && b ≡ true → (a ≡ true) × (b ≡ true)
both_true a b h = ground (arith, h)

both_false : (a b : Bool) → a ≡ false → b ≡ false → a || b ≡ false
both_false a b h k = ground (arith, h, k)

second_true : (a b : Bool) → a || b ≡ true → a ≡ false → b ≡ true
second_true a b h k = ground (arith, h, k)

long_enough : (n : ℕ) → tag_size < n → n == 0 || leb n tag_size ≡ false
long_enough n h = ground (arith, h)

in_frame : (n : ℕ) → tag_size < n → n ≤ ne_frame → n == 0 || ltb ne_frame n ≡ false
in_frame n h k = ground (arith, h, k)

no_duplicate : (key : List ℕ) → is_duplicate [] key ≡ false
unfolding is_duplicate
no_duplicate key = refl

same_key→eq : (a b : List ℕ) → same_key a b ≡ true → a ≡ b
unfolding same_key
same_key→eq [] [] h = refl
same_key→eq [] (y ∷ b) h = absurd (false≢true h)
same_key→eq (x ∷ a) [] h = absurd (false≢true h)
same_key→eq (x ∷ a) (y ∷ b) h =
    let (first, rest) = both_true (x == y) (same_key a b) h in
    ap₂ (λ k ks. k ∷ ks) (ground (arith, first)) (same_key→eq a b rest)

-- The key opens the ciphertext, and no other key does.
pub record OpensWith (c : Scrypt) (key nonce cipher plain : List ℕ) : Type 0 where
  pub nonzero : key_is_all_zero key ≡ false
  pub opens : c.open_gcm key nonce cipher ≡ some plain
  pub others : (k : List ℕ) → same_key k key ≡ false → c.open_gcm k nonce cipher ≡ none

decrypt_opens :
    (c : Scrypt) (key nonce cipher : List ℕ) (o : Option (List ℕ))
    → tag_size < length cipher
    → c.open_gcm key nonce cipher ≡ o
    → decrypt_payload c key nonce cipher ≡ o
unfolding decrypt_payload
decrypt_opens c key nonce cipher o h e =
    if_false (length cipher == 0 || leb (length cipher) tag_size) _ _
      (long_enough (length cipher) h)
    ∙ e

try_keys_opens :
    (c : Scrypt) (key nonce cipher plain : List ℕ) (prior slots : List (Option (List ℕ)))
    → tag_size < length cipher
    → OpensWith c key nonce cipher plain
    → is_duplicate prior key ≡ false
    → is_duplicate slots key ≡ true
    → try_keys c nonce cipher prior slots ≡ some plain
unfolding try_keys try_slot is_duplicate
try_keys_opens c key nonce cipher plain prior [] long with_key fresh there =
    absurd (false≢true there)
try_keys_opens c key nonce cipher plain prior (none ∷ slots) long with_key fresh there =
    try_keys_opens c key nonce cipher plain (none ∷ prior) slots long with_key fresh there
try_keys_opens c key nonce cipher plain prior (some k ∷ slots) long with_key fresh there =
    let rest = try_keys c nonce cipher (some k ∷ prior) slots in
    elim (Bool-cases (same_key k key)) [
      | inl same ↦
          let e = same_key→eq k key same in
          if_false (key_is_all_zero k || is_duplicate prior k) _ _ (
            both_false (key_is_all_zero k) (is_duplicate prior k)
              (ap key_is_all_zero e ∙ with_key.nonzero) (ap (is_duplicate prior) e ∙ fresh))
          ∙ ap (λ o. or_else o rest)
              (decrypt_opens c k nonce cipher (some plain) long
                (ap (λ x. c.open_gcm x nonce cipher) e ∙ with_key.opens))
      | inr other ↦
          let later : rest ≡ some plain =
            try_keys_opens c key nonce cipher plain (some k ∷ prior) slots long with_key
              (both_false (same_key k key) (is_duplicate prior key) other fresh)
              (second_true (same_key k key) (is_duplicate slots key) there other) in
          if_intro (λ o. o ≡ some plain) (key_is_all_zero k || is_duplicate prior k) (λ _. later)
            (λ _.
              ap (λ o. or_else o rest)
                (decrypt_opens c k nonce cipher none long (with_key.others k other))
              ∙ later)
    ]

-- A ciphertext of a frame that one key opens is decrypted if that key stands in any of the three
-- slots, whatever keys stand in the others.
pub decrypt_payload_resilient_opens :
    (c : Scrypt) (ctx : CryptoCtx) (key nonce cipher plain : List ℕ)
    → tag_size < length cipher
    → length cipher ≤ ne_frame
    → OpensWith c key nonce cipher plain
    → is_duplicate (ctx.current ∷ ctx.next ∷ ctx.prev ∷ []) key ≡ true
    → decrypt_payload_resilient c ctx nonce cipher ≡ some plain
unfolding decrypt_payload_resilient
decrypt_payload_resilient_opens c ctx key nonce cipher plain long fits with_key there =
    if_false (length cipher == 0 || ltb ne_frame (length cipher)) _ _
      (in_frame (length cipher) long fits)
    ∙ try_keys_opens c key nonce cipher plain [] (ctx.current ∷ ctx.next ∷ ctx.prev ∷ []) long
        with_key (no_duplicate key) there
