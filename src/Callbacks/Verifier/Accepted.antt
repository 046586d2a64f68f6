-- ===== src/Callbacks/Verifier/Accepted.antt =====
-- internal/app/callback/verifier.go: the signature of a vendor that knows the secret.
use startlink.Base.{
  ℕ, ◌/◌, ◌%◌, ◌<◌, Bool, true, false, [], ◌∷◌, ◌++◌, some, ◌==◌, any, ==_refl, any-append, All,
  ◌≡◌, refl, ap, ◌∙◌, arith, inl, inr, Bool-cases,
}
use mathlib.Core.List.{reverse, reverse-cons, reverse-reverse}
use startlink.Domain.Text.{Text, codes, text_eq_refl, is_space, trim_left, trim_space}
use startlink.Callbacks.Verifier.{
  trim_prefix, hex_digit, put_byte, decode_string, hex_char, encode_to_string, signature_of, Crypto,
  signed_by,
}

hex_digit-hex_char : (n : ℕ) → n < 16 → hex_digit (hex_char n) ≡ some n
unfolding hex_digit hex_char
hex_digit-hex_char n h = ground (arith, h)

-- A text of bytes is decoded from its encoding.
decode-encode :
    (bytes : Text) → All (λ b. b < 256) bytes → decode_string (encode_to_string bytes) ≡ some bytes
unfolding decode_string encode_to_string put_byte
decode-encode [] h = refl
decode-encode (b ∷ bs) (h, hs) =
    rw
      (
        hex_digit-hex_char (b / 16) (omega (arith, h)),
        hex_digit-hex_char (b % 16) (omega (arith, h)),
        decode-encode bs hs,
      )
      (ap some (ap (λ x. x ∷ bs) (omega arith)))

hex_char-not_space : (n : ℕ) → n < 16 → is_space (hex_char n) ≡ false
unfolding hex_char is_space
hex_char-not_space n h = ground (arith, h)

hex-not_space :
    (bytes : Text) → All (λ b. b < 256) bytes → any is_space (encode_to_string bytes) ≡ false
unfolding encode_to_string
hex-not_space [] h = refl
hex-not_space (b ∷ bs) (h, hs) =
    rw
      (
        hex_char-not_space (b / 16) (omega (arith, h)),
        hex_char-not_space (b % 16) (omega (arith, h)),
      )
      (hex-not_space bs hs)

trim_left-none : (t : Text) → any is_space t ≡ false → trim_left t ≡ t
unfolding trim_left
trim_left-none [] h = refl
trim_left-none (c ∷ t) h = elim (Bool-cases (is_space c)) [
  | inl e ↦ ground (arith, h, e)
  | inr e ↦ rw e refl
]

any-reverse : (p : ℕ → Bool) (t : Text) → any p t ≡ false → any p (reverse t) ≡ false
any-reverse p [] h = refl
any-reverse p (c ∷ t) h =
    ap (any p) (reverse-cons c t)
    ∙ any-append p (reverse t) (c ∷ [])
    ∙ ground (arith, h, any-reverse p t)

-- A text with no space is trimmed to itself.
trim_space-none : (t : Text) → any is_space t ≡ false → trim_space t ≡ t
unfolding trim_space
trim_space-none t h =
    ap (λ u. reverse (trim_left (reverse u))) (trim_left-none t h)
    ∙ ap reverse (trim_left-none (reverse t) (any-reverse is_space t h))
    ∙ reverse-reverse t

trim_prefix-append : (p whole rest : Text) → trim_prefix p whole (p ++ rest) ≡ rest
unfolding trim_prefix
trim_prefix-append [] whole rest = refl
trim_prefix-append (c ∷ p) whole rest = rw (==_refl c) (trim_prefix-append p whole rest)

hex_char-not_s : (n : ℕ) → n < 16 → (115 == hex_char n) ≡ false
unfolding hex_char
hex_char-not_s n h = ground (arith, h)

no_prefix :
    (bytes : Text)
    → All (λ b. b < 256) bytes
    → trim_prefix (codes "sha256=") (encode_to_string bytes) (encode_to_string bytes)
      ≡ encode_to_string bytes
unfolding trim_prefix encode_to_string
no_prefix [] h = refl
no_prefix (b ∷ bs) (h, hs) = rw (hex_char-not_s (b / 16) (omega (arith, h))) refl

signature_of-encode :
    (bytes : Text)
    → All (λ b. b < 256) bytes
    → (signature_of (encode_to_string bytes) ≡ some bytes)
      × (signature_of (codes "sha256=" ++ encode_to_string bytes) ≡ some bytes)
unfolding signature_of is_space
signature_of-encode bytes h =
    let hex = encode_to_string bytes in
    let plain = hex-not_space bytes h in
    (
      rw (trim_space-none hex plain) (ap decode_string (no_prefix bytes h) ∙ decode-encode bytes h),
      rw (trim_space-none (codes "sha256=" ++ hex) plain) (
          ap decode_string (trim_prefix-append (codes "sha256=") (codes "sha256=" ++ hex) hex)
          ∙ decode-encode bytes h),
    )

-- The signature that a vendor sends is read back: the hexadecimal digits of the mac, which is a text of
-- bytes, pass as a signature of the text under the secret, with `sha256=` before them or without.
pub signed_by-encode :
    (c : Crypto) (secret text : Text)
    → All (λ b. b < 256) (c.mac secret text)
    → (signed_by c secret text (signature_of (encode_to_string (c.mac secret text))) ≡ true)
      × (signed_by c secret text
            (signature_of (codes "sha256=" ++ encode_to_string (c.mac secret text)))
          ≡ true)
signed_by-encode c secret text h =
    let (plain, prefixed) = signature_of-encode (c.mac secret text) h in
    let same : signed_by c secret text (some (c.mac secret text)) ≡ true =
      unfold signed_by in text_eq_refl (c.mac secret text) in
    (ap (signed_by c secret text) plain ∙ same, ap (signed_by c secret text) prefixed ∙ same)
