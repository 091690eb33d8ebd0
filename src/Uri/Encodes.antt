-- ===== src/Uri/Encodes.antt =====
-- What `uriEncode` gives for a text, as a relation between a text and its encoding.
use book_filer_module_http.Prelude.{
  ℕ, ◌+◌, ◌*◌, ◌/◌, ◌%◌, ◌<◌, ◌≤◌, ◌≡◌, refl, sym, subst, ap, ltb, ◌-◌, ◌∙◌, ◌↔◌, ◌⊎◌, true, false,
  inl, inr, [], ◌∷◌, ◌++◌, arith, Bool-cases, contains, All, Text, IsByte, codes,
}
use book_filer_module_http.Prelude.Int.{success}
use book_filer_module_http.Uri.{
  is_unreserved, is_control, must_escape, hex_digit, escape, encode_char, uri_encode,
}
use book_filer_module_http.Uri.RoundTrip.{uri_encode-append, uri_encode-cons}

-- A byte that stands for itself: a letter, a digit, one of `-_.~`, or another visible character of
-- ASCII that is neither one of the illegal ones nor reserved.
abbrev pub IsPlain : Text → ℕ → Type 0
IsPlain reserved c =
    ((b'a' ≤ c) × (c ≤ b'z'))
    ⊎ ((b'A' ≤ c) × (c ≤ b'Z'))
    ⊎ ((b'0' ≤ c) × (c ≤ b'9'))
    ⊎ (c ≡ b'-')
    ⊎ (c ≡ b'_')
    ⊎ (c ≡ b'.')
    ⊎ (c ≡ b'~')
    ⊎ ((0x20 < c)
        × (c < 0x7F)
        × (contains (codes "%<>{}|\\\"^`") c ≡ false)
        × (contains reserved c ≡ false))

-- The hexadecimal digits in upper case, and their values.
pub data UpperDigit : ℕ → ℕ → Type 0 where
  decimal : {c n : ℕ} → n < 10 → c ≡ b'0' + n → UpperDigit c n
  letter : {c n : ℕ} → n < 6 → c ≡ b'A' + n → UpperDigit c (10 + n)

-- `Encodes reserved s t`: `t` holds each plain byte of `s` as it is, and for every other byte the
-- percent sign and the two digits that spell it, the high one first.
pub data Encodes (reserved : Text) : Text → Text → Type 0 where
  done : Encodes reserved [] []
  plain :
      {c : ℕ} {s t : Text}
      → IsPlain reserved c
      → Encodes reserved s t
      → Encodes reserved (c ∷ s) (c ∷ t)
  escaped :
      {c hi lo h l : ℕ} {s t : Text}
      → ¬ IsPlain reserved c
      → UpperDigit hi h
      → UpperDigit lo l
      → c ≡ h * 16 + l
      → Encodes reserved s t
      → Encodes reserved (c ∷ s) (b'%' ∷ hi ∷ lo ∷ t)

UpperDigit-hex_digit : {c n : ℕ} → UpperDigit c n → (n < 16) × (c ≡ hex_digit n)
unfolding hex_digit
UpperDigit-hex_digit (decimal l e) = (omega (arith, l), ground (arith, l, e))
UpperDigit-hex_digit (letter l e) = (omega (arith, l), ground (arith, l, e))

hex_digit-UpperDigit : (n : ℕ) → n < 16 → UpperDigit (hex_digit n) n
unfolding hex_digit
hex_digit-UpperDigit n l = elim (Bool-cases (ltb n 10)) [
  | inl d ↦ decimal (ground (arith, d)) (ground (arith, d))
  | inr d ↦
      let split : n ≡ 10 + (n - 10) = ground (arith, d) in
      subst (UpperDigit (hex_digit n)) (sym split)
        (letter (ground (arith, l, d)) (ground (arith, l, d)))
]

IsPlain-of_is_unreserved : (reserved : Text) (c : ℕ) → is_unreserved c ≡ true → IsPlain reserved c
unfolding is_unreserved
IsPlain-of_is_unreserved reserved c u = ground arith

IsPlain-of_must_escape :
    (reserved : Text) (c : ℕ) → must_escape reserved c ≡ false → IsPlain reserved c
unfolding must_escape is_control
IsPlain-of_must_escape reserved c e = ground arith

IsPlain-cases :
    (reserved : Text) (c : ℕ)
    → IsPlain reserved c
    → (is_unreserved c ≡ true) ⊎ (must_escape reserved c ≡ false)
unfolding is_unreserved must_escape is_control
IsPlain-cases reserved c p = ground arith

encode_char_plain : (reserved : Text) (c : ℕ) → IsPlain reserved c → encode_char reserved c ≡ c ∷ []
unfolding encode_char
encode_char_plain reserved c p = elim (IsPlain-cases reserved c p) [
  | inl u ↦ rw (u, encode_char) refl
  | inr e ↦ elim (Bool-cases (is_unreserved c)) [
    | inl u ↦ rw (u, encode_char) refl
    | inr u ↦ rw (u, encode_char) (rw e refl)
  ]
]

encode_char_escaped :
    (reserved : Text) (c : ℕ) → ¬ IsPlain reserved c → encode_char reserved c ≡ escape c
unfolding encode_char
encode_char_escaped reserved c n = elim (Bool-cases (is_unreserved c)) [
  | inl u ↦ absurd (n (IsPlain-of_is_unreserved reserved c u))
  | inr u ↦ elim (Bool-cases (must_escape reserved c)) [
    | inl e ↦ rw (u, encode_char) (rw e refl)
    | inr e ↦ absurd (n (IsPlain-of_must_escape reserved c e))
  ]
]

encode_char-Encodes :
    (reserved : Text) (c : ℕ) (s t : Text)
    → IsByte c
    → Encodes reserved s t
    → Encodes reserved (c ∷ s) (encode_char reserved c ++ t)
unfolding escape
encode_char-Encodes reserved c s t b d = elim (Bool-cases (is_unreserved c)) [
  | inl u ↦
      let p = IsPlain-of_is_unreserved reserved c u in
      rw (encode_char_plain reserved c p) (plain p d)
  | inr u ↦ elim (Bool-cases (must_escape reserved c)) [
    | inr e ↦
        let p = IsPlain-of_must_escape reserved c e in
        rw (encode_char_plain reserved c p) (plain p d)
    | inl e ↦
        let n : ¬ IsPlain reserved c =
          λ p. elim (IsPlain-cases reserved c p) [ inl v ↦ cc | inr f ↦ cc ] in
        rw (encode_char_escaped reserved c n) (
          escaped n (hex_digit-UpperDigit (c / 16) (omega arith))
            (hex_digit-UpperDigit (c % 16) (omega arith)) (omega arith) d)
  ]
]

uri_encode-Encodes :
    (reserved str : Text) → All IsByte str → Encodes reserved str (uri_encode str reserved []).1
unfolding uri_encode
uri_encode-Encodes reserved [] h = done
uri_encode-Encodes reserved (c ∷ str) (b, h) =
    rw (uri_encode-cons c str reserved)
      (encode_char-Encodes reserved c str _ b (uri_encode-Encodes reserved str h))

escape_digits :
    (c hi lo h l : ℕ)
    → UpperDigit hi h
    → UpperDigit lo l
    → c ≡ h * 16 + l
    → escape c ≡ b'%' ∷ hi ∷ lo ∷ []
unfolding escape
escape_digits c hi lo h l dh dl e =
    let (bh, eh) = UpperDigit-hex_digit dh in
    let (bl, el) = UpperDigit-hex_digit dl in
    let high : c / 16 ≡ h = omega (arith, e, bh, bl) in
    let low : c % 16 ≡ l = omega (arith, e, bh, bl) in rw (high, low, eh, el) refl

Encodes-uri_encode : {reserved s t : Text} → Encodes reserved s t → (uri_encode s reserved []).1 ≡ t
unfolding uri_encode
Encodes-uri_encode done = refl
Encodes-uri_encode {reserved} (plain {c} {s} {t} p d) =
    uri_encode-cons c s reserved
    ∙ rw (encode_char_plain reserved c p) (ap (λ r. c ∷ r) (Encodes-uri_encode d))
Encodes-uri_encode {reserved} (escaped {c} {hi} {lo} {h} {l} {s} {t} n dh dl e d) =
    uri_encode-cons c s reserved
    ∙ rw (encode_char_escaped reserved c n) (
        rw (escape_digits c hi lo h l dh dl e)
          (ap (λ r. b'%' ∷ hi ∷ lo ∷ r) (Encodes-uri_encode d)))

-- `uriEncode` succeeds on every text of bytes, and gives the one text in which the letters, the
-- digits, `-_.~`, and the other visible characters that are neither illegal nor reserved stand as they
-- are, and every other byte is a percent sign and its two hexadecimal digits in upper case, the high
-- one first.
pub uri_encode_iff :
    (reserved str t : Text)
    → All IsByte str
    → (uri_encode str reserved [] ≡ (success, t)) ↔ Encodes reserved str t
uri_encode_iff reserved str t h = (
  (λ e. rw (ap (λ r. r.1) (sym e)) (uri_encode-Encodes reserved str h)),
  (λ d. uri_encode-append str reserved [] ∙ ap (λ r. (success, r)) (Encodes-uri_encode d)),
)
