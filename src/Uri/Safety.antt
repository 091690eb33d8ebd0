-- ===== src/Uri/Safety.antt =====
-- Which bytes the output of `uriEncode` holds, and how long it is.
use book_filer_module_http.Prelude.{
  ℕ, ◌*◌, ◌/◌, ◌%◌, ◌<◌, ◌≤◌, ◌≡◌, refl, ◌⊎◌, true, false, inl, inr, [], ◌∷◌, arith, ◌==◌,
  Bool-cases, contains, All, All-append, Text, IsByte, length, length-append,
}
use book_filer_module_http.Uri.{
  is_unreserved, is_control, must_escape, illegal_chars, hex_digit, escape, encode_char, uri_encode,
}
use book_filer_module_http.Uri.RoundTrip.{uri_encode-cons, encode_char-cases}

-- Bytes that can be reserved: neither unreserved nor the percent sign.
abbrev pub IsReservable : Text → Type 0
IsReservable = All (λ c. (is_unreserved c ≡ false) × ((c == b'%') ≡ false))

is_unreserved-hex_digit : (d : ℕ) → d < 16 → is_unreserved (hex_digit d) ≡ true
unfolding is_unreserved hex_digit
is_unreserved-hex_digit d h = ground arith

not-contains_of_is_unreserved :
    (reserved : Text) (c : ℕ)
    → IsReservable reserved
    → is_unreserved c ≡ true
    → contains reserved c ≡ false
not-contains_of_is_unreserved [] c h u = refl
not-contains_of_is_unreserved (x ∷ reserved) c (h, hs) u =
    ground (arith, not-contains_of_is_unreserved reserved c hs u)

not-contains-percent : (reserved : Text) → IsReservable reserved → contains reserved b'%' ≡ false
not-contains-percent [] h = refl
not-contains-percent (x ∷ reserved) (h, hs) = ground (arith, not-contains-percent reserved hs)

escape-All {ℓ} :
    (P : ℕ → Type ℓ) (c : ℕ)
    → IsByte c
    → P b'%'
    → ((d : ℕ) → d < 16 → P (hex_digit d))
    → All P (escape c)
unfolding escape
escape-All P c h p d = (p, (d (c / 16) (omega arith), (d (c % 16) (omega arith), tt)))

encode_char-All {ℓ} :
    (P : ℕ → Type ℓ) (reserved : Text) (c : ℕ)
    → IsByte c
    → (is_unreserved c ≡ true → P c)
    → (must_escape reserved c ≡ false → P c)
    → P b'%'
    → ((d : ℕ) → d < 16 → P (hex_digit d))
    → All P (encode_char reserved c)
unfolding encode_char
encode_char-All P reserved c h free other p d = elim (Bool-cases (is_unreserved c)) [
  | inl u ↦ rw (u, encode_char) (free u, tt)
  | inr u ↦ elim (Bool-cases (must_escape reserved c)) [
    | inl e ↦ rw (u, encode_char) (rw e (escape-All P c h p d))
    | inr e ↦ rw (u, encode_char) (rw e (other e, tt))
  ]
]

uri_encode-All {ℓ} :
    (P : ℕ → Type ℓ) (reserved str : Text)
    → ((c : ℕ) → IsByte c → All P (encode_char reserved c))
    → All IsByte str
    → All P (uri_encode str reserved []).1
unfolding uri_encode
uri_encode-All P reserved [] f h = tt
uri_encode-All P reserved (c ∷ str) f (b, h) = rw (uri_encode-cons c str reserved) (
    All-append P (encode_char reserved c) (uri_encode str reserved []).1 (f c b)
      (uri_encode-All P reserved str f h))

not-contains_of_must_escape :
    (reserved : Text) (c : ℕ) → must_escape reserved c ≡ false → contains reserved c ≡ false
unfolding must_escape
not-contains_of_must_escape reserved c h = ground arith

-- With reservable characters, no byte of the output is one of them.
pub uri_encode-avoids_reserved :
    (str reserved : Text)
    → IsReservable reserved
    → All IsByte str
    → All (λ c. contains reserved c ≡ false) (uri_encode str reserved []).1
uri_encode-avoids_reserved str reserved r h =
    uri_encode-All (λ c. contains reserved c ≡ false) reserved str
      (λ c b.
        encode_char-All (λ c. contains reserved c ≡ false) reserved c b
          (not-contains_of_is_unreserved reserved c r) (not-contains_of_must_escape reserved c)
          (not-contains-percent reserved r)
          λ d l.
            not-contains_of_is_unreserved reserved (hex_digit d) r (is_unreserved-hex_digit d l))
      h

-- A byte that may stand in the output: a visible ASCII character, not illegal unless it is the
-- percent sign.
abbrev pub IsEncoded : ℕ → Type 0
IsEncoded c = (0x20 < c) × (c < 0x7F) × (((c == b'%') ≡ true) ⊎ (contains illegal_chars c ≡ false))

IsEncoded-of_is_unreserved : (c : ℕ) → is_unreserved c ≡ true → IsEncoded c
unfolding is_unreserved
IsEncoded-of_is_unreserved c u = ground arith

IsEncoded-of_must_escape :
    (reserved : Text) (c : ℕ) → IsByte c → must_escape reserved c ≡ false → IsEncoded c
unfolding must_escape is_control
IsEncoded-of_must_escape reserved c b e = ground arith

-- Every byte of the output is a visible ASCII character, and not an illegal one but for the percent
-- sign.
uri_encode-IsEncoded :
    (str reserved : Text) → All IsByte str → All IsEncoded (uri_encode str reserved []).1
uri_encode-IsEncoded str reserved h =
    uri_encode-All IsEncoded reserved str
      (λ c b.
        encode_char-All IsEncoded reserved c b (IsEncoded-of_is_unreserved c)
          (IsEncoded-of_must_escape reserved c b) (omega arith, omega arith, inl refl)
          λ d l. IsEncoded-of_is_unreserved (hex_digit d) (is_unreserved-hex_digit d l))
      h

length-escape : (c : ℕ) → length (escape c) ≡ 3
unfolding escape
length-escape c = omega arith

length-encode_char :
    (reserved : Text) (c : ℕ)
    → (1 ≤ length (encode_char reserved c)) × (length (encode_char reserved c) ≤ 3)
length-encode_char reserved c = elim (encode_char-cases reserved c) [
  | inl (e, _) ↦ rw e (omega arith)
  | inr e ↦ rw e (omega (arith, length-escape c))
]

-- The output is at least as long as the input, and at most three times as long.
length-uri_encode :
    (str reserved : Text)
    → (length str ≤ length (uri_encode str reserved []).1)
      × (length (uri_encode str reserved []).1 ≤ 3 * length str)
unfolding uri_encode
length-uri_encode [] reserved = omega arith
length-uri_encode (c ∷ str) reserved = rw (uri_encode-cons c str reserved) (
    omega (
      arith,
      length-append (encode_char reserved c) (uri_encode str reserved []).1,
      length-encode_char reserved c,
      length-uri_encode str reserved,
    ))
