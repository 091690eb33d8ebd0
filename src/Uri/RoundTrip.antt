-- ===== src/Uri/RoundTrip.antt =====
-- What `uriDecode` makes of the output of `uriEncode`.
use book_filer_module_http.Prelude.{
  ℕ, ◌+◌, ◌*◌, ◌/◌, ◌%◌, ◌<◌, ◌≡◌, refl, sym, ap, ◌∙◌, ◌⊎◌, true, false, inl, inr, some, [], ◌∷◌,
  ◌++◌, append-nil, append_assoc, arith, ◌==◌, Bool-cases, All, Text, IsByte,
}
use book_filer_module_http.Prelude.Int.{success}
use book_filer_module_http.Uri.{
  is_unreserved, must_escape, hex_digit, escape, encode_char, uri_encode, hex_value, uri_decode,
}

-- The loop appends to its output.
pub uri_encode-append :
    (str reserved out : Text)
    → uri_encode str reserved out ≡ (success, out ++ (uri_encode str reserved []).1)
unfolding uri_encode
uri_encode-append [] reserved out = ground (arith, append-nil out)
uri_encode-append (c ∷ str) reserved out = ground (
  arith,
  uri_encode-append str reserved (out ++ encode_char reserved c),
  uri_encode-append str reserved (encode_char reserved c),
  append_assoc out (encode_char reserved c) (uri_encode str reserved []).1,
)

pub uri_encode-cons :
    (c : ℕ) (str reserved : Text)
    → (uri_encode (c ∷ str) reserved []).1
      ≡ encode_char reserved c ++ (uri_encode str reserved []).1
unfolding uri_encode
uri_encode-cons c str reserved =
    ap (λ r. r.1) (uri_encode-append str reserved (encode_char reserved c))

-- A byte other than `%` stands for itself.
pub uri_decode_plain :
    (c : ℕ) (rest out : Text)
    → (c == b'%') ≡ false
    → uri_decode (c ∷ rest) out ≡ uri_decode rest (out ++ c ∷ [])
unfolding uri_decode
uri_decode_plain c [] out h = rw (h, uri_decode)
uri_decode_plain c (x ∷ []) out h = rw (h, uri_decode)
uri_decode_plain c (x ∷ y ∷ rest) out h = rw (h, uri_decode)

pub hex_value-hex_digit : (d : ℕ) → d < 16 → hex_value (hex_digit d) ≡ some d
unfolding hex_value hex_digit
hex_value-hex_digit d h = ground arith

-- An escape stands for the number that its digits spell.
pub uri_decode_escaped :
    (hi lo h l : ℕ) (rest out : Text)
    → hex_value hi ≡ some h
    → hex_value lo ≡ some l
    → uri_decode (b'%' ∷ hi ∷ lo ∷ rest) out ≡ uri_decode rest (out ++ ((h * 16 + l) % 256) ∷ [])
unfolding uri_decode
uri_decode_escaped hi lo h l rest out p q = rw (p, uri_decode) (rw (q, uri_decode))

uri_decode-escape :
    (c : ℕ) (rest out : Text)
    → IsByte c
    → uri_decode (escape c ++ rest) out ≡ uri_decode rest (out ++ c ∷ [])
unfolding escape
uri_decode-escape c rest out h =
    uri_decode_escaped (hex_digit (c / 16)) (hex_digit (c % 16)) (c / 16) (c % 16) rest out
      (hex_value-hex_digit (c / 16) (omega arith)) (hex_value-hex_digit (c % 16) (omega arith))
    ∙ ap (λ b. uri_decode rest (out ++ b ∷ [])) (omega arith)

ne-percent_of_is_unreserved : (c : ℕ) → is_unreserved c ≡ true → (c == b'%') ≡ false
unfolding is_unreserved
ne-percent_of_is_unreserved c h = ground arith

ne-percent_of_must_escape :
    (reserved : Text) (c : ℕ) → must_escape reserved c ≡ false → (c == b'%') ≡ false
unfolding must_escape
ne-percent_of_must_escape reserved c h = ground arith

-- A round either copies a byte other than `%`, or escapes it.
pub encode_char-cases :
    (reserved : Text) (c : ℕ)
    → ((encode_char reserved c ≡ c ∷ []) × ((c == b'%') ≡ false))
      ⊎ (encode_char reserved c ≡ escape c)
unfolding encode_char
encode_char-cases reserved c = elim (Bool-cases (is_unreserved c)) [
  | inl u ↦ inl (rw (u, encode_char), ne-percent_of_is_unreserved c u)
  | inr u ↦ elim (Bool-cases (must_escape reserved c)) [
    | inl e ↦ inr (rw (u, encode_char) (rw e))
    | inr e ↦ inl (rw (u, encode_char) (rw e), ne-percent_of_must_escape reserved c e)
  ]
]

pub uri_decode-encode_char :
    (reserved : Text) (c : ℕ) (rest out : Text)
    → IsByte c
    → uri_decode (encode_char reserved c ++ rest) out ≡ uri_decode rest (out ++ c ∷ [])
uri_decode-encode_char reserved c rest out h = elim (encode_char-cases reserved c) [
  | inl (e, p) ↦ rw e (uri_decode_plain c rest out p)
  | inr e ↦ rw e (uri_decode-escape c rest out h)
]

uri_decode-uri_encode_append :
    (str reserved rest out : Text)
    → All IsByte str
    → uri_decode ((uri_encode str reserved []).1 ++ rest) out ≡ uri_decode rest (out ++ str)
unfolding uri_encode
uri_decode-uri_encode_append [] reserved rest out h = simp append-nil
uri_decode-uri_encode_append (c ∷ str) reserved rest out (b, h) =
    simp (uri_encode-cons, append_assoc)
      (uri_decode-encode_char reserved c _ out b
        ∙ uri_decode-uri_encode_append str reserved rest (out ++ c ∷ []) h
        ∙ ap (uri_decode rest) (append_assoc out (c ∷ []) str))

uri_decode_nil : (out : Text) → uri_decode [] out ≡ (success, out)
unfolding uri_decode
uri_decode_nil out = refl

-- Decoding what was encoded, under any set of reserved characters, gives back the bytes of the
-- text and succeeds.
pub uri_decode-uri_encode :
    (str reserved : Text)
    → All IsByte str
    → uri_decode (uri_encode str reserved []).1 [] ≡ (success, str)
uri_decode-uri_encode str reserved h =
    ap (λ t. uri_decode t []) (sym (append-nil (uri_encode str reserved []).1))
    ∙ uri_decode-uri_encode_append str reserved [] [] h
    ∙ uri_decode_nil str
