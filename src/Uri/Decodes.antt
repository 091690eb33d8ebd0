-- ===== src/Uri/Decodes.antt =====
-- What `uriDecode` accepts, as a relation between a text and its decoding.
use book_filer_module_http.Prelude.{
  ℕ, ◌+◌, ◌*◌, ◌%◌, ◌-◌, ◌<◌, ◌≤◌, ◌≡◌, refl, ap, leb, ◌&&◌, ◌∙◌, ◌↔◌, ◌⊎◌, false, inl, inr, some,
  [], ◌∷◌, ◌++◌, append-nil, append_assoc, arith, ◌==◌, ==_iff, Bool-cases, Option-cases, Text,
}
use book_filer_module_http.Prelude.Int.{success, failure}
use book_filer_module_http.Uri.{hex_value, uri_decode}
use book_filer_module_http.Uri.RoundTrip.{uri_decode_plain, uri_decode_escaped}

-- The hexadecimal digits and their values.
pub data HexDigit : ℕ → ℕ → Type 0 where
  decimal : {c n : ℕ} → n < 10 → c ≡ b'0' + n → HexDigit c n
  upper : {c n : ℕ} → n < 6 → c ≡ b'A' + n → HexDigit c (10 + n)
  lower : {c n : ℕ} → n < 6 → c ≡ b'a' + n → HexDigit c (10 + n)

-- `Decodes s t`: `s` is built of escapes with two hexadecimal digits and of bytes other than `%`,
-- and `t` holds the bytes that these stand for.
pub data Decodes : Text → Text → Type 0 where
  done : Decodes [] []
  plain : {c : ℕ} {s t : Text} → (c == b'%') ≡ false → Decodes s t → Decodes (c ∷ s) (c ∷ t)
  escaped :
      {p hi lo h l c : ℕ} {s t : Text}
      → p ≡ b'%'
      → HexDigit hi h
      → HexDigit lo l
      → c ≡ h * 16 + l
      → Decodes s t
      → Decodes (p ∷ hi ∷ lo ∷ s) (c ∷ t)

HexDigit-lt : {c h : ℕ} → HexDigit c h → h < 16
HexDigit-lt (decimal l e) = omega (arith, l)
HexDigit-lt (upper l e) = omega (arith, l)
HexDigit-lt (lower l e) = omega (arith, l)

hex_value-HexDigit : {c h : ℕ} → HexDigit c h → hex_value c ≡ some h
unfolding hex_value
hex_value-HexDigit (decimal l e) = ground (arith, l, e)
hex_value-HexDigit (upper l e) = ground (arith, l, e)
hex_value-HexDigit (lower l e) = ground (arith, l, e)

HexDigit-upper : (c h : ℕ) → h ≡ c - b'A' + 10 → b'A' ≤ c → c ≤ b'F' → HexDigit c h
HexDigit-upper c h e l u =
    let split : h ≡ 10 + (c - b'A') = omega (arith, e) in
    rw split (upper (omega (arith, l, u)) (omega (arith, l, u)))

HexDigit-lower : (c h : ℕ) → h ≡ c - b'a' + 10 → b'a' ≤ c → c ≤ b'f' → HexDigit c h
HexDigit-lower c h e l u =
    let split : h ≡ 10 + (c - b'a') = omega (arith, e) in
    rw split (lower (omega (arith, l, u)) (omega (arith, l, u)))

HexDigit-hex_value : (c h : ℕ) → hex_value c ≡ some h → HexDigit c h
unfolding hex_value
HexDigit-hex_value c h e = elim (Bool-cases (leb b'0' c && leb c b'9')) [
  | inl d ↦ decimal (ground (arith, d, e)) (ground (arith, d, e))
  | inr d ↦ elim (Bool-cases (leb b'A' c && leb c b'F')) [
    | inl u ↦ HexDigit-upper c h (ground (arith, d, u, e)) (ground (arith, u)) (ground (arith, u))
    | inr u ↦
        HexDigit-lower c h (ground (arith, d, u, e)) (ground (arith, d, u, e))
          (ground (arith, d, u, e))
  ]
]

-- Every decoding in the relation is what the function returns, behind what it had decoded before.
pub uri_decode_complete :
    {s t : Text} (out : Text) → Decodes s t → uri_decode s out ≡ (success, out ++ t)
unfolding uri_decode
uri_decode_complete out done = simp append-nil
uri_decode_complete out (plain {c} {s} {t} h d) =
    uri_decode_plain c s out h
    ∙ uri_decode_complete (out ++ c ∷ []) d
    ∙ ap (λ r. (success, r)) (append_assoc out (c ∷ []) t)
uri_decode_complete out (escaped {p} {hi} {lo} {h} {l} {c} {s} {t} e eh el ec d) = rw e (
    uri_decode_escaped hi lo h l s out (hex_value-HexDigit eh) (hex_value-HexDigit el)
    ∙ ap (λ b. uri_decode s (out ++ b ∷ [])) (omega (arith, ec, HexDigit-lt eh, HexDigit-lt el))
    ∙ uri_decode_complete (out ++ c ∷ []) d
    ∙ ap (λ r. (success, r)) (append_assoc out (c ∷ []) t))

-- What a run that succeeds has done.
abbrev Run : Text → Text → Text → Type 0
Run s out r = (t : Text) × (r ≡ out ++ t) × Decodes s t

Run-plain :
    (c : ℕ) (s out r : Text) → (c == b'%') ≡ false → Run s (out ++ c ∷ []) r → Run (c ∷ s) out r
Run-plain c s out r p (t, e, d) = (c ∷ t, e ∙ append_assoc out (c ∷ []) t, plain p d)

Run-escaped :
    (hi lo h l : ℕ) (s out r : Text)
    → HexDigit hi h
    → HexDigit lo l
    → Run s (out ++ ((h * 16 + l) % 256) ∷ []) r
    → Run (b'%' ∷ hi ∷ lo ∷ s) out r
Run-escaped hi lo h l s out r p q (t, e, d) = (
  ((h * 16 + l) % 256) ∷ t,
  e ∙ append_assoc out (((h * 16 + l) % 256) ∷ []) t,
  escaped refl p q (omega (arith, HexDigit-lt p, HexDigit-lt q)) d,
)

uri_decode_sound : (s out r : Text) → uri_decode s out ≡ (success, r) → Run s out r
unfolding uri_decode
uri_decode_sound [] out r e = ([], ground (arith, append-nil out), done)
uri_decode_sound (c ∷ []) out r e = elim (Bool-cases (c == b'%')) [
  | inl p ↦ absurd (ground arith)
  | inr p ↦ Run-plain c [] out r p ([], ground (arith, append-nil (out ++ c ∷ [])), done)
]
uri_decode_sound (c ∷ hi ∷ []) out r e = elim (Bool-cases (c == b'%')) [
  | inl p ↦ absurd (ground arith)
  | inr p ↦
      Run-plain c (hi ∷ []) out r p (uri_decode_sound (hi ∷ []) (out ++ c ∷ []) r (ground arith))
]
uri_decode_sound (c ∷ hi ∷ lo ∷ rest) out r e = elim (Bool-cases (c == b'%')) [
  | inr p ↦
      Run-plain c (hi ∷ lo ∷ rest) out r p
        (uri_decode_sound (hi ∷ lo ∷ rest) (out ++ c ∷ []) r (ground arith))
  | inl p ↦ elim (Option-cases (hex_value hi)) [
    | inl a ↦ absurd (ground arith)
    | inr (h, a) ↦ elim (Option-cases (hex_value lo)) [
      | inl b ↦ absurd (ground arith)
      | inr (l, b) ↦ rw ((==_iff c b'%').0 p) (
          Run-escaped hi lo h l rest out r (HexDigit-hex_value hi h a) (HexDigit-hex_value lo l b)
            (uri_decode_sound rest (out ++ ((h * 16 + l) % 256) ∷ []) r (ground arith)))
    ]
  ]
]

-- `uriDecode` succeeds exactly on the texts that are built of bytes other than `%` and of escapes, a
-- `%` and two hexadecimal digits of either case; and what it gives is the text in which every escape
-- is replaced by the byte that its digits spell.
pub uri_decode_iff : (s t : Text) → (uri_decode s [] ≡ (success, t)) ↔ Decodes s t
uri_decode_iff s t =
    ((λ e. let (t', e', d) = uri_decode_sound s [] t e in rw e' d), uri_decode_complete [])

uri_decode_codes :
    (s out : Text) → ((uri_decode s out).0 ≡ success) ⊎ ((uri_decode s out).0 ≡ failure)
unfolding uri_decode
uri_decode_codes [] out = inl refl
uri_decode_codes (c ∷ []) out = ground arith
uri_decode_codes (c ∷ hi ∷ []) out = ground (arith, uri_decode_codes (hi ∷ []) (out ++ c ∷ []))
uri_decode_codes (c ∷ hi ∷ lo ∷ rest) out = elim (Bool-cases (c == b'%')) [
  | inr p ↦ ground (arith, uri_decode_codes (hi ∷ lo ∷ rest) (out ++ c ∷ []))
  | inl p ↦ elim (Option-cases (hex_value hi)) [
    | inl a ↦ ground arith
    | inr (h, a) ↦ elim (Option-cases (hex_value lo)) [
      | inl b ↦ ground arith
      | inr (l, b) ↦ ground (arith, uri_decode_codes rest (out ++ ((h * 16 + l) % 256) ∷ []))
    ]
  ]
]

-- It returns the error code exactly on the texts that have no decoding in the relation.
uri_decode-fails_iff : (s : Text) → ((uri_decode s []).0 ≡ failure) ↔ (¬ ((t : Text) × Decodes s t))
uri_decode-fails_iff s = (
  (λ e (t, d). cc (e, uri_decode_complete [] d)),
  λ n. elim (uri_decode_codes s []) [
    | inl e ↦ absurd (n ((uri_decode s []).1, (uri_decode_iff s _).0 (ground (arith, e))))
    | inr e ↦ e
  ],
)
