-- ===== src/Cookie/Parts.antt =====
-- Headers as parts that are joined by semicolons.
use book_filer_module_http.Prelude.{
  ℕ, String, ◌≡◌, refl, sym, ap, ◌∙◌, Bool, true, false, List, [], ◌∷◌, ◌++◌, append-nil,
  append_assoc, arith, if◌then◌else◌, ◌==◌, contains, Text, codes, All, All-append,
}
use book_filer_module_http.Cookie.{
  SameSite, same_site_not_specified, same_site_none, same_site_lax, same_site_strict, append_if,
  same_site_piece, quoted,
}

abbrev pub NoSemicolon : Text → Type 0
NoSemicolon = All (λ c. (c == b';') ≡ false)

-- The text up to the first semicolon of a header, before what was read of it.
abbrev pub grow : ℕ → List Text → List Text
grow c [] = (c ∷ []) ∷ []
grow c (p ∷ ps) = (c ∷ p) ∷ ps

-- A header cut at its semicolons.
unfoldable pub header_parts : Text → List Text
header_parts [] = [] ∷ []
header_parts (c ∷ s) = let rest = header_parts s in if c == b';' then [] ∷ rest else grow c rest

-- Parts joined by semicolons.
unfoldable pub tail_of : List Text → Text
tail_of [] = []
tail_of (p ∷ ps) = b';' ∷ p ++ tail_of ps

abbrev pub joined : Text → List Text → Text
joined p ps = p ++ tail_of ps

pub tail_of-append : (ps qs : List Text) → tail_of (ps ++ qs) ≡ tail_of ps ++ tail_of qs
unfolding tail_of
tail_of-append [] qs = refl
tail_of-append (p ∷ ps) qs =
    ap (λ t. b';' ∷ t)
      (ap (λ t. p ++ t) (tail_of-append ps qs) ∙ sym (append_assoc p (tail_of ps) (tail_of qs)))

pub joined-append :
    (p : Text) (ps : List Text) (a : Text) → joined p ps ++ b';' ∷ a ≡ joined p (ps ++ a ∷ [])
unfolding tail_of
joined-append p ps a =
    append_assoc p (tail_of ps) (b';' ∷ a)
    ∙ ap (λ t. p ++ t)
        (ap (λ t. tail_of ps ++ b';' ∷ t) (sym (append-nil a)) ∙ sym (tail_of-append ps (a ∷ [])))

abbrev pub optional : Bool → Text → List Text
optional b a = if b then a ∷ [] else []

pub append_if-joined :
    (b : Bool) (p : Text) (ps : List Text) (a : Text)
    → append_if b (b';' ∷ a) (joined p ps) ≡ joined p (ps ++ optional b a)
append_if-joined true p ps a = joined-append p ps a
append_if-joined false p ps a = simp append-nil

pub header_parts-plain : (p : Text) → NoSemicolon p → header_parts p ≡ p ∷ []
unfolding header_parts
header_parts-plain [] h = refl
header_parts-plain (c ∷ p) (h, hs) = ground (arith, h, header_parts-plain p hs)

pub header_parts-more :
    (p s : Text) → NoSemicolon p → header_parts (p ++ b';' ∷ s) ≡ p ∷ header_parts s
unfolding header_parts
header_parts-more [] s h = ground arith
header_parts-more (c ∷ p) s (h, hs) = ground (arith, h, header_parts-more p s hs)

pub header_parts-joined :
    (p : Text) (ps : List Text)
    → NoSemicolon p
    → All NoSemicolon ps
    → header_parts (joined p ps) ≡ p ∷ ps
unfolding tail_of
header_parts-joined p [] h hs = rw (append-nil p) (header_parts-plain p h)
header_parts-joined p (q ∷ ps) h (k, hs) =
    header_parts-more p (joined q ps) h ∙ ap (λ r. p ∷ r) (header_parts-joined q ps k hs)

-- One more attribute behind those of a header that is known.
pub joined_step :
    (b : Bool) (p r : Text) (ps : List Text) (a : Text)
    → r ≡ joined p ps
    → append_if b (b';' ∷ a) r ≡ joined p (ps ++ optional b a)
joined_step b p r ps a e = ap (append_if b (b';' ∷ a)) e ∙ append_if-joined b p ps a

abbrev pub same_site_part : SameSite → List Text
same_site_part same_site_none = codes " SameSite=None" ∷ []
same_site_part same_site_lax = codes " SameSite=Lax" ∷ []
same_site_part same_site_strict = codes " SameSite=Strict" ∷ []
same_site_part same_site_not_specified = []

pub same_site_step :
    (s : SameSite) (p r : Text) (ps : List Text)
    → r ≡ joined p ps
    → r ++ same_site_piece s ≡ joined p (ps ++ same_site_part s)
unfolding same_site_piece
same_site_step same_site_none p r ps e =
    ap (λ t. t ++ codes "; SameSite=None") e ∙ joined-append p ps (codes " SameSite=None")
same_site_step same_site_lax p r ps e =
    ap (λ t. t ++ codes "; SameSite=Lax") e ∙ joined-append p ps (codes " SameSite=Lax")
same_site_step same_site_strict p r ps e =
    ap (λ t. t ++ codes "; SameSite=Strict") e ∙ joined-append p ps (codes " SameSite=Strict")
same_site_step same_site_not_specified p r ps e = simp append-nil e

pub NoSemicolon_of_test : (t : Text) → contains t b';' ≡ false → NoSemicolon t
NoSemicolon_of_test [] h = tt
NoSemicolon_of_test (c ∷ t) h = (ground (arith, h), NoSemicolon_of_test t (ground (arith, h)))

pub NoSemicolon-append : (s t : Text) → NoSemicolon s → NoSemicolon t → NoSemicolon (s ++ t)
NoSemicolon-append = All-append (λ c. (c == b';') ≡ false)

pub NoSemicolon-quoted :
    (s : String) (t : Text)
    → contains (codes s) b';' ≡ false
    → NoSemicolon t
    → NoSemicolon (quoted s t)
NoSemicolon-quoted s t h k =
    NoSemicolon-append (codes s) _ (NoSemicolon_of_test (codes s) h)
      (refl, NoSemicolon-append t (codes "\"") k (refl, tt))

pub snoc-NoSemicolon :
    (ps : List Text) (b : Bool) (a : Text)
    → All NoSemicolon ps
    → NoSemicolon a
    → All NoSemicolon (ps ++ optional b a)
snoc-NoSemicolon ps true a h k = All-append NoSemicolon ps (a ∷ []) h (k, tt)
snoc-NoSemicolon ps false a h k = simp append-nil h

pub same_site-NoSemicolon :
    (ps : List Text) (s : SameSite) → All NoSemicolon ps → All NoSemicolon (ps ++ same_site_part s)
same_site-NoSemicolon ps same_site_none h =
    All-append NoSemicolon ps _ h (NoSemicolon_of_test (codes " SameSite=None") refl, tt)
same_site-NoSemicolon ps same_site_lax h =
    All-append NoSemicolon ps _ h (NoSemicolon_of_test (codes " SameSite=Lax") refl, tt)
same_site-NoSemicolon ps same_site_strict h =
    All-append NoSemicolon ps _ h (NoSemicolon_of_test (codes " SameSite=Strict") refl, tt)
same_site-NoSemicolon ps same_site_not_specified h = simp append-nil h
