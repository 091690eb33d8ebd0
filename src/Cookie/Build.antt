-- ===== src/Cookie/Build.antt =====
-- What `CookieImpl(map)` makes of its map.
use book_filer_module_http.Prelude.{
  ◌≡◌, refl, sym, ◌∙◌, ◌≢◌, ◌↔◌, inl, inr, none, List, [], ◌∷◌, ◌++◌, arith, Text, Outcome, returns,
  ◌>>=◌, >>=-eq-returns, All, Option-cases, Outcome-cases,
}
use book_filer_module_http.Decimal.{stoi}
use book_filer_module_http.Cookie.{
  Clock, CookieImpl, new_cookie, Attribute, attribute_of, set_attribute, cookie_entry,
  cookie_entries, cookie_of_map, set_same_site_text, escape, unescape,
}

-- The name and the value are those of the cookie `c`, where there is a result.
abbrev KeepsName : CookieImpl → Outcome CookieImpl → Type 0
KeepsName c r = (d : CookieImpl) → r ≡ returns d → (d.name ≡ c.name) × (d.value ≡ c.value)

set_same_site_text-name :
    (v : Text) (c : CookieImpl)
    → ((set_same_site_text v c).name ≡ c.name) × ((set_same_site_text v c).value ≡ c.value)
unfolding set_same_site_text
set_same_site_text-name v c = ground arith

-- No attribute touches the name and the value.
set_attribute-name :
    (clock : Clock) (a : Attribute) (v : Text) (c : CookieImpl)
    → KeepsName c (set_attribute clock a v c)
unfolding set_attribute
set_attribute-name clock Attribute.comment_attribute v c d e = ground arith
set_attribute-name clock Attribute.max_age_attribute v c d e = ground (arith, Option-cases (stoi v))
set_attribute-name clock Attribute.version_attribute v c d e = ground (arith, Option-cases (stoi v))
set_attribute-name clock Attribute.same_site_attribute v c d e =
    ground (arith, set_same_site_text-name v c)
set_attribute-name clock _ v c d e = ground arith

cookie_entries-name :
    (clock : Clock) (nvc : List (Text × Text)) (c : CookieImpl)
    → All (λ e. attribute_of e.0 ≢ none) nvc
    → KeepsName c (cookie_entries clock nvc c)
unfolding cookie_entries cookie_entry
cookie_entries-name clock [] c h d e = ground arith
cookie_entries-name clock ((name, v) ∷ nvc) c (h, hs) d e =
    let (c', first, rest) =
      >>=-eq-returns (cookie_entry clock name v c) (cookie_entries clock nvc) e in
    elim (Option-cases (attribute_of name)) [
      | inl n ↦ absurd (h n)
      | inr (a, s) ↦ ground (
        arith,
        set_attribute-name clock a v c c' (rw (s, cookie_entry) at first),
        cookie_entries-name clock nvc c' hs d rest,
      )
    ]

cookie_entries-append :
    (clock : Clock) (pre post : List (Text × Text)) (c : CookieImpl)
    → cookie_entries clock (pre ++ post) c
      ≡ (cookie_entries clock pre c >>= cookie_entries clock post)
unfolding cookie_entries
cookie_entries-append clock [] post c = refl
cookie_entries-append clock ((name, v) ∷ pre) post c =
    elim (Outcome-cases (cookie_entry clock name v c)) [
      | inl (c', e) ↦ rw e (cookie_entries-append clock pre post c')
      | inr (inl e) ↦ rw e
      | inr (inr e) ↦ rw e
    ]

-- The cookie takes the last name of the map that is no attribute, with its value, whatever comes
-- before it; attributes may follow.
cookie_of_map-name :
    (clock : Clock) (pre post : List (Text × Text)) (name v : Text) (c : CookieImpl)
    → attribute_of name ≡ none
    → All (λ e. attribute_of e.0 ≢ none) post
    → cookie_of_map clock (pre ++ (name, v) ∷ post) ≡ returns c
    → (c.name ≡ name) × (c.value ≡ v)
unfolding cookie_of_map cookie_entries cookie_entry
cookie_of_map-name clock pre post name v c a h e =
    let start : (cookie_entries clock pre new_cookie >>= cookie_entries clock ((name, v) ∷ post))
        ≡ returns c =
      sym (cookie_entries-append clock pre ((name, v) ∷ post) new_cookie) ∙ e in
    let (c1, _, more) =
      >>=-eq-returns (cookie_entries clock pre new_cookie) (cookie_entries clock ((name, v) ∷ post))
        start in
    cookie_entries-name clock post (record c1 { name = name; value = v }) h c
      (rw (a, cookie_entry) at more)

-- What is escaped is lost: no text but the empty one comes back.
pub unescape-escape : (str : Text) → (unescape (escape str) ≡ str) ↔ (str ≡ [])
unfolding escape unescape
unescape-escape str = (sym, sym)
