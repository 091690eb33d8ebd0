-- ===== src/Cookie/Header.antt =====
-- The attributes of a cookie header, read back from `toString` at the semicolons.
use book_filer_module_http.Prelude.{
  String, ◌≡◌, refl, sym, ap, ◌∙◌, true, false, not, List, [], ◌∷◌, ◌++◌, append-nil, arith,
  if◌then◌else◌, ◌==◌, inl, inr, contains, Bool-cases, Text, codes, All, All-impl,
}
use book_filer_module_http.Prelude.Int.{pos, negsuc, eqb_ℤ}
use book_filer_module_http.Decimal.{to_string}
use book_filer_module_http.Decimal.Laws.{to_string-IsNumeric, IsNumeric}
use book_filer_module_http.Cookie.{
  Clock, CookieImpl, is_empty, netscape_string, rfc2109_string, quoted, cookie_string,
}
use book_filer_module_http.Cookie.Parts.{
  NoSemicolon, header_parts, tail_of, joined, optional, header_parts-joined, joined_step,
  same_site_part, same_site_step, NoSemicolon_of_test, NoSemicolon-append, NoSemicolon-quoted,
  snoc-NoSemicolon, same_site-NoSemicolon,
}

-- The attributes of a Netscape cookie, in the order in which they are written.
pub netscape_parts : Clock → CookieImpl → List Text
netscape_parts clock c =
    let p1 = optional (not (is_empty c.domain)) (codes " domain=" ++ c.domain) in
    let p2 = p1 ++ optional (not (is_empty c.path)) (codes " path=" ++ c.path) in
    let p3 = p2 ++ optional (not (is_empty c.priority)) (codes " Priority=" ++ c.priority) in
    let p4 =
      p3
      ++ optional (not (eqb_ℤ c.max_age (negsuc 0)))
          (codes " expires=" ++ clock.date_after c.max_age) in
    let p5 = p4 ++ same_site_part c.same_site in
    let p6 = p5 ++ optional c.secure (codes " secure") in
    p6 ++ optional c.http_only (codes " HttpOnly")

-- The attributes of an RFC 2109 cookie.
pub rfc2109_parts : CookieImpl → List Text
rfc2109_parts c =
    let p1 = optional (not (is_empty c.comment)) (quoted " Comment=" c.comment) in
    let p2 = p1 ++ optional (not (is_empty c.domain)) (quoted " Domain=" c.domain) in
    let p3 = p2 ++ optional (not (is_empty c.path)) (quoted " Path=" c.path) in
    let p4 = p3 ++ optional (not (is_empty c.priority)) (quoted " Priority=" c.priority) in
    let p5 =
      p4
      ++ optional (not (eqb_ℤ c.max_age (negsuc 0))) (quoted " Max-Age=" (to_string c.max_age)) in
    let p6 = p5 ++ same_site_part c.same_site in
    let p7 = p6 ++ optional c.secure (codes " secure") in
    let p8 = p7 ++ optional c.http_only (codes " HttpOnly") in p8 ++ codes " Version=\"1\"" ∷ []

netscape_string-joined :
    (clock : Clock) (c : CookieImpl) (start : Text)
    → netscape_string clock c start ≡ joined (start ++ c.value) (netscape_parts clock c)
unfolding netscape_string netscape_parts tail_of
netscape_string-joined clock c start =
    let p = start ++ c.value in
    joined_step c.http_only p _ _ _ (
      joined_step c.secure p _ _ _ (
        same_site_step c.same_site p _ _ (
          joined_step _ p _ _ _ (
            joined_step _ p _ _ _ (
              joined_step _ p _ _ _ (
                joined_step (not (is_empty c.domain)) p p [] (codes " domain=" ++ c.domain)
                  (sym (append-nil p))))))))

rfc2109_string-joined :
    (c : CookieImpl) (start : Text)
    → rfc2109_string c start ≡ joined (start ++ quoted "" c.value) (rfc2109_parts c)
unfolding rfc2109_string rfc2109_parts tail_of
rfc2109_string-joined c start =
    let p = start ++ quoted "" c.value in
    joined_step true p _ _ (codes " Version=\"1\"") (
      joined_step c.http_only p _ _ _ (
        joined_step c.secure p _ _ _ (
          same_site_step c.same_site p _ _ (
            joined_step _ p _ _ _ (
              joined_step _ p _ _ _ (
                joined_step _ p _ _ _ (
                  joined_step _ p _ _ _ (
                    joined_step (not (is_empty c.comment)) p p [] (quoted " Comment=" c.comment)
                      (sym (append-nil p))))))))))

-- No text of the cookie holds a semicolon, and neither does the date of its expiry.
pub record IsClean (clock : Clock) (c : CookieImpl) : Type 0 where
  pub name : NoSemicolon c.name
  pub value : NoSemicolon c.value
  pub comment : NoSemicolon c.comment
  pub domain : NoSemicolon c.domain
  pub path : NoSemicolon c.path
  pub priority : NoSemicolon c.priority
  pub date : NoSemicolon (clock.date_after c.max_age)

netscape_parts-NoSemicolon :
    (clock : Clock) (c : CookieImpl) → IsClean clock c → All NoSemicolon (netscape_parts clock c)
unfolding netscape_parts
netscape_parts-NoSemicolon clock c h =
    snoc-NoSemicolon _ c.http_only (codes " HttpOnly")
      (snoc-NoSemicolon _ c.secure (codes " secure")
        (same_site-NoSemicolon _ c.same_site (
          snoc-NoSemicolon _ (not (eqb_ℤ c.max_age (negsuc 0)))
            (codes " expires=" ++ clock.date_after c.max_age)
            (snoc-NoSemicolon _ (not (is_empty c.priority)) (codes " Priority=" ++ c.priority)
              (snoc-NoSemicolon _ (not (is_empty c.path)) (codes " path=" ++ c.path)
                (snoc-NoSemicolon [] (not (is_empty c.domain)) (codes " domain=" ++ c.domain) tt
                  (labelled " domain=" c.domain refl h.domain))
                (labelled " path=" c.path refl h.path))
              (labelled " Priority=" c.priority refl h.priority))
            (labelled " expires=" (clock.date_after c.max_age) refl h.date)))
        (NoSemicolon_of_test (codes " secure") refl))
      (NoSemicolon_of_test (codes " HttpOnly") refl)
  where
    labelled :
        (s : String) (t : Text)
        → contains (codes s) b';' ≡ false
        → NoSemicolon t
        → NoSemicolon (codes s ++ t)
    labelled s t e k = NoSemicolon-append (codes s) t (NoSemicolon_of_test (codes s) e) k

rfc2109_parts-NoSemicolon :
    (clock : Clock) (c : CookieImpl) → IsClean clock c → All NoSemicolon (rfc2109_parts c)
unfolding rfc2109_parts
rfc2109_parts-NoSemicolon clock c h =
    snoc-NoSemicolon _ true (codes " Version=\"1\"")
      (snoc-NoSemicolon _ c.http_only (codes " HttpOnly")
        (snoc-NoSemicolon _ c.secure (codes " secure")
          (same_site-NoSemicolon _ c.same_site (
            snoc-NoSemicolon _ (not (eqb_ℤ c.max_age (negsuc 0)))
              (quoted " Max-Age=" (to_string c.max_age))
              (snoc-NoSemicolon _ (not (is_empty c.priority)) (quoted " Priority=" c.priority)
                (snoc-NoSemicolon _ (not (is_empty c.path)) (quoted " Path=" c.path)
                  (snoc-NoSemicolon _ (not (is_empty c.domain)) (quoted " Domain=" c.domain)
                    (snoc-NoSemicolon [] (not (is_empty c.comment)) (quoted " Comment=" c.comment)
                      tt (NoSemicolon-quoted " Comment=" c.comment refl h.comment))
                    (NoSemicolon-quoted " Domain=" c.domain refl h.domain))
                  (NoSemicolon-quoted " Path=" c.path refl h.path))
                (NoSemicolon-quoted " Priority=" c.priority refl h.priority))
              (NoSemicolon-quoted " Max-Age=" (to_string c.max_age) refl number)))
          (NoSemicolon_of_test (codes " secure") refl))
        (NoSemicolon_of_test (codes " HttpOnly") refl))
      (NoSemicolon_of_test (codes " Version=\"1\"") refl)
  where
    number : NoSemicolon (to_string c.max_age)
    number =
        All-impl IsNumeric (λ d. (d == b';') ≡ false) (to_string c.max_age) (λ d k. ground arith)
          (to_string-IsNumeric c.max_age)

-- Cut at its semicolons, the header of a cookie whose texts hold none is the name and value followed
-- by the attributes that are set, in a fixed order: a domain, a path, a priority, an expiry date, a
-- same-site rule and two flags for version 0; quoted ones, with the comment, the age in seconds and
-- the version, for any other version.
pub header_parts-cookie_string :
    (clock : Clock) (c : CookieImpl)
    → IsClean clock c
    → header_parts (cookie_string clock c) ≡ (
        if eqb_ℤ c.version (pos 0)
        then (c.name ++ codes "=" ++ c.value) ∷ netscape_parts clock c
        else (c.name ++ codes "=" ++ quoted "" c.value) ∷ rfc2109_parts c)
unfolding cookie_string
header_parts-cookie_string clock c h = elim (Bool-cases (eqb_ℤ c.version (pos 0))) [
  | inl v ↦
      rw (v, cookie_string)
        (ap header_parts (netscape_string-joined clock c start)
          ∙ header_parts-joined (start ++ c.value) (netscape_parts clock c)
              (NoSemicolon-append start c.value clean h.value)
              (netscape_parts-NoSemicolon clock c h))
  | inr v ↦
      rw (v, cookie_string)
        (ap header_parts (rfc2109_string-joined c start)
          ∙ header_parts-joined (start ++ quoted "" c.value) (rfc2109_parts c)
              (NoSemicolon-append start (quoted "" c.value) clean
                (NoSemicolon-quoted "" c.value refl h.value))
              (rfc2109_parts-NoSemicolon clock c h))
]
  where
    start : Text
    start = c.name ++ codes "="

    clean : NoSemicolon start
    clean = NoSemicolon-append c.name (codes "=") h.name (refl, tt)
