-- ===== src/Cookie/Copies.antt =====
-- The getters of `CookieImpl` (src/core/RequestCookie.hpp), its copy constructor and its assignment
-- (src/core/RequestCookie.cpp). The assignment works on objects, which may be the same one: the
-- objects are a list, and an address is a place in it.
use book_filer_module_http.Prelude.{
  ℕ, zero, suc, ◌≡◌, refl, sym, ap, ◌∙◌, ◌≢◌, Bool, Option, none, some, List, [], ◌∷◌, ◌++◌, ◌==◌,
  ==_iff, arith, Text, if◌then◌else◌, Bool-cases, inl, inr,
}
use book_filer_module_http.Prelude.Int.{ℤ}
use book_filer_module_http.Cookie.{SameSite, CookieImpl}

unfoldable get_version : CookieImpl → ℤ
get_version c = c.version

unfoldable get_name : CookieImpl → Text
get_name c = c.name

unfoldable get_value : CookieImpl → Text
get_value c = c.value

unfoldable get_comment : CookieImpl → Text
get_comment c = c.comment

unfoldable get_domain : CookieImpl → Text
get_domain c = c.domain

unfoldable get_path : CookieImpl → Text
get_path c = c.path

unfoldable get_priority : CookieImpl → Text
get_priority c = c.priority

unfoldable get_secure : CookieImpl → Bool
get_secure c = c.secure

unfoldable get_max_age : CookieImpl → ℤ
get_max_age c = c.max_age

unfoldable get_http_only : CookieImpl → Bool
get_http_only c = c.http_only

unfoldable get_same_site : CookieImpl → SameSite
get_same_site c = c.same_site

-- The objects that there are.
abbrev pub Objects : Type 0
Objects = List CookieImpl

unfoldable pub at : ℕ → Objects → Option CookieImpl
at i [] = none
at zero (c ∷ objects) = some c
at (suc i) (c ∷ objects) = at i objects

unfoldable put : ℕ → CookieImpl → Objects → Objects
put i c [] = []
put zero c (d ∷ objects) = c ∷ objects
put (suc i) c (d ∷ objects) = d ∷ put i c objects

-- The eleven members, in the order in which they are initialised.
unfoldable copy_of : CookieImpl → CookieImpl
copy_of c = record {
  version = c.version;
  name = c.name;
  value = c.value;
  comment = c.comment;
  domain = c.domain;
  path = c.path;
  priority = c.priority;
  secure = c.secure;
  max_age = c.max_age;
  http_only = c.http_only;
  same_site = c.same_site;
}

-- `CookieImpl(const CookieImpl &)`, which makes a new object.
unfoldable construct_copy : CookieImpl → Objects → Objects
unfolding copy_of
construct_copy c objects = objects ++ copy_of c ∷ []

-- The eleven assignments.
unfoldable assign_members : CookieImpl → CookieImpl → CookieImpl
assign_members c this = record this {
  version = c.version;
  name = c.name;
  value = c.value;
  comment = c.comment;
  domain = c.domain;
  path = c.path;
  priority = c.priority;
  secure = c.secure;
  max_age = c.max_age;
  http_only = c.http_only;
  same_site = c.same_site;
}

-- `operator=`: the test of the addresses, and the assignments.
unfoldable assign : ℕ → ℕ → Objects → Objects
unfolding at put assign_members
assign this cookie objects = if cookie == this then objects else elim (at cookie objects) [
  | none ↦ objects
  | some c ↦ elim (at this objects) [
    | none ↦ objects
    | some d ↦ put this (assign_members c d) objects
  ]
]

at-put-same :
    (i : ℕ) (c d : CookieImpl) (objects : Objects)
    → at i objects ≡ some d
    → at i (put i c objects) ≡ some c
unfolding at put
at-put-same i c d [] e = absurd (ground arith)
at-put-same zero c d (x ∷ objects) e = refl
at-put-same (suc i) c d (x ∷ objects) e = at-put-same i c d objects e

at-put-other :
    (i j : ℕ) (c : CookieImpl) (objects : Objects) → i ≢ j → at i (put j c objects) ≡ at i objects
unfolding at put
at-put-other i j c [] n = refl
at-put-other zero zero c (x ∷ objects) n = absurd (n refl)
at-put-other zero (suc j) c (x ∷ objects) n = refl
at-put-other (suc i) zero c (x ∷ objects) n = refl
at-put-other (suc i) (suc j) c (x ∷ objects) n =
    at-put-other i j c objects (λ e. n (omega (arith, e)))

-- After an assignment the object has the members that the other one had, which keeps its own, as does
-- every further object; so it is also where both are the same object.
assign_lem :
    (this cookie : ℕ) (c d : CookieImpl) (objects : Objects)
    → at cookie objects ≡ some c
    → at this objects ≡ some d
    → (at this (assign this cookie objects) ≡ some c)
      × ((i : ℕ) → i ≢ this → at i (assign this cookie objects) ≡ at i objects)
unfolding assign assign_members
assign_lem this cookie c d objects e f = elim (Bool-cases (cookie == this)) [
  | inl same ↦ (
    rw (same, assign) (ap (λ i. at i objects) (sym ((==_iff cookie this).0 same)) ∙ e),
    λ i n. rw (same, assign) refl,
  )
  | inr other ↦ (
    rw (other, e, f, assign) (at-put-same this (assign_members c d) d objects f),
    λ i n. rw (other, e, f, assign) (at-put-other i this (assign_members c d) objects n),
  )
]
