-- ===== src/Cookie.antt =====
-- `CookieImpl` of src/core/RequestCookie.hpp and src/core/RequestCookie.cpp.
pub mod Build
pub mod Copies
pub mod Parts
pub mod Header
use book_filer_module_http.Prelude.{
  String, Bool, true, false, not, Option, none, some, List, [], ◌∷◌, ◌++◌, if◌then◌else◌, Text,
  codes, text_eq, Outcome, returns, ◌>>=◌, or_throw,
}
use book_filer_module_http.Prelude.Int.{ℤ, pos, negsuc, eqb_ℤ}
use book_filer_module_http.Decimal.{to_string, stoi}

pub data SameSite : Type 0 where
  same_site_not_specified same_site_none same_site_lax same_site_strict : SameSite

pub record CookieImpl : Type 0 where
  pub version : ℤ
  pub name : Text
  pub value : Text
  pub comment : Text
  pub domain : Text
  pub path : Text
  pub priority : Text
  pub secure : Bool
  pub max_age : ℤ
  pub http_only : Bool
  pub same_site : SameSite

-- The clock and the calendar of the standard library: the seconds from now to a written date, as an
-- `int`, and the date that lies a number of seconds ahead, as it is written.
pub record Clock : Type 0 where
  pub seconds_until : Text → ℤ
  pub date_after : ℤ → Text

-- `CookieImpl()`.
abbrev pub new_cookie : CookieImpl
new_cookie = record {
  version = pos 0;
  name = [];
  value = [];
  comment = [];
  domain = [];
  path = [];
  priority = [];
  secure = false;
  max_age = negsuc 0;
  http_only = false;
  same_site = same_site_not_specified;
}

-- `CookieImpl(name)`.
unfoldable pub cookie_named : Text → CookieImpl
cookie_named name = record new_cookie { name = name }

-- `CookieImpl(name, value)`.
unfoldable pub cookie_of_pair : Text → Text → CookieImpl
cookie_of_pair name value = record new_cookie { name = name; value = value }

-- The setters.
unfoldable pub set_version : ℤ → CookieImpl → CookieImpl
set_version version_ c = record c { version = version_ }

unfoldable pub set_name : Text → CookieImpl → CookieImpl
set_name name_ c = record c { name = name_ }

unfoldable pub set_value : Text → CookieImpl → CookieImpl
set_value value_ c = record c { value = value_ }

unfoldable pub set_comment : Text → CookieImpl → CookieImpl
set_comment comment_ c = record c { comment = comment_ }

unfoldable pub set_domain : Text → CookieImpl → CookieImpl
set_domain domain_ c = record c { domain = domain_ }

unfoldable pub set_path : Text → CookieImpl → CookieImpl
set_path path_ c = record c { path = path_ }

unfoldable pub set_priority : Text → CookieImpl → CookieImpl
set_priority priority_ c = record c { priority = priority_ }

unfoldable pub set_secure : Bool → CookieImpl → CookieImpl
set_secure secure_ c = record c { secure = secure_ }

unfoldable pub set_max_age : ℤ → CookieImpl → CookieImpl
set_max_age max_age_ c = record c { max_age = max_age_ }

unfoldable pub set_http_only : Bool → CookieImpl → CookieImpl
set_http_only http_only_ c = record c { http_only = http_only_ }

unfoldable pub set_same_site : SameSite → CookieImpl → CookieImpl
set_same_site same_site_ c = record c { same_site = same_site_ }

unfoldable pub set_same_site_text : Text → CookieImpl → CookieImpl
set_same_site_text v c =
    if text_eq v (codes "None")
    then record c { same_site = same_site_none }
    else if text_eq v (codes "Lax")
    then record c { same_site = same_site_lax }
    else if text_eq v (codes "Strict")
    then record c { same_site = same_site_strict }
    else c

-- The branches of the loop of `CookieImpl(map)` that set an attribute.
pub data Attribute : Type 0 where
  comment_attribute domain_attribute path_attribute priority_attribute max_age_attribute : Attribute
  secure_attribute expires_attribute same_site_attribute version_attribute : Attribute
  http_only_attribute : Attribute

-- The comparisons of the name, in their order.
unfoldable pub attribute_of : Text → Option Attribute
attribute_of name =
    if text_eq name (codes "comment")
    then some comment_attribute
    else if text_eq name (codes "domain")
    then some domain_attribute
    else if text_eq name (codes "path")
    then some path_attribute
    else if text_eq name (codes "priority")
    then some priority_attribute
    else if text_eq name (codes "max-age")
    then some max_age_attribute
    else if text_eq name (codes "secure")
    then some secure_attribute
    else if text_eq name (codes "expires")
    then some expires_attribute
    else if text_eq name (codes "SameSite")
    then some same_site_attribute
    else if text_eq name (codes "version")
    then some version_attribute
    else if text_eq name (codes "HttpOnly")
    then some http_only_attribute
    else none

abbrev with_max_age : CookieImpl → ℤ → Outcome CookieImpl
with_max_age c n = returns (record c { max_age = n })

abbrev with_version : CookieImpl → ℤ → Outcome CookieImpl
with_version c n = returns (record c { version = n })

-- The body of each branch.
unfoldable pub set_attribute : Clock → Attribute → Text → CookieImpl → Outcome CookieImpl
unfolding set_same_site_text
set_attribute clock comment_attribute v c = returns (record c { comment = v })
set_attribute clock domain_attribute v c = returns (record c { domain = v })
set_attribute clock path_attribute v c = returns (record c { path = v })
set_attribute clock priority_attribute v c = returns (record c { priority = v })
set_attribute clock max_age_attribute v c = or_throw (stoi v) >>= with_max_age c
set_attribute clock secure_attribute v c = returns (record c { secure = true })
set_attribute clock expires_attribute v c = with_max_age c (clock.seconds_until v)
set_attribute clock same_site_attribute v c = returns (set_same_site_text v c)
set_attribute clock version_attribute v c = or_throw (stoi v) >>= with_version c
set_attribute clock http_only_attribute v c = returns (record c { http_only = true })

-- One entry of the map: the last branch takes any other name for the name of the cookie.
unfoldable pub cookie_entry : Clock → Text → Text → CookieImpl → Outcome CookieImpl
cookie_entry clock name v c = elim (attribute_of name) [
  | some a ↦ set_attribute clock a v c
  | none ↦ returns (record c { name = name; value = v })
]

unfoldable pub cookie_entries : Clock → List (Text × Text) → CookieImpl → Outcome CookieImpl
cookie_entries clock [] c = returns c
cookie_entries clock ((name, v) ∷ nvc) c = do
  c' ← cookie_entry clock name v c
  cookie_entries clock nvc c'

-- `CookieImpl(map)`.
unfoldable pub cookie_of_map : Clock → List (Text × Text) → Outcome CookieImpl
cookie_of_map clock nvc = cookie_entries clock nvc new_cookie

abbrev is_empty : Text → Bool
is_empty [] = true
is_empty (c ∷ s) = false

-- `result.append(piece)` under a test.
abbrev pub append_if : Bool → Text → Text → Text
append_if b piece result = if b then result ++ piece else result

unfoldable pub same_site_piece : SameSite → Text
same_site_piece same_site_none = codes "; SameSite=None"
same_site_piece same_site_lax = codes "; SameSite=Lax"
same_site_piece same_site_strict = codes "; SameSite=Strict"
same_site_piece same_site_not_specified = []

-- The attributes of a Netscape cookie.
unfoldable pub netscape_string : Clock → CookieImpl → Text → Text
unfolding same_site_piece
netscape_string clock c result =
    let r1 = result ++ c.value in
    let r2 = append_if (not (is_empty c.domain)) (codes "; domain=" ++ c.domain) r1 in
    let r3 = append_if (not (is_empty c.path)) (codes "; path=" ++ c.path) r2 in
    let r4 = append_if (not (is_empty c.priority)) (codes "; Priority=" ++ c.priority) r3 in
    let r5 =
      append_if (not (eqb_ℤ c.max_age (negsuc 0)))
        (codes "; expires=" ++ clock.date_after c.max_age) r4 in
    let r6 = r5 ++ same_site_piece c.same_site in
    let r7 = append_if c.secure (codes "; secure") r6 in
    append_if c.http_only (codes "; HttpOnly") r7

abbrev pub quoted : String → Text → Text
quoted label t = codes label ++ (b'"' ∷ (t ++ codes "\""))

-- The attributes of an RFC 2109 cookie.
unfoldable pub rfc2109_string : CookieImpl → Text → Text
unfolding same_site_piece
rfc2109_string c result =
    let r1 = result ++ quoted "" c.value in
    let r2 = append_if (not (is_empty c.comment)) (quoted "; Comment=" c.comment) r1 in
    let r3 = append_if (not (is_empty c.domain)) (quoted "; Domain=" c.domain) r2 in
    let r4 = append_if (not (is_empty c.path)) (quoted "; Path=" c.path) r3 in
    let r5 = append_if (not (is_empty c.priority)) (quoted "; Priority=" c.priority) r4 in
    let r6 =
      append_if (not (eqb_ℤ c.max_age (negsuc 0))) (quoted "; Max-Age=" (to_string c.max_age)) r5 in
    let r7 = r6 ++ same_site_piece c.same_site in
    let r8 = append_if c.secure (codes "; secure") r7 in
    let r9 = append_if c.http_only (codes "; HttpOnly") r8 in r9 ++ codes "; Version=\"1\""

-- `toString()`.
unfoldable pub cookie_string : Clock → CookieImpl → Text
unfolding netscape_string rfc2109_string
cookie_string clock c =
    let start = c.name ++ codes "=" in
    if eqb_ℤ c.version (pos 0) then netscape_string clock c start else rfc2109_string c start

-- The encoder's call is commented out.
unfoldable pub escape : Text → Text
escape str = []

unfoldable pub unescape : Text → Text
unescape str = []
