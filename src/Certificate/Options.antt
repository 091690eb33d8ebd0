-- ===== src/Certificate/Options.antt =====
-- The options of a certificate, as `newCertificate` and `signRequest` of
-- src/core/certificateManager.cpp read them, and the documents that the two localhost certificates
-- make for them.
use book_filer_module_http.Prelude.{
  ℕ, ◌+◌, ◌-◌, ◌*◌, ◌^◌, ◌≤◌, ◌≡◌, ◌↔◌, true, Option, none, some, List, [], ◌∷◌, if◌then◌else◌,
  arith, ltb, Text, codes, text_eq, Outcome, returns, undefined, ◌>>=◌,
}
use book_filer_module_http.Prelude.Int.{ℤ, pos, negsuc}
use book_filer_module_http.Json.{JsonLib, get_member_string, get_member_int, keep}

pub record CertOptions : Type 0 where
  pub days_valid : ℤ
  pub country : Text
  pub company : Text
  pub common_name : Text
  pub ou : Text
  pub city : Text
  pub state : Text

abbrev pub default_cert_options : CertOptions
default_cert_options = record {
  days_valid = pos 365;
  country = codes "C";
  company = codes "O";
  common_name = codes "CN";
  ou = codes "OU";
  city = codes "L";
  state = codes "S";
}

unfoldable pub read_options : (J : JsonLib) → J.Value → CertOptions
read_options J doc =
    if J.is_object doc
    then record {
      days_valid = keep (get_member_int J doc (codes "daysValid")) (pos 365);
      country = keep (get_member_string J doc (codes "country")) (codes "C");
      company = keep (get_member_string J doc (codes "company")) (codes "O");
      common_name = keep (get_member_string J doc (codes "commonName")) (codes "CN");
      ou = keep (get_member_string J doc (codes "OU")) (codes "OU");
      city = keep (get_member_string J doc (codes "city")) (codes "L");
      state = keep (get_member_string J doc (codes "state")) (codes "S");
    }
    else default_cert_options

-- A product in 32-bit `int`, which must not overflow.
unfoldable pub times : ℤ → ℕ → Outcome ℤ
times (pos n) k = if ltb (n * k) (2 ^ 31) then returns (pos (n * k)) else undefined
times (negsuc n) k =
    if ltb (2 ^ 31) ((n + 1) * k) then undefined else returns (negsuc ((n + 1) * k - 1))

-- `daysValid * 24 * 3600`.
unfoldable pub seconds_valid : ℤ → Outcome ℤ
unfolding times
seconds_valid days = do hours ← times days 24; times hours 3600

-- A number of days is turned into seconds exactly up to 24855, some 68 years; above, the product
-- overflows. Within that bound the result is the number of seconds.
pub seconds_valid_iff :
    (days : ℕ) (seconds : ℤ)
    → (seconds_valid (pos days) ≡ returns seconds)
      ↔ ((days ≤ 24855) × (seconds ≡ pos (days * 86400)))
unfolding seconds_valid times
seconds_valid_iff days seconds = ground arith

-- A document that the program builds with `SetObject` and `AddMember`.
pub data Literal : Type 0 where
  int_literal : ℤ → Literal
  string_literal : Text → Literal

abbrev pub literal_string : Text → List (Text × Literal) → Option Text
literal_string key [] = none
literal_string key ((k, int_literal n) ∷ members) =
    if text_eq k key then none else literal_string key members
literal_string key ((k, string_literal t) ∷ members) =
    if text_eq k key then some t else literal_string key members

abbrev pub literal_int : Text → List (Text × Literal) → Option ℤ
literal_int key [] = none
literal_int key ((k, int_literal n) ∷ members) =
    if text_eq k key then some n else literal_int key members
literal_int key ((k, string_literal t) ∷ members) =
    if text_eq k key then none else literal_int key members

-- RapidJSON gives back the members that were added, the first of a name before the others.
pub record JsonBuilder (J : JsonLib) : Type 0 where
  pub object_of : List (Text × Literal) → J.Value
  pub is_object-object_of :
      (members : List (Text × Literal)) → J.is_object (object_of members) ≡ true
  pub string-object_of :
      (members : List (Text × Literal)) (key : Text)
      → get_member_string J (object_of members) key ≡ literal_string key members
  pub int-object_of :
      (members : List (Text × Literal)) (key : Text)
      → get_member_int J (object_of members) key ≡ literal_int key members

-- The documents of `newCertRootLocalhost` and `newCertServerLocalhost`.
abbrev pub localhost_members : Text → Text → List (Text × Literal)
localhost_members common_name ou =
    (codes "daysValid", int_literal (pos 2000))
    ∷ (codes "country", string_literal (codes "US"))
    ∷ (codes "company", string_literal (codes "BookFiler"))
    ∷ (codes "commonName", string_literal common_name)
    ∷ (codes "OU", string_literal ou)
    ∷ (codes "city", string_literal (codes "San Jose"))
    ∷ (codes "state", string_literal (codes "California"))
    ∷ []
