-- ===== src/Json.antt =====
-- `JsonImpl` of src/core/json.cpp, and the reading of the settings documents.
pub mod Print
use book_filer_module_http.Prelude.{Bool, Option, none, some, if◌then◌else◌, Text, codes}
use book_filer_module_http.Prelude.Int.{ℤ}

-- `rapidjson::Value`. `member` is `HasMember` with `operator[]`, of an object; a getter gives `none`
-- where the test of the type fails.
pub record JsonLib : Type 1 where
  pub Value : Type 0
  pub is_object : Value → Bool
  pub member : Text → Value → Option Value
  pub as_string : Value → Option Text
  pub as_int : Value → Option ℤ
  pub as_bool : Value → Option Bool

-- `HasMember(key) && val[key].IsT()`, and then `val[key].GetT()`.
unfoldable pub read_member {ℓ} : {V : Type 0} {A : Type ℓ} → Option V → (V → Option A) → Option A
read_member none get = none
read_member (some v) get = get v

module _ (J : JsonLib) where
  unfoldable pub get_member_string : J.Value → Text → Option Text
  unfolding read_member
  get_member_string val key = read_member (J.member key val) J.as_string

  unfoldable pub get_member_int : J.Value → Text → Option ℤ
  unfolding read_member
  get_member_int val key = read_member (J.member key val) J.as_int

  unfoldable pub get_member_bool : J.Value → Text → Option Bool
  unfolding read_member
  get_member_bool val key = read_member (J.member key val) J.as_bool

  -- The `server` member of the settings (src/core/Server.cpp, src/core/certificateManager.cpp), where it is an object.
  unfoldable pub server_member : J.Value → Option J.Value
  server_member doc =
      if J.is_object doc
      then elim (J.member (codes "server") doc) [
        | none ↦ none
        | some v ↦ if J.is_object v then some v else none
      ]
      else none

-- An assignment that is made only where a member is there.
abbrev pub keep {ℓ} : {A : Type ℓ} → Option A → A → A
keep none a = a
keep (some b) a = b

abbrev pub keep_some {ℓ} : {A : Type ℓ} → Option A → Option A → Option A
keep_some none o = o
keep_some (some b) o = some b

-- `JsonImpl::readFile` of a path that names a file, or nothing: what is read is dropped, and a new
-- document is returned.
unfoldable pub read_file {ℓ} : {D : Type ℓ} → D → Text → Option D
read_file new_document path = some new_document
