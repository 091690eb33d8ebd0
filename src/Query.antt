-- ===== src/Query.antt =====
-- The query of a URL: `QueryImpl` of src/core/UrlQuery.hpp and src/core/UrlQuery.cpp.
pub mod RoundTrip
pub mod Lookup
use book_filer_module_http.Prelude.{
  ℕ, suc, ◌≡◌, false, Option, none, some, List, [], ◌∷◌, ◌++◌, ◌==◌, take, drop, find_first_of, All,
  Text, codes,
}
use book_filer_module_http.Prelude.Int.{ℤ, success}
use book_filer_module_http.Uri.{uri_encode, uri_decode}
use book_filer_module_http.StdMap.{find, insert}

-- No `&` in the text.
abbrev pub NoAmpersand : Text → Type 0
NoAmpersand = All (λ c. (c == b'&') ≡ false)

-- `boost::algorithm::split(result, text, boost::is_any_of("&"))`, with what Boost documents of it:
-- the parts between the separators, an empty one between two adjacent separators.
pub record Splitter : Type 0 where
  pub split : Text → List Text
  pub split_one : (s : Text) → NoAmpersand s → split s ≡ s ∷ []
  pub split_more : (s rest : Text) → NoAmpersand s → split (s ++ b'&' ∷ rest) ≡ s ∷ split rest

pub record QueryImpl : Type 0 where
  pub query_map : List (Text × Text)
  pub query_encoded : Text

abbrev pub new_query : QueryImpl
new_query = record { query_map = []; query_encoded = [] }

-- The characters that separate fields are encoded in keys and values.
abbrev pub reserved_chars : Text
reserved_chars = codes "&="

unfoldable pub flatten_field : Text × Text → Text
flatten_field (key, val) =
    (uri_encode key reserved_chars []).1 ++ b'=' ∷ (uri_encode val reserved_chars []).1

unfoldable pub flatten_query_map : List (Text × Text) → Text
flatten_query_map [] = []
flatten_query_map (field ∷ []) = flatten_field field
flatten_query_map (field ∷ next ∷ fields) =
    flatten_field field ++ b'&' ∷ flatten_query_map (next ∷ fields)

-- `queryPart.substr(0, queryPartPos)`: all of the part where no `=` is found.
unfoldable pub part_key : Text → Text
part_key part = elim (find_first_of part b'=') [ none ↦ part | some pos ↦ take pos part ]

-- `queryPart.substr(queryPartPos + 1)`: `npos + 1` wraps to 0, so this too is all of the part where
-- no `=` is found.
unfoldable pub part_value : Text → Text
part_value part = elim (find_first_of part b'=') [ none ↦ part | some pos ↦ drop (suc pos) part ]

-- The codes of `uriDecode` are not looked at: a malformed text gives what was decoded before the
-- error.
unfoldable pub decoded : Text → Text
decoded s = (uri_decode s []).1

-- The loop of `generateQueryMap` over the parts.
unfoldable pub insert_parts : List Text → List (Text × Text) → List (Text × Text)
insert_parts [] m = m
insert_parts (part ∷ parts) m =
    insert_parts parts (insert (decoded (part_key part)) (decoded (part_value part)) m)

-- `setQuery(std::map)`.
unfoldable pub set_query : List (Text × Text) → QueryImpl → QueryImpl × ℤ
set_query m q = (record q { query_map = m; query_encoded = flatten_query_map m }, success)

-- `setQuery(std::shared_ptr<rapidjson::Document>)` does nothing.
unfoldable pub set_query_json {ℓ} : {D : Type ℓ} → D → QueryImpl → QueryImpl × ℤ
set_query_json doc q = (q, success)

module _ (s : Splitter) where
  unfoldable pub generate_query_map : Text → QueryImpl → QueryImpl × ℤ
  generate_query_map encoded q =
      (record q { query_map = insert_parts (s.split encoded) q.query_map }, success)

  unfoldable pub set_encoded_query : Text → QueryImpl → QueryImpl × ℤ
  unfolding generate_query_map
  set_encoded_query encoded q =
      ((generate_query_map encoded (record q { query_encoded = encoded })).0, success)

-- `getQuery()`: the whole query, decoded.
unfoldable pub get_query : QueryImpl → Text
unfolding decoded
get_query q = decoded q.query_encoded

unfoldable pub get_encoded_query : QueryImpl → Text
get_encoded_query q = q.query_encoded

-- `getQuery(std::string)`: the value of a key.
unfoldable pub get_query_key : Text → QueryImpl → Option Text
get_query_key key q = find key q.query_map
