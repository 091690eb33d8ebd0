-- ===== src/Url.antt =====
-- `UrlImpl` of src/core/Url.hpp and src/core/Url.cpp: a `boost::url` with a `QueryImpl` beside it.
pub mod Laws
use book_filer_module_http.Prelude.{
  ◌≡◌, Option, none, some, List, [], ◌∷◌, ◌++◌, if◌then◌else◌, Text, codes, text_eq, Outcome,
  returns, throws, ◌>>=◌, or_throw,
}
use book_filer_module_http.Prelude.Int.{ℤ, success, failure}
use book_filer_module_http.Variant.{Variant, int, double, string}
use book_filer_module_http.Query
use book_filer_module_http.Query.{Splitter, QueryImpl, new_query}

-- `boost::url`, with what its documentation says of the parts that the program reads back. A setter
-- that throws gives `none`, and leaves the URL as it was.
pub record UrlLib : Type 1 where
  pub Address : Type 0
  pub new_address : Address
  pub set_encoded_url : Text → Address → Option Address
  pub set_scheme : Text → Address → Option Address
  pub set_host : Text → Address → Option Address
  pub set_encoded_host : Text → Address → Option Address
  pub set_encoded_path : Text → Address → Option Address
  pub set_query_part : Text → Address → Option Address
  pub set_encoded_query_part : Text → Address → Option Address
  pub encoded_url : Address → Text
  pub scheme : Address → Text
  pub encoded_host : Address → Text
  pub encoded_path : Address → Text
  pub path_set : (p : Text) (a b : Address) → set_encoded_path p a ≡ some b → encoded_path b ≡ p
  pub path_kept :
      (h : Text) (a b : Address) → set_host h a ≡ some b → encoded_path b ≡ encoded_path a

module _ (L : UrlLib) where
  pub record UrlImpl : Type 0 where
    pub address : L.Address
    pub query : QueryImpl

  abbrev pub new_url : UrlImpl
  new_url = record { address = L.new_address; query = new_query }

  -- Replaces the `boost::url` by what a setter made of it.
  abbrev pub with_address : UrlImpl → Outcome L.Address → Outcome UrlImpl
  with_address u (returns a) = returns (record u { address = a })
  with_address u throws = throws
  with_address u Outcome.undefined = Outcome.undefined

  -- One option of `UrlImpl(std::map)`.
  unfoldable pub url_option : Text → Variant → UrlImpl → Outcome UrlImpl
  url_option key (int n) u = returns u
  url_option key (double d) u = returns u
  url_option key (string v) u =
      if text_eq key (codes "host")
      then with_address u (or_throw (L.set_encoded_host v u.address))
      else if text_eq key (codes "path")
      then with_address u (or_throw (L.set_encoded_path v u.address))
      else if text_eq key (codes "scheme")
      then with_address u (or_throw (L.set_scheme v u.address))
      else if text_eq key (codes "query")
      then with_address u (or_throw (L.set_query_part v u.address))
      else returns u

  unfoldable pub url_options : List (Text × Variant) → UrlImpl → Outcome UrlImpl
  url_options [] u = returns u
  url_options ((key, v) ∷ options) u = do u' ← url_option key v u; url_options options u'

  -- `UrlImpl(std::map)`.
  unfoldable pub url_of_options : List (Text × Variant) → Outcome UrlImpl
  url_of_options options = url_options options new_url

  -- The `try` block of both `setQuery`: the query map is set in either case.
  unfoldable pub publish_query : UrlImpl → UrlImpl × ℤ
  publish_query u = elim (L.set_encoded_query_part (Query.get_encoded_query u.query) u.address) [
    | some a ↦ (record u { address = a }, success)
    | none ↦ (u, failure)
  ]

  unfoldable pub set_query : List (Text × Text) → UrlImpl → UrlImpl × ℤ
  unfolding publish_query
  set_query m u = publish_query (record u { query = (Query.set_query m u.query).0 })

  unfoldable pub set_query_json {ℓ} : {D : Type ℓ} → D → UrlImpl → UrlImpl × ℤ
  unfolding publish_query
  set_query_json doc u = publish_query (record u { query = (Query.set_query_json doc u.query).0 })

  -- The `boost::url` is not told of the query.
  unfoldable pub set_encoded_query : Splitter → Text → UrlImpl → UrlImpl × ℤ
  set_encoded_query s encoded u =
      (record u { query = (Query.set_encoded_query s encoded u.query).0 }, success)

  unfoldable pub get_encoded_query : UrlImpl → Text
  get_encoded_query u = Query.get_encoded_query u.query

  unfoldable pub get_query_key : Text → UrlImpl → Option Text
  get_query_key key u = Query.get_query_key key u.query

  unfoldable pub url : UrlImpl → Text
  url u = L.encoded_url u.address

  unfoldable pub get_encoded_host : UrlImpl → Text
  get_encoded_host u = L.encoded_host u.address

  -- The request target: the `?` is there also without a query.
  unfoldable pub target : UrlImpl → Text
  unfolding get_encoded_query
  target u = L.encoded_path u.address ++ b'?' ∷ get_encoded_query u
