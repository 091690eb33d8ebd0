-- ===== src/Url/Laws.antt =====
-- The two queries of a URL, its own and the one of its `boost::url`, and when they part.
use book_filer_module_http.Prelude.{
  ◌≡◌, ap, ◌∙◌, ◌↔◌, inl, inr, none, List, [], ◌∷◌, ◌++◌, arith, Text, returns, >>=-eq-returns,
  Option-cases,
}
use book_filer_module_http.Prelude.Int.{failure}
use book_filer_module_http.Variant.{Variant, int, double, string}
use book_filer_module_http.StdMap.{find}
use book_filer_module_http.Query
use book_filer_module_http.Query.{Splitter, QueryImpl, new_query}
use book_filer_module_http.Url.{
  UrlLib, UrlImpl, new_url, url_option, url_options, url_of_options, set_query, get_encoded_query,
  get_query_key, target,
}

module _ (L : UrlLib) where
  url_option-query :
      (key : Text) (v : Variant) (u w : UrlImpl L)
      → url_option L key v u ≡ returns w
      → w.query ≡ u.query
  unfolding url_option
  url_option-query key (int n) u w e = ground arith
  url_option-query key (double d) u w e = ground arith
  url_option-query key (string v) u w e = ground arith

  url_options-query :
      (options : List (Text × Variant)) (u w : UrlImpl L)
      → url_options L options u ≡ returns w
      → w.query ≡ u.query
  unfolding url_options
  url_options-query [] u w e = ground arith
  url_options-query ((key, v) ∷ options) u w e =
      let (u', first, rest) = >>=-eq-returns (url_option L key v u) (url_options L options) e in
      url_options-query options u' w rest ∙ url_option-query key v u u' first

  -- A URL that is built from options has no query of its own, whatever its "query" option says: its
  -- target ends in an empty query, and no key is found.
  pub url_of_options_has_no_query :
      (options : List (Text × Variant)) (u : UrlImpl L) (key : Text)
      → url_of_options L options ≡ returns u
      → (target L u ≡ L.encoded_path u.address ++ b'?' ∷ []) × (get_query_key L key u ≡ none)
  unfolding url_of_options target get_query_key get_encoded_query Query.get_encoded_query
      Query.get_query_key find
  url_of_options_has_no_query options u key e =
      let none_set = url_options-query options (new_url L) u e in
      (
        ap (λ q. L.encoded_path u.address ++ b'?' ∷ q.query_encoded) none_set,
        ap (λ q. find key q.query_map) none_set,
      )

  -- `setQuery` fails exactly when `boost::url` refuses the flattened query. In either case the map
  -- is replaced, and a later target carries it.
  set_query_lem :
      (m : List (Text × Text)) (u : UrlImpl L)
      → let (v, rc) = set_query L m u in
        ((rc ≡ failure) ↔ (L.set_encoded_query_part (Query.flatten_query_map m) u.address ≡ none))
        × (v.query.query_map ≡ m)
        × (get_encoded_query L v ≡ Query.flatten_query_map m)
  unfolding set_query get_encoded_query Query.set_query Query.get_encoded_query
  set_query_lem m u =
      elim (Option-cases (L.set_encoded_query_part (Query.flatten_query_map m) u.address)) [
        | inl e ↦ ground (arith, e)
        | inr (a, e) ↦ ground (arith, e)
      ]
