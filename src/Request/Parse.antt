-- ===== src/Request/Parse.antt =====
-- What `parseRequest` and `routeValidate` make of a message.
use book_filer_module_http.Prelude.{
  suc, ◌≡◌, refl, sym, ap, ◌∙◌, ◌↔◌, inl, inr, Option, none, some, arith, Text, codes, text_eq_iff,
  take, drop, find_first_of, Option-cases, returns, >>=-eq-returns, or_throw,
}
use book_filer_module_http.Prelude.Int.{ℤ, success}
use book_filer_module_http.StdMap.{find}
use book_filer_module_http.Query
use book_filer_module_http.Query.Lookup.{first_value, get_query_key-set_encoded_query}
use book_filer_module_http.Url
use book_filer_module_http.Url.{UrlImpl, UrlLib, with_address, new_url}
use book_filer_module_http.Env.{Env}
use book_filer_module_http.Request.{
  RequestImpl, new_request, set_request, method, path, read_target, read_host, parse_message,
  parse_request, route_validate, get_query_key, get_user_agent_browser, fixed_user_agent,
}

-- The path of a request target: what stands before the first `?`.
unfoldable pub target_path : Text → Text
target_path t = elim (find_first_of t b'?') [ none ↦ t | some pos ↦ take pos t ]

-- Its query: what stands behind, if there is a `?`.
unfoldable pub target_query : Text → Option Text
target_query t = elim (find_first_of t b'?') [ none ↦ none | some pos ↦ some (drop (suc pos) t) ]

with_address-returns :
    (L : UrlLib) (u v : UrlImpl L) (o : Option L.Address)
    → with_address L u (or_throw o) ≡ returns v
    → (a : L.Address) × (o ≡ some a) × (v ≡ record u { address = a })
with_address-returns L u v none e = cc
with_address-returns L u v (some a) e = (a, refl, ground arith)

module _ (E : Env) where
  open E use {urls, requests, splitter, browser_family}

  -- What a target makes of a URL: its path, and what its query adds to the query map.
  abbrev Reads : Text → UrlImpl urls → UrlImpl urls → Type 0
  Reads t u v =
      (urls.encoded_path v.address ≡ target_path t)
      × (v.query ≡ elim (target_query t) [
        | none ↦ u.query
        | some q ↦ (Query.set_encoded_query splitter q u.query).0
      ])

  read_target-Reads : (t : Text) (u v : UrlImpl urls) → read_target E t u ≡ returns v → Reads t u v
  unfolding read_target target_path target_query Url.set_encoded_query
  read_target-Reads t u v e = elim (Option-cases (find_first_of t b'?')) [
    | inl n ↦
        let (a, set, same) =
          with_address-returns urls u v (urls.set_encoded_path t u.address)
            (rw (n, read_target) at e) in
        (
          rw (n, target_path)
              (ap (λ w. urls.encoded_path w.address) same ∙ urls.path_set t u.address a set),
          rw (n, target_query) (ap (λ w. w.query) same),
        )
    | inr (pos, s) ↦
        let (w, first, rest) =
          >>=-eq-returns
            (with_address urls u (or_throw (urls.set_encoded_path (take pos t) u.address)))
            (λ u'. returns (Url.set_encoded_query urls splitter (drop (suc pos) t) u').0)
            (rw (s, read_target) at e) in
        let (a, set, same) =
          with_address-returns urls u w (urls.set_encoded_path (take pos t) u.address) first in
        let final : (Url.set_encoded_query urls splitter (drop (suc pos) t) w).0 ≡ v =
          ground (arith, rest) in
        (
          rw (s, target_path)
              (ap (λ x. urls.encoded_path x.address) (sym final)
                ∙ ap (λ x. urls.encoded_path x.address) same
                ∙ urls.path_set (take pos t) u.address a set),
          rw (s, target_query)
              (ap (λ x. x.query) (sym final)
                ∙ ap (λ x. (Query.set_encoded_query splitter (drop (suc pos) t) x.query).0) same),
        )
  ]

  read_host-keeps :
      (o : Option Text) (u v : UrlImpl urls)
      → read_host E o u ≡ returns v
      → (urls.encoded_path v.address ≡ urls.encoded_path u.address) × (v.query ≡ u.query)
  unfolding read_host
  read_host-keeps none u v e = ground (arith, e)
  read_host-keeps (some h) u v e =
      let (a, set, same) = with_address-returns urls u v (urls.set_host h u.address) e in
      (
        ap (λ w. urls.encoded_path w.address) same ∙ urls.path_kept h u.address a set,
        ap (λ w. w.query) same,
      )

  -- The value that a target gives to a key.
  abbrev pub query_value : Text → Text → Option Text
  query_value key t = elim (target_query t) [
    | none ↦ none
    | some q ↦ first_value key (splitter.split q)
  ]

  parse_message-Reads :
      (m : requests.Message) (r r' : RequestImpl E) (rc : ℤ)
      → parse_message E m r ≡ returns (r', rc)
      → (rc ≡ success)
        × Reads (requests.target m) r.url r'.url
        × (r'.method_str ≡ requests.method_string m)
        × (r'.request_beast ≡ some m)
        × (r'.user_agent ≡ r.user_agent)
  unfolding parse_message
  parse_message-Reads m r r' rc e =
      let (u, first, rest) = >>=-eq-returns (read_target E (requests.target m) r.url) _ e in
      let (u', second, last) =
        >>=-eq-returns (read_host E (requests.find_field (codes "Host") m) u) _ rest in
      let (path, query) = read_target-Reads (requests.target m) r.url u first in
      let (path', query') = read_host-keeps (requests.find_field (codes "Host") m) u u' second in
      ground (arith, last, path, query, path', query')

  -- When `parseRequest` of a new request returns, it returns success; the path is the target up to
  -- its first `?`, the method is the message's, and a key has the value of the first part of the
  -- query that names it, and none where the target has no query.
  pub parse_request_lem :
      (m : requests.Message) (r : RequestImpl E) (rc : ℤ)
      → parse_request E (set_request E m (new_request E)) ≡ returns (r, rc)
      → (rc ≡ success)
        × (path E r ≡ target_path (requests.target m))
        × (method E r ≡ requests.method_string m)
        × ((key : Text) → get_query_key E key r ≡ query_value key (requests.target m))
  unfolding parse_request set_request path method get_query_key Url.get_query_key
      Query.get_query_key find
  parse_request_lem m r rc e =
      let (code, reads, verb, _, _) =
        parse_message-Reads m (set_request E m (new_request E)) r rc e in
      (code, reads.0, verb, λ key. lookup key (target_query (requests.target m)) reads.1)
    where
      lookup :
          (key : Text) (o : Option Text)
          → r.url.query ≡ elim o [
            | none ↦ Query.new_query
            | some q ↦ (Query.set_encoded_query splitter q Query.new_query).0
          ]
          → Query.get_query_key key r.url.query
            ≡ elim o [ none ↦ none | some q ↦ first_value key (splitter.split q) ]
      lookup key none e = ap (Query.get_query_key key) e
      lookup key (some q) e =
          ap (Query.get_query_key key) e
          ∙ get_query_key-set_encoded_query splitter key q Query.new_query tt

  -- The browser is that of a text in the program, whatever user agent the request names.
  pub get_user_agent_browser-parse_request :
      (m : requests.Message) (r : RequestImpl E) (rc : ℤ)
      → parse_request E (set_request E m (new_request E)) ≡ returns (r, rc)
      → get_user_agent_browser E r ≡ browser_family fixed_user_agent
  unfolding parse_request set_request get_user_agent_browser
  get_user_agent_browser-parse_request m r rc e =
      (parse_message-Reads m (set_request E m (new_request E)) r rc e).4

  -- `routeValidate` accepts exactly the method and the path of the request.
  pub route_validate_iff :
      (verb p : Text) (r : RequestImpl E)
      → (route_validate E verb p r ≡ success) ↔ ((method E r ≡ verb) × (path E r ≡ p))
  unfolding route_validate
  route_validate_iff verb p r =
      ground (arith, text_eq_iff (method E r) verb, text_eq_iff (path E r) p)
