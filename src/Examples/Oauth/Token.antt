-- ===== src/Examples/Oauth/Token.antt =====
-- Clients that are made from options, and the exchanges that the programs http-client-json and
-- oauth2-google start with them.
use book_filer_module_http.Prelude.{
  ◌≡◌, refl, inl, inr, Outcome-cases, Option, none, some, List, [], ◌∷◌, arith, Text, codes,
  returns, undefined, >>=-eq-returns,
}
use book_filer_module_http.Prelude.Int.{ℤ, success}
use book_filer_module_http.Env.{Env}
use book_filer_module_http.Variant.{Variant}
use book_filer_module_http.Json.{JsonLib}
use book_filer_module_http.Url.{new_url}
use book_filer_module_http.Request
use book_filer_module_http.Server.{AddressLib}
use book_filer_module_http.Certificate.{OpenSsl}
use book_filer_module_http.Client.{
  Network, ClientImpl, client_options, client_of_options, default_scheme, set_settings_doc,
  set_query, set_header, set_method, end,
}
use book_filer_module_http.Module.{ModuleExport, new_client_of_options}
use book_filer_module_http.Examples.Oauth.{OauthState, token_options, token_query, after_login}
use book_filer_module_http.Examples.JsonClient.{json_options, fetch_json}

module _ (E : Env) (J : JsonLib) where
  -- A client whose flags have no value.
  abbrev Unset : ClientImpl E J → Type 0
  Unset c = c.skip_peer_verification ≡ none

  end-undefined :
      (net : Network E) (parse_json : Text → Option J.Value) (c : ClientImpl E J)
      → Unset c
      → end E J net parse_json c ≡ undefined
  unfolding end
  end-undefined net parse_json c unset = rw unset refl

  -- A client that can be sent: its flags have no value, and it has a message of the library.
  abbrev Made : ClientImpl E J → Type 0
  Made c = Unset c × (m : E.requests.Message) × (c.request.request_beast ≡ some m)

  set_header-Made :
      (h : Text × Text) (headers : List (Text × Text)) (c : ClientImpl E J)
      → Made c
      → (c' : ClientImpl E J) × (rc : ℤ) × Unset c'
        × (set_header E J (h ∷ headers) c ≡ returns (c', rc))
  unfolding set_header Request.set_header
  set_header-Made h headers c (unset, m, has) =
      elim (Outcome-cases (Request.set_header E (h ∷ headers) c.request)) [
        | inl (r, e) ↦ (record c { request = r.0 }, success, unset, rw e refl)
        | inr (inl e) ↦ absurd (ground (arith, e, has))
        | inr (inr e) ↦ absurd (ground (arith, e, has))
      ]

  module _ (N : AddressLib) (O : OpenSsl) (m : ModuleExport E J N O) where
    new_client-Made :
        (map : List (Text × Variant)) (c : ClientImpl E J)
        → new_client_of_options E J N O map m ≡ returns c
        → Made c
    unfolding new_client_of_options client_of_options set_settings_doc Request.set_request
    new_client-Made map c e =
        let (c0, made, last) = >>=-eq-returns (client_of_options E J map) _ e in
        let (_, first, rest) =
          >>=-eq-returns (client_options E J map (new_url E.urls, [])) _ made in
        let (_, _, end) = >>=-eq-returns (default_scheme E J _ _) _ rest in
        (ground (arith, end, last), E.requests.new_message, ground (arith, end, last))

    -- Once their clients are made, the exchanges of oauth2-google and http-client-json have no defined
    -- behaviour, whatever the network answers and whatever the parser of the response gives: `end`
    -- reads a flag of the client that its constructor from options gave no value.
    pub exchanges_break :
        (net : Network E) (parse_json : Text → Option J.Value) (client_id client_secret : Text)
        (s : OauthState) (c d : ClientImpl E J)
        → new_client_of_options E J N O
            (token_options E J N O m net parse_json client_id client_secret)
            m
          ≡ returns c
        → new_client_of_options E J N O (json_options E J N O m net parse_json) m ≡ returns d
        → (after_login E J N O m net parse_json client_id client_secret s ≡ undefined)
          × (fetch_json E J N O m net parse_json ≡ undefined)
    unfolding after_login fetch_json set_query set_method
    exchanges_break net parse_json client_id client_secret s c d made_c made_d =
        let made = new_client-Made _ c made_c in
        let (c2, rc, unset2, headed) =
          set_header-Made (codes "Content-Length", codes "0") []
            (set_query E J
              (token_query E J N O m net parse_json client_id client_secret s.auth_code) c).0
            made in
        (
          rw made_c (rw headed (rw (end-undefined net parse_json c2 unset2) refl)),
          rw made_d (
              rw
                (end-undefined net parse_json (set_method E J (codes "GET") d).0
                  ((new_client-Made _ d made_d).0))
                refl),
        )
