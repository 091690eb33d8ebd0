-- ===== src/Examples/Oauth.antt =====
-- The program src_example/oauth2-google/main.cpp. Its main thread and the handler of its route share
-- the strings and the module of an `OauthState`; the main thread is taken in the pieces between its
-- waits, and what the handler does comes between them. Printing is left out.
pub mod Login
pub mod Token
use book_filer_module_http.Prelude.{
  ℕ, Bool, Option, none, some, List, [], ◌∷◌, ◌++◌, Text, codes, if◌then◌else◌, Outcome, returns,
  ◌>>=◌, deref,
}
use book_filer_module_http.Prelude.Int.{ℤ, pos, ltb_ℤ, success, failure}
use book_filer_module_http.Env.{Env}
use book_filer_module_http.Variant.{Variant, string}
use book_filer_module_http.Json.{JsonLib, get_member_string, keep}
use book_filer_module_http.Url
use book_filer_module_http.Request.{RequestImpl, get_query_key, path}
use book_filer_module_http.Route.{Handler, SignalLib, RouteImpl, new_routes}
use book_filer_module_http.Server
use book_filer_module_http.Server.{AddressLib, ServerImpl}
use book_filer_module_http.Server.Certificate.{SslCall, use_certificate}
use book_filer_module_http.Certificate.{OpenSsl}
use book_filer_module_http.Certificate.Files.{PemFiles, load_certificate}
use book_filer_module_http.Client
use book_filer_module_http.Client.{Network, ClientImpl, c_str, set_url, set_query, set_header}
use book_filer_module_http.Module.{
  ModuleExport, new_client, new_client_of_options, new_server, new_url, new_certificate_manager,
}
use book_filer_module_http.Module.Waiting.{ConditionVariableMap, wait, notify}
use book_filer_module_http.Examples.{Application, add_get_route}

-- The strings that the threads share, and who waits for the handles of the module.
pub record OauthState : Type 0 where
  pub auth_code : Text
  pub user_id : Text
  pub access_token : Text
  pub refresh_token : Text
  pub waiting : ConditionVariableMap

abbrev title : Text
title = codes "<h1>Google OAUTH2 Example</h1>"

-- The form that the page of a user shows, in front of and behind the id.
abbrev results_form : Text → Text
results_form id =
    codes "<form action=\"/\" method=\"GET\"><label for=\"resultNum\">Results:</label><br><input "
    ++ codes "type=\"text\" id=\"resultNum\" name=\"resultNum\" value=\"20\"><br><input "
    ++ codes "type=\"hidden\" name=\"messagesPage\" value=\"1\"><input type=\"hidden\" "
    ++ codes "name=\"userId\" value=\""
    ++ id
    ++ codes "\"><input type=\"submit\" value=\"Submit\"></form>"

abbrev user_form : Text
user_form =
    codes "<form action=\"/\" method=\"GET\"><label for=\"userId\">Google User ID (Email "
    ++ codes "address):</label><br><input type=\"text\" id=\"userId\" name=\"userId\" "
    ++ codes "value=\"\"><br><input type=\"submit\" value=\"Submit\"></form>"

abbrev pub user_page : Text → Text
user_page id = title ++ codes "<br>userId=" ++ id ++ results_form id

abbrev pub code_page : Text → Text
code_page code = title ++ codes "<br>code=" ++ code ++ user_form

abbrev pub error_page : Text
error_page = title ++ codes "<br>Error: Code not received"

module _ (E : Env) (J : JsonLib) (N : AddressLib) (O : OpenSsl) (m : ModuleExport E J N O)
    (net : Network E) (parse_json : Text → Option J.Value) where
  -- `PrettyWriter`, and the number of the thread that runs the handler, as they are written.
  module _ (pretty : J.Value → Text) (thread_id : Text) where
    -- What is behind the page of a user, by what the exchange left in the client.
    abbrev messages : Text → ClientImpl E J × ℤ → Text
    messages page (c, rc) =
        if ltb_ℤ rc (pos 0)
        then page ++ codes "Could not access webpage by HTTP\n"
        else elim (Client.get_response_json E J c) [
          | none ↦ page ++ codes "JSON response not valid"
          | some doc ↦
              page
              ++ codes "<br>THREAD "
              ++ thread_id
              ++ codes "<br><br>allModulesLoaded jsonDoc PrettyWriter:<br><pre>"
              ++ c_str (pretty doc)
              ++ codes "</pre>"
        ]

    abbrev results_num : RequestImpl E → Text
    results_num r = elim (get_query_key E (codes "resultNum") r) [ none ↦ codes "20" | some n ↦ n ]

    -- The call of the mail service for a page of messages.
    unfoldable fetch_messages : RequestImpl E → OauthState → Text → Outcome Text
    fetch_messages r s page = do
      let base_url =
          codes "https://gmail.googleapis.com/gmail/v1/users/" ++ s.user_id ++ codes "/messages"
      c1 ← set_url E J base_url (new_client E J N O m)
      let c2 = (set_query E J ((codes "maxResults", results_num r) ∷ []) c1.0).0
      let headers =
          (codes "Accept", codes "application/json")
          ∷ (codes "Authorization", codes "Bearer " ++ s.access_token)
          ∷ []
      c3 ← set_header E J headers c2
      done ← Client.end E J net parse_json (Client.set_method E J (codes "GET") c3.0).0
      returns (messages page done)

    -- `routeAll`. The number chooses the thread that a notification wakes.
    unfoldable pub route_all : ℕ → RequestImpl E → OauthState → Outcome (Text × OauthState)
    unfolding fetch_messages
    route_all choice r s = elim (get_query_key E (codes "userId") r) [
      | some id ↦
          let s' = record s { user_id = id; waiting = notify choice (codes "userId") s.waiting } in
          elim (get_query_key E (codes "messagesPage") r) [
            | none ↦ returns (user_page id ++ codes "<br>path: " ++ path E r, s')
            | some n ↦ fetch_messages r s' (user_page id) >>= λ text. returns (text, s')
          ]
      | none ↦ elim (get_query_key E (codes "code") r) [
        | some code ↦ returns (
          code_page code ++ codes "<br>path: " ++ path E r,
          record s { auth_code = code; waiting = notify choice (codes "auth") s.waiting },
        )
        | none ↦ returns (error_page ++ codes "<br>path: " ++ path E r, s)
      ]
    ]

  -- The id and the secret of the application, which are literals of the program.
  module _ (client_id client_secret : Text) where
    abbrev pub auth_options : List (Text × Variant)
    auth_options =
        (codes "host", string (codes "accounts.google.com"))
        ∷ (codes "path", string (codes "/o/oauth2/v2/auth"))
        ∷ (codes "scheme", string (codes "https"))
        ∷ []

    abbrev auth_query : List (Text × Text)
    auth_query =
        (codes "client_id", client_id)
        ∷ (codes "redirect_uri", codes "https://localhost:8081")
        ∷ (codes "response_type", codes "code")
        ∷ (codes "scope", codes "https://mail.google.com/")
        ∷ (codes "test", codes "/*&op=4$@")
        ∷ []

    -- The start of the server. The certificate of the server stays null, so no store is made.
    unfoldable pub start_server :
        (S : SignalLib (Handler E))
        → PemFiles
        → (SslCall → Bool)
        → ℕ
        → Handler E
        → Outcome (ServerImpl J N × RouteImpl E S × List SslCall)
    start_server S F takes hardware handler = do
      let manager = new_certificate_manager E J N O m
      loaded ← load_certificate J F manager.settings_doc none
      let made = new_server E J N O [] m
      cert ← deref loaded.0
      used ← use_certificate O takes cert []
      ran ← Server.run J N hardware made
      routes ← add_get_route E S (codes "/") handler (new_routes E S)
      returns (ran.0, routes, used.0)

    -- `allModulesLoaded` up to its first wait, with the command that it gives to the system.
    unfoldable pub start :
        (S : SignalLib (Handler E))
        → PemFiles
        → (SslCall → Bool)
        → ℕ
        → Handler E
        → OauthState
        → Outcome (Application E S J N × Text × OauthState)
    unfolding start_server
    start S F takes hardware handler s = do
      started ← start_server S F takes hardware handler
      let (server, routes, context) = started
      auth_url ← new_url E J N O auth_options
      let u = (Url.set_query E.urls auth_query auth_url).0
      let waiting = wait 0 (codes "auth") s.waiting
      returns (
        record { server = server; routes = routes; context = context; waiting = waiting },
        c_str (codes "explorer \"" ++ Url.url E.urls u ++ codes "\""),
        record s { waiting = waiting },
      )

    abbrev pub token_options : List (Text × Variant)
    token_options =
        (codes "host", string (codes "oauth2.googleapis.com"))
        ∷ (codes "method", string (codes "POST"))
        ∷ (codes "path", string (codes "/token"))
        ∷ (codes "scheme", string (codes "https"))
        ∷ []

    abbrev pub token_query : Text → List (Text × Text)
    token_query code =
        (codes "client_id", client_id)
        ∷ (codes "client_secret", client_secret)
        ∷ (codes "code", code)
        ∷ (codes "grant_type", codes "authorization_code")
        ∷ (codes "redirect_uri", codes "https://localhost:8081")
        ∷ []

    -- The tokens of a response, and the code with which the program ends, if it does.
    unfoldable read_tokens : ClientImpl E J × ℤ → OauthState → OauthState × Option ℤ
    read_tokens (c, rc) s =
        if ltb_ℤ rc (pos 0) then (s, some failure) else elim (Client.get_response_json E J c) [
          | none ↦ (s, some success)
          | some doc ↦
              if J.is_object doc
              then (
                record s {
                  access_token =
                      keep (get_member_string J doc (codes "access_token")) s.access_token;
                  refresh_token =
                      keep (get_member_string J doc (codes "refresh_token")) s.refresh_token;
                },
                none,
              )
              else (s, some failure)
        ]

    abbrev wait_for_user : OauthState × Option ℤ → OauthState × Option ℤ
    wait_for_user (s, some rc) = (s, some rc)
    wait_for_user (s, none) = (record s { waiting = wait 0 (codes "userId") s.waiting }, none)

    -- From the first wait to the second.
    unfoldable pub after_login : OauthState → Outcome (OauthState × Option ℤ)
    unfolding read_tokens
    after_login s = do
      c ← new_client_of_options E J N O token_options m
      let c1 = (set_query E J (token_query s.auth_code) c).0
      c2 ← set_header E J ((codes "Content-Length", codes "0") ∷ []) c1
      done ← Client.end E J net parse_json c2.0
      returns (wait_for_user (read_tokens done s))

    -- From the second wait to the third.
    unfoldable after_user_id : OauthState → OauthState
    after_user_id s = record s { waiting = wait 0 (codes "exit") s.waiting }
