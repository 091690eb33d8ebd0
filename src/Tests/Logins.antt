-- ===== src/Tests/Logins.antt =====
-- The theorems on the start of the programs of src_example, and on the one that logs in.
use book_filer_module_http.Prelude.{
  ◌≡◌, refl, none, some, List, [], ◌∷◌, Text, codes, text_compare, Outcome, returns, throws,
  undefined,
}
use book_filer_module_http.Json.{server_member, get_member_string, get_member_int}
use book_filer_module_http.Request.{RequestImpl, new_request, get_query_key}
use book_filer_module_http.Query
use book_filer_module_http.Url
use book_filer_module_http.Url.{url_of_options}
use book_filer_module_http.StdMap.{find, insert}
use book_filer_module_http.Certificate
use book_filer_module_http.Certificate.Manager
use book_filer_module_http.Server
use book_filer_module_http.Server.Routes.{route, route_options}
use book_filer_module_http.Module
use book_filer_module_http.Module.Waiting.{wait, notify}
use book_filer_module_http.Route.{new_routes, add, get_add, insert_slot}
use book_filer_module_http.Certificate.Files.{load_certificate}
use book_filer_module_http.Server.{new_server}
use book_filer_module_http.Server.Certificate.{use_certificate}
use book_filer_module_http.Module.{
  ModuleExport, new_certificate_manager, new_client, new_client_of_options,
}
use book_filer_module_http.Variant.{Variant}
use book_filer_module_http.Client.{ClientImpl, client_of_options}
use book_filer_module_http.Module.Waiting.Wakeups.{waiting}
use book_filer_module_http.Examples.{Application, add_get_route}
use book_filer_module_http.Examples.Oauth.{OauthState, route_all, token_options, start, after_login}
use book_filer_module_http.Examples.Oauth.Login.{login_wakes, login_lost}
use book_filer_module_http.Examples.Oauth.Token.{exchanges_break}
use book_filer_module_http.Examples.JsonClient.{json_options, fetch_json}
use book_filer_module_http.Tests.Libraries.{libraries, json, open_ssl, ip_addresses, signals}
use book_filer_module_http.Tests.Clients.{parse_all, empty_network}
use book_filer_module_http.Tests.Servers.{hello}
use book_filer_module_http.Tests.Loads.{module_export, files, takes_all}

abbrev fresh : OauthState
fresh = record { auth_code = []; user_id = []; access_token = []; refresh_token = []; waiting = [] }

abbrev login : RequestImpl libraries
login = record (new_request libraries) {
  url = record (new_request libraries).url {
    query = (Query.set_query ((codes "code", codes "x1") ∷ []) (new_request libraries).url.query).0;
  };
}

abbrev started :
    OauthState → Outcome (Application libraries signals json ip_addresses × Text × OauthState)
started s =
    start libraries json ip_addresses open_ssl module_export empty_network parse_all (codes "id")
      (codes "secret") signals files takes_all 8 hello s

abbrev routed : OauthState → Outcome (Text × OauthState)
routed s =
    route_all libraries json ip_addresses open_ssl module_export empty_network parse_all (λ v. [])
      (codes "7") 0 login s

-- The clients of the two exchanges, as they are made from their options.
abbrev client_of : List (Text × Variant) → ClientImpl libraries json
client_of options =
    elim (new_client_of_options libraries json ip_addresses open_ssl options module_export) [
      | returns c ↦ c
      | throws ↦ new_client libraries json ip_addresses open_ssl module_export
      | undefined ↦ new_client libraries json ip_addresses open_ssl module_export
    ]

abbrev token_call : List (Text × Variant)
token_call =
    token_options libraries json ip_addresses open_ssl module_export empty_network parse_all
      (codes "id") (codes "secret")

abbrev json_call : List (Text × Variant)
json_call = json_options libraries json ip_addresses open_ssl module_export empty_network parse_all

token_client-made :
    new_client_of_options libraries json ip_addresses open_ssl token_call module_export
    ≡ returns (client_of token_call)
unfolding new_client_of_options client_of_options text_compare
token_client-made = refl

json_client-made :
    new_client_of_options libraries json ip_addresses open_ssl json_call module_export
    ≡ returns (client_of json_call)
unfolding new_client_of_options client_of_options text_compare
json_client-made = refl

exchanges_break_example :
    (after_login libraries json ip_addresses open_ssl module_export empty_network parse_all
        (codes "id")
        (codes "secret")
        fresh
      ≡ undefined)
    × (fetch_json libraries json ip_addresses open_ssl module_export empty_network parse_all
        ≡ undefined)
exchanges_break_example =
    exchanges_break libraries json ip_addresses open_ssl module_export empty_network parse_all
      (codes "id") (codes "secret") fresh (client_of token_call) (client_of json_call)
      token_client-made json_client-made

abbrev pub no_application : Application libraries signals json ip_addresses
no_application = record {
  server = new_server json ip_addresses;
  routes = new_routes libraries signals;
  context = [];
  waiting = [];
}

-- What is in a start that returned.
abbrev app_of :
    Outcome (Application libraries signals json ip_addresses × Text × OauthState)
    → Application libraries signals json ip_addresses
app_of (returns (app, command, s)) = app
app_of o = no_application

abbrev command_of :
    Outcome (Application libraries signals json ip_addresses × Text × OauthState) → Text
command_of (returns (app, command, s)) = command
command_of o = []

abbrev waits_for_login : OauthState → OauthState
waits_for_login s = record s { waiting = wait 0 (codes "auth") s.waiting }

abbrev logged_in : OauthState → OauthState
logged_in s = record s { auth_code = codes "x1"; waiting = notify 0 (codes "auth") s.waiting }

abbrev text_of : Outcome (Text × OauthState) → Text
text_of (returns (text, s)) = text
text_of o = []

start-returns :
    (s : OauthState)
    → started s ≡ returns (app_of (started s), command_of (started s), waits_for_login s)
unfolding start text_compare load_certificate new_certificate_manager Manager.set_settings_doc
    server_member use_certificate Certificate.get_cert_str Certificate.get_private_key_str
    Certificate.get_dh_str Server.run Module.new_server Server.set_settings_doc get_member_string
    get_member_int get_add add find insert insert_slot add_get_route route route_options
    Module.new_url url_of_options Certificate.pem_str Server.derive_settings Server.read_settings
    Url.url_options Url.url_option
start-returns s = refl

login-code : get_query_key libraries (codes "code") login ≡ some (codes "x1")
unfolding get_query_key text_compare Url.get_query_key Query.get_query_key find Query.set_query
login-code = refl

login-no_user : get_query_key libraries (codes "userId") login ≡ none
unfolding get_query_key text_compare Url.get_query_key Query.get_query_key find Query.set_query
login-no_user = refl

login-routed : (s : OauthState) → routed s ≡ returns (text_of (routed s), logged_in s)
unfolding route_all get_query_key text_compare Url.get_query_key Query.get_query_key find
    Query.set_query
login-routed s = refl

nobody-waits : waiting (codes "auth") [] ≡ []
unfolding waiting find
nobody-waits = refl

login_wakes_example :
    (codes "x1" ≡ codes "x1")
    × (waiting (codes "auth") (logged_in (waits_for_login fresh)).waiting ≡ [])
login_wakes_example =
    login_wakes libraries json ip_addresses open_ssl module_export empty_network parse_all (λ v. [])
      (codes "7") (codes "id") (codes "secret") signals files takes_all 8 hello fresh
      (waits_for_login fresh) (logged_in (waits_for_login fresh)) (app_of (started fresh))
      (command_of (started fresh)) (text_of (routed (waits_for_login fresh))) (codes "x1") 0 login
      tt nobody-waits (start-returns fresh) (login-no_user, login-code)
      (login-routed (waits_for_login fresh))

login_lost_example :
    (codes "x1" ≡ codes "x1")
    × (waiting (codes "auth") (waits_for_login (logged_in fresh)).waiting ≡ 0 ∷ [])
login_lost_example =
    login_lost libraries json ip_addresses open_ssl module_export empty_network parse_all (λ v. [])
      (codes "7") (codes "id") (codes "secret") signals files takes_all 8 hello fresh
      (logged_in fresh) (waits_for_login (logged_in fresh)) (app_of (started (logged_in fresh)))
      (command_of (started (logged_in fresh))) (text_of (routed fresh)) (codes "x1") 0 login tt
      nobody-waits (login-no_user, login-code) (login-routed fresh)
      (start-returns (logged_in fresh))
