-- ===== src/Tests/Starts.antt =====
-- The theorems on the listener and on the start of the server at concrete inputs.
use book_filer_module_http.Prelude.{
  ℕ, ◌≡◌, ◌⊎◌, refl, Bool, true, false, none, some, List, [], ◌∷◌, ◌++◌, Text, codes, text_compare,
  returns, undefined,
}
use book_filer_module_http.Prelude.Int.{pos, success}
use book_filer_module_http.Listener
use book_filer_module_http.Listener.{
  Setup, Accept, accepted, accept_error, open_acceptor, set_option, bind, listen, setups,
}
use book_filer_module_http.Listener.Accepting.{sockets, run_lem}
use book_filer_module_http.Server.{new_server, set_settings_doc, to_unsigned_short}
use book_filer_module_http.Server
use book_filer_module_http.Server.Start
use book_filer_module_http.Server.Start.{Given, StartCases, run_cases}
use book_filer_module_http.Json.{server_member, get_member_string, get_member_int}
use book_filer_module_http.Certificate.Options.{int_literal, string_literal}
use book_filer_module_http.Tests.Libraries.{json, JsonValue, object, nested, ip_addresses}

abbrev server_settings : JsonValue
server_settings = object (
    (codes "address", string_literal (codes "0.0.0.0"))
    ∷ (codes "docRoot", string_literal (codes "/srv"))
    ∷ (codes "port", int_literal (pos 70000))
    ∷ (codes "threadNum", int_literal (pos 4))
    ∷ [])

abbrev settings : JsonValue
settings = nested (codes "server") server_settings

settings-server : server_member json settings ≡ some server_settings
unfolding server_member text_compare
settings-server = refl

no_server : server_member json (object []) ≡ none
unfolding server_member
no_server = refl

abbrev answers : List (Accept ℕ)
answers = accepted 7 ∷ accept_error ∷ accepted 8 ∷ []

run_lem_example : Listener.run ℕ (λ call. true) answers (1 ∷ []) ≡ record {
  attempted = setups;
  connection_list = 1 ∷ [] ++ sockets ℕ answers;
  spawned = sockets ℕ answers;
  ending = Listener.accepting;
}
run_lem_example = run_lem ℕ (λ call. true) answers (1 ∷ []) (λ call. refl)

abbrev no_bind : Setup → Bool
no_bind bind = false
no_bind _ = true

run_cases_example :
    ((server_member json settings ≡ none)
      × (Start.started json ip_addresses 8 settings ≡ undefined))
    ⊎ ((v : JsonValue) × (a : Text) × (server_member json settings ≡ some v)
        × Given (get_member_string json v (codes "address")) a
        × StartCases json ip_addresses 8 settings v a)
run_cases_example = run_cases json ip_addresses 8 settings

-- The start with these settings: the port 70000 stands for 4464.
started-settings :
    (s : Server.ServerImpl json ip_addresses) × (Start.started json ip_addresses 8 settings
      ≡ returns (s, success))
    × (s.listeners ≡ record { endpoint_address = codes "0.0.0.0"; endpoint_port = 4464 } ∷ [])
unfolding Server.run Server.extract_settings Server.derive_settings Server.read_settings
    Server.set_settings_doc Server.to_unsigned_short get_member_string get_member_int server_member
    text_compare
started-settings = (_, refl, refl)
