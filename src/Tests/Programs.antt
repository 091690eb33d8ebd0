-- ===== src/Tests/Programs.antt =====
-- The theorems on the programs of src_example at concrete inputs.
use book_filer_module_http.Prelude.{
  ◌≡◌, refl, true, false, List, [], ◌∷◌, Text, codes, text_compare, Outcome, returns,
}
use book_filer_module_http.StdMap
use book_filer_module_http.Request
use book_filer_module_http.Request.{RequestImpl, set_request, parse_request}
use book_filer_module_http.Request.Parse.{target_path}
use book_filer_module_http.Response.{writable_ended, set_response}
use book_filer_module_http.Route.{
  RouteImpl, new_routes, insert_slot, choose, combine, do_get_signal, fill_response,
}
use book_filer_module_http.Connection.{Round, read_message, end_of_stream, run, dispatched, serve}
use book_filer_module_http.Json.{read_file}
use book_filer_module_http.Template
use book_filer_module_http.Template.{MustacheLib}
use book_filer_module_http.Examples.Served.{Parsed, Replied}
use book_filer_module_http.Examples.Pages.{server_routes, cookie_routes, show_browser}
use book_filer_module_http.Examples.Pages.Answers.{
  cookie_page, server_table, cookie_table, server_routes-table, cookie_routes-table,
}
use book_filer_module_http.Examples.Templates.{route_home, template_routes}
use book_filer_module_http.Examples.Templates.Answers.{text_of, table, template_routes-table}
use book_filer_module_http.Examples.{Application, all_modules_loaded}
use book_filer_module_http.Examples.Programs.{server_program, cookie_program, template_program}
use book_filer_module_http.Examples.Programs.Runs.{IsAnswer, server_program_runs}
use book_filer_module_http.Connection.Exchanges.{Exchanges}
use book_filer_module_http.Examples.Programs.Answers.{
  cookie_program_answers, template_program_answers,
}
use book_filer_module_http.Json.{server_member, get_member_string, get_member_int}
use book_filer_module_http.Certificate
use book_filer_module_http.Certificate.Manager
use book_filer_module_http.Certificate.Files.{load_certificate}
use book_filer_module_http.Server
use book_filer_module_http.Server.Certificate.{use_certificate}
use book_filer_module_http.Module
use book_filer_module_http.Module.{new_certificate_manager}
use book_filer_module_http.Tests.Libraries.{
  libraries, request_messages, response_messages, RequestMessage, ResponseMessage, signals, json,
  JsonValue, object, ip_addresses, open_ssl,
}
use book_filer_module_http.Tests.Loads.{module_export, files, takes_all}
use book_filer_module_http.Tests.Logins.{no_application}

abbrev asked : Text → RequestMessage
asked target = record request_messages.new_message { target_text = target }

abbrev shown : Text → ResponseMessage
shown text = record {
  code = 200;
  number = 11;
  kept = true;
  text = text;
  fields =
      (codes "Content-Type", codes "text/html") ∷ (codes "Server", codes "Boost.Beast/290") ∷ [];
}

-- What a program is when it has started and added no route.
abbrev started_of :
    Outcome (Application libraries signals json ip_addresses)
    → Application libraries signals json ip_addresses
started_of (returns program) = program
started_of o = no_application

abbrev bare_program : Application libraries signals json ip_addresses
bare_program = started_of (
    all_modules_loaded libraries signals json ip_addresses open_ssl files takes_all 8 returns
      module_export)

abbrev program_with : RouteImpl libraries signals → Application libraries signals json ip_addresses
program_with routes = record bare_program { routes = routes }

program-starts :
    (add_routes : RouteImpl libraries signals → Outcome (RouteImpl libraries signals))
    (routes : RouteImpl libraries signals)
    → add_routes (new_routes libraries signals) ≡ returns routes
    → all_modules_loaded libraries signals json ip_addresses open_ssl files takes_all 8 add_routes
        module_export
      ≡ returns (program_with routes)
unfolding all_modules_loaded load_certificate new_certificate_manager Manager.set_settings_doc
    server_member text_compare use_certificate Certificate.get_cert_str Certificate.pem_str
    Certificate.get_private_key_str Certificate.get_dh_str Server.run Module.new_server
    Server.set_settings_doc Server.derive_settings Server.read_settings get_member_string
    get_member_int
program-starts add_routes routes e = rw e refl

cookie-served :
    serve libraries signals (cookie_table libraries signals) (asked (codes "/user")) 0
    ≡ returns (dispatched (codes "/user") ∷ [], shown (codes "User Agent Browser=Chrome"), 0)
unfolding serve parse_request set_request StdMap.find do_get_signal choose text_compare Request.path
    combine writable_ended set_response fill_response insert_slot show_browser
    Request.get_user_agent_browser
cookie-served = refl

-- A template is shown as it is, and a file holds its own name.
abbrev mustache : MustacheLib
mustache = record { Data = Text; new_data = []; set = λ k v d. d; render = λ t d. t }

abbrev document : JsonValue
document = object []

abbrev template_table : RouteImpl libraries signals
template_table = table libraries mustache module_export.settings_doc document (λ t. t) signals

home-served :
    serve libraries signals template_table (asked (codes "/Home.html")) 0
    ≡ returns (dispatched (codes "/Home.html") ∷ [], shown (codes "resources/www/index.html"), 0)
unfolding serve parse_request set_request StdMap.find do_get_signal choose text_compare Request.path
    combine writable_ended set_response fill_response insert_slot route_home read_file
    Template.to_string Template.parse Template.add_context Template.merge_data Template.read_file
home-served = refl

server-started :
    server_program libraries signals json ip_addresses open_ssl files takes_all 8 module_export
    ≡ returns (program_with (server_table libraries signals))
unfolding server_program
server-started =
    program-starts (server_routes libraries signals) (server_table libraries signals)
      (server_routes-table libraries signals)

cookie-started :
    cookie_program libraries signals json ip_addresses open_ssl files takes_all 8 module_export
    ≡ returns (program_with (cookie_table libraries signals))
unfolding cookie_program
cookie-started =
    program-starts (cookie_routes libraries signals) (cookie_table libraries signals)
      (cookie_routes-table libraries signals)

cookie_program_answers_example :
    Replied libraries signals
      (cookie_table libraries signals)
      (shown (codes "User Agent Browser=Chrome"))
      (cookie_page libraries (target_path (codes "/user")))
cookie_program_answers_example =
    cookie_program_answers libraries signals json ip_addresses open_ssl files takes_all 8
      module_export (program_with (cookie_table libraries signals)) (asked (codes "/user")) 0 0
      (dispatched (codes "/user") ∷ []) (shown (codes "User Agent Browser=Chrome")) cookie-started
      cookie-served

template-started :
    template_program libraries signals json ip_addresses open_ssl files takes_all 8 mustache
      document
      (λ t. t)
      module_export
    ≡ returns (program_with template_table)
unfolding template_program
template-started =
    program-starts
      (template_routes libraries mustache module_export.settings_doc document (λ t. t) signals)
      template_table
      (template_routes-table libraries mustache module_export.settings_doc document (λ t. t)
        signals)

template_program_answers_example :
    let res = shown (codes "resources/www/index.html") in
    (r : RequestImpl libraries) × Parsed libraries signals template_table
      (asked (codes "/Home.html"))
      r
    × (response_messages.status res ≡ 200)
    × (response_messages.body res
        ≡ text_of libraries mustache module_export.settings_doc document
            (λ t. t)
            signals
            (target_path (codes "/Home.html"))
            r)
template_program_answers_example =
    template_program_answers libraries signals json ip_addresses open_ssl files takes_all 8 mustache
      document (λ t. t) module_export (program_with template_table) (asked (codes "/Home.html")) 0 0
      (dispatched (codes "/Home.html") ∷ []) (shown (codes "resources/www/index.html"))
      template-started home-served

-- A client that asks for two pages, the second of which there is not, and then leaves.
abbrev two_rounds : List (Round libraries)
two_rounds =
    record { read = read_message (asked (codes "/news?x")); write_ok = true }
    ∷ record { read = read_message (asked (codes "/old")); write_ok = true }
    ∷ record { read = end_of_stream; write_ok = true }
    ∷ []

server_program_runs_example :
    Exchanges libraries signals
      (server_table libraries signals)
      (IsAnswer libraries signals (server_table libraries signals))
      two_rounds
      (run libraries signals (server_table libraries signals) true two_rounds true 0).events
    × ((run libraries signals (server_table libraries signals) false two_rounds true 0).events ≡ [])
server_program_runs_example =
    server_program_runs libraries signals json ip_addresses open_ssl files takes_all 8 module_export
      (program_with (server_table libraries signals)) server-started two_rounds true 0
