-- ===== src/Tests/Servers.antt =====
-- The theorems on routes and connections at concrete inputs.
use book_filer_module_http.Prelude.{
  ◌+◌, ◌≤◌, ◌≡◌, refl, ◌≢◌, length, inl, inr, true, false, some, List, [], ◌∷◌, ◌++◌, Text, codes,
  text_compare, All, returns,
}
use book_filer_module_http.Prelude.Int.{pos, success, failure}
use book_filer_module_http.StdMap.{IsSorted}
use book_filer_module_http.StdMap
use book_filer_module_http.Request.{new_request, set_request}
use book_filer_module_http.Response
use book_filer_module_http.Response.{new_response, set_response}
use book_filer_module_http.Route.{
  World, Handler, RouteMap, RouteImpl, insert_slot, new_routes, add, get_add, choose, combine,
  do_signal, do_get_signal, handlers_of,
}
use book_filer_module_http.Route.Combine.{NoneEnds, Ended, run_all, combine_stops}
use book_filer_module_http.Route.Choose.{path_slots}
use book_filer_module_http.Connection.{
  is_known_method, is_legal_target, Round, Event, dispatched, wrote, dropped, Trace, returned,
  waiting, end_of_stream, read_message, read_error, serve, conn_loop, run, Ending,
}
use book_filer_module_http.Connection.Requests.{IsGood}
use book_filer_module_http.Connection.Run.{run-IsGood, conn_loop_continues, run_ends}
use book_filer_module_http.Connection.Rounds.{written}
use book_filer_module_http.Connection.Refused.{with_bad, run_refuses}
use book_filer_module_http.Server.Routes.{RouteVariant, default_options, route_options, route}
use book_filer_module_http.Server.Dispatch.{route_get, route_post}
use book_filer_module_http.Tests.Libraries.{
  libraries, request_messages, response_messages, RequestMessage, ResponseMessage, signals,
}

-- A handler that counts, and answers with a text.
abbrev pub hello : Handler libraries
hello w = (codes "hello", record w { app = w.app + 1 })

abbrev pub ender : Handler libraries
ender w = (
  codes "unused",
  record w { response = (Response.end response_messages (codes "bye") w.response).0 },
)

abbrev hello_message : RequestMessage
hello_message = record request_messages.new_message { target_text = codes "/hello" }

abbrev outside_message : RequestMessage
outside_message = record request_messages.new_message { target_text = codes "/../etc" }

abbrev get_options : List (Text × RouteVariant libraries)
get_options =
    (codes "function", RouteVariant.function hello)
    ∷ (codes "method", RouteVariant.string (codes "GET"))
    ∷ (codes "path", RouteVariant.string (codes "/hello"))
    ∷ []

abbrev post_options : List (Text × RouteVariant libraries)
post_options =
    (codes "function", RouteVariant.function hello)
    ∷ (codes "method", RouteVariant.string (codes "POST"))
    ∷ []

abbrev some_routes : RouteImpl libraries signals
some_routes = record (new_routes libraries signals) {
  route_get_map = (codes "/hello", (pos 10, hello) ∷ []) ∷ [];
}

abbrev posted_routes : RouteImpl libraries signals
posted_routes = record some_routes { route_post_map = (codes "*", (pos 10, hello) ∷ []) ∷ [] }

abbrev pub some_world : World libraries
some_world = record {
  request = set_request libraries hello_message (new_request libraries);
  response =
      set_response response_messages response_messages.new_message (new_response response_messages);
  app = 0;
}

abbrev some_rounds : List (Round libraries)
some_rounds =
    record { read = read_message hello_message; write_ok = true }
    ∷ record { read = read_message outside_message; write_ok = true }
    ∷ []

hello-NoneEnds : NoneEnds libraries (hello ∷ []) some_world
unfolding Response.writable_ended set_response
hello-NoneEnds = (refl, tt)

hellos-NoneEnds : NoneEnds libraries (hello ∷ hello ∷ []) some_world
unfolding Response.writable_ended set_response
hellos-NoneEnds = (refl, (refl, tt))

ender-Ended : Ended libraries (run_all libraries (hello ∷ [] ++ ender ∷ []) [] some_world).1
unfolding Response.writable_ended run_all Response.end
ender-Ended = refl

x-not_found :
    do_signal libraries signals (codes "/x") some_world some_routes.route_get_map []
    ≡ returns (some_world, failure)
unfolding do_signal choose StdMap.find text_compare
x-not_found = refl

get_options-get :
    (route_options libraries get_options (default_options libraries)).method ≡ codes "GET"
unfolding route_options text_compare
get_options-get = refl

get_options-routed :
    route libraries signals get_options (new_routes libraries signals)
    ≡ returns (some_routes, success)
unfolding route text_compare route_options get_add add StdMap.find StdMap.insert insert_slot
get_options-routed = refl

post_options-post :
    (route_options libraries post_options (default_options libraries)).method ≡ codes "POST"
unfolding route_options text_compare
post_options-post = refl

post_options-routed :
    route libraries signals post_options some_routes ≡ returns (posted_routes, success)
unfolding route text_compare route_options book_filer_module_http.Route.post_add add StdMap.find
    StdMap.insert insert_slot
post_options-routed = refl

run-IsGood_example :
    All (IsGood libraries) (run libraries signals some_routes true some_rounds true 0).events
run-IsGood_example = run-IsGood libraries signals some_routes true some_rounds true 0

abbrev hello_response : ResponseMessage
hello_response = record {
  code = 200;
  number = 11;
  kept = true;
  text = codes "hello";
  fields =
      (codes "Content-Type", codes "text/html") ∷ (codes "Server", codes "Boost.Beast/290") ∷ [];
}

hello-served :
    serve libraries signals some_routes hello_message 0
    ≡ returns (dispatched (codes "/hello") ∷ [], hello_response, 1)
unfolding serve book_filer_module_http.Request.parse_request set_request StdMap.find do_get_signal
    choose text_compare book_filer_module_http.Request.path combine Response.writable_ended
    set_response book_filer_module_http.Route.fill_response
hello-served = refl

hello-legal : is_legal_target (codes "/hello") ≡ true
unfolding is_legal_target book_filer_module_http.Connection.starts_with_slash
    book_filer_module_http.Connection.has_dotdot
hello-legal = refl

outside-illegal : is_legal_target (codes "/../etc") ≡ false
unfolding is_legal_target book_filer_module_http.Connection.starts_with_slash
    book_filer_module_http.Connection.has_dotdot
outside-illegal = refl

get-known : is_known_method (request_messages.method hello_message) ≡ true
unfolding is_known_method
get-known = refl

run_refuses_example :
    (run libraries signals some_routes true
        (with_bad libraries signals some_routes outside_message true some_rounds some_rounds)
        true
        0
      ≡ run libraries signals some_routes true
          (with_bad libraries signals some_routes outside_message true some_rounds [])
          true
          0)
    × ((run libraries signals some_routes true
          (with_bad libraries signals some_routes outside_message true some_rounds some_rounds)
          true
          0).ending
        ≢ waiting)
    × (written libraries
          (run libraries signals some_routes true
            (with_bad libraries signals some_routes outside_message true some_rounds some_rounds)
            true
            0).events
        ≤ length some_rounds)
run_refuses_example =
    run_refuses libraries signals some_routes outside_message true true some_rounds
      (inr outside-illegal) true some_rounds 0

conn_loop_continues_example :
    let rest = conn_loop libraries signals some_routes some_rounds true 1 in
    conn_loop libraries signals some_routes
      (record { read = read_message hello_message; write_ok = true } ∷ some_rounds)
      true
      0
    ≡ record {
      events = (dispatched (codes "/hello") ∷ [] ++ wrote hello_response ∷ []) ++ rest.events;
      ending = rest.ending;
      app = rest.app;
    }
conn_loop_continues_example =
    conn_loop_continues libraries signals some_routes hello_message true some_rounds 0 1
      (dispatched (codes "/hello") ∷ []) hello_response get-known hello-legal hello-served

abbrev ending_rounds : List (Round libraries)
ending_rounds = record { read = end_of_stream; write_ok = true } ∷ []

run_ends_example : (run libraries signals some_routes true ending_rounds false 0).ending ≢ waiting
run_ends_example = run_ends libraries signals some_routes true ending_rounds false 0 (inl tt)

combine_stops_example : combine libraries (hello ∷ [] ++ ender ∷ hello ∷ []) some_world ≡ (
  Response.body response_messages
      (run_all libraries (hello ∷ [] ++ ender ∷ []) [] some_world).1.response,
  (run_all libraries (hello ∷ [] ++ ender ∷ []) [] some_world).1,
)
combine_stops_example =
    combine_stops libraries (hello ∷ []) (hello ∷ []) ender some_world hello-NoneEnds ender-Ended

routes-IsSorted : IsSorted some_routes.route_get_map
routes-IsSorted = (tt, tt)

abbrev no_routes : RouteMap libraries signals
no_routes = []

route_get_example :
    let o = route_options libraries get_options (default_options libraries) in
    (h : Handler libraries) × (o.route_function ≡ some h)
    × (s : signals.Signal) × (choose libraries signals o.path some_routes.route_get_map
          some_routes.route_all_map
        ≡ some s)
    × (signals.slots s
        ≡ insert_slot o.priority h
            (path_slots libraries signals o.path (new_routes libraries signals).route_get_map))
route_get_example =
    route_get libraries signals get_options (new_routes libraries signals) some_routes success tt
      get_options-get get_options-routed

route_post_example :
    do_get_signal libraries signals (codes "/other") some_world posted_routes
    ≡ do_get_signal libraries signals (codes "/other") some_world some_routes
route_post_example =
    route_post libraries signals post_options some_routes posted_routes success post_options-post
      post_options-routed (codes "/other") some_world
