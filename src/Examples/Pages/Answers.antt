-- ===== src/Examples/Pages/Answers.antt =====
-- What the programs http-server and http-server-cookie answer for each path.
use book_filer_module_http.Prelude.{
  ℕ, ◌≡◌, refl, sym, subst, ap, ◌∙◌, inl, inr, Option, none, some, List, [], ◌∷◌, ◌++◌, arith, Text,
  codes, text_eq, eq_of_text_eq, text_compare, if◌then◌else◌, Bool-cases, returns,
}
use book_filer_module_http.StdMap.{find, insert}
use book_filer_module_http.Env.{Env}
use book_filer_module_http.Request.{
  RequestImpl, get_encoded_query, get_query_key, get_cookie, get_user_agent_browser,
  fixed_user_agent,
}
use book_filer_module_http.Request.Parse.{target_path, get_user_agent_browser-parse_request}
use book_filer_module_http.Response.{writable_ended, set_response, end, body, set_cookie}
use book_filer_module_http.Route.{
  Handler, SignalLib, RouteImpl, new_routes, add, get_add, choose, combine, combine_from,
}
use book_filer_module_http.Server.Routes.{route_options, route}
use book_filer_module_http.Connection.{Event, serve, world_of}
use book_filer_module_http.Connection.Requests.{missing_text}
use book_filer_module_http.Examples.{add_get_route}
use book_filer_module_http.Examples.Served.{
  Parsed, Replied, signal_of, signal_at, reply, serve-reply,
}
use book_filer_module_http.Examples.Pages.{
  links, list_links, hello_world, about, show_cookie, show_browser, give_cookie, server_routes,
  cookie_routes,
}

module _ (E : Env) where
  -- The answers of http-server.
  unfoldable pub server_page : Text → RequestImpl E → ℕ × Text
  server_page path r =
      if text_eq (codes "/") path
      then (200, links E)
      else if text_eq (codes "/about") path
      then (
        200,
        codes "<h1>About</h1><h2>URL Data</h2><br>Query: "
            ++ get_encoded_query E r
            ++ elim (get_query_key E (codes "code") r) [
              | none ↦ []
              | some v ↦ codes "<br>Code: " ++ v
            ],
      )
      else if text_eq (codes "/news") path
      then (200, codes "Hello World!")
      else (404, missing_text E path)

  -- The answers of http-server-cookie.
  unfoldable pub cookie_page : Text → ℕ × Text
  cookie_page path =
      if text_eq (codes "/get") path
      then (200, codes "Get cookie name=")
      else if text_eq (codes "/user") path
      then (200, codes "User Agent Browser=" ++ E.browser_family fixed_user_agent)
      else (200, codes "<h1>Set cookie</h1><br><a href=\"/get\">Get Cookie</a>")

  unfoldable server_handler : Text → Option (Handler E)
  server_handler path =
      if text_eq (codes "/") path
      then some (list_links E)
      else if text_eq (codes "/about") path
      then some (about E)
      else if text_eq (codes "/news") path
      then some (hello_world E)
      else none

  unfoldable cookie_handler : Text → Option (Handler E)
  cookie_handler path =
      if text_eq (codes "/get") path
      then some (show_cookie E)
      else if text_eq (codes "/user") path
      then some (show_browser E)
      else some (give_cookie E)

  module _ (S : SignalLib (Handler E)) where
    abbrev alone : Handler E → S.Signal
    alone = signal_of E S (new_routes E S)

    abbrev pub server_table : RouteImpl E S
    server_table = record (new_routes E S) {
      route_get_map =
          (codes "/", alone (list_links E))
          ∷ (codes "/about", alone (about E))
          ∷ (codes "/news", alone (hello_world E))
          ∷ [];
    }

    abbrev pub cookie_table : RouteImpl E S
    cookie_table = record (new_routes E S) {
      route_get_map =
          (codes "*", alone (give_cookie E))
          ∷ (codes "/get", alone (show_cookie E))
          ∷ (codes "/user", alone (show_browser E))
          ∷ [];
    }

    pub server_routes-table : server_routes E S (new_routes E S) ≡ returns server_table
    unfolding server_routes add_get_route route route_options get_add add find insert text_compare
    server_routes-table = refl

    pub cookie_routes-table : cookie_routes E S (new_routes E S) ≡ returns cookie_table
    unfolding cookie_routes add_get_route route route_options get_add add find insert text_compare
    cookie_routes-table = refl

    choose-server :
        (path : Text)
        → choose E S path server_table.route_get_map server_table.route_all_map
          ≡ signal_at E S server_table (server_handler path)
    unfolding choose find server_handler text_compare
    choose-server path = ground arith

    choose-cookie :
        (path : Text)
        → choose E S path cookie_table.route_get_map cookie_table.route_all_map
          ≡ signal_at E S cookie_table (cookie_handler path)
    unfolding choose find cookie_handler text_compare
    choose-cookie path = elim (Bool-cases (text_eq (codes "*") path)) [
      | inl star ↦ rw (sym (eq_of_text_eq (codes "*") path star)) refl
      | inr other ↦ ground (arith, other)
    ]

    reply-server :
        (path : Text) (r : RequestImpl E) (app : E.App)
        → reply E S server_table (server_handler path) path (world_of E r app) ≡ server_page path r
    unfolding server_handler server_page list_links about hello_world combine combine_from
        writable_ended set_response end body
    reply-server path r app = ground arith

    reply-cookie :
        (path : Text) (r : RequestImpl E) (app : E.App)
        → get_user_agent_browser E r ≡ E.browser_family fixed_user_agent
        → reply E S cookie_table (cookie_handler path) path (world_of E r app) ≡ cookie_page path
    unfolding cookie_handler cookie_page show_cookie show_browser give_cookie combine combine_from
        writable_ended set_response body set_cookie get_cookie
    reply-cookie path r app browser = ground (arith, browser)

    pub server_answers :
        (routes : RouteImpl E S) (req : E.requests.Message) (app app' : E.App)
        (events : List (Event E)) (res : E.responses.Message)
        → server_routes E S (new_routes E S) ≡ returns routes
        → serve E S routes req app ≡ returns (events, res, app')
        → (r : RequestImpl E) × Parsed E S routes req r
          × Replied E S routes res (server_page (target_path (E.requests.target req)) r)
    server_answers routes req app app' events res built e =
        let same : server_table ≡ routes = cc (sym server_routes-table ∙ built) in
        let p = target_path (E.requests.target req) in
        let (r, parsed, replied) =
          serve-reply E S routes (server_handler p) req app app' events res
            (ap (λ t. choose E S p t.route_get_map t.route_all_map) (sym same) ∙ choose-server p)
            e in
        (r, parsed, subst (Replied E S routes res) (reply-server p r app) replied)

    pub cookie_answers :
        (routes : RouteImpl E S) (req : E.requests.Message) (app app' : E.App)
        (events : List (Event E)) (res : E.responses.Message)
        → cookie_routes E S (new_routes E S) ≡ returns routes
        → serve E S routes req app ≡ returns (events, res, app')
        → Replied E S routes res (cookie_page (target_path (E.requests.target req)))
    cookie_answers routes req app app' events res built e =
        let same : cookie_table ≡ routes = cc (sym cookie_routes-table ∙ built) in
        let p = target_path (E.requests.target req) in
        let (r, (rc, parsed), replied) =
          serve-reply E S routes (cookie_handler p) req app app' events res
            (ap (λ t. choose E S p t.route_get_map t.route_all_map) (sym same) ∙ choose-cookie p)
            e in
        let browser = get_user_agent_browser-parse_request E req r rc parsed in
        subst (Replied E S routes res) (reply-cookie p r app browser) replied
