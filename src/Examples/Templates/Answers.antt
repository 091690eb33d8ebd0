-- ===== src/Examples/Templates/Answers.antt =====
-- What the template program answers for each path.
use book_filer_module_http.Prelude.{
  ◌≡◌, Option, refl, sym, ap, ◌∙◌, inl, inr, none, some, List, [], ◌∷◌, ◌++◌, arith, Text, codes,
  text_eq, eq_of_text_eq, text_compare, if◌then◌else◌, Bool-cases, returns,
}
use book_filer_module_http.StdMap.{find, insert}
use book_filer_module_http.Env.{Env}
use book_filer_module_http.Json.{read_file}
use book_filer_module_http.Request.{RequestImpl, get_encoded_query, get_query_key}
use book_filer_module_http.Request.Parse.{target_path}
use book_filer_module_http.Route.{
  World, Handler, SignalLib, RouteImpl, new_routes, add, get_add, choose,
}
use book_filer_module_http.Server.Routes.{route_options, route}
use book_filer_module_http.Connection.{Event, serve, world_of}
use book_filer_module_http.Template.{
  MustacheLib, new_template, set_settings_doc, merge_data, add_context, parse, to_string,
}
use book_filer_module_http.Examples.{add_get_route}
use book_filer_module_http.Examples.Served.{Parsed, signal_of, serve_page}
use book_filer_module_http.Examples.Templates.{
  rendered, route_home, route_about, route_css, route_404, template_routes,
}

module _ (E : Env) (M : MustacheLib) {D : Type 0} (settings : Option D) (doc : D)
    (file_text : Text → Text) (S : SignalLib (Handler E)) where
  -- The page of a path.
  unfoldable page : Text → Handler E
  page path =
      if text_eq (codes "/") path
      then route_home E M settings doc file_text
      else if text_eq (codes "/Home.html") path
      then route_home E M settings doc file_text
      else if text_eq (codes "/about") path
      then route_about E M settings doc file_text
      else if text_eq (codes "/static/nicepage.css") path
      then route_css E M settings doc file_text
      else route_404 E M settings doc file_text

  abbrev pub table : RouteImpl E S
  table = record (new_routes E S) {
    route_get_map =
        (codes "*", signal_of E S (new_routes E S) (route_404 E M settings doc file_text))
        ∷ (codes "/", signal_of E S (new_routes E S) (route_home E M settings doc file_text))
        ∷ (
          codes "/Home.html",
          signal_of E S (new_routes E S) (route_home E M settings doc file_text),
        )
        ∷ (codes "/about", signal_of E S (new_routes E S) (route_about E M settings doc file_text))
        ∷ (
          codes "/static/nicepage.css",
          signal_of E S (new_routes E S) (route_css E M settings doc file_text),
        )
        ∷ [];
  }

  pub template_routes-table :
      template_routes E M settings doc file_text S (new_routes E S) ≡ returns table
  unfolding template_routes add_get_route route route_options get_add add find insert text_compare
  template_routes-table = refl

  choose-page :
      (path : Text)
      → choose E S path table.route_get_map table.route_all_map
        ≡ some (signal_of E S (new_routes E S) (page path))
  unfolding choose find page text_compare
  choose-page path = elim (Bool-cases (text_eq (codes "*") path)) [
    | inl star ↦ rw (sym (eq_of_text_eq (codes "*") path star)) refl
    | inr other ↦ ground (arith, other)
  ]

  -- A file as the program shows it: rendered with the two values of the data object.
  abbrev shown : Text → Text
  shown file =
      M.render (file_text file)
        (M.set (codes "href") (codes "href") (M.set (codes "test") (codes "value test") M.new_data))

  -- The text of a path: the page on the query for `/about`, the style sheet for its path, and the
  -- home page for every other.
  abbrev pub text_of : Text → RequestImpl E → Text
  text_of path r =
      if text_eq (codes "/about") path
      then codes "<h1>About</h1><br><h1>URL Data</h1><br>"
        ++ get_encoded_query E r
        ++ elim (get_query_key E (codes "code") r) [ none ↦ [] | some v ↦ codes "<br>" ++ v ]
      else if text_eq (codes "/static/nicepage.css") path
      then shown (codes "resources/www/static/nicepage.css")
      else shown (codes "resources/www/index.html")

  page-text_of : (path : Text) (w : World E) → (page path w).0 ≡ text_of path w.request
  unfolding page route_home route_about route_css route_404 rendered read_file new_template
      set_settings_doc book_filer_module_http.Template.read_file merge_data add_context parse
      to_string text_compare
  page-text_of path w = elim (Bool-cases (text_eq (codes "/about") path)) [
    | inl h ↦ rw (sym (eq_of_text_eq (codes "/about") path h)) refl
    | inr h ↦ elim (Bool-cases (text_eq (codes "/static/nicepage.css") path)) [
      | inl i ↦ rw (sym (eq_of_text_eq (codes "/static/nicepage.css") path i)) refl
      | inr i ↦ ground (arith, h, i)
    ]
  ]

  page_stays : (path : Text) (w : World E) → (page path w).1 ≡ w
  unfolding page route_home route_about route_css route_404
  page_stays path w = ground arith

  pub template_answers :
      (routes : RouteImpl E S) (req : E.requests.Message) (app app' : E.App)
      (events : List (Event E)) (res : E.responses.Message)
      → template_routes E M settings doc file_text S (new_routes E S) ≡ returns routes
      → serve E S routes req app ≡ returns (events, res, app')
      → (r : RequestImpl E) × Parsed E S routes req r
        × (E.responses.status res ≡ 200)
        × (E.responses.body res ≡ text_of (target_path (E.requests.target req)) r)
  template_answers routes req app app' events res built e =
      let same : table ≡ routes = cc (sym template_routes-table ∙ built) in
      let p = target_path (E.requests.target req) in
      let (r, parsed, status, body) =
        serve_page E S routes req app app' events res (page p)
          (ap (λ t. choose E S p t.route_get_map t.route_all_map) (sym same) ∙ choose-page p)
          (page_stays p) e in
      (r, parsed, status, body ∙ page-text_of p (world_of E r app))
