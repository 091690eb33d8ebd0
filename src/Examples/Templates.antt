-- ===== src/Examples/Templates.antt =====
-- The program src_example/http-server-template/main.cpp: pages that are rendered from files.
pub mod Answers
use book_filer_module_http.Prelude.{Option, none, some, [], ◌++◌, Text, codes, Outcome, ◌>>=◌}
use book_filer_module_http.Env.{Env}
use book_filer_module_http.Json.{read_file}
use book_filer_module_http.Template
use book_filer_module_http.Template.{
  MustacheLib, TemplateImpl, new_template, merge_data, add_context, parse, to_string,
}
use book_filer_module_http.Request.{get_encoded_query, get_query_key}
use book_filer_module_http.Route.{Handler, SignalLib, RouteImpl}
use book_filer_module_http.Examples.{add_get_route}

module _ (E : Env) (M : MustacheLib) {D : Type 0} (settings : Option D) (new_document : D)
    (file_text : Text → Text) where
  -- What `routeHome`, `routeCSS` and `route404` do with a file.
  unfoldable rendered : D → Text → Text
  rendered doc file =
      let t0 = (Template.set_settings_doc M D settings (new_template M D)).0 in
      let t1 = (Template.read_file M D file_text file t0).0 in
      let t2 = (merge_data M D doc t1).0 in
      let t3 = (add_context M D (codes "href") (codes "href=\"{{url}}\"") t2).0 in
      to_string M D (parse M D t3).0

  abbrev rendered_with : Option D → Text → Text
  rendered_with none file = []
  rendered_with (some doc) file = rendered doc file

  unfoldable pub route_home : Handler E
  unfolding rendered
  route_home w = (
    rendered_with (read_file new_document (codes "resources/templates/in.json"))
        (codes "resources/www/index.html"),
    w,
  )

  unfoldable pub route_about : Handler E
  route_about w = (
    codes "<h1>About</h1><br><h1>URL Data</h1><br>"
        ++ get_encoded_query E w.request
        ++ elim (get_query_key E (codes "code") w.request) [
          | none ↦ []
          | some v ↦ codes "<br>" ++ v
        ],
    w,
  )

  unfoldable pub route_css : Handler E
  unfolding rendered
  route_css w = (
    rendered_with (read_file new_document (codes "resources/templates/in.json"))
        (codes "resources/www/static/nicepage.css"),
    w,
  )

  unfoldable pub route_404 : Handler E
  unfolding rendered
  route_404 w = (
    rendered_with (read_file new_document (codes "resources/templates/in.json"))
        (codes "resources/www/index.html"),
    w,
  )

  -- The routes of `allModulesLoaded`.
  unfoldable pub template_routes :
      (S : SignalLib (Handler E)) → RouteImpl E S → Outcome (RouteImpl E S)
  template_routes S r = do
    r1 ← add_get_route E S (codes "/") route_home r
    r2 ← add_get_route E S (codes "/Home.html") route_home r1
    r3 ← add_get_route E S (codes "/about") route_about r2
    r4 ← add_get_route E S (codes "/static/nicepage.css") route_css r3
    add_get_route E S (codes "*") route_404 r4
