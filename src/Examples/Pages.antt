-- ===== src/Examples/Pages.antt =====
-- The handlers and the routes of the programs http-server, http-server-complex, http-server-minimal,
-- http-server-cookie and http-server-userAgent of src_example: each one's main.cpp.
pub mod Answers
use book_filer_module_http.Prelude.{none, some, [], ◌++◌, Text, codes, Outcome, ◌>>=◌}
use book_filer_module_http.Env.{Env}
use book_filer_module_http.Cookie.{CookieImpl}
use book_filer_module_http.Request.{
  get_encoded_query, get_query_key, get_cookie, get_user_agent_browser,
}
use book_filer_module_http.Response
use book_filer_module_http.Route.{Handler, SignalLib, RouteImpl}
use book_filer_module_http.Examples.{add_get_route}

module _ (E : Env) where
  -- The list of links, which the handler for `/` of http-server ends the response with.
  abbrev pub links : Text
  links =
      codes
        "<ul><li><a href=\"/\">Home</a></li><li><a href=\"/about?code=test code\">About</a></li>"
      ++ codes "<li><a href=\"news\">News</a></li><li><a href=\"notexist\">Does Not Exist</a>"
      ++ codes "</li></ul>"

  unfoldable pub list_links : Handler E
  list_links w = ([], record w { response = (Response.end E.responses links w.response).0 })

  unfoldable pub hello_world : Handler E
  hello_world w = (codes "Hello World!", w)

  -- `routeAbout` of http-server.
  unfoldable pub about : Handler E
  about w = (
    codes "<h1>About</h1><h2>URL Data</h2><br>Query: "
        ++ get_encoded_query E w.request
        ++ elim (get_query_key E (codes "code") w.request) [
          | none ↦ []
          | some v ↦ codes "<br>Code: " ++ v
        ],
    w,
  )

  -- `routeAbout` of http-server-complex.
  unfoldable pub about_complex : Handler E
  about_complex w = (
    codes "<h1>About</h1><br><h1>URL Data</h1><br>"
        ++ get_encoded_query E w.request
        ++ elim (get_query_key E (codes "code") w.request) [
          | none ↦ []
          | some v ↦ codes "<br>" ++ v
        ],
    w,
  )

  -- `cookie_data` views the value of a cookie that is destroyed at the end of its statement. The
  -- value is empty whatever the request says, so no byte behind the view is read.
  unfoldable pub show_cookie : Handler E
  show_cookie w = (codes "Get cookie name=" ++ (get_cookie E (codes "name") w.request).value, w)

  unfoldable pub show_browser : Handler E
  show_browser w = (codes "User Agent Browser=" ++ get_user_agent_browser E w.request, w)

  unfoldable pub give_cookie : Handler E
  give_cookie w = (
    codes "<h1>Set cookie</h1><br><a href=\"/get\">Get Cookie</a>",
    record w {
      response = (Response.set_cookie E.responses (codes "name") (codes "value") [] w.response).0;
    },
  )

  module _ (S : SignalLib (Handler E)) where
    unfoldable pub server_routes : RouteImpl E S → Outcome (RouteImpl E S)
    server_routes r = do
      r1 ← add_get_route E S (codes "/") list_links r
      r2 ← add_get_route E S (codes "/about") about r1
      add_get_route E S (codes "/news") hello_world r2

    unfoldable pub complex_routes : RouteImpl E S → Outcome (RouteImpl E S)
    complex_routes r = do
      r1 ← add_get_route E S (codes "/") hello_world r
      add_get_route E S (codes "/about") about_complex r1

    unfoldable pub minimal_routes : RouteImpl E S → Outcome (RouteImpl E S)
    minimal_routes r = add_get_route E S (codes "/") hello_world r

    unfoldable pub cookie_routes : RouteImpl E S → Outcome (RouteImpl E S)
    cookie_routes r = do
      r1 ← add_get_route E S (codes "/get") show_cookie r
      r2 ← add_get_route E S (codes "/user") show_browser r1
      add_get_route E S (codes "*") give_cookie r2

    unfoldable pub browser_routes : RouteImpl E S → Outcome (RouteImpl E S)
    browser_routes r = add_get_route E S (codes "*") show_browser r
