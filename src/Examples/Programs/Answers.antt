-- ===== src/Examples/Programs/Answers.antt =====
-- What the running programs answer to a request that their connections serve.
use book_filer_module_http.Prelude.{◌≡◌, ℕ, Bool, List, Text, returns}
use book_filer_module_http.Env.{Env}
use book_filer_module_http.Json.{JsonLib}
use book_filer_module_http.Request.{RequestImpl}
use book_filer_module_http.Request.Parse.{target_path}
use book_filer_module_http.Route.{Handler, SignalLib}
use book_filer_module_http.Server.{AddressLib}
use book_filer_module_http.Server.Certificate.{SslCall}
use book_filer_module_http.Certificate.{OpenSsl}
use book_filer_module_http.Certificate.Files.{PemFiles}
use book_filer_module_http.Connection.{Event, serve}
use book_filer_module_http.Module.{ModuleExport}
use book_filer_module_http.Template.{MustacheLib}
use book_filer_module_http.Examples.{Application}
use book_filer_module_http.Examples.Served.{Parsed, Replied}
use book_filer_module_http.Examples.Start.{all_modules_loaded-routes}
use book_filer_module_http.Examples.Pages.{server_routes, cookie_routes}
use book_filer_module_http.Examples.Pages.Answers.{
  server_page, cookie_page, server_answers, cookie_answers,
}
use book_filer_module_http.Examples.Templates.{template_routes}
use book_filer_module_http.Examples.Templates.Answers.{text_of, template_answers}
use book_filer_module_http.Examples.Programs.{server_program, cookie_program, template_program}

module _ (E : Env) (S : SignalLib (Handler E)) (J : JsonLib) (N : AddressLib) (O : OpenSsl)
    (F : PemFiles) (takes : SslCall → Bool) (hardware : ℕ) where
  pub server_program_answers :
      (m : ModuleExport E J N O) (program : Application E S J N) (req : E.requests.Message)
      (app app' : E.App) (events : List (Event E)) (res : E.responses.Message)
      → server_program E S J N O F takes hardware m ≡ returns program
      → serve E S program.routes req app ≡ returns (events, res, app')
      → (r : RequestImpl E) × Parsed E S program.routes req r
        × Replied E S program.routes res (server_page E (target_path (E.requests.target req)) r)
  unfolding server_program
  server_program_answers m program req app app' events res started e =
      server_answers E S program.routes req app app' events res
        (all_modules_loaded-routes E S J N O F takes hardware (server_routes E S) m program started)
        e

  -- What the program http-server-cookie answers, once it has started, depends on nothing but the path:
  -- whatever the cookies and the user agent of the request are, the page of the cookie shows no value,
  -- and the page of the browser shows that of a fixed string.
  pub cookie_program_answers :
      (m : ModuleExport E J N O) (program : Application E S J N) (req : E.requests.Message)
      (app app' : E.App) (events : List (Event E)) (res : E.responses.Message)
      → cookie_program E S J N O F takes hardware m ≡ returns program
      → serve E S program.routes req app ≡ returns (events, res, app')
      → Replied E S program.routes res (cookie_page E (target_path (E.requests.target req)))
  unfolding cookie_program
  cookie_program_answers m program req app app' events res started e =
      cookie_answers E S program.routes req app app' events res
        (all_modules_loaded-routes E S J N O F takes hardware (cookie_routes E S) m program started)
        e

  -- A request that the program http-server-template serves, once it has started, is parsed, and is
  -- answered with status 200. The body is, for `/about`, the page that shows the query and the key
  -- `code` if there is one; for `/static/nicepage.css`, the file nicepage.css; and for every other
  -- path, unknown ones included, the file index.html; each file is rendered with the data `test` and
  -- `href`, whatever the module's settings are.
  pub template_program_answers :
      (M : MustacheLib) (new_document : J.Value) (file_text : Text → Text)
      (m : ModuleExport E J N O) (program : Application E S J N) (req : E.requests.Message)
      (app app' : E.App) (events : List (Event E)) (res : E.responses.Message)
      → template_program E S J N O F takes hardware M new_document file_text m ≡ returns program
      → serve E S program.routes req app ≡ returns (events, res, app')
      → (r : RequestImpl E) × Parsed E S program.routes req r
        × (E.responses.status res ≡ 200)
        × (E.responses.body res
            ≡ text_of E M m.settings_doc new_document file_text S
                (target_path (E.requests.target req))
                r)
  unfolding template_program
  template_program_answers M new_document file_text m program req app app' events res started e =
      template_answers E M m.settings_doc new_document file_text S program.routes req app app'
        events res
        (all_modules_loaded-routes E S J N O F takes hardware
          (template_routes E M m.settings_doc new_document file_text S) m program started)
        e
