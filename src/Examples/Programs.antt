-- ===== src/Examples/Programs.antt =====
-- `allModulesLoaded` of each program of src_example that starts a server and then waits for the end.
pub mod Answers
pub mod Runs
use book_filer_module_http.Prelude.{ℕ, Bool, Text, Outcome}
use book_filer_module_http.Env.{Env}
use book_filer_module_http.Json.{JsonLib}
use book_filer_module_http.Route.{Handler, SignalLib}
use book_filer_module_http.Server.{AddressLib}
use book_filer_module_http.Server.Certificate.{SslCall}
use book_filer_module_http.Certificate.{OpenSsl}
use book_filer_module_http.Certificate.Files.{PemFiles}
use book_filer_module_http.Module.{ModuleExport}
use book_filer_module_http.Template.{MustacheLib}
use book_filer_module_http.Examples.{Application, all_modules_loaded}
use book_filer_module_http.Examples.Pages.{
  server_routes, complex_routes, minimal_routes, cookie_routes, browser_routes,
}
use book_filer_module_http.Examples.Templates.{template_routes}

module _ (E : Env) (S : SignalLib (Handler E)) (J : JsonLib) (N : AddressLib) (O : OpenSsl)
    (F : PemFiles) (takes : SslCall → Bool) (hardware : ℕ) where
  abbrev Program : Type 0
  Program = ModuleExport E J N O → Outcome (Application E S J N)

  unfoldable pub server_program : Program
  server_program = all_modules_loaded E S J N O F takes hardware (server_routes E S)

  unfoldable complex_program : Program
  complex_program = all_modules_loaded E S J N O F takes hardware (complex_routes E S)

  unfoldable minimal_program : Program
  minimal_program = all_modules_loaded E S J N O F takes hardware (minimal_routes E S)

  unfoldable pub cookie_program : Program
  cookie_program = all_modules_loaded E S J N O F takes hardware (cookie_routes E S)

  unfoldable browser_program : Program
  browser_program = all_modules_loaded E S J N O F takes hardware (browser_routes E S)

  unfoldable pub template_program : MustacheLib → J.Value → (Text → Text) → Program
  template_program M new_document file_text m =
      all_modules_loaded E S J N O F takes hardware
        (template_routes E M m.settings_doc new_document file_text S) m
