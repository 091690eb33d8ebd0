-- ===== src/Examples.antt =====
-- The programs of src_example that start a server: what they share. `allModulesLoaded` is called when
-- the modules are loaded; each program gives it its own routes.
pub mod Programs
pub mod Start
pub mod Served
pub mod Pages
pub mod Templates
pub mod JsonClient
pub mod Oauth
use book_filer_module_http.Prelude.{
  ℕ, Bool, Option, none, some, List, [], ◌∷◌, Text, codes, Outcome, returns, ◌>>=◌, deref,
}
use book_filer_module_http.Prelude.Int.{ℤ, pos, success}
use book_filer_module_http.Env.{Env}
use book_filer_module_http.Variant.{Variant, int, string}
use book_filer_module_http.Json.{JsonLib}
use book_filer_module_http.Route.{Handler, SignalLib, RouteImpl, new_routes}
use book_filer_module_http.Server
use book_filer_module_http.Server.{AddressLib, ServerImpl}
use book_filer_module_http.Server.Routes
use book_filer_module_http.Server.Routes.{RouteVariant}
use book_filer_module_http.Server.Certificate.{SslCall, use_certificate}
use book_filer_module_http.Certificate.{OpenSsl}
use book_filer_module_http.Certificate.Files.{PemFiles, load_certificate}
use book_filer_module_http.Module.{ModuleExport, new_server, new_certificate_manager}
use book_filer_module_http.Module.Loader.{Registration, Signal, Deployed, load_module}
use book_filer_module_http.Module.Waiting.{ConditionVariableMap, wait}

module _ (E : Env) (S : SignalLib (Handler E)) where
  -- `httpServer->route({{"method", "GET"}, {"path", path}, {"handler", handler}})`: the map holds its
  -- entries in the order of their keys.
  unfoldable pub add_get_route : Text → Handler E → RouteImpl E S → Outcome (RouteImpl E S)
  add_get_route path handler routes = do
    done ←
        Routes.route E S
          ((codes "handler", RouteVariant.function handler)
            ∷ (codes "method", RouteVariant.string (codes "GET"))
            ∷ (codes "path", RouteVariant.string path)
            ∷ [])
          routes
    returns done.0

  -- What a program has when its main thread waits for the end.
  pub record Application (J : JsonLib) (N : AddressLib) : Type 0 where
    pub server : ServerImpl J N
    pub routes : RouteImpl E S
    pub context : List SslCall
    pub waiting : ConditionVariableMap

  module _ (J : JsonLib) (N : AddressLib) (O : OpenSsl) (F : PemFiles) (takes : SslCall → Bool)
      (hardware : ℕ) where
    abbrev pub server_options : List (Text × Variant)
    server_options =
        (codes "host", string (codes "localhost")) ∷ (codes "port", int (pos 3000)) ∷ []

    -- `allModulesLoaded`: the main thread is number 0. What `loadCertificate` and `run` return is not
    -- looked at, and a certificate that is not there is followed.
    unfoldable pub all_modules_loaded :
        (RouteImpl E S → Outcome (RouteImpl E S)) → ModuleExport E J N O → Outcome (Application J N)
    all_modules_loaded add_routes m = do
      let manager = new_certificate_manager E J N O m
      loaded ← load_certificate J F manager.settings_doc none
      let made = new_server E J N O server_options m
      cert ← deref loaded.0
      used ← use_certificate O takes cert []
      routes ← add_routes (new_routes E S)
      ran ← Server.run J N hardware made
      returns (record {
        server = ran.0;
        routes = routes;
        context = used.0;
        waiting = wait 0 (codes "exit") [];
      })

    -- The callback that `main` gives to `loadModule`: it follows the program's pointer.
    unfoldable pub called_back :
        (RouteImpl E S → Outcome (RouteImpl E S))
        → Option (ModuleExport E J N O)
        → Outcome (Application J N)
    called_back add_routes pointer = do m ← deref pointer; all_modules_loaded add_routes m

    -- `main`: the program is called back by `loadModule`, whose result is not looked at.
    unfoldable pub main :
        (List Registration → List (Deployed E J N O))
        → (RouteImpl E S → Outcome (RouteImpl E S))
        → List (Signal E J N O)
        → Outcome (List (Application J N))
    unfolding called_back
    main deploys add_routes signals = do
      done ← load_module E J N O deploys (called_back add_routes) signals
      returns done.1
