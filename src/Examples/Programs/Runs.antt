-- ===== src/Examples/Programs/Runs.antt =====
-- What a client of a running program sees in the course of a whole connection.
use book_filer_module_http.Prelude.{◌≡◌, refl, true, false, ℕ, Bool, List, [], returns}
use book_filer_module_http.Env.{Env}
use book_filer_module_http.Json.{JsonLib}
use book_filer_module_http.Request.{RequestImpl}
use book_filer_module_http.Request.Parse.{target_path}
use book_filer_module_http.Route.{Handler, SignalLib, RouteImpl}
use book_filer_module_http.Server.{AddressLib}
use book_filer_module_http.Server.Certificate.{SslCall}
use book_filer_module_http.Certificate.{OpenSsl}
use book_filer_module_http.Certificate.Files.{PemFiles}
use book_filer_module_http.Connection.{Round, run}
use book_filer_module_http.Connection.Exchanges.{Exchanges, run-Exchanges}
use book_filer_module_http.Module.{ModuleExport}
use book_filer_module_http.Examples.{Application}
use book_filer_module_http.Examples.Served.{Parsed, Replied}
use book_filer_module_http.Examples.Pages.Answers.{server_page}
use book_filer_module_http.Examples.Programs.{server_program}
use book_filer_module_http.Examples.Programs.Answers.{server_program_answers}

module _ (E : Env) (S : SignalLib (Handler E)) where
  open E use {requests, responses}

  -- A response is the one that http-server gives for a request: the request is parsed, and the reply
  -- is that of its path.
  abbrev pub IsAnswer : RouteImpl E S → requests.Message → responses.Message → Type 0
  IsAnswer routes req res =
      (r : RequestImpl E) × Parsed E S routes req r
      × Replied E S routes res (server_page E (target_path (requests.target req)) r)

  module _ (J : JsonLib) (N : AddressLib) (O : OpenSsl) (F : PemFiles) (takes : SslCall → Bool)
      (hardware : ℕ) where
    -- In a connection to the program http-server, once it has started, the rounds are answered one by
    -- one: the response that a round writes answers the request that this round has read, by its path,
    -- with the links for `/`, with the query and the decoded `code` of the request for `/about`, with a
    -- greeting for `/news`, each with status 200, and with status 404 and a text that names the path
    -- for all others. This goes on until a round reads nothing, reads a request that fails a test or
    -- cannot be served, or cannot write; from then on no response is written. Without a handshake there
    -- is no event.
    pub server_program_runs :
        (m : ModuleExport E J N O) (program : Application E S J N)
        → server_program E S J N O F takes hardware m ≡ returns program
        → (rounds : List (Round E)) (shut : Bool) (app : E.App)
        → Exchanges E S program.routes
            (IsAnswer program.routes)
            rounds
            (run E S program.routes true rounds shut app).events
          × ((run E S program.routes false rounds shut app).events ≡ [])
    unfolding run
    server_program_runs m program started rounds shut app = (
      run-Exchanges E S program.routes (IsAnswer program.routes)
          (λ req app app' events res e.
            server_program_answers E S J N O F takes hardware m program req app app' events res
              started e)
          rounds shut app,
      refl,
    )
