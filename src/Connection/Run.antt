-- ===== src/Connection/Run.antt =====
-- Whole runs of a connection: what the client sees, and when the run is over.
use book_filer_module_http.Prelude.{
  ◌≡◌, ◌≢◌, ◌⊎◌, inl, inr, Bool, true, false, List, [], ◌∷◌, ◌++◌, codes, Bool-cases, Outcome,
  returns, throws, undefined, All,
}
use book_filer_module_http.Prelude.Int.{success}
use book_filer_module_http.Env.{Env}
use book_filer_module_http.Route.{Handler, SignalLib, RouteImpl}
use book_filer_module_http.Route.Dispatch.{fill_response_lem}
use book_filer_module_http.Connection.{
  is_known_method, is_legal_target, returned, waiting, ReadResult, end_of_stream, read_error,
  read_message, Round, Event, wrote, dropped, Trace, bad_request, refuse, serve, write_response,
  conn_request, conn_round, conn_loop, shutdown, run,
}
use book_filer_module_http.Connection.Events.{IsKept, run-All}
use book_filer_module_http.Connection.Requests.{IsGood, serve-IsGood}

module _ (E : Env) (S : SignalLib (Handler E)) (routes : RouteImpl E S) where
  open E use {requests, responses}

  IsGood-IsKept : IsKept E S routes (IsGood E)
  unfolding bad_request
  IsGood-IsKept = record {
    served =
        λ req app app' events res legal e. serve-IsGood E S routes req app app' events res legal e;
    refused = λ req what. (fill_response_lem E 400 what req responses.new_message).0;
    ended = tt;
  }

  -- Whatever the network does, the routes are asked only for absolute paths without "..", every
  -- response that is written has status 200 or 404, and every one that is dropped has status 400.
  pub run-IsGood :
      (handshake : Bool) (rounds : List (Round E)) (shut : Bool) (app : E.App)
      → All (IsGood E) (run E S routes handshake rounds shut app).events
  run-IsGood = run-All E S routes (IsGood E) IsGood-IsKept

  refuses_method :
      (req : requests.Message) (ok shut : Bool) (rounds : List (Round E)) (app : E.App)
      → is_known_method (requests.method req) ≡ false
      → (res : responses.Message) × (responses.status res ≡ 400)
        × (conn_loop E S routes
              (record { read = read_message req; write_ok = ok } ∷ rounds)
              shut
              app
            ≡ record { events = dropped res ∷ []; ending = returned success; app = app })
  unfolding conn_loop conn_request bad_request refuse
  refuses_method req ok shut rounds app m = (
    bad_request E req responses.new_message (codes "Unknown HTTP-method"),
    (fill_response_lem E 400 (codes "Unknown HTTP-method") req responses.new_message).0,
    rw (m, conn_request),
  )

  -- A request that fails a test ends the run, with code 0, and the client gets no response: the one
  -- that was filled is dropped, and nothing that the network offers later is read.
  conn_loop_refuses :
      (req : requests.Message) (ok shut : Bool) (rounds : List (Round E)) (app : E.App)
      → (is_known_method (requests.method req) ≡ false)
        ⊎ (is_legal_target (requests.target req) ≡ false)
      → (res : responses.Message) × (responses.status res ≡ 400)
        × (conn_loop E S routes
              (record { read = read_message req; write_ok = ok } ∷ rounds)
              shut
              app
            ≡ record { events = dropped res ∷ []; ending = returned success; app = app })
  unfolding conn_loop conn_request bad_request refuse
  conn_loop_refuses req ok shut rounds app (inl m) = refuses_method req ok shut rounds app m
  conn_loop_refuses req ok shut rounds app (inr t) =
      elim (Bool-cases (is_known_method (requests.method req))) [
        | inr m ↦ refuses_method req ok shut rounds app m
        | inl m ↦ (
          bad_request E req responses.new_message (codes "Illegal request-target"),
          (fill_response_lem E 400 (codes "Illegal request-target") req responses.new_message).0,
          rw (m, conn_request) (rw t),
        )
      ]

  -- A request that is served and whose response is written is followed by the next round, also where
  -- the request asked for the connection to be closed.
  pub conn_loop_continues :
      (req : requests.Message) (shut : Bool) (rounds : List (Round E)) (app app' : E.App)
      (events : List (Event E)) (res : responses.Message)
      → is_known_method (requests.method req) ≡ true
      → is_legal_target (requests.target req) ≡ true
      → serve E S routes req app ≡ returns (events, res, app')
      → let rest = conn_loop E S routes rounds shut app' in
        conn_loop E S routes (record { read = read_message req; write_ok = true } ∷ rounds) shut app
        ≡ record {
          events = (events ++ wrote res ∷ []) ++ rest.events;
          ending = rest.ending;
          app = rest.app;
        }
  unfolding conn_loop conn_request
  conn_loop_continues req shut rounds app app' events res m t e = rw (m, conn_request) (rw t (rw e))

  -- A read that gives no message: the stream has ended, or failed.
  abbrev IsLast : ReadResult E → Type 0
  IsLast end_of_stream = Unit
  IsLast read_error = Unit
  IsLast (read_message req) = ⊥

  abbrev pub SomeLast : List (Round E) → Type 0
  SomeLast [] = ⊥
  SomeLast (round ∷ rounds) = IsLast round.read ⊎ SomeLast rounds

  abbrev Ends : Trace E → Type 0
  Ends t = t.ending ≢ waiting

  write_response-Ends :
      (ok : Bool) (app : E.App) (next : E.App → Trace E)
      (o : Outcome (List (Event E) × responses.Message × E.App))
      → ((a : E.App) → Ends (next a))
      → Ends (write_response E S routes ok app next o)
  unfolding write_response
  write_response-Ends ok app next throws h = λ e. cc
  write_response-Ends ok app next undefined h = λ e. cc
  write_response-Ends true app next (returns (events, res, app')) h = h app'
  write_response-Ends false app next (returns (events, res, app')) h = λ e. cc

  conn_request-Ends :
      (req : requests.Message) (ok : Bool) (app : E.App) (next : E.App → Trace E)
      → ((a : E.App) → Ends (next a))
      → Ends (conn_request E S routes req ok app next)
  unfolding conn_request refuse
  conn_request-Ends req ok app next h = elim (Bool-cases (is_known_method (requests.method req))) [
    | inr m ↦ rw (m, conn_request) (λ e. cc)
    | inl m ↦ elim (Bool-cases (is_legal_target (requests.target req))) [
      | inr t ↦ rw (m, conn_request) (rw t (λ e. cc))
      | inl t ↦
          rw (m, conn_request) (rw t (write_response-Ends ok app next (serve E S routes req app) h))
    ]
  ]

  last-Ends :
      (read : ReadResult E) (ok shut : Bool) (app : E.App) (next : E.App → Trace E)
      → IsLast read
      → Ends (conn_round E S routes read ok shut app next)
  unfolding conn_round shutdown
  last-Ends end_of_stream ok true app next h = λ e. cc
  last-Ends end_of_stream ok false app next h = λ e. cc
  last-Ends read_error ok shut app next h = λ e. cc
  last-Ends (read_message req) ok shut app next h = elim h [ ]

  round-Ends :
      (read : ReadResult E) (ok shut : Bool) (app : E.App) (next : E.App → Trace E)
      → ((a : E.App) → Ends (next a))
      → Ends (conn_round E S routes read ok shut app next)
  unfolding conn_round
  round-Ends end_of_stream ok shut app next h = last-Ends end_of_stream ok shut app next tt
  round-Ends read_error ok shut app next h = last-Ends read_error ok shut app next tt
  round-Ends (read_message req) ok shut app next h = conn_request-Ends req ok app next h

  conn_loop-Ends :
      (rounds : List (Round E)) (shut : Bool) (app : E.App)
      → SomeLast rounds
      → Ends (conn_loop E S routes rounds shut app)
  unfolding conn_loop
  conn_loop-Ends [] shut app h = elim h [ ]
  conn_loop-Ends (round ∷ rounds) shut app (inl h) =
      last-Ends round.read round.write_ok shut app (conn_loop E S routes rounds shut) h
  conn_loop-Ends (round ∷ rounds) shut app (inr h) =
      round-Ends round.read round.write_ok shut app (conn_loop E S routes rounds shut)
        (λ a. conn_loop-Ends rounds shut a h)

  -- Once the stream ends or fails, the run is over: no run waits past such a round.
  pub run_ends :
      (handshake : Bool) (rounds : List (Round E)) (shut : Bool) (app : E.App)
      → SomeLast rounds
      → (run E S routes handshake rounds shut app).ending ≢ waiting
  unfolding run
  run_ends false rounds shut app h = λ e. cc
  run_ends true rounds shut app h = conn_loop-Ends rounds shut app h
