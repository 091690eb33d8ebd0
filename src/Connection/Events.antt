-- ===== src/Connection/Events.antt =====
-- What holds of every event of a connection.
use book_filer_module_http.Prelude.{
  ◌≡◌, inl, inr, Bool, true, false, List, [], ◌∷◌, ◌++◌, Text, codes, Bool-cases, Outcome-cases,
  returns, All, All-append,
}
use book_filer_module_http.Env.{Env}
use book_filer_module_http.Route.{Handler, SignalLib, RouteImpl}
use book_filer_module_http.Connection.{
  is_known_method, is_legal_target, ReadResult, end_of_stream, read_error, read_message, Round,
  Event, wrote, dropped, closed, Trace, bad_request, refuse, serve, write_response, conn_request,
  conn_round, conn_loop, shutdown, run,
}

module _ (E : Env) (S : SignalLib (Handler E)) (routes : RouteImpl E S) where
  open E use {requests, responses}

  -- A predicate that holds of the events of each request and of the end.
  pub record IsKept (P : Event E → Type 0) : Type 0 where
    pub served :
        (req : requests.Message) (app app' : E.App) (events : List (Event E))
        (res : responses.Message)
        → is_legal_target (requests.target req) ≡ true
        → serve E S routes req app ≡ returns (events, res, app')
        → All P events × P (wrote res)
    pub refused :
        (req : requests.Message) (what : Text)
        → P (dropped (bad_request E req responses.new_message what))
    pub ended : P closed

  module _ (P : Event E → Type 0) (kept : IsKept P) where
    abbrev Good : Trace E → Type 0
    Good t = All P t.events

    refuse-Good :
        (req : requests.Message) (what : Text) (app : E.App) → Good (refuse E req what app)
    unfolding refuse
    refuse-Good req what app = (kept.refused req what, tt)

    write_response-Good :
        (req : requests.Message) (ok : Bool) (app : E.App) (next : E.App → Trace E)
        → is_legal_target (requests.target req) ≡ true
        → ((a : E.App) → Good (next a))
        → Good (write_response E S routes ok app next (serve E S routes req app))
    unfolding write_response
    write_response-Good req ok app next legal h = elim (Outcome-cases (serve E S routes req app)) [
      | inl ((events, res, app'), e) ↦
          rw e (sent ok events res app' (kept.served req app app' events res legal e))
      | inr (inl e) ↦ rw e tt
      | inr (inr e) ↦ rw e tt
    ]
      where
        sent :
            (ok : Bool) (events : List (Event E)) (res : responses.Message) (app' : E.App)
            → All P events × P (wrote res)
            → Good (write_response E S routes ok app next (returns (events, res, app')))
        sent true events res app' (g, s) =
            All-append P (events ++ wrote res ∷ []) (next app').events
              (All-append P events (wrote res ∷ []) g (s, tt)) (h app')
        sent false events res app' (g, s) = g

    conn_request-Good :
        (req : requests.Message) (ok : Bool) (app : E.App) (next : E.App → Trace E)
        → ((a : E.App) → Good (next a))
        → Good (conn_request E S routes req ok app next)
    unfolding conn_request
    conn_request-Good req ok app next h =
        elim (Bool-cases (is_known_method (requests.method req))) [
          | inr m ↦ rw (m, conn_request) (refuse-Good req (codes "Unknown HTTP-method") app)
          | inl m ↦ elim (Bool-cases (is_legal_target (requests.target req))) [
            | inr t ↦
                rw (m, conn_request) (rw t (refuse-Good req (codes "Illegal request-target") app))
            | inl t ↦ rw (m, conn_request) (rw t (write_response-Good req ok app next t h))
          ]
        ]

    conn_round-Good :
        (read : ReadResult E) (ok shut : Bool) (app : E.App) (next : E.App → Trace E)
        → ((a : E.App) → Good (next a))
        → Good (conn_round E S routes read ok shut app next)
    unfolding conn_round shutdown
    conn_round-Good end_of_stream ok true app next h = (kept.ended, tt)
    conn_round-Good end_of_stream ok false app next h = tt
    conn_round-Good read_error ok shut app next h = tt
    conn_round-Good (read_message req) ok shut app next h = conn_request-Good req ok app next h

    conn_loop-Good :
        (rounds : List (Round E)) (shut : Bool) (app : E.App)
        → Good (conn_loop E S routes rounds shut app)
    unfolding conn_loop
    conn_loop-Good [] shut app = tt
    conn_loop-Good (round ∷ rounds) shut app =
        conn_round-Good round.read round.write_ok shut app (conn_loop E S routes rounds shut)
          (conn_loop-Good rounds shut)

    pub run-All :
        (handshake : Bool) (rounds : List (Round E)) (shut : Bool) (app : E.App)
        → All P (run E S routes handshake rounds shut app).events
    unfolding run
    run-All true rounds shut app = conn_loop-Good rounds shut app
    run-All false rounds shut app = tt
