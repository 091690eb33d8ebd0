-- ===== src/Connection/Exchanges.antt =====
-- Which requests of a connection are answered, and in which order: `conn_loop` of
-- src/core/ServerConnection.cpp, round by round.
use book_filer_module_http.Prelude.{
  ◌≡◌, inl, inr, Bool, true, List, [], ◌∷◌, ◌++◌, append_assoc, returns, All,
}
use book_filer_module_http.Env.{Env}
use book_filer_module_http.Route.{Handler, SignalLib, RouteImpl}
use book_filer_module_http.Connection.{
  is_known_method, is_legal_target, ReadResult, read_message, Round, Event, wrote, serve, conn_loop,
  run,
}
use book_filer_module_http.Connection.Rounds.{
  IsUnwritten, serve-IsUnwritten, IsStop, Served, round_cases,
}

module _ (E : Env) (S : SignalLib (Handler E)) (routes : RouteImpl E S) where
  open E use {requests, responses}

  -- Nothing more is read, or the next round gets no response.
  abbrev pub Stops : List (Round E) → Type 0
  Stops [] = Unit
  Stops (round ∷ rounds) = IsStop E S routes round.read round.write_ok

  -- The rounds of a connection and its events: each round in its turn gives a response that is in the
  -- relation to the request of this very round, until one gets no response; then none is written.
  pub data Exchanges (P : requests.Message → responses.Message → Type 0)
      : List (Round E) → List (Event E) → Type 0 where
    over :
        {rounds : List (Round E)} {events : List (Event E)}
        → Stops rounds
        → All (IsUnwritten E) events
        → Exchanges P rounds events
    exchanged :
        {req : requests.Message} {res : responses.Message} {rounds : List (Round E)}
        {events : List (Event E)} (front : List (Event E))
        → All (IsUnwritten E) front
        → is_known_method (requests.method req) ≡ true
        → is_legal_target (requests.target req) ≡ true
        → P req res
        → Exchanges P rounds events
        → Exchanges P
            (record { read = read_message req; write_ok = true } ∷ rounds)
            (front ++ wrote res ∷ events)

  module _ (P : requests.Message → responses.Message → Type 0)
      (replies : (req : requests.Message) (app app' : E.App) (events : List (Event E))
          (res : responses.Message)
        → serve E S routes req app ≡ returns (events, res, app')
        → P req res) where
    exchange :
        (read : ReadResult E) (ok : Bool) (app : E.App) (x : Served E S routes read ok app)
        (rounds : List (Round E)) (events : List (Event E))
        → Exchanges P rounds events
        → Exchanges P
            (record { read = read; write_ok = ok } ∷ rounds)
            ((x.front ++ wrote x.response ∷ []) ++ events)
    exchange read ok app x rounds events d =
        rw (append_assoc x.front (wrote x.response ∷ []) events) (
          rw (x.is_read, x.is_written)
            (exchanged x.front
              (serve-IsUnwritten E S routes x.request app x.left x.front x.response x.is_served)
              x.is_known x.is_legal (replies x.request app x.left x.front x.response x.is_served)
              d))

    conn_loop-Exchanges :
        (rounds : List (Round E)) (shut : Bool) (app : E.App)
        → Exchanges P rounds (conn_loop E S routes rounds shut app).events
    unfolding conn_loop
    conn_loop-Exchanges [] shut app = over tt tt
    conn_loop-Exchanges (round ∷ rounds) shut app =
        let next = conn_loop E S routes rounds shut in
        elim (round_cases E S routes round.read round.write_ok shut app next next) [
          | inl (_, _, unwritten, stop) ↦ over stop unwritten
          | inr (x, e, _) ↦ rw e (
              exchange round.read round.write_ok app x rounds (next x.left).events
                (conn_loop-Exchanges rounds shut x.left))
        ]

    -- What holds of each request that is served and its response ties the rounds to the responses.
    pub run-Exchanges :
        (rounds : List (Round E)) (shut : Bool) (app : E.App)
        → Exchanges P rounds (run E S routes true rounds shut app).events
    unfolding run
    run-Exchanges rounds shut app = conn_loop-Exchanges rounds shut app
