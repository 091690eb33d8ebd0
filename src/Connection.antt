-- ===== src/Connection.antt =====
-- `Connection` of src/core/ServerConnection.hpp and src/core/ServerConnection.cpp: the loop that
-- serves one client. The network answers each asynchronous call; its answers are the rounds below.
pub mod Requests
pub mod Events
pub mod Run
pub mod Rounds
pub mod Exchanges
pub mod Refused
use book_filer_module_http.Prelude.{
  ℕ, Bool, true, false, ◌&&◌, ◌||◌, Option, none, some, List, [], ◌∷◌, ◌++◌, Text, codes, ◌==◌,
  if◌then◌else◌, Outcome, returns, throws, undefined, ◌>>=◌, deref,
}
use book_filer_module_http.Prelude.Int.{ℤ, pos, ltb_ℤ, success, failure}
use book_filer_module_http.Env.{Env}
use book_filer_module_http.Message.{Verb, get, head}
use book_filer_module_http.Request.{RequestImpl, new_request, set_request, parse_request, path}
use book_filer_module_http.Response.{new_response, set_response, parse_response}
use book_filer_module_http.Route.{
  World, Handler, SignalLib, RouteImpl, fill_response, do_get_signal,
}

-- `method() == get || method() == head`, the test that a request passes.
unfoldable pub is_known_method : Verb → Bool
is_known_method get = true
is_known_method head = true
is_known_method _ = false

-- `target.find("..") != npos`.
unfoldable pub has_dotdot : Text → Bool
has_dotdot [] = false
has_dotdot (a ∷ []) = false
has_dotdot (a ∷ b ∷ s) = (a == b'.' && b == b'.') || has_dotdot (b ∷ s)

unfoldable pub starts_with_slash : Text → Bool
starts_with_slash [] = false
starts_with_slash (c ∷ s) = c == b'/'

-- A target that passes the test: not empty, absolute and without "..".
unfoldable pub is_legal_target : Text → Bool
is_legal_target t = if starts_with_slash t then (if has_dotdot t then false else true) else false

-- How `run` ends: with a code, by an exception that leaves it, in undefined behaviour, or not yet,
-- where the network has not answered.
pub data Ending : Type 0 where
  returned : ℤ → Ending
  threw : Ending
  broke : Ending
  waiting : Ending

module _ (E : Env) where
  open E use {requests, responses}

  -- The result of `http::async_read`.
  pub data ReadResult : Type 0 where
    end_of_stream : ReadResult
    read_error : ReadResult
    read_message : requests.Message → ReadResult

  -- What the network answers in one round of the loop: to the read, and to the write.
  pub record Round : Type 0 where
    pub read : ReadResult
    pub write_ok : Bool

  -- What a client, or the routes, see of a connection.
  pub data Event : Type 0 where
    dispatched : Text → Event
    delayed : Event
    wrote : responses.Message → Event
    dropped : responses.Message → Event
    closed : Event

  pub record Trace : Type 0 where
    pub events : List Event
    pub ending : Ending
    pub app : E.App

  abbrev pub stop : List Event → Ending → E.App → Trace
  stop events ending app = record { events = events; ending = ending; app = app }

  abbrev pub before : List Event → Trace → Trace
  before events t = record t { events = events ++ t.events }

  unfoldable pub bad_request : requests.Message → responses.Message → Text → responses.Message
  bad_request req res what = fill_response E 400 what req res

  unfoldable pub not_found : requests.Message → responses.Message → Text → responses.Message
  not_found req res what =
      fill_response E 404 (codes "The resource '" ++ what ++ codes "' was not found.") req res

  -- No caller.
  unfoldable pub server_error : requests.Message → responses.Message → Text → responses.Message
  server_error req res what =
      fill_response E 500 (codes "An error occurred: '" ++ what ++ codes "'") req res

  -- `return badRequest(…)`: the response is filled, and is not written.
  unfoldable pub refuse : requests.Message → Text → E.App → Trace
  unfolding bad_request
  refuse req what app =
      stop (dropped (bad_request req responses.new_message what) ∷ []) (returned success) app

  -- The world in which the handlers of a request run.
  abbrev pub world_of : RequestImpl E → E.App → World E
  world_of r app = record {
    request = r;
    response = set_response responses responses.new_message (new_response responses);
    app = app;
  }

  module _ (S : SignalLib (Handler E)) (routes : RouteImpl E S) where
    -- `if (rc < 0) notFound(…)`, which sleeps for five seconds, and then `parseResponse`.
    unfoldable pub answer : Text → World E → ℤ → Outcome (List Event × responses.Message × E.App)
    unfolding not_found
    answer p w rc = do
      res ← deref w.response.response_beast
      req ← deref w.request.request_beast
      returns (
          if ltb_ℤ rc (pos 0)
          then (dispatched p ∷ delayed ∷ [], not_found req res p, w.app)
          else (dispatched p ∷ [], res, w.app))

    -- A request that passed the tests: it is parsed and dispatched, and the response is filled.
    unfoldable pub serve :
        requests.Message → E.App → Outcome (List Event × responses.Message × E.App)
    unfolding answer
    serve req app = do
      parsed ← parse_request E (set_request E req (new_request E))
      done ← do_get_signal E S (path E parsed.0) (world_of parsed.0 app) routes
      answer (path E parsed.0) done.0 done.1

    -- The write of a response, and the rest of the loop.
    unfoldable pub write_response :
        Bool → E.App → (E.App → Trace) → Outcome (List Event × responses.Message × E.App) → Trace
    write_response ok app next throws = stop [] threw app
    write_response ok app next undefined = stop [] broke app
    write_response ok app next (returns (events, res, app')) =
        if ok
        then before (events ++ wrote res ∷ []) (next app')
        else stop events (returned failure) app'

    -- One request, with the rest of the loop. Nothing looks at `keep_alive`.
    unfoldable pub conn_request : requests.Message → Bool → E.App → (E.App → Trace) → Trace
    unfolding refuse write_response
    conn_request req ok app next =
        if is_known_method (requests.method req)
        then if is_legal_target (requests.target req)
          then write_response ok app next (serve req app)
          else refuse req (codes "Illegal request-target") app
        else refuse req (codes "Unknown HTTP-method") app

    -- Behind the loop: the SSL shutdown.
    unfoldable pub shutdown : Bool → E.App → Trace
    shutdown true app = stop (closed ∷ []) (returned success) app
    shutdown false app = stop [] (returned failure) app

    unfoldable pub conn_round : ReadResult → Bool → Bool → E.App → (E.App → Trace) → Trace
    unfolding conn_request shutdown
    conn_round end_of_stream ok shut app next = shutdown shut app
    conn_round read_error ok shut app next = stop [] (returned failure) app
    conn_round (read_message req) ok shut app next = conn_request req ok app next

    -- `while (close)`: the flag is never cleared.
    unfoldable pub conn_loop : List Round → Bool → E.App → Trace
    unfolding conn_round
    conn_loop [] shut app = stop [] waiting app
    conn_loop (round ∷ rounds) shut app =
        conn_round round.read round.write_ok shut app (conn_loop rounds shut)

    -- `run`: whether the handshake and the shutdown succeed are answers of the network too.
    unfoldable pub run : Bool → List Round → Bool → E.App → Trace
    unfolding conn_loop
    run true rounds shut app = conn_loop rounds shut app
    run false rounds shut app = stop [] (returned failure) app
