-- ===== src/Connection/Rounds.antt =====
-- What a round of `conn_loop` does: it ends the run, or it is served and the run goes on.
use book_filer_module_http.Prelude.{
  ℕ, ◌+◌, ◌≡◌, ◌≢◌, refl, sym, subst, ◌⊎◌, inl, inr, Bool, true, false, Bool-cases, Option-cases,
  Outcome-cases, List, [], ◌∷◌, ◌++◌, Text, returns, >>=-eq-returns, All, arith,
}
use book_filer_module_http.Prelude.Int.{ℤ, pos, ltb_ℤ}
use book_filer_module_http.Env.{Env}
use book_filer_module_http.Request.{new_request, set_request, parse_request, path}
use book_filer_module_http.Route.{World, Handler, SignalLib, RouteImpl, do_get_signal}
use book_filer_module_http.Connection.{
  waiting, is_known_method, is_legal_target, ReadResult, end_of_stream, read_error, read_message,
  Event, dispatched, delayed, wrote, dropped, closed, Trace, before, refuse, answer, serve,
  world_of, write_response, conn_request, conn_round, shutdown,
}

module _ (E : Env) where
  open E use {requests, responses}

  -- An event other than the writing of a response.
  abbrev pub IsUnwritten : Event E → Type 0
  IsUnwritten (wrote res) = ⊥
  IsUnwritten (dispatched p) = Unit
  IsUnwritten (dropped res) = Unit
  IsUnwritten delayed = Unit
  IsUnwritten closed = Unit

  -- How many responses are written.
  abbrev pub written : List (Event E) → ℕ
  written [] = 0
  written (wrote res ∷ events) = 1 + written events
  written (dispatched p ∷ events) = written events
  written (dropped res ∷ events) = written events
  written (delayed ∷ events) = written events
  written (closed ∷ events) = written events

  pub written-append : (a b : List (Event E)) → written (a ++ b) ≡ written a + written b
  written-append [] b = omega arith
  written-append (wrote res ∷ a) b = omega (arith, written-append a b)
  written-append (dispatched p ∷ a) b = written-append a b
  written-append (dropped res ∷ a) b = written-append a b
  written-append (delayed ∷ a) b = written-append a b
  written-append (closed ∷ a) b = written-append a b

  pub written-IsUnwritten : (events : List (Event E)) → All IsUnwritten events → written events ≡ 0
  written-IsUnwritten [] h = refl
  written-IsUnwritten (wrote res ∷ events) (h, hs) = absurd h
  written-IsUnwritten (dispatched p ∷ events) (h, hs) = written-IsUnwritten events hs
  written-IsUnwritten (dropped res ∷ events) (h, hs) = written-IsUnwritten events hs
  written-IsUnwritten (delayed ∷ events) (h, hs) = written-IsUnwritten events hs
  written-IsUnwritten (closed ∷ events) (h, hs) = written-IsUnwritten events hs

module _ (E : Env) (S : SignalLib (Handler E)) (routes : RouteImpl E S) where
  open E use {requests, responses}

  answer-IsUnwritten :
      (p : Text) (w : World E) (rc : ℤ) (events : List (Event E)) (res : responses.Message)
      (app : E.App)
      → answer E S routes p w rc ≡ returns (events, res, app)
      → All (IsUnwritten E) events
  unfolding answer
  answer-IsUnwritten p w rc events res app e = elim (Option-cases w.response.response_beast) [
    | inl a ↦ absurd (ground arith)
    | inr (res', a) ↦ elim (Option-cases w.request.request_beast) [
      | inl b ↦ absurd (ground arith)
      | inr (req, b) ↦ elim (Bool-cases (ltb_ℤ rc (pos 0))) [
        | inl c ↦
            let at : events ≡ dispatched p ∷ delayed ∷ [] = ground (arith, a, b, c, e) in
            subst (All (IsUnwritten E)) (sym at) (tt, (tt, tt))
        | inr c ↦
            let at : events ≡ dispatched p ∷ [] = ground (arith, a, b, c, e) in
            subst (All (IsUnwritten E)) (sym at) (tt, tt)
      ]
    ]
  ]

  pub serve-IsUnwritten :
      (req : requests.Message) (app app' : E.App) (events : List (Event E))
      (res : responses.Message)
      → serve E S routes req app ≡ returns (events, res, app')
      → All (IsUnwritten E) events
  unfolding serve
  serve-IsUnwritten req app app' events res e =
      let ((r, rc), parsed, rest) =
        >>=-eq-returns (parse_request E (set_request E req (new_request E))) _ e in
      let ((w, code), answered, last) =
        >>=-eq-returns (do_get_signal E S (path E r) (world_of E r app) routes) _ rest in
      answer-IsUnwritten (path E r) w code events res app' last

  -- A round that gets no response: nothing is read, or the request fails a test, or serving it gives
  -- no response, or the response cannot be written.
  abbrev pub IsStop : ReadResult E → Bool → Type 0
  IsStop end_of_stream ok = Unit
  IsStop read_error ok = Unit
  IsStop (read_message req) ok =
      (ok ≡ false)
      ⊎ (is_known_method (requests.method req) ≡ false)
      ⊎ (is_legal_target (requests.target req) ≡ false)
      ⊎ ((app : E.App) × ((x : List (Event E) × responses.Message × E.App)
            → ¬ (serve E S routes req app ≡ returns x)))

  -- A round that gets a response, with the events in front of it.
  pub record Served (read : ReadResult E) (ok : Bool) (app : E.App) : Type 0 where
    pub request : requests.Message
    pub response : responses.Message
    pub front : List (Event E)
    pub left : E.App
    pub is_read : read ≡ read_message request
    pub is_written : ok ≡ true
    pub is_known : is_known_method (requests.method request) ≡ true
    pub is_legal : is_legal_target (requests.target request) ≡ true
    pub is_served : serve E S routes request app ≡ returns (front, response, left)

  -- A round either stops the run, whatever would follow, or it is served and the run goes on.
  abbrev pub RoundCases :
      ReadResult E
      → Bool
      → E.App
      → (E.App → Trace E)
      → (E.App → Trace E)
      → Trace E
      → Trace E
      → Type 0
  RoundCases read ok app f g s t =
      ((s ≡ t) × (s.ending ≢ waiting) × All (IsUnwritten E) s.events × IsStop read ok)
      ⊎ ((x : Served read ok app) × (s ≡ before E (x.front ++ wrote x.response ∷ []) (f x.left))
          × (t ≡ before E (x.front ++ wrote x.response ∷ []) (g x.left)))

  written_cases :
      (req : requests.Message) (ok : Bool) (app app' : E.App) (events : List (Event E))
      (res : responses.Message) (f g : E.App → Trace E)
      → is_known_method (requests.method req) ≡ true
      → is_legal_target (requests.target req) ≡ true
      → serve E S routes req app ≡ returns (events, res, app')
      → RoundCases
          (read_message req)
          ok
          app
          f
          g
          (write_response E S routes ok app f (returns (events, res, app')))
          (write_response E S routes ok app g (returns (events, res, app')))
  unfolding write_response
  written_cases req true app app' events res f g known legal e = inr (
    record {
      request = req;
      response = res;
      front = events;
      left = app';
      is_read = refl;
      is_written = refl;
      is_known = known;
      is_legal = legal;
      is_served = e;
    },
    refl,
    refl,
  )
  written_cases req false app app' events res f g known legal e =
      inl (refl, (λ e. cc), serve-IsUnwritten req app app' events res e, inl refl)

  served_cases :
      (req : requests.Message) (ok : Bool) (app : E.App) (f g : E.App → Trace E)
      → is_known_method (requests.method req) ≡ true
      → is_legal_target (requests.target req) ≡ true
      → RoundCases
          (read_message req)
          ok
          app
          f
          g
          (write_response E S routes ok app f (serve E S routes req app))
          (write_response E S routes ok app g (serve E S routes req app))
  unfolding write_response
  served_cases req ok app f g known legal = elim (Outcome-cases (serve E S routes req app)) [
    | inl ((events, res, app'), e) ↦
        rw e (written_cases req ok app app' events res f g known legal e)
    | inr (inl e) ↦ rw e (inl (refl, (λ e. cc), tt, inr (inr (inr (app, λ x r. cc (e, r))))))
    | inr (inr e) ↦ rw e (inl (refl, (λ e. cc), tt, inr (inr (inr (app, λ x r. cc (e, r))))))
  ]

  conn_request_legal :
      (req : requests.Message) (ok : Bool) (app : E.App) (next : E.App → Trace E)
      → is_known_method (requests.method req) ≡ true
      → is_legal_target (requests.target req) ≡ true
      → conn_request E S routes req ok app next
        ≡ write_response E S routes ok app next (serve E S routes req app)
  unfolding conn_request
  conn_request_legal req ok app next m t = rw (m, conn_request) (rw t refl)

  pub round_cases :
      (read : ReadResult E) (ok shut : Bool) (app : E.App) (f g : E.App → Trace E)
      → RoundCases read ok app f g
          (conn_round E S routes read ok shut app f)
          (conn_round E S routes read ok shut app g)
  unfolding conn_round conn_request shutdown refuse
  round_cases end_of_stream ok true app f g = inl (refl, (λ e. cc), (tt, tt), tt)
  round_cases end_of_stream ok false app f g = inl (refl, (λ e. cc), tt, tt)
  round_cases read_error ok shut app f g = inl (refl, (λ e. cc), tt, tt)
  round_cases (read_message req) ok shut app f g =
      elim (Bool-cases (is_known_method (requests.method req))) [
        | inr m ↦ rw (m, conn_request) (inl (refl, (λ e. cc), (tt, tt), inr (inl refl)))
        | inl m ↦ elim (Bool-cases (is_legal_target (requests.target req))) [
          | inr t ↦
              rw (m, conn_request) (rw t (inl (refl, (λ e. cc), (tt, tt), inr (inr (inl refl)))))
          | inl t ↦
              rw (conn_request_legal req ok app f m t, conn_request_legal req ok app g m t)
                (served_cases req ok app f g m t)
        ]
      ]
