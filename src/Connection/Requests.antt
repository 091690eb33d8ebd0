-- ===== src/Connection/Requests.antt =====
-- A request that passed the tests of the loop: the path that it is dispatched under, and the status
-- of its response.
use book_filer_module_http.Prelude.{
  ℕ, zero, suc, ◌≡◌, refl, ◌⊎◌, inl, inr, true, false, some, List, [], ◌∷◌, ◌++◌, arith, Text,
  codes, take, find_first_of, Option-cases, returns, >>=-eq-returns, All,
}
use book_filer_module_http.Prelude.Int.{ℤ, success, failure}
use book_filer_module_http.Env.{Env}
use book_filer_module_http.Request.{RequestImpl, new_request, set_request, parse_request, path}
use book_filer_module_http.Request.Parse.{target_path, parse_request_lem}
use book_filer_module_http.Route.{World, Handler, SignalLib, RouteImpl, do_get_signal}
use book_filer_module_http.Route.Dispatch.{fill_response_lem, do_signal_cases, Answers}
use book_filer_module_http.Connection.{
  has_dotdot, starts_with_slash, is_legal_target, Event, dispatched, delayed, wrote, dropped,
  closed, not_found, answer, serve, world_of,
}

has_dotdot-take : (n : ℕ) (t : Text) → has_dotdot t ≡ false → has_dotdot (take n t) ≡ false
unfolding has_dotdot
has_dotdot-take zero t h = refl
has_dotdot-take (suc n) [] h = refl
has_dotdot-take (suc zero) (a ∷ []) h = refl
has_dotdot-take (suc (suc n)) (a ∷ []) h = refl
has_dotdot-take (suc zero) (a ∷ b ∷ s) h = refl
has_dotdot-take (suc (suc n)) (a ∷ b ∷ s) h = ground (arith, has_dotdot-take (suc n) (b ∷ s))

starts_with_slash-take :
    (t : Text) (n : ℕ)
    → starts_with_slash t ≡ true
    → find_first_of t b'?' ≡ some n
    → starts_with_slash (take n t) ≡ true
unfolding starts_with_slash
starts_with_slash-take [] n h e = cc
starts_with_slash-take (c ∷ t) zero h e = absurd (ground arith)
starts_with_slash-take (c ∷ t) (suc n) h e = h

-- A path under which a request may be dispatched.
abbrev pub IsSafePath : Text → Type 0
IsSafePath p = (starts_with_slash p ≡ true) × (has_dotdot p ≡ false)

-- The path of a legal target is absolute and holds no "..".
pub target_path-IsSafePath : (t : Text) → is_legal_target t ≡ true → IsSafePath (target_path t)
unfolding is_legal_target target_path
target_path-IsSafePath t h = elim (Option-cases (find_first_of t b'?')) [
  | inl e ↦ rw (e, target_path) (ground arith)
  | inr (n, e) ↦
      rw (e, target_path) (ground (arith, starts_with_slash-take t n, has_dotdot-take n t, e))
]

module _ (E : Env) where
  open E use {requests, responses}

  -- The body of a response for a path that has no route.
  abbrev pub missing_text : Text → Text
  missing_text p = codes "The resource '" ++ p ++ codes "' was not found."

  -- What holds of each event of a connection.
  abbrev pub IsGood : Event E → Type 0
  IsGood (dispatched p) = IsSafePath p
  IsGood (wrote res) = (responses.status res ≡ 200) ⊎ (responses.status res ≡ 404)
  IsGood (dropped res) = responses.status res ≡ 400
  IsGood delayed = Unit
  IsGood closed = Unit

  module _ (S : SignalLib (Handler E)) (routes : RouteImpl E S) where
    -- What `answer` returns, by its code: the response of the world, or a 404.
    pub answer_shape :
        (p : Text) (w : World E) (rc : ℤ) (events : List (Event E)) (res : responses.Message)
        (app : E.App)
        → answer E S routes p w rc ≡ returns (events, res, app)
        → (rc ≡ failure
            → (events ≡ dispatched p ∷ delayed ∷ [])
              × (responses.status res ≡ 404)
              × (responses.body res ≡ missing_text p))
          × (rc ≡ success → (events ≡ dispatched p ∷ []) × (w.response.response_beast ≡ some res))
    unfolding answer not_found
    answer_shape p w rc events res app e = elim (Option-cases w.response.response_beast) [
      | inl a ↦ absurd (ground arith)
      | inr (res', a) ↦ elim (Option-cases w.request.request_beast) [
        | inl b ↦ absurd (ground arith)
        | inr (req, b) ↦ (
          λ c. ground (
            arith,
            c,
            (fill_response_lem E 404 (missing_text p) req res').0,
            (fill_response_lem E 404 (missing_text p) req res').1,
          ),
          λ c. ground (arith, c),
        )
      ]
    ]

    answer-IsGood :
        (p : Text) (w : World E) (rc : ℤ) (events : List (Event E)) (res : responses.Message)
        (app : E.App)
        → IsSafePath p
        → (rc ≡ failure) ⊎ ((rc ≡ success) × ((text : Text) × Answers E S 200 text w))
        → answer E S routes p w rc ≡ returns (events, res, app)
        → All IsGood events × ((responses.status res ≡ 200) ⊎ (responses.status res ≡ 404))
    answer-IsGood p w rc events res app safe (inl failed) e =
        let (ev, status, _) = (answer_shape p w rc events res app e).0 failed in
        (rw ev (safe, (tt, tt)), inr status)
    answer-IsGood p w rc events res app safe (inr (done, (text, (res', has, status, _)))) e =
        let (ev, has') = (answer_shape p w rc events res app e).1 done in
        (rw ev (safe, tt), inl (ground (arith, has, has', status)))

    -- A request with a legal target is dispatched under a safe path, and the response has status 200
    -- or 404.
    pub serve-IsGood :
        (req : requests.Message) (app app' : E.App) (events : List (Event E))
        (res : responses.Message)
        → is_legal_target (requests.target req) ≡ true
        → serve E S routes req app ≡ returns (events, res, app')
        → All IsGood events × ((responses.status res ≡ 200) ⊎ (responses.status res ≡ 404))
    unfolding serve do_get_signal
    serve-IsGood req app app' events res legal e =
        let ((r, rc), parsed, rest) =
          >>=-eq-returns (parse_request E (set_request E req (new_request E))) _ e in
        let ((w, code), answered, last) =
          >>=-eq-returns (do_get_signal E S (path E r) (world_of E r app) routes) _ rest in
        let (_, at, _, _) = parse_request_lem E req r rc parsed in
        answer-IsGood (path E r) w code events res app'
          (rw at (target_path-IsSafePath (requests.target req) legal))
          (dispatched_well r w code answered) last
      where
        dispatched_well :
            (r : RequestImpl E) (w : World E) (code : ℤ)
            → do_get_signal E S (path E r) (world_of E r app) routes ≡ returns (w, code)
            → (code ≡ failure) ⊎ ((code ≡ success) × ((text : Text) × Answers E S 200 text w))
        dispatched_well r w code answered =
            elim (do_signal_cases E S (path E r) (world_of E r app) w routes.route_get_map
              routes.route_all_map code answered) [
                | inl (_, failed, _) ↦ inl failed
                | inr (s, _, done, a) ↦ inr (done, (_, a))
              ]
