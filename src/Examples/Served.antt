-- ===== src/Examples/Served.antt =====
-- A request whose path chooses a signal with one handler.
use book_filer_module_http.Prelude.{
  ℕ, Option, ◌≡◌, refl, sym, ap, ◌∙◌, inl, inr, some, none, List, [], ◌∷◌, Text, returns,
  >>=-eq-returns,
}
use book_filer_module_http.Prelude.Int.{ℤ, pos}
use book_filer_module_http.Env.{Env}
use book_filer_module_http.Request.{RequestImpl, new_request, set_request, parse_request, path}
use book_filer_module_http.Request.Parse.{target_path, parse_request_lem}
use book_filer_module_http.Response.{writable_ended, set_response}
use book_filer_module_http.Route.{
  World, insert_slot, Handler, SignalLib, RouteImpl, combine, combine_from, handlers_of, choose,
  do_get_signal,
}
use book_filer_module_http.Route.Dispatch.{do_signal_cases}
use book_filer_module_http.Connection.{Event, serve, world_of}
use book_filer_module_http.Connection.Requests.{missing_text, answer_shape}

module _ (E : Env) (S : SignalLib (Handler E)) (routes : RouteImpl E S) where
  open E use {requests, responses}

  -- The request that the handlers of a message are called with.
  abbrev pub Parsed : requests.Message → RequestImpl E → Type 0
  Parsed req r = (rc : ℤ) × (parse_request E (set_request E req (new_request E)) ≡ returns (r, rc))

  -- When a path chooses a signal, a served request with that path is parsed, and its response has
  -- status 200 and, for its body, what the handlers of the signal give.
  serve_chosen :
      (req : requests.Message) (app app' : E.App) (events : List (Event E))
      (res : responses.Message) (s : S.Signal)
      → choose E S (target_path (requests.target req)) routes.route_get_map routes.route_all_map
        ≡ some s
      → serve E S routes req app ≡ returns (events, res, app')
      → (r : RequestImpl E) × Parsed req r
        × (responses.status res ≡ 200)
        × (responses.body res ≡ (combine E (handlers_of E (S.slots s)) (world_of E r app)).0)
  unfolding serve do_get_signal
  serve_chosen req app app' events res s found e =
      let ((r, rc), parsed, rest) =
        >>=-eq-returns (parse_request E (set_request E req (new_request E))) _ e in
      let ((w, code), answered, last) =
        >>=-eq-returns (do_get_signal E S (path E r) (world_of E r app) routes) _ rest in
      let (_, at, _, _) = parse_request_lem E req r rc parsed in
      let found' : choose E S (path E r) routes.route_get_map routes.route_all_map ≡ some s =
        ap (λ p. choose E S p routes.route_get_map routes.route_all_map) at ∙ found in
      elim (do_signal_cases E S (path E r) (world_of E r app) w routes.route_get_map
        routes.route_all_map code answered) [
          | inl (missing, _, _) ↦ absurd (cc (sym missing ∙ found'))
          | inr (t, chosen, done, (res', has, status, body)) ↦
              let (_, has') =
                (answer_shape E S routes (path E r) w code events res app' last).1 done in
              let same : res' ≡ res = cc (sym has ∙ has') in
              let signal : t ≡ s = cc (sym chosen ∙ found') in
              (
                r,
                (rc, parsed),
                ap responses.status (sym same) ∙ status,
                ap responses.body (sym same)
                    ∙ body
                    ∙ ap (λ x. (combine E (handlers_of E (S.slots x)) (world_of E r app)).0) signal,
              )
        ]

  -- A signal with one handler, at the priority that a route has if its options give none.
  abbrev pub signal_of : Handler E → S.Signal
  signal_of h = S.connect (pos 10) h S.new_signal

  handlers-signal_of : (h : Handler E) → handlers_of E (S.slots (signal_of h)) ≡ h ∷ []
  unfolding insert_slot
  handlers-signal_of h =
      ap (handlers_of E)
        (S.slots-connect (pos 10) h S.new_signal ∙ ap (insert_slot (pos 10) h) S.slots-new_signal)

  -- A handler that leaves its world alone answers with its own text.
  combine_one :
      (h : Handler E) (r : RequestImpl E) (app : E.App)
      → (h (world_of E r app)).1 ≡ world_of E r app
      → (combine E (handlers_of E (S.slots (signal_of h))) (world_of E r app)).0
        ≡ (h (world_of E r app)).0
  unfolding combine combine_from writable_ended set_response
  combine_one h r app same = rw (handlers-signal_of h, same) refl

  -- The same for such a signal: the body is the text of its handler.
  pub serve_page :
      (req : requests.Message) (app app' : E.App) (events : List (Event E))
      (res : responses.Message) (h : Handler E)
      → choose E S (target_path (requests.target req)) routes.route_get_map routes.route_all_map
        ≡ some (signal_of h)
      → ((w : World E) → (h w).1 ≡ w)
      → serve E S routes req app ≡ returns (events, res, app')
      → (r : RequestImpl E) × Parsed req r
        × (responses.status res ≡ 200)
        × (responses.body res ≡ (h (world_of E r app)).0)
  serve_page req app app' events res h found same e =
      let (r, parsed, status, body) = serve_chosen req app app' events res (signal_of h) found e in
      (r, parsed, status, body ∙ combine_one h r app (same (world_of E r app)))

  -- When a path chooses no signal, the response has status 404 and names the path.
  serve_missing :
      (req : requests.Message) (app app' : E.App) (events : List (Event E))
      (res : responses.Message)
      → choose E S (target_path (requests.target req)) routes.route_get_map routes.route_all_map
        ≡ none
      → serve E S routes req app ≡ returns (events, res, app')
      → (r : RequestImpl E) × Parsed req r
        × (responses.status res ≡ 404)
        × (responses.body res ≡ missing_text E (target_path (requests.target req)))
  unfolding serve do_get_signal
  serve_missing req app app' events res missing e =
      let ((r, rc), parsed, rest) =
        >>=-eq-returns (parse_request E (set_request E req (new_request E))) _ e in
      let ((w, code), answered, last) =
        >>=-eq-returns (do_get_signal E S (path E r) (world_of E r app) routes) _ rest in
      let (_, at, _, _) = parse_request_lem E req r rc parsed in
      let missing' : choose E S (path E r) routes.route_get_map routes.route_all_map ≡ none =
        ap (λ p. choose E S p routes.route_get_map routes.route_all_map) at ∙ missing in
      elim (do_signal_cases E S (path E r) (world_of E r app) w routes.route_get_map
        routes.route_all_map code answered) [
          | inl (_, failed, _) ↦
              let (_, status, body) =
                (answer_shape E S routes (path E r) w code events res app' last).0 failed in
              (r, (rc, parsed), status, body ∙ ap (missing_text E) at)
          | inr (t, chosen, _, _) ↦ absurd (cc (sym chosen ∙ missing'))
        ]

  -- The signal and the answer of a path, by the only handler that it has, if any.
  abbrev pub signal_at : Option (Handler E) → Option S.Signal
  signal_at none = none
  signal_at (some h) = some (signal_of h)

  abbrev pub reply : Option (Handler E) → Text → World E → ℕ × Text
  reply none p w = (404, missing_text E p)
  reply (some h) p w = (200, (combine E (h ∷ []) w).0)

  abbrev pub Replied : responses.Message → ℕ × Text → Type 0
  Replied res a = (responses.status res ≡ a.0) × (responses.body res ≡ a.1)

  pub serve-reply :
      (o : Option (Handler E)) (req : requests.Message) (app app' : E.App) (events : List (Event E))
      (res : responses.Message)
      → choose E S (target_path (requests.target req)) routes.route_get_map routes.route_all_map
        ≡ signal_at o
      → serve E S routes req app ≡ returns (events, res, app')
      → (r : RequestImpl E) × Parsed req r
        × Replied res (reply o (target_path (requests.target req)) (world_of E r app))
  serve-reply none req app app' events res found e =
      let (r, parsed, status, body) = serve_missing req app app' events res found e in
      (r, parsed, (status, body))
  serve-reply (some h) req app app' events res found e =
      let (r, parsed, status, body) = serve_chosen req app app' events res (signal_of h) found e in
      (
        r,
        parsed,
        (status, body ∙ ap (λ hs. (combine E hs (world_of E r app)).0) (handlers-signal_of h)),
      )
