-- ===== src/Route/Dispatch.antt =====
-- What `doGetSignal` answers.
use book_filer_module_http.Prelude.{
  ℕ, ◌≡◌, ◌⊎◌, inl, inr, none, some, arith, Text, Option-cases, returns, >>=-eq-returns, deref,
}
use book_filer_module_http.Prelude.Int.{ℤ, success, failure}
use book_filer_module_http.Env.{Env}
use book_filer_module_http.Route.{
  World, Handler, SignalLib, RouteMap, fill_response, combine, handlers_of, choose, call_signal,
  do_signal,
}

module _ (E : Env) where
  open E use {requests, responses}

  -- A filled response has the status and the body, and closes the connection or not as the request
  -- asked.
  pub fill_response_lem :
      (n : ℕ) (text : Text) (req : requests.Message) (res : responses.Message)
      → (responses.status (fill_response E n text req res) ≡ n)
        × (responses.body (fill_response E n text req res) ≡ text)
        × (responses.keep_alive (fill_response E n text req res) ≡ requests.keep_alive req)
  unfolding fill_response
  fill_response_lem n text req res = (
    simp (
      responses.status-prepare_payload, responses.status-set_content_length,
      responses.status-set_body, responses.status-set_keep_alive, responses.status-set_field,
      responses.status-set_version, responses.status-set_result,
    ),
    simp (
      responses.body-prepare_payload, responses.body-set_content_length, responses.body-set_body,
    ),
    simp (
      responses.keep_alive-prepare_payload, responses.keep_alive-set_content_length,
      responses.keep_alive-set_body, responses.keep_alive-set_keep_alive,
    ),
  )

  module _ (S : SignalLib (Handler E)) where
    -- A response that a world carries, with its status and its body.
    abbrev pub Answers : ℕ → Text → World E → Type 0
    Answers n text w =
        (res : responses.Message) × (w.response.response_beast ≡ some res)
        × (responses.status res ≡ n)
        × (responses.body res ≡ text)

    call_signal-Answers :
        (s : S.Signal) (w v : World E) (rc : ℤ)
        → call_signal E S s w ≡ returns (v, rc)
        → (rc ≡ success) × Answers 200 (combine E (handlers_of E (S.slots s)) w).0 v
    unfolding call_signal
    call_signal-Answers s w v rc e =
        let called = combine E (handlers_of E (S.slots s)) w in
        let (req, first, rest) = >>=-eq-returns (deref called.1.request.request_beast) _ e in
        let (res, second, last) = >>=-eq-returns (deref called.1.response.response_beast) _ rest in
        let (status, body, _) = fill_response_lem 200 called.0 req res in
        (
          ground (arith, last),
          (fill_response E 200 called.0 req res, ground (arith, last), status, body),
        )

    -- When `doSignal` returns, either no route was found, the code is an error and nothing has
    -- changed; or the chosen signal was called, the code is success, and the response has status 200
    -- and the text of the combiner for its body.
    pub do_signal_cases :
        (path : Text) (w v : World E) (m all : RouteMap E S) (rc : ℤ)
        → do_signal E S path w m all ≡ returns (v, rc)
        → ((choose E S path m all ≡ none) × (rc ≡ failure) × (v ≡ w))
          ⊎ ((s : S.Signal) × (choose E S path m all ≡ some s)
              × (rc ≡ success)
              × Answers 200 (combine E (handlers_of E (S.slots s)) w).0 v)
    unfolding do_signal
    do_signal_cases path w v m all rc e = elim (Option-cases (choose E S path m all)) [
      | inl n ↦
          inl (n, ground (arith, rw (n, do_signal) at e), ground (arith, rw (n, do_signal) at e))
      | inr (s, c) ↦ inr (
        s,
        c,
        (call_signal-Answers s w v rc (rw (c, do_signal) at e)).0,
        (call_signal-Answers s w v rc (rw (c, do_signal) at e)).1,
      )
    ]
