-- ===== src/Connection/Refused.antt =====
-- What a connection does with a request that fails a test of `conn_loop`.
use book_filer_module_http.Prelude.{
  ◌≤◌, ◌≡◌, ◌≢◌, refl, sym, ap, ◌∙◌, ◌⊎◌, inl, inr, Bool, true, false, List, [], ◌∷◌, ◌++◌, length,
  arith,
}
use book_filer_module_http.Env.{Env}
use book_filer_module_http.Route.{Handler, SignalLib, RouteImpl}
use book_filer_module_http.Connection.{
  is_known_method, is_legal_target, waiting, read_message, Round, wrote, before, conn_loop, run,
}
use book_filer_module_http.Connection.Rounds.{
  written, written-append, written-IsUnwritten, serve-IsUnwritten, round_cases,
}

module _ (E : Env) (S : SignalLib (Handler E)) (routes : RouteImpl E S) where
  open E use {requests, responses}

  -- Rounds with one that reads the request in their midst.
  abbrev pub with_bad : requests.Message → Bool → List (Round E) → List (Round E) → List (Round E)
  with_bad req ok front rest = front ++ record { read = read_message req; write_ok = ok } ∷ rest

  module _ (req : requests.Message) (ok shut : Bool) (rest : List (Round E))
      (bad : (is_known_method (requests.method req) ≡ false)
        ⊎ (is_legal_target (requests.target req) ≡ false)) where
    conn_loop_cut :
        (front : List (Round E)) (app : E.App)
        → (conn_loop E S routes (with_bad req ok front rest) shut app
            ≡ conn_loop E S routes (with_bad req ok front []) shut app)
          × ((conn_loop E S routes (with_bad req ok front rest) shut app).ending ≢ waiting)
          × (written E (conn_loop E S routes (with_bad req ok front rest) shut app).events
              ≤ length front)
    unfolding conn_loop
    conn_loop_cut [] app =
        elim (round_cases E S routes (read_message req) ok shut app (conn_loop E S routes rest shut)
          (conn_loop E S routes [] shut)) [
            | inl (same, ends, unwritten, _) ↦
                (same, ends, omega (arith, written-IsUnwritten E _ unwritten))
            | inr (x, _, _) ↦ elim bad [
              | inl m ↦ absurd (cc (m, x.is_read, x.is_known))
              | inr t ↦ absurd (cc (t, x.is_read, x.is_legal))
            ]
          ]
    conn_loop_cut (round ∷ front) app =
        let f = conn_loop E S routes (with_bad req ok front rest) shut in
        let g = conn_loop E S routes (with_bad req ok front []) shut in
        elim (round_cases E S routes round.read round.write_ok shut app f g) [
          | inl (same, ends, unwritten, _) ↦
              (same, ends, omega (arith, written-IsUnwritten E _ unwritten))
          | inr (x, long, short) ↦
              let (same, ends, few) = conn_loop_cut front x.left in
              let count = ap (λ t. written E t.events) long in
              (
                long ∙ ap (before E (x.front ++ wrote x.response ∷ [])) same ∙ sym short,
                (λ e. ends (ap (λ t. t.ending) (sym long) ∙ e)),
                omega (
                  arith,
                  count,
                  few,
                  written-append E (x.front ++ wrote x.response ∷ []) (f x.left).events,
                  written-append E x.front (wrote x.response ∷ []),
                  written-IsUnwritten E x.front (
                      serve-IsUnwritten E S routes x.request app x.left x.front x.response
                        x.is_served),
                ),
              )
        ]

    -- A request with an unknown method or an illegal target is the last that a connection reads, and
    -- it gets no response: what the network offers behind it changes nothing of the run, the run is
    -- over and does not wait, and there are at most as many responses as there were rounds before it.
    pub run_refuses :
        (handshake : Bool) (front : List (Round E)) (app : E.App)
        → (run E S routes handshake (with_bad req ok front rest) shut app
            ≡ run E S routes handshake (with_bad req ok front []) shut app)
          × ((run E S routes handshake (with_bad req ok front rest) shut app).ending ≢ waiting)
          × (written E (run E S routes handshake (with_bad req ok front rest) shut app).events
              ≤ length front)
    unfolding run
    run_refuses true front app = conn_loop_cut front app
    run_refuses false front app = (refl, (λ e. cc), omega arith)
