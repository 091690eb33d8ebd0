-- ===== src/Client/Exchange.antt =====
-- What a client sends, and what it keeps of the answer.
use book_filer_module_http.Prelude.{
  ℕ, ◌+◌, ◌≡◌, ◌≢◌, ◌↔◌, ◌⊎◌, inl, inr, Bool, true, false, Option, none, some, ◌∷◌, ◌==◌, arith,
  Text, codes, text_eq, text_eq_iff, if◌then◌else◌, Bool-cases, returns, undefined, >>=-eq-returns,
  deref, or_throw,
}
use book_filer_module_http.Prelude.Int.{ℤ, success}
use book_filer_module_http.Json.{JsonLib}
use book_filer_module_http.Env.{Env}
use book_filer_module_http.Message.{get, post}
use book_filer_module_http.Url.{target, get_encoded_host}
use book_filer_module_http.Client.{
  Network, c_str, ClientImpl, view, prepare, answered, take_response, connect, end,
  get_response_str, get_response_json,
}

module _ (E : Env) (J : JsonLib) (net : Network E) (parse_json : Text → Option J.Value) where
  open E use {requests, responses}

  -- The message that is sent asks for the path and the query of the URL and for the connection to be
  -- closed; its method is POST exactly for a client whose method is the text POST, and GET for any
  -- other.
  prepare_lem :
      (c : ClientImpl E J) (m : requests.Message)
      → (requests.target (prepare E J c m) ≡ target E.urls c.url)
        × (requests.keep_alive (prepare E J c m) ≡ false)
        × ((requests.method (prepare E J c m) ≡ post) ↔ (c.method ≡ codes "POST"))
        × ((requests.method (prepare E J c m) ≡ get) ↔ (c.method ≢ codes "POST"))
  unfolding prepare
  prepare_lem c m = (
    simp (requests.target-set_field, requests.target-set_keep_alive, requests.target-set_target),
    simp (requests.keep_alive-set_host, requests.keep_alive-set_keep_alive),
    ground (arith, text_eq_iff c.method (codes "POST"), kept),
    ground (arith, text_eq_iff c.method (codes "POST"), kept),
  )
    where
      kept :
          requests.method (prepare E J c m)
          ≡ (if text_eq c.method (codes "POST") then post else get)
      kept = simp (
        requests.method-set_field, requests.method-set_keep_alive, requests.method-set_target,
        requests.method-set_method,
      )

  answered_lem :
      (message : requests.Message) (res : responses.Message) (c c' : ClientImpl E J)
      → c' ≡ answered E J parse_json message res c
      → (responses.status res ≡ 200
          → (get_response_json E J c' ≡ parse_json (c_str (responses.body res)))
            × (c'.response_str ≡ view (c.exchanges + 1) (responses.body res)))
        × (responses.status res ≢ 200
            → (get_response_json E J c' ≡ get_response_json E J c)
              × (c'.response_str ≡ c.response_str)
              × (c'.exchanges ≡ c.exchanges + 1))
  unfolding answered take_response get_response_json
  answered_lem message res c c' same = rw same (
    λ e. (ground (arith, e), ground (arith, e)),
    λ n. (ground (arith, n), ground (arith, n), ground (arith, n)),
  )

  connects-connect :
      (host : Text) (b : Bool) → connect E J net host ≡ returns b → net.connects host ≡ true
  unfolding connect
  connects-connect host b h = elim (Bool-cases (net.connects host)) [
    | inl y ↦ y
    | inr n ↦ ground arith
  ]

  end-returns :
      (c c' : ClientImpl E J) (rc : ℤ)
      → end E J net parse_json c ≡ returns (c', rc)
      → (m : requests.Message) × (res : responses.Message) × (net.connects
            (get_encoded_host E.urls c.url)
          ≡ true)
        × (net.answer_to (get_encoded_host E.urls c.url) (prepare E J c m) ≡ some res)
        × (c' ≡ answered E J parse_json (prepare E J c m) res c)
        × (rc ≡ success)
  unfolding end
  end-returns c c' rc e =
      let (skip_peer, first, e1) = >>=-eq-returns (deref c.skip_peer_verification) _ e in
      let (skip_hostname, second, e2) = >>=-eq-returns (deref c.skip_hostname_verification) _ e1 in
      let host = get_encoded_host E.urls c.url in
      let (connected, third, e3) = >>=-eq-returns (connect E J net host) _ e2 in
      let (m, fourth, e4) = >>=-eq-returns (deref c.request.request_beast) _ e3 in
      let (res, fifth, e5) =
        >>=-eq-returns (or_throw (net.answer_to host (prepare E J c m))) _ e4 in
      (
        m,
        res,
        connects-connect host connected third,
        given (net.answer_to host (prepare E J c m)) fifth,
        ground (arith, e5),
        ground (arith, e5),
      )
    where
      given :
          (o : Option responses.Message) {r : responses.Message}
          → or_throw o ≡ returns r
          → o ≡ some r
      given none h = ground arith
      given (some r) h = ground arith

  -- When `end` returns, the code is success, and the client was connected to the host of its URL and
  -- got a response to a message made by `prepare`. If the status is 200, then the client has the body
  -- for a text and the parse of it for JSON; otherwise it keeps the text and the JSON of before.
  pub end_lem :
      (c c' : ClientImpl E J) (rc : ℤ)
      → end E J net parse_json c ≡ returns (c', rc)
      → (m : requests.Message) × (res : responses.Message) × (rc ≡ success)
        × (net.connects (get_encoded_host E.urls c.url) ≡ true)
        × (net.answer_to (get_encoded_host E.urls c.url) (prepare E J c m) ≡ some res)
        × (((responses.status res ≡ 200)
              × (get_response_json E J c' ≡ parse_json (c_str (responses.body res)))
              × (c'.response_str ≡ view (c.exchanges + 1) (responses.body res)))
            ⊎ ((responses.status res ≢ 200)
                × (get_response_json E J c' ≡ get_response_json E J c)
                × (c'.response_str ≡ c.response_str)))
  end_lem c c' rc e =
      let (m, res, connected, answer, same, code) = end-returns c c' rc e in
      let (good, bad) = answered_lem (prepare E J c m) res c c' same in
      (
        m,
        res,
        code,
        connected,
        answer,
        elim (Bool-cases (responses.status res == 200)) [
          | inl ok ↦ inl (ground arith, (good (ground arith)).0, (good (ground arith)).1)
          | inr other ↦ inr (ground arith, (bad (ground arith)).0, (bad (ground arith)).1)
        ],
      )

  -- A text that is not empty and that the last exchange gave must not be asked for once a later one
  -- has returned with another status than 200: it points into a response that is gone.
  pub get_response_str_dangles :
      (c c' : ClientImpl E J) (rc : ℤ) (b : ℕ) (bs : Text)
      → c.response_str ≡ view c.exchanges (b ∷ bs)
      → ((m : requests.Message) (res : responses.Message)
          → net.answer_to (get_encoded_host E.urls c.url) m ≡ some res
          → responses.status res ≢ 200)
      → end E J net parse_json c ≡ returns (c', rc)
      → get_response_str E J c' ≡ undefined
  unfolding get_response_str
  get_response_str_dangles c c' rc b bs v h e =
      let (m, res, connected, answer, same, code) = end-returns c c' rc e in
      let (json, text, count) =
        (answered_lem (prepare E J c m) res c c' same).1 (h (prepare E J c m) res answer) in
      ground (arith, v, text, count)
