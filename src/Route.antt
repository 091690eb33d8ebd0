-- ===== src/Route.antt =====
-- `RouteImpl` of src/core/ServerRoute.hpp and src/core/ServerRoute.cpp, and `RouteCombiner` of
-- src/core/ServerUtil.hpp.
pub mod Combine
pub mod Choose
pub mod Dispatch
pub mod Shared
pub mod Order
pub mod Table
use book_filer_module_http.Prelude.{
  ℕ, ◌≡◌, Bool, Option, none, some, List, [], ◌∷◌, Text, codes, length, if◌then◌else◌, text_eq,
  Outcome, returns, ◌>>=◌, deref,
}
use book_filer_module_http.Prelude.Int.{ℤ, ltb_ℤ, success, failure}
use book_filer_module_http.StdMap.{find, insert}
use book_filer_module_http.Env.{Env}
use book_filer_module_http.Request.{RequestImpl}
use book_filer_module_http.Response.{ResponseImpl, writable_ended, body}

-- A slot goes behind all those of its own group and of the groups before it.
unfoldable pub insert_slot {ℓ} : {F : Type ℓ} → ℤ → F → List (ℤ × F) → List (ℤ × F)
insert_slot p f [] = (p, f) ∷ []
insert_slot p f ((q, g) ∷ slots) =
    if ltb_ℤ p q then (p, f) ∷ (q, g) ∷ slots else (q, g) ∷ insert_slot p f slots

-- `boost::signals2::signal`: its slots in the order in which a call of the signal runs them. That
-- `connect(group, slot)` puts a slot at the back of its group, and that groups run in ascending
-- order, is documented.
pub record SignalLib (F : Type 0) : Type 1 where
  pub Signal : Type 0
  pub new_signal : Signal
  pub connect : ℤ → F → Signal → Signal
  pub slots : Signal → List (ℤ × F)
  pub slots-new_signal : slots new_signal ≡ []
  pub slots-connect :
      (p : ℤ) (f : F) (s : Signal) → slots (connect p f s) ≡ insert_slot p f (slots s)

-- What a handler can read and change: the request and the response of its connection, and the state
-- of the application.
pub record World (E : Env) : Type 0 where
  pub request : RequestImpl E
  pub response : ResponseImpl E.responses
  pub app : E.App

-- `routeFunctionTypeInternal`.
abbrev pub Handler : Env → Type 0
Handler E = World E → Text × World E

module _ (E : Env) where
  -- The loop of the combiner. `*first` runs the slot.
  unfoldable pub combine_from : List (Handler E) → Text → World E → Text × World E
  combine_from [] value_last w = (value_last, w)
  combine_from (slot ∷ slots) value_last w =
      let (v, w') = slot w in
      let rest = combine_from slots v w' in
      if writable_ended E.responses w'.response then (body E.responses w'.response, w') else rest

  -- `RouteCombiner::operator()`.
  unfoldable pub combine : List (Handler E) → World E → Text × World E
  unfolding combine_from
  combine [] w = ([], w)
  combine (slot ∷ slots) w = combine_from (slot ∷ slots) [] w

  -- The fields of a response that carries a body, in the order in which they are set.
  unfoldable pub fill_response :
      ℕ → Text → E.requests.Message → E.responses.Message → E.responses.Message
  fill_response status text req res =
      let r1 = E.responses.set_result status res in
      let r2 = E.responses.set_version (E.requests.version req) r1 in
      let r3 = E.responses.set_field (codes "Server") E.server_version r2 in
      let r4 = E.responses.set_field (codes "Content-Type") (codes "text/html") r3 in
      let r5 = E.responses.set_keep_alive (E.requests.keep_alive req) r4 in
      let r6 = E.responses.set_body text r5 in
      let r7 = E.responses.set_content_length (length (E.responses.body r6)) r6 in
      E.responses.prepare_payload r7

  abbrev pub handlers_of : List (ℤ × Handler E) → List (Handler E)
  handlers_of [] = []
  handlers_of ((p, h) ∷ slots) = h ∷ handlers_of slots

  module _ (S : SignalLib (Handler E)) where
    abbrev pub RouteMap : Type 0
    RouteMap = List (Text × S.Signal)

    pub record RouteImpl : Type 0 where
      pub route_post_map : RouteMap
      pub route_get_map : RouteMap
      pub route_all_map : RouteMap

    abbrev pub new_routes : RouteImpl
    new_routes = record { route_post_map = []; route_get_map = []; route_all_map = [] }

    -- `pathSignal->connect`: the map holds the signal by a pointer of its own.
    unfoldable pub connect_at : Text → ℤ → Handler E → RouteMap → RouteMap
    connect_at path priority handler [] = []
    connect_at path priority handler ((k, s) ∷ m) =
        if text_eq k path
        then (k, S.connect priority handler s) ∷ m
        else (k, s) ∷ connect_at path priority handler m

    unfoldable pub add : Text → ℤ → Handler E → RouteMap → RouteMap
    unfolding connect_at
    add path priority handler m = elim (find path m) [
      | none ↦ connect_at path priority handler (insert path S.new_signal m)
      | some s ↦ connect_at path priority handler m
    ]

    unfoldable pub get_add : Text → ℤ → Handler E → RouteImpl → RouteImpl × ℤ
    get_add path priority handler r =
        (record r { route_get_map = add path priority handler r.route_get_map }, success)

    unfoldable pub post_add : Text → ℤ → Handler E → RouteImpl → RouteImpl × ℤ
    post_add path priority handler r =
        (record r { route_post_map = add path priority handler r.route_post_map }, success)

    unfoldable pub all_add : Text → ℤ → Handler E → RouteImpl → RouteImpl × ℤ
    all_add path priority handler r =
        (record r { route_all_map = add path priority handler r.route_all_map }, success)

    -- The four lookups of `doSignal`.
    unfoldable pub choose : Text → RouteMap → RouteMap → Option S.Signal
    choose path route_map all_map = elim (find path route_map) [
      | some s ↦ some s
      | none ↦ elim (find (codes "*") route_map) [
        | some s ↦ some s
        | none ↦ elim (find path all_map) [ some s ↦ some s | none ↦ find (codes "*") all_map ]
      ]
    ]

    -- The call of the signal always has a result, so the test of it cannot fail.
    unfoldable pub call_signal : S.Signal → World E → Outcome (World E × ℤ)
    call_signal s w = do
      let called = combine (handlers_of (S.slots s)) w
      req ← deref called.1.request.request_beast
      res ← deref called.1.response.response_beast
      let filled = fill_response 200 called.0 req res
      returns (
        record called.1 { response = record called.1.response { response_beast = some filled } },
        success,
      )

    unfoldable pub do_signal : Text → World E → RouteMap → RouteMap → Outcome (World E × ℤ)
    unfolding call_signal
    do_signal path w route_map all_map = elim (choose path route_map all_map) [
      | none ↦ returns (w, failure)
      | some s ↦ call_signal s w
    ]

    unfoldable pub do_get_signal : Text → World E → RouteImpl → Outcome (World E × ℤ)
    unfolding do_signal
    do_get_signal path w r = do_signal path w r.route_get_map r.route_all_map
