-- ===== src/Server/Dispatch.antt =====
-- From the registration of a route to its dispatch.
use book_filer_module_http.Prelude.{
  ◌≡◌, ap, ◌∙◌, ◌≢◌, inl, inr, some, List, [], ◌∷◌, arith, Text, codes, text_eq_iff, text_compare,
  Option-cases, returns, >>=-eq-returns,
}
use book_filer_module_http.Prelude.Int.{ℤ}
use book_filer_module_http.StdMap.{IsSorted}
use book_filer_module_http.StdMap
use book_filer_module_http.Env.{Env}
use book_filer_module_http.Route.{
  World, Handler, SignalLib, RouteImpl, insert_slot, add, choose, get_add, post_add, do_get_signal,
}
use book_filer_module_http.Route.Choose.{path_slots, path_slots-add, choose-eq-some_iff}
use book_filer_module_http.Server.Routes.{
  RouteVariant, RouteOptions, default_options, route_options, add_route, route,
}

module _ (E : Env) (S : SignalLib (Handler E)) where
  insert_slot-nonempty :
      (p : ℤ) (h : Handler E) (slots : List (ℤ × Handler E)) → insert_slot p h slots ≢ []
  unfolding insert_slot
  insert_slot-nonempty p h [] = λ e. cc
  insert_slot-nonempty p h ((q, g) ∷ slots) = λ e. ground arith

  add-found :
      (path : Text) (p : ℤ) (h : Handler E) (m : List (Text × S.Signal))
      → IsSorted m
      → (s : S.Signal) × (StdMap.find path (add E S path p h m) ≡ some s)
        × (S.slots s ≡ insert_slot p h (path_slots E S path m))
  unfolding path_slots
  add-found path p h m sorted = elim (Option-cases (StdMap.find path (add E S path p h m))) [
    | inr (s, e) ↦
        (s, e, ground (arith, path_slots-add E S path path p h m sorted, text_eq_iff path path))
    | inl e ↦ ground (
      arith,
      path_slots-add E S path path p h m sorted,
      text_eq_iff path path,
      insert_slot-nonempty p h (path_slots E S path m),
    )
  ]

  add_route_get :
      (o : RouteOptions E) (routes routes' : RouteImpl E S)
      → o.method ≡ codes "GET"
      → add_route E S o routes ≡ returns routes'
      → (h : Handler E) × (o.route_function ≡ some h)
        × (routes' ≡ (get_add E S o.path o.priority h routes).0)
  unfolding add_route text_compare
  add_route_get o routes routes' method e = elim (Option-cases o.route_function) [
    | inl n ↦ ground (arith, rw (method, add_route) at e)
    | inr (h, f) ↦ (h, f, ground (arith, rw (method, add_route) at e))
  ]

  add_route_post :
      (o : RouteOptions E) (routes routes' : RouteImpl E S)
      → o.method ≡ codes "POST"
      → add_route E S o routes ≡ returns routes'
      → (h : Handler E) × (routes' ≡ (post_add E S o.path o.priority h routes).0)
  unfolding add_route text_compare
  add_route_post o routes routes' method e = elim (Option-cases o.route_function) [
    | inl n ↦ ground (arith, rw (method, add_route) at e)
    | inr (h, f) ↦ (h, ground (arith, rw (method, add_route) at e))
  ]

  route-add_route :
      (map : List (Text × RouteVariant E)) (routes routes' : RouteImpl E S) (rc : ℤ)
      → route E S map routes ≡ returns (routes', rc)
      → add_route E S (route_options E map (default_options E)) routes ≡ returns routes'
  unfolding route
  route-add_route map routes routes' rc e =
      let (added, first, last) =
        >>=-eq-returns (add_route E S (route_options E map (default_options E)) routes) _ e in
      let same : added ≡ routes' = ground (arith, last) in first ∙ ap returns same

  -- When `route` returns for options whose method is GET, then the dispatch of the path of the
  -- options chooses a signal in which the function of the options stands behind the earlier slots of
  -- that path with the same or a lower priority, and before the rest.
  pub route_get :
      (map : List (Text × RouteVariant E)) (routes routes' : RouteImpl E S) (rc : ℤ)
      → IsSorted routes.route_get_map
      → (route_options E map (default_options E)).method ≡ codes "GET"
      → route E S map routes ≡ returns (routes', rc)
      → let o = route_options E map (default_options E) in
        (h : Handler E) × (o.route_function ≡ some h)
        × (s : S.Signal) × (choose E S o.path routes'.route_get_map routes'.route_all_map ≡ some s)
        × (S.slots s ≡ insert_slot o.priority h (path_slots E S o.path routes.route_get_map))
  unfolding get_add
  route_get map routes routes' rc sorted method e =
      let o = route_options E map (default_options E) in
      let (h, f, is) =
        add_route_get o routes routes' method (route-add_route map routes routes' rc e) in
      let (s, found, slots) = add-found o.path o.priority h routes.route_get_map sorted in
      (
        h,
        f,
        s,
        rw is (
            (choose-eq-some_iff E S o.path (add E S o.path o.priority h routes.route_get_map)
                routes.route_all_map s).1
              (inl found)),
        slots,
      )

  -- When `route` returns for options whose method is POST, then no dispatch of the server answers
  -- otherwise than before: there is no dispatch to the routes for POST.
  pub route_post :
      (map : List (Text × RouteVariant E)) (routes routes' : RouteImpl E S) (rc : ℤ)
      → (route_options E map (default_options E)).method ≡ codes "POST"
      → route E S map routes ≡ returns (routes', rc)
      → (path : Text) (w : World E)
      → do_get_signal E S path w routes' ≡ do_get_signal E S path w routes
  unfolding post_add do_get_signal
  route_post map routes routes' rc method e path w =
      let o = route_options E map (default_options E) in
      let (h, is) =
        add_route_post o routes routes' method (route-add_route map routes routes' rc e) in
      ap (do_get_signal E S path w) is
