-- ===== src/Server/Routes.antt =====
-- `ServerImpl::route` of src/core/Server.cpp: the options of a route.
use book_filer_module_http.Prelude.{
  ℕ, Option, none, some, List, [], ◌∷◌, if◌then◌else◌, Text, codes, text_eq, Outcome, returns,
  ◌>>=◌, deref,
}
use book_filer_module_http.Prelude.Int.{ℤ, pos, success}
use book_filer_module_http.Env.{Env}
use book_filer_module_http.Route.{Handler, SignalLib, RouteImpl, get_add, post_add, all_add}

-- `routeVariantTypeExternal`; a `double` is its bit pattern.
pub data RouteVariant (E : Env) : Type 0 where
  int : ℤ → RouteVariant E
  double : ℕ → RouteVariant E
  string : Text → RouteVariant E
  function : Handler E → RouteVariant E

module _ (E : Env) where
  -- The local variables of `route`; `routeFunction` may be null.
  pub record RouteOptions : Type 0 where
    pub priority : ℤ
    pub method : Text
    pub path : Text
    pub route_function : Option (Handler E)

  abbrev pub default_options : RouteOptions
  default_options = record {
    priority = pos 10;
    method = codes "GET";
    path = codes "*";
    route_function = none;
  }

  unfoldable pub route_option : Text → RouteVariant E → RouteOptions → RouteOptions
  route_option key (int n) o =
      if text_eq key (codes "priority") then record o { priority = n } else o
  route_option key (double d) o = o
  route_option key (string v) o =
      if text_eq key (codes "method")
      then record o { method = v }
      else if text_eq key (codes "path")
      then record o { path = v }
      else o
  route_option key (function f) o = record o { route_function = some f }

  unfoldable pub route_options : List (Text × RouteVariant E) → RouteOptions → RouteOptions
  unfolding route_option
  route_options [] o = o
  route_options ((key, v) ∷ map) o = route_options map (route_option key v o)

  module _ (S : SignalLib (Handler E)) where
    -- A null `routeFunction` must not be followed.
    abbrev with_function :
        Option (Handler E) → (Handler E → RouteImpl E S × ℤ) → Outcome (RouteImpl E S)
    with_function f add = deref f >>= λ h. returns (add h).0

    -- The dispatch on the method.
    unfoldable pub add_route : RouteOptions → RouteImpl E S → Outcome (RouteImpl E S)
    add_route o routes =
        if text_eq o.method (codes "GET")
        then with_function o.route_function (λ f. get_add E S o.path o.priority f routes)
        else if text_eq o.method (codes "POST")
        then with_function o.route_function (λ f. post_add E S o.path o.priority f routes)
        else if text_eq o.method (codes "*")
        then with_function o.route_function (λ f. all_add E S o.path o.priority f routes)
        else returns routes

    unfoldable pub route :
        List (Text × RouteVariant E) → RouteImpl E S → Outcome (RouteImpl E S × ℤ)
    unfolding add_route
    route map routes = do
      routes' ← add_route (route_options map default_options) routes
      returns (routes', success)
