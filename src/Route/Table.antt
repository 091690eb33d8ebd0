-- ===== src/Route/Table.antt =====
-- The three tables of `RouteImpl` behind any number of calls of `getAdd`, `postAdd` and `allAdd`, as
-- an abstract table that gives each path its slots.
use book_filer_module_http.Prelude.{
  ◌≡◌, refl, ap, ◌∙◌, Bool, true, false, ◌&&◌, List, [], ◌∷◌, Text, text_eq, if◌then◌else◌,
}
use book_filer_module_http.Prelude.Int.{ℤ}
use book_filer_module_http.StdMap.{find, IsSorted}
use book_filer_module_http.Env.{Env}
use book_filer_module_http.Route.{
  Handler, SignalLib, RouteMap, RouteImpl, new_routes, insert_slot, get_add, post_add, all_add,
}
use book_filer_module_http.Route.Order.{
  Ascending, with_priority, insert_all, insert_all_if, insert_all-Ascending,
  with_priority-insert_all,
}
use book_filer_module_http.Route.Choose.{path_slots, path_slots-add, add-IsSorted}

pub data Table : Type 0 where
  get_table post_table all_table : Table

abbrev pub same_table : Table → Table → Bool
same_table get_table get_table = true
same_table post_table post_table = true
same_table all_table all_table = true
same_table _ _ = false

module _ (E : Env) (S : SignalLib (Handler E)) where
  -- One call of `getAdd`, `postAdd` or `allAdd`.
  pub record Registration : Type 0 where
    pub table : Table
    pub path : Text
    pub priority : ℤ
    pub handler : Handler E

  abbrev pub map_of : Table → RouteImpl E S → RouteMap E S
  map_of get_table r = r.route_get_map
  map_of post_table r = r.route_post_map
  map_of all_table r = r.route_all_map

  register_in : Table → Registration → RouteImpl E S → RouteImpl E S
  register_in get_table g r = (get_add E S g.path g.priority g.handler r).0
  register_in post_table g r = (post_add E S g.path g.priority g.handler r).0
  register_in all_table g r = (all_add E S g.path g.priority g.handler r).0

  unfoldable pub register_all : List Registration → RouteImpl E S → RouteImpl E S
  unfolding register_in
  register_all [] r = r
  register_all (g ∷ gs) r = register_all gs (register_in g.table g r)

  -- What was asked for: the handlers of a path in a table, with their priorities, as they came.
  abbrev pub requested : Table → Text → List Registration → List (ℤ × Handler E)
  requested t k [] = []
  requested t k (g ∷ gs) =
      if same_table g.table t && text_eq g.path k
      then (g.priority, g.handler) ∷ requested t k gs
      else requested t k gs

  abbrev AllSorted : RouteImpl E S → Type 0
  AllSorted r = IsSorted r.route_get_map × IsSorted r.route_post_map × IsSorted r.route_all_map

  register_in-AllSorted :
      (u : Table) (g : Registration) (r : RouteImpl E S)
      → AllSorted r
      → AllSorted (register_in u g r)
  unfolding register_in get_add post_add all_add
  register_in-AllSorted get_table g r (a, b, c) =
      (add-IsSorted E S g.path g.priority g.handler r.route_get_map a, b, c)
  register_in-AllSorted post_table g r (a, b, c) =
      (a, add-IsSorted E S g.path g.priority g.handler r.route_post_map b, c)
  register_in-AllSorted all_table g r (a, b, c) =
      (a, b, add-IsSorted E S g.path g.priority g.handler r.route_all_map c)

  path_slots-register_in :
      (u t : Table) (k : Text) (g : Registration) (r : RouteImpl E S)
      → AllSorted r
      → path_slots E S k (map_of t (register_in u g r)) ≡ (
          if same_table u t && text_eq g.path k
          then insert_slot g.priority g.handler (path_slots E S k (map_of t r))
          else path_slots E S k (map_of t r))
  unfolding register_in get_add post_add all_add
  path_slots-register_in get_table get_table k g r (a, b, c) =
      path_slots-add E S k g.path g.priority g.handler r.route_get_map a
  path_slots-register_in post_table post_table k g r (a, b, c) =
      path_slots-add E S k g.path g.priority g.handler r.route_post_map b
  path_slots-register_in all_table all_table k g r (a, b, c) =
      path_slots-add E S k g.path g.priority g.handler r.route_all_map c
  path_slots-register_in get_table post_table k g r s = refl
  path_slots-register_in get_table all_table k g r s = refl
  path_slots-register_in post_table get_table k g r s = refl
  path_slots-register_in post_table all_table k g r s = refl
  path_slots-register_in all_table get_table k g r s = refl
  path_slots-register_in all_table post_table k g r s = refl

  path_slots-register_all :
      (t : Table) (k : Text) (gs : List Registration) (r : RouteImpl E S)
      → AllSorted r
      → path_slots E S k (map_of t (register_all gs r))
        ≡ insert_all (requested t k gs) (path_slots E S k (map_of t r))
  unfolding register_all insert_all
  path_slots-register_all t k [] r s = refl
  path_slots-register_all t k (g ∷ gs) r s =
      path_slots-register_all t k gs (register_in g.table g r) (register_in-AllSorted g.table g r s)
      ∙ ap (insert_all (requested t k gs)) (path_slots-register_in g.table t k g r s)
      ∙ insert_all_if (same_table g.table t && text_eq g.path k) g.priority g.handler
          (requested t k gs) (path_slots E S k (map_of t r))

  path_slots-new_routes : (t : Table) (k : Text) → path_slots E S k (map_of t (new_routes E S)) ≡ []
  unfolding path_slots find
  path_slots-new_routes get_table k = refl
  path_slots-new_routes post_table k = refl
  path_slots-new_routes all_table k = refl

  -- The routes refine a table that gives each path the handlers that were registered for it: behind
  -- any registrations, the handlers of a path in one of the three tables stand in an order of
  -- ascending priority, and those of one priority are the ones that were registered for this table,
  -- path and priority, as often and in the order in which they came.
  pub register_all_refines :
      (t : Table) (k : Text) (gs : List Registration)
      → Ascending (path_slots E S k (map_of t (register_all gs (new_routes E S))))
        × ((p : ℤ)
            → with_priority p (path_slots E S k (map_of t (register_all gs (new_routes E S))))
              ≡ with_priority p (requested t k gs))
  register_all_refines t k gs =
      rw (path_slots-register_all t k gs (new_routes E S) (tt, tt, tt), path_slots-new_routes t k)
        (
          insert_all-Ascending (requested t k gs) [] tt,
          λ p. with_priority-insert_all p (requested t k gs) [] tt,
        )
