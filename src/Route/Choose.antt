-- ===== src/Route/Choose.antt =====
-- Which signal answers a path, and in which order the handlers of a path run.
use book_filer_module_http.Prelude.{
  ◌≡◌, refl, ◌⊎◌, ◌↔◌, inl, inr, true, Option, none, some, List, [], ◌∷◌, arith, Text, codes,
  text_eq, text_eq_iff, eq_of_text_eq, if◌then◌else◌, Option-cases,
}
use book_filer_module_http.Prelude.Int.{ℤ}
use book_filer_module_http.StdMap.{find, insert, IsSorted}
use book_filer_module_http.StdMap.Laws.{find-insert, insert-IsSorted, Above}
use book_filer_module_http.Env.{Env}
use book_filer_module_http.Route.{
  Handler, SignalLib, RouteMap, insert_slot, connect_at, add, choose,
}

module _ (E : Env) (S : SignalLib (Handler E)) where
  -- The slots of a path.
  unfoldable pub path_slots : Text → RouteMap E S → List (ℤ × Handler E)
  path_slots path m = elim (find path m) [ none ↦ [] | some s ↦ S.slots s ]

  find-connect_at :
      (k path : Text) (p : ℤ) (h : Handler E) (m : RouteMap E S)
      → find k (connect_at E S path p h m) ≡ elim (find k m) [
        | none ↦ none
        | some s ↦ some (if text_eq path k then S.connect p h s else s)
      ]
  unfolding find connect_at
  find-connect_at k path p h [] = refl
  find-connect_at k path p h ((j, s) ∷ m) =
      ground (
        arith,
        text_eq_iff j path,
        text_eq_iff j k,
        text_eq_iff path k,
        find-connect_at k path p h m,
      )

  -- Adding a route puts its handler behind those of the path with the same or a lower priority, and
  -- leaves every other path alone, whether or not the path was there.
  pub path_slots-add :
      (k path : Text) (p : ℤ) (h : Handler E) (m : RouteMap E S)
      → IsSorted m
      → path_slots k (add E S path p h m)
        ≡ (if text_eq path k then insert_slot p h (path_slots k m) else path_slots k m)
  unfolding path_slots add
  path_slots-add k path p h m s = elim (Option-cases (find path m)) [
    | inl absent ↦
        rw (absent, add)
          (ground (
            arith,
            find-connect_at k path p h (insert path S.new_signal m),
            find-insert k path S.new_signal m s,
            S.slots-connect p h S.new_signal,
            S.slots-new_signal,
            known k path absent,
          ))
    | inr (old, present) ↦ elim (Option-cases (find k m)) [
      | inl e ↦
          rw (present, add) (ground (arith, find-connect_at k path p h m, e, known k path present))
      | inr (t, e) ↦
          rw (present, add) (ground (arith, find-connect_at k path p h m, e, S.slots-connect p h t))
    ]
  ]
    where
      known :
          (k path : Text) {o : Option S.Signal}
          → find path m ≡ o
          → (text_eq path k ≡ true)
          → find k m ≡ o
      known k path e same = rw (eq_of_text_eq path k same) at e

  connect_at-Above :
      (i path : Text) (p : ℤ) (h : Handler E) (m : RouteMap E S)
      → Above i m
      → Above i (connect_at E S path p h m)
  unfolding connect_at
  connect_at-Above i path p h [] a = tt
  connect_at-Above i path p h ((j, t) ∷ m) (a, b) = ground (arith, connect_at-Above i path p h m b)

  connect_at-IsSorted :
      (path : Text) (p : ℤ) (h : Handler E) (m : RouteMap E S)
      → IsSorted m
      → IsSorted (connect_at E S path p h m)
  unfolding connect_at
  connect_at-IsSorted path p h [] s = tt
  connect_at-IsSorted path p h ((j, t) ∷ m) (a, s) =
      ground (arith, connect_at-Above j path p h m a, connect_at-IsSorted path p h m s)

  -- Adding a route keeps the paths in order.
  pub add-IsSorted :
      (path : Text) (p : ℤ) (h : Handler E) (m : RouteMap E S)
      → IsSorted m
      → IsSorted (add E S path p h m)
  unfolding add
  add-IsSorted path p h m s = elim (Option-cases (find path m)) [
    | inl e ↦
        rw (e, add)
          (connect_at-IsSorted path p h (insert path S.new_signal m)
            (insert-IsSorted path S.new_signal m s))
    | inr (t, e) ↦ rw (e, add) (connect_at-IsSorted path p h m s)
  ]

  -- The four lookups in their order: the path and then "*" among the routes of the method, the path
  -- and then "*" among the routes of every method. There is no signal exactly when all four fail.
  pub choose-eq-none_iff :
      (path : Text) (m all : RouteMap E S)
      → (choose E S path m all ≡ none) ↔ (
          (find path m ≡ none)
          × (find (codes "*") m ≡ none)
          × (find path all ≡ none)
          × (find (codes "*") all ≡ none))
  unfolding choose
  choose-eq-none_iff path m all = ground arith

  -- The signal of a path is that of the first lookup that finds one: the path among the routes of
  -- the method, "*" among them, the path among the routes of every method, "*" among those.
  pub choose-eq-some_iff :
      (path : Text) (m all : RouteMap E S) (s : S.Signal)
      → (choose E S path m all ≡ some s) ↔ (
          (find path m ≡ some s)
          ⊎ ((find path m ≡ none) × (find (codes "*") m ≡ some s))
          ⊎ ((find path m ≡ none) × (find (codes "*") m ≡ none) × (find path all ≡ some s))
          ⊎ ((find path m ≡ none)
              × (find (codes "*") m ≡ none)
              × (find path all ≡ none)
              × (find (codes "*") all ≡ some s)))
  unfolding choose
  choose-eq-some_iff path m all s = ground arith
