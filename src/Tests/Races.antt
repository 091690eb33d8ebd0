-- ===== src/Tests/Races.antt =====
-- The theorems on dispatches of several threads and on registrations at concrete inputs.
use book_filer_module_http.Prelude.{
  ℕ, zero, suc, ◌≡◌, refl, sym, ap, ◌∙◌, leb, Bool, ◌≢◌, true, false, List, [], ◌∷◌, codes, arith,
}
use book_filer_module_http.Prelude.Int.{ℤ, pos}
use book_filer_module_http.Response
use book_filer_module_http.Response.{writable_ended, body}
use book_filer_module_http.Route.{combine, new_routes}
use book_filer_module_http.Route.Choose.{path_slots}
use book_filer_module_http.Route.Order.{Ascending, with_priority}
use book_filer_module_http.Route.Table.{
  get_table, post_table, Registration, map_of, register_all, requested, register_all_refines,
}
use book_filer_module_http.Route.Shared.{
  update, advance, Phase, arrived, combined, calling, testing, answered, Dispatch, Shared, world,
  run,
}
use book_filer_module_http.Route.Shared.Alone.{turns, outcome, run_alone}
use book_filer_module_http.Route.Shared.Overlap.{NoOverlap, run_isolated}
use book_filer_module_http.Route.Shared.Leak.{overlap_leaks}
use book_filer_module_http.Tests.Libraries.{libraries, response_messages, signals}
use book_filer_module_http.Tests.Servers.{hello, ender, some_world}

abbrev new_dispatch : Dispatch libraries
new_dispatch = record {
  request = some_world.request;
  response = some_world.response;
  phase = arrived;
}

abbrev two_dispatches : Shared libraries
two_dispatches = record { combiner = 0; dispatches = λ i. new_dispatch; app = 0 }

run_alone_example :
    outcome libraries
      (hello ∷ ender ∷ [])
      1
      (run libraries (hello ∷ ender ∷ []) (turns libraries (hello ∷ ender ∷ []) 1 7) two_dispatches)
    ≡ (
      answered (combine libraries (hello ∷ ender ∷ []) (world libraries new_dispatch 0)).0,
      (combine libraries (hello ∷ ender ∷ []) (world libraries new_dispatch 0)).1,
    )
run_alone_example = run_alone libraries (hello ∷ ender ∷ []) 1 two_dispatches refl

overlap_leaks_example :
    ((run libraries (ender ∷ []) (0 ∷ 1 ∷ 1 ∷ 1 ∷ 0 ∷ 0 ∷ 0 ∷ []) two_dispatches).dispatches
      0).phase
    ≡ answered (codes "bye")
unfolding writable_ended body Response.end
overlap_leaks_example =
    overlap_leaks libraries ender [] 0 1 (λ e. omega (arith, e)) two_dispatches refl refl refl

-- The first dispatch sets its combiner and calls the signal, and the second comes only then.
abbrev schedule : List ℕ
schedule = 0 ∷ 0 ∷ 1 ∷ 1 ∷ 1 ∷ 0 ∷ 1 ∷ []

abbrev tag : Phase libraries → ℕ
tag arrived = 0
tag combined = 1
tag (calling j slots v) = 2
tag (testing j slots v) = 3
tag (answered v) = 4

ne_of_tag : (p q : Phase libraries) → tag p ≢ tag q → p ≢ q
ne_of_tag p q n e = n (ap tag e)

apart :
    (k : ℕ)
    → ((run libraries (ender ∷ []) (0 ∷ 0 ∷ []) two_dispatches).dispatches k).phase ≢ combined
unfolding run advance update
apart zero = ne_of_tag _ _ (λ e. omega (arith, e))
apart (suc k) = ne_of_tag _ _ (λ e. grind (arith, e))

-- A dispatch that has set its combiner is not about to.
moved : {P : Type 0} {p : Phase libraries} → leb 1 (tag p) ≡ true → p ≡ arrived → P
moved {P} {p} h e =
    let no_tag : ◌≡◌ {A = Bool} false true = ap (λ q. leb 1 (tag q)) (sym e) ∙ h in
    absurd (cc no_tag)

schedule-NoOverlap : NoOverlap libraries (ender ∷ []) schedule two_dispatches
unfolding run advance update
schedule-NoOverlap = (
  λ p k. ne_of_tag _ _ (λ e. omega (arith, e)),
  (moved refl, (λ p k. apart k, (moved refl, (moved refl, (moved refl, (moved refl, tt)))))),
)

run_isolated_example :
    codes "bye"
    ≡ body response_messages
        ((run libraries (ender ∷ []) schedule two_dispatches).dispatches 1).response
unfolding run advance update writable_ended body Response.end Response.set_response
run_isolated_example =
    run_isolated libraries (ender ∷ []) schedule two_dispatches (λ k. (refl, refl))
      schedule-NoOverlap 1 (codes "bye") refl refl

abbrev registrations : List (Registration libraries signals)
registrations =
    record { table = get_table; path = codes "/"; priority = pos 10; handler = hello }
    ∷ record { table = get_table; path = codes "/"; priority = pos 5; handler = ender }
    ∷ record { table = post_table; path = codes "/"; priority = pos 10; handler = ender }
    ∷ []

register_all_refines_example :
    Ascending (
      path_slots libraries signals (codes "/") (
        map_of libraries signals get_table
          (register_all libraries signals registrations (new_routes libraries signals))))
    × ((p : ℤ)
        → with_priority p (
            path_slots libraries signals (codes "/") (
              map_of libraries signals get_table
                (register_all libraries signals registrations (new_routes libraries signals))))
          ≡ with_priority p (requested libraries signals get_table (codes "/") registrations))
register_all_refines_example =
    register_all_refines libraries signals get_table (codes "/") registrations
