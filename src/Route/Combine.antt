-- ===== src/Route/Combine.antt =====
-- Which handlers of a signal run, and whose text is the answer.
use book_filer_module_http.Prelude.{◌≡◌, refl, ◌∙◌, true, false, List, [], ◌∷◌, ◌++◌, Text}
use book_filer_module_http.Env.{Env}
use book_filer_module_http.Response.{writable_ended, body}
use book_filer_module_http.Route.{World, Handler, combine_from, combine}

module _ (E : Env) where
  -- All the handlers, one after the other, with the text of the last.
  unfoldable pub run_all : List (Handler E) → Text → World E → Text × World E
  run_all [] last w = (last, w)
  run_all (h ∷ hs) last w = run_all hs (h w).0 (h w).1

  abbrev pub Ended : World E → Type 0
  Ended w = writable_ended E.responses w.response ≡ true

  -- No handler of the list ends the response, when they run in turn.
  abbrev pub NoneEnds : List (Handler E) → World E → Type 0
  NoneEnds [] w = Unit
  NoneEnds (h ∷ hs) w = (writable_ended E.responses (h w).1.response ≡ false) × NoneEnds hs (h w).1

  combine_from_all :
      (hs : List (Handler E)) (last : Text) (w : World E)
      → NoneEnds hs w
      → combine_from E hs last w ≡ run_all hs last w
  unfolding combine_from run_all
  combine_from_all [] last w n = refl
  combine_from_all (h ∷ hs) last w (n, ns) =
      rw (n, combine_from) (combine_from_all hs (h w).0 (h w).1 ns)

  combine_from_stop :
      (hs more : List (Handler E)) (h : Handler E) (last : Text) (w : World E)
      → NoneEnds hs w
      → Ended (run_all (hs ++ h ∷ []) last w).1
      → combine_from E (hs ++ h ∷ more) last w ≡ (
        body E.responses (run_all (hs ++ h ∷ []) last w).1.response,
        (run_all (hs ++ h ∷ []) last w).1,
      )
  unfolding combine_from run_all
  combine_from_stop [] more h last w n e = rw (e, combine_from)
  combine_from_stop (g ∷ hs) more h last w (n, ns) e =
      rw (n, combine_from) (combine_from_stop hs more h (g w).0 (g w).1 ns e)

  combine_eq_from : (hs : List (Handler E)) (w : World E) → combine E hs w ≡ combine_from E hs [] w
  unfolding combine
  combine_eq_from [] w = refl
  combine_eq_from (h ∷ hs) w = refl

  -- If no handler ends the response, all run, in order, and the text of the last is the answer.
  combine_all :
      (hs : List (Handler E)) (w : World E) → NoneEnds hs w → combine E hs w ≡ run_all hs [] w
  combine_all hs w n = combine_eq_from hs w ∙ combine_from_all hs [] w n

  -- If a handler ends the response and none before it does, it is the last that runs, whatever
  -- handlers follow, and the answer is the body that it gave.
  pub combine_stops :
      (hs more : List (Handler E)) (h : Handler E) (w : World E)
      → NoneEnds hs w
      → Ended (run_all (hs ++ h ∷ []) [] w).1
      → combine E (hs ++ h ∷ more) w ≡ (
        body E.responses (run_all (hs ++ h ∷ []) [] w).1.response,
        (run_all (hs ++ h ∷ []) [] w).1,
      )
  combine_stops hs more h w n e =
      combine_eq_from (hs ++ h ∷ more) w ∙ combine_from_stop hs more h [] w n e
