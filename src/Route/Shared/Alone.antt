-- ===== src/Route/Shared/Alone.antt =====
-- A dispatch that nothing interrupts.
use book_filer_module_http.Prelude.{
  ℕ, zero, suc, ◌≡◌, refl, ap, ◌∙◌, inl, inr, List, [], ◌∷◌, Text, if◌then◌else◌, Bool-cases,
}
use book_filer_module_http.Env.{Env}
use book_filer_module_http.Response.{writable_ended, body}
use book_filer_module_http.Route.{World, Handler, combine_from, combine}
use book_filer_module_http.Route.Shared.{
  update_self, Phase, arrived, combined, calling, testing, answered, Dispatch, Shared, world,
  set_combiner, call, run_slot, test_ended, advance_from, advance, run,
}

combine-combine_from :
    (E : Env) (slots : List (Handler E)) (w : World E)
    → combine E slots w ≡ combine_from E slots [] w
unfolding combine combine_from
combine-combine_from E [] w = refl
combine-combine_from E (slot ∷ slots) w = refl

module _ (E : Env) (slots : List (Handler E)) (i : ℕ) where
  -- The same dispatch moves a number of times.
  abbrev pub turns : ℕ → List ℕ
  turns zero = []
  turns (suc n) = i ∷ turns n

  -- Two turns for each slot, and one behind the last.
  abbrev pub loop_turns : List (Handler E) → ℕ
  loop_turns [] = 1
  loop_turns (slot ∷ rest) = suc (suc (loop_turns rest))

  -- What a dispatch has come to: where it stands, and the world that it leaves.
  abbrev pub outcome : Shared E → Phase E × World E
  outcome s = ((s.dispatches i).phase, world E (s.dispatches i) s.app)

  pub advance-at :
      (s : Shared E) (p : Phase E)
      → (s.dispatches i).phase ≡ p
      → advance E slots i s ≡ advance_from E p slots i s
  unfolding advance
  advance-at s p e = ap (λ q. advance_from E q slots i s) e

  run-answered :
      (n : ℕ) (s : Shared E) (v : Text)
      → (s.dispatches i).phase ≡ answered v
      → run E slots (turns n) s ≡ s
  unfolding run advance_from
  run-answered zero s v p = refl
  run-answered (suc n) s v p =
      ap (run E slots (turns n)) (advance-at s (answered v) p) ∙ run-answered n s v p

  -- Behind a slot: the loop ends, or goes on.
  abbrev after_slot : List (Handler E) → Text → World E → Dispatch E
  after_slot hs v w = record {
    request = w.request;
    response = w.response;
    phase =
        if writable_ended E.responses w.response
        then answered (body E.responses w.response)
        else calling i hs v;
  }

  slot_and_test :
      (h : Handler E) (hs : List (Handler E)) (v : Text) (s : Shared E) (d : Dispatch E)
      → s.dispatches i ≡ d
      → d.phase ≡ calling i (h ∷ hs) v
      → (t : Shared E) × (advance E slots i (advance E slots i s) ≡ t)
        × (t.dispatches i ≡ after_slot hs (h (world E d s.app)).0 (h (world E d s.app)).1)
        × (t.app ≡ (h (world E d s.app)).1.app)
  unfolding advance_from
  slot_and_test h hs v s d e p = (
    t,
    ap (advance E slots i) (advance-at s (calling i (h ∷ hs) v) (ap (λ c. c.phase) e ∙ p))
        ∙ advance-at s1 (testing i hs (h w).0) (ap (λ c. c.phase) at1),
    simp (update_self, e),
    ap (λ c. (h (world E c s.app)).1.app) e,
  )
    where
      w : World E
      w = world E (s.dispatches i) s.app

      s1 : Shared E
      s1 = run_slot E i i hs h s

      at1 : s1.dispatches i ≡ record {
        request = (h w).1.request;
        response = (h w).1.response;
        phase = testing i hs (h w).0;
      }
      at1 =
          update_self i
            (record {
              request = (h w).1.request;
              response = (h w).1.response;
              phase = testing i hs (h w).0;
            })
            s.dispatches

      t : Shared E
      t = test_ended E i i hs (h w).0 s1

  run_loop :
      (hs : List (Handler E)) (v : Text) (s : Shared E) (d : Dispatch E)
      → s.dispatches i ≡ d
      → d.phase ≡ calling i hs v
      → outcome (run E slots (turns (loop_turns hs)) s) ≡ (
        answered (combine_from E hs v (world E d s.app)).0,
        (combine_from E hs v (world E d s.app)).1,
      )
  unfolding run combine_from advance_from
  run_loop [] v s d e p =
      ap outcome (advance-at s (calling i [] v) (ap (λ c. c.phase) e ∙ p)) ∙ simp (update_self, e)
  run_loop (h ∷ hs) v s d e p =
      let w = h (world E d s.app) in
      let (t, moved, at, app) = slot_and_test h hs v s d e p in
      ap (λ u. outcome (run E slots (turns (loop_turns hs)) u)) moved
      ∙ elim (Bool-cases (writable_ended E.responses w.1.response)) [
        | inl ended ↦
            ap outcome (
              run-answered (loop_turns hs) t (body E.responses w.1.response)
                (ap (λ c. c.phase) at ∙ rw ended))
            ∙ rw (at, app) (rw ended refl)
        | inr more ↦ run_loop hs w.0 t (after_slot hs w.0 w.1) at (rw more) ∙ rw (more, app) refl
      ]

  -- A dispatch that moves alone, with two turns for each slot and three more, gets the answer of the
  -- combiner and leaves the world that the combiner leaves, as `doSignal` has it.
  pub run_alone :
      (s : Shared E)
      → (s.dispatches i).phase ≡ arrived
      → outcome (run E slots (turns (suc (suc (loop_turns slots)))) s) ≡ (
        answered (combine E slots (world E (s.dispatches i) s.app)).0,
        (combine E slots (world E (s.dispatches i) s.app)).1,
      )
  unfolding run advance_from set_combiner call
  run_alone s p =
      ap (λ u. outcome (run E slots (i ∷ turns (loop_turns slots)) u)) (advance-at s arrived p)
      ∙ ap (λ u. outcome (run E slots (turns (loop_turns slots)) u))
          (advance-at set combined (ap (λ d. d.phase) (update_self i chosen s.dispatches)))
      ∙ run_loop slots [] called (record chosen { phase = calling i slots [] }) at_called refl
      ∙ rw (combine-combine_from E slots (world E (s.dispatches i) s.app)) refl
    where
      chosen : Dispatch E
      chosen = record (s.dispatches i) { phase = combined }

      set : Shared E
      set = set_combiner E i s

      called : Shared E
      called = call E slots i set

      at_called : called.dispatches i ≡ record chosen { phase = calling i slots [] }
      at_called =
          update_self i (record (set.dispatches i) { phase = calling i slots [] }) set.dispatches
          ∙ ap (λ (d : Dispatch E). record d { phase = calling i slots [] })
              (update_self i chosen s.dispatches)
