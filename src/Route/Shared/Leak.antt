-- ===== src/Route/Shared/Leak.antt =====
-- Two dispatches that overlap between `set_combiner` and the call.
use book_filer_module_http.Prelude.{ℕ, ◌≡◌, refl, sym, ap, ◌∙◌, ◌≢◌, true, List, [], ◌∷◌}
use book_filer_module_http.Env.{Env}
use book_filer_module_http.Response.{writable_ended, body}
use book_filer_module_http.Route.{Handler}
use book_filer_module_http.Route.Shared.{
  update, update_self, update_other, arrived, combined, calling, testing, answered, Dispatch,
  Shared, world, set_combiner, call, run_slot, test_ended, advance_from, run,
}
use book_filer_module_http.Route.Shared.Alone.{advance-at}

module _ (E : Env) (h : Handler E) (hs : List (Handler E)) (i j : ℕ) (i-ne-j : i ≢ j) where
  open E use {responses}

  ij : (d : Dispatch E) (f : ℕ → Dispatch E) → update i d f j ≡ f j
  ij d f = update_other i j d f i-ne-j

  ji : (d : Dispatch E) (f : ℕ → Dispatch E) → update j d f i ≡ f i
  ji d f = update_other j i d f (λ e. i-ne-j (sym e))

  abbrev slots : List (Handler E)
  slots = h ∷ hs

  -- Both have set their combiner, and the second has called the signal, and has run its first slot.
  second_ran :
      (s : Shared E)
      → (s.dispatches i).phase ≡ arrived
      → (s.dispatches j).phase ≡ arrived
      → (t : Shared E) × (run E slots (i ∷ j ∷ j ∷ j ∷ []) s ≡ t)
        × (t.combiner ≡ j)
        × ((t.dispatches i).phase ≡ combined)
        × ((t.dispatches j).response ≡ (h (world E (s.dispatches j) s.app)).1.response)
  unfolding run set_combiner call run_slot advance_from
  second_ran s pi pj = (
    s4,
    ap (λ u. run E slots (j ∷ j ∷ j ∷ []) u) (advance-at E slots i s arrived pi)
        ∙ ap (λ u. run E slots (j ∷ j ∷ []) u) (advance-at E slots j s1 arrived simp (ij, pj))
        ∙ ap (λ u. run E slots (j ∷ []) u) (advance-at E slots j s2 combined simp (update_self))
        ∙ advance-at E slots j s3 (calling j slots []) simp (update_self),
    refl,
    simp (ji, update_self),
    simp (ij, update_self),
  )
    where
      s1 : Shared E
      s1 = set_combiner E i s

      s2 : Shared E
      s2 = set_combiner E j s1

      s3 : Shared E
      s3 = call E slots j s2

      s4 : Shared E
      s4 = run_slot E j j hs h s3

  -- When two dispatches set their combiners one behind the other, the second calls the signal and its
  -- first slot ends its response, and the first calls the signal only then, the answer of the first
  -- is the body of the response of the second, whatever its own slots give.
  pub overlap_leaks :
      (s : Shared E)
      → (s.dispatches i).phase ≡ arrived
      → (s.dispatches j).phase ≡ arrived
      → writable_ended responses (h (world E (s.dispatches j) s.app)).1.response ≡ true
      → ((run E slots (i ∷ j ∷ j ∷ j ∷ i ∷ i ∷ i ∷ []) s).dispatches i).phase
        ≡ answered (body responses (h (world E (s.dispatches j) s.app)).1.response)
  unfolding run call run_slot test_ended advance_from
  overlap_leaks s pi pj ended =
      let (t, ran, chosen, waits, res) = second_ran s pi pj in
      ap (λ u. ((run E slots (i ∷ i ∷ i ∷ []) u).dispatches i).phase) ran
      ∙ ap (λ u. ((run E slots (i ∷ i ∷ []) u).dispatches i).phase)
          (advance-at E slots i t combined waits)
      ∙ ap (λ u. ((run E slots (i ∷ []) u).dispatches i).phase)
          (advance-at E slots i (call E slots i t) (calling j slots []) simp (update_self, chosen))
      ∙ ap (λ u. (u.dispatches i).phase)
          (advance-at E slots i (run_slot E i j hs h (call E slots i t))
            (testing j hs (h (world E ((call E slots i t).dispatches i) t.app)).0) simp
            (update_self))
      ∙ simp (update_self, ij, res, ended)
