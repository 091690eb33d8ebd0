-- ===== src/Route/Shared/Overlap.antt =====
-- Dispatches of which no two stand between `set_combiner` and the at the same time.
use book_filer_module_http.Prelude.{
  ℕ, ◌≡◌, refl, sym, subst, ◌≢◌, inl, inr, Bool, true, false, List, [], ◌∷◌, ◌==◌, ==_iff,
  Bool-cases, Text, if◌then◌else◌,
}
use book_filer_module_http.Env.{Env}
use book_filer_module_http.Response.{writable_ended, body}
use book_filer_module_http.Route.{Handler}
use book_filer_module_http.Route.Shared.{
  update, update_self, update_other, Phase, arrived, combined, calling, testing, answered, Dispatch,
  Shared, world, advance_from, advance, run,
}

module _ (E : Env) where
  open E use {responses}

  -- No dispatch sets its combiner while another has set its own and has not called the signal.
  abbrev pub NoOverlap : List (Handler E) → List ℕ → Shared E → Type 0
  NoOverlap slots [] s = Unit
  NoOverlap slots (i ∷ schedule) s =
      ((s.dispatches i).phase ≡ arrived → (k : ℕ) → (s.dispatches k).phase ≢ combined)
      × NoOverlap slots schedule (advance E slots i s)

  -- What holds of the `k`-th dispatch, where it stands at `p` with the response that is ended or not,
  -- and the combiner of the signal is that of `c`.
  abbrev IsOwn : ℕ → ℕ → Bool → Text → Phase E → Type 0
  IsOwn c k ended text arrived = ended ≡ false
  IsOwn c k ended text combined = (ended ≡ false) × (c ≡ k)
  IsOwn c k ended text (calling j slots v) = (ended ≡ false) × (j ≡ k)
  IsOwn c k ended text (testing j slots v) = j ≡ k
  IsOwn c k ended text (answered v) = ended ≡ true → v ≡ text

  abbrev Owned : ℕ → ℕ → Dispatch E → Type 0
  Owned c k d = IsOwn c k (writable_ended responses d.response) (body responses d.response) d.phase

  abbrev AllOwned : Shared E → Type 0
  AllOwned s = (k : ℕ) → Owned s.combiner k (s.dispatches k)

  -- A step that changes one dispatch.
  update-AllOwned :
      (c i : ℕ) (d : Dispatch E) (f : ℕ → Dispatch E)
      → Owned c i d
      → ((k : ℕ) → i ≢ k → Owned c k (f k))
      → (k : ℕ) → Owned c k (update i d f k)
  update-AllOwned c i d f own others k = elim (Bool-cases (i == k)) [
    | inl e ↦
        subst (λ x. Owned c x (update i d f x)) ((==_iff i k).0 e)
          (subst (Owned c i) (sym (update_self i d f)) own)
    | inr e ↦
        let other : i ≢ k = λ q. cc ((==_iff i k).1 q) in
        subst (Owned c k) (sym (update_other i k d f other)) (others k other)
  ]

  IsOwn-combiner :
      (c i k : ℕ) (ended : Bool) (text : Text) (p : Phase E)
      → p ≢ combined
      → IsOwn c k ended text p
      → IsOwn i k ended text p
  IsOwn-combiner c i k ended text arrived n o = o
  IsOwn-combiner c i k ended text combined n o = absurd (n refl)
  IsOwn-combiner c i k ended text (calling j hs v) n o = o
  IsOwn-combiner c i k ended text (testing j hs v) n o = o
  IsOwn-combiner c i k ended text (answered v) n o = o

  tested-IsOwn :
      (c k : ℕ) (ended : Bool) (text : Text) (hs : List (Handler E)) (v : Text)
      → IsOwn c k ended text (if ended then answered text else calling k hs v)
  tested-IsOwn c k true text hs v = λ e. refl
  tested-IsOwn c k false text hs v = (refl, refl)

  at_phase :
      (i : ℕ) (s : Shared E) (p : Phase E)
      → (s.dispatches i).phase ≡ p
      → AllOwned s
      → IsOwn s.combiner i
          (writable_ended responses (s.dispatches i).response)
          (body responses (s.dispatches i).response)
          p
  at_phase i s p e own =
      subst
        (IsOwn s.combiner i (writable_ended responses (s.dispatches i).response)
          (body responses (s.dispatches i).response))
        e (own i)

  advance_from-AllOwned :
      (slots : List (Handler E)) (i : ℕ) (s : Shared E) (p : Phase E)
      → (s.dispatches i).phase ≡ p
      → (p ≡ arrived → (k : ℕ) → (s.dispatches k).phase ≢ combined)
      → AllOwned s
      → AllOwned (advance_from E p slots i s)
  unfolding advance_from
  advance_from-AllOwned slots i s arrived e n own =
      update-AllOwned i i (record (s.dispatches i) { phase = combined }) s.dispatches
        (at_phase i s arrived e own, refl)
        (λ k other.
          IsOwn-combiner s.combiner i k (writable_ended responses (s.dispatches k).response)
            (body responses (s.dispatches k).response) (s.dispatches k).phase (n refl k) (own k))
  advance_from-AllOwned slots i s combined e n own =
      update-AllOwned s.combiner i (record (s.dispatches i) { phase = calling s.combiner slots [] })
        s.dispatches (at_phase i s combined e own) (λ k other. own k)
  advance_from-AllOwned slots i s (calling j [] v) e n own =
      update-AllOwned s.combiner i (record (s.dispatches i) { phase = answered v }) s.dispatches
        (λ ended. cc ((at_phase i s (calling j [] v) e own).0)) (λ k other. own k)
  advance_from-AllOwned slots i s (calling j (h ∷ hs) v) e n own =
      let w = h (world E (s.dispatches i) s.app) in
      update-AllOwned s.combiner i
        (record { request = w.1.request; response = w.1.response; phase = testing j hs w.0 })
        s.dispatches (at_phase i s (calling j (h ∷ hs) v) e own).1 (λ k other. own k)
  advance_from-AllOwned slots i s (testing j hs v) e n own =
      let same = at_phase i s (testing j hs v) e own in
      let text = body responses (s.dispatches i).response in
      let ended = writable_ended responses (s.dispatches i).response in
      update-AllOwned s.combiner i
        (record (s.dispatches i) {
          phase =
              if writable_ended responses (s.dispatches j).response
              then answered (body responses (s.dispatches j).response)
              else calling j hs v;
        })
        s.dispatches
        (subst
          (λ x. IsOwn s.combiner i ended text (
            if writable_ended responses (s.dispatches x).response
            then answered (body responses (s.dispatches x).response)
            else calling x hs v))
          (sym same) (tested-IsOwn s.combiner i ended text hs v))
        (λ k other. own k)
  advance_from-AllOwned slots i s (answered v) e n own = own

  run-AllOwned :
      (slots : List (Handler E)) (schedule : List ℕ) (s : Shared E)
      → NoOverlap slots schedule s
      → AllOwned s
      → AllOwned (run E slots schedule s)
  unfolding run advance
  run-AllOwned slots [] s n own = own
  run-AllOwned slots (i ∷ schedule) s (first, rest) own =
      run-AllOwned slots schedule (advance E slots i s) rest
        (advance_from-AllOwned slots i s (s.dispatches i).phase refl first own)

  -- When no two dispatches overlap between `set_combiner` and the call, a response that a handler has
  -- ended is the answer of its own dispatch: the text of any answer whose response is ended is the
  -- body of that response.
  pub run_isolated :
      (slots : List (Handler E)) (schedule : List ℕ) (s : Shared E)
      → ((k : ℕ)
          → ((s.dispatches k).phase ≡ arrived)
            × (writable_ended responses (s.dispatches k).response ≡ false))
      → NoOverlap slots schedule s
      → (k : ℕ) (v : Text) → ((run E slots schedule s).dispatches k).phase ≡ answered v
      → writable_ended responses ((run E slots schedule s).dispatches k).response ≡ true
      → v ≡ body responses ((run E slots schedule s).dispatches k).response
  run_isolated slots schedule s fresh n k v e ended =
      at_phase k (run E slots schedule s) (answered v) e
        (run-AllOwned slots schedule s n (λ j.
          subst
            (IsOwn s.combiner j (writable_ended responses (s.dispatches j).response)
              (body responses (s.dispatches j).response))
            (sym (fresh j).0) (fresh j).1))
        ended
