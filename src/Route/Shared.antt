-- ===== src/Route/Shared.antt =====
-- Dispatches of `RouteImpl::doSignal` to one signal from several threads at once. The signal keeps
-- one combiner for all of them: `set_combiner` and the call of the signal are two steps, and the call
-- works with the combiner that it finds at its start. A handler runs as one step, and so does the
-- test behind it together with the reading of the body.
pub mod Alone
pub mod Leak
pub mod Overlap
use book_filer_module_http.Prelude.{
  ℕ, ◌≡◌, refl, ◌≢◌, inl, inr, ==_iff, Bool-cases, arith, Bool, true, false, Option, none, some,
  List, [], ◌∷◌, ◌==◌, Text, if◌then◌else◌,
}
use book_filer_module_http.Env.{Env}
use book_filer_module_http.Request.{RequestImpl}
use book_filer_module_http.Response.{ResponseImpl, writable_ended, body}
use book_filer_module_http.Route.{World, Handler}

unfoldable pub update {ℓ} : {A : Type ℓ} → ℕ → A → (ℕ → A) → ℕ → A
update i a f j = if i == j then a else f j

pub update_self {ℓ} : {A : Type ℓ} (i : ℕ) (a : A) (f : ℕ → A) → update i a f i ≡ a
unfolding update
update_self i a f = ground arith

pub update_other {ℓ} : {A : Type ℓ} (i j : ℕ) (a : A) (f : ℕ → A) → i ≢ j → update i a f j ≡ f j
unfolding update
update_other i j a f n = elim (Bool-cases (i == j)) [
  | inl e ↦ absurd (n ((==_iff i j).0 e))
  | inr e ↦ rw e refl
]

module _ (E : Env) where
  -- Where a dispatch stands: before `set_combiner`; behind it; in the loop of a combiner, before the
  -- next slot or behind one; or behind the call. The number is that of the dispatch whose request
  -- and response the combiner of the call holds.
  pub data Phase : Type 0 where
    arrived combined : Phase
    calling testing : ℕ → List (Handler E) → Text → Phase
    answered : Text → Phase

  pub record Dispatch : Type 0 where
    pub request : RequestImpl E
    pub response : ResponseImpl E.responses
    pub phase : Phase

  -- The combiner that the signal keeps, as the number of the dispatch that set it last.
  pub record Shared : Type 0 where
    pub combiner : ℕ
    pub dispatches : ℕ → Dispatch
    pub app : E.App

  abbrev pub world : Dispatch → E.App → World E
  world d app = record { request = d.request; response = d.response; app = app }

  -- `pathSignal->set_combiner(routeCombiner)`.
  pub set_combiner : ℕ → Shared → Shared
  set_combiner i s = record s {
    combiner = i;
    dispatches = update i (record (s.dispatches i) { phase = combined }) s.dispatches;
  }

  -- `(*pathSignal)(req, res)`, up to the loop of the combiner.
  pub call : List (Handler E) → ℕ → Shared → Shared
  call slots i s = record s {
    dispatches =
        update i (record (s.dispatches i) { phase = calling s.combiner slots [] }) s.dispatches;
  }

  -- `valueLast = *first`: the slot gets the request and the response of its own dispatch.
  pub run_slot : ℕ → ℕ → List (Handler E) → Handler E → Shared → Shared
  run_slot i j slots slot s =
      let (v, w) = slot (world (s.dispatches i) s.app) in
      record s {
        dispatches =
            update i
              (record { request = w.request; response = w.response; phase = testing j slots v })
              s.dispatches;
        app = w.app;
      }

  -- `if (res->writableEnded()) return *(res->body())`, with the response of the combiner.
  pub test_ended : ℕ → ℕ → List (Handler E) → Text → Shared → Shared
  test_ended i j slots v s =
      let res = (s.dispatches j).response in
      record s {
        dispatches =
            update i
              (record (s.dispatches i) {
                phase =
                    if writable_ended E.responses res
                    then answered (body E.responses res)
                    else calling j slots v;
              })
              s.dispatches;
      }

  return_last : ℕ → Text → Shared → Shared
  return_last i v s = record s {
    dispatches = update i (record (s.dispatches i) { phase = answered v }) s.dispatches;
  }

  -- The next step of a dispatch, from where it stands.
  pub advance_from : Phase → List (Handler E) → ℕ → Shared → Shared
  unfolding set_combiner call run_slot test_ended return_last
  advance_from arrived slots i s = set_combiner i s
  advance_from combined slots i s = call slots i s
  advance_from (calling j [] v) slots i s = return_last i v s
  advance_from (calling j (slot ∷ rest) v) slots i s = run_slot i j rest slot s
  advance_from (testing j rest v) slots i s = test_ended i j rest v s
  advance_from (answered v) slots i s = s

  unfoldable pub advance : List (Handler E) → ℕ → Shared → Shared
  unfolding advance_from
  advance slots i s = advance_from (s.dispatches i).phase slots i s

  -- A schedule names the dispatch that moves next.
  unfoldable pub run : List (Handler E) → List ℕ → Shared → Shared
  run slots [] s = s
  run slots (i ∷ schedule) s = run slots schedule (advance slots i s)
