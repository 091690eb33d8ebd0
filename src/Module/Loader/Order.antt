-- ===== src/Module/Loader/Order.antt =====
-- When the program's pointer leads to a module.
use book_filer_module_http.Prelude.{
  ℕ, zero, suc, ◌≡◌, refl, inl, inr, Outcome-cases, Option, none, some, List, [], ◌∷◌, ◌++◌, length,
  Outcome, undefined,
}
use book_filer_module_http.Env.{Env}
use book_filer_module_http.Json.{JsonLib}
use book_filer_module_http.Server.{AddressLib}
use book_filer_module_http.Certificate.{OpenSsl}
use book_filer_module_http.Module.{ModuleExport}
use book_filer_module_http.Module.Loader.{
  Registration, Signal, load, load_all, Deployed, Loading, nothing_loaded, on_load, call_back,
  update_module, deploy, module_at, current, on_load_all, load_modules, load_module,
}

module _ (E : Env) (J : JsonLib) (N : AddressLib) (O : OpenSsl) where
  -- A number under which there is a module.
  abbrev At : ℕ → List (ModuleExport E J N O) → Type 0
  At n modules = (m : ModuleExport E J N O) × (module_at E J N O n modules ≡ some m)

  At-snoc :
      (modules : List (ModuleExport E J N O)) (m : ModuleExport E J N O)
      → module_at E J N O (length modules) (modules ++ m ∷ []) ≡ some m
  unfolding module_at
  At-snoc [] m = refl
  At-snoc (x ∷ modules) m = At-snoc modules m

  At-update_module :
      (n k : ℕ) (f : ModuleExport E J N O → ModuleExport E J N O)
      (modules : List (ModuleExport E J N O))
      → At n modules
      → At n (update_module E J N O k f modules)
  unfolding module_at update_module
  At-update_module n k f [] (m, e) = (m, e)
  At-update_module zero zero f (x ∷ modules) a = (f x, refl)
  At-update_module zero (suc k) f (x ∷ modules) a = a
  At-update_module (suc n) zero f (x ∷ modules) a = a
  At-update_module (suc n) (suc k) f (x ∷ modules) a = At-update_module n k f modules a

  At-deploy :
      (n : ℕ) (calls : List (Deployed E J N O)) (modules : List (ModuleExport E J N O))
      → At n modules
      → At n (deploy E J N O calls modules)
  unfolding deploy
  At-deploy n [] modules a = a
  At-deploy n ((k, callback, doc) ∷ calls) modules a =
      At-deploy n calls (update_module E J N O k (call_back E J N O callback doc) modules)
        (At-update_module n k (call_back E J N O callback doc) modules a)

  -- A state in which the pointer leads to a module.
  pub record IsLoaded (s : Loading E J N O) : Type 0 where
    pub number : ℕ
    is_number : s.module_number ≡ some number
    pub there : At number s.modules

  on_load-IsLoaded :
      (m : ModuleExport E J N O) (s : Loading E J N O) → IsLoaded (on_load E J N O m s)
  unfolding on_load
  on_load-IsLoaded m s = record {
    number = length s.modules;
    is_number = refl;
    there = (m, At-snoc s.modules m);
  }

  on_load_all-IsLoaded :
      (deploys : List Registration → List (Deployed E J N O)) (s : Loading E J N O)
      → IsLoaded s
      → (m : ModuleExport E J N O) × (current E J N O
            (record s { modules = deploy E J N O (deploys s.merged) s.modules })
          ≡ some m)
        × IsLoaded (record s { modules = deploy E J N O (deploys s.merged) s.modules })
  unfolding current
  on_load_all-IsLoaded deploys s loaded =
      let (m, e) = At-deploy loaded.number (deploys s.merged) s.modules loaded.there in
      (
        m,
        rw (loaded.is_number, e) refl,
        record { number = loaded.number; is_number = loaded.is_number; there = (m, e) },
      )

  module _ (deploys : List Registration → List (Deployed E J N O)) {A : Type 0}
      (f g : Option (ModuleExport E J N O) → Outcome A) where
    load_modules-same :
        ((m : ModuleExport E J N O) → f (some m) ≡ g (some m))
        → (signals : List (Signal E J N O)) (s : Loading E J N O) → IsLoaded s
        → load_modules E J N O deploys f signals s ≡ load_modules E J N O deploys g signals s
    unfolding load_modules on_load_all
    load_modules-same same [] s loaded = refl
    load_modules-same same (load m ∷ signals) s loaded =
        load_modules-same same signals (on_load E J N O m s) (on_load-IsLoaded m s)
    load_modules-same same (load_all ∷ signals) s loaded =
        let (m, at, loaded') = on_load_all-IsLoaded deploys s loaded in
        let s' = record s { modules = deploy E J N O (deploys s.merged) s.modules } in
        let rest = load_modules-same same signals s' loaded' in
        rw at (
          rw (same m) (elim (Outcome-cases (g (some m))) [
            | inl (a, e) ↦ rw e (rw rest refl)
            | inr (inl e) ↦ rw e refl
            | inr (inr e) ↦ rw e refl
          ]))

    -- Once a module was loaded, no program is called with a null pointer again, whatever signals
    -- follow and whatever is deployed: two programs that do the same with every module, and may
    -- differ on the null pointer, give the same. When the signal for all comes first, the program is
    -- called with the null pointer, and one that follows it has no defined behaviour.
    pub load_module_cases :
        ((m : ModuleExport E J N O) → f (some m) ≡ g (some m))
        → f none ≡ undefined
        → (m : ModuleExport E J N O) (signals : List (Signal E J N O))
        → (load_module E J N O deploys f (load m ∷ signals)
            ≡ load_module E J N O deploys g (load m ∷ signals))
          × (load_module E J N O deploys f (load_all ∷ signals) ≡ undefined)
    unfolding load_module load_modules on_load_all current
    load_module_cases same null m signals = (
      load_modules-same same signals (on_load E J N O m (nothing_loaded E J N O))
          (on_load-IsLoaded m (nothing_loaded E J N O)),
      rw null refl,
    )
