-- ===== src/Module/Loader/Settings.antt =====
-- The settings with which a program starts.
use book_filer_module_http.Prelude.{
  zero, suc, ◌≡◌, refl, inl, inr, Outcome-cases, Option, some, List, [], ◌∷◌, Outcome, returns,
  ◌>>=◌,
}
use book_filer_module_http.Env.{Env}
use book_filer_module_http.Json.{JsonLib}
use book_filer_module_http.Server.{AddressLib}
use book_filer_module_http.Certificate.{OpenSsl}
use book_filer_module_http.Module.{
  accounts_callback, settings_callback, ModuleExport, register_settings, set_accounts, set_settings,
}
use book_filer_module_http.Module.Loader.{
  Registration, load, load_all, Deployed, on_load, update_module, deploy, module_at, current,
  on_load_all, load_modules, load_module,
}

module _ (E : Env) (J : JsonLib) (N : AddressLib) (O : OpenSsl) where
  -- The document that a module has after the calls: the last one that its number got, or else the one
  -- that it had.
  unfoldable pub last_settings : List (Deployed E J N O) → Option J.Value → Option J.Value
  last_settings [] doc = doc
  last_settings ((zero, settings_callback, v) ∷ calls) doc = last_settings calls (some v)
  last_settings ((n, callback, v) ∷ calls) doc = last_settings calls doc

  unfoldable pub last_accounts : List (Deployed E J N O) → Option J.Value → Option J.Value
  last_accounts [] doc = doc
  last_accounts ((zero, accounts_callback, v) ∷ calls) doc = last_accounts calls (some v)
  last_accounts ((n, callback, v) ∷ calls) doc = last_accounts calls doc

  abbrev pub with_docs : List (Deployed E J N O) → ModuleExport E J N O → ModuleExport E J N O
  with_docs calls m = record {
    settings_doc = last_settings calls m.settings_doc;
    accounts_doc = last_accounts calls m.accounts_doc;
  }

  deploy-alone :
      (calls : List (Deployed E J N O)) (m : ModuleExport E J N O)
      → deploy E J N O calls (m ∷ []) ≡ with_docs calls m ∷ []
  unfolding deploy update_module last_settings last_accounts set_accounts set_settings
  deploy-alone [] m = refl
  deploy-alone ((zero, settings_callback, v) ∷ calls) m =
      deploy-alone calls (set_settings E J N O (some v) m).0
  deploy-alone ((zero, accounts_callback, v) ∷ calls) m =
      deploy-alone calls (set_accounts E J N O (some v) m).0
  deploy-alone ((suc n, settings_callback, v) ∷ calls) m = deploy-alone calls m
  deploy-alone ((suc n, accounts_callback, v) ∷ calls) m = deploy-alone calls m

  -- What the settings manager has when one module is loaded.
  abbrev pub registered : Registration
  registered = record {
    owner = 0;
    members = (register_settings E J N O).0;
    callbacks = (register_settings E J N O).1;
  }

  module _ (deploys : List Registration → List (Deployed E J N O)) {A : Type 0}
      (all_modules_loaded : Option (ModuleExport E J N O) → Outcome A) where
    -- When one module is loaded and then all are, the program runs once, and the module that it has
    -- carries, for settings and for accounts, the last document that was deployed to its callback; what
    -- was registered is what the settings manager was given.
    pub load_module_deploys :
        (m : ModuleExport E J N O)
        → let calls = deploys (registered ∷ []) in
          load_module E J N O deploys all_modules_loaded (load m ∷ load_all ∷ []) ≡ (
            all_modules_loaded (some (with_docs calls m)) >>= λ a. returns (
              record {
                modules = with_docs calls m ∷ [];
                module_number = some 0;
                merged = registered ∷ [];
              },
              a ∷ [],
            ))
    unfolding load_module load_modules on_load on_load_all current module_at
    load_module_deploys m =
        let calls = deploys (registered ∷ []) in
        rw (deploy-alone calls m)
          (elim (Outcome-cases (all_modules_loaded (some (with_docs calls m)))) [
            | inl (a, e) ↦ rw e refl
            | inr (inl e) ↦ rw e refl
            | inr (inr e) ↦ rw e refl
          ])
