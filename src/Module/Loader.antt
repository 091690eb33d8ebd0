-- ===== src/Module/Loader.antt =====
-- `loadModule` of include/BookFilerModuleHttpLoader.hpp: what it does when the module manager signals
-- that a module is there, and that all are. The managers of modules and of settings are libraries.
pub mod Order
pub mod Settings
use book_filer_module_http.Prelude.{
  ℕ, zero, suc, ◌+◌, Option, none, some, List, [], ◌∷◌, ◌++◌, length, Text, Outcome, returns, ◌>>=◌,
}
use book_filer_module_http.Env.{Env}
use book_filer_module_http.Json.{JsonLib}
use book_filer_module_http.Server.{AddressLib}
use book_filer_module_http.Certificate.{OpenSsl}
use book_filer_module_http.Module.{
  Callback, accounts_callback, settings_callback, ModuleExport, register_settings, set_accounts,
  set_settings,
}

-- What a module gave to the settings manager: its number, and what `registerSettings` filled.
pub record Registration : Type 0 where
  pub owner : ℕ
  pub members : List (Text × Text)
  pub callbacks : List (Text × Callback)

module _ (E : Env) (J : JsonLib) (N : AddressLib) (O : OpenSsl) where
  -- A signal of the module manager.
  pub data Signal : Type 0 where
    load : ModuleExport E J N O → Signal
    load_all : Signal

  -- A call that the settings manager makes: of which module, which callback, with which document.
  abbrev pub Deployed : Type 0
  Deployed = ℕ × Callback × J.Value

  -- The modules by their numbers, the one that the program's pointer leads to, and what was merged.
  pub record Loading : Type 0 where
    pub modules : List (ModuleExport E J N O)
    pub module_number : Option ℕ
    pub merged : List Registration

  abbrev pub nothing_loaded : Loading
  nothing_loaded = record { modules = []; module_number = none; merged = [] }

  -- The slot of the module's signal. `init` only prints.
  unfoldable pub on_load : ModuleExport E J N O → Loading → Loading
  on_load m s =
      let n = length s.modules in
      let registered = register_settings E J N O in
      record s {
        modules = s.modules ++ m ∷ [];
        module_number = some n;
        merged =
            s.merged ++ record { owner = n; members = registered.0; callbacks = registered.1 } ∷ [];
      }

  abbrev pub call_back : Callback → J.Value → ModuleExport E J N O → ModuleExport E J N O
  call_back accounts_callback doc m = (set_accounts E J N O (some doc) m).0
  call_back settings_callback doc m = (set_settings E J N O (some doc) m).0

  unfoldable pub update_module :
      ℕ
      → (ModuleExport E J N O → ModuleExport E J N O)
      → List (ModuleExport E J N O)
      → List (ModuleExport E J N O)
  update_module n f [] = []
  update_module zero f (m ∷ modules) = f m ∷ modules
  update_module (suc n) f (m ∷ modules) = m ∷ update_module n f modules

  -- `deployFile`, as the calls that it makes.
  unfoldable pub deploy : List Deployed → List (ModuleExport E J N O) → List (ModuleExport E J N O)
  unfolding update_module
  deploy [] modules = modules
  deploy ((n, callback, doc) ∷ calls) modules =
      deploy calls (update_module n (call_back callback doc) modules)

  unfoldable pub module_at : ℕ → List (ModuleExport E J N O) → Option (ModuleExport E J N O)
  module_at n [] = none
  module_at zero (m ∷ modules) = some m
  module_at (suc n) (m ∷ modules) = module_at n modules

  -- The program's pointer, which is null until a module was loaded.
  unfoldable pub current : Loading → Option (ModuleExport E J N O)
  unfolding module_at
  current s = elim s.module_number [ none ↦ none | some n ↦ module_at n s.modules ]

  module _ (deploys : List Registration → List Deployed) {A : Type 0}
      (all_modules_loaded : Option (ModuleExport E J N O) → Outcome A) where
    -- The slot of the signal for all: the settings are deployed, and the program is called back. The
    -- program has the pointer, null or not.
    unfoldable pub on_load_all : Loading → Outcome (Loading × A)
    unfolding deploy current
    on_load_all s = do
      let s' = record s { modules = deploy (deploys s.merged) s.modules }
      a ← all_modules_loaded (current s')
      returns (s', a)

    -- `loadModules`, for the signals that the module manager gives in its course.
    unfoldable pub load_modules : List Signal → Loading → Outcome (Loading × List A)
    unfolding on_load on_load_all
    load_modules [] s = returns (s, [])
    load_modules (load m ∷ signals) s = load_modules signals (on_load m s)
    load_modules (load_all ∷ signals) s = do
      called ← on_load_all s
      done ← load_modules signals called.0
      returns (done.0, called.1 ∷ done.1)

    -- `loadModule`.
    unfoldable pub load_module : List Signal → Outcome (Loading × List A)
    unfolding load_modules
    load_module signals = load_modules signals nothing_loaded
