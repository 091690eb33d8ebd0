-- ===== src/Module.antt =====
-- `ModuleExport` of src/Module.hpp and src/Module.cpp: the settings, and the objects that are made
-- with them.
pub mod Waiting
pub mod Loader
use book_filer_module_http.Prelude.{Option, List, [], ◌∷◌, Text, codes, Outcome, returns, ◌>>=◌}
use book_filer_module_http.Prelude.Int.{ℤ, success}
use book_filer_module_http.Variant.{Variant}
use book_filer_module_http.Json.{JsonLib}
use book_filer_module_http.Env.{Env}
use book_filer_module_http.Url
use book_filer_module_http.Server
use book_filer_module_http.Server.{AddressLib}
use book_filer_module_http.Client
use book_filer_module_http.Template
use book_filer_module_http.Template.{MustacheLib, TemplateImpl}
use book_filer_module_http.Certificate.{OpenSsl}
use book_filer_module_http.Certificate.Manager

-- The callbacks that the module registers.
pub data Callback : Type 0 where
  accounts_callback settings_callback : Callback

module _ (E : Env) (J : JsonLib) (N : AddressLib) (O : OpenSsl) where
  pub record ModuleExport : Type 0 where
    pub settings_doc : Option J.Value
    pub accounts_doc : Option J.Value

  -- The members of the request, and the callbacks by name.
  unfoldable pub register_settings : List (Text × Text) × List (Text × Callback)
  register_settings = (
    (codes "HTTP_accounts", codes "HTTP_accountsCB")
        ∷ (codes "HTTP_settings", codes "HTTP_settingsCB")
        ∷ [],
    (codes "HTTP_accountsCB", accounts_callback)
        ∷ (codes "HTTP_settingsCB", settings_callback)
        ∷ [],
  )

  unfoldable pub set_accounts : Option J.Value → ModuleExport → ModuleExport × ℤ
  set_accounts doc m = (record m { accounts_doc = doc }, success)

  unfoldable pub set_settings : Option J.Value → ModuleExport → ModuleExport × ℤ
  set_settings doc m = (record m { settings_doc = doc }, success)

  -- Both `newClient`.
  unfoldable pub new_client : ModuleExport → Client.ClientImpl E J
  new_client m = (Client.set_settings_doc E J m.settings_doc (Client.new_client E J)).0

  unfoldable pub new_client_of_options :
      List (Text × Variant) → ModuleExport → Outcome (Client.ClientImpl E J)
  new_client_of_options map m = do
    c ← Client.client_of_options E J map
    returns (Client.set_settings_doc E J m.settings_doc c).0

  unfoldable pub new_url : List (Text × Variant) → Outcome (Url.UrlImpl E.urls)
  new_url map = Url.url_of_options E.urls map

  -- The options are not looked at.
  unfoldable pub new_server : List (Text × Variant) → ModuleExport → Server.ServerImpl J N
  new_server map m = (Server.set_settings_doc J N m.settings_doc (Server.new_server J N)).0

  unfoldable pub new_certificate_manager : ModuleExport → Manager.ManagerImpl J O
  new_certificate_manager m =
      (Manager.set_settings_doc J O m.settings_doc (Manager.new_manager J O)).0

  unfoldable pub new_template : (M : MustacheLib) → ModuleExport → TemplateImpl M J.Value
  new_template M m =
      (Template.set_settings_doc M J.Value m.settings_doc (Template.new_template M J.Value)).0
