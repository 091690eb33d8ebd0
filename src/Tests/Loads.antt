-- ===== src/Tests/Loads.antt =====
-- The settings of the tests on whole programs, and the theorems on their start at concrete inputs.
use book_filer_module_http.Prelude.{
  ◌≡◌, refl, inr, Bool, true, Option, none, some, List, [], ◌∷◌, codes, text_compare, Outcome,
  returns, throws, undefined, ◌>>=◌,
}
use book_filer_module_http.Prelude.Int.{pos}
use book_filer_module_http.Json.{server_member, get_member_string}
use book_filer_module_http.Module.Loader.{Registration, Deployed, load, load_all, load_module}
use book_filer_module_http.Module.Loader.Settings.{
  registered, with_docs, last_settings, load_module_deploys,
}
use book_filer_module_http.Module.Loader.Order.{load_module_cases}
use book_filer_module_http.Certificate.Options.{int_literal, string_literal}
use book_filer_module_http.Certificate.Files.{PemFiles, CertPaths, read_paths}
use book_filer_module_http.Server.Certificate.{SslCall}
use book_filer_module_http.Module.{ModuleExport}
use book_filer_module_http.Examples.{Application, main, called_back}
use book_filer_module_http.Examples.Start.{unreadable_main_breaks}
use book_filer_module_http.Examples.Pages.{minimal_routes}
use book_filer_module_http.Tests.Libraries.{
  libraries, json, JsonValue, object, nested, open_ssl, ip_addresses, signals,
}
use book_filer_module_http.Module.{settings_callback}

abbrev server_settings : JsonValue
server_settings = object (
    (codes "address", string_literal (codes "0.0.0.0"))
    ∷ (codes "docRoot", string_literal (codes "/srv"))
    ∷ (codes "port", int_literal (pos 8081))
    ∷ (codes "threadNum", int_literal (pos 4))
    ∷ (codes "certPath", string_literal (codes "c.pem"))
    ∷ (codes "privateKeyPath", string_literal (codes "k.pem"))
    ∷ (codes "dhKeyPath", string_literal (codes "d.pem"))
    ∷ [])

abbrev pub settings : JsonValue
settings = nested (codes "server") server_settings

abbrev pub module_export : ModuleExport libraries json ip_addresses open_ssl
module_export = record { settings_doc = some settings; accounts_doc = none }

abbrev pub files : PemFiles
files = record { x509_in = λ p. some 1; private_key_in = λ p. some 2; dh_in = λ p. some 3 }

abbrev files_without_dh : PemFiles
files_without_dh = record files { dh_in = λ p. none }

abbrev pub takes_all : SslCall → Bool
takes_all call = true

abbrev cert_paths : CertPaths json files_without_dh
cert_paths = record {
  cert_path = codes "c.pem";
  private_key_path = codes "k.pem";
  dh_key_path = codes "d.pem";
}

settings-server : server_member json settings ≡ some server_settings
unfolding server_member text_compare
settings-server = refl

settings-paths : read_paths json files_without_dh server_settings ≡ returns cert_paths
unfolding read_paths text_compare get_member_string
settings-paths = refl

-- A settings manager that gives every module the settings.
abbrev deploy_settings : List Registration → List (Deployed libraries json ip_addresses open_ssl)
deploy_settings [] = []
deploy_settings (r ∷ rs) = (r.owner, settings_callback, settings) ∷ deploy_settings rs

abbrev new_module : ModuleExport libraries json ip_addresses open_ssl
new_module = record { settings_doc = none; accounts_doc = none }

settings-deployed :
    last_settings libraries json ip_addresses open_ssl
      (deploy_settings (registered libraries json ip_addresses open_ssl ∷ []))
      none
    ≡ some settings
unfolding last_settings
settings-deployed = refl

unreadable_main_breaks_example :
    main libraries signals json ip_addresses open_ssl files_without_dh takes_all 8 deploy_settings
      (minimal_routes libraries signals)
      (load new_module ∷ load_all ∷ [])
    ≡ undefined
unreadable_main_breaks_example =
    unreadable_main_breaks libraries signals json ip_addresses open_ssl files_without_dh takes_all 8
      deploy_settings (minimal_routes libraries signals) new_module settings server_settings
      cert_paths settings-deployed settings-server settings-paths (inr (inr refl))

-- A program that shows the settings of its module, which it looks for.
abbrev show_settings :
    Option (ModuleExport libraries json ip_addresses open_ssl) → Outcome (Option JsonValue)
show_settings none = returns none
show_settings (some m) = returns m.settings_doc

load_module_deploys_example :
    load_module libraries json ip_addresses open_ssl deploy_settings show_settings
      (load new_module ∷ load_all ∷ [])
    ≡ (show_settings (
          some (
            with_docs libraries json ip_addresses open_ssl
              (deploy_settings (registered libraries json ip_addresses open_ssl ∷ []))
              new_module))
        >>= λ a. returns (
          record {
            modules =
                with_docs libraries json ip_addresses open_ssl
                  (deploy_settings (registered libraries json ip_addresses open_ssl ∷ []))
                  new_module
                ∷ [];
            module_number = some 0;
            merged = registered libraries json ip_addresses open_ssl ∷ [];
          },
          a ∷ [],
        ))
load_module_deploys_example =
    load_module_deploys libraries json ip_addresses open_ssl deploy_settings show_settings
      new_module

abbrev TestProgram : Type 0
TestProgram =
    Option (ModuleExport libraries json ip_addresses open_ssl)
    → Outcome (Application libraries signals json ip_addresses)

-- What http-server-minimal gives to `loadModule`, and a variant of it that looks at the pointer.
abbrev minimal : TestProgram
minimal =
    called_back libraries signals json ip_addresses open_ssl files takes_all 8
      (minimal_routes libraries signals)

abbrev careful : TestProgram
careful none = throws
careful (some m) = minimal (some m)

minimal-null : minimal none ≡ undefined
unfolding called_back
minimal-null = refl

load_module_cases_example :
    (load_module libraries json ip_addresses open_ssl deploy_settings minimal
        (load new_module ∷ load_all ∷ load new_module ∷ [])
      ≡ load_module libraries json ip_addresses open_ssl deploy_settings careful
          (load new_module ∷ load_all ∷ load new_module ∷ []))
    × (load_module libraries json ip_addresses open_ssl deploy_settings minimal
          (load_all ∷ load_all ∷ load new_module ∷ [])
        ≡ undefined)
load_module_cases_example =
    load_module_cases libraries json ip_addresses open_ssl deploy_settings minimal careful
      (λ m. refl) minimal-null new_module (load_all ∷ load new_module ∷ [])
