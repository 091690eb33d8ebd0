-- ===== src/Examples/JsonClient.antt =====
-- The program src_example/http-client-json/main.cpp, up to its wait. Printing is left out.
use book_filer_module_http.Prelude.{
  Option, none, some, List, [], ◌∷◌, Text, codes, if◌then◌else◌, Outcome, returns, ◌>>=◌,
}
use book_filer_module_http.Prelude.Int.{ℤ, pos, ltb_ℤ, success, failure}
use book_filer_module_http.Env.{Env}
use book_filer_module_http.Variant.{Variant, string}
use book_filer_module_http.Json.{JsonLib}
use book_filer_module_http.Server.{AddressLib}
use book_filer_module_http.Certificate.{OpenSsl}
use book_filer_module_http.Client
use book_filer_module_http.Client.{Network, ClientImpl}
use book_filer_module_http.Module.{ModuleExport, new_client_of_options}
use book_filer_module_http.Module.Waiting.{ConditionVariableMap, wait}

-- How `allModulesLoaded` goes on: it returns a code, or it waits for the end with a document.
pub data Fetched (V : Type 0) : Type 0 where
  fetch_returns : ℤ → Fetched V
  fetch_waits : V → ConditionVariableMap → Fetched V

module _ (E : Env) (J : JsonLib) (N : AddressLib) (O : OpenSsl) (m : ModuleExport E J N O)
    (net : Network E) (parse_json : Text → Option J.Value) where
  abbrev pub json_options : List (Text × Variant)
  json_options =
      (codes "host", string (codes "data.nba.net"))
      ∷ (codes "method", string (codes "GET"))
      ∷ (codes "path", string (codes "/prod/v1/20170201/0021600732_boxscore.json"))
      ∷ (codes "scheme", string (codes "http"))
      ∷ []

  unfoldable fetched : ClientImpl E J × ℤ → Fetched J.Value
  fetched (c, rc) =
      if ltb_ℤ rc (pos 0) then fetch_returns failure else elim (Client.get_response_json E J c) [
        | none ↦ fetch_returns success
        | some doc ↦ fetch_waits doc (wait 0 (codes "exit") [])
      ]

  -- `allModulesLoaded`: the main thread is number 0.
  unfoldable pub fetch_json : Outcome (Fetched J.Value)
  unfolding fetched
  fetch_json = do
    c ← new_client_of_options E J N O json_options m
    done ← Client.end E J net parse_json (Client.set_method E J (codes "GET") c).0
    returns (fetched done)
