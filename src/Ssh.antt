-- ===== src/Ssh.antt =====
-- `ModuleExport` of src/SshModule.hpp and src/SshModule.cpp. The servers and the client that it makes
-- are not in the repository, and are a record of operations.
use book_filer_module_http.Prelude.{
  ℕ, ◌≡◌, refl, Option, List, [], ◌∷◌, Text, codes, Outcome, returns, ◌>>=◌,
}
use book_filer_module_http.Prelude.Int.{ℤ, success}
use book_filer_module_http.Variant.{Variant}
use book_filer_module_http.Module.{Callback, accounts_callback, settings_callback}
use book_filer_module_http.Module.Waiting
use book_filer_module_http.Module.Waiting.{
  ConditionVariableMap, Event, waits, notifies, spurious, wait, notify, unblock, step,
}

-- An object that is made from options and then gets the settings, whose documents are of type `D`.
pub record Made (D : Type 0) : Type 1 where
  Object : Type 0
  construct : List (Text × Variant) → Outcome Object
  pub set_settings_doc : Option D → Object → Object

module _ {D : Type 0} (forwarding tunnel client : Made D) {Global : Type 0}
    (new_global : Global) where
  pub record SshExport : Type 0 where
    pub settings_doc : Option D
    pub accounts_doc : Option D
    condition_variables : ConditionVariableMap

  -- `registerSettings` uses the names of the HTTP module.
  unfoldable register_ssh_settings : List (Text × Text) × List (Text × Callback)
  register_ssh_settings = (
    (codes "HTTP_accounts", codes "HTTP_accountsCB")
        ∷ (codes "HTTP_settings", codes "HTTP_settingsCB")
        ∷ [],
    (codes "HTTP_accountsCB", accounts_callback)
        ∷ (codes "HTTP_settingsCB", settings_callback)
        ∷ [],
  )

  unfoldable set_ssh_accounts : Option D → SshExport → SshExport × ℤ
  set_ssh_accounts doc m = (record m { accounts_doc = doc }, success)

  unfoldable set_ssh_settings : Option D → SshExport → SshExport × ℤ
  set_ssh_settings doc m = (record m { settings_doc = doc }, success)

  unfoldable new_port_forwarding : List (Text × Variant) → SshExport → Outcome forwarding.Object
  new_port_forwarding map m = do
    made ← forwarding.construct map
    returns (forwarding.set_settings_doc m.settings_doc made)

  unfoldable new_tunnel_server : List (Text × Variant) → SshExport → Outcome tunnel.Object
  new_tunnel_server map m = do
    made ← tunnel.construct map
    returns (tunnel.set_settings_doc m.settings_doc made)

  unfoldable new_ssh_client : List (Text × Variant) → SshExport → Outcome client.Object
  new_ssh_client map m = do
    made ← client.construct map
    returns (client.set_settings_doc m.settings_doc made)

  unfoldable new_ssh_global : SshExport → Global
  new_ssh_global m = new_global

  unfoldable wait_ssh : ℕ → Text → SshExport → SshExport
  wait_ssh thread handle m = record m {
    condition_variables = wait thread handle m.condition_variables;
  }

  unfoldable notify_ssh : ℕ → Text → SshExport → SshExport
  notify_ssh choice handle m = record m {
    condition_variables = notify choice handle m.condition_variables;
  }

  -- A step of the threads that use the module. A thread that goes on by itself calls nothing.
  unfoldable step_ssh : Event → SshExport → SshExport
  unfolding wait_ssh notify_ssh
  step_ssh (waits thread handle) m = wait_ssh thread handle m
  step_ssh (notifies choice handle) m = notify_ssh choice handle m
  step_ssh (spurious choice handle) m = record m {
    condition_variables = unblock choice handle m.condition_variables;
  }

  unfoldable run_ssh : List Event → SshExport → SshExport
  unfolding step_ssh
  run_ssh [] m = m
  run_ssh (e ∷ es) m = run_ssh es (step_ssh e m)

  -- The module waits and notifies as the HTTP module does, and keeps its documents meanwhile.
  run_ssh_lem :
      (es : List Event) (m : SshExport)
      → run_ssh es m ≡ record m { condition_variables = Waiting.run es m.condition_variables }
  unfolding run_ssh Waiting.run step
  run_ssh_lem [] m = refl
  run_ssh_lem (waits t h ∷ es) m = run_ssh_lem es (step_ssh (waits t h) m)
  run_ssh_lem (notifies c h ∷ es) m = run_ssh_lem es (step_ssh (notifies c h) m)
  run_ssh_lem (spurious c h ∷ es) m = run_ssh_lem es (step_ssh (spurious c h) m)
