-- ===== src/Listener.antt =====
-- `Listener::run` of src/core/ServerListener.cpp. Its state is `connectionList` of `ServerState`
-- (src/core/ServerState.hpp), in which a connection stands for the socket that it was made of.
pub mod Accepting
use book_filer_module_http.Prelude.{Bool, true, false, List, [], ◌∷◌, ◌++◌, if◌then◌else◌}
use book_filer_module_http.Prelude.Int.{ℤ, failure}

-- The calls that set the acceptor up.
pub data Setup : Type 0 where
  open_acceptor set_option bind listen : Setup

abbrev pub setups : List Setup
setups = open_acceptor ∷ set_option ∷ bind ∷ listen ∷ []

-- What `async_accept` comes back with.
pub data Accept (Socket : Type 0) : Type 0 where
  accepted : Socket → Accept Socket
  accept_error : Accept Socket

-- `run` returns only from the set-up; behind it, it waits for the next connection.
pub data ListenerEnd : Type 0 where
  returned : ℤ → ListenerEnd
  accepting : ListenerEnd

module _ (Socket : Type 0) where
  pub record Listening : Type 0 where
    pub attempted : List Setup
    pub connection_list : List Socket
    pub spawned : List Socket
    pub ending : ListenerEnd

  -- The loop, on the answers of `async_accept` so far.
  unfoldable pub accept_loop : List (Accept Socket) → Listening → Listening
  accept_loop [] l = record l { ending = accepting }
  accept_loop (accept_error ∷ answers) l = accept_loop answers l
  accept_loop (accepted s ∷ answers) l =
      accept_loop answers
        (record l { connection_list = l.connection_list ++ s ∷ []; spawned = l.spawned ++ s ∷ [] })

  -- Each call of the set-up, and `return -1` where it fails.
  unfoldable pub set_up : (Setup → Bool) → List Setup → List (Accept Socket) → Listening → Listening
  unfolding accept_loop
  set_up succeeds [] answers l = accept_loop answers l
  set_up succeeds (call ∷ calls) answers l =
      let tried = record l { attempted = l.attempted ++ call ∷ [] } in
      let rest = set_up succeeds calls answers tried in
      if succeeds call then rest else record tried { ending = returned failure }

  unfoldable pub run : (Setup → Bool) → List (Accept Socket) → List Socket → Listening
  unfolding set_up
  run succeeds answers connections =
      set_up succeeds setups answers
        (record { attempted = []; connection_list = connections; spawned = []; ending = accepting })
