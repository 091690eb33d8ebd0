-- ===== src/Listener/Accepting.antt =====
-- The connections of a listener.
use book_filer_module_http.Prelude.{
  ◌≡◌, refl, sym, ◌∙◌, ap, Bool, true, false, List, [], ◌∷◌, ◌++◌, append-nil, append_assoc, All,
}
use book_filer_module_http.Prelude.Int.{failure}
use book_filer_module_http.Listener.{
  Setup, setups, open_acceptor, set_option, bind, listen, Accept, accepted, accept_error, Listening,
  accepting, returned, accept_loop, set_up, run,
}

module _ (Socket : Type 0) where
  -- The sockets of the answers that are not errors, in their order.
  abbrev pub sockets : List (Accept Socket) → List Socket
  sockets [] = []
  sockets (accepted s ∷ answers) = s ∷ sockets answers
  sockets (accept_error ∷ answers) = sockets answers

  accept_loop_lem :
      (answers : List (Accept Socket)) (l : Listening Socket)
      → accept_loop Socket answers l ≡ record l {
        connection_list = l.connection_list ++ sockets answers;
        spawned = l.spawned ++ sockets answers;
        ending = accepting;
      }
  unfolding accept_loop
  accept_loop_lem [] l = simp (append-nil)
  accept_loop_lem (accept_error ∷ answers) l = accept_loop_lem answers l
  accept_loop_lem (accepted s ∷ answers) l =
      rw
        (accept_loop_lem answers (record l {
          connection_list = l.connection_list ++ s ∷ [];
          spawned = l.spawned ++ s ∷ [];
        }))
        (simp (append_assoc))

  -- If the four calls of the set-up succeed, then `run` does not return, whatever errors
  -- `async_accept` gives: every accepted socket, and no other, is spawned once, in the order in which
  -- they came, and is added to the connections of the server, none of which is ever taken out.
  pub run_lem :
      (succeeds : Setup → Bool) (answers : List (Accept Socket)) (connections : List Socket)
      → ((call : Setup) → succeeds call ≡ true)
      → run Socket succeeds answers connections ≡ record {
        attempted = setups;
        connection_list = connections ++ sockets answers;
        spawned = sockets answers;
        ending = accepting;
      }
  unfolding run set_up
  run_lem succeeds answers connections h =
      rw (h open_acceptor)
        (rw (h set_option) (rw (h bind) (rw (h listen) (accept_loop_lem answers _))))

  set_up_fails :
      (succeeds : Setup → Bool) (answers : List (Accept Socket)) (before after : List Setup)
      (call : Setup) (l : Listening Socket)
      → All (λ c. succeeds c ≡ true) before
      → succeeds call ≡ false
      → set_up Socket succeeds (before ++ call ∷ after) answers l
        ≡ record l { attempted = l.attempted ++ (before ++ call ∷ []); ending = returned failure }
  unfolding set_up
  set_up_fails succeeds answers [] after call l h f = rw f refl
  set_up_fails succeeds answers (c ∷ before) after call l (s, h) f = rw s (
      rw
        (set_up_fails succeeds answers before after call
          (record l { attempted = l.attempted ++ c ∷ [] }) h f)
        (simp (append_assoc)))

  -- If a call of the set-up fails and those before it succeed, then `run` returns -1 with the
  -- connections that it found, and spawns none; the calls behind it are not made.
  run_fails :
      (succeeds : Setup → Bool) (answers : List (Accept Socket)) (connections : List Socket)
      (before after : List Setup) (call : Setup)
      → before ++ call ∷ after ≡ setups
      → All (λ c. succeeds c ≡ true) before
      → succeeds call ≡ false
      → run Socket succeeds answers connections ≡ record {
        attempted = before ++ call ∷ [];
        connection_list = connections;
        spawned = [];
        ending = returned failure;
      }
  unfolding run
  run_fails succeeds answers connections before after call e h f =
      ap (λ calls. set_up Socket succeeds calls answers start) (sym e)
      ∙ set_up_fails succeeds answers before after call start h f
    where
      start : Listening Socket
      start = record {
        attempted = [];
        connection_list = connections;
        spawned = [];
        ending = accepting;
      }
