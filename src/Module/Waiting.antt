-- ===== src/Module/Waiting.antt =====
-- `ModuleExport::wait` and `ModuleExport::notify` of src/Module.cpp: the condition variables of the
-- handles, and the threads that wait for them. A call of either is one step. That `notify` reads the
-- map without the lock, so that it can run in the middle of an `emplace`, is not modelled.
pub mod Wakeups
pub mod Runs
use book_filer_module_http.Prelude.{
  ℕ, zero, suc, List, [], ◌∷◌, ◌++◌, Text, text_eq, none, some, if◌then◌else◌,
}
use book_filer_module_http.StdMap.{find, insert}

-- A condition variable, as the threads that are blocked on it, by their numbers.
abbrev pub ConditionVariable : Type 0
ConditionVariable = List ℕ

-- `conditionVariableMap`.
abbrev pub ConditionVariableMap : Type 0
ConditionVariableMap = List (Text × ConditionVariable)

-- `condition_variable::wait` on the variable of a handle.
pub block : ℕ → Text → ConditionVariableMap → ConditionVariableMap
block thread handle [] = []
block thread handle ((h, threads) ∷ m) =
    if text_eq h handle
    then (h, threads ++ thread ∷ []) ∷ m
    else (h, threads) ∷ block thread handle m

-- `condition_variable::notify_one`: one of the threads, if there is any, goes on. Which one is not
-- determined: the number chooses it, and a number beyond the last stands for the last.
pub notify_one : ℕ → ConditionVariable → ConditionVariable
notify_one choice [] = []
notify_one zero (t ∷ threads) = threads
notify_one (suc choice) (t ∷ []) = []
notify_one (suc choice) (t ∷ u ∷ threads) = t ∷ notify_one choice (u ∷ threads)

-- `notify_one` on the variable of a handle.
pub unblock : ℕ → Text → ConditionVariableMap → ConditionVariableMap
unblock choice handle [] = []
unblock choice handle ((h, threads) ∷ m) =
    if text_eq h handle
    then (h, notify_one choice threads) ∷ m
    else (h, threads) ∷ unblock choice handle m

-- `wait`, up to where the thread is blocked. After the `emplace` the handle is always found.
pub wait : ℕ → Text → ConditionVariableMap → ConditionVariableMap
wait thread handle m = elim (find handle (insert handle [] m)) [
  | none ↦ insert handle [] m
  | some threads ↦ block thread handle (insert handle [] m)
]

pub notify : ℕ → Text → ConditionVariableMap → ConditionVariableMap
notify choice handle m = elim (find handle m) [ none ↦ m | some threads ↦ unblock choice handle m ]

-- What happens to the module: a thread waits, a thread notifies, or a thread that waits goes on by
-- itself, which the standard allows and `wait` does not guard against.
pub data Event : Type 0 where
  waits : ℕ → Text → Event
  notifies spurious : ℕ → Text → Event

unfoldable pub step : Event → ConditionVariableMap → ConditionVariableMap
step (waits thread handle) m = wait thread handle m
step (notifies choice handle) m = notify choice handle m
step (spurious choice handle) m = unblock choice handle m

unfoldable pub run : List Event → ConditionVariableMap → ConditionVariableMap
run [] m = m
run (e ∷ es) m = run es (step e m)
