-- ===== src/Module/Waiting/Runs.antt =====
-- Who waits for a handle after any sequence of calls of `wait` and `notify`.
use book_filer_module_http.Prelude.{
  ℕ, ◌+◌, ◌≤◌, ◌≡◌, refl, ap, ◌∙◌, Bool, true, false, List, [], ◌∷◌, ◌++◌, append-nil, append_assoc,
  length, arith, Text, text_eq, if◌then◌else◌,
}
use book_filer_module_http.StdMap.{find, IsSorted}
use book_filer_module_http.Module.Waiting.{
  ConditionVariableMap, notify_one, unblock, wait, notify, Event, waits, notifies, spurious, step,
  run,
}
use book_filer_module_http.Module.Waiting.Wakeups.{
  waiting, length-notify_one, waiting-unblock, waiting-notify, waiting-wait, step-IsSorted,
}

-- The threads that come to wait for a handle.
abbrev pub waiters : Text → List Event → List ℕ
waiters k [] = []
waiters k (waits thread h ∷ es) = if text_eq h k then thread ∷ waiters k es else waiters k es
waiters k (e ∷ es) = waiters k es

-- How often a thread that waits for a handle can go on.
abbrev pub wakeups : Text → List Event → ℕ
wakeups k [] = 0
wakeups k (waits thread h ∷ es) = wakeups k es
wakeups k (notifies choice h ∷ es) = if text_eq h k then 1 + wakeups k es else wakeups k es
wakeups k (spurious choice h ∷ es) = if text_eq h k then 1 + wakeups k es else wakeups k es

length-snoc : (ws : List ℕ) (t : ℕ) → length (ws ++ t ∷ []) ≡ length ws + 1
length-snoc [] t = refl
length-snoc (w ∷ ws) t = omega (arith, length-snoc ws t)

if-append :
    (b : Bool) (ws : List ℕ) (t : ℕ) (us : List ℕ)
    → (if b then ws ++ t ∷ [] else ws) ++ us ≡ ws ++ (if b then t ∷ us else us)
if-append true ws t us = append_assoc ws (t ∷ []) us
if-append false ws t us = refl

nobody : (b : Bool) (i : ℕ) (ws : List ℕ) → ws ≡ [] → (if b then notify_one i ws else ws) ≡ []
unfolding notify_one
nobody true i ws e = rw (e, notify_one) refl
nobody false i ws e = e

-- After steps without a wake-up for a handle the threads that wait for it are those that did, and
-- behind them those that came to wait.
waiting-run :
    (k : Text) (es : List Event) (m : ConditionVariableMap)
    → IsSorted m
    → wakeups k es ≡ 0
    → waiting k (run es m) ≡ waiting k m ++ waiters k es
unfolding run step
waiting-run k [] m s n = simp append-nil
waiting-run k (waits t h ∷ es) m s n =
    waiting-run k es (wait t h m) (step-IsSorted (waits t h) m s) n
    ∙ ap (λ ws. ws ++ waiters k es) (waiting-wait k t h m s)
    ∙ (if-append (text_eq h k) (waiting k m) t (waiters k es))
waiting-run k (notifies i h ∷ es) m s n = ground (
  arith,
  waiting-run k es (notify i h m) (step-IsSorted (notifies i h) m s),
  waiting-notify k i h m,
)
waiting-run k (spurious i h ∷ es) m s n = ground (
  arith,
  waiting-run k es (unblock i h m) (step-IsSorted (spurious i h) m s),
  waiting-unblock k i h m,
)

-- As long as no thread comes to wait for a handle, none waits, whatever the notifications.
waiting-run_nobody :
    (k : Text) (es : List Event) (m : ConditionVariableMap)
    → IsSorted m
    → waiting k m ≡ []
    → waiters k es ≡ []
    → waiting k (run es m) ≡ []
unfolding run step notify_one
waiting-run_nobody k [] m s w n = w
waiting-run_nobody k (waits t h ∷ es) m s w n = ground (
  arith,
  waiting-run_nobody k es (wait t h m) (step-IsSorted (waits t h) m s),
  waiting-wait k t h m s,
)
waiting-run_nobody k (notifies i h ∷ es) m s w n =
    waiting-run_nobody k es (notify i h m) (step-IsSorted (notifies i h) m s)
      (waiting-notify k i h m ∙ nobody (text_eq h k) i (waiting k m) w) n
waiting-run_nobody k (spurious i h ∷ es) m s w n =
    waiting-run_nobody k es (unblock i h m) (step-IsSorted (spurious i h) m s)
      (waiting-unblock k i h m ∙ nobody (text_eq h k) i (waiting k m) w) n

run-IsSorted : (es : List Event) (m : ConditionVariableMap) → IsSorted m → IsSorted (run es m)
unfolding run
run-IsSorted [] m s = s
run-IsSorted (e ∷ es) m s = run-IsSorted es (step e m) (step-IsSorted e m s)

run-append :
    (before es : List Event) (m : ConditionVariableMap)
    → run (before ++ es) m ≡ run es (run before m)
unfolding run
run-append [] es m = refl
run-append (e ∷ before) es m = run-append before es (step e m)

-- A notification that comes before the wait is lost: when no thread waited for a handle during a
-- first part of the steps of a new module, and a second part has no wake-up for that handle, then all
-- the threads that came to wait for it in the second part still do, in the order in which they came,
-- whatever notifications the first part had.
pub waiting-run_late :
    (k : Text) (before es : List Event)
    → waiters k before ≡ []
    → wakeups k es ≡ 0
    → waiting k (run (before ++ es) []) ≡ waiters k es
unfolding waiting find
waiting-run_late k before es w n =
    ap (waiting k) (run-append before es [])
    ∙ waiting-run k es (run before []) (run-IsSorted before [] tt) n
    ∙ ap (λ ws. ws ++ waiters k es) (waiting-run_nobody k before [] tt refl w)

-- A wake-up frees one thread at most: after any steps, the threads that wait for a handle and the
-- wake-ups of it are together at least as many as the threads that waited and those that came to
-- wait.
length-waiting-run :
    (k : Text) (es : List Event) (m : ConditionVariableMap)
    → IsSorted m
    → length (waiting k m) + length (waiters k es) ≤ length (waiting k (run es m)) + wakeups k es
unfolding run step
length-waiting-run k [] m s = omega arith
length-waiting-run k (waits t h ∷ es) m s = ground (
  arith,
  length-waiting-run k es (wait t h m) (step-IsSorted (waits t h) m s),
  waiting-wait k t h m s,
  length-snoc (waiting k m) t,
)
length-waiting-run k (notifies i h ∷ es) m s = ground (
  arith,
  length-waiting-run k es (notify i h m) (step-IsSorted (notifies i h) m s),
  waiting-notify k i h m,
  length-notify_one i (waiting k m),
)
length-waiting-run k (spurious i h ∷ es) m s = ground (
  arith,
  length-waiting-run k es (unblock i h m) (step-IsSorted (spurious i h) m s),
  waiting-unblock k i h m,
  length-notify_one i (waiting k m),
)
