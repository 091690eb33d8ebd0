-- ===== src/Module/Waiting/Wakeups.antt =====
-- What one call of `wait` or `notify` does to the threads that wait for each handle.
use book_filer_module_http.Prelude.{
  ℕ, zero, suc, ◌-◌, ◌≡◌, refl, inl, inr, none, some, List, [], ◌∷◌, ◌++◌, length, arith, Text,
  text_eq, text_eq_iff, text_eq_refl, eq_of_text_eq, if◌then◌else◌, true, Option-cases, Bool-cases,
}
use book_filer_module_http.StdMap.{find, insert, IsSorted}
use book_filer_module_http.StdMap.Laws.{find-insert, insert-IsSorted, Above}
use book_filer_module_http.Module.Waiting.{
  ConditionVariableMap, block, notify_one, unblock, wait, notify, Event, waits, notifies, spurious,
  step,
}

-- The threads that wait for a handle.
unfoldable pub waiting : Text → ConditionVariableMap → List ℕ
waiting k m = elim (find k m) [ none ↦ [] | some threads ↦ threads ]

pub notify_one-nil : (i : ℕ) → notify_one i [] ≡ []
unfolding notify_one
notify_one-nil i = refl

pub notify_one-alone : (i t : ℕ) → notify_one i (t ∷ []) ≡ []
unfolding notify_one
notify_one-alone zero t = refl
notify_one-alone (suc i) t = refl

pub length-notify_one : (i : ℕ) (ws : List ℕ) → length (notify_one i ws) ≡ length ws - 1
unfolding notify_one
length-notify_one i [] = refl
length-notify_one zero (t ∷ ws) = omega arith
length-notify_one (suc i) (t ∷ []) = refl
length-notify_one (suc i) (t ∷ u ∷ ws) = omega (arith, length-notify_one i (u ∷ ws))

find-block :
    (k : Text) (t : ℕ) (h : Text) (m : ConditionVariableMap)
    → find k (block t h m)
      ≡ elim (find k m) [ none ↦ none | some ws ↦ some (if text_eq h k then ws ++ t ∷ [] else ws) ]
unfolding find block
find-block k t h [] = refl
find-block k t h ((j, ws) ∷ m) =
    ground (arith, text_eq_iff j h, text_eq_iff j k, text_eq_iff h k, find-block k t h m)

find-unblock :
    (k : Text) (i : ℕ) (h : Text) (m : ConditionVariableMap)
    → find k (unblock i h m) ≡ elim (find k m) [
      | none ↦ none
      | some ws ↦ some (if text_eq h k then notify_one i ws else ws)
    ]
unfolding find unblock
find-unblock k i h [] = refl
find-unblock k i h ((j, ws) ∷ m) =
    ground (arith, text_eq_iff j h, text_eq_iff j k, text_eq_iff h k, find-unblock k i h m)

pub waiting-unblock :
    (k : Text) (i : ℕ) (h : Text) (m : ConditionVariableMap)
    → waiting k (unblock i h m) ≡ (if text_eq h k then notify_one i (waiting k m) else waiting k m)
unfolding waiting notify_one
waiting-unblock k i h m = elim (Option-cases (find k m)) [
  | inl e ↦ rw (find-unblock k i h m, e, waiting) (ground arith)
  | inr (ws, e) ↦ rw (find-unblock k i h m, e, waiting) refl
]

none_same :
    (k h : Text) (m : ConditionVariableMap) → text_eq h k ≡ true → find h m ≡ none → find k m ≡ none
none_same k h m same e = rw (eq_of_text_eq h k same) at e

pub waiting-notify :
    (k : Text) (i : ℕ) (h : Text) (m : ConditionVariableMap)
    → waiting k (notify i h m) ≡ (if text_eq h k then notify_one i (waiting k m) else waiting k m)
unfolding notify waiting notify_one
waiting-notify k i h m = elim (Option-cases (find h m)) [
  | inl e ↦ elim (Bool-cases (text_eq h k)) [
    | inl same ↦ rw (e, same, none_same k h m same e, notify, waiting) refl
    | inr other ↦ rw (e, other, notify) refl
  ]
  | inr (ws, e) ↦ rw (e, notify) (waiting-unblock k i h m)
]

wait-block :
    (t : ℕ) (h : Text) (m : ConditionVariableMap)
    → IsSorted m
    → wait t h m ≡ block t h (insert h [] m)
unfolding wait
wait-block t h m s = elim (Option-cases (find h m)) [
  | inl e ↦ rw (find-insert h h [] m s, e, text_eq_refl h, wait) refl
  | inr (ws, e) ↦ rw (find-insert h h [] m s, e, wait) refl
]

pub waiting-wait :
    (k : Text) (t : ℕ) (h : Text) (m : ConditionVariableMap)
    → IsSorted m
    → waiting k (wait t h m) ≡ (if text_eq h k then waiting k m ++ t ∷ [] else waiting k m)
unfolding waiting
waiting-wait k t h m s = elim (Option-cases (find k m)) [
  | inl e ↦
      rw (wait-block t h m s, find-block k t h (insert h [] m), find-insert k h [] m s, e, waiting)
        (ground arith)
  | inr (ws, e) ↦
      rw (wait-block t h m s, find-block k t h (insert h [] m), find-insert k h [] m s, e, waiting)
        refl
]

block-Above :
    (i : Text) (t : ℕ) (h : Text) (m : ConditionVariableMap) → Above i m → Above i (block t h m)
unfolding block
block-Above i t h [] a = tt
block-Above i t h ((j, ws) ∷ m) (a, b) = ground (arith, block-Above i t h m b)

block-IsSorted : (t : ℕ) (h : Text) (m : ConditionVariableMap) → IsSorted m → IsSorted (block t h m)
unfolding block
block-IsSorted t h [] s = tt
block-IsSorted t h ((j, ws) ∷ m) (a, s) =
    ground (arith, block-Above j t h m a, block-IsSorted t h m s)

unblock-Above :
    (j : Text) (i : ℕ) (h : Text) (m : ConditionVariableMap) → Above j m → Above j (unblock i h m)
unfolding unblock
unblock-Above j i h [] a = tt
unblock-Above j i h ((l, ws) ∷ m) (a, b) = ground (arith, unblock-Above j i h m b)

unblock-IsSorted :
    (i : ℕ) (h : Text) (m : ConditionVariableMap) → IsSorted m → IsSorted (unblock i h m)
unfolding unblock
unblock-IsSorted i h [] s = tt
unblock-IsSorted i h ((j, ws) ∷ m) (a, s) =
    ground (arith, unblock-Above j i h m a, unblock-IsSorted i h m s)

pub step-IsSorted : (e : Event) (m : ConditionVariableMap) → IsSorted m → IsSorted (step e m)
unfolding step notify
step-IsSorted (waits t h) m s =
    rw (wait-block t h m s) (block-IsSorted t h (insert h [] m) (insert-IsSorted h [] m s))
step-IsSorted (notifies i h) m s = elim (Option-cases (find h m)) [
  | inl e ↦ rw (e, notify) s
  | inr (ws, e) ↦ rw (e, notify) (unblock-IsSorted i h m s)
]
step-IsSorted (spurious i h) m s = unblock-IsSorted i h m s

pub notify-IsSorted :
    (i : ℕ) (h : Text) (m : ConditionVariableMap) → IsSorted m → IsSorted (notify i h m)
unfolding step
notify-IsSorted i h m s = step-IsSorted (notifies i h) m s
