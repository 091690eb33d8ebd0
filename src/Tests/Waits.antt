-- ===== src/Tests/Waits.antt =====
-- Runs of the theorems on who waits for a handle.
use book_filer_module_http.Prelude.{◌≡◌, refl, List, [], ◌∷◌, ◌++◌, Text, codes, text_compare}
use book_filer_module_http.StdMap.{find}
use book_filer_module_http.Module.Waiting.{Event, waits, notifies, spurious, run}
use book_filer_module_http.Module.Waiting.Wakeups.{waiting}
use book_filer_module_http.Module.Waiting.Runs.{waiting-run_late}

abbrev ready : Text
ready = codes "ready"

abbrev early : List Event
early = notifies 0 ready ∷ []

-- The notification is for another handle.
abbrev late : List Event
late = waits 1 ready ∷ waits 2 (codes "done") ∷ notifies 0 (codes "done") ∷ []

waiting-run_late_example : waiting ready (run (early ++ late) []) ≡ 1 ∷ []
unfolding waiting find text_compare
waiting-run_late_example = waiting-run_late ready early late refl refl

abbrev crowd : List Event
crowd = waits 1 ready ∷ waits 2 ready ∷ waits 3 ready ∷ notifies 1 ready ∷ spurious 0 ready ∷ []
