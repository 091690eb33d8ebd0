-- ===== src/StdMap.antt =====
-- `std::map<std::string, V>` as the association list that it iterates over, in ascending key order.
pub mod Laws
use book_filer_module_http.Prelude.{
  Option, none, some, List, [], ◌∷◌, Ordering, if◌then◌else◌, Text, text_eq, text_compare, TextLt,
  All,
}

module _ {ℓ} {V : Type ℓ} where
  -- `map.find(key)`.
  unfoldable pub find : Text → List (Text × V) → Option V
  find k [] = none
  find k ((j, v) ∷ m) = if text_eq j k then some v else find k m

  -- `map.insert({key, value})`: an entry that is there stays.
  unfoldable pub insert : Text → V → List (Text × V) → List (Text × V)
  insert k v [] = (k, v) ∷ []
  insert k v ((j, w) ∷ m) = elim (text_compare k j) [
    | Ordering.lt ↦ (k, v) ∷ (j, w) ∷ m
    | Ordering.eq ↦ (j, w) ∷ m
    | Ordering.gt ↦ (j, w) ∷ insert k v m
  ]

  -- The keys ascend.
  abbrev pub IsSorted : List (Text × V) → Type 0
  IsSorted [] = Unit
  IsSorted ((k, v) ∷ m) = All (λ e. TextLt k e.0) m × IsSorted m
