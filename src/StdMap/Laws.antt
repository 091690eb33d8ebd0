-- ===== src/StdMap/Laws.antt =====
-- The laws of `find` and `insert`.
use book_filer_module_http.Prelude.{
  ◌≡◌, refl, inl, inr, none, some, List, [], ◌∷◌, ◌++◌, Ordering, if◌then◌else◌, arith, Text,
  text_eq, text_compare, text_compare_refl, text_compare-gt, TextLt, TextLt-trans, eq_of_text_eq,
  All, All-impl, text-cases, Bool-cases,
}
use book_filer_module_http.StdMap.{find, insert, IsSorted}

module _ {ℓ} {V : Type ℓ} where
  -- Every key of the map lies above `k`.
  abbrev pub Above : Text → List (Text × V) → Type 0
  Above k m = All (λ e. TextLt k e.0) m

  Above-trans : (j k : Text) (m : List (Text × V)) → TextLt j k → Above k m → Above j m
  Above-trans j k m h =
      All-impl (λ e. TextLt k e.0) (λ e. TextLt j e.0) m (λ e. TextLt-trans j k e.0 h)

  insert-Above :
      (j k : Text) (v : V) (m : List (Text × V)) → TextLt j k → Above j m → Above j (insert k v m)
  unfolding insert
  insert-Above j k v [] h a = (h, tt)
  insert-Above j k v ((i, w) ∷ m) h (a, b) = ground (arith, insert-Above j k v m h b)

  pub insert-IsSorted :
      (k : Text) (v : V) (m : List (Text × V)) → IsSorted m → IsSorted (insert k v m)
  unfolding insert
  insert-IsSorted k v [] s = (tt, tt)
  insert-IsSorted k v ((i, w) ∷ m) (a, s) = elim (text-cases k i) [
    | inl lt ↦ rw (lt, insert) ((lt, Above-trans k i m lt a), (a, s))
    | inr (inl e) ↦ rw (e, text_compare_refl i, insert) (a, s)
    | inr (inr gt) ↦
        rw (text_compare-gt i k gt, insert) (insert-Above i k v m gt a, insert-IsSorted k v m s)
  ]

  pub find-Above : (k : Text) (m : List (Text × V)) → Above k m → find k m ≡ none
  unfolding find
  find-Above k [] a = refl
  find-Above k ((j, w) ∷ m) (h, a) = ground (arith, text_compare-gt k j h, find-Above k m a)

  -- A lookup after an insertion: the entry that was there wins.
  pub find-insert :
      (j k : Text) (v : V) (m : List (Text × V))
      → IsSorted m
      → find j (insert k v m)
        ≡ elim (find j m) [ some w ↦ some w | none ↦ if text_eq k j then some v else none ]
  unfolding find insert
  find-insert j k v [] s = refl
  find-insert j k v ((i, w) ∷ m) (a, s) = elim (text-cases k i) [
    | inl lt ↦ elim (Bool-cases (text_eq k j)) [
      | inl e ↦
          let same = eq_of_text_eq k j e in
          let above : text_compare i j ≡ Ordering.gt = rw same at (text_compare-gt k i lt) in
          let absent : find j m ≡ none = rw same at (find-Above k m (Above-trans k i m lt a)) in
          rw (lt, insert) (ground (arith, e, above, absent))
      | inr n ↦ rw (lt, insert) (ground (arith, n))
    ]
    | inr (inl e) ↦ rw (e, text_compare_refl i, insert) (ground arith)
    | inr (inr gt) ↦ rw (text_compare-gt i k gt, insert) (ground (arith, find-insert j k v m s))
  ]

  -- Inserting above every key appends.
  pub insert_last :
      (k : Text) (v : V) (m : List (Text × V))
      → All (λ e. TextLt e.0 k) m
      → insert k v m ≡ m ++ (k, v) ∷ []
  unfolding insert
  insert_last k v [] a = refl
  insert_last k v ((j, w) ∷ m) (h, a) = ground (arith, text_compare-gt j k h, insert_last k v m a)
