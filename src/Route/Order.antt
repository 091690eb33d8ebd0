-- ===== src/Route/Order.antt =====
-- The order in which a signal keeps its slots.
use book_filer_module_http.Prelude.{
  ◌≡◌, refl, ap, ◌∙◌, inl, inr, Bool, true, false, Bool-cases, List, [], ◌∷◌, ◌++◌, append-nil,
  append_assoc, arith, if◌then◌else◌, All,
}
use book_filer_module_http.Prelude.Int.{ℤ, pos, negsuc, eqb_ℤ, ltb_ℤ}
use book_filer_module_http.Route.{insert_slot}

-- Slots whose priorities do not fall.
abbrev pub Ascending {ℓ} : {F : Type ℓ} → List (ℤ × F) → Type 0
Ascending [] = Unit
Ascending ((p, f) ∷ slots) = All (λ s. ltb_ℤ s.0 p ≡ false) slots × Ascending slots

-- The slots of one priority, in their order.
abbrev pub with_priority {ℓ} : {F : Type ℓ} → ℤ → List (ℤ × F) → List F
with_priority p [] = []
with_priority p ((q, f) ∷ slots) =
    if eqb_ℤ q p then f ∷ with_priority p slots else with_priority p slots

ltb_ℤ-trans : (p q r : ℤ) → ltb_ℤ q p ≡ false → ltb_ℤ r q ≡ false → ltb_ℤ r p ≡ false
ltb_ℤ-trans (pos p) (pos q) (pos r) h k = ground arith
ltb_ℤ-trans (pos p) (pos q) (negsuc r) h k = ground arith
ltb_ℤ-trans (pos p) (negsuc q) (pos r) h k = ground arith
ltb_ℤ-trans (pos p) (negsuc q) (negsuc r) h k = ground arith
ltb_ℤ-trans (negsuc p) (pos q) (pos r) h k = ground arith
ltb_ℤ-trans (negsuc p) (pos q) (negsuc r) h k = ground arith
ltb_ℤ-trans (negsuc p) (negsuc q) (pos r) h k = ground arith
ltb_ℤ-trans (negsuc p) (negsuc q) (negsuc r) h k = ground arith

eq_of_eqb_ℤ : (p q : ℤ) → eqb_ℤ p q ≡ true → p ≡ q
eq_of_eqb_ℤ (pos p) (pos q) h = ground arith
eq_of_eqb_ℤ (pos p) (negsuc q) h = cc
eq_of_eqb_ℤ (negsuc p) (pos q) h = cc
eq_of_eqb_ℤ (negsuc p) (negsuc q) h = ground arith

ltb_ℤ-irrefl : (p : ℤ) → ltb_ℤ p p ≡ false
ltb_ℤ-irrefl (pos p) = ground arith
ltb_ℤ-irrefl (negsuc p) = ground arith

-- Of three priorities of which the first is below the second, and the third not below that, the third
-- is not the first.
eqb_ℤ_apart :
    (p q r x : ℤ) → ltb_ℤ p q ≡ true → ltb_ℤ x q ≡ false → eqb_ℤ p r ≡ true → eqb_ℤ x r ≡ false
eqb_ℤ_apart p q r x h k e = elim (Bool-cases (eqb_ℤ x r)) [
  | inl s ↦ cc (eq_of_eqb_ℤ p r e, eq_of_eqb_ℤ x r s)
  | inr s ↦ s
]

ltb_ℤ-asym : (p q : ℤ) → ltb_ℤ p q ≡ true → ltb_ℤ q p ≡ false
ltb_ℤ-asym (pos p) (pos q) h = ground arith
ltb_ℤ-asym (pos p) (negsuc q) h = ground arith
ltb_ℤ-asym (negsuc p) (pos q) h = ground arith
ltb_ℤ-asym (negsuc p) (negsuc q) h = ground arith

module _ {ℓ} {F : Type ℓ} where
  abbrev NotBelow : ℤ → List (ℤ × F) → Type 0
  NotBelow q = All (λ s. ltb_ℤ s.0 q ≡ false)

  insert_slot-NotBelow :
      (q p : ℤ) (f : F) (slots : List (ℤ × F))
      → ltb_ℤ p q ≡ false
      → NotBelow q slots
      → NotBelow q (insert_slot p f slots)
  unfolding insert_slot
  insert_slot-NotBelow q p f [] h a = (h, tt)
  insert_slot-NotBelow q p f ((r, g) ∷ slots) h (a, b) = elim (Bool-cases (ltb_ℤ p r)) [
    | inl e ↦ rw e (h, (a, b))
    | inr e ↦ rw e (a, insert_slot-NotBelow q p f slots h b)
  ]

  NotBelow-trans :
      (p q : ℤ) (slots : List (ℤ × F)) → ltb_ℤ q p ≡ false → NotBelow q slots → NotBelow p slots
  NotBelow-trans p q [] h a = tt
  NotBelow-trans p q ((r, g) ∷ slots) h (a, b) =
      (ltb_ℤ-trans p q r h a, NotBelow-trans p q slots h b)

  insert_slot-Ascending :
      (p : ℤ) (f : F) (slots : List (ℤ × F)) → Ascending slots → Ascending (insert_slot p f slots)
  unfolding insert_slot
  insert_slot-Ascending p f [] a = (tt, tt)
  insert_slot-Ascending p f ((q, g) ∷ slots) (a, b) = elim (Bool-cases (ltb_ℤ p q)) [
    | inl e ↦ rw e ((ltb_ℤ-asym p q e, NotBelow-trans p q slots (ltb_ℤ-asym p q e) a), (a, b))
    | inr e ↦ rw e (insert_slot-NotBelow q p f slots e a, insert_slot-Ascending p f slots b)
  ]

  with_priority_none :
      (p q r : ℤ) (slots : List (ℤ × F))
      → ltb_ℤ p q ≡ true
      → eqb_ℤ p r ≡ true
      → NotBelow q slots
      → with_priority r slots ≡ []
  with_priority_none p q r [] h e a = refl
  with_priority_none p q r ((x, g) ∷ slots) h e (a, b) =
      rw (eqb_ℤ_apart p q r x h a e) (with_priority_none p q r slots h e b)

  with_priority-insert_slot :
      (r p : ℤ) (f : F) (slots : List (ℤ × F))
      → Ascending slots
      → with_priority r (insert_slot p f slots)
        ≡ with_priority r slots ++ (if eqb_ℤ p r then f ∷ [] else [])
  unfolding insert_slot
  with_priority-insert_slot r p f [] a = refl
  with_priority-insert_slot r p f ((q, g) ∷ slots) (a, b) = elim (Bool-cases (ltb_ℤ p q)) [
    | inl e ↦ elim (Bool-cases (eqb_ℤ p r)) [
      | inl same ↦
          rw
            (
              e,
              same,
              eqb_ℤ_apart p q r q e (ltb_ℤ-irrefl q) same,
              with_priority_none p q r slots e same a,
            )
            refl
      | inr other ↦ rw (e, other) (simp append-nil)
    ]
    | inr e ↦ rw e (elim (Bool-cases (eqb_ℤ q r)) [
      | inl s ↦ rw s (ap (λ l. g ∷ l) (with_priority-insert_slot r p f slots b))
      | inr s ↦ rw s (with_priority-insert_slot r p f slots b)
    ])
  ]

  unfoldable pub insert_all : List (ℤ × F) → List (ℤ × F) → List (ℤ × F)
  insert_all [] slots = slots
  insert_all ((p, f) ∷ more) slots = insert_all more (insert_slot p f slots)

  if-append_cons :
      (b : Bool) (fs : List F) (f : F) (gs : List F)
      → (fs ++ (if b then f ∷ [] else [])) ++ gs ≡ fs ++ (if b then f ∷ gs else gs)
  if-append_cons true fs f gs = append_assoc fs (f ∷ []) gs
  if-append_cons false fs f gs = append_assoc fs [] gs

  pub insert_all_if :
      (b : Bool) (p : ℤ) (f : F) (more slots : List (ℤ × F))
      → insert_all more (if b then insert_slot p f slots else slots)
        ≡ insert_all (if b then (p, f) ∷ more else more) slots
  unfolding insert_all
  insert_all_if true p f more slots = refl
  insert_all_if false p f more slots = refl

  pub insert_all-Ascending :
      (more slots : List (ℤ × F)) → Ascending slots → Ascending (insert_all more slots)
  unfolding insert_all
  insert_all-Ascending [] slots a = a
  insert_all-Ascending ((p, f) ∷ more) slots a =
      insert_all-Ascending more (insert_slot p f slots) (insert_slot-Ascending p f slots a)

  pub with_priority-insert_all :
      (r : ℤ) (more slots : List (ℤ × F))
      → Ascending slots
      → with_priority r (insert_all more slots) ≡ with_priority r slots ++ with_priority r more
  unfolding insert_all
  with_priority-insert_all r [] slots a = simp append-nil
  with_priority-insert_all r ((p, f) ∷ more) slots a =
      with_priority-insert_all r more (insert_slot p f slots) (insert_slot-Ascending p f slots a)
      ∙ ap (λ l. l ++ with_priority r more) (with_priority-insert_slot r p f slots a)
      ∙ if-append_cons (eqb_ℤ p r) (with_priority r slots) f (with_priority r more)
