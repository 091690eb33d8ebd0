-- ===== src/Json/Print/Lines.antt =====
-- When a document can be printed, and how much is printed.
use book_filer_module_http.Prelude.{
  ℕ, suc, ◌+◌, ◌≤◌, ◌≡◌, refl, Bool, true, false, ◌||◌, List, [], ◌∷◌, ◌++◌, length, length-append,
  arith, Text, Outcome, returns, undefined, ◌>>=◌,
}
use book_filer_module_http.Json.Print.{
  Tree, Members, Elements, null_tree, false_tree, true_tree, number_tree, string_tree, object_tree,
  array_tree, no_members, member, no_elements, element, line, print_value, print_elements,
  print_below, print_members, print_iterator,
}

-- Whether the walk meets an array that holds an object without members. It goes into arrays, into all
-- the members of an object that is a member, and into the first member of an object in an array.
unfoldable mutual
  pub meets_empty : Tree → Bool
  meets_empty (array_tree es) = elements_meet_empty es
  meets_empty (object_tree ms) = members_meet_empty ms
  meets_empty null_tree = false
  meets_empty false_tree = false
  meets_empty true_tree = false
  meets_empty number_tree = false
  meets_empty string_tree = false

  pub elements_meet_empty : Elements → Bool
  elements_meet_empty no_elements = false
  elements_meet_empty (element (object_tree no_members) es) = true
  elements_meet_empty (element (object_tree (member name v ms)) es) =
      meets_empty v || elements_meet_empty es
  elements_meet_empty (element (array_tree fs) es) =
      elements_meet_empty fs || elements_meet_empty es
  elements_meet_empty (element null_tree es) = elements_meet_empty es
  elements_meet_empty (element false_tree es) = elements_meet_empty es
  elements_meet_empty (element true_tree es) = elements_meet_empty es
  elements_meet_empty (element number_tree es) = elements_meet_empty es
  elements_meet_empty (element string_tree es) = elements_meet_empty es

  members_meet_empty : Members → Bool
  members_meet_empty no_members = false
  members_meet_empty (member name v ms) = meets_empty v || members_meet_empty ms

-- The members of a document, at any depth.
unfoldable mutual
  pub count : Tree → ℕ
  count (array_tree es) = count_elements es
  count (object_tree ms) = count_members ms
  count null_tree = 0
  count false_tree = 0
  count true_tree = 0
  count number_tree = 0
  count string_tree = 0

  count_elements : Elements → ℕ
  count_elements no_elements = 0
  count_elements (element v es) = count v + count_elements es

  count_members : Members → ℕ
  count_members no_members = 0
  count_members (member name v ms) = suc (count v + count_members ms)

-- A printing that is undefined where the walk meets an empty object, and that has at most so many
-- lines.
abbrev pub Prints : Outcome (List Text) → Bool → ℕ → Type 0
Prints o true n = o ≡ undefined
Prints o false n = (ls : List Text) × (o ≡ returns ls) × (length ls ≤ n)

Prints-join :
    (o p : Outcome (List Text)) (b c : Bool) (n k : ℕ)
    → Prints o b n
    → Prints p c k
    → Prints (o >>= λ xs. p >>= λ ys. returns (xs ++ ys)) (b || c) (n + k)
Prints-join o p true c n k e f = rw e refl
Prints-join o p false true n k (xs, e, le) f = rw (e, f) refl
Prints-join o p false false n k (xs, e, le) (ys, f, le') =
    (xs ++ ys, rw (e, f) refl, omega (arith, length-append xs ys, le, le'))

Prints-line :
    (o : Outcome (List Text)) (b : Bool) (n : ℕ) (l : Text)
    → Prints o b n
    → Prints (o >>= λ xs. returns (l ∷ xs)) b (suc n)
Prints-line o true n l e = rw e refl
Prints-line o false n l (xs, e, le) = (l ∷ xs, rw e refl, omega (arith, le))

Prints-both :
    (o p : Outcome (List Text)) (b c : Bool) (n k : ℕ) (l : Text)
    → Prints o b n
    → Prints p c k
    → Prints (o >>= λ xs. p >>= λ ys. returns (l ∷ (xs ++ ys))) (b || c) (suc (n + k))
Prints-both o p true c n k l e f = rw e refl
Prints-both o p false true n k l (xs, e, le) f = rw (e, f) refl
Prints-both o p false false n k l (xs, e, le) (ys, f, le') =
    (l ∷ (xs ++ ys), rw (e, f) refl, omega (arith, length-append xs ys, le, le'))

Prints-more : (o : Outcome (List Text)) (b : Bool) (n k : ℕ) → Prints o b n → n ≤ k → Prints o b k
Prints-more o true n k e le = e
Prints-more o false n k (xs, e, short) le = (xs, e, omega (arith, short, le))

Prints-nothing : Prints (returns []) false 0
Prints-nothing = ([], refl, omega arith)

-- An element that is no object and no array prints nothing.
Prints-skip :
    (p : Outcome (List Text)) (c : Bool) (k : ℕ)
    → Prints p c k
    → Prints (returns [] >>= λ xs. p >>= λ ys. returns (xs ++ ys)) (false || c) (0 + k)
Prints-skip p c k = Prints-join (returns []) p false c 0 k Prints-nothing

mutual
  unfolding print_value meets_empty count

  below-Prints : (v : Tree) → Prints (print_below v) (meets_empty v) (count v)
  below-Prints (array_tree es) = elements-Prints es
  below-Prints (object_tree ms) = members-Prints ms
  below-Prints null_tree = Prints-nothing
  below-Prints false_tree = Prints-nothing
  below-Prints true_tree = Prints-nothing
  below-Prints number_tree = Prints-nothing
  below-Prints string_tree = Prints-nothing

  elements-Prints :
      (es : Elements) → Prints (print_elements es) (elements_meet_empty es) (count_elements es)
  elements-Prints no_elements = Prints-nothing
  elements-Prints (element (object_tree no_members) es) = refl
  elements-Prints (element (object_tree (member name v ms)) es) =
      Prints-join _ _ (meets_empty v) (elements_meet_empty es) _ (count_elements es)
        (Prints-more _ (meets_empty v) (suc (count v)) _
          (Prints-line (print_below v) (meets_empty v) (count v) (line name v) (below-Prints v))
          (omega arith))
        (elements-Prints es)
  elements-Prints (element (array_tree fs) es) =
      Prints-join _ _ (elements_meet_empty fs) (elements_meet_empty es) (count_elements fs) _
        (elements-Prints fs) (elements-Prints es)
  elements-Prints (element null_tree es) =
      Prints-skip (print_elements es) (elements_meet_empty es) (count_elements es)
        (elements-Prints es)
  elements-Prints (element false_tree es) =
      Prints-skip (print_elements es) (elements_meet_empty es) (count_elements es)
        (elements-Prints es)
  elements-Prints (element true_tree es) =
      Prints-skip (print_elements es) (elements_meet_empty es) (count_elements es)
        (elements-Prints es)
  elements-Prints (element number_tree es) =
      Prints-skip (print_elements es) (elements_meet_empty es) (count_elements es)
        (elements-Prints es)
  elements-Prints (element string_tree es) =
      Prints-skip (print_elements es) (elements_meet_empty es) (count_elements es)
        (elements-Prints es)

  members-Prints :
      (ms : Members) → Prints (print_members ms) (members_meet_empty ms) (count_members ms)
  members-Prints no_members = Prints-nothing
  members-Prints (member name v ms) =
      Prints-both (print_below v) (print_members ms) (meets_empty v) (members_meet_empty ms)
        (count v) (count_members ms) (line name v) (below-Prints v) (members-Prints ms)

abbrev pub value_meets_empty : Tree → Bool
value_meets_empty (array_tree es) = elements_meet_empty es
value_meets_empty v = false

-- Printing a member, or a document, is undefined exactly where its walk meets an array that holds an
-- object without members; else it ends, and prints at most one line for each member that there is.
pub print_json_cases :
    (name : Text) (v : Tree)
    → Prints (print_iterator name v) (meets_empty v) (suc (count v))
      × Prints (print_value v) (value_meets_empty v) (count v)
unfolding print_iterator print_value meets_empty count
print_json_cases name v =
    (Prints-line (print_below v) (meets_empty v) (count v) (line name v) (below-Prints v), value v)
  where
    value : (v : Tree) → Prints (print_value v) (value_meets_empty v) (count v)
    value (array_tree es) = elements-Prints es
    value (object_tree ms) = ([], refl, omega arith)
    value null_tree = Prints-nothing
    value false_tree = Prints-nothing
    value true_tree = Prints-nothing
    value number_tree = Prints-nothing
    value string_tree = Prints-nothing
