-- ===== src/Prelude/Lists.antt =====
-- Lists over the native numbers: length, predicates on all entries, membership tests.
use Prim.Native.Nat.{ℕ, zero, suc, ◌+◌}
use mathlib.Core.Path.{◌≡◌, refl, ap}
use mathlib.Core.Bool.{Bool, false, ◌||◌}
use mathlib.Core.Option.{Option, none, some}
use mathlib.Core.List.{List, [], ◌∷◌, ◌++◌}
use native.Mathlib.Omega.{arith}
use book_filer_module_http.Prelude.Tests.{◌==◌, if◌then◌else◌}

module _ {ℓ} {A : Type ℓ} where
  abbrev pub length : List A → ℕ
  length [] = 0
  length (x ∷ xs) = suc (length xs)

  pub length-append : (xs ys : List A) → length (xs ++ ys) ≡ length xs + length ys
  length-append [] ys = omega arith
  length-append (x ∷ xs) ys = omega (arith, length-append xs ys)

abbrev pub All {ℓ κ} : {A : Type ℓ} → (A → Type κ) → List A → Type κ
All P [] = Unit
All P (x ∷ xs) = P x × All P xs

pub All-append {ℓ κ} :
    {A : Type ℓ} (P : A → Type κ) (xs ys : List A) → All P xs → All P ys → All P (xs ++ ys)
All-append P [] ys h k = k
All-append P (x ∷ xs) ys (h, hs) k = (h, All-append P xs ys hs k)

pub All-impl {ℓ κ ι} :
    {A : Type ℓ} (P : A → Type κ) (Q : A → Type ι) (xs : List A)
    → ((x : A) → P x → Q x)
    → All P xs
    → All Q xs
All-impl P Q [] f h = tt
All-impl P Q (x ∷ xs) f (h, hs) = (f x h, All-impl P Q xs f hs)

-- `text.find(c) != npos`.
abbrev pub contains : List ℕ → ℕ → Bool
contains [] c = false
contains (x ∷ xs) c = c == x || contains xs c

module _ {ℓ} {A : Type ℓ} where
  abbrev pub take : ℕ → List A → List A
  take zero xs = []
  take (suc n) [] = []
  take (suc n) (x ∷ xs) = x ∷ take n xs

  abbrev pub drop : ℕ → List A → List A
  drop zero xs = xs
  drop (suc n) [] = []
  drop (suc n) (x ∷ xs) = drop n xs

  pub take-length_append : (xs ys : List A) → take (length xs) (xs ++ ys) ≡ xs
  take-length_append [] ys = refl
  take-length_append (x ∷ xs) ys = ap (λ t. x ∷ t) (take-length_append xs ys)

  pub drop-length_append :
      (xs : List A) (y : A) (ys : List A) → drop (suc (length xs)) (xs ++ y ∷ ys) ≡ ys
  drop-length_append [] y ys = refl
  drop-length_append (x ∷ xs) y ys = drop-length_append xs y ys

-- `text.find_first_of(c)`: `none` is `npos`.
abbrev pub find_first_of : List ℕ → ℕ → Option ℕ
find_first_of [] c = none
find_first_of (x ∷ xs) c =
    if x == c then some 0 else elim (find_first_of xs c) [ none ↦ none | some i ↦ some (suc i) ]

pub find_first_of-append :
    (xs ys : List ℕ) (c : ℕ)
    → All (λ x. (x == c) ≡ false) xs
    → find_first_of (xs ++ c ∷ ys) c ≡ some (length xs)
find_first_of-append [] ys c h = ground arith
find_first_of-append (x ∷ xs) ys c (h, hs) = ground (arith, h, find_first_of-append xs ys c hs)
