-- ===== src/Prelude/Texts.antt =====
-- Texts as lists of bytes, and the order of `std::string`, in which `std::map` keeps its keys.
use Prim.Native.Nat.{ℕ, ◌<◌, compare, Ordering}
use Prim.Native.Char.{code}
use Prim.Native.String.{String}
use mathlib.Core.Path.{◌≡◌, refl}
use mathlib.Core.Logic.{◌↔◌, ◌⊎◌, inl, inr}
use mathlib.Core.Bool.{Bool, true, false}
use mathlib.Core.List.{List, [], ◌∷◌}
use native.Mathlib.Omega.{arith}
use book_filer_module_http.Prelude.Tests.{Ordering-cases}

abbrev pub Text : Type 0
Text = List ℕ

-- The bytes of a literal in ASCII.
abbrev pub codes : String → Text
codes String.[] = []
codes (String.◌∷◌ c s) = code c ∷ codes s

-- A `char` holds a byte.
abbrev pub IsByte : ℕ → Type 0
IsByte c = c < 256

unfoldable pub text_compare : Text → Text → Ordering
text_compare [] [] = Ordering.eq
text_compare [] (b ∷ bs) = Ordering.lt
text_compare (a ∷ xs) [] = Ordering.gt
text_compare (a ∷ xs) (b ∷ ys) = elim (compare a b) [
  | Ordering.lt ↦ Ordering.lt
  | Ordering.eq ↦ text_compare xs ys
  | Ordering.gt ↦ Ordering.gt
]

abbrev pub text_eq : Text → Text → Bool
text_eq a b = elim (text_compare a b) [ Ordering.eq ↦ true | _ ↦ false ]

pub text_compare_refl : (a : Text) → text_compare a a ≡ Ordering.eq
unfolding text_compare
text_compare_refl [] = refl
text_compare_refl (x ∷ xs) = ground (arith, text_compare_refl xs)

pub eq_of_text_compare : (a b : Text) → text_compare a b ≡ Ordering.eq → a ≡ b
unfolding text_compare
eq_of_text_compare [] [] h = refl
eq_of_text_compare [] (b ∷ bs) h = cc
eq_of_text_compare (a ∷ xs) [] h = cc
eq_of_text_compare (a ∷ xs) (b ∷ bs) h = ground (arith, eq_of_text_compare xs bs)

abbrev pub TextLt : Text → Text → Type 0
TextLt a b = text_compare a b ≡ Ordering.lt

pub text_compare-gt : (a b : Text) → TextLt a b → text_compare b a ≡ Ordering.gt
unfolding text_compare
text_compare-gt [] [] h = cc
text_compare-gt [] (b ∷ bs) h = refl
text_compare-gt (a ∷ xs) [] h = cc
text_compare-gt (a ∷ xs) (b ∷ bs) h = ground (arith, text_compare-gt xs bs)

pub TextLt-of_gt : (a b : Text) → text_compare a b ≡ Ordering.gt → TextLt b a
unfolding text_compare
TextLt-of_gt [] [] h = cc
TextLt-of_gt [] (b ∷ bs) h = cc
TextLt-of_gt (a ∷ xs) [] h = refl
TextLt-of_gt (a ∷ xs) (b ∷ bs) h = ground (arith, TextLt-of_gt xs bs)

pub TextLt-trans : (a b c : Text) → TextLt a b → TextLt b c → TextLt a c
unfolding text_compare
TextLt-trans [] [] c h k = cc
TextLt-trans [] (b ∷ bs) [] h k = cc
TextLt-trans [] (b ∷ bs) (c ∷ cs) h k = refl
TextLt-trans (a ∷ xs) [] c h k = cc
TextLt-trans (a ∷ xs) (b ∷ bs) [] h k = cc
TextLt-trans (a ∷ xs) (b ∷ bs) (c ∷ cs) h k = ground (arith, TextLt-trans xs bs cs)

pub text_eq_refl : (a : Text) → text_eq a a ≡ true
text_eq_refl a = rw (text_compare_refl a, text_eq)

pub eq_of_text_eq : (a b : Text) → text_eq a b ≡ true → a ≡ b
eq_of_text_eq a b h = ground (arith, eq_of_text_compare a b)

pub text_eq_iff : (a b : Text) → (text_eq a b ≡ true) ↔ (a ≡ b)
text_eq_iff a b = (eq_of_text_eq a b, λ e. rw e (text_eq_refl b))

-- The three outcomes of a comparison, with what each says of the two texts.
pub text-cases : (a b : Text) → TextLt a b ⊎ (a ≡ b) ⊎ TextLt b a
text-cases a b = elim (Ordering-cases (text_compare a b)) [
  | inl lt ↦ inl lt
  | inr (inl e) ↦ inr (inl (eq_of_text_compare a b e))
  | inr (inr gt) ↦ inr (inr (TextLt-of_gt a b gt))
]
