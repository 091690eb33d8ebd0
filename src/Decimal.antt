-- ===== src/Decimal.antt =====
-- `std::to_string(int)` and `std::stoi` of the standard library, as the cookies use them.
pub mod Laws
use book_filer_module_http.Prelude.{
  ℕ, zero, suc, ◌+◌, ◌-◌, ◌*◌, ◌/◌, ◌%◌, ◌^◌, Bool, ◌&&◌, ◌||◌, Option, none, some, [], ◌∷◌, leb,
  ltb, ◌==◌, if◌then◌else◌, Text,
}
use book_filer_module_http.Prelude.Int.{ℤ, pos, negsuc}

-- The digits of a number before those in `acc`. The number itself is fuel enough.
digits_from : ℕ → ℕ → Text → Text
digits_from zero n acc = (b'0' + n % 10) ∷ acc
digits_from (suc fuel) n acc =
    let more = digits_from fuel (n / 10) ((b'0' + n % 10) ∷ acc) in
    if ltb n 10 then (b'0' + n) ∷ acc else more

unfoldable pub to_string : ℤ → Text
unfolding digits_from
to_string (pos n) = digits_from n n []
to_string (negsuc n) = b'-' ∷ digits_from (suc n) (suc n) []

is_space : ℕ → Bool
is_space c = c == 0x20 || (leb 0x09 c && leb c 0x0D)

is_digit : ℕ → Bool
is_digit c = leb b'0' c && leb c b'9'

-- The value of the digits at the front of a text, behind those that were read before.
read_digits : ℕ → Text → ℕ
read_digits n [] = n
read_digits n (c ∷ s) =
    let more = read_digits (n * 10 + (c - b'0')) s in if is_digit c then more else n

-- A text with no digit at its front throws.
magnitude : Text → Option ℕ
magnitude [] = none
magnitude (c ∷ s) = if is_digit c then some (read_digits 0 (c ∷ s)) else none

-- An `int` has 32 bits; a number out of its range throws.
positive : Option ℕ → Option ℤ
positive none = none
positive (some n) = if ltb n (2 ^ 31) then some (pos n) else none

negative : Option ℕ → Option ℤ
negative none = none
negative (some zero) = some (pos 0)
negative (some (suc n)) = if ltb n (2 ^ 31) then some (negsuc n) else none

signed : Text → Option ℤ
signed [] = none
signed (c ∷ s) =
    if c == b'-'
    then negative (magnitude s)
    else if c == b'+'
    then positive (magnitude s)
    else positive (magnitude (c ∷ s))

unfoldable pub stoi : Text → Option ℤ
unfolding signed positive negative magnitude read_digits is_digit is_space
stoi [] = none
stoi (c ∷ s) = let rest = stoi s in if is_space c then rest else signed (c ∷ s)
