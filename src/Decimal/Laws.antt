-- ===== src/Decimal/Laws.antt =====
-- The characters of a printed number.
use book_filer_module_http.Prelude.{ℕ, zero, suc, ◌+◌, ◌/◌, ◌%◌, ◌≤◌, [], ◌∷◌, arith, All, Text}
use book_filer_module_http.Prelude.Int.{ℤ, pos, negsuc}
use book_filer_module_http.Decimal.{digits_from, to_string}

-- A digit or a minus sign.
abbrev pub IsNumeric : ℕ → Type 0
IsNumeric c = (b'-' ≤ c) × (c ≤ b'9')

digits_from-IsNumeric :
    (fuel n : ℕ) (acc : Text) → All IsNumeric acc → All IsNumeric (digits_from fuel n acc)
unfolding digits_from
digits_from-IsNumeric zero n acc h = ((omega arith, omega arith), h)
digits_from-IsNumeric (suc fuel) n acc h = ground (
  arith,
  digits_from-IsNumeric fuel (n / 10) ((b'0' + n % 10) ∷ acc) ((omega arith, omega arith), h),
)

pub to_string-IsNumeric : (n : ℤ) → All IsNumeric (to_string n)
unfolding to_string
to_string-IsNumeric (pos n) = digits_from-IsNumeric n n [] tt
to_string-IsNumeric (negsuc n) =
    ((omega arith, omega arith), digits_from-IsNumeric (suc n) (suc n) [] tt)
