-- ===== src/Variant.antt =====
-- The values of the option maps that `newUrl`, `newClient` and `route` take:
-- `std::variant<int, double, std::string>` of include/BookFiler-Module-HTTP/Interface.hpp.
use book_filer_module_http.Prelude.{ℕ, Text}
use book_filer_module_http.Prelude.Int.{ℤ}

-- A `double` is its bit pattern; the program looks into none.
pub data Variant : Type 0 where
  int : ℤ → Variant
  double : ℕ → Variant
  string : Text → Variant
