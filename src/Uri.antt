-- ===== src/Uri.antt =====
-- Percent encoding and decoding: `Util::uriEncode` and `Util::uriDecode` of src/core/Util.cpp.
pub mod RoundTrip
pub mod Safety
pub mod Decodes
pub mod Encodes
use book_filer_module_http.Prelude.{
  ℕ, ◌+◌, ◌-◌, ◌*◌, ◌/◌, ◌%◌, Bool, true, false, ◌&&◌, ◌||◌, Option, none, some, List, [], ◌∷◌,
  ◌++◌, leb, ltb, ◌==◌, if◌then◌else◌, contains, Text, codes,
}
use book_filer_module_http.Prelude.Int.{ℤ, success, failure}

-- A letter, a digit, `-`, `_`, `.` or `~`.
unfoldable pub is_unreserved : ℕ → Bool
is_unreserved c =
    (leb b'a' c && leb c b'z')
    || (leb b'A' c && leb c b'Z')
    || (leb b'0' c && leb c b'9')
    || c == b'-'
    || c == b'_'
    || c == b'.'
    || c == b'~'

-- The member `illegalCharStr`.
abbrev pub illegal_chars : Text
illegal_chars = codes "%<>{}|\\\"^`"

-- `c <= 0x20 || c >= 0x7F` for a signed `char` with the byte `c`: a byte from 128 is negative.
unfoldable pub is_control : ℕ → Bool
is_control c = leb c 0x20 || leb 128 c || c == 0x7F

-- `std::hex << std::uppercase`.
unfoldable pub hex_digit : ℕ → ℕ
hex_digit d = if ltb d 10 then b'0' + d else b'A' + d - 10

-- `%` and the two digits that `setw(2)` and `fill('0')` give.
unfoldable pub escape : ℕ → Text
escape c = b'%' ∷ hex_digit (c / 16) ∷ hex_digit (c % 16) ∷ []

-- The test of the second branch.
unfoldable pub must_escape : Text → ℕ → Bool
must_escape reserved c = is_control c || contains illegal_chars c || contains reserved c

-- What one round of the loop appends.
unfoldable pub encode_char : Text → ℕ → Text
encode_char reserved c =
    if is_unreserved c then c ∷ [] else if must_escape reserved c then escape c else c ∷ []

-- The result is appended to the text that the third argument refers to.
unfoldable pub uri_encode : Text → Text → Text → ℤ × Text
uri_encode [] reserved encoded = (success, encoded)
uri_encode (c ∷ str) reserved encoded = uri_encode str reserved (encoded ++ encode_char reserved c)

-- The value of a hexadecimal digit of either case.
unfoldable pub hex_value : ℕ → Option ℕ
hex_value c =
    if leb b'0' c && leb c b'9'
    then some (c - b'0')
    else if leb b'A' c && leb c b'F'
    then some (c - b'A' + 10)
    else if leb b'a' c && leb c b'f'
    then some (c - b'a' + 10)
    else none

-- What was decoded before an error stays in the second argument. `c *= 16` wraps in a `char`.
unfoldable pub uri_decode : Text → Text → ℤ × Text
uri_decode [] decoded = (success, decoded)
uri_decode (c ∷ []) decoded = if c == b'%' then (failure, decoded) else (success, decoded ++ c ∷ [])
uri_decode (c ∷ hi ∷ []) decoded = elim (c == b'%') [
  | true ↦ (failure, decoded)
  | false ↦ uri_decode (hi ∷ []) (decoded ++ c ∷ [])
]
uri_decode (c ∷ hi ∷ lo ∷ rest) decoded = elim (c == b'%') [
  | true ↦ elim (hex_value hi) [
    | none ↦ (failure, decoded)
    | some h ↦ elim (hex_value lo) [
      | none ↦ (failure, decoded)
      | some l ↦ uri_decode rest (decoded ++ ((h * 16 + l) % 256) ∷ [])
    ]
  ]
  | false ↦ uri_decode (hi ∷ lo ∷ rest) (decoded ++ c ∷ [])
]
