-- ===== src/Tests/Uris.antt =====
-- The theorems on texts, queries and addresses at concrete inputs.
use book_filer_module_http.Prelude.{
  ◌≡◌, refl, ◌≢◌, ◌↔◌, List, [], ◌∷◌, Text, codes, All, arith, IsByte, text_compare,
}
use book_filer_module_http.Prelude.Int.{success}
use book_filer_module_http.Uri.{
  is_unreserved, is_control, must_escape, hex_digit, escape, encode_char, uri_encode, uri_decode,
}
use book_filer_module_http.Uri.RoundTrip.{uri_decode-uri_encode}
use book_filer_module_http.Uri.Safety.{IsReservable}
use book_filer_module_http.Uri.Encodes.{Encodes, uri_encode_iff}
use book_filer_module_http.Uri.Decodes.{Decodes, uri_decode_iff}
use book_filer_module_http.StdMap.{IsSorted}
use book_filer_module_http.Query.{
  QueryImpl, new_query, set_query, set_encoded_query, get_encoded_query, get_query_key,
}
use book_filer_module_http.Query.RoundTrip.{IsByteMap, set_encoded_query-set_query}
use book_filer_module_http.Query.Lookup.{get_query_key-set_encoded_query, first_value, or_else}
use book_filer_module_http.Mime.Extensions.{NoDot}
use book_filer_module_http.Tests.Libraries.{ampersands}

abbrev some_text : Text
some_text = codes "a&b=100%"

some_text-bytes : All IsByte some_text
some_text-bytes = ground arith

separators : IsReservable (codes "&=")
unfolding is_unreserved
separators = ground arith

uri_decode-uri_encode_example :
    uri_decode (uri_encode some_text (codes "&=") []).1 [] ≡ (success, some_text)
uri_decode-uri_encode_example = uri_decode-uri_encode some_text (codes "&=") some_text-bytes

uri_encode_iff_example :
    (uri_encode some_text (codes "&=") [] ≡ (success, codes "a%26b%3D100%25"))
    ↔ Encodes (codes "&=") some_text (codes "a%26b%3D100%25")
uri_encode_iff_example =
    uri_encode_iff (codes "&=") some_text (codes "a%26b%3D100%25") some_text-bytes

uri_encode-some_text : uri_encode some_text (codes "&=") [] ≡ (success, codes "a%26b%3D100%25")
unfolding uri_encode encode_char escape hex_digit is_unreserved must_escape is_control
uri_encode-some_text = refl

uri_decode_iff_example :
    (uri_decode (codes "%41+b") [] ≡ (success, codes "A+b")) ↔ Decodes (codes "%41+b") (codes "A+b")
uri_decode_iff_example = uri_decode_iff (codes "%41+b") (codes "A+b")

abbrev some_fields : List (Text × Text)
some_fields = (codes "a", codes "1&2") ∷ (codes "b", codes "=") ∷ []

some_fields-nonempty : some_fields ≢ []
some_fields-nonempty = λ e. cc

some_fields-IsSorted : IsSorted some_fields
unfolding text_compare
some_fields-IsSorted = ((refl, tt), (tt, tt))

some_fields-bytes : IsByteMap some_fields
some_fields-bytes = ground arith

set_encoded_query-set_query_example :
    (set_encoded_query ampersands
      (get_encoded_query (set_query some_fields new_query).0)
      new_query).0.query_map
    ≡ some_fields
set_encoded_query-set_query_example =
    set_encoded_query-set_query ampersands some_fields new_query some_fields-nonempty
      some_fields-IsSorted some_fields-bytes

abbrev old_query : QueryImpl
old_query = record { query_map = some_fields; query_encoded = [] }

get_query_key-set_encoded_query_example :
    get_query_key (codes "a") (set_encoded_query ampersands (codes "a=new&c=3") old_query).0
    ≡ or_else
        (get_query_key (codes "a") old_query)
        (first_value (codes "a") (ampersands.split (codes "a=new&c=3")))
get_query_key-set_encoded_query_example =
    get_query_key-set_encoded_query ampersands (codes "a") (codes "a=new&c=3") old_query
      some_fields-IsSorted

html-dotless : All NoDot (codes "html")
html-dotless = ground arith
