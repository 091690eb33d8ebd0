-- ===== src/Tests/Requests.antt =====
-- The theorems on URLs, requests and cookies at concrete inputs.
use book_filer_module_http.Prelude.{
  ◌≡◌, refl, ◌≢◌, ◌↔◌, true, none, some, List, [], ◌∷◌, ◌++◌, arith, Text, codes, text_compare, All,
  returns, if◌then◌else◌,
}
use book_filer_module_http.Prelude.Int.{pos, success, eqb_ℤ}
use book_filer_module_http.Variant.{Variant, string}
use book_filer_module_http.Url
use book_filer_module_http.Query.{flatten_query_map}
use book_filer_module_http.Url.{
  UrlImpl, new_url, url_of_options, set_query, get_encoded_query, target, get_query_key,
}
use book_filer_module_http.Url.Laws.{url_of_options_has_no_query}
use book_filer_module_http.Request
use book_filer_module_http.Request.{
  RequestImpl, new_request, set_request, parse_request, path, method, route_validate,
}
use book_filer_module_http.Request.Parse.{
  target_path, query_value, parse_request_lem, route_validate_iff,
}
use book_filer_module_http.Cookie.{
  CookieImpl, Clock, new_cookie, attribute_of, cookie_of_map, cookie_string, quoted, escape,
  unescape,
}
use book_filer_module_http.Cookie.Build.{unescape-escape}
use book_filer_module_http.Cookie.Parts.{header_parts}
use book_filer_module_http.Cookie.Header.{
  IsClean, netscape_parts, rfc2109_parts, header_parts-cookie_string,
}
use book_filer_module_http.Tests.Libraries.{
  Address, addresses, libraries, request_messages, RequestMessage,
}

abbrev some_options : List (Text × Variant)
some_options =
    (codes "host", string (codes "h"))
    ∷ (codes "path", string (codes "/p"))
    ∷ (codes "query", string (codes "a=1"))
    ∷ []

abbrev made_url : UrlImpl addresses
made_url = record (new_url addresses) {
  address = record { scheme = []; host = codes "h"; path = codes "/p"; query = codes "a=1" };
}

url_of_options-made : url_of_options addresses some_options ≡ returns made_url
unfolding url_of_options Url.url_options Url.url_option text_compare
url_of_options-made = refl

url_of_options_has_no_query_example :
    (target addresses made_url ≡ addresses.encoded_path made_url.address ++ b'?' ∷ [])
    × (get_query_key addresses (codes "a") made_url ≡ none)
url_of_options_has_no_query_example =
    url_of_options_has_no_query addresses some_options made_url (codes "a") url_of_options-made

abbrev some_message : RequestMessage
some_message = record request_messages.new_message {
  target_text = codes "/p?a=1";
  fields = (codes "Host", codes "h") ∷ [];
}

abbrev parsed : RequestImpl libraries
parsed = record (new_request libraries) {
  request_beast = some some_message;
  url = record {
    address = record { scheme = []; host = codes "h"; path = codes "/p"; query = [] };
    query = record { query_map = (codes "a", codes "1") ∷ []; query_encoded = codes "a=1" };
  };
  method_str = codes "GET";
}

parsed-by :
    parse_request libraries (set_request libraries some_message (new_request libraries))
    ≡ returns (parsed, success)
unfolding parse_request set_request text_compare book_filer_module_http.StdMap.find
    Url.set_encoded_query book_filer_module_http.Query.set_encoded_query
    book_filer_module_http.Query.insert_parts book_filer_module_http.Tests.Libraries.split_ampersand
    book_filer_module_http.StdMap.insert book_filer_module_http.Query.decoded
    book_filer_module_http.Uri.uri_decode book_filer_module_http.Query.part_key
    book_filer_module_http.Query.part_value
parsed-by = refl

parse_request_lem_example :
    (success ≡ success)
    × (path libraries parsed ≡ target_path (codes "/p?a=1"))
    × (method libraries parsed ≡ codes "GET")
    × ((key : Text)
        → Request.get_query_key libraries key parsed ≡ query_value libraries key (codes "/p?a=1"))
parse_request_lem_example = parse_request_lem libraries some_message parsed success parsed-by

route_validate_iff_example :
    (route_validate libraries (codes "GET") (codes "/q") parsed ≡ success)
    ↔ ((method libraries parsed ≡ codes "GET") × (path libraries parsed ≡ codes "/q"))
route_validate_iff_example = route_validate_iff libraries (codes "GET") (codes "/q") parsed

unescape-escape_example : (unescape (escape (codes "a")) ≡ codes "a") ↔ (codes "a" ≡ [])
unescape-escape_example = unescape-escape (codes "a")

abbrev clock : Clock
clock = record {
  seconds_until = λ date. pos 60;
  date_after = λ seconds. codes "Thu, 01 Jan 1970 00:00:00 GMT";
}

abbrev some_cookie : CookieImpl
some_cookie = record new_cookie {
  name = codes "id";
  value = codes "42";
  path = codes "/";
  http_only = true;
}

some_cookie-IsClean : IsClean clock some_cookie
some_cookie-IsClean = record {
  name = ground arith;
  value = ground arith;
  comment = tt;
  domain = tt;
  path = ground arith;
  priority = tt;
  date = ground arith;
}

header_parts-cookie_string_example : header_parts (cookie_string clock some_cookie) ≡ (
    if eqb_ℤ some_cookie.version (pos 0)
    then (some_cookie.name ++ codes "=" ++ some_cookie.value) ∷ netscape_parts clock some_cookie
    else (some_cookie.name ++ codes "=" ++ quoted "" some_cookie.value) ∷ rfc2109_parts some_cookie)
header_parts-cookie_string_example =
    header_parts-cookie_string clock some_cookie some_cookie-IsClean

id-no_attribute : attribute_of (codes "id") ≡ none
unfolding attribute_of text_compare
id-no_attribute = refl

path-attribute : All (λ (e : Text × Text). attribute_of e.0 ≢ none) ((codes "path", codes "/") ∷ [])
unfolding attribute_of text_compare
path-attribute = ((λ e. cc), tt)

cookie-built :
    cookie_of_map clock ([] ++ (codes "id", codes "42") ∷ (codes "path", codes "/") ∷ [])
    ≡ returns (record new_cookie { name = codes "id"; value = codes "42"; path = codes "/" })
unfolding cookie_of_map attribute_of text_compare book_filer_module_http.Cookie.cookie_entries
    book_filer_module_http.Cookie.cookie_entry book_filer_module_http.Cookie.set_attribute
cookie-built = refl
