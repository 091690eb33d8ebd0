-- ===== src/Request.antt =====
-- `RequestImpl` of src/core/Request.hpp and src/core/Request.cpp, and `UserAgentImpl` of
-- src/core/RequestUserAgent.cpp.
pub mod Parse
use book_filer_module_http.Prelude.{
  suc, Option, none, some, List, [], ◌∷◌, Text, codes, text_eq, take, drop, find_first_of,
  if◌then◌else◌, Outcome, returns, ◌>>=◌, or_throw, deref,
}
use book_filer_module_http.Prelude.Int.{ℤ, success, failure}
use book_filer_module_http.Cookie.{CookieImpl, new_cookie}
use book_filer_module_http.Url
use book_filer_module_http.Url.{UrlImpl, new_url, with_address}
use book_filer_module_http.Message.{RequestLib, ResponseLib}
use book_filer_module_http.Env.{Env}

-- The text that `UserAgentImpl()` has parsed.
abbrev pub fixed_user_agent : Text
fixed_user_agent =
    codes
      "Mozilla/5.0 (Windows NT 10.0; Win64; x64) AppleWebKit/537.36 (KHTML, like Gecko) Chrome/86.0.4240.183 Safari/537.36"

module _ (E : Env) where
  open E use {urls, requests, splitter, browser_family}

  -- The two maps of cookies are never filled, and are left out. `user_agent` is the browser family
  -- that the member `userAgent` holds.
  pub record RequestImpl : Type 0 where
    pub request_beast : Option requests.Message
    pub url : UrlImpl urls
    pub method_str : Text
    pub referer_str : Text
    pub user_agent_str : Text
    pub user_agent : Text

  -- `RequestImpl()`.
  abbrev pub new_request : RequestImpl
  new_request = record {
    request_beast = none;
    url = new_url urls;
    method_str = [];
    referer_str = [];
    user_agent_str = [];
    user_agent = browser_family fixed_user_agent;
  }

  unfoldable pub set_request : requests.Message → RequestImpl → RequestImpl
  set_request m r = record r { request_beast = some m }

  unfoldable pub method : RequestImpl → Text
  method r = r.method_str

  unfoldable pub host : RequestImpl → Text
  host r = urls.encoded_host r.url.address

  unfoldable pub path : RequestImpl → Text
  path r = urls.encoded_path r.url.address

  set_fields : List (Text × Text) → requests.Message → requests.Message
  set_fields [] m = m
  set_fields ((k, v) ∷ headers) m = set_fields headers (requests.set_field k v m)

  -- The loop follows the message's pointer; with an empty map it does not.
  unfoldable pub set_header : List (Text × Text) → RequestImpl → Outcome (RequestImpl × ℤ)
  unfolding set_fields
  set_header [] r = returns (r, success)
  set_header (h ∷ headers) r = do
    m ← deref r.request_beast
    returns (record r { request_beast = some (set_fields (h ∷ headers) m) }, success)

  unfoldable pub get_encoded_query : RequestImpl → Text
  get_encoded_query r = Url.get_encoded_query urls r.url

  unfoldable pub get_query_key : Text → RequestImpl → Option Text
  get_query_key key r = Url.get_query_key urls key r.url

  -- The path and the query of a request target.
  unfoldable pub read_target : Text → UrlImpl urls → Outcome (UrlImpl urls)
  read_target target u = elim (find_first_of target b'?') [
    | none ↦ with_address urls u (or_throw (urls.set_encoded_path target u.address))
    | some pos ↦ do
      u' ← with_address urls u (or_throw (urls.set_encoded_path (take pos target) u.address))
      returns (Url.set_encoded_query urls splitter (drop (suc pos) target) u').0
  ]

  -- A header that is there replaces the text that was kept of it.
  abbrev pub header_or : Option Text → Text → Text
  header_or none kept = kept
  header_or (some v) kept = v

  unfoldable pub read_host : Option Text → UrlImpl urls → Outcome (UrlImpl urls)
  read_host none u = returns u
  read_host (some h) u = with_address urls u (or_throw (urls.set_host h u.address))

  unfoldable pub parse_message : requests.Message → RequestImpl → Outcome (RequestImpl × ℤ)
  unfolding read_target read_host
  parse_message m r = do
    u ← read_target (requests.target m) r.url
    u' ← read_host (requests.find_field (codes "Host") m) u
    returns (
      record r {
        request_beast = some m;
        url = u';
        method_str = requests.method_string m;
        user_agent_str = header_or (requests.find_field (codes "User-Agent") m) r.user_agent_str;
        referer_str = header_or (requests.find_field (codes "Referer") m) r.referer_str;
      },
      success,
    )

  -- `parseRequest()`.
  unfoldable pub parse_request : RequestImpl → Outcome (RequestImpl × ℤ)
  unfolding parse_message
  parse_request r = elim r.request_beast [
    | none ↦ returns (r, failure)
    | some m ↦ parse_message m r
  ]

  unfoldable pub route_validate : Text → Text → RequestImpl → ℤ
  unfolding method path
  route_validate method_ path_ r =
      if text_eq (method r) method_
      then if text_eq (path r) path_ then success else failure
      else failure

  -- A new cookie, whatever the name.
  unfoldable pub get_cookie : Text → RequestImpl → CookieImpl
  get_cookie name r = new_cookie

  unfoldable pub get_user_agent_browser : RequestImpl → Text
  get_user_agent_browser r = r.user_agent
