-- ===== src/Client.antt =====
-- `ClientImpl` of src/core/Client.hpp and src/core/Client.cpp.
pub mod Exchange
use book_filer_module_http.Prelude.{
  ℕ, ◌+◌, Bool, true, false, Option, none, some, List, [], ◌∷◌, ◌==◌, if◌then◌else◌, Text, codes,
  text_eq, Outcome, returns, throws, undefined, ◌>>=◌, or_throw, deref,
}
use book_filer_module_http.Prelude.Int.{ℤ, success, failure}
use book_filer_module_http.Variant.{Variant, int, double, string}
use book_filer_module_http.Json.{JsonLib, get_member_string, get_member_bool, keep, keep_some}
use book_filer_module_http.Env.{Env}
use book_filer_module_http.Message.{get, post}
use book_filer_module_http.Url
use book_filer_module_http.Url.{UrlImpl, new_url, with_address, target, get_encoded_host}
use book_filer_module_http.Request
use book_filer_module_http.Request.{RequestImpl, new_request, set_request}
use book_filer_module_http.Response.{ResponseImpl, new_response, set_response}

-- The network as a client sees it: whether `connect` gets through to the host, on port 443 and over
-- TLS, and what comes back for a request, where neither the write nor the read throws.
pub record Network (E : Env) : Type 0 where
  pub connects : Text → Bool
  pub answer_to : Text → E.requests.Message → Option E.responses.Message

-- The text in front of the first zero, which a C string is read as.
unfoldable pub c_str : Text → Text
c_str [] = []
c_str (c ∷ cs) = let rest = c_str cs in if c == 0 then [] else c ∷ rest

module _ (E : Env) (J : JsonLib) where
  open E use {requests, responses}

  -- `responseStr` points into the body of a response; the number says into which.
  pub data View : Type 0 where
    empty_view : View
    view : ℕ → Text → View

  -- `requestBeast` is the message of `request`. The flags have no value before they are set. `exchanges` counts the response objects made.
  pub record ClientImpl : Type 0 where
    pub url : UrlImpl E.urls
    pub settings_doc : Option J.Value
    pub response_json_doc : Option J.Value
    pub method : Text
    pub ca_info_path : Text
    pub response_str : View
    pub request : RequestImpl E
    pub response : Option (ResponseImpl responses)
    pub response_beast : Option responses.Message
    pub exchanges : ℕ
    pub skip_peer_verification : Option Bool
    pub skip_hostname_verification : Option Bool

  abbrev bare_client : UrlImpl E.urls → Text → Option Bool → ClientImpl
  bare_client u method flag = record {
    url = u;
    settings_doc = none;
    response_json_doc = none;
    method = method;
    ca_info_path = [];
    response_str = empty_view;
    request = set_request E requests.new_message (new_request E);
    response = none;
    response_beast = none;
    exchanges = 0;
    skip_peer_verification = flag;
    skip_hostname_verification = flag;
  }

  -- `ClientImpl()`.
  unfoldable pub new_client : ClientImpl
  new_client = bare_client (new_url E.urls) (codes "GET") (some false)

  abbrev with_method : Text → Outcome (UrlImpl E.urls) → Outcome (UrlImpl E.urls × Text)
  with_method method o = o >>= λ u. returns (u, method)

  -- One option of `ClientImpl(map)`: the URL, and the method.
  unfoldable pub client_option :
      Text → Variant → UrlImpl E.urls × Text → Outcome (UrlImpl E.urls × Text)
  client_option key (int n) o = returns o
  client_option key (double d) o = returns o
  client_option key (string v) (u, method) =
      if text_eq key (codes "method")
      then returns (u, v)
      else if text_eq key (codes "host")
      then with_method method
          (with_address E.urls u (or_throw (E.urls.set_encoded_host v u.address)))
      else if text_eq key (codes "path")
      then with_method method
          (with_address E.urls u (or_throw (E.urls.set_encoded_path v u.address)))
      else if text_eq key (codes "scheme")
      then with_method method (with_address E.urls u (or_throw (E.urls.set_scheme v u.address)))
      else if text_eq key (codes "query")
      then returns ((Url.set_encoded_query E.urls E.splitter v u).0, method)
      else returns (u, method)

  unfoldable pub client_options :
      List (Text × Variant) → UrlImpl E.urls × Text → Outcome (UrlImpl E.urls × Text)
  unfolding client_option
  client_options [] o = returns o
  client_options ((key, v) ∷ map) o = do o' ← client_option key v o; client_options map o'

  -- The scheme that is taken where none is given.
  unfoldable pub default_scheme : Text → UrlImpl E.urls → Outcome (UrlImpl E.urls)
  default_scheme method u = elim (E.urls.scheme u.address) [
    | c ∷ cs ↦ returns u
    | [] ↦
        if text_eq method (codes "GET")
        then with_address E.urls u (or_throw (E.urls.set_scheme (codes "https") u.address))
        else returns u
  ]

  -- `ClientImpl(map)`, which sets neither a method nor the flags.
  unfoldable pub client_of_options : List (Text × Variant) → Outcome ClientImpl
  unfolding client_options default_scheme
  client_of_options map = do
    o ← client_options map (new_url E.urls, [])
    u ← default_scheme o.1 o.0
    returns (bare_client u o.1 none)

  unfoldable pub set_settings_doc : Option J.Value → ClientImpl → ClientImpl × ℤ
  set_settings_doc doc c = (record c { settings_doc = doc }, success)

  -- No caller.
  unfoldable pub load_settings_doc : ClientImpl → Outcome (ClientImpl × ℤ)
  load_settings_doc c = do
    doc ← deref c.settings_doc
    returns (
        if J.is_object doc
        then (
          record c {
            ca_info_path = keep (get_member_string J doc (codes "CaInfoPath")) c.ca_info_path;
            skip_peer_verification =
                keep_some (get_member_bool J doc (codes "skipPeerVerification"))
                  c.skip_peer_verification;
            skip_hostname_verification =
                keep_some (get_member_bool J doc (codes "skipHostnameVerification"))
                  c.skip_hostname_verification;
          },
          success,
        )
        else (c, failure))

  unfoldable pub set_url : Text → ClientImpl → Outcome (ClientImpl × ℤ)
  set_url text c = do
    u ← with_address E.urls c.url (or_throw (E.urls.set_encoded_url text c.url.address))
    returns (record c { url = u }, success)

  unfoldable pub set_query : List (Text × Text) → ClientImpl → ClientImpl × ℤ
  set_query fields c = (record c { url = (Url.set_query E.urls fields c.url).0 }, success)

  unfoldable pub set_header : List (Text × Text) → ClientImpl → Outcome (ClientImpl × ℤ)
  set_header headers c = do
    done ← Request.set_header E headers c.request
    returns (record c { request = done.0 }, success)

  -- Nothing is done with the cookies.
  unfoldable pub set_cookie : List (Text × Text) → ClientImpl → ClientImpl × ℤ
  set_cookie cookies c = (c, success)

  unfoldable pub set_method : Text → ClientImpl → ClientImpl × ℤ
  set_method method c = (record c { method = method }, success)

  -- The request that `end` sends: of the method, only whether it is POST.
  unfoldable pub prepare : ClientImpl → requests.Message → requests.Message
  prepare c m =
      let m1 = requests.set_method (if text_eq c.method (codes "POST") then post else get) m in
      let m2 = requests.set_target (target E.urls c.url) m1 in
      let m3 = requests.set_keep_alive false m2 in
      requests.set_field (codes "Host") (get_encoded_host E.urls c.url) m3

  -- What a response leaves in the client: only one with status 200 replaces the text and the JSON.
  unfoldable pub take_response :
      (Text → Option J.Value) → responses.Message → ClientImpl → ClientImpl
  take_response parse_json res c =
      if responses.status res == 200
      then record c {
        response_str = view c.exchanges (responses.body res);
        response_json_doc = parse_json (c_str (responses.body res));
      }
      else c

  -- The response object of an exchange, and what it leaves.
  unfoldable pub answered :
      (Text → Option J.Value) → requests.Message → responses.Message → ClientImpl → ClientImpl
  unfolding take_response
  answered parse_json message res c = take_response parse_json res (record c {
    request = set_request E message c.request;
    response = some (set_response responses res (new_response responses));
    response_beast = some res;
    exchanges = c.exchanges + 1;
  })

  -- `connect`, which throws where it does not get through.
  unfoldable pub connect : Network E → Text → Outcome Bool
  connect net hostname = if net.connects hostname then returns true else throws

  -- `end`. The message at its start reads both flags.
  unfoldable pub end : Network E → (Text → Option J.Value) → ClientImpl → Outcome (ClientImpl × ℤ)
  unfolding prepare answered connect
  end net parse_json c = do
    skip_peer ← deref c.skip_peer_verification
    skip_hostname ← deref c.skip_hostname_verification
    let hostname = get_encoded_host E.urls c.url
    connected ← connect net hostname
    m ← deref c.request.request_beast
    let message = prepare c m
    res ← or_throw (net.answer_to hostname message)
    returns (answered parse_json message res c, success)

  -- The view is handed out also where the response that it points into is gone.
  unfoldable pub get_response_str : ClientImpl → Outcome (Option Text)
  get_response_str c = elim c.response_str [
    | empty_view ↦ returns none
    | view n [] ↦ returns none
    | view n (b ∷ bs) ↦ if n == c.exchanges then returns (some (b ∷ bs)) else undefined
  ]

  unfoldable pub get_response_json : ClientImpl → Option J.Value
  get_response_json c = c.response_json_doc
