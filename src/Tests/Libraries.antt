-- ===== src/Tests/Libraries.antt =====
-- Libraries that meet the laws of the records: messages and addresses as records of their parts, a
-- signal as the list of its slots, a JSON value as a literal or an object.
use book_filer_module_http.Prelude.{
  ℕ, ◌≡◌, refl, Bool, true, false, Bool-cases, inl, inr, Option, none, some, List, [], ◌∷◌, ◌++◌,
  ◌==◌, if◌then◌else◌, arith, Text, codes, text_eq,
}
use book_filer_module_http.Prelude.Int.{ℤ, pos}
use book_filer_module_http.StdMap.{find}
use book_filer_module_http.Query.{Splitter, NoAmpersand}
use book_filer_module_http.Url.{UrlLib}
use book_filer_module_http.Message.{Verb, get, RequestLib, ResponseLib}
use book_filer_module_http.Env.{Env}
use book_filer_module_http.Route.{Handler, SignalLib, insert_slot}
use book_filer_module_http.Json.{JsonLib, get_member_string, get_member_int}
use book_filer_module_http.Certificate.{OpenSsl}
use book_filer_module_http.Certificate.Options.{
  Literal, int_literal, string_literal, literal_string, literal_int, JsonBuilder,
}
use book_filer_module_http.Server.{AddressLib}

abbrev pub cons_part : ℕ → List Text → List Text
cons_part c [] = (c ∷ []) ∷ []
cons_part c (p ∷ ps) = (c ∷ p) ∷ ps

unfoldable pub split_ampersand : Text → List Text
split_ampersand [] = [] ∷ []
split_ampersand (c ∷ cs) =
    let rest = split_ampersand cs in if c == b'&' then [] ∷ rest else cons_part c rest

pub split_ampersand_one : (s : Text) → NoAmpersand s → split_ampersand s ≡ s ∷ []
unfolding split_ampersand
split_ampersand_one [] h = refl
split_ampersand_one (c ∷ cs) (n, h) = rw n (rw (split_ampersand_one cs h) refl)

pub split_ampersand_more :
    (s rest : Text) → NoAmpersand s → split_ampersand (s ++ b'&' ∷ rest) ≡ s ∷ split_ampersand rest
unfolding split_ampersand
split_ampersand_more [] rest h = refl
split_ampersand_more (c ∷ cs) rest (n, h) = rw n (rw (split_ampersand_more cs rest h) refl)

abbrev pub ampersands : Splitter
ampersands = record {
  split = split_ampersand;
  split_one = split_ampersand_one;
  split_more = split_ampersand_more;
}

pub record Address : Type 0 where
  pub scheme : Text
  pub host : Text
  pub path : Text
  pub query : Text

pub set_path_sees :
    (p : Text) (a b : Address)
    → ◌≡◌ {A = Option Address} (some (record a { path = p })) (some b)
    → b.path ≡ p
set_path_sees p a b h = ground arith

pub set_host_keeps :
    (h : Text) (a b : Address)
    → ◌≡◌ {A = Option Address} (some (record a { host = h })) (some b)
    → b.path ≡ a.path
set_host_keeps h a b e = ground arith

abbrev pub addresses : UrlLib
addresses = record {
  Address = Address;
  new_address = record { scheme = []; host = []; path = []; query = [] };
  set_encoded_url = λ t a. some (record a { path = t });
  set_scheme = λ t a. some (record a { scheme = t });
  set_host = λ t a. some (record a { host = t });
  set_encoded_host = λ t a. some (record a { host = t });
  set_encoded_path = λ t a. some (record a { path = t });
  set_query_part = λ t a. some (record a { query = t });
  set_encoded_query_part = λ t a. some (record a { query = t });
  encoded_url = λ a. a.scheme ++ codes "://" ++ a.host ++ a.path ++ b'?' ∷ a.query;
  scheme = λ a. a.scheme;
  encoded_host = λ a. a.host;
  encoded_path = λ a. a.path;
  path_set = set_path_sees;
  path_kept = set_host_keeps;
}

pub record RequestMessage : Type 0 where
  pub verb : Verb
  pub verb_text : Text
  pub target_text : Text
  pub number : ℕ
  pub kept : Bool
  pub fields : List (Text × Text)

abbrev pub request_messages : RequestLib
request_messages = record {
  Message = RequestMessage;
  new_message = record {
    verb = get;
    verb_text = codes "GET";
    target_text = [];
    number = 11;
    kept = true;
    fields = [];
  };
  method = λ m. m.verb;
  method_string = λ m. m.verb_text;
  target = λ m. m.target_text;
  find_field = λ k m. find k m.fields;
  version = λ m. m.number;
  keep_alive = λ m. m.kept;
  set_method = λ v m. record m { verb = v };
  set_target = λ t m. record m { target_text = t };
  set_keep_alive = λ b m. record m { kept = b };
  set_field = λ k v m. record m { fields = (k, v) ∷ m.fields };
  method-set_method = λ v m. refl;
  method-set_target = λ t m. refl;
  method-set_keep_alive = λ b m. refl;
  method-set_field = λ k v m. refl;
  target-set_target = λ t m. refl;
  target-set_keep_alive = λ b m. refl;
  target-set_field = λ k v m. refl;
  keep_alive-set_keep_alive = λ b m. refl;
  keep_alive-set_host = λ v m. refl;
}

pub record ResponseMessage : Type 0 where
  pub code : ℕ
  pub number : ℕ
  pub kept : Bool
  pub text : Text
  pub fields : List (Text × Text)

abbrev pub response_messages : ResponseLib
response_messages = record {
  Message = ResponseMessage;
  new_message = record { code = 200; number = 11; kept = true; text = []; fields = [] };
  status = λ m. m.code;
  version = λ m. m.number;
  keep_alive = λ m. m.kept;
  body = λ m. m.text;
  set_result = λ n m. record m { code = n };
  set_version = λ n m. record m { number = n };
  set_field = λ k v m. record m { fields = (k, v) ∷ m.fields };
  set_keep_alive = λ b m. record m { kept = b };
  set_body = λ t m. record m { text = t };
  set_content_length = λ n m. m;
  prepare_payload = λ m. m;
  status-set_result = λ n m. refl;
  status-set_version = λ n m. refl;
  status-set_field = λ k v m. refl;
  status-set_keep_alive = λ b m. refl;
  status-set_body = λ t m. refl;
  status-set_content_length = λ n m. refl;
  status-prepare_payload = λ m. refl;
  keep_alive-set_keep_alive = λ b m. refl;
  keep_alive-set_body = λ t m. refl;
  keep_alive-set_content_length = λ n m. refl;
  keep_alive-prepare_payload = λ m. refl;
  body-set_body = λ t m. refl;
  body-set_content_length = λ n m. refl;
  body-prepare_payload = λ m. refl;
}

-- The application counts.
abbrev pub libraries : Env
libraries = record {
  splitter = ampersands;
  urls = addresses;
  requests = request_messages;
  responses = response_messages;
  server_version = codes "Boost.Beast/290";
  browser_family = λ agent. codes "Chrome";
  App = ℕ;
}

abbrev pub signals : SignalLib (Handler libraries)
signals = record {
  Signal = List (ℤ × Handler libraries);
  new_signal = [];
  connect = λ p f s. insert_slot p f s;
  slots = λ s. s;
  slots-new_signal = refl;
  slots-connect = λ p f s. refl;
}

-- A JSON value: a literal, an object of literals, or an object with one member.
pub data JsonValue : Type 0 where
  literal : Literal → JsonValue
  object : List (Text × Literal) → JsonValue
  nested : Text → JsonValue → JsonValue

abbrev pub object_member : Text → List (Text × Literal) → Option JsonValue
object_member key [] = none
object_member key ((k, v) ∷ members) =
    if text_eq k key then some (literal v) else object_member key members

abbrev pub json_member : Text → JsonValue → Option JsonValue
json_member key (literal v) = none
json_member key (object members) = object_member key members
json_member key (nested k v) = if text_eq k key then some v else none

abbrev pub json_string : JsonValue → Option Text
json_string (literal (string_literal t)) = some t
json_string _ = none

abbrev pub json_int : JsonValue → Option ℤ
json_int (literal (int_literal n)) = some n
json_int _ = none

abbrev pub json_is_object : JsonValue → Bool
json_is_object (literal v) = false
json_is_object _ = true

abbrev pub json : JsonLib
json = record {
  Value = JsonValue;
  is_object = json_is_object;
  member = json_member;
  as_string = json_string;
  as_int = json_int;
  as_bool = λ v. none;
}

pub object-string :
    (members : List (Text × Literal)) (key : Text)
    → get_member_string json (object members) key ≡ literal_string key members
unfolding get_member_string
object-string [] key = refl
object-string ((k, int_literal n) ∷ members) key = elim (Bool-cases (text_eq k key)) [
  | inl e ↦ rw e refl
  | inr e ↦ rw e (object-string members key)
]
object-string ((k, string_literal t) ∷ members) key = elim (Bool-cases (text_eq k key)) [
  | inl e ↦ rw e refl
  | inr e ↦ rw e (object-string members key)
]

pub object-int :
    (members : List (Text × Literal)) (key : Text)
    → get_member_int json (object members) key ≡ literal_int key members
unfolding get_member_int
object-int [] key = refl
object-int ((k, int_literal n) ∷ members) key = elim (Bool-cases (text_eq k key)) [
  | inl e ↦ rw e refl
  | inr e ↦ rw e (object-int members key)
]
object-int ((k, string_literal t) ∷ members) key = elim (Bool-cases (text_eq k key)) [
  | inl e ↦ rw e refl
  | inr e ↦ rw e (object-int members key)
]

abbrev pub json_objects : JsonBuilder json
json_objects = record {
  object_of = object;
  is_object-object_of = λ members. refl;
  string-object_of = object-string;
  int-object_of = object-int;
}

-- Every call succeeds, and every object is written as a text.
abbrev pub open_ssl : OpenSsl
open_ssl = record {
  code_of = λ call. pos 1;
  extension_made = λ nid v. true;
  bio_new = true;
  write_x509 = λ x. (pos 1, codes "CERTIFICATE");
  write_private_key = λ k. (pos 1, codes "PRIVATE KEY");
  write_dh = λ d. (pos 1, codes "DH PARAMETERS");
}

abbrev pub ip_addresses : AddressLib
ip_addresses = record { Address = Text; new_address = []; make_address = λ t. some t }
