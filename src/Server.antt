-- ===== src/Server.antt =====
-- `ServerImpl` of src/core/Server.hpp and src/core/Server.cpp, and `ServerState` of
-- src/core/ServerState.hpp: the settings and the start. Its routes are in Server/Routes.antt.
pub mod Start
pub mod Routes
pub mod Dispatch
pub mod Certificate
use book_filer_module_http.Prelude.{
  ℕ, ◌+◌, ◌-◌, ◌%◌, ◌^◌, Bool, true, false, Option, none, some, List, [], ◌∷◌, ◌++◌, if◌then◌else◌,
  Text, codes, Outcome, returns, ◌>>=◌, or_throw, deref, ltb,
}
use book_filer_module_http.Prelude.Int.{ℤ, pos, negsuc, ltb_ℤ, success, failure}
use book_filer_module_http.Json.{
  JsonLib, server_member, get_member_string, get_member_int, keep, keep_some,
}

-- `boost::asio::ip::address`; `make_address` throws on a text that is none.
pub record AddressLib : Type 1 where
  pub Address : Type 0
  pub new_address : Address
  pub make_address : Text → Option Address

-- `static_cast<unsigned short>`.
unfoldable pub to_unsigned_short : ℤ → ℕ
to_unsigned_short (pos n) = n % 2 ^ 16
to_unsigned_short (negsuc n) = 2 ^ 16 - 1 - n % 2 ^ 16

unfoldable pub max_ℤ : ℤ → ℤ → ℤ
max_ℤ a b = if ltb_ℤ a b then b else a

module _ (J : JsonLib) (N : AddressLib) where
  -- The constructor leaves the numbers without a value: `none`.
  pub record ServerState : Type 0 where
    pub port : Option ℕ
    pub threads_num : Option ℤ
    pub port_int : Option ℤ
    pub address : N.Address
    pub doc_root_str : Text
    pub address_str : Text

  abbrev pub new_state : ServerState
  new_state = record {
    port = none;
    threads_num = none;
    port_int = none;
    address = N.new_address;
    doc_root_str = [];
    address_str = [];
  }

  -- A listener that `run` has spawned: the end point it was given.
  pub record Endpoint : Type 0 where
    pub endpoint_address : N.Address
    pub endpoint_port : ℕ

  pub record ServerImpl : Type 0 where
    pub settings_doc : Option J.Value
    pub server_state : ServerState
    -- The argument of `io_context`, and the threads that run it.
    pub concurrency_hint : Option ℕ
    pub threads : ℕ
    pub listeners : List Endpoint

  abbrev pub new_server : ServerImpl
  new_server = record {
    settings_doc = none;
    server_state = new_state;
    concurrency_hint = none;
    threads = 0;
    listeners = [];
  }

  unfoldable pub set_settings_doc : Option J.Value → ServerImpl → ServerImpl × ℤ
  set_settings_doc doc s = (record s { settings_doc = doc }, success)

  -- The four members that are read, each kept as it was where it is missing or has another type.
  unfoldable pub read_settings : J.Value → ServerState → ServerState
  read_settings v st = record st {
    address_str = keep (get_member_string J v (codes "address")) st.address_str;
    doc_root_str = keep (get_member_string J v (codes "docRoot")) st.doc_root_str;
    port_int = keep_some (get_member_int J v (codes "port")) st.port_int;
    threads_num = keep_some (get_member_int J v (codes "threadNum")) st.threads_num;
  }

  -- The three assignments behind them. A number that has no value must not be read.
  unfoldable pub derive_settings : ServerState → Outcome ServerState
  derive_settings st = do
    a ← or_throw (N.make_address st.address_str)
    p ← deref st.port_int
    t ← deref st.threads_num
    returns (record st {
      address = a;
      port = some (to_unsigned_short p);
      threads_num = some (max_ℤ (pos 1) t);
    })

  unfoldable pub extract_settings : ServerImpl → Outcome (ServerImpl × ℤ)
  extract_settings s = do
    doc ← deref s.settings_doc
    elim (server_member J doc) [
      | none ↦ returns (s, failure)
      | some v ↦ do
        st ← derive_settings (read_settings v s.server_state)
        returns (record s { server_state = st }, success)
    ]

  -- `run`, where `hardware_concurrency()` gives `hardware`. What `extract_settings` returns is not
  -- looked at; the message reads the number of threads before it is overwritten.
  unfoldable pub run : ℕ → ServerImpl → Outcome (ServerImpl × ℤ)
  unfolding extract_settings
  run hardware s = do
    extracted ← extract_settings s
    let st = extracted.0.server_state
    shown ← deref st.threads_num
    port ← deref st.port
    returns (
      record extracted.0 {
        server_state = record st { threads_num = some (pos hardware) };
        concurrency_hint = some hardware;
        threads = extracted.0.threads + hardware;
        listeners =
            extracted.0.listeners
            ++ record { endpoint_address = st.address; endpoint_port = port } ∷ [];
      },
      success,
    )
