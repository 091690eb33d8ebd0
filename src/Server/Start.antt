-- ===== src/Server/Start.antt =====
-- The start of a server: which settings let it start, and what then listens.
use book_filer_module_http.Prelude.{
  ℕ, ◌+◌, ◌*◌, ◌/◌, ◌<◌, ◌≡◌, ◌⊎◌, inl, inr, Option, Option-cases, none, some, [], ◌∷◌, Text, codes,
  Outcome, returns, throws, undefined, arith,
}
use book_filer_module_http.Prelude.Int.{ℤ, pos, negsuc, success}
use book_filer_module_http.Json.{JsonLib, server_member, get_member_string, get_member_int, keep}
use book_filer_module_http.Server.{
  AddressLib, ServerImpl, new_server, to_unsigned_short, set_settings_doc, read_settings,
  derive_settings, extract_settings, run,
}

-- The port that a number of the settings stands for: the number, up to multiples of 65536.
pub data IsPort : ℤ → ℕ → Type 0 where
  above : {a n : ℕ} (k : ℕ) → n < 65536 → a ≡ n + k * 65536 → IsPort (pos a) n
  below : {a n : ℕ} (k : ℕ) → n < 65536 → n + a + 1 ≡ k * 65536 → IsPort (negsuc a) n

-- A text that is given, or the empty one.
pub data Given : Option Text → Text → Type 0 where
  given : {t : Text} → Given (some t) t
  missing : Given none []

to_unsigned_short-IsPort : (p : ℤ) → IsPort p (to_unsigned_short p)
unfolding to_unsigned_short
to_unsigned_short-IsPort (pos a) = above (a / 65536) (omega arith) (omega arith)
to_unsigned_short-IsPort (negsuc a) = below (a / 65536 + 1) (omega arith) (omega arith)

keep-Given : (o : Option Text) → Given o (keep o [])
keep-Given none = missing
keep-Given (some t) = given

module _ (J : JsonLib) (N : AddressLib) where
  -- The start of a new server with a document of settings.
  abbrev pub started : ℕ → J.Value → Outcome (ServerImpl J N × ℤ)
  started hardware doc = run J N hardware (set_settings_doc J N (some doc) (new_server J N)).0

  -- The server that has started.
  abbrev pub Listens :
      ℕ → J.Value → Text → Text → N.Address → ℤ → ℕ → Outcome (ServerImpl J N × ℤ) → Type 0
  Listens hardware doc a r address p n outcome =
      outcome
      ≡ returns (
        record {
          settings_doc = some doc;
          server_state = record {
            port = some n;
            threads_num = some (pos hardware);
            port_int = some p;
            address = address;
            doc_root_str = r;
            address_str = a;
          };
          concurrency_hint = some hardware;
          threads = hardware;
          listeners = record { endpoint_address = address; endpoint_port = n } ∷ [];
        },
        success,
      )

  -- What the settings, as far as they are read, make of a start.
  abbrev pub StartCases : ℕ → J.Value → J.Value → Text → Type 0
  StartCases hardware doc v a =
      ((N.make_address a ≡ none) × (started hardware doc ≡ throws))
      ⊎ ((address : N.Address) × (N.make_address a ≡ some address)
          × ((get_member_int J v (codes "port") ≡ none)
              ⊎ (get_member_int J v (codes "threadNum") ≡ none))
          × (started hardware doc ≡ undefined))
      ⊎ ((address : N.Address) × (r : Text) × (p : ℤ) × (t : ℤ) × (n : ℕ) × (N.make_address a
            ≡ some address)
          × Given (get_member_string J v (codes "docRoot")) r
          × (get_member_int J v (codes "port") ≡ some p)
          × (get_member_int J v (codes "threadNum") ≡ some t)
          × IsPort p n
          × Listens hardware doc a r address p n (started hardware doc))

  member_cases :
      (hardware : ℕ) (doc v : J.Value)
      → server_member J doc ≡ some v
      → StartCases hardware doc v (keep (get_member_string J v (codes "address")) [])
  unfolding run extract_settings derive_settings set_settings_doc read_settings
  member_cases hardware doc v hs =
      elim (Option-cases (N.make_address (keep (get_member_string J v (codes "address")) []))) [
        | inl ha ↦ inl (ha, ground (arith, hs, ha))
        | inr (address, ha) ↦ inr (elim (Option-cases (get_member_int J v (codes "port"))) [
          | inl hp ↦ inl (address, ha, inl hp, ground (arith, hs, ha, hp))
          | inr (p, hp) ↦ elim (Option-cases (get_member_int J v (codes "threadNum"))) [
            | inl ht ↦ inl (address, ha, inr ht, ground (arith, hs, ha, hp, ht))
            | inr (t, ht) ↦ inr (
              address,
              keep (get_member_string J v (codes "docRoot")) [],
              p,
              t,
              to_unsigned_short p,
              ha,
              keep-Given (get_member_string J v (codes "docRoot")),
              hp,
              ht,
              to_unsigned_short-IsPort p,
              ground (arith, hs, ha, hp, ht),
            )
          ]
        ])
      ]

  -- What a new server with a document of settings does on `run`. Without a `server` object it reads
  -- variables that have no value: the -1 of `extractSettings` does not stop it. If `make_address`
  -- refuses the address, which is the empty text where it is missing, then it throws. With an address,
  -- but without a port or a number of threads, it reads a variable that has no value. Otherwise it
  -- listens on the address and on the port, up to multiples of 65536; and it runs on as many threads
  -- as the hardware has, and on none where `hardware_concurrency` cannot tell: the number of threads
  -- in the settings has no effect.
  pub run_cases :
      (hardware : ℕ) (doc : J.Value)
      → ((server_member J doc ≡ none) × (started hardware doc ≡ undefined))
        ⊎ ((v : J.Value) × (a : Text) × (server_member J doc ≡ some v)
            × Given (get_member_string J v (codes "address")) a
            × StartCases hardware doc v a)
  unfolding run extract_settings set_settings_doc
  run_cases hardware doc = elim (Option-cases (server_member J doc)) [
    | inl hs ↦ inl (hs, ground (arith, hs))
    | inr (v, hs) ↦ inr (
      v,
      keep (get_member_string J v (codes "address")) [],
      hs,
      keep-Given (get_member_string J v (codes "address")),
      member_cases hardware doc v hs,
    )
  ]
