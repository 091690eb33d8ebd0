-- ===== src/Certificate/Localhost.antt =====
-- The two certificates for localhost: the root, and the one of a server that the root signs.
use book_filer_module_http.Prelude.{ℕ, ◌+◌, ◌≡◌, ◌⊎◌, none, some, List, [], ◌∷◌, Text, codes}
use book_filer_module_http.Prelude.Int.{pos}
use book_filer_module_http.Json.{JsonLib}
use book_filer_module_http.Certificate.{
  Call, x509_new, request_new, request_set_pubkey, request_set_version, OpenSsl, CertificateImpl,
  Crypto, called,
}
use book_filer_module_http.Certificate.Options.{CertOptions, JsonBuilder}
use book_filer_module_http.Certificate.Manager.{ManagerImpl, keys_made, self_signed, signed_request}

-- A call that was made.
abbrev pub Logged : Call → List Call → Type 0
Logged c [] = ⊥
Logged c (d ∷ ds) = (c ≡ d) ⊎ Logged c ds

module _ (J : JsonLib) (O : OpenSsl) (B : JsonBuilder J) where
  abbrev localhost_options : Text → Text → CertOptions
  localhost_options common_name ou = record {
    days_valid = pos 2000;
    country = codes "US";
    company = codes "BookFiler";
    common_name = common_name;
    ou = ou;
    city = codes "San Jose";
    state = codes "California";
  }

  abbrev root_certificate : ℕ → CertificateImpl
  root_certificate n = record {
    cert_x509 = some n;
    cert_req_x509 = none;
    private_key = some (n + 1);
    dh_key = some (n + 2);
  }

  abbrev root_options : CertOptions
  root_options = localhost_options (codes "BookFiler Certificate Authority") (codes "bookfiler.com")

  abbrev server_options : CertOptions
  server_options = localhost_options (codes "localhost") (codes "localhost")

  abbrev with_root : ManagerImpl J O → ManagerImpl J O
  with_root m =
      let n = m.crypto.fresh in
      record m {
        crypto =
            called (self_signed J O n (n + 1) root_options (pos 172800000)) 0
              (keys_made J O x509_new m.crypto);
        cert_root_localhost = some (root_certificate n);
      }

  abbrev requested : Crypto → Crypto
  requested s =
      called (request_set_pubkey s.fresh (s.fresh + 1) ∷ request_set_version s.fresh 2 ∷ []) 0
        (keys_made J O request_new s)

  abbrev server_certificate : ℕ → ℕ → CertificateImpl
  server_certificate n x = record {
    cert_x509 = some x;
    cert_req_x509 = some n;
    private_key = some (n + 1);
    dh_key = some (n + 2);
  }

  abbrev with_server : ManagerImpl J O → ℕ → ℕ → ManagerImpl J O
  with_server m r key =
      let s = requested m.crypto in
      record m {
        crypto =
            called
              (signed_request J O s.fresh (some (m.crypto.fresh + 1)) r (some key) server_options
                (pos 172800000))
              1 s;
        cert_server_localhost = some (server_certificate m.crypto.fresh s.fresh);
      }
