-- ===== src/Certificate/Files.antt =====
-- `saveCertificate` and `loadCertificate` of src/core/certificateManager.cpp.
use book_filer_module_http.Prelude.{
  ◌≡◌, ◌⊎◌, inl, inr, Option, none, some, List, [], ◌∷◌, ◌++◌, arith, Option-cases, Text, codes,
  Outcome, returns, ◌>>=◌, and_then, deref,
}
use book_filer_module_http.Prelude.Int.{ℤ, success, failure}
use book_filer_module_http.Json.{JsonLib, server_member, get_member_string, keep}
use book_filer_module_http.Certificate.{Handle, CertificateImpl}

-- The two files that a certificate is saved to, with what is written to each.
pub data Saved : Type 0 where
  saved_x509 : Text → Option Handle → Saved
  saved_private_key : Text → Option Handle → Saved

-- The second `append` works on the name that the first has changed.
unfoldable pub cert_file_name : Text → Text
cert_file_name name = name ++ codes ".pem"

unfoldable pub private_key_file_name : Text → Text
unfolding cert_file_name
private_key_file_name name = cert_file_name name ++ codes "privateKey.pem"

-- What the writes return is not looked at.
unfoldable pub save_certificate : CertificateImpl → Text → List Saved × ℤ
save_certificate c name = (
  saved_private_key (private_key_file_name name) c.private_key
      ∷ saved_x509 (cert_file_name name) c.cert_x509
      ∷ [],
  success,
)

-- The objects in the files of the host; a file that cannot be opened or read has none.
pub record PemFiles : Type 0 where
  pub x509_in : Text → Option Handle
  pub private_key_in : Text → Option Handle
  pub dh_in : Text → Option Handle

module _ (J : JsonLib) (F : PemFiles) where
  -- The paths of the three files.
  pub record CertPaths : Type 0 where
    pub cert_path : Text
    pub private_key_path : Text
    pub dh_key_path : Text

  -- `GetString` of a member that is no string is a failed assertion: the test of the type is missing
  -- for the path of the key.
  unfoldable pub asserted_string : Option J.Value → Outcome Text
  asserted_string none = returns []
  asserted_string (some v) = deref (J.as_string v)

  unfoldable pub read_paths : J.Value → Outcome CertPaths
  unfolding asserted_string
  read_paths v = do
    key ← asserted_string (J.member (codes "privateKeyPath") v)
    returns (record {
      cert_path = keep (get_member_string J v (codes "certPath")) [];
      private_key_path = key;
      dh_key_path = keep (get_member_string J v (codes "dhKeyPath")) [];
    })

  -- The three reads, each with its `return -1`.
  unfoldable pub read_files : CertPaths → Option CertificateImpl
  read_files p = and_then (F.x509_in p.cert_path) (λ x.
      and_then (F.private_key_in p.private_key_path) (λ key. and_then (F.dh_in p.dh_key_path) (λ dh.
        some (record {
          cert_x509 = some x;
          cert_req_x509 = none;
          private_key = some key;
          dh_key = some dh;
        }))))

  -- `certPtr` is the first of the results.
  abbrev loaded : Option CertificateImpl → Option CertificateImpl → Option CertificateImpl × ℤ
  loaded cert none = (cert, failure)
  loaded cert (some c) = (some c, success)

  unfoldable pub load_certificate :
      Option J.Value → Option CertificateImpl → Outcome (Option CertificateImpl × ℤ)
  unfolding read_files read_paths
  load_certificate settings cert = do
    doc ← deref settings
    elim (server_member J doc) [
      | none ↦ returns (cert, failure)
      | some v ↦ read_paths v >>= λ p. returns (loaded cert (read_files p))
    ]

  read_files_cases :
      (p : CertPaths)
      → ((read_files p ≡ none)
          × ((F.x509_in p.cert_path ≡ none)
              ⊎ (F.private_key_in p.private_key_path ≡ none)
              ⊎ (F.dh_in p.dh_key_path ≡ none)))
        ⊎ ((x : Handle) × (key : Handle) × (dh : Handle) × (F.x509_in p.cert_path ≡ some x)
            × (F.private_key_in p.private_key_path ≡ some key)
            × (F.dh_in p.dh_key_path ≡ some dh)
            × (read_files p
                ≡ some (record {
                  cert_x509 = some x;
                  cert_req_x509 = none;
                  private_key = some key;
                  dh_key = some dh;
                })))
  unfolding read_files
  read_files_cases p = elim (Option-cases (F.x509_in p.cert_path)) [
    | inl a ↦ inl (ground (arith, a), inl a)
    | inr (x, a) ↦ elim (Option-cases (F.private_key_in p.private_key_path)) [
      | inl b ↦ inl (ground (arith, a, b), inr (inl b))
      | inr (key, b) ↦ elim (Option-cases (F.dh_in p.dh_key_path)) [
        | inl c ↦ inl (ground (arith, a, b, c), inr (inr c))
        | inr (dh, c) ↦ inr (x, key, dh, a, b, c, ground (arith, a, b, c))
      ]
    ]
  ]

  -- With settings whose `server` object names the three files, loading either gives -1 and leaves the
  -- certificate alone, and then one of the files could not be read; or it gives 0 and a certificate
  -- of what the three files hold.
  pub load_certificate_lem :
      (doc v : J.Value) (cert : Option CertificateImpl) (p : CertPaths)
      → server_member J doc ≡ some v
      → read_paths v ≡ returns p
      → ((load_certificate (some doc) cert ≡ returns (cert, failure))
          × ((F.x509_in p.cert_path ≡ none)
              ⊎ (F.private_key_in p.private_key_path ≡ none)
              ⊎ (F.dh_in p.dh_key_path ≡ none)))
        ⊎ ((x : Handle) × (key : Handle) × (dh : Handle) × (F.x509_in p.cert_path ≡ some x)
            × (F.private_key_in p.private_key_path ≡ some key)
            × (F.dh_in p.dh_key_path ≡ some dh)
            × (load_certificate (some doc) cert
                ≡ returns (
                  some (record {
                    cert_x509 = some x;
                    cert_req_x509 = none;
                    private_key = some key;
                    dh_key = some dh;
                  }),
                  success,
                )))
  unfolding load_certificate
  load_certificate_lem doc v cert p a d = elim (read_files_cases p) [
    | inl (n, why) ↦ inl (ground (arith, a, d, n), why)
    | inr (x, key, dh, ex, ek, ed, s) ↦ inr (x, key, dh, ex, ek, ed, ground (arith, a, d, s))
  ]
