-- ===== src/Certificate/Manager.antt =====
-- `ManagerImpl` of src/core/certificateManager.hpp and src/core/certificateManager.cpp: new
-- certificates, requests and signatures. Files are in Certificate/Files.antt.
use book_filer_module_http.Prelude.{
  ◌+◌, Option, none, some, List, [], ◌∷◌, ◌++◌, Bool, true, false, if◌then◌else◌, Text, codes,
  Outcome, returns, ◌>>=◌, deref,
}
use book_filer_module_http.Prelude.Int.{ℤ, pos, ltb_ℤ, success, failure}
use book_filer_module_http.Json.{JsonLib}
use book_filer_module_http.Certificate.{
  Handle, Call, x509_new, request_new, pkey_new, dh_new, rsa_new, rsa_generate, dh_generate,
  assign_rsa, assign_dh, set_serial, set_version, set_not_before, set_not_after, set_pubkey,
  add_entry, set_issuer_name, set_subject_name, sign, request_set_pubkey, request_set_version,
  Crypto, called, OpenSsl, CertificateImpl, add_ext, add_unchecked,
}
use book_filer_module_http.Certificate.Options.{
  CertOptions, read_options, seconds_valid, JsonBuilder, localhost_members,
}

-- The subject's entries, in the order in which they are added.
abbrev pub subject_entries : Handle → CertOptions → List Call
subject_entries x o =
    add_entry x (codes "C") o.country
    ∷ add_entry x (codes "O") o.company
    ∷ add_entry x (codes "CN") o.common_name
    ∷ add_entry x (codes "OU") o.ou
    ∷ add_entry x (codes "L") o.city
    ∷ add_entry x (codes "S") o.state
    ∷ []

module _ (J : JsonLib) (O : OpenSsl) where
  pub record ManagerImpl : Type 0 where
    pub settings_doc : Option J.Value
    pub cert_root_localhost : Option CertificateImpl
    pub cert_server_localhost : Option CertificateImpl
    pub crypto : Crypto

  abbrev pub new_manager : ManagerImpl
  new_manager = record {
    settings_doc = none;
    cert_root_localhost = none;
    cert_server_localhost = none;
    crypto = record { log = []; fresh = 0 };
  }

  unfoldable pub set_settings_doc : Option J.Value → ManagerImpl → ManagerImpl × ℤ
  set_settings_doc doc m = (record m { settings_doc = doc }, success)

  abbrev pub fails : Call → Bool
  fails call = ltb_ℤ (O.code_of call) (pos 0)

  abbrev pub self_extensions : List (Text × Text)
  self_extensions =
      (codes "NID_basic_constraints", codes "critical,CA:TRUE")
      ∷ (codes "NID_key_usage", codes "critical,keyCertSign,cRLSign")
      ∷ (codes "NID_subject_key_identifier", codes "hash")
      ∷ (codes "NID_subject_alt_name", codes "DNS:localhost")
      ∷ (codes "NID_ext_key_usage", codes "critical,codeSigning,1.2.3.4")
      ∷ []

  abbrev pub add_exts : Handle → List (Text × Text) → List Call
  add_exts x [] = []
  add_exts x ((nid, value) ∷ extensions) = add_ext O x nid value ++ add_exts x extensions

  -- The contents of a certificate of its own, and its signature.
  abbrev pub self_contents : Handle → Handle → CertOptions → ℤ → List Call
  self_contents x key o seconds =
      (set_serial x 5
        ∷ set_not_before x (pos 0)
        ∷ set_not_after x seconds
        ∷ set_pubkey x (some key)
        ∷ set_version x 2
        ∷ [])
      ++ subject_entries x o
      ++ set_issuer_name x x ∷ []
      ++ add_exts x self_extensions

  unfoldable pub self_signed : Handle → Handle → CertOptions → ℤ → List Call
  self_signed x key o seconds = self_contents x key o seconds ++ sign x (some key) ∷ []

  -- The RSA and the DH key of a new certificate or request: its first object is `allocation` of the
  -- handle that comes first, the key is the second object, the DH parameters are the third.
  abbrev pub rsa_called : (Handle → Call) → Crypto → Crypto
  rsa_called allocation s =
      let n = s.fresh in
      called
        (allocation n
          ∷ pkey_new (n + 1)
          ∷ dh_new (n + 2)
          ∷ rsa_new (n + 3)
          ∷ rsa_generate (n + 3) 2048
          ∷ [])
        4 s

  abbrev pub dh_called : (Handle → Call) → Crypto → Crypto
  dh_called allocation s =
      called (assign_rsa (s.fresh + 1) (s.fresh + 3) ∷ dh_generate (s.fresh + 2) 2048 2 ∷ []) 0
        (rsa_called allocation s)

  abbrev pub keys_made : (Handle → Call) → Crypto → Crypto
  keys_made allocation s =
      called (pkey_new (s.fresh + 4) ∷ assign_dh (s.fresh + 4) (s.fresh + 2) ∷ []) 1
        (dh_called allocation s)

  -- The new state comes with whether both keys were generated.
  unfoldable pub generate_keys : (Handle → Call) → Crypto → Crypto × Bool
  generate_keys allocation s =
      if fails (rsa_generate (s.fresh + 3) 2048)
      then (rsa_called allocation s, false)
      else if fails (dh_generate (s.fresh + 2) 2048 2)
      then (dh_called allocation s, false)
      else (keys_made allocation s, true)

  -- The result leaves `certPtr` as it was where it has no certificate.
  unfoldable pub new_certificate : J.Value → Crypto → Outcome (Option CertificateImpl × ℤ × Crypto)
  unfolding generate_keys self_signed
  new_certificate doc s =
      let n = s.fresh in
      let (s', generated) = generate_keys x509_new s in
      let o = read_options J doc in
      let made = seconds_valid o.days_valid >>= λ seconds. returns (
        some (record {
          cert_x509 = some n;
          cert_req_x509 = none;
          private_key = some (n + 1);
          dh_key = some (n + 2);
        }),
        success,
        called (self_signed n (n + 1) o seconds) 0 s',
      ) in
      if generated then made else returns (none, failure, s')

  -- The options are only tested, and not read.
  unfoldable pub new_request : J.Value → Crypto → Option CertificateImpl × ℤ × Crypto
  unfolding generate_keys
  new_request doc s =
      let n = s.fresh in
      let (s', generated) = generate_keys request_new s in
      if generated
      then (
        some (record {
          cert_x509 = none;
          cert_req_x509 = some n;
          private_key = some (n + 1);
          dh_key = some (n + 2);
        }),
        success,
        called (request_set_pubkey n (n + 1) ∷ request_set_version n 2 ∷ []) 0 s',
      )
      else (none, failure, s')

  abbrev pub request_contents : Handle → Option Handle → Handle → CertOptions → ℤ → List Call
  request_contents x key ca o seconds =
      (x509_new x
        ∷ set_version x 3
        ∷ set_serial x 1024
        ∷ set_not_before x (pos 0)
        ∷ set_not_after x seconds
        ∷ set_pubkey x key
        ∷ set_issuer_name x ca
        ∷ [])
      ++ subject_entries x o
      ++ set_subject_name x x ∷ []
      ++ add_unchecked O x (codes "NID_key_usage")
          (codes "digitalSignature, keyEncipherment, keyAgreement")
      ++ add_unchecked O x (codes "NID_ext_key_usage") (codes "TLS Web Server Authentication")
      ++ add_unchecked O x (codes "NID_subject_alt_name") (codes "DNS:localhost")

  unfoldable pub signed_request :
      Handle → Option Handle → Handle → Option Handle → CertOptions → ℤ → List Call
  signed_request x key ca ca_key o seconds =
      request_contents x key ca o seconds ++ sign x ca_key ∷ []

  abbrev pub signature_tested :
      Bool → CertificateImpl → ManagerImpl → CertificateImpl × ℤ × ManagerImpl
  signature_tested true c m = (c, failure, m)
  signature_tested false c m = (c, success, record m { cert_server_localhost = some c })

  -- The certificate of the request is a shared object: its changed value is the first of the results.
  -- A certificate that could not be signed is in it all the same.
  unfoldable pub sign_request :
      Option CertificateImpl
      → Option CertificateImpl
      → J.Value
      → ManagerImpl
      → Outcome (CertificateImpl × ℤ × ManagerImpl)
  unfolding signed_request
  sign_request cert cert_ca doc m = do
    c ← deref cert
    ca ← deref cert_ca
    seconds ← seconds_valid (read_options J doc).days_valid
    ca_x509 ← deref ca.cert_x509
    let n = m.crypto.fresh
    let c' = record c { cert_x509 = some n }
    let m' = record m {
      crypto =
          called
            (signed_request n c.private_key ca_x509 ca.private_key (read_options J doc) seconds) 1
            m.crypto;
    }
    returns (signature_tested (fails (sign n ca.private_key)) c' m')

  module _ (B : JsonBuilder J) where
    abbrev root_stored :
        Option CertificateImpl × ℤ × Crypto → ManagerImpl → Option CertificateImpl × ℤ × ManagerImpl
    root_stored (cert, code, s) m =
        if ltb_ℤ code (pos 0)
        then (none, failure, record m { crypto = s })
        else (cert, success, record m { crypto = s; cert_root_localhost = cert })

    -- The options that it is given are not looked at.
    unfoldable pub new_cert_root_localhost :
        ManagerImpl → Outcome (Option CertificateImpl × ℤ × ManagerImpl)
    new_cert_root_localhost m = do
      made ←
          new_certificate
            (B.object_of
              (localhost_members (codes "BookFiler Certificate Authority") (codes "bookfiler.com")))
            m.crypto
      returns (root_stored made m)

    abbrev pub localhost_doc : J.Value
    localhost_doc = B.object_of (localhost_members (codes "localhost") (codes "localhost"))

    -- What `signRequest` returns is not looked at.
    abbrev server_signed :
        Option CertificateImpl × ℤ × Crypto
        → ManagerImpl
        → Outcome (Option CertificateImpl × ℤ × ManagerImpl)
    server_signed (cert, code, s) m =
        let m1 = record m { crypto = s } in
        let signed = sign_request cert m1.cert_root_localhost localhost_doc m1 >>= λ done.
        returns (some done.0, success, record done.2 { cert_server_localhost = some done.0 }) in
        if ltb_ℤ code (pos 0) then returns (none, failure, m1) else signed

    unfoldable pub new_cert_server_localhost :
        ManagerImpl → Outcome (Option CertificateImpl × ℤ × ManagerImpl)
    unfolding new_request sign_request
    new_cert_server_localhost m = server_signed (new_request localhost_doc m.crypto) m
