-- ===== src/Tests/Certificates.antt =====
-- The theorems on certificates at concrete inputs.
use book_filer_module_http.Prelude.{
  ◌*◌, ◌≤◌, ◌≡◌, refl, ◌↔◌, Bool, true, false, Option, none, some, [], ◌∷◌, codes, text_compare,
  Outcome, returns,
}
use book_filer_module_http.Prelude.Int.{ℤ, pos, success}
use book_filer_module_http.Json.{server_member}
use book_filer_module_http.Certificate.{Call, CertificateImpl, Crypto, new_certificate_impl}
use book_filer_module_http.Certificate.Options.{
  Literal, int_literal, string_literal, seconds_valid, seconds_valid_iff,
}
use book_filer_module_http.Certificate.Manager.{
  ManagerImpl, new_manager, new_certificate, sign_request,
}
use book_filer_module_http.Certificate.Sealed.{IsSealed}
use book_filer_module_http.Certificate.Signing.{new_certificate-IsSealed, sign_request-IsSealed}
use book_filer_module_http.Certificate.Files.{PemFiles, CertPaths, read_paths}
use book_filer_module_http.Server.Certificate.{SslCall, set_options}
use book_filer_module_http.Tests.Libraries.{json, JsonValue, object, nested, open_ssl}

seconds_valid_iff_example :
    (seconds_valid (pos 30000) ≡ returns (pos 2592000000))
    ↔ ((30000 ≤ 24855) × (pos 2592000000 ≡ pos (30000 * 86400)))
seconds_valid_iff_example = seconds_valid_iff 30000 (pos 2592000000)

abbrev manager : ManagerImpl json open_ssl
manager = new_manager json open_ssl

abbrev empty_document : JsonValue
empty_document = object []

abbrev crypto_of : Outcome (Option CertificateImpl × ℤ × Crypto) → Crypto
crypto_of (returns (cert, code, s)) = s
crypto_of _ = manager.crypto

abbrev certificate_of : Outcome (Option CertificateImpl × ℤ × Crypto) → Option CertificateImpl
certificate_of (returns (cert, code, s)) = cert
certificate_of _ = none

abbrev made : Outcome (Option CertificateImpl × ℤ × Crypto)
made = new_certificate json open_ssl empty_document manager.crypto

made-returned : made ≡ returns (certificate_of made, success, crypto_of made)
unfolding new_certificate seconds_valid book_filer_module_http.Certificate.Options.read_options
    book_filer_module_http.Json.get_member_int
made-returned = refl

new_certificate-IsSealed_example : IsSealed (crypto_of made)
new_certificate-IsSealed_example =
    new_certificate-IsSealed json open_ssl empty_document manager.crypto (crypto_of made)
      (certificate_of made) success made-returned (tt, tt)

abbrev ca_certificate : CertificateImpl
ca_certificate = record new_certificate_impl { cert_x509 = some 0; private_key = some 1 }

abbrev request_certificate : CertificateImpl
request_certificate = record new_certificate_impl { private_key = some 2 }

abbrev signing_manager : ManagerImpl json open_ssl
signing_manager = record manager { crypto = record { log = []; fresh = 3 } }

abbrev signature : Outcome (CertificateImpl × ℤ × ManagerImpl json open_ssl)
signature =
    sign_request json open_ssl (some request_certificate) (some ca_certificate) empty_document
      signing_manager

abbrev manager_of :
    Outcome (CertificateImpl × ℤ × ManagerImpl json open_ssl) → ManagerImpl json open_ssl
manager_of (returns (cert, code, m)) = m
manager_of _ = manager

signature-returned :
    signature
    ≡ returns (record request_certificate { cert_x509 = some 3 }, success, manager_of signature)
unfolding sign_request seconds_valid book_filer_module_http.Certificate.Options.read_options
    book_filer_module_http.Json.get_member_int
signature-returned = refl

sign_request-IsSealed_example : IsSealed (manager_of signature).crypto
sign_request-IsSealed_example =
    sign_request-IsSealed json open_ssl (some request_certificate) (some ca_certificate)
      empty_document signing_manager (manager_of signature)
      (record request_certificate { cert_x509 = some 3 }) success signature-returned (tt, tt)

abbrev server_paths : JsonValue
server_paths = object (
    (codes "certPath", string_literal (codes "c.pem"))
    ∷ (codes "privateKeyPath", string_literal (codes "k.pem"))
    ∷ (codes "dhKeyPath", string_literal (codes "d.pem"))
    ∷ [])

abbrev path_settings : JsonValue
path_settings = nested (codes "server") server_paths

abbrev files : PemFiles
files = record { x509_in = λ p. some 1; private_key_in = λ p. some 2; dh_in = λ p. none }

abbrev some_paths : CertPaths json files
some_paths = record {
  cert_path = codes "c.pem";
  private_key_path = codes "k.pem";
  dh_key_path = codes "d.pem";
}

paths-server : server_member json path_settings ≡ some server_paths
unfolding server_member text_compare
paths-server = refl

paths-read : read_paths json files server_paths ≡ returns some_paths
unfolding read_paths text_compare book_filer_module_http.Json.get_member_string
paths-read = refl

-- A context that refuses to set its options.
abbrev no_options : SslCall → Bool
no_options set_options = false
no_options call = true
