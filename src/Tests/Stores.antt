-- ===== src/Tests/Stores.antt =====
-- The theorems on the certificate store of Windows at concrete inputs.
use book_filer_module_http.Prelude.{
  ℕ, ◌≡◌, ◌⊎◌, true, false, Option, none, some, List, [], ◌∷◌, Text, returns, undefined,
}
use book_filer_module_http.Prelude.Int.{success, failure}
use book_filer_module_http.Certificate.Store.{
  StoreLib, Context, opened, closed, CertificateNativeImpl, ManagerNativeImpl, create_x509_store,
  add_certificate,
}
use book_filer_module_http.Certificate.Store.Releases.{frees, create_x509_store_twice}
use book_filer_module_http.Certificate.Store.Adding.{add_certificate_cases}

-- An empty text is not decoded, and of an empty text no context is made.
abbrev first_byte : Text → Option ℕ
first_byte [] = none
first_byte (c ∷ s) = some c

abbrev encode : Option ℕ → Text
encode none = []
encode (some n) = n ∷ []

abbrev windows : StoreLib
windows = record {
  X509 = ℕ;
  d2i = first_byte;
  i2d = encode;
  create_context = first_byte;
  adds = λ n. true;
  subject_name = λ x. [];
  issuer_name = λ x. [];
}

abbrev two_contexts : List Context
two_contexts = record { number = 1; encoded = 7 ∷ [] } ∷ record { number = 2; encoded = [] } ∷ []

abbrev new_manager : ManagerNativeImpl windows
new_manager = record { cert_list = []; log = [] }

abbrev some_certificate : CertificateNativeImpl windows
some_certificate = record { p_cert_context = none; cert_x509 = some 5 }

create_x509_store_twice_example :
    frees windows
      (create_x509_store windows true true []
        (create_x509_store windows true true two_contexts new_manager).0).0.log
    ≡ 1 ∷ 2 ∷ 2 ∷ []
create_x509_store_twice_example = create_x509_store_twice windows two_contexts [] new_manager

add_certificate_cases_example :
    ((some_certificate.cert_x509 ≡ none)
      × (add_certificate windows some_certificate new_manager ≡ undefined))
    ⊎ ((x : ℕ) × (n : ℕ) × (some_certificate.cert_x509 ≡ some x)
        × (first_byte (encode some_certificate.cert_x509) ≡ some n)
        × (true ≡ true)
        × (add_certificate windows some_certificate new_manager
            ≡ returns (
              record { p_cert_context = some n; cert_x509 = some 5 },
              record { cert_list = []; log = opened ∷ closed ∷ [] },
              success,
            )))
    ⊎ ((x : ℕ) × (some_certificate.cert_x509 ≡ some x)
        × ((n : ℕ) → first_byte (encode some_certificate.cert_x509) ≡ some n → true ≡ false)
        × (add_certificate windows some_certificate new_manager
            ≡ returns (
              record { p_cert_context = some 5; cert_x509 = some 5 },
              record { cert_list = []; log = opened ∷ [] },
              failure,
            )))
add_certificate_cases_example = add_certificate_cases windows some_certificate new_manager
