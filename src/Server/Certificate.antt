-- ===== src/Server/Certificate.antt =====
-- `ServerImpl::useCertificate` of src/core/Server.cpp.
use book_filer_module_http.Prelude.{
  ◌≡◌, ◌⊎◌, Bool, false, Option, none, some, List, [], ◌∷◌, ◌++◌, Text, codes, Outcome, returns,
  throws, ◌>>=◌, and_then, if◌then◌else◌,
}
use book_filer_module_http.Prelude.Int.{ℤ, success, failure}
use book_filer_module_http.Certificate.{
  OpenSsl, CertificateImpl, get_cert_str, get_private_key_str, get_dh_str,
}

-- The calls of the SSL context.
pub data SslCall : Type 0 where
  set_password_callback : Text → SslCall
  set_options : SslCall
  use_certificate_chain : Text → SslCall
  use_private_key : Text → SslCall
  use_tmp_dh : Text → SslCall

-- An SSL context as the calls that it has taken. A call that it refuses throws; what the context is
-- then is not said.
unfoldable pub ssl_calls : (SslCall → Bool) → List SslCall → List SslCall → Outcome (List SslCall)
ssl_calls takes [] context = returns context
ssl_calls takes (call ∷ calls) context =
    let rest = ssl_calls takes calls (context ++ call ∷ []) in if takes call then rest else throws

abbrev pub certificate_calls : Text → Text → Text → List SslCall
certificate_calls cert key dh =
    set_password_callback (codes "test")
    ∷ set_options
    ∷ use_certificate_chain cert
    ∷ use_private_key key
    ∷ use_tmp_dh dh
    ∷ []

module _ (O : OpenSsl) (takes : SslCall → Bool) where
  -- The three texts, each with its `return -1`.
  unfoldable pub certificate_texts : CertificateImpl → Option (Text × Text × Text)
  certificate_texts c = and_then (get_cert_str O c) (λ cert.
      and_then (get_private_key_str O c)
        (λ key. and_then (get_dh_str O c) (λ dh. some (cert, key, dh))))

  abbrev used : List SslCall → Option (Text × Text × Text) → Outcome (List SslCall × ℤ)
  used context none = returns (context, failure)
  used context (some (cert, key, dh)) =
      ssl_calls takes (certificate_calls cert key dh) context >>= λ context'.
      returns (context', success)

  unfoldable pub use_certificate : CertificateImpl → List SslCall → Outcome (List SslCall × ℤ)
  unfolding certificate_texts ssl_calls
  use_certificate c context = used context (certificate_texts c)

  -- A call of the list is refused.
  abbrev Refused : List SslCall → Type 0
  Refused [] = ⊥
  Refused (call ∷ calls) = (takes call ≡ false) ⊎ Refused calls
