-- ===== src/Certificate.antt =====
-- `CertificateImpl` of src/core/certificate.hpp and src/core/certificate.cpp, with
-- `CertificateNativeImpl` of src/core/certificateNativeUnix.cpp. OpenSSL is a parameter: what is
-- modelled are the calls that the program makes of it, and what it does with the answers.
pub mod Store
pub mod Options
pub mod Manager
pub mod Localhost
pub mod Sealed
pub mod Edits
pub mod Signing
pub mod Files
use book_filer_module_http.Prelude.{
  ℕ, ◌+◌, Bool, Option, none, some, List, [], ◌∷◌, ◌++◌, if◌then◌else◌, Text, codes,
}
use book_filer_module_http.Prelude.Int.{ℤ, pos, ltb_ℤ, success}

-- An object of OpenSSL, by the number of its allocation.
abbrev pub Handle : Type 0
Handle = ℕ

-- The calls. `set_issuer_name x y` copies the subject of y; `add_entry` adds to the subject of a
-- certificate in place; an extension that could not be made is a null pointer.
pub data Call : Type 0 where
  x509_new request_new pkey_new dh_new rsa_new : Handle → Call
  rsa_generate : Handle → ℕ → Call
  dh_generate : Handle → ℕ → ℕ → Call
  assign_rsa assign_dh : Handle → Handle → Call
  set_serial set_version : Handle → ℕ → Call
  set_not_before set_not_after : Handle → ℤ → Call
  set_pubkey : Handle → Option Handle → Call
  add_entry : Handle → Text → Text → Call
  set_issuer_name set_subject_name : Handle → Handle → Call
  add_extension : Handle → Option (Text × Text) → Call
  sign : Handle → Option Handle → Call
  request_set_pubkey : Handle → Handle → Call
  request_set_version : Handle → ℕ → Call

-- The calls so far, and the number of objects that they have allocated.
pub record Crypto : Type 0 where
  pub log : List Call
  pub fresh : ℕ

unfoldable pub called : List Call → ℕ → Crypto → Crypto
called calls allocated s = record { log = s.log ++ calls; fresh = s.fresh + allocated }

-- What a memory `BIO` holds once an object is written to it, and the code of the write.
pub record OpenSsl : Type 0 where
  pub code_of : Call → ℤ
  pub extension_made : Text → Text → Bool
  pub bio_new : Bool
  pub write_x509 : Option Handle → ℤ × Text
  pub write_private_key : Option Handle → ℤ × Text
  pub write_dh : Option Handle → ℤ × Text

pub record CertificateImpl : Type 0 where
  pub cert_x509 : Option Handle
  pub cert_req_x509 : Option Handle
  pub private_key : Option Handle
  pub dh_key : Option Handle

abbrev pub new_certificate_impl : CertificateImpl
new_certificate_impl = record {
  cert_x509 = none;
  cert_req_x509 = none;
  private_key = none;
  dh_key = none;
}

-- An empty memory is an error.
unfoldable pub written_text : Text → Option Text
written_text [] = none
written_text (c ∷ cs) = some (c ∷ cs)

-- The body that the three getters share: allocate, write, read back.
unfoldable pub pem_str : Bool → ℤ × Text → Option Text
unfolding written_text
pem_str allocated (code, text) =
    if allocated then if ltb_ℤ code (pos 0) then none else written_text text else none

module _ (O : OpenSsl) where
  unfoldable pub get_cert_str : CertificateImpl → Option Text
  get_cert_str c = pem_str O.bio_new (O.write_x509 c.cert_x509)

  unfoldable pub get_private_key_str : CertificateImpl → Option Text
  get_private_key_str c = pem_str O.bio_new (O.write_private_key c.private_key)

  unfoldable pub get_dh_str : CertificateImpl → Option Text
  get_dh_str c = pem_str O.bio_new (O.write_dh c.dh_key)

  -- `addExt`: nothing is added where the extension cannot be made.
  unfoldable pub add_ext : Handle → Text → Text → List Call
  add_ext x nid value =
      if O.extension_made nid value then add_extension x (some (nid, value)) ∷ [] else []

  -- The same without the test.
  unfoldable pub add_unchecked : Handle → Text → Text → List Call
  add_unchecked x nid value =
      add_extension x (if O.extension_made nid value then some (nid, value) else none) ∷ []

-- `toNative` and `toX509` of the Unix build.
unfoldable pub to_native : CertificateImpl → CertificateImpl × ℤ
to_native c = (c, success)

unfoldable pub to_x509 : CertificateImpl → CertificateImpl × ℤ
to_x509 c = (c, success)

unfoldable pub get_native_name : CertificateImpl → Text
get_native_name c = []
