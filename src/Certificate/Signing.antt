-- ===== src/Certificate/Signing.antt =====
-- What `newCertificate`, `newRequest` and `signRequest` of src/core/certificateManager.cpp do to
-- certificates that are signed.
use book_filer_module_http.Prelude.{
  ℕ, ◌+◌, ◌≤◌, ◌≡◌, refl, ◌⊎◌, inl, inr, Bool, true, false, Bool-cases, Option, none, some, [], ◌∷◌,
  arith, returns, >>=-eq-returns, deref,
}
use book_filer_module_http.Prelude.Int.{ℤ, pos, ltb_ℤ}
use book_filer_module_http.Json.{JsonLib}
use book_filer_module_http.Certificate.{
  Call, Handle, OpenSsl, CertificateImpl, Crypto, called, x509_new, request_new, pkey_new, dh_new,
  rsa_new, rsa_generate, dh_generate, sign, request_set_pubkey, request_set_version,
}
use book_filer_module_http.Certificate.Options.{CertOptions, read_options, seconds_valid}
use book_filer_module_http.Certificate.Manager.{
  ManagerImpl, rsa_called, dh_called, keys_made, generate_keys, self_contents, request_contents,
  self_signed, signed_request, new_certificate, new_request, signature_tested, sign_request,
}
use book_filer_module_http.Certificate.Sealed.{
  changes, signs, IsSealed, Edits, SealedBelow, SignedBelow-le, edited, signed,
}
use book_filer_module_http.Certificate.Edits.{self_contents-Edits, request_contents-Edits}

module _ (J : JsonLib) (O : OpenSsl) where
  rsa_Edits :
      (n x : Handle) (allocation : Handle → Call)
      → changes (allocation n) ≡ none
      → signs (allocation n) ≡ none
      → Edits x (
          allocation n
          ∷ pkey_new (n + 1)
          ∷ dh_new (n + 2)
          ∷ rsa_new (n + 3)
          ∷ rsa_generate (n + 3) 2048
          ∷ [])
  rsa_Edits n x allocation c s = (
    (inl c, s),
    ((inl refl, refl), ((inl refl, refl), ((inl refl, refl), ((inl refl, refl), tt)))),
  )

  generate_keys_cases :
      (allocation : Handle → Call) (s : Crypto)
      → (generate_keys J O allocation s ≡ (rsa_called J O allocation s, false))
        ⊎ (generate_keys J O allocation s ≡ (dh_called J O allocation s, false))
        ⊎ (generate_keys J O allocation s ≡ (keys_made J O allocation s, true))
  unfolding generate_keys
  generate_keys_cases allocation s =
      elim (Bool-cases (ltb_ℤ (O.code_of (rsa_generate (s.fresh + 3) 2048)) (pos 0))) [
        | inl e ↦ inl (rw (e, generate_keys) refl)
        | inr e ↦ elim (Bool-cases (ltb_ℤ (O.code_of (dh_generate (s.fresh + 2) 2048 2)) (pos 0))) [
          | inl f ↦ inr (inl (rw (e, generate_keys) (rw f refl)))
          | inr f ↦ inr (inr (rw (e, generate_keys) (rw f refl)))
        ]
      ]

  IsSealed-le : (n : ℕ) (s : Crypto) → n ≤ s.fresh → SealedBelow n s.log → IsSealed s
  IsSealed-le n s l (h, b) = (h, SignedBelow-le n s.fresh s.log l b)

  module _ (allocation : Handle → Call) (s : Crypto) (c : changes (allocation s.fresh) ≡ none)
      (g : signs (allocation s.fresh) ≡ none) (h : IsSealed s) where
    rsa-SealedBelow : SealedBelow s.fresh (rsa_called J O allocation s).log
    rsa-SealedBelow =
        edited s.fresh s.fresh _ 4 s (omega arith) (rsa_Edits s.fresh s.fresh allocation c g) h

    dh-SealedBelow : SealedBelow s.fresh (dh_called J O allocation s).log
    dh-SealedBelow =
        edited s.fresh s.fresh _ 0 (rsa_called J O allocation s) (omega arith)
          ((inl refl, refl), ((inl refl, refl), tt)) rsa-SealedBelow

    keys-SealedBelow : SealedBelow s.fresh (keys_made J O allocation s).log
    keys-SealedBelow =
        edited s.fresh s.fresh _ 1 (dh_called J O allocation s) (omega arith)
          ((inl refl, refl), ((inl refl, refl), tt)) dh-SealedBelow

    rsa-IsSealed : (s' : Crypto) → s' ≡ rsa_called J O allocation s → IsSealed s'
    unfolding called
    rsa-IsSealed s' e =
        rw e (IsSealed-le s.fresh (rsa_called J O allocation s) (omega arith) rsa-SealedBelow)

    dh-IsSealed : (s' : Crypto) → s' ≡ dh_called J O allocation s → IsSealed s'
    unfolding called
    dh-IsSealed s' e =
        rw e (IsSealed-le s.fresh (dh_called J O allocation s) (omega arith) dh-SealedBelow)

  self_signed-IsSealed :
      (s : Crypto) (o : CertOptions) (seconds : ℤ)
      → IsSealed s
      → IsSealed
          (called (self_signed J O s.fresh (s.fresh + 1) o seconds) 0 (keys_made J O x509_new s))
  unfolding called self_signed
  self_signed-IsSealed s o seconds h =
      signed s.fresh s.fresh _ (some (s.fresh + 1))
        (self_contents J O s.fresh (s.fresh + 1) o seconds) (keys_made J O x509_new s).log
        (omega arith) (omega arith) (self_contents-Edits J O s.fresh (s.fresh + 1) o seconds)
        (keys-SealedBelow x509_new s refl refl h)

  signed_request-IsSealed :
      (s : Crypto) (key ca_key : Option Handle) (ca : Handle) (o : CertOptions) (seconds : ℤ)
      → IsSealed s
      → IsSealed (called (signed_request J O s.fresh key ca ca_key o seconds) 1 s)
  unfolding called signed_request
  signed_request-IsSealed s key ca_key ca o seconds h =
      signed s.fresh s.fresh _ ca_key (request_contents J O s.fresh key ca o seconds) s.log
        (omega arith) (omega arith) (request_contents-Edits J O s.fresh ca key o seconds) h

  requested-IsSealed :
      (s : Crypto)
      → IsSealed s
      → IsSealed (
          called
            (request_set_pubkey s.fresh (s.fresh + 1) ∷ request_set_version s.fresh 2 ∷ [])
            0
            (keys_made J O request_new s))
  unfolding called
  requested-IsSealed s h = IsSealed-le s.fresh _ (omega arith) (
      edited s.fresh s.fresh _ 0 (keys_made J O request_new s) (omega arith)
        ((inl refl, refl), ((inl refl, refl), tt)) (keys-SealedBelow request_new s refl refl h))

  -- If no certificate was changed behind its signature so far, then none is after `newCertificate`
  -- has returned, with a certificate or without one.
  pub new_certificate-IsSealed :
      (doc : J.Value) (s s' : Crypto) (cert : Option CertificateImpl) (rc : ℤ)
      → new_certificate J O doc s ≡ returns (cert, rc, s')
      → IsSealed s
      → IsSealed s'
  unfolding new_certificate
  new_certificate-IsSealed doc s s' cert rc e h = elim (generate_keys_cases x509_new s) [
    | inl a ↦ rsa-IsSealed x509_new s refl refl h s' (ground (arith, rw (a, new_certificate) at e))
    | inr (inl a) ↦
        dh-IsSealed x509_new s refl refl h s' (ground (arith, rw (a, new_certificate) at e))
    | inr (inr a) ↦ made a
  ]
    where
      signed_from :
          (seconds : ℤ)
          → s'
            ≡ called
                (self_signed J O s.fresh (s.fresh + 1) (read_options J doc) seconds)
                0
                (keys_made J O x509_new s)
          → IsSealed s'
      signed_from seconds same = rw same (self_signed-IsSealed s (read_options J doc) seconds h)

      made : generate_keys J O x509_new s ≡ (keys_made J O x509_new s, true) → IsSealed s'
      made a =
          let (seconds, first, last) =
            >>=-eq-returns (seconds_valid (read_options J doc).days_valid) _
              (rw (a, new_certificate) at e) in
          signed_from seconds (ground (arith, last))

  -- Neither does `newRequest` change one behind its signature.
  new_request-IsSealed :
      (doc : J.Value) (s : Crypto) → IsSealed s → IsSealed (new_request J O doc s).2
  unfolding new_request
  new_request-IsSealed doc s h = elim (generate_keys_cases request_new s) [
    | inl a ↦ rw (a, new_request) (rsa-IsSealed request_new s refl refl h _ refl)
    | inr (inl a) ↦ rw (a, new_request) (dh-IsSealed request_new s refl refl h _ refl)
    | inr (inr a) ↦ rw (a, new_request) (requested-IsSealed s h)
  ]

  tested-crypto :
      (b : Bool) (c1 : CertificateImpl) (m1 : ManagerImpl J O) {c : CertificateImpl} {rc : ℤ}
      {m' : ManagerImpl J O}
      → returns (signature_tested J O b c1 m1) ≡ returns (c, rc, m')
      → m'.crypto ≡ m1.crypto
  tested-crypto true c1 m1 e = ground (arith, e)
  tested-crypto false c1 m1 e = ground (arith, e)

  -- If no certificate was changed behind its signature so far, then none is after `signRequest`
  -- has returned, with a signed certificate or with an error: the certificate that it makes for the
  -- request gets its contents before it is signed, and no other certificate is changed.
  pub sign_request-IsSealed :
      (cert ca : Option CertificateImpl) (doc : J.Value) (m m' : ManagerImpl J O)
      (c : CertificateImpl) (rc : ℤ)
      → sign_request J O cert ca doc m ≡ returns (c, rc, m')
      → IsSealed m.crypto
      → IsSealed m'.crypto
  unfolding sign_request
  sign_request-IsSealed cert ca doc m m' c rc e h =
      let (crt, first, e1) = >>=-eq-returns (deref cert) _ e in
      let (root, second, e2) = >>=-eq-returns (deref ca) _ e1 in
      let (seconds, third, e3) =
        >>=-eq-returns (seconds_valid (read_options J doc).days_valid) _ e2 in
      let (ca_x509, fourth, e4) = >>=-eq-returns (deref root.cert_x509) _ e3 in
      signed_from crt root ca_x509 seconds (
        tested-crypto (ltb_ℤ (O.code_of (sign m.crypto.fresh root.private_key)) (pos 0))
          (record crt { cert_x509 = some m.crypto.fresh })
          (record m {
            crypto =
                called
                  (signed_request J O m.crypto.fresh crt.private_key ca_x509 root.private_key
                    (read_options J doc) seconds)
                  1 m.crypto;
          })
          e4)
    where
      signed_from :
          (crt root : CertificateImpl) (x : Handle) (seconds : ℤ)
          → m'.crypto
            ≡ called
                (signed_request J O m.crypto.fresh crt.private_key x root.private_key
                  (read_options J doc)
                  seconds)
                1
                m.crypto
          → IsSealed m'.crypto
      signed_from crt root x seconds same = rw same (
          signed_request-IsSealed m.crypto crt.private_key root.private_key x (read_options J doc)
            seconds h)
