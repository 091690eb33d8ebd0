-- ===== src/Certificate/Store/Adding.antt =====
-- What adding a certificate to the store of Windows does.
use book_filer_module_http.Prelude.{
  ℕ, ◌≡◌, refl, ◌∙◌, ◌⊎◌, inl, inr, true, false, Option, none, some, [], ◌∷◌, ◌++◌, append_assoc,
  Bool-cases, Option-cases, Text, returns, undefined,
}
use book_filer_module_http.Prelude.Int.{success, failure}
use book_filer_module_http.Certificate.Store.{
  StoreLib, opened, closed, CertificateNativeImpl, ManagerNativeImpl, logged, keep_context,
  to_native, add_context, get_info, add_certificate,
}

module _ (L : StoreLib) where
  -- What becomes of a context that was made, or not.
  add_context_cases :
      (o : Option ℕ) (m : ManagerNativeImpl L)
      → ((n : ℕ) × (o ≡ some n)
          × (L.adds n ≡ true)
          × (add_context L o m ≡ (record m { log = m.log ++ closed ∷ [] }, success)))
        ⊎ (((n : ℕ) → o ≡ some n → L.adds n ≡ false) × (add_context L o m ≡ (m, failure)))
  unfolding add_context logged
  add_context_cases none m = inr ((λ n e. cc), refl)
  add_context_cases (some k) m = elim (Bool-cases (L.adds k)) [
    | inl e ↦ inl (k, refl, e, rw e refl)
    | inr e ↦ inr ((λ n q. cc), rw e refl)
  ]

  keep_context_lem :
      (o : Option ℕ) (c : CertificateNativeImpl L)
      → (keep_context L o c).0 ≡ record c { p_cert_context = o }
  unfolding keep_context
  keep_context_lem none c = refl
  keep_context_lem (some n) c = refl

  get_info-some :
      (o : Option L.X509) (x : L.X509) → o ≡ some x → (t : Text) × (get_info L o ≡ returns t)
  unfolding get_info
  get_info-some none x e = absurd cc
  get_info-some (some y) x e = (_, refl)

  add_certificate_lem :
      (c : CertificateNativeImpl L) (m : ManagerNativeImpl L) (x : L.X509)
      → c.cert_x509 ≡ some x
      → let made = L.create_context (L.i2d c.cert_x509) in
        let r = add_context L made (record m { log = m.log ++ opened ∷ [] }) in
        add_certificate L c m ≡ returns (record c { p_cert_context = made }, r.0, r.1)
  unfolding add_certificate to_native logged
  add_certificate_lem c m x has =
      let (t, got) = get_info-some c.cert_x509 x has in
      rw got (rw (keep_context_lem (L.create_context (L.i2d c.cert_x509)) c) refl)

  -- Adding a certificate that has none of OpenSSL follows a null pointer, for the text that is
  -- printed. Any other is given the context that is made of it, if one is. Adding it succeeds exactly
  -- when a context is made and the store takes it; only then is the store that was opened closed
  -- again. Nothing is freed, not even the context that the certificate had before.
  pub add_certificate_cases :
      (c : CertificateNativeImpl L) (m : ManagerNativeImpl L)
      → ((c.cert_x509 ≡ none) × (add_certificate L c m ≡ undefined))
        ⊎ ((x : L.X509) × (n : ℕ) × (c.cert_x509 ≡ some x)
            × (L.create_context (L.i2d c.cert_x509) ≡ some n)
            × (L.adds n ≡ true)
            × (add_certificate L c m
                ≡ returns (
                  record c { p_cert_context = some n },
                  record m { log = m.log ++ opened ∷ closed ∷ [] },
                  success,
                )))
        ⊎ ((x : L.X509) × (c.cert_x509 ≡ some x)
            × ((n : ℕ) → L.create_context (L.i2d c.cert_x509) ≡ some n → L.adds n ≡ false)
            × (add_certificate L c m
                ≡ returns (
                  record c { p_cert_context = L.create_context (L.i2d c.cert_x509) },
                  record m { log = m.log ++ opened ∷ [] },
                  failure,
                )))
  unfolding add_certificate get_info
  add_certificate_cases c m = elim (Option-cases c.cert_x509) [
    | inl missing ↦ inl (missing, rw missing refl)
    | inr (x, has) ↦
        elim (add_context_cases (L.create_context (L.i2d c.cert_x509))
          (record m { log = m.log ++ opened ∷ [] })) [
            | inl (n, made, taken, r) ↦ inr (
                inl (
                  x,
                  n,
                  has,
                  made,
                  taken,
                  add_certificate_lem c m x has
                      ∙ rw r (rw made (rw (append_assoc m.log (opened ∷ []) (closed ∷ [])) refl)),
                ))
            | inr (none_taken, r) ↦
                inr (inr (x, has, none_taken, add_certificate_lem c m x has ∙ rw r refl))
          ]
  ]
