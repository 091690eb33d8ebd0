-- ===== src/Certificate/Edits.antt =====
-- The calls that fill a certificate, in src/core/certificateManager.cpp, as edits of that certificate.
use book_filer_module_http.Prelude.{
  ◌≡◌, refl, ◌⊎◌, inl, inr, Bool-cases, Option, none, some, List, [], ◌∷◌, ◌++◌, Text, All-append,
}
use book_filer_module_http.Prelude.Int.{ℤ, pos}
use book_filer_module_http.Json.{JsonLib}
use book_filer_module_http.Certificate.{
  Call, Handle, OpenSsl, set_serial, set_version, set_not_before, set_not_after, set_pubkey,
  set_issuer_name, add_ext, add_unchecked,
}
use book_filer_module_http.Certificate.Options.{CertOptions}
use book_filer_module_http.Certificate.Manager.{
  subject_entries, self_extensions, add_exts, self_contents, request_contents,
}
use book_filer_module_http.Certificate.Sealed.{changes, signs, Edits}

module _ (J : JsonLib) (O : OpenSsl) where
  add_ext-Edits : (x : Handle) (nid v : Text) → Edits x (add_ext O x nid v)
  unfolding add_ext
  add_ext-Edits x nid v = elim (Bool-cases (O.extension_made nid v)) [
    | inl e ↦ rw (e, add_ext) ((inr refl, refl), tt)
    | inr e ↦ rw (e, add_ext) tt
  ]

  Edits-append : (x : Handle) (cs ds : List Call) → Edits x cs → Edits x ds → Edits x (cs ++ ds)
  Edits-append x cs ds h k =
      All-append (λ d. ((changes d ≡ none) ⊎ (changes d ≡ some x)) × (signs d ≡ none)) cs ds h k

  add_exts-Edits :
      (x : Handle) (extensions : List (Text × Text)) → Edits x (add_exts J O x extensions)
  add_exts-Edits x [] = tt
  add_exts-Edits x ((nid, v) ∷ extensions) =
      Edits-append x (add_ext O x nid v) (add_exts J O x extensions) (add_ext-Edits x nid v)
        (add_exts-Edits x extensions)

  -- The contents of a new certificate change only that certificate, and sign nothing.
  pub self_contents-Edits :
      (x key : Handle) (o : CertOptions) (seconds : ℤ) → Edits x (self_contents J O x key o seconds)
  self_contents-Edits x key o seconds =
      Edits-append x first (add_exts J O x (self_extensions J O))
        (
          (inr refl, refl),
          (
            (inr refl, refl),
            (
              (inr refl, refl),
              (
                (inr refl, refl),
                (
                  (inr refl, refl),
                  (
                    (inr refl, refl),
                    (
                      (inr refl, refl),
                      (
                        (inr refl, refl),
                        (
                          (inr refl, refl),
                          ((inr refl, refl), ((inr refl, refl), ((inr refl, refl), tt))),
                        ),
                      ),
                    ),
                  ),
                ),
              ),
            ),
          ),
        )
        (add_exts-Edits x (self_extensions J O))
    where
      first : List Call
      first =
          (set_serial x 5
            ∷ set_not_before x (pos 0)
            ∷ set_not_after x seconds
            ∷ set_pubkey x (some key)
            ∷ set_version x 2
            ∷ [])
          ++ subject_entries x o
          ++ set_issuer_name x x ∷ []

  -- So do those of the certificate for a request.
  pub request_contents-Edits :
      (x ca : Handle) (key : Option Handle) (o : CertOptions) (seconds : ℤ)
      → Edits x (request_contents J O x key ca o seconds)
  unfolding add_unchecked
  request_contents-Edits x ca key o seconds = (
    (inl refl, refl),
    (
      (inr refl, refl),
      (
        (inr refl, refl),
        (
          (inr refl, refl),
          (
            (inr refl, refl),
            (
              (inr refl, refl),
              (
                (inr refl, refl),
                (
                  (inr refl, refl),
                  (
                    (inr refl, refl),
                    (
                      (inr refl, refl),
                      (
                        (inr refl, refl),
                        (
                          (inr refl, refl),
                          (
                            (inr refl, refl),
                            (
                              (inr refl, refl),
                              ((inr refl, refl), ((inr refl, refl), ((inr refl, refl), tt))),
                            ),
                          ),
                        ),
                      ),
                    ),
                  ),
                ),
              ),
            ),
          ),
        ),
      ),
    ),
  )
