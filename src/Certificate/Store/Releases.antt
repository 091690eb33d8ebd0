-- ===== src/Certificate/Store/Releases.antt =====
-- Which contexts of the store of Windows are freed, and how often.
use book_filer_module_http.Prelude.{
  ℕ, ◌≡◌, refl, ap, ◌∙◌, true, Option, none, some, List, [], ◌∷◌, ◌++◌, map, append-nil,
  append_assoc,
}
use book_filer_module_http.Certificate.Store.{
  StoreLib, Context, StoreCall, opened, closed, released, added, CertificateNativeImpl,
  ManagerNativeImpl, logged, free_context, destroy_all, clear, store_certificate, keep_decoded,
  take_context, enumerate, create_x509_store,
}

abbrev to_list : Option ℕ → List ℕ
to_list none = []
to_list (some n) = n ∷ []

-- The numbers of contexts.
abbrev pub numbers : List Context → List ℕ
numbers [] = []
numbers (c ∷ cs) = c.number ∷ numbers cs

module _ (L : StoreLib) where
  -- The contexts that a log frees, in their order.
  abbrev pub frees : List (StoreCall L) → List ℕ
  frees [] = []
  frees (released n ∷ calls) = n ∷ frees calls
  frees (opened ∷ calls) = frees calls
  frees (closed ∷ calls) = frees calls
  frees (added x ∷ calls) = frees calls

  -- The contexts that the certificates of a list hold.
  abbrev pub held : List (CertificateNativeImpl L) → List ℕ
  held [] = []
  held (c ∷ cs) = to_list c.p_cert_context ++ held cs

  abbrev certificate_with : Option L.X509 → ℕ → CertificateNativeImpl L
  certificate_with none n = record { p_cert_context = some n; cert_x509 = none }
  certificate_with (some x) n = record { p_cert_context = none; cert_x509 = some x }

  -- The certificate that stands for a context: it holds the context exactly if it is not decoded.
  abbrev pub certificate_of : Context → CertificateNativeImpl L
  certificate_of c = certificate_with (L.d2i c.encoded) c.number

  -- The numbers of the contexts that are not decoded.
  abbrev pub undecoded : List Context → List ℕ
  undecoded [] = []
  undecoded (c ∷ cs) = to_list (certificate_of c).p_cert_context ++ undecoded cs

  frees-append : (a b : List (StoreCall L)) → frees (a ++ b) ≡ frees a ++ frees b
  frees-append [] b = refl
  frees-append (released n ∷ a) b = ap (λ l. n ∷ l) (frees-append a b)
  frees-append (opened ∷ a) b = frees-append a b
  frees-append (closed ∷ a) b = frees-append a b
  frees-append (added x ∷ a) b = frees-append a b

  frees-free_context : (c : Option ℕ) → frees (free_context L c) ≡ to_list c
  unfolding free_context
  frees-free_context none = refl
  frees-free_context (some n) = refl

  frees-destroy_all : (cs : List (CertificateNativeImpl L)) → frees (destroy_all L cs) ≡ held cs
  unfolding destroy_all
  frees-destroy_all [] = refl
  frees-destroy_all (c ∷ cs) = simp (frees-append, frees-free_context, frees-destroy_all cs)

  frees-store_certificate :
      (o : Option L.X509) (c : CertificateNativeImpl L) (m : ManagerNativeImpl L)
      → frees (store_certificate L (keep_decoded L o c) m).log ≡ frees m.log
  unfolding store_certificate keep_decoded
  frees-store_certificate none c m = refl
  frees-store_certificate (some x) c m = simp (frees-append, append-nil)

  frees-take_context :
      (c : Context) (m : ManagerNativeImpl L) → frees (take_context L c m).log ≡ frees m.log
  unfolding take_context
  frees-take_context c m =
      frees-store_certificate (L.d2i c.encoded)
        (record { p_cert_context = some c.number; cert_x509 = none }) m

  cert_list-store_certificate :
      (o : Option L.X509) (n : ℕ) (m : ManagerNativeImpl L)
      → (store_certificate L
          (keep_decoded L o (record { p_cert_context = some n; cert_x509 = none }))
          m).cert_list
        ≡ m.cert_list ++ certificate_with o n ∷ []
  unfolding store_certificate keep_decoded
  cert_list-store_certificate none n m = refl
  cert_list-store_certificate (some x) n m = refl

  cert_list-take_context :
      (c : Context) (m : ManagerNativeImpl L)
      → (take_context L c m).cert_list ≡ m.cert_list ++ certificate_of c ∷ []
  unfolding take_context
  cert_list-take_context c m = cert_list-store_certificate (L.d2i c.encoded) c.number m

  frees-enumerate :
      (prev : Option ℕ) (cs : List Context) (m : ManagerNativeImpl L)
      → frees (enumerate L prev cs m).log ≡ frees m.log ++ to_list prev ++ numbers cs
  unfolding enumerate
  frees-enumerate prev [] m = simp (frees-append, frees-free_context, append-nil)
  frees-enumerate prev (c ∷ cs) m = simp (
    frees-enumerate (some c.number) cs (take_context L c (logged L (free_context L prev) m)),
    frees-take_context,
    frees-append,
    frees-free_context,
    append_assoc,
  )

  cert_list-enumerate :
      (prev : Option ℕ) (cs : List Context) (m : ManagerNativeImpl L)
      → (enumerate L prev cs m).cert_list ≡ m.cert_list ++ map certificate_of cs
  unfolding enumerate
  cert_list-enumerate prev [] m = simp append-nil
  cert_list-enumerate prev (c ∷ cs) m = simp (
    cert_list-enumerate (some c.number) cs (take_context L c (logged L (free_context L prev) m)),
    cert_list-take_context,
    append_assoc,
  )

  held-map : (cs : List Context) → held (map certificate_of cs) ≡ undecoded cs
  held-map [] = refl
  held-map (c ∷ cs) = ap (λ l. to_list (certificate_of c).p_cert_context ++ l) (held-map cs)

  create_lem :
      (cs : List Context) (m : ManagerNativeImpl L)
      → ((create_x509_store L true true cs m).0.cert_list ≡ map certificate_of cs)
        × (frees (create_x509_store L true true cs m).0.log
            ≡ frees m.log ++ held m.cert_list ++ numbers cs)
  unfolding create_x509_store clear logged
  create_lem cs m = (
    cert_list-enumerate none cs (logged L (opened ∷ []) (clear L m)),
    frees-append (enumerate L none cs opened_m).log (closed ∷ [])
        ∙ append-nil (frees (enumerate L none cs opened_m).log)
        ∙ frees-enumerate none cs opened_m
        ∙ ap (λ l. l ++ numbers cs) (simp (frees-append, frees-destroy_all, append-nil)),
  )
    where
      opened_m : ManagerNativeImpl L
      opened_m = logged L (opened ∷ []) (clear L m)

  -- When OpenSSL and Windows give their stores both times, making the store of a manager twice frees
  -- every context that the store of Windows held the first time and the second, and those that the
  -- certificates of the manager held before; and, once more, each context of the first time that was
  -- not decoded.
  pub create_x509_store_twice :
      (cs ds : List Context) (m : ManagerNativeImpl L)
      → frees (create_x509_store L true true ds (create_x509_store L true true cs m).0).0.log
        ≡ frees m.log ++ held m.cert_list ++ numbers cs ++ undecoded cs ++ numbers ds
  create_x509_store_twice cs ds m =
      let first = create_lem cs m in
      (create_lem ds (create_x509_store L true true cs m).0).1
      ∙ rw (first.0, first.1, held-map cs) (simp append_assoc)
