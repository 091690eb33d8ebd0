-- ===== src/Certificate/Store.antt =====
-- The certificate store of Windows: `ManagerNativeImpl` of src/core/certificateManagerNativeWin.cpp
-- and `CertificateNativeImpl` of src/core/certificateNativeWin.cpp. A context is known by its number;
-- the log keeps what the store and the contexts are asked for.
pub mod Releases
pub mod Adding
use book_filer_module_http.Prelude.{
  ℕ, Bool, true, false, Option, none, some, List, [], ◌∷◌, ◌++◌, Text, codes, if◌then◌else◌,
  Outcome, returns, ◌>>=◌, deref,
}
use book_filer_module_http.Prelude.Int.{ℤ, success, failure}

-- OpenSSL and the functions of the store: `d2i_X509`, `i2d_X509` of a certificate that may be null,
-- `CertCreateCertificateContext`, whether `CertAddCertificateContextToStore` succeeds, and the two names
-- of a certificate as `X509_NAME_oneline` writes them.
pub record StoreLib : Type 1 where
  pub X509 : Type 0
  pub d2i : Text → Option X509
  pub i2d : Option X509 → Text
  pub create_context : Text → Option ℕ
  pub adds : ℕ → Bool
  pub subject_name : X509 → Text
  pub issuer_name : X509 → Text

pub record Context : Type 0 where
  pub number : ℕ
  pub encoded : Text

module _ (L : StoreLib) where
  pub data StoreCall : Type 0 where
    opened closed : StoreCall
    -- A context is freed.
    released : ℕ → StoreCall
    -- `X509_STORE_add_cert`.
    added : L.X509 → StoreCall

  pub record CertificateNativeImpl : Type 0 where
    pub p_cert_context : Option ℕ
    pub cert_x509 : Option L.X509

  pub record ManagerNativeImpl : Type 0 where
    pub cert_list : List CertificateNativeImpl
    pub log : List StoreCall

  pub logged : List StoreCall → ManagerNativeImpl → ManagerNativeImpl
  logged calls m = record m { log = m.log ++ calls }

  -- `CertFreeCertificateContext`, which takes a null pointer.
  pub free_context : Option ℕ → List StoreCall
  free_context none = []
  free_context (some c) = released c ∷ []

  -- `~CertificateNativeImpl` of every certificate of the list.
  pub destroy_all : List CertificateNativeImpl → List StoreCall
  unfolding free_context
  destroy_all [] = []
  destroy_all (c ∷ cs) = free_context c.p_cert_context ++ destroy_all cs

  -- `certList.clear()`: nothing else holds the certificates.
  pub clear : ManagerNativeImpl → ManagerNativeImpl
  unfolding logged destroy_all
  clear m = logged (destroy_all m.cert_list) (record m { cert_list = [] })

  pub keep_decoded : Option L.X509 → CertificateNativeImpl → CertificateNativeImpl × ℤ
  keep_decoded none c = (record c { cert_x509 = none }, failure)
  keep_decoded (some x) c = (record c { cert_x509 = some x }, success)

  -- `toX509`, of a certificate that holds a context.
  pub to_x509 : Context → CertificateNativeImpl → CertificateNativeImpl × ℤ
  unfolding keep_decoded
  to_x509 context c = keep_decoded (L.d2i context.encoded) c

  -- What the loop does with a certificate behind `toX509`. One that is not decoded keeps its context;
  -- one that is gives it up, so that it is not freed twice; its information is printed.
  pub store_certificate : CertificateNativeImpl × ℤ → ManagerNativeImpl → ManagerNativeImpl
  store_certificate (c, rc) m = elim c.cert_x509 [
    | none ↦ record m { cert_list = m.cert_list ++ c ∷ [] }
    | some x ↦ record m {
      cert_list = m.cert_list ++ record c { p_cert_context = none } ∷ [];
      log = m.log ++ added x ∷ [];
    }
  ]

  -- The body of the loop.
  pub take_context : Context → ManagerNativeImpl → ManagerNativeImpl
  unfolding to_x509 store_certificate
  take_context context m =
      store_certificate
        (to_x509 context (record { p_cert_context = some context.number; cert_x509 = none })) m

  -- `while (pCertContext = CertEnumCertificatesInStore(hCertStore, pCertContext))`: each call frees
  -- the context that the one before it gave, the call that finds no more too.
  pub enumerate : Option ℕ → List Context → ManagerNativeImpl → ManagerNativeImpl
  unfolding logged free_context take_context
  enumerate prev [] m = logged (free_context prev) m
  enumerate prev (context ∷ contexts) m =
      enumerate (some context.number) contexts (take_context context (logged (free_context prev) m))

  -- Whether `X509_STORE_new` and `CertOpenSystemStoreW` succeed, and what the store holds, are given.
  pub create_x509_store : Bool → Bool → List Context → ManagerNativeImpl → ManagerNativeImpl × ℤ
  unfolding clear enumerate
  create_x509_store false opens contexts m = (clear m, failure)
  create_x509_store true false contexts m = (clear m, failure)
  create_x509_store true true contexts m =
      (logged (closed ∷ []) (enumerate none contexts (logged (opened ∷ []) (clear m))), success)

  pub keep_context : Option ℕ → CertificateNativeImpl → CertificateNativeImpl × ℤ
  keep_context none c = (record c { p_cert_context = none }, failure)
  keep_context (some n) c = (record c { p_cert_context = some n }, success)

  -- `toNative`: the context that the certificate had is not freed.
  pub to_native : CertificateNativeImpl → CertificateNativeImpl × ℤ
  unfolding keep_context
  to_native c = keep_context (L.create_context (L.i2d c.cert_x509)) c

  -- `CertAddCertificateContextToStore`, and the closing of the store.
  pub add_context : Option ℕ → ManagerNativeImpl → ManagerNativeImpl × ℤ
  unfolding logged
  add_context none m = (m, failure)
  add_context (some n) m = if L.adds n then (logged (closed ∷ []) m, success) else (m, failure)

  -- `getInfo`, which follows the pointer to the certificate of OpenSSL. That memory runs out for the
  -- names is left out.
  pub get_info : Option L.X509 → Outcome Text
  get_info cert_x509 = do
    x ← deref cert_x509
    returns
        (codes "subject name: " ++ L.subject_name x ++ codes "\nissuer name: " ++ L.issuer_name x)

  -- The handle of the store is not looked at. The information is only printed.
  pub add_certificate :
      CertificateNativeImpl
      → ManagerNativeImpl
      → Outcome (CertificateNativeImpl × ManagerNativeImpl × ℤ)
  unfolding to_native add_context get_info
  add_certificate c m = do
    let m1 = logged (opened ∷ []) m
    info ← get_info c.cert_x509
    let c1 = (to_native c).0
    let r = add_context c1.p_cert_context m1
    returns (c1, r.0, r.1)
