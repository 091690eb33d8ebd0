-- ===== src/Examples/Start.antt =====
-- What a program does when its server has no certificate.
use book_filer_module_http.Prelude.{
  ◌≡◌, refl, Bool, ℕ, ◌⊎◌, inl, inr, none, some, List, [], ◌∷◌, arith, Outcome, returns, undefined,
  deref, >>=-eq-returns, ap, ◌∙◌,
}
use book_filer_module_http.Prelude.Int.{ℤ, failure}
use book_filer_module_http.Env.{Env}
use book_filer_module_http.Json.{JsonLib, server_member}
use book_filer_module_http.Route.{Handler, SignalLib, RouteImpl, new_routes}
use book_filer_module_http.Server
use book_filer_module_http.Server.{AddressLib}
use book_filer_module_http.Server.Certificate.{SslCall, use_certificate}
use book_filer_module_http.Certificate.{OpenSsl}
use book_filer_module_http.Certificate.Files.{
  PemFiles, CertPaths, read_paths, load_certificate, load_certificate_lem,
}
use book_filer_module_http.Certificate.Manager
use book_filer_module_http.Module.{ModuleExport, new_server, new_certificate_manager}
use book_filer_module_http.Module.Loader.{Registration, Deployed, load, load_all}
use book_filer_module_http.Module.Loader.Settings.{
  registered, with_docs, last_settings, load_module_deploys,
}
use book_filer_module_http.Examples.{
  main, Application, server_options, all_modules_loaded, called_back,
}

module _ (E : Env) (S : SignalLib (Handler E)) (J : JsonLib) (N : AddressLib) (O : OpenSsl)
    (F : PemFiles) (takes : SslCall → Bool) (hardware : ℕ) where
  manager-settings :
      (m : ModuleExport E J N O) → (new_certificate_manager E J N O m).settings_doc ≡ m.settings_doc
  unfolding new_certificate_manager Manager.set_settings_doc
  manager-settings m = refl

  unloaded-undefined :
      (add_routes : RouteImpl E S → Outcome (RouteImpl E S)) (m : ModuleExport E J N O) (rc : ℤ)
      → load_certificate J F m.settings_doc none ≡ returns (none, rc)
      → all_modules_loaded E S J N O F takes hardware add_routes m ≡ undefined
  unfolding all_modules_loaded new_certificate_manager Manager.set_settings_doc
  unloaded-undefined add_routes m rc e = rw e refl

  unreadable_breaks :
      (add_routes : RouteImpl E S → Outcome (RouteImpl E S)) (m : ModuleExport E J N O)
      (doc v : J.Value) (p : CertPaths J F)
      → m.settings_doc ≡ some doc
      → server_member J doc ≡ some v
      → read_paths J F v ≡ returns p
      → (F.x509_in p.cert_path ≡ none)
        ⊎ (F.private_key_in p.private_key_path ≡ none)
        ⊎ (F.dh_in p.dh_key_path ≡ none)
      → all_modules_loaded E S J N O F takes hardware add_routes m ≡ undefined
  unreadable_breaks add_routes m doc v p has member paths missing =
      unloaded-undefined add_routes m failure (rw has not_loaded)
    where
      not_loaded : load_certificate J F (some doc) none ≡ returns (none, failure)
      not_loaded = elim (load_certificate_lem J F doc v none p member paths) [
        | inl (e, _) ↦ e
        | inr (x, key, dh, a, b, c, _) ↦ elim missing [
          | inl n ↦ absurd (cc (a, n))
          | inr (inl n) ↦ absurd (cc (b, n))
          | inr (inr n) ↦ absurd (cc (c, n))
        ]
      ]

  -- A program that has started has the routes that it added to none.
  pub all_modules_loaded-routes :
      (add_routes : RouteImpl E S → Outcome (RouteImpl E S)) (m : ModuleExport E J N O)
      (app : Application E S J N)
      → all_modules_loaded E S J N O F takes hardware add_routes m ≡ returns app
      → add_routes (new_routes E S) ≡ returns app.routes
  unfolding all_modules_loaded
  all_modules_loaded-routes add_routes m app e =
      let (loaded, _, e1) =
        >>=-eq-returns (load_certificate J F (new_certificate_manager E J N O m).settings_doc none)
          _ e in
      let (cert, _, e2) = >>=-eq-returns (deref loaded.0) _ e1 in
      let (_, _, e3) = >>=-eq-returns (use_certificate O takes cert []) _ e2 in
      let (routes, added, e4) = >>=-eq-returns (add_routes (new_routes E S)) _ e3 in
      let (_, _, e5) =
        >>=-eq-returns
          (Server.run J N hardware
            (new_server E J N O (server_options E S J N O F takes hardware) m))
          _ e4 in
      added ∙ ap returns (ground (arith, e5))

  -- A program whose settings, as they are deployed, name a file that cannot be read does not start
  -- without TLS, and does not report it: it follows a null pointer, before it adds a route or runs its
  -- server.
  pub unreadable_main_breaks :
      (deploys : List Registration → List (Deployed E J N O))
      (add_routes : RouteImpl E S → Outcome (RouteImpl E S)) (m : ModuleExport E J N O)
      (doc v : J.Value) (p : CertPaths J F)
      → last_settings E J N O (deploys (registered E J N O ∷ [])) m.settings_doc ≡ some doc
      → server_member J doc ≡ some v
      → read_paths J F v ≡ returns p
      → (F.x509_in p.cert_path ≡ none)
        ⊎ (F.private_key_in p.private_key_path ≡ none)
        ⊎ (F.dh_in p.dh_key_path ≡ none)
      → main E S J N O F takes hardware deploys add_routes (load m ∷ load_all ∷ []) ≡ undefined
  unfolding main called_back
  unreadable_main_breaks deploys add_routes m doc v p has member paths missing =
      let with = with_docs E J N O (deploys (registered E J N O ∷ [])) m in
      rw
        (
          load_module_deploys E J N O deploys (called_back E S J N O F takes hardware add_routes) m,
          unreadable_breaks add_routes with doc v p has member paths missing,
        )
        refl
