-- ===== src/Examples/Oauth/Login.antt =====
-- How the main thread of the oauth2-google program learns that the login is done.
use book_filer_module_http.Prelude.{
  ℕ, ◌≡◌, refl, sym, subst, ap, ◌∙◌, text_eq_refl, Bool, Option, none, some, [], ◌∷◌, arith, Text,
  codes, returns, >>=-eq-returns,
}
use book_filer_module_http.StdMap.{IsSorted}
use book_filer_module_http.Env.{Env}
use book_filer_module_http.Json.{JsonLib}
use book_filer_module_http.Request.{RequestImpl, get_query_key}
use book_filer_module_http.Route.{Handler, SignalLib}
use book_filer_module_http.Server.{AddressLib}
use book_filer_module_http.Server.Certificate.{SslCall}
use book_filer_module_http.Certificate.{OpenSsl}
use book_filer_module_http.Certificate.Files.{PemFiles}
use book_filer_module_http.Client.{Network}
use book_filer_module_http.Module.{ModuleExport, new_url}
use book_filer_module_http.Module.Waiting.{ConditionVariableMap, wait, notify}
use book_filer_module_http.Module.Waiting.Wakeups.{
  waiting, waiting-wait, waiting-notify, notify_one-nil, notify_one-alone, notify-IsSorted,
}
use book_filer_module_http.Examples.{Application}
use book_filer_module_http.Examples.Oauth.{OauthState, auth_options, route_all, start_server, start}

abbrev auth : Text
auth = codes "auth"

-- A thread that comes to wait where nobody does waits alone, and any notification frees it.
waits_alone :
    (m : ConditionVariableMap)
    → IsSorted m
    → waiting auth m ≡ []
    → waiting auth (wait 0 auth m) ≡ 0 ∷ []
waits_alone m sorted nobody = rw (waiting-wait auth 0 auth m sorted, nobody, text_eq_refl auth) refl

notify_frees :
    (choice t : ℕ) (m : ConditionVariableMap)
    → waiting auth m ≡ t ∷ []
    → waiting auth (notify choice auth m) ≡ []
notify_frees choice t m alone =
    rw (waiting-notify auth choice auth m, alone, text_eq_refl auth) (notify_one-alone choice t)

notify_nobody :
    (choice : ℕ) (m : ConditionVariableMap)
    → waiting auth m ≡ []
    → waiting auth (notify choice auth m) ≡ []
notify_nobody choice m nobody =
    rw (waiting-notify auth choice auth m, nobody, text_eq_refl auth) (notify_one-nil choice)

module _ (E : Env) (J : JsonLib) (N : AddressLib) (O : OpenSsl) (m : ModuleExport E J N O)
    (net : Network E) (parse_json : Text → Option J.Value) where
  module _ (pretty : J.Value → Text) (thread_id : Text) where
    -- A request that brings the code of a login.
    abbrev pub BringsCode : RequestImpl E → Text → Type 0
    BringsCode r code =
        (get_query_key E (codes "userId") r ≡ none) × (get_query_key E (codes "code") r ≡ some code)

    route_all_code :
        (choice : ℕ) (r : RequestImpl E) (code text : Text) (s s' : OauthState)
        → BringsCode r code
        → route_all E J N O m net parse_json pretty thread_id choice r s ≡ returns (text, s')
        → s' ≡ record s { auth_code = code; waiting = notify choice auth s.waiting }
    unfolding route_all
    route_all_code choice r code text s s' (no_user, has) e =
        ground (arith, rw (no_user, has, route_all) at e)

    -- What `start` does to the shared state, if it gets to its wait.
    module _ (client_id client_secret : Text) (S : SignalLib (Handler E)) (F : PemFiles)
        (takes : SslCall → Bool) (hardware : ℕ) (handler : Handler E) where
      abbrev Started : OauthState → Application E S J N → Text → OauthState → Type 0
      Started s app command s' =
          start E J N O m net parse_json client_id client_secret S F takes hardware handler s
          ≡ returns (app, command, s')

      start-state :
          (s s' : OauthState) (app : Application E S J N) (command : Text)
          → Started s app command s'
          → s' ≡ record s { waiting = wait 0 auth s.waiting }
      unfolding start
      start-state s s' app command e =
          let (_, _, e1) =
            >>=-eq-returns
              (start_server E J N O m net parse_json client_id client_secret S F takes hardware
                handler)
              _ e in
          let (_, _, e2) =
            >>=-eq-returns
              (new_url E J N O (auth_options E J N O m net parse_json client_id client_secret)) _
              e1 in
          ground (arith, e2)

      -- When the program was started while no thread waited for the login, and a request then brings
      -- the code of a login, no thread waits for it any more, and the main thread finds the code.
      pub login_wakes :
          (s s1 s2 : OauthState) (app : Application E S J N) (command text code : Text) (choice : ℕ)
          (r : RequestImpl E)
          → IsSorted s.waiting
          → waiting auth s.waiting ≡ []
          → Started s app command s1
          → BringsCode r code
          → route_all E J N O m net parse_json pretty thread_id choice r s1 ≡ returns (text, s2)
          → (s2.auth_code ≡ code) × (waiting (auth) s2.waiting ≡ [])
      login_wakes s s1 s2 app command text code choice r sorted nobody e brings answered =
          let begun = start-state s s1 app command e in
          let done = route_all_code choice r code text s1 s2 brings answered in
          (
            ap (λ x. x.auth_code) done,
            ap (λ x. waiting auth x.waiting) done
                ∙ notify_frees choice 0 s1.waiting
                    (ap (λ x. waiting auth x.waiting) begun ∙ waits_alone s.waiting sorted nobody),
          )

      -- When a request brings the code before the main thread waits, and no other thread waited, the
      -- notification is lost: the code is there, and the main thread waits for it.
      pub login_lost :
          (s s1 s2 : OauthState) (app : Application E S J N) (command text code : Text) (choice : ℕ)
          (r : RequestImpl E)
          → IsSorted s.waiting
          → waiting auth s.waiting ≡ []
          → BringsCode r code
          → route_all E J N O m net parse_json pretty thread_id choice r s ≡ returns (text, s1)
          → Started s1 app command s2
          → (s2.auth_code ≡ code) × (waiting (auth) s2.waiting ≡ 0 ∷ [])
      login_lost s s1 s2 app command text code choice r sorted nobody brings answered e =
          let done = route_all_code choice r code text s s1 brings answered in
          let begun = start-state s1 s2 app command e in
          let still_nobody =
            ap (λ x. waiting auth x.waiting) done ∙ notify_nobody choice s.waiting nobody in
          let still_sorted =
            subst (λ x. IsSorted x.waiting) (sym done)
              (notify-IsSorted choice auth s.waiting sorted) in
          (
            ap (λ x. x.auth_code) begun ∙ ap (λ x. x.auth_code) done,
            ap (λ x. waiting auth x.waiting) begun
                ∙ waits_alone s1.waiting still_sorted still_nobody,
          )
