-- ===== src/Login/Endpoints/Flow.antt =====
-- crates/server/src/http_server/authn/endpoints.rs: the login from its start to its confirmation.
use minibot_rust.Base.{
  List, [], ◌∷◌, ◌++◌, append_assoc, ap, ◌≡◌, ◌≢◌, refl, sym, subst, some, ok, err, eq_bytes, codes,
  ◌>>=◌, bind-eq-ok, Bool-cases, inl, inr, arith, if◌then◌else◌,
}
use minibot_rust.Login.{Text, Result, verify_error}
use minibot_rust.Login.Tokens.{to_token, from_token}
use minibot_rust.Login.Tokens.Types.{
  Returns, Reads, SameField, from_token-to_token, from_token-refuses,
}
use minibot_rust.Login.Handlers.{
  AuthMethod, local_http, by_token, AuthRequestInfo, AuthConfirmInfo, generate_challenge, verify,
  check_redirect, create_oauth_code_request_url, requested_scopes, handle_start_auth_request,
}
use minibot_rust.Login.Handlers.Redirects.{
  Loopback, check_redirect-Loopback, handle_start_auth_request_ok,
}
use minibot_rust.Login.Endpoints.{
  LoginQuery, Response, temporary_redirect, plain_text, json_access_token, Services,
  read_auth_method, login_handler, hand_over, callback_handler, handle_endpoint,
}

module _ {Url : Type 0} (s : Services Url) where
  -- A login has begun: the token of its request is the state that its redirect carries.
  abbrev pub Started : LoginQuery → AuthMethod → Text → Response → Type 0
  Started q method state r =
      (redirect : Text) × (r ≡ temporary_redirect redirect)
      × (to_token s.store s.requests (record { auth_method = method; challenge = q.challenge })
          ≡ ok state)
      × (create_oauth_code_request_url s.urls s.config requested_scopes state ≡ ok redirect)

  -- A login that is answered has read its method from the query, has checked where it may send the
  -- user back to, has made a token for its request, and redirects to the provider with that token.
  pub login_handler-Started :
      (q : LoginQuery) (r : Response)
      → login_handler s q ≡ ok r
      → (method : AuthMethod) × (state : Text) × (read_auth_method q.auth_method q.redirect_uri
          ≡ ok method)
        × (check_redirect s.urls method ≡ ok tt)
        × Started q method state r
  unfolding login_handler
  login_handler-Started q r h =
      let (method, read, rest) = bind-eq-ok (read_auth_method q.auth_method q.redirect_uri) _ h in
      let (redirect, started, same) =
        bind-eq-ok (handle_start_auth_request s.urls method q.challenge s.store s.requests s.config)
          _ rest in
      let (checked, (state, made, url)) =
        handle_start_auth_request_ok s.urls method q.challenge s.store s.requests s.config redirect
          started in
      (method, state, read, checked, (redirect, cc, made, url))

  read_auth_method-some :
      (m uri : Text) (method : AuthMethod)
      → read_auth_method m (some uri) ≡ ok method
      → method ≡ local_http uri
  unfolding read_auth_method
  read_auth_method-some m uri method h = ground (arith, h)

  -- A login that names a place to send the user back to is answered only when that place is a plain
  -- HTTP URL of the machine itself, 127.0.0.1 or [::1].
  pub login_handler-Loopback :
      (q : LoginQuery) (uri : Text) (r : Response)
      → q.redirect_uri ≡ some uri
      → login_handler s q ≡ ok r
      → Loopback s.urls uri
  login_handler-Loopback q uri r e h =
      let (method, state, read, checked, started) = login_handler-Started q r h in
      let same =
        read_auth_method-some q.auth_method uri method
          (subst (λ o. read_auth_method q.auth_method o ≡ ok method) e read) in
      check_redirect-Loopback s.urls uri (rw same at checked)

  -- The answer that brings a token to the client: a redirect to the place that the login has named, if
  -- that can be read as a URL, with the token as its query, or a page that shows the token.
  abbrev pub answer_with : Text → AuthMethod → Result Response
  answer_with token (local_http redirect_uri) = s.urls.parse redirect_uri >>= λ url.
      ok (
        temporary_redirect (s.urls.to_string (s.urls.with_query url ((codes "token", token) ∷ []))))
  answer_with token by_token = ok (
      plain_text (
        codes "Your confirmation code is "
        ++ token
        ++ codes "\nPlease copy this to the app which is requesting authentication.\n"))

  hand_over-answer_with :
      (token : Text) (method : AuthMethod) → hand_over s token method ≡ answer_with token method
  unfolding hand_over
  hand_over-answer_with token (local_http redirect_uri) = refl
  hand_over-answer_with token by_token =
      ap (λ text. ok (plain_text text))
        (sym (
          append_assoc (codes "Your confirmation code is ") token
            (codes "\nPlease copy this to the app which is requesting authentication.\n")))

  callback_handler-hand_over :
      (info : AuthRequestInfo) (scope : List Text) (state code token : Text)
      → Returns s.store
      → Reads s.requests
      → to_token s.store s.requests info ≡ ok state
      → to_token s.store s.confirms (record { code = code; challenge = info.challenge }) ≡ ok token
      → callback_handler s (record { code = code; scope = scope; state = state })
        ≡ answer_with token info.auth_method
  unfolding callback_handler
  callback_handler-hand_over info scope state code token returns reads made confirm =
      rw (from_token-to_token s.store s.requests info state returns reads made)
        (rw confirm (hand_over-answer_with token info.auth_method))

  pub handle_endpoint-verifies :
      {Tokens : Type 0} (exchange : Text → Result Tokens) (info : AuthConfirmInfo)
      (token verifier : Text)
      → Returns s.store
      → Reads s.confirms
      → to_token s.store s.confirms info ≡ ok token
      → handle_endpoint s exchange (record { token = token; verifier = verifier }) ≡ (
          if eq_bytes (generate_challenge s.digest verifier) info.challenge
          then (exchange info.code >>= λ _. ok (json_access_token (codes "Hello")))
          else err verify_error)
  unfolding handle_endpoint verify
  handle_endpoint-verifies exchange info token verifier returns reads made =
      elim (Bool-cases (eq_bytes (generate_challenge s.digest verifier) info.challenge)) [
        | inl same ↦
            rw (from_token-to_token s.store s.confirms info token returns reads made) (rw same refl)
        | inr other ↦
            rw (from_token-to_token s.store s.confirms info token returns reads made)
              (rw other refl)
      ]

  -- The flow behind a login, with a token store that gives back what it was given and JSON that reads
  -- what it has written: with the token of its request as the state, the callback makes a
  -- confirmation token for the code that it is given and the challenge of the login, when such a
  -- token can be made. If the login has named a place to send the user back to, the callback
  -- redirects there with the token in the query parameter token, or fails when the place is no URL;
  -- if it has named none, the callback shows the token in a text. With that token, the confirmation
  -- gives an access token exactly when the verifier belongs to the challenge and the code, the same
  -- code, can be exchanged; with any other verifier it fails before the exchange.
  pub login_confirms :
      {Tokens : Type 0} (exchange : Text → Result Tokens) (info : AuthRequestInfo)
      (scope : List Text) (state code token verifier : Text)
      → Returns s.store
      → Reads s.requests
      → Reads s.confirms
      → to_token s.store s.requests info ≡ ok state
      → to_token s.store s.confirms (record { code = code; challenge = info.challenge }) ≡ ok token
      → (callback_handler s (record { code = code; scope = scope; state = state })
          ≡ answer_with token info.auth_method)
        × (handle_endpoint s exchange (record { token = token; verifier = verifier }) ≡ (
            if eq_bytes (generate_challenge s.digest verifier) info.challenge
            then (exchange code >>= λ _. ok (json_access_token (codes "Hello")))
            else err verify_error))
  login_confirms exchange info scope state code token verifier returns reads_request reads_confirm
        made confirm =
      (
        callback_handler-hand_over info scope state code token returns reads_request made confirm,
        handle_endpoint-verifies exchange (record { code = code; challenge = info.challenge }) token
            verifier returns reads_confirm confirm,
      )

  -- When the names that `std::any::type_name` gives to the two kinds of tokens differ, which it does
  -- not promise, the token store gives back what it was given, and JSON that is read as the other
  -- kind, if it can be read so at all, has the type name that was written: then a token of one step
  -- of the login is refused at the other, as the state of a request confirms nothing, and a
  -- confirmation token is no state of a callback.
  pub tokens_stay_apart :
      {Tokens : Type 0} (exchange : Text → Result Tokens) (request : AuthRequestInfo)
      (confirm : AuthConfirmInfo) (scope : List Text) (state token verifier code : Text)
      (r : Response)
      → Returns s.store
      → SameField s.requests s.confirms
      → SameField s.confirms s.requests
      → s.requests.type_id ≢ s.confirms.type_id
      → to_token s.store s.requests request ≡ ok state
      → to_token s.store s.confirms confirm ≡ ok token
      → (handle_endpoint s exchange (record { token = state; verifier = verifier }) ≢ ok r)
        × (callback_handler s (record { code = code; scope = scope; state = token }) ≢ ok r)
  unfolding handle_endpoint callback_handler
  tokens_stay_apart exchange request confirm scope state token verifier code r returns there back
        differ made made' =
      (
        λ h.
            let (found, e, rest) = bind-eq-ok (from_token s.store s.confirms state) _ h in
            from_token-refuses s.store s.requests s.confirms request state found returns there
              differ made e,
        λ h.
            let (found, e, rest) = bind-eq-ok (from_token s.store s.requests token) _ h in
            from_token-refuses s.store s.confirms s.requests confirm token found returns back
              (λ same. differ (sym same)) made' e,
      )
