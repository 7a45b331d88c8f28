-- ===== src/Login/Handlers/Redirects.antt =====
-- crates/server/src/http_server/authn/handlers.rs: where a login may send the user back to.
use minibot_rust.Base.{
  ◌≡◌, refl, ap, Bool, true, false, Option, none, some, ◌⊎◌, inl, inr, ok, eq_bytes, eq_bytes_iff,
  codes, ensure, bind-eq-ok, Bool-cases, arith,
}
use minibot_rust.Login.{Text, Urls, Config}
use minibot_rust.Login.Tokens.{TokenStore, TokenData, to_token}
use minibot_rust.Login.Handlers.{
  AuthMethod, local_http, AuthRequestInfo, is_loopback, check_redirect,
  create_oauth_code_request_url, requested_scopes, handle_start_auth_request,
}

module _ {Url : Type 0} (urls : Urls Url) where
  -- A URL over plain HTTP to the machine itself.
  abbrev pub Loopback : Text → Type 0
  Loopback uri =
      (url : Url) × (urls.parse uri ≡ ok url)
      × (urls.scheme url ≡ codes "http")
      × ((urls.host_str url ≡ some (codes "127.0.0.1"))
          ⊎ (urls.host_str url ≡ some (codes "[::1]")))

ensure-ok : {E : Type 0} (b : Bool) (e : E) {u : Unit {0}} → ensure b e ≡ ok u → b ≡ true
ensure-ok true e h = refl
ensure-ok false e h = cc

is_loopback-cases :
    (host : Option Text)
    → is_loopback host ≡ true
    → (host ≡ some (codes "127.0.0.1")) ⊎ (host ≡ some (codes "[::1]"))
unfolding is_loopback
is_loopback-cases none h = cc
is_loopback-cases (some t) h = elim (Bool-cases (eq_bytes t (codes "127.0.0.1"))) [
  | inl four ↦ inl (ap some ((eq_bytes_iff t (codes "127.0.0.1")).0 four))
  | inr other ↦ inr (ap some ((eq_bytes_iff t (codes "[::1]")).0 (ground (arith, h, other))))
]

module _ {Url : Type 0} (urls : Urls Url) where
  pub check_redirect-Loopback :
      (uri : Text) {u : Unit {0}} → check_redirect urls (local_http uri) ≡ ok u → Loopback urls uri
  unfolding check_redirect
  check_redirect-Loopback uri h =
      let (url, parsed, checked) = bind-eq-ok (urls.parse uri) _ h in
      let (u1, scheme, host) =
        bind-eq-ok (ensure (eq_bytes (urls.scheme url) (codes "http")) _) _ checked in
      (
        url,
        parsed,
        (eq_bytes_iff (urls.scheme url) (codes "http")).0 (ensure-ok _ _ scheme),
        is_loopback-cases (urls.host_str url) (ensure-ok _ _ host),
      )

  -- What a login that has started has made: the token for its request, and the URL at the provider
  -- with that token as its state.
  pub handle_start_auth_request_ok :
      (method : AuthMethod) (challenge : Text) (store : TokenStore)
      (requests : TokenData AuthRequestInfo) (config : Config) (redirect : Text)
      → handle_start_auth_request urls method challenge store requests config ≡ ok redirect
      → (check_redirect urls method ≡ ok tt)
        × ((state : Text) × (to_token store requests
                (record { auth_method = method; challenge = challenge })
              ≡ ok state)
            × (create_oauth_code_request_url urls config requested_scopes state ≡ ok redirect))
  unfolding handle_start_auth_request
  handle_start_auth_request_ok method challenge store requests config redirect h =
      let (u, checked, rest) = bind-eq-ok (check_redirect urls method) _ h in
      (
        checked,
        bind-eq-ok
            (to_token store requests (record { auth_method = method; challenge = challenge })) _
            rest,
      )
