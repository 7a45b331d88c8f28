-- ===== src/Login/Handlers.antt =====
-- crates/server/src/http_server/authn/handlers.rs, the proof keys of crates/common/src/proof_key.rs,
-- and the code exchange of crates/server/src/services/live/twitch_token.rs.
pub mod Redirects
use minibot_rust.Base.{
  ℕ, Bool, true, false, List, [], ◌∷◌, ◌++◌, Option, none, some, ◌||◌, Outcome, ok, err, eq_bytes,
  Bytes, codes, ensure, ok_or, ◌>>=◌, ◌>>◌,
}
use minibot_rust.Utf8.{encode}
use minibot_rust.IrcClient.{join_bytes}
use minibot_rust.Login.{
  Text, Error, Result, no_confirmation, not_http, not_loopback, verify_error, Digest, Urls, Config,
}
use minibot_rust.Login.Tokens.{TokenStore, TokenData, to_token, from_token}

pub data AuthMethod : Type 0 where
  local_http : Text → AuthMethod
  by_token : AuthMethod

pub record AuthRequestInfo : Type 0 where
  pub auth_method : AuthMethod
  pub challenge : Text

pub record AuthConfirmInfo : Type 0 where
  pub code : Text
  pub challenge : Text

unfoldable pub generate_challenge : Digest → Text → Text
generate_challenge d verifier = d.base64 (d.sha256 (encode verifier))

-- `Verifier::verify`.
unfoldable pub verify : Digest → Text → Text → Result (Unit {0})
verify d verifier challenge =
    ensure (eq_bytes (generate_challenge d verifier) challenge) verify_error

-- `generate_pair`, from the 32 random bytes.
unfoldable pub generate_pair : Digest → Bytes → Text × Text
generate_pair d bytes = let verifier = d.base64 bytes in (generate_challenge d verifier, verifier)

is_some : Option Text → Text → Bool
is_some none t = false
is_some (some s) t = eq_bytes s t

-- `host_str()` is one of the two addresses of the machine itself.
unfoldable pub is_loopback : Option Text → Bool
unfolding is_some
is_loopback host = is_some host (codes "127.0.0.1") || is_some host (codes "[::1]")

abbrev pub code_request_query : Config → Text → Text → List (Text × Text)
code_request_query config scopes state =
    (codes "client_id", config.client_id)
    ∷ (codes "redirect_uri", config.redirect_url)
    ∷ (codes "scopes", scopes)
    ∷ (codes "response_type", codes "code")
    ∷ (codes "state", state)
    ∷ []

abbrev pub requested_scopes : List Text
requested_scopes = codes "openid" ∷ codes "viewing_activity_read" ∷ []

module _ {Url : Type 0} (urls : Urls Url) where
  unfoldable pub check_redirect : AuthMethod → Result (Unit {0})
  unfolding is_loopback
  check_redirect (local_http redirect_uri) = do
    url ← urls.parse redirect_uri
    ensure (eq_bytes (urls.scheme url) (codes "http")) not_http
    ensure (is_loopback (urls.host_str url)) not_loopback
  check_redirect by_token = ok tt

  unfoldable pub create_oauth_code_request_url : Config → List Text → Text → Result Text
  create_oauth_code_request_url config scopes state = do
    authz_url ← urls.parse config.authz_endpoint
    ok (
        urls.to_string (
          urls.with_query authz_url
            (code_request_query config (join_bytes scopes (codes " ")) state)))

  unfoldable pub handle_start_auth_request :
      AuthMethod → Text → TokenStore → TokenData AuthRequestInfo → Config → Result Text
  unfolding check_redirect create_oauth_code_request_url
  handle_start_auth_request auth_method challenge store requests config = do
    check_redirect auth_method
    token ← to_token store requests (record { auth_method = auth_method; challenge = challenge })
    create_oauth_code_request_url config requested_scopes token

-- The calls of `reqwest`: a POST with a query, to the text of the answer, which JSON reads.
pub record Http (Response : Type 0) : Type 0 where
  pub post : Text → List (Text × Text) → Result Text
  pub read_json : Text → Result Response

module _ {Response : Type 0} (http : Http Response) (config : Config) where
  -- `TwitchTokenImpl::exchange_code`.
  unfoldable pub exchange_code : Text → Result Response
  exchange_code code = do
    text ← http.post config.token_endpoint (
        (codes "client_id", config.client_id)
        ∷ (codes "client_secret", config.client_secret)
        ∷ (codes "code", code)
        ∷ (codes "grant_type", codes "authorization_code")
        ∷ (codes "redirect_uri", config.redirect_url)
        ∷ [])
    http.read_json text

  unfoldable pub handle_confirm :
      Digest → TokenStore → TokenData AuthConfirmInfo → Text → Text → Result Response
  unfolding exchange_code verify
  handle_confirm d store confirms token verifier = do
    found ← from_token store confirms token
    info ← ok_or found no_confirmation
    verify d verifier info.challenge
    exchange_code info.code

  unfoldable pub refresh_oauth_token : Text → Result Response
  refresh_oauth_token refresh_token = do
    text ← http.post config.token_endpoint (
        (codes "grant_type", codes "refresh_token")
        ∷ (codes "refresh_token", refresh_token)
        ∷ (codes "client_id", config.client_id)
        ∷ (codes "client_secret", config.client_secret)
        ∷ [])
    http.read_json text
