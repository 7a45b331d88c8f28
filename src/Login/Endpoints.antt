-- ===== src/Login/Endpoints.antt =====
-- crates/server/src/http_server/authn/endpoints.rs: the three handlers of the login. What gotham
-- hands to a handler is its arguments; the query has been read by gotham. A response is what it
-- holds.
pub mod Flow
use minibot_rust.Base.{
  ℕ, Bool, true, false, List, [], ◌∷◌, ◌++◌, Option, none, some, Outcome, ok, err, eq_bytes, Bytes,
  codes, ensure, ok_or, ◌>>=◌, ◌>>◌, if◌then◌else◌,
}
use minibot_rust.Login.{
  Text, Error, Result, unexpected_combination, no_request, no_confirmation, Digest, Urls, Config,
}
use minibot_rust.Login.Tokens.{TokenStore, TokenData, to_token, from_token}
use minibot_rust.Login.Handlers.{
  AuthMethod, local_http, by_token, AuthRequestInfo, AuthConfirmInfo, verify,
  handle_start_auth_request,
}

pub record LoginQuery : Type 0 where
  pub auth_method : Text
  pub redirect_uri : Option Text
  pub challenge : Text

-- The scopes are read and not used.
pub record CallbackQuery : Type 0 where
  pub code : Text
  pub scope : List Text
  pub state : Text

pub record ConfirmQuery : Type 0 where
  pub token : Text
  pub verifier : Text

pub data Response : Type 0 where
  temporary_redirect : Text → Response
  plain_text : Text → Response
  json_access_token : Text → Response

-- What all handlers have at hand.
pub record Services (Url : Type 0) : Type 0 where
  pub store : TokenStore
  pub urls : Urls Url
  pub digest : Digest
  pub config : Config
  pub requests : TokenData AuthRequestInfo
  pub confirms : TokenData AuthConfirmInfo

unfoldable pub read_auth_method : Text → Option Text → Result AuthMethod
read_auth_method m (some uri) =
    if eq_bytes m (codes "local_http") then ok (local_http uri) else err unexpected_combination
read_auth_method m none =
    if eq_bytes m (codes "token") then ok by_token else err unexpected_combination

module _ {Url : Type 0} (s : Services Url) where
  unfoldable pub login_handler : LoginQuery → Result Response
  unfolding read_auth_method
  login_handler q = do
    auth_method ← read_auth_method q.auth_method q.redirect_uri
    redirect ← handle_start_auth_request s.urls auth_method q.challenge s.store s.requests s.config
    ok (temporary_redirect redirect)

  -- The answer with the confirmation token, by the method that the login asked for.
  unfoldable pub hand_over : Text → AuthMethod → Result Response
  hand_over token (local_http redirect_uri) = do
    url ← s.urls.parse redirect_uri
    ok (temporary_redirect (s.urls.to_string (s.urls.with_query url ((codes "token", token) ∷ []))))
  hand_over token by_token = ok (
      plain_text (
        codes "Your confirmation code is "
        ++ (token ++ codes "\nPlease copy this to the app which is requesting authentication.\n")))

  unfoldable pub callback_handler : CallbackQuery → Result Response
  unfolding hand_over
  callback_handler q = do
    found ← from_token s.store s.requests q.state
    auth_req ← ok_or found no_request
    token ← to_token s.store s.confirms (record { code = q.code; challenge = auth_req.challenge })
    hand_over token auth_req.auth_method

  -- `handle_endpoint`; `exchange` is `TwitchTokenService::exchange_code`.
  unfoldable pub handle_endpoint :
      {Tokens : Type 0} → (Text → Result Tokens) → ConfirmQuery → Result Response
  unfolding verify
  handle_endpoint exchange q = do
    found ← from_token s.store s.confirms q.token
    info ← ok_or found no_confirmation
    verify s.digest q.verifier info.challenge
    response ← exchange info.code
    ok (json_access_token (codes "Hello"))
