-- ===== src/Login.antt =====
-- crates/server/src/http_server/authn: the login of an account over OAuth2, with its token store and
-- its proof keys. Texts are lists of code points. Other packages are parameters, in the records
-- below: the encryption, JSON, URLs, the hash and HTTP.
pub mod Tokens
pub mod Handlers
pub mod Endpoints
pub mod Client
mod Tests
use minibot_rust.Base.{
  ℕ, Bool, true, false, List, [], ◌∷◌, Option, none, some, Outcome, ok, err, if◌then◌else◌,
  eq_bytes, Bytes,
}

abbrev pub Text : Type 0
Text = List ℕ

-- The errors of the code; those of other packages are numbers.
pub data Error : Type 0 where
  unexpected_combination : Error
  no_request : Error
  no_confirmation : Error
  not_http : Error
  not_loopback : Error
  wrong_type : Text → Text → Error
  verify_error : Error
  other : ℕ → Error

abbrev pub Result : Type 0 → Type 0
Result A = Outcome Error A

-- The hash and the base64 form of crates/common/src/proof_key.rs.
pub record Digest : Type 0 where
  pub sha256 : Bytes → Bytes
  pub base64 : Bytes → Text

-- `url::Url`. `with_query u pairs` is `query_pairs_mut().clear()` with an `append_pair` for each.
pub record Urls (Url : Type 0) : Type 0 where
  pub parse : Text → Result Url
  pub scheme : Url → Text
  pub host_str : Url → Option Text
  pub with_query : Url → List (Text × Text) → Url
  pub to_string : Url → Text

-- `oauth::Config`: what of it the login uses.
pub record Config : Type 0 where
  pub token_endpoint : Text
  pub authz_endpoint : Text
  pub client_id : Text
  pub client_secret : Text
  pub redirect_url : Text
