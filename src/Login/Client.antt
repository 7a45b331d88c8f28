-- ===== src/Login/Client.antt =====
-- crates/client/src/access_token.rs: how the client of the command line logs in. The browser, the
-- HTTP server of warp and the calls of reqwest are parameters; a callback is its token.
pub mod Session
use minibot_rust.Base.{
  ℕ, Bool, true, false, List, [], ◌∷◌, ◌++◌, Option, none, some, Outcome, ok, err, panic,
  out_of_fuel, Bytes, codes, ok_or, assert, ◌>>=◌, ◌>>◌,
}
use minibot_rust.Login.{Text, Digest}
use minibot_rust.Login.Handlers.{generate_pair}

pub data AuthnError : Type 0 where
  did_not_get_token : AuthnError
  reqwest_error : ℕ → AuthnError
  open_browser_error : ℕ → AuthnError

abbrev pub ClientResult : Type 0 → Type 0
ClientResult A = Outcome AuthnError A

-- What of `url::Url` the client uses; `set_query u pairs` sets the query that `serde_urlencoded`
-- makes of the pairs.
pub record ClientUrls (Url : Type 0) : Type 0 where
  pub query : Url → Option Text
  pub set_query : Url → List (Text × Text) → Url

has_none : Option Text → Bool
has_none none = true
has_none (some q) = false

module _ {Url : Type 0} (urls : ClientUrls Url) where
  -- The three assertions that a URL has no query.
  unfoldable pub no_query : Url → ClientResult (Unit {0})
  unfolding has_none
  no_query url = assert (has_none (urls.query url))

  abbrev pub local_http_query : Text → Text → List (Text × Text)
  local_http_query addr challenge =
      (codes "auth_method", codes "local_http")
      ∷ (codes "redirect_uri", codes "http://" ++ (addr ++ codes "/callback"))
      ∷ (codes "challenge", challenge)
      ∷ []

  unfoldable pub make_local_http_auth_url : Url → Text → Text → ClientResult Url
  unfolding no_query
  make_local_http_auth_url auth_url addr challenge = do
    no_query auth_url
    ok (urls.set_query auth_url (local_http_query addr challenge))

  -- The pair is made from the 32 random bytes.
  unfoldable pub make_token_auth_url : Digest → Bytes → Url → ClientResult (Url × Text)
  unfolding no_query
  make_token_auth_url d bytes auth_url = do
    let (challenge, verifier) = generate_pair d bytes
    no_query auth_url
    ok (
      urls.set_query auth_url
          ((codes "auth_method", codes "token") ∷ (codes "challenge", challenge) ∷ []),
      verifier,
    )

-- The route of `server_route`: `token_dest` is still there, what the receiver has of it, and whether
-- the server has been told to finish.
pub record Route : Type 0 where
  pub waiting : Bool
  pub token : Option Text
  pub finished : Bool

take_token : Bool → Text → Route → Route
take_token true t r = record r { waiting = false; token = some t; finished = true }
take_token false t r = r

-- A request to the route; the answer is `You win!` in any case.
unfoldable pub callback : Text → Route → Route
unfolding take_token
callback t r = take_token r.waiting t r

unfoldable pub callbacks : List Text → Route → Route
callbacks [] r = r
callbacks (t ∷ ts) r = callbacks ts (callback t r)

-- `run_server`, with the requests that come in before the deadline or the end of the server.
unfoldable pub run_server : List Text → Option Text
run_server requests =
    (callbacks requests (record { waiting = true; token = none; finished = false })).token

opened : Option ℕ → ClientResult (Unit {0})
opened none = ok tt
opened (some e) = err (open_browser_error e)

module _ {Url : Type 0} (urls : ClientUrls Url) (d : Digest) where
  -- `exchange` is `exchange_confirm_token` at the URL: a POST of the token and the verifier.
  unfoldable pub get_local_http_access_token :
      Bytes
      → Text
      → (Url → Option ℕ)
      → List Text
      → (Text → Text → ClientResult Text)
      → Url
      → Url
      → ClientResult Text
  unfolding opened run_server make_local_http_auth_url
  get_local_http_access_token bytes addr open_browser requests exchange auth_url exchange_url = do
    let (challenge, verifier) = generate_pair d bytes
    url ← make_local_http_auth_url urls auth_url addr challenge
    opened (open_browser url)
    token ← ok_or (run_server requests) did_not_get_token
    no_query urls exchange_url
    exchange token verifier
