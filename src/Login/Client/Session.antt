-- ===== src/Login/Client/Session.antt =====
-- crates/client/src/access_token.rs: the client against the server of
-- crates/server/src/http_server/authn.
use minibot_rust.Base.{
  ℕ, ◌≡◌, refl, ap, ◌∙◌, false, List, [], ◌∷◌, Option, none, some, ok, Bytes, codes, eq_bytes_refl,
  arith,
}
use minibot_rust.Login.{Text, Result, Digest}
use minibot_rust.Login.Tokens.{to_token}
use minibot_rust.Login.Tokens.Types.{Returns, Reads}
use minibot_rust.Login.Handlers.{generate_challenge, generate_pair, verify}
use minibot_rust.Login.Endpoints.{Response, json_access_token, Services, handle_endpoint}
use minibot_rust.Login.Endpoints.Flow.{handle_endpoint-verifies}
use minibot_rust.Login.Client.{
  ClientResult, ClientUrls, no_query, make_local_http_auth_url, Route, callback, callbacks,
  run_server, get_local_http_access_token,
}

callback-closed : (t : Text) (r : Route) → r.waiting ≡ false → callback t r ≡ r
unfolding callback
callback-closed t r h = ground (arith, h)

callbacks-closed : (ts : List Text) (r : Route) → r.waiting ≡ false → callbacks ts r ≡ r
unfolding callbacks callback
callbacks-closed [] r h = refl
callbacks-closed (t ∷ ts) r h = ap (callbacks ts) (callback-closed t r h) ∙ callbacks-closed ts r h

-- The client's server gives the token of the first request, whatever requests come behind it, and
-- none when there was no request.
pub run_server-first :
    (t : Text) (ts : List Text) → (run_server (t ∷ ts) ≡ some t) × (run_server [] ≡ none)
unfolding run_server callbacks callback
run_server-first t ts = (ap (λ r. r.token) (callbacks-closed ts _ refl), refl)

-- The pair of a proof key verifies.
pub verify-generate_pair :
    (d : Digest) (bytes : Bytes)
    → verify d (generate_pair d bytes).1 (generate_pair d bytes).0 ≡ ok tt
unfolding verify generate_pair
verify-generate_pair d bytes = rw (eq_bytes_refl (generate_challenge d (d.base64 bytes))) refl

-- The server's answer to a token for the challenge of a pair, and the verifier of that pair.
confirmed :
    {ServerUrl Tokens : Type 0} (s : Services ServerUrl) (bytes : Bytes)
    (exchange : Text → Result Tokens) (code token : Text) (tokens : Tokens)
    → Returns s.store
    → Reads s.confirms
    → to_token s.store s.confirms
        (record { code = code; challenge = (generate_pair s.digest bytes).0 })
      ≡ ok token
    → exchange code ≡ ok tokens
    → handle_endpoint s exchange
        (record { token = token; verifier = (generate_pair s.digest bytes).1 })
      ≡ ok (json_access_token (codes "Hello"))
unfolding generate_pair
confirmed s bytes exchange code token tokens returns reads made exchanged =
    handle_endpoint-verifies s exchange
      (record { code = code; challenge = (generate_pair s.digest bytes).0 }) token
      (generate_pair s.digest bytes).1 returns reads made
    ∙ rw (eq_bytes_refl (generate_challenge s.digest (s.digest.base64 bytes)), exchanged) refl

-- The whole login, from the client, whose two URLs have no query, with a token store that gives back
-- what it was given, JSON that reads what it has written, and HTTP that brings the access token of
-- an answer to the client: when the browser opens, and the first request to the client's
-- server is that of the user who comes back with a confirmation token for the client's own
-- challenge, and the code behind it can be exchanged, then the client gets the access token that
-- the server gives, whatever other requests come in.
pub get_local_http_access_token_ok :
    {Url ServerUrl Tokens : Type 0} (urls : ClientUrls Url) (s : Services ServerUrl) (bytes : Bytes)
    (addr : Text) (open_browser : Url → Option ℕ) (others : List Text)
    (exchange : Text → Result Tokens) (over_http : Result Response → ClientResult Text)
    (auth_url exchange_url : Url) (code token : Text) (tokens : Tokens)
    → Returns s.store
    → Reads s.confirms
    → urls.query auth_url ≡ none
    → urls.query exchange_url ≡ none
    → ((url : Url) → open_browser url ≡ none)
    → ((t : Text) → over_http (ok (json_access_token t)) ≡ ok t)
    → to_token s.store s.confirms
        (record { code = code; challenge = (generate_pair s.digest bytes).0 })
      ≡ ok token
    → exchange code ≡ ok tokens
    → get_local_http_access_token urls s.digest bytes addr open_browser
        (token ∷ others)
        (λ t v. over_http (handle_endpoint s exchange (record { token = t; verifier = v })))
        auth_url
        exchange_url
      ≡ ok (codes "Hello")
unfolding get_local_http_access_token make_local_http_auth_url no_query
get_local_http_access_token_ok urls s bytes addr open_browser others exchange over_http auth_url
      exchange_url code token tokens returns reads q q' opens http made exchanged =
    let served = (run_server-first token others).0 in
    let answer = confirmed s bytes exchange code token tokens returns reads made exchanged in
    rw (q) (rw (opens _) (rw served (rw q' (rw answer (http (codes "Hello"))))))
