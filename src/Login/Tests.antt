-- ===== src/Login/Tests.antt =====
-- A concrete run of the login: tokens are the bytes themselves, and in place of JSON a text is
-- written behind its length.
use minibot_rust.Base.{
  ℕ, ◌≡◌, ◌≢◌, refl, sym, subst, ◌∙◌, true, false, [], ◌∷◌, ◌++◌, none, some, ok, err, eq_bytes,
  eq_bytes_iff, Bytes, codes, take, drop, length, take-append, ◌>>=◌, arith, if◌then◌else◌, ◌==◌,
}
use minibot_rust.Utf8.{encode, encode_char}
use minibot_rust.Login.{Text, Result, other, Digest, Urls, Config}
use minibot_rust.Login.Tokens.{TokenStore, fernet_store, EncodedType, TokenData, to_token}
use minibot_rust.Login.Tokens.Types.{Returns, Reads, SameField, fernet_store-Returns}
use minibot_rust.Login.Handlers.{
  AuthMethod, local_http, by_token, AuthRequestInfo, AuthConfirmInfo, generate_challenge,
  generate_pair, handle_start_auth_request,
}
use minibot_rust.Login.Handlers.Redirects.{Loopback}
use minibot_rust.Login.Endpoints.{
  LoginQuery, Response, temporary_redirect, plain_text, json_access_token, Services, login_handler,
  callback_handler, handle_endpoint, read_auth_method,
}
use minibot_rust.Login.Client.{ClientUrls, ClientResult, reqwest_error, get_local_http_access_token}
use minibot_rust.Login.Client.Session.{get_local_http_access_token_ok}
use minibot_rust.Login.Endpoints.Flow.{login_handler-Loopback, login_confirms, tokens_stay_apart}

abbrev put_text : Text → Bytes → Bytes
put_text t rest = length t ∷ (t ++ rest)

abbrev get_text : Bytes → Text × Bytes
get_text [] = ([], [])
get_text (n ∷ r) = (take n r, drop n r)

drop-length : (t rest : Bytes) → drop (length t) (t ++ rest) ≡ rest
drop-length [] rest = refl
drop-length (c ∷ t) rest = drop-length t rest

get-put : (t rest : Bytes) → get_text (put_text t rest) ≡ (t, rest)
get-put t rest = λ i. (take-append t rest i, drop-length t rest i)

abbrev put_method : AuthMethod → Bytes → Bytes
put_method (local_http uri) rest = 0 ∷ put_text uri rest
put_method by_token rest = 1 ∷ rest

abbrev get_method : Bytes → Result (AuthMethod × Bytes)
get_method [] = err (other 1)
get_method (b ∷ r) =
    if b == 0 then ok (local_http (get_text r).0, (get_text r).1) else ok (by_token, r)

-- What `type_name` gives for the two types with the compilers of today: their paths.
abbrev request_name : Text
request_name = codes "minibot_server::http_server::authn::handlers::AuthRequestInfo"

abbrev confirm_name : Text
confirm_name = codes "minibot_server::http_server::authn::handlers::AuthConfirmInfo"

abbrev read_request : Text → Bytes → Result (EncodedType AuthRequestInfo)
read_request name rest = do
  (method, r) ← get_method rest
  ok (record {
    token_type = name;
    val = record { auth_method = method; challenge = (get_text r).0 };
  })

abbrev requests : TokenData AuthRequestInfo
requests = record {
  type_id = request_name;
  to_vec =
      λ e. ok (put_text e.token_type (put_method e.val.auth_method (put_text e.val.challenge [])));
  from_slice = λ b. read_request (get_text b).0 (get_text b).1;
}

abbrev confirms : TokenData AuthConfirmInfo
confirms = record {
  type_id = confirm_name;
  to_vec = λ e. ok (put_text e.token_type (put_text e.val.code (put_text e.val.challenge [])));
  from_slice = λ b.
      let (code, r) = get_text (get_text b).1 in
      ok (record {
        token_type = (get_text b).0;
        val = record { code = code; challenge = (get_text r).0 };
      });
}

read_request-put :
    (name : Text) (m : AuthMethod) (c : Text)
    → read_request name (put_method m (put_text c []))
      ≡ ok (record { token_type = name; val = record { auth_method = m; challenge = c } })
read_request-put name (local_http uri) c =
    rw (take-append uri (put_text c []), drop-length uri (put_text c []))
      (rw (take-append c []) refl)
read_request-put name by_token c = rw (take-append c []) refl

requests-Reads : Reads requests
requests-Reads e bytes h =
    let rest = put_method e.val.auth_method (put_text e.val.challenge []) in
    let same : put_text e.token_type rest ≡ bytes = cc in
    subst (λ b. requests.from_slice b ≡ ok e) same
      (rw (take-append e.token_type rest, drop-length e.token_type rest)
        (read_request-put e.token_type e.val.auth_method e.val.challenge))

confirms-Reads : Reads confirms
confirms-Reads e bytes h =
    let tail = put_text e.val.challenge [] in
    let rest = put_text e.val.code tail in
    let same : put_text e.token_type rest ≡ bytes = cc in
    subst (λ b. confirms.from_slice b ≡ ok e) same
      (rw (take-append e.token_type rest, drop-length e.token_type rest)
        (rw (take-append e.val.code tail, drop-length e.val.code tail)
          (rw (take-append e.val.challenge []) refl)))

abbrev store : TokenStore
store = fernet_store (record { encrypt = λ b. b; decrypt = λ t. some t })

store-Returns : Returns store
store-Returns =
    fernet_store-Returns (record { encrypt = λ b. b; decrypt = λ t. some t }) (λ v. refl)

abbrev digest : Digest
digest = record { sha256 = λ b. b; base64 = λ b. b'#' ∷ b }

-- A URL is its host, here; every text is one.
abbrev urls : Urls Text
urls = record {
  parse = λ t. ok t;
  scheme = λ u. codes "http";
  host_str = λ u. some u;
  with_query = λ u q. u;
  to_string = λ u. u;
}

abbrev config : Config
config = record {
  token_endpoint = codes "t";
  authz_endpoint = codes "a";
  client_id = codes "c";
  client_secret = codes "s";
  redirect_url = codes "r";
}

abbrev services : Services Text
services = record {
  store = store;
  urls = urls;
  digest = digest;
  config = config;
  requests = requests;
  confirms = confirms;
}

abbrev query : LoginQuery
query = record {
  auth_method = codes "local_http";
  redirect_uri = some (codes "127.0.0.1");
  challenge = codes "#v";
}

answered : login_handler services query ≡ ok (temporary_redirect (codes "a"))
unfolding login_handler read_auth_method handle_start_auth_request to_token fernet_store eq_bytes
answered = refl

login_handler-Loopback_example : Loopback urls (codes "127.0.0.1")
login_handler-Loopback_example =
    login_handler-Loopback services query (codes "127.0.0.1") (temporary_redirect (codes "a")) refl
      answered

abbrev info : AuthRequestInfo
info = record { auth_method = by_token; challenge = codes "#v" }

abbrev exchange : Text → Result ℕ
exchange code = ok 7

abbrev state : Text
state = put_text request_name (1 ∷ put_text (codes "#v") [])

abbrev token : Text
token = put_text confirm_name (put_text (codes "code") (put_text (codes "#v") []))

login_confirms_example :
    (callback_handler services (record { code = codes "code"; scope = []; state = state })
      ≡ ok (
          plain_text (
            codes "Your confirmation code is "
            ++ token
            ++ codes "\nPlease copy this to the app which is requesting authentication.\n")))
    × (handle_endpoint services exchange (record { token = token; verifier = codes "v" })
        ≡ ok (json_access_token (codes "Hello")))
unfolding to_token fernet_store generate_challenge encode encode_char eq_bytes
login_confirms_example =
    login_confirms services exchange info [] state (codes "code") token (codes "v") store-Returns
      requests-Reads confirms-Reads refl refl

request_confirm : SameField requests confirms
request_confirm e f bytes h k =
    let rest = put_method e.val.auth_method (put_text e.val.challenge []) in
    let same : put_text e.token_type rest ≡ bytes = cc in
    let read : (get_text bytes).0 ≡ e.token_type =
      subst (λ b. (get_text b).0 ≡ e.token_type) same (take-append e.token_type rest) in
    let named : (get_text bytes).0 ≡ f.token_type = ground arith in sym named ∙ read

named_request :
    (name : Text) (rest : Bytes) (f : EncodedType AuthRequestInfo)
    → read_request name rest ≡ ok f
    → f.token_type ≡ name
named_request name [] f h = cc
named_request name (b ∷ r) f h = ground (arith, h)

confirm_request : SameField confirms requests
confirm_request e f bytes h k =
    let rest = put_text e.val.code (put_text e.val.challenge []) in
    let same : put_text e.token_type rest ≡ bytes = cc in
    let read : (get_text bytes).0 ≡ e.token_type =
      subst (λ b. (get_text b).0 ≡ e.token_type) same (take-append e.token_type rest) in
    named_request (get_text bytes).0 (get_text bytes).1 f k ∙ read

names_differ : requests.type_id ≢ confirms.type_id
unfolding eq_bytes
names_differ h = let same : false ≡ true = (eq_bytes_iff request_name confirm_name).1 h in cc

tokens_stay_apart_example :
    (handle_endpoint services exchange (record { token = state; verifier = codes "v" })
      ≢ ok (plain_text []))
    × (callback_handler services (record { code = codes "code"; scope = []; state = token })
        ≢ ok (plain_text []))
unfolding to_token fernet_store
tokens_stay_apart_example =
    tokens_stay_apart services exchange info
      (record { code = codes "code"; challenge = codes "#v" }) [] state token (codes "v")
      (codes "code") (plain_text []) store-Returns request_confirm confirm_request names_differ refl
      refl

abbrev client_urls : ClientUrls Text
client_urls = record { query = λ u. none; set_query = λ u q. u }

abbrev over_http : Result Response → ClientResult Text
over_http (ok (json_access_token t)) = ok t
over_http _ = err (reqwest_error 500)

abbrev own_token : Text
own_token = put_text confirm_name (put_text (codes "code") (put_text (codes "##v") []))

get_local_http_access_token_ok_example :
    get_local_http_access_token client_urls digest
      (codes "v")
      (codes "127.0.0.1:80")
      (λ u. none)
      (own_token ∷ codes "x" ∷ [])
      (λ t v. over_http (handle_endpoint services exchange (record { token = t; verifier = v })))
      (codes "a")
      (codes "e")
    ≡ ok (codes "Hello")
unfolding to_token fernet_store generate_pair generate_challenge encode encode_char
get_local_http_access_token_ok_example =
    get_local_http_access_token_ok client_urls services (codes "v") (codes "127.0.0.1:80")
      (λ u. none) (codes "x" ∷ []) exchange over_http (codes "a") (codes "e") (codes "code")
      own_token 7 store-Returns confirms-Reads refl refl (λ u. refl) (λ t. refl) refl refl
