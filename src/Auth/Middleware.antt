-- ===== src/Auth/Middleware.antt =====
-- crates/server/src/http_server/middleware/authn.rs: `MinibotAuthn`. The header is what
-- `HeaderValue::to_str` makes of it, a text of ASCII characters or none. The token store stands
-- outside: `from_token` is a parameter, where an error is `store_error`.
pub mod Check
use minibot_rust.Base.{
  ℕ, ◌+◌, Bool, true, false, not, List, [], ◌∷◌, ◌++◌, Option, none, some, ◌==◌, if◌then◌else◌,
  eq_bytes, Outcome, ok, err, panic, ensure, ok_or, ◌>>=◌, ◌>>◌, take, drop,
}
use minibot_rust.IrcRaw.Slice.{position}

abbrev pub minibot_authn_scheme : List ℕ
minibot_authn_scheme =
    b'M' ∷ b'i' ∷ b'n' ∷ b'i' ∷ b'b' ∷ b'o' ∷ b't' ∷ b'A' ∷ b'u' ∷ b't' ∷ b'h' ∷ b'n' ∷ []

pub data Error : Type 0 where
  no_header : Error
  not_text : Error
  invalid_format : Error
  incorrect_authentication : Error
  store_error : Error
  invalid_token : Error

-- A header that is missing, that is no text, or a text.
pub data Header : Type 0 where
  missing : Header
  binary : Header
  text : List ℕ → Header

abbrev pub TokenStore : Type 0
TokenStore = List ℕ → Outcome Error (Option ℕ)

unfoldable pub header_text : Header → Outcome Error (List ℕ)
header_text missing = err no_header
header_text binary = err not_text
header_text (text t) = ok t

-- `find(|c| c != ' ')`.
unfoldable pub find_non_space : List ℕ → Option ℕ
find_non_space [] = none
find_non_space (c ∷ cs) =
    let later = find_non_space cs in
    if c == b' ' then elim later [ none ↦ none | some i ↦ some (i + 1) ] else some 0

unfoldable pub authenticate : TokenStore → Header → Outcome Error ℕ
authenticate from_token header = do
  auth_str ← header_text header
  first_space ← ok_or (position b' ' auth_str) invalid_format
  non_space ← ok_or (find_non_space (drop first_space auth_str)) invalid_format
  ensure (not (eq_bytes (take first_space auth_str) minibot_authn_scheme)) incorrect_authentication
  id ← from_token (drop non_space (drop first_space auth_str))
  ok_or id invalid_token

-- What becomes of a request.
pub data Answer : Type 0 where
  chained : ℕ → Answer
  unauthorized : Answer

-- `call`: a panic of the store is none of its own.
unfoldable pub call : TokenStore → Header → Answer
call from_token header = elim (authenticate from_token header) [
  | ok id ↦ chained id
  | _ ↦ unauthorized
]
