-- ===== src/Auth/Middleware/Check.antt =====
-- crates/server/src/http_server/middleware/authn.rs: the check of the header on texts of every
-- form with a scheme and a token.
use minibot_rust.Base.{
  ℕ, zero, suc, Bool, true, false, not, List, [], ◌∷◌, ◌++◌, some, if◌then◌else◌, eq_bytes, Outcome,
  err, ensure, ok_or, ◌>>=◌, ◌>>◌, drop, length, Lacks, take-append, ◌≡◌, ◌≢◌, refl, arith,
}
use minibot_rust.IrcRaw.Slice.{position-append}
use minibot_rust.Auth.Middleware.{
  minibot_authn_scheme, Error, incorrect_authentication, invalid_token, text, TokenStore,
  header_text, find_non_space, authenticate,
}

abbrev pub spaces : ℕ → List ℕ → List ℕ
spaces zero t = t
spaces (suc n) t = b' ' ∷ spaces n t

find_non_space-spaces :
    (n c : ℕ) (t : List ℕ) → c ≢ b' ' → find_non_space (spaces n (c ∷ t)) ≡ some n
unfolding find_non_space
find_non_space-spaces zero c t h = ground arith
find_non_space-spaces (suc n) c t h = ground (arith, find_non_space-spaces n c t h)

drop-spaces : (n : ℕ) (t : List ℕ) → drop n (spaces n t) ≡ t
drop-spaces zero t = refl
drop-spaces (suc n) t = drop-spaces n t

drop-length : (xs ys : List ℕ) → drop (length xs) (xs ++ ys) ≡ ys
drop-length [] ys = refl
drop-length (x ∷ xs) ys = drop-length xs ys

ensure-not :
    (b : Bool) (e : Error) (m : Outcome Error ℕ)
    → (ensure (not b) e >> m) ≡ (if b then err e else m)
ensure-not true e m = refl
ensure-not false e m = refl

-- A request with a scheme that has no space, one space or more, and a token, is refused when the
-- scheme is `MinibotAuthn`, the one that the program means to ask for; with any other scheme the
-- token store alone decides.
pub authenticate-scheme :
    (from_token : TokenStore) (scheme : List ℕ) (n c : ℕ) (t : List ℕ)
    → Lacks b' ' scheme
    → c ≢ b' '
    → authenticate from_token (text (scheme ++ spaces (suc n) (c ∷ t))) ≡ (
        if eq_bytes scheme minibot_authn_scheme
        then err incorrect_authentication
        else (from_token (c ∷ t) >>= λ id. ok_or id invalid_token))
unfolding authenticate header_text
authenticate-scheme from_token scheme n c t h d =
    rw
      (
        position-append b' ' scheme (spaces n (c ∷ t)) h,
        drop-length scheme (spaces (suc n) (c ∷ t)),
        take-append scheme (spaces (suc n) (c ∷ t)),
        find_non_space-spaces (suc n) c t d,
        drop-spaces (suc n) (c ∷ t),
      )
      (ensure-not (eq_bytes scheme minibot_authn_scheme) incorrect_authentication _)
