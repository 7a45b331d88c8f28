-- ===== src/Login/Tokens/Types.antt =====
-- crates/server/src/services/base/token_store.rs: what a token gives back, and to whom.
use minibot_rust.Base.{
  ◌≡◌, ◌≢◌, refl, sym, subst, ◌∙◌, Option, some, ok, eq_bytes, eq_bytes_iff, eq_bytes_refl, Bytes,
  ensure, ◌>>◌, bind-eq-ok, Bool-cases, inl, inr,
}
use minibot_rust.Login.{Text, wrong_type}
use minibot_rust.Login.Tokens.{
  TokenStore, Fernet, fernet_store, EncodedType, TokenData, to_token, from_token, decode_value,
  decrypted,
}

-- The documentation of `TokenStore`: `from_token` gives the value that `to_token` was given.
abbrev pub Returns : TokenStore → Type 0
Returns store =
    (value : Bytes) (token : Text)
    → store.to_token value ≡ ok token
    → store.from_token token ≡ ok (some value)

-- What JSON has written, JSON reads.
abbrev pub Reads : {T : Type 0} → TokenData T → Type 0
Reads {T} t =
    (e : EncodedType T) (bytes : Bytes) → t.to_vec e ≡ ok bytes → t.from_slice bytes ≡ ok e

-- JSON read as another type has the same text in its field `type`, if it is read at all.
abbrev pub SameField : {T U : Type 0} → TokenData T → TokenData U → Type 0
SameField {T} {U} t u =
    (e : EncodedType T) (f : EncodedType U) (bytes : Bytes)
    → t.to_vec e ≡ ok bytes
    → u.from_slice bytes ≡ ok f
    → f.token_type ≡ e.token_type

-- The bytes that a token carries, and its being stored.
made-from :
    {T : Type 0} (store : TokenStore) (t : TokenData T) (value : T) (token : Text)
    → to_token store t value ≡ ok token
    → (bytes : Bytes) × (t.to_vec (record { token_type = t.type_id; val = value }) ≡ ok bytes)
      × (store.to_token bytes ≡ ok token)
unfolding to_token
made-from store t value token made =
    bind-eq-ok (t.to_vec (record { token_type = t.type_id; val = value })) store.to_token made

-- A token that has been made for a value gives the value back.
pub from_token-to_token :
    {T : Type 0} (store : TokenStore) (t : TokenData T) (value : T) (token : Text)
    → Returns store
    → Reads t
    → to_token store t value ≡ ok token
    → from_token store t token ≡ ok (some value)
unfolding from_token
from_token-to_token store t value token returns reads made =
    let (bytes, written, stored) = made-from store t value token made in
    let read = reads (record { token_type = t.type_id; val = value }) bytes written in
    rw (returns bytes token stored) (rw (read, decode_value) (rw (eq_bytes_refl t.type_id) refl))

checked-type :
    {U : Type 0} (u : TokenData U) (f : EncodedType U) (r : Option U)
    → (ensure (eq_bytes f.token_type u.type_id) (wrong_type f.token_type u.type_id)
        >> ok (some f.val))
      ≡ ok r
    → f.token_type ≡ u.type_id
checked-type u f r e = elim (Bool-cases (eq_bytes f.token_type u.type_id)) [
  | inl same ↦ (eq_bytes_iff f.token_type u.type_id).0 same
  | inr different ↦ absurd (let bad = rw different at e in cc)
]

-- A token that has been made for a value of one type is refused where a value of a type with another
-- name is wanted: it gives no value there, and is not taken for unknown either.
pub from_token-refuses :
    {T U : Type 0} (store : TokenStore) (t : TokenData T) (u : TokenData U) (value : T)
    (token : Text) (r : Option U)
    → Returns store
    → SameField t u
    → t.type_id ≢ u.type_id
    → to_token store t value ≡ ok token
    → from_token store u token ≢ ok r
unfolding from_token
from_token-refuses store t u value token r returns same_field differ made e =
    let (bytes, written, stored) = made-from store t value token made in
    let decoded = rw (returns bytes token stored) at e in
    let (f, read, checked) = bind-eq-ok (u.from_slice bytes) _ decoded in
    let kept = same_field (record { token_type = t.type_id; val = value }) f bytes written read in
    differ (sym kept ∙ checked-type u f r checked)

-- The store of `fake/token_store.rs` keeps to that documentation, when what Fernet encrypts is what
-- it decrypts.
pub fernet_store-Returns :
    (f : Fernet)
    → ((value : Bytes) → f.decrypt (f.encrypt value) ≡ some value)
    → Returns (fernet_store f)
unfolding fernet_store
fernet_store-Returns f inverse value token made =
    let same : f.encrypt value ≡ token = cc in
    subst (λ t. decrypted (f.decrypt t) ≡ ok (some value)) same (rw (inverse value, decrypted) refl)
