-- ===== src/Login/Tokens.antt =====
-- crates/server/src/services/base/token_store.rs, and the store of services/fake/token_store.rs: the
-- tokens that carry a value, with the name of its type.
pub mod Types
use minibot_rust.Base.{
  ℕ, Bool, true, false, List, [], ◌∷◌, Option, none, some, Outcome, ok, err, eq_bytes, Bytes,
  ensure, ◌>>=◌, ◌>>◌,
}
use minibot_rust.Login.{Text, Error, Result, wrong_type, other}

-- The trait `TokenStore`.
pub record TokenStore : Type 0 where
  pub to_token : Bytes → Result Text
  pub from_token : Text → Result (Option Bytes)

-- `Fernet`, with a key.
pub record Fernet : Type 0 where
  pub encrypt : Bytes → Text
  pub decrypt : Text → Option Bytes

pub decrypted : Option Bytes → Result (Option Bytes)
decrypted none = err (other 0)
decrypted (some b) = ok (some b)

-- `FernetTokenStore`.
unfoldable pub fernet_store : Fernet → TokenStore
unfolding decrypted
fernet_store f = record {
  to_token = λ value. ok (f.encrypt value);
  from_token = λ t. decrypted (f.decrypt t);
}

-- `EncodedType<T>`.
pub record EncodedType (T : Type 0) : Type 0 where
  pub token_type : Text
  pub val : T

-- The trait `TokenData`, with `serde_json` at `EncodedType<T>`.
pub record TokenData (T : Type 0) : Type 0 where
  pub type_id : Text
  pub to_vec : EncodedType T → Result Bytes
  pub from_slice : Bytes → Result (EncodedType T)

-- `TokenStoreHandle::to_token`.
unfoldable pub to_token : {T : Type 0} → TokenStore → TokenData T → T → Result Text
to_token store t value = do
  bytes ← t.to_vec (record { token_type = t.type_id; val = value })
  store.to_token bytes

pub decode_value : {T : Type 0} → TokenData T → Option Bytes → Result (Option T)
decode_value t none = ok none
decode_value t (some vec) = do
  encoded_val ← t.from_slice vec
  ensure (eq_bytes encoded_val.token_type t.type_id) (wrong_type encoded_val.token_type t.type_id)
  ok (some encoded_val.val)

-- `TokenStoreHandle::from_token`.
unfoldable pub from_token : {T : Type 0} → TokenStore → TokenData T → Text → Result (Option T)
unfolding decode_value
from_token store t token = do vec ← store.from_token token; decode_value t vec
