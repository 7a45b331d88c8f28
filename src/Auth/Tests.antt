-- ===== src/Auth/Tests.antt =====
-- Concrete runs of the middleware and of scope lists.
use minibot_rust.Base.{all, [], ◌∷◌, some, ◌≡◌, refl}
use minibot_rust.Auth.Scopes.{valid_char, is_valid_scope, serialize, deserialize}
use minibot_rust.Auth.Scopes.RoundTrip.{deserialize-serialize}

deserialize-serialize_example :
    deserialize (serialize ((b'a' ∷ b'b' ∷ []) ∷ (b'c' ∷ []) ∷ []))
    ≡ some ((b'a' ∷ b'b' ∷ []) ∷ (b'c' ∷ []) ∷ [])
unfolding is_valid_scope valid_char all
deserialize-serialize_example = deserialize-serialize ((b'a' ∷ b'b' ∷ []) ∷ (b'c' ∷ []) ∷ []) refl
