-- ===== src/Auth/Scopes.antt =====
-- crates/server/src/util/types/scopes.rs: `OAuthScopeList`, read from and written as a text.
pub mod RoundTrip
use minibot_rust.Base.{
  ℕ, Bool, true, false, not, ◌&&◌, ◌||◌, List, [], ◌∷◌, ◌++◌, Option, none, some, ◌==◌, ltb, leb,
  if◌then◌else◌, all, is_empty,
}
use minibot_rust.IrcRaw.Slice.{split}

unfoldable pub valid_char : ℕ → Bool
valid_char ch = (ch == 0x21) || ((leb 0x23 ch && ltb ch 0x5B) || (leb 0x5D ch && ltb ch 0x7E))

unfoldable pub is_valid_scope : List ℕ → Bool
unfolding valid_char all
is_valid_scope scope = not (is_empty scope) && all valid_char scope

abbrev pub OAuthScopeList : Type 0
OAuthScopeList = List (List ℕ)

unfoldable pub from_vec : List (List ℕ) → Option OAuthScopeList
unfolding is_valid_scope
from_vec vec = if all is_valid_scope vec then some vec else none

-- `join(" ")`.
unfoldable pub serialize : OAuthScopeList → List ℕ
serialize [] = []
serialize (s ∷ []) = s
serialize (s ∷ t ∷ rest) = s ++ b' ' ∷ serialize (t ∷ rest)

unfoldable pub deserialize : List ℕ → Option OAuthScopeList
deserialize scopes_str = if is_empty scopes_str then some [] else from_vec (split b' ' scopes_str)
