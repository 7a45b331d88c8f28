-- ===== src/Auth/Scopes/RoundTrip.antt =====
-- crates/server/src/util/types/scopes.rs: reading against writing, and validity against RFC 6749.
use minibot_rust.Base.{
  ℕ, ◌≤◌, true, false, List, [], ◌∷◌, some, all, is_empty, Lacks, ◌≡◌, ◌≢◌, ◌↔◌, ◌⊎◌, refl, ap,
  &&-eq_true, ◌∙◌, arith, All,
}
use minibot_rust.IrcRaw.Slice.{split, split-append, split-Lacks}
use minibot_rust.Auth.Scopes.{
  valid_char, is_valid_scope, OAuthScopeList, from_vec, serialize, deserialize,
}

all-Lacks : (s : List ℕ) → all valid_char s ≡ true → Lacks b' ' s
unfolding all valid_char
all-Lacks [] h = tt
all-Lacks (c ∷ s) h = (ground (arith, h), all-Lacks s (ground (arith, h)))

split-serialize :
    (s : List ℕ) (l : OAuthScopeList)
    → all is_valid_scope (s ∷ l) ≡ true
    → split b' ' (serialize (s ∷ l)) ≡ s ∷ l
unfolding serialize all is_valid_scope
split-serialize s [] h = split-Lacks b' ' s (all-Lacks s (ground (arith, h)))
split-serialize s (t ∷ l) h =
    split-append b' ' s (serialize (t ∷ l)) (all-Lacks s (ground (arith, h)))
    ∙ ap (◌∷◌ s) (split-serialize t l (ground (arith, h)))

serialize-nonempty :
    (s : List ℕ) (l : OAuthScopeList)
    → is_valid_scope s ≡ true
    → is_empty (serialize (s ∷ l)) ≡ false
unfolding serialize is_valid_scope
serialize-nonempty [] [] h = ground (arith, h)
serialize-nonempty (c ∷ s) [] h = refl
serialize-nonempty [] (t ∷ l) h = ground (arith, h)
serialize-nonempty (c ∷ s) (t ∷ l) h = refl

-- Every list of valid scopes, also the empty one, is read back from what is written for it.
pub deserialize-serialize :
    (l : OAuthScopeList) → all is_valid_scope l ≡ true → deserialize (serialize l) ≡ some l
unfolding deserialize from_vec
deserialize-serialize [] h = unfold serialize in refl
deserialize-serialize (s ∷ l) h =
    rw
      (
        serialize-nonempty s l
            (&&-eq_true (is_valid_scope s) (all is_valid_scope l) (unfold all in h)).0,
        split-serialize s l h,
        h,
      )
      refl

-- The characters of a scope token in RFC 6749: those from 0x21 to 0x7E but for the quotation mark
-- and the backslash.
abbrev pub IsNqchar : ℕ → Type 0
IsNqchar c = (c ≡ 0x21) ⊎ ((0x23 ≤ c) × (c ≤ 0x5B)) ⊎ ((0x5D ≤ c) × (c ≤ 0x7E))

all-valid_char :
    (s : List ℕ) → (all valid_char s ≡ true) ↔ All (λ c. IsNqchar c × (c ≢ b'[') × (c ≢ b'~')) s
unfolding all valid_char
all-valid_char [] = ground arith
all-valid_char (c ∷ s) = ground (arith, all-valid_char s)

-- A scope is valid exactly when it is not empty and all its characters are those of a scope token
-- in RFC 6749, but for the opening bracket and the tilde.
pub is_valid_scope-exact :
    (s : List ℕ)
    → (is_valid_scope s ≡ true) ↔ ((s ≢ []) × All (λ c. IsNqchar c × (c ≢ b'[') × (c ≢ b'~')) s)
unfolding is_valid_scope
is_valid_scope-exact [] = ground arith
is_valid_scope-exact (c ∷ s) = ground (arith, all-valid_char (c ∷ s))
