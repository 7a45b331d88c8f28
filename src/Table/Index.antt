-- ===== src/Table/Index.antt =====
-- crates/server/src/util/table/index_store.rs: what it is for an index to fit rows. Its ids are
-- those of the rows, each once and ordered by key.
pub mod Lookup
pub mod Rekey
pub mod Places
pub mod Changes
pub mod Upkeep
use minibot_rust.Base.{
  ℕ, zero, suc, ◌+◌, ◌-◌, ◌≤◌, ◌<◌, Bool, true, false, ◌&&◌, List, [], ◌∷◌, Option, none, some,
  ◌==◌, ltb, leb, if◌then◌else◌, ◌≡◌, ◌≢◌, length, get_elem?,
}
use minibot_rust.Table.{Rows, get, IndexStore}

module _ {T : Type 0} where
  -- The key of a row; no question is asked of an id without a row.
  abbrev pub key_of : Rows T → (T → ℕ) → ℕ → ℕ
  key_of rows accessor id = elim (get id rows) [ none ↦ 0 | some v ↦ accessor v ]

  abbrev pub present : Option T → ℕ
  present none = 0
  present (some v) = 1

abbrev pub count : ℕ → List ℕ → ℕ
count id [] = 0
count id (x ∷ xs) = if x == id then 1 + count id xs else count id xs

-- Ordered by a key.
abbrev pub Ordered : (ℕ → ℕ) → List ℕ → Type 0
Ordered key xs =
    (i j a b : ℕ) → i ≤ j → get_elem? xs i ≡ some a → get_elem? xs j ≡ some b → key a ≤ key b

pub record IsIndex {T : Type 0} (rows : Rows T) (store : IndexStore T) : Type 0 where
  pub each_once : (id : ℕ) → count id store.entries ≡ present (get id rows)
  pub in_order : Ordered (key_of rows store.accessor) store.entries

-- The ids with a key, in the order of the index.
abbrev pub select : (ℕ → ℕ) → ℕ → List ℕ → List ℕ
select key k [] = []
select key k (x ∷ xs) = let rest = select key k xs in if key x == k then x ∷ rest else rest
