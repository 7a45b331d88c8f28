-- ===== src/Table.antt =====
-- crates/server/src/util/table: rows under numbered ids, and indexes over them. An index keeps the
-- ids ordered by a key of their rows; a key is only compared, so it is given by its rank. None is a
-- panic. `slice::binary_search_by` is written out as in the standard library.
pub mod Search
pub mod Index
pub mod Core
mod Tests
use minibot_rust.Base.{
  ℕ, zero, suc, ◌+◌, ◌-◌, ◌/◌, Bool, true, false, not, List, [], ◌∷◌, ◌++◌, Option, none, some,
  ◌==◌, ltb, leb, if◌then◌else◌, length, get_elem?, take, drop, Outcome, ok, err, panic, ◌>>=◌,
  unwrap, is_empty, ensure, ◌>>◌,
}

-- `BTreeMap<u64, T>`: an association list.
abbrev pub Rows : Type 0 → Type 0
Rows T = List (ℕ × T)

module _ {T : Type 0} where
  unfoldable pub get : ℕ → Rows T → Option T
  get id [] = none
  get id ((j, v) ∷ rows) = if j == id then some v else get id rows

  unfoldable pub insert : ℕ → T → Rows T → Rows T
  insert id v [] = (id, v) ∷ []
  insert id v ((j, w) ∷ rows) = if j == id then (j, v) ∷ rows else (j, w) ∷ insert id v rows

  unfoldable pub remove : ℕ → Rows T → Rows T
  remove id [] = []
  remove id ((j, w) ∷ rows) = let rest = remove id rows in if j == id then rest else (j, w) ∷ rest

pub data Error : Type 0 where
  updated_nonexistent_entry : ℕ → Error
  removing_nonexistent_id : ℕ → Error
  already_exists : Error

pub record IndexStore (T : Type 0) : Type 0 where
  pub accessor : T → ℕ
  pub entries : List ℕ
  pub unique : Bool

-- `Ok(idx)` and `Err(idx)` of the binary search.
pub data Found : Type 0 where
  found : ℕ → Found
  absent : ℕ → Found

-- The key at a place of the index, where there is one.
abbrev pub Finder : Type 0
Finder = ℕ → Option ℕ

abbrev pub bind {ℓ κ} : {A : Type ℓ} {B : Type κ} → Option A → (A → Option B) → Option B
bind none f = none
bind (some a) f = f a

-- The last comparison of the search.
unfoldable pub settle : Finder → ℕ → ℕ → Option Found
settle f k base =
    bind (f base) (λ c.
      some (if c == k then found base else if ltb c k then absent (base + 1) else absent base))

-- `while size > 1`: the window is halved.
unfoldable pub halve : ℕ → Finder → ℕ → ℕ → ℕ → Option Found
unfolding settle
halve zero f k base size = settle f k base
halve (suc fuel) f k base size =
    let half = size / 2 in
    let left = halve fuel f k base (size - half) in
    let right = halve fuel f k (base + half) (size - half) in
    if ltb 1 size
    then bind (f (base + half)) (λ c. if ltb k c then left else right)
    else settle f k base

unfoldable pub binary_search : Finder → ℕ → ℕ → Option Found
unfolding halve
binary_search f k n = if n == 0 then some (absent 0) else halve n f k 0 n

-- The loop that moves `start` down over equal keys.
unfoldable pub widen_down : Finder → ℕ → ℕ → Option ℕ
widen_down f k zero = some 0
widen_down f k (suc s) =
    let lower = widen_down f k s in bind (f s) (λ c. if c == k then lower else some (suc s))

-- The loop that moves `end` up; the first number is how many places are left.
unfoldable pub widen_up : ℕ → Finder → ℕ → ℕ → Option ℕ
widen_up zero f k e = some e
widen_up (suc left) f k e =
    let higher = widen_up left f k (e + 1) in bind (f e) (λ c. if c == k then higher else some e)

unfoldable pub range_of : Finder → ℕ → ℕ → Found → Option (ℕ × ℕ)
unfolding widen_down widen_up
range_of f k n (absent idx) = some (idx, idx)
range_of f k n (found idx) =
    bind (widen_down f k idx)
      (λ s. bind (widen_up (n - (idx + 1)) f k (idx + 1)) (λ e. some (s, e)))

unfoldable pub search_range : Finder → ℕ → ℕ → Option (ℕ × ℕ)
unfolding binary_search range_of
search_range f k n = bind (binary_search f k n) (range_of f k n)

-- `self.entries[range]`: the ranges of `find_range` lie inside.
abbrev pub slice : ℕ × ℕ → List ℕ → List ℕ
slice (s, e) xs = take (e - s) (drop s xs)

module _ {T : Type 0} where
  -- `entry_finder` at a place of the index.
  unfoldable pub entry_key : Rows T → IndexStore T → Finder
  entry_key rows store i =
      bind (get_elem? store.entries i) (λ id. bind (get id rows) (λ v. some (store.accessor v)))

  unfoldable pub find_range : Rows T → ℕ → IndexStore T → Option (ℕ × ℕ)
  find_range rows k store = search_range (entry_key rows store) k (length store.entries)

  unfoldable pub get_entries : Rows T → ℕ → IndexStore T → Option (List ℕ)
  get_entries rows k store = bind (find_range rows k store) (λ r. some (slice r store.entries))

-- `Vec::insert` and `Vec::remove`, which panic out of range.
unfoldable pub insert_at : ℕ → ℕ → List ℕ → Option (List ℕ)
insert_at zero id xs = some (id ∷ xs)
insert_at (suc i) id [] = none
insert_at (suc i) id (x ∷ xs) = bind (insert_at i id xs) (λ rest. some (x ∷ rest))

unfoldable pub remove_at : ℕ → List ℕ → Option (List ℕ)
remove_at i [] = none
remove_at zero (x ∷ xs) = some xs
remove_at (suc i) (x ∷ xs) = bind (remove_at i xs) (λ rest. some (x ∷ rest))

-- `iter().position(|i| i == &id)`.
unfoldable pub position : ℕ → List ℕ → Option ℕ
position id [] = none
position id (x ∷ xs) =
    let later = position id xs in if x == id then some 0 else bind later (λ i. some (i + 1))

abbrev pub Result : Type 0 → Type 0
Result A = Outcome Error A

-- The assertion is that at most one entry has the key.
abbrev pub only_id : ℕ → List ℕ → Result (Unit {0})
only_id id [] = ok tt
only_id id (x ∷ []) = ensure (x == id) already_exists
only_id id (x ∷ y ∷ xs) = panic

-- `sort_by`, which is stable: an id goes before those with an equal key that stood behind it.
unfoldable pub insert_sorted : (ℕ → ℕ) → ℕ → List ℕ → List ℕ
insert_sorted key id [] = id ∷ []
insert_sorted key id (x ∷ xs) =
    let later = insert_sorted key id xs in if leb (key id) (key x) then id ∷ x ∷ xs else x ∷ later

unfoldable pub sort_by : (ℕ → ℕ) → List ℕ → List ℕ
sort_by key [] = []
sort_by key (x ∷ xs) = insert_sorted key x (sort_by key xs)

-- `rows.keys()`.
unfoldable pub ids_of : {T : Type 0} → Rows T → List ℕ
ids_of [] = []
ids_of ((id, v) ∷ rows) = id ∷ ids_of rows

module _ {T : Type 0} where
  unfoldable pub check_add : Rows T → T → IndexStore T → Result (Unit {0})
  check_add rows value store =
      if store.unique
      then (unwrap (find_range rows (store.accessor value) store) >>= λ r.
          ensure (r.1 - r.0 == 0) already_exists)
      else ok tt

  unfoldable pub check_update : Rows T → ℕ → T → IndexStore T → Result (Unit {0})
  check_update rows id new_value store =
      if store.unique
      then (unwrap (get_entries rows (store.accessor new_value) store) >>= only_id id)
      else ok tt

  unfoldable pub add_entry : Rows T → ℕ → IndexStore T → Result (IndexStore T)
  add_entry rows id store = do
    value ← unwrap (get id rows)
    r ← unwrap (find_range rows (store.accessor value) store)
    entries ← unwrap (insert_at r.1 id store.entries)
    ok (record store { entries = entries })

  -- What `update_entry` and `remove_entry` share: the id is looked for among the entries with the
  -- key, and taken out.
  unfoldable pub take_out : Rows T → ℕ → ℕ → IndexStore T → Result (IndexStore T)
  take_out rows id k store = do
    r ← unwrap (find_range rows k store)
    index ← unwrap (position id (slice r store.entries))
    entries ← unwrap (remove_at (r.0 + index) store.entries)
    ok (record store { entries = entries })

  -- The rows have the new value already.
  unfoldable pub update_entry : Rows T → ℕ → T → IndexStore T → Result (IndexStore T)
  update_entry rows id old_entry store = do
    rest ← take_out rows id (store.accessor old_entry) store
    add_entry rows id rest

  unfoldable pub remove_entry : Rows T → ℕ → IndexStore T → Result (IndexStore T)
  remove_entry rows id store = do
    value ← unwrap (get id rows)
    take_out rows id (store.accessor value) store
