-- ===== src/Table/Index/Lookup.antt =====
-- crates/server/src/util/table/index_store.rs: `find_range`, `get_entries` and `check_add` on an
-- index that fits its rows.
use minibot_rust.Base.{
  ℕ, zero, suc, ◌-◌, ◌≤◌, ◌<◌, ◌&&◌, List, [], ◌∷◌, none, some, ◌==◌, ltb, leb, if◌then◌else◌, ◌≡◌,
  ◌≢◌, length, get_elem?, take, drop, refl, sym, ap, ◌∙◌, subst, arith, Option-cases, inl, inr, not,
  is_empty, length-drop, ok, err, unwrap,
}
use minibot_rust.Table.{
  Rows, get, IndexStore, bind, entry_key, find_range, get_entries, slice, check_add, already_exists,
}
use minibot_rust.Table.Search.{Cut, search_range-Cut}
use minibot_rust.Table.Index.{key_of, count, Ordered, IsIndex, select}

-- The range holds the places of the key and no others.
abbrev pub Splits : (ℕ → ℕ) → ℕ → List ℕ → ℕ → ℕ → Type 0
Splits key k xs s e = (i x : ℕ) → get_elem? xs i ≡ some x → (key x == k) ≡ (leb s i && ltb i e)

Splits-tail :
    (key : ℕ → ℕ) (k y : ℕ) (xs : List ℕ) (s e : ℕ)
    → Splits key k (y ∷ xs) s e
    → Splits key k xs (s - 1) (e - 1)
Splits-tail key k y xs s e h i x at = let next = h (suc i) x at in ground arith

take-nil : (n : ℕ) → take {A = ℕ} n [] ≡ []
take-nil zero = refl
take-nil (suc n) = refl

drop-nil : (n : ℕ) → drop {A = ℕ} n [] ≡ []
drop-nil zero = refl
drop-nil (suc n) = refl

slice-nil : (s e : ℕ) → slice (s, e) [] ≡ []
slice-nil s e = rw (drop-nil s) (take-nil (e - s))

slice-inside : (e x : ℕ) (xs : List ℕ) → slice (0, suc e) (x ∷ xs) ≡ x ∷ slice (0, e) xs
slice-inside e x xs = let q : suc e - 0 ≡ suc (e - 0) = omega arith in rw q refl

slice-before : (s e x : ℕ) (xs : List ℕ) → slice (suc s, e) (x ∷ xs) ≡ slice (s, e - 1) xs
slice-before s e x xs = let q : e - suc s ≡ e - 1 - s = omega arith in rw q refl

slice-select :
    (key : ℕ → ℕ) (k : ℕ) (xs : List ℕ) (s e : ℕ)
    → s ≤ e
    → Splits key k xs s e
    → slice (s, e) xs ≡ select key k xs
slice-select key k [] s e b h = slice-nil s e
slice-select key k (x ∷ xs) zero zero b h =
    let here = h 0 x refl in
    let rest = slice-select key k xs 0 0 (omega arith) (Splits-tail key k x xs 0 0 h) in
    ground arith
slice-select key k (x ∷ xs) zero (suc e) b h =
    let here = h 0 x refl in
    let rest =
      slice-select key k xs 0 (suc e - 1) (omega arith) (Splits-tail key k x xs 0 (suc e) h) in
    let q : suc e - 1 ≡ e = omega arith in
    slice-inside e x xs ∙ ground (arith, subst (λ t. slice (0, t) xs ≡ select key k xs) q rest)
slice-select key k (x ∷ xs) (suc s) e b h =
    let here = h 0 x refl in
    let rest =
      slice-select key k xs (suc s - 1) (e - 1) (omega arith)
        (Splits-tail key k x xs (suc s) e h) in
    let q : suc s - 1 ≡ s = omega arith in
    slice-before s e x xs
    ∙ ground (arith, subst (λ t. slice (t, e - 1) xs ≡ select key k xs) q rest)

pub get_elem?-inside : (xs : List ℕ) (i : ℕ) → i < length xs → (x : ℕ) × (get_elem? xs i ≡ some x)
get_elem?-inside [] i h = absurd (omega arith)
get_elem?-inside (x ∷ xs) zero h = (x, refl)
get_elem?-inside (x ∷ xs) (suc i) h = get_elem?-inside xs i (omega arith)

pub inside-get_elem? :
    (xs : List ℕ) (i x : ℕ) → get_elem? xs i ≡ some x → (i < length xs) × (0 < count x xs)
inside-get_elem? [] i x h = ground arith
inside-get_elem? (y ∷ xs) zero x h = ground arith
inside-get_elem? (y ∷ xs) (suc i) x h = ground (arith, inside-get_elem? xs i x)

-- Every id of the list has a row.
abbrev pub Backed : {T : Type 0} → Rows T → List ℕ → Type 0
Backed rows xs = (i x : ℕ) → get_elem? xs i ≡ some x → get x rows ≢ none

abbrev pub key_at : (ℕ → ℕ) → List ℕ → ℕ → ℕ
key_at key xs i = elim (get_elem? xs i) [ none ↦ 0 | some x ↦ key x ]

pub key_at-some :
    (key : ℕ → ℕ) (xs : List ℕ) (i x : ℕ) → get_elem? xs i ≡ some x → key_at key xs i ≡ key x
key_at-some key xs i x at = rw (at, key_at) refl

module _ {T : Type 0} (rows : Rows T) (store : IndexStore T)
    (backed : Backed rows store.entries) where
  abbrev key : ℕ → ℕ
  key = key_of rows store.accessor

  entry_key-at :
      (i : ℕ)
      → i < length store.entries
      → entry_key rows store i ≡ some (key_at key store.entries i)
  unfolding entry_key
  entry_key-at i h =
      let (x, at) = get_elem?-inside store.entries i h in
      elim (Option-cases (get x rows)) [
        | inl missing ↦ absurd (backed i x at missing)
        | inr (v, there) ↦ rw (at, bind, there, key_at, key_of) refl
      ]

  key_at-Ordered :
      Ordered key store.entries
      → (i j : ℕ) → i ≤ j
      → j < length store.entries
      → key_at key store.entries i ≤ key_at key store.entries j
  key_at-Ordered o i j h b =
      let (x, at) = get_elem?-inside store.entries i (omega arith) in
      let (y, at') = get_elem?-inside store.entries j b in
      rw (key_at-some key store.entries i x at, key_at-some key store.entries j y at')
        (o i j x y h at at')

  Cut-Splits :
      (k s e : ℕ)
      → Cut (key_at key store.entries) k (length store.entries) s e
      → Splits key k store.entries s e
  Cut-Splits k s e (s_e, e_n, below, inside, above) i x at =
      let within = (inside-get_elem? store.entries i x at).0 in
      let same : key_at key store.entries i ≡ key x = key_at-some key store.entries i x at in
      ground (arith, below i, inside i, above i)

  -- The range of a key.
  pub find_range-Cut :
      (k : ℕ)
      → Ordered key store.entries
      → (s e : ℕ) × (find_range rows k store ≡ some (s, e))
        × Cut (key_at key store.entries) k (length store.entries) s e
        × (slice (s, e) store.entries ≡ select key k store.entries)
  unfolding find_range
  find_range-Cut k o =
      let (s, e, found, cut) =
        search_range-Cut (entry_key rows store) (key_at key store.entries) k (length store.entries)
          entry_key-at (key_at-Ordered o) in
      (s, e, found, cut, slice-select key k store.entries s e cut.0 (Cut-Splits k s e cut))

module _ {T : Type 0} (rows : Rows T) (store : IndexStore T) where
  pub IsIndex-Backed : IsIndex rows store → Backed rows store.entries
  IsIndex-Backed h i x at missing =
      let once = h.each_once x in
      let there = (inside-get_elem? store.entries i x at).1 in ground (arith, missing)

  -- On an index that fits its rows a lookup ends without a panic and gives exactly the ids of the
  -- rows with the key, in the order of the index.
  pub get_entries-select :
      (k : ℕ)
      → IsIndex rows store
      → get_entries rows k store ≡ some (select (key_of rows store.accessor) k store.entries)
  unfolding get_entries
  get_entries-select k h =
      let (s, e, found, cut, same) = find_range-Cut rows store (IsIndex-Backed h) k h.in_order in
      rw (found, bind) (ap some same)

length-take : (n : ℕ) (xs : List ℕ) → n ≤ length xs → length (take n xs) ≡ n
length-take zero xs h = refl
length-take (suc n) [] h = absurd (omega arith)
length-take (suc n) (x ∷ xs) h = omega (arith, length-take n xs (omega arith))

is_empty-length : (xs : List ℕ) → (length xs == 0) ≡ is_empty xs
is_empty-length [] = refl
is_empty-length (x ∷ xs) = ground arith

is_empty-slice : (s e : ℕ) (xs : List ℕ) → e ≤ length xs → (e - s == 0) ≡ is_empty (slice (s, e) xs)
is_empty-slice s e xs h =
    let dropped = length-drop s xs in
    let taken = length-take (e - s) (drop s xs) (omega (arith, dropped)) in
    ap (λ n. n == 0) (sym taken) ∙ is_empty-length (slice (s, e) xs)

-- On an index that fits its rows, the check of a new row fails exactly when the index is unique and
-- some id in it has the key of the row, and it fails with `AlreadyExists`.
pub check_add-exact :
    {T : Type 0} (rows : Rows T) (value : T) (store : IndexStore T)
    → IsIndex rows store
    → check_add rows value store ≡ (
        if store.unique
          && not
              (is_empty (select (key_of rows store.accessor) (store.accessor value) store.entries))
        then err already_exists
        else ok tt)
unfolding check_add
check_add-exact rows value store h =
    let (s, e, found, cut, same) =
      find_range-Cut rows store (IsIndex-Backed rows store h) (store.accessor value) h.in_order in
    let size = is_empty-slice s e store.entries cut.1 in
    rw (found, unwrap) (rw (size, same) ground arith)
