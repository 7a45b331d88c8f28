-- ===== src/Table/Index/Rekey.antt =====
-- crates/server/src/util/table/index_store.rs: `update_entry` where the key of the row changes.
use minibot_rust.Base.{
  ℕ, zero, suc, ◌+◌, ◌-◌, ◌/◌, ◌≤◌, ◌<◌, List, [], ◌∷◌, some, ◌==◌, ◌≡◌, ◌≢◌, length, get_elem?,
  drop, refl, ap, ◌∙◌, arith, Bool-cases, Option-cases, inl, inr, panic,
}
use minibot_rust.Table.{
  Rows, get, IndexStore, Finder, Found, found, absent, settle, halve, binary_search, widen_down,
  widen_up, range_of, search_range, entry_key, find_range, slice, position, take_out, update_entry,
}
use minibot_rust.Table.Index.Places.{get_elem?-slice, take-bound}

module _ (f : Finder) (k : ℕ) where
  settle-found : (base i : ℕ) → settle f k base ≡ some (found i) → f i ≡ some k
  unfolding settle
  settle-found base i h = elim (Option-cases (f base)) [
    | inl e ↦ ground (arith, e)
    | inr (c, e) ↦ ground (arith, e)
  ]

  halve-found : (fuel base size i : ℕ) → halve fuel f k base size ≡ some (found i) → f i ≡ some k
  unfolding halve
  halve-found zero base size i h = settle-found base i h
  halve-found (suc fuel) base size i h =
      let left = halve-found fuel base (size - size / 2) i in
      let right = halve-found fuel (base + size / 2) (size - size / 2) i in
      let here = settle-found base i in
      elim (Option-cases (f (base + size / 2))) [
        | inl e ↦ ground (arith, e, left, right, here)
        | inr (c, e) ↦ ground (arith, e, left, right, here)
      ]

  widen_down-keys : (i s : ℕ) → widen_down f k i ≡ some s → (j : ℕ) → s ≤ j → j < i → f j ≡ some k
  unfolding widen_down
  widen_down-keys zero s h j a b = absurd (omega arith)
  widen_down-keys (suc i) s h j a b =
      let lower : widen_down f k i ≡ some s → s ≤ j → j < i → f j ≡ some k =
        λ h'. widen_down-keys i s h' j in
      let here : j ≡ i → f j ≡ f i = λ q. ap f q in
      elim (Option-cases (f i)) [
        | inl e ↦ ground (arith, e)
        | inr (c, e) ↦ ground (arith, e, lower, here)
      ]

  widen_up-keys :
      (left e x : ℕ) → widen_up left f k e ≡ some x → (j : ℕ) → e ≤ j → j < x → f j ≡ some k
  unfolding widen_up
  widen_up-keys zero e x h j a b = ground arith
  widen_up-keys (suc left) e x h j a b =
      let higher : widen_up left f k (e + 1) ≡ some x → e + 1 ≤ j → j < x → f j ≡ some k =
        λ h'. widen_up-keys left (e + 1) x h' j in
      let here : j ≡ e → f j ≡ f e = λ q. ap f q in
      elim (Option-cases (f e)) [
        | inl none_there ↦ ground (arith, none_there)
        | inr (c, there) ↦ ground (arith, there, higher, here)
      ]

  -- Whatever the order of the keys, every place of the range that a search gives has the key.
  range_of-keys :
      (n : ℕ) (r : Found)
      → ((i : ℕ) → r ≡ found i → f i ≡ some k)
      → (s e : ℕ) → range_of f k n r ≡ some (s, e)
      → (j : ℕ) → s ≤ j
      → j < e
      → f j ≡ some k
  unfolding range_of
  range_of-keys n (absent i) at s e h j a b = ground arith
  range_of-keys n (found i) at s e h j a b = elim (Option-cases (widen_down f k i)) [
    | inl d ↦ ground (arith, d)
    | inr (s', d) ↦ elim (Option-cases (widen_up (n - (i + 1)) f k (i + 1))) [
      | inl u ↦ ground (arith, d, u)
      | inr (e', u) ↦
          let same : j ≡ i → f j ≡ f i = λ q. ap f q in
          ground (
            arith,
            d,
            u,
            at i refl,
            same,
            widen_down-keys i s' d j,
            widen_up-keys (n - (i + 1)) (i + 1) e' u j,
          )
    ]
  ]

  binary_search-found : (n i : ℕ) → binary_search f k n ≡ some (found i) → f i ≡ some k
  unfolding binary_search
  binary_search-found n i h = ground (arith, halve-found n 0 n i)

  search_range-keys :
      (n s e : ℕ) → search_range f k n ≡ some (s, e) → (j : ℕ) → s ≤ j → j < e → f j ≡ some k
  unfolding search_range
  search_range-keys n s e h j a b = elim (Option-cases (binary_search f k n)) [
    | inl miss ↦ ground (arith, miss)
    | inr (r, e') ↦
        range_of-keys n r (λ i q. binary_search-found n i (e' ∙ ap some q)) s e
          (ground (arith, e', h)) j a b
  ]

module _ {T : Type 0} (rows : Rows T) (store : IndexStore T) where
  position-inside :
      (id : ℕ) (xs : List ℕ) (p : ℕ) → position id xs ≡ some p → get_elem? xs p ≡ some id
  unfolding position
  position-inside id [] p h = ground arith
  position-inside id (x ∷ xs) p h = elim (Bool-cases (x == id)) [
    | inl same ↦ ground (arith, same)
    | inr other ↦ elim (Option-cases (position id xs)) [
      | inl nowhere ↦ ground (arith, other, nowhere)
      | inr (q, there) ↦
          let e : p ≡ suc q = ground (arith, other, there) in rw e (position-inside id xs q there)
    ]
  ]

  entry_key-row :
      (j id k : ℕ) (v : T)
      → get_elem? store.entries j ≡ some id
      → get id rows ≡ some v
      → entry_key rows store j ≡ some k
      → store.accessor v ≡ k
  unfolding entry_key
  entry_key-row j id k v at is h = ground (arith, at, is)

  take_out-panics :
      (id k : ℕ) (v : T)
      → get id rows ≡ some v
      → store.accessor v ≢ k
      → take_out rows id k store ≡ panic
  unfolding take_out find_range
  take_out-panics id k v is other = elim (Option-cases (find_range rows k store)) [
    | inl miss ↦ ground (arith, miss)
    | inr ((s, e), range) ↦ elim (Option-cases (position id (slice (s, e) store.entries))) [
      | inl nowhere ↦ ground (arith, range, nowhere)
      | inr (p, there) ↦
          let at = position-inside id (slice (s, e) store.entries) p there in
          let short = take-bound (e - s) p id (drop s store.entries) at in
          let here =
            search_range-keys (entry_key rows store) k (length store.entries) s e range (s + p)
              (omega arith) (omega arith) in
          absurd (
            other
              (entry_key-row (s + p) id k v (get_elem?-slice s e p id store.entries at) is here))
    ]
  ]

  -- Where the row of an id has another key than the row it replaces, the update of the index
  -- panics, whatever the rows and the entries of the index are.
  pub update_entry-panics :
      (id : ℕ) (old v : T)
      → get id rows ≡ some v
      → store.accessor v ≢ store.accessor old
      → update_entry rows id old store ≡ panic
  unfolding update_entry
  update_entry-panics id old v is other =
      rw (take_out-panics id (store.accessor old) v is other) refl
