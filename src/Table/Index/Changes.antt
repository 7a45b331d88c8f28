-- ===== src/Table/Index/Changes.antt =====
-- crates/server/src/util/table/index_store.rs: an id that is put into an index or taken out of it.
use minibot_rust.Base.{
  ℕ, suc, ◌+◌, ◌-◌, ◌≤◌, ◌<◌, List, [], ◌∷◌, none, some, ◌==◌, if◌then◌else◌, ◌≡◌, ◌≢◌, length,
  get_elem?, refl, arith, Option-cases, inl, inr, ok, unwrap,
}
use minibot_rust.Table.{Rows, get, insert, remove, IndexStore, add_entry, take_out}
use minibot_rust.Table.Search.{Cut}
use minibot_rust.Table.Index.{key_of, count, Ordered, select}
use minibot_rust.Table.Index.Lookup.{Backed, key_at, key_at-some, find_range-Cut, inside-get_elem?}
use minibot_rust.Table.Index.Places.{
  put, cut, insert_at-put, remove_at-cut, get_elem?-put, get_elem?-cut, position-there,
  count-select, get_elem?-slice,
}

module _ {T : Type 0} where
  pub get-insert :
      (id j : ℕ) (v : T) (rows : Rows T)
      → get j (insert id v rows) ≡ (if id == j then some v else get j rows)
  unfolding get insert
  get-insert id j v [] = refl
  get-insert id j v ((i, w) ∷ rows) = ground (arith, get-insert id j v rows)

  pub get-remove :
      (id j : ℕ) (rows : Rows T) → get j (remove id rows) ≡ (if id == j then none else get j rows)
  unfolding get remove
  get-remove id j [] = ground arith
  get-remove id j ((i, w) ∷ rows) = ground (arith, get-remove id j rows)

-- Where a range cuts the keys, what stands before its end has no greater key.
pub Cut-sides :
    (key : ℕ → ℕ) (k s e : ℕ) (xs : List ℕ)
    → Cut (key_at key xs) k (length xs) s e
    → (i x : ℕ) → get_elem? xs i ≡ some x
    → (i < e → key x ≤ k) × (e ≤ i → k < key x)
Cut-sides key k s e xs (s_e, e_n, below, inside, above) i x at =
    let within = (inside-get_elem? xs i x at).0 in
    let same = key_at-some key xs i x at in ground (arith, below i, inside i, above i)

pub put-Ordered :
    (key : ℕ → ℕ) (id s e : ℕ) (xs : List ℕ)
    → Ordered key xs
    → Cut (key_at key xs) (key id) (length xs) s e
    → Ordered key (put e id xs)
put-Ordered key id s e xs o c i j a b h at at' =
    let inside : e ≤ length xs = c.1 in
    let here = get_elem?-put e id i xs inside in
    let there = get_elem?-put e id j xs inside in
    let sides = Cut-sides key (key id) s e xs c in
    ground (
      arith,
      here,
      there,
      o i j a b,
      o i (j - 1) a b,
      o (i - 1) (j - 1) a b,
      sides i a,
      sides (j - 1) b,
    )

pub cut-Ordered : (key : ℕ → ℕ) (i : ℕ) (xs : List ℕ) → Ordered key xs → Ordered key (cut i xs)
cut-Ordered key n xs o i j a b h at at' =
    let here = get_elem?-cut n i xs in
    let there = get_elem?-cut n j xs in
    ground (arith, here, there, o i j a b, o i (suc j) a b, o (suc i) (suc j) a b)

pub Backed-cut :
    {T : Type 0} (rows : Rows T) (n : ℕ) (xs : List ℕ) → Backed rows xs → Backed rows (cut n xs)
Backed-cut rows n xs b i x at = ground (arith, get_elem?-cut n i xs, b i x, b (suc i) x)

module _ {T : Type 0} (rows : Rows T) (store : IndexStore T) (id : ℕ)
    (backed : Backed rows store.entries) where
  abbrev pub key : ℕ → ℕ
  key = key_of rows store.accessor

  -- The id is put where its key belongs.
  pub add_entry-put :
      Ordered key store.entries
      → get id rows ≢ none
      → (e : ℕ) × (add_entry rows id store ≡ ok (record store { entries = put e id store.entries }))
        × Ordered key (put e id store.entries)
  unfolding add_entry
  add_entry-put o there = elim (Option-cases (get id rows)) [
    | inl missing ↦ absurd (there missing)
    | inr (v, is) ↦
        let own : key id ≡ store.accessor v = rw (is, key_of) refl in
        let (s, e, found, c, same) = find_range-Cut rows store backed (key id) o in
        let placed = insert_at-put e id store.entries c.1 in
        (
          e,
          rw (is, unwrap) (rw (← own, found, unwrap) (rw (placed, unwrap) refl)),
          put-Ordered key id s e store.entries o c,
        )
  ]

  -- The id is taken out from where it stands.
  pub take_out-cut :
      Ordered key store.entries
      → 0 < count id store.entries
      → (n : ℕ) × (take_out rows id (key id) store
          ≡ ok (record store { entries = cut n store.entries }))
        × (get_elem? store.entries n ≡ some id)
  unfolding take_out
  take_out-cut o listed =
      let (s, e, found, c, same) = find_range-Cut rows store backed (key id) o in
      let (p, placed, at) =
        position-there id (select key (key id) store.entries)
          (omega (arith, count-select key id store.entries)) in
      let at' = get_elem?-slice s e p id store.entries (rw same at) in
      let within = (inside-get_elem? store.entries (s + p) id at').0 in
      (
        s + p,
        rw (found, unwrap)
            (rw (same, placed, unwrap)
              (rw (remove_at-cut (s + p) store.entries within, unwrap) refl)),
        at',
      )
