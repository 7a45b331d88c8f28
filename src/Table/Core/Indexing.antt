-- ===== src/Table/Core/Indexing.antt =====
-- crates/server/src/util/table: `add_index_inner` and `IndexStore::new`.
use minibot_rust.Base.{
  ℕ, zero, suc, ◌≤◌, List, [], ◌∷◌, some, All, All-append, get_elem?, leb, if◌then◌else◌, Bool,
  true, false, Bool-cases, leb→le, inl, inr, subst, ◌≡◌, refl, ap, ◌∙◌, arith,
}
use minibot_rust.Table.{insert_sorted, sort_by, ids_of}
use minibot_rust.Table.Index.{key_of, Ordered, count, IsIndex}
use minibot_rust.Table.Core.{TableCore, new_index, add_index}
use minibot_rust.Table.Core.Keeps.{IsTable}

-- Each key is at most those behind it.
abbrev Sorted : (ℕ → ℕ) → List ℕ → Type 0
Sorted key [] = Unit
Sorted key (x ∷ xs) = All (λ y. key x ≤ key y) xs × Sorted key xs

insert_sorted-All :
    (P : ℕ → Type 0) (key : ℕ → ℕ) (id : ℕ) (xs : List ℕ)
    → P id
    → All P xs
    → All P (insert_sorted key id xs)
unfolding insert_sorted
insert_sorted-All P key id [] p h = (p, tt)
insert_sorted-All P key id (x ∷ xs) p h =
    elim (leb (key id) (key x))
      as (λ b. All P (if b then id ∷ x ∷ xs else x ∷ insert_sorted key id xs)) [
        | true ↦ (p, h)
        | false ↦ (h.0, insert_sorted-All P key id xs p h.1)
      ]

All-le :
    (key : ℕ → ℕ) (a b : ℕ) (xs : List ℕ)
    → key a ≤ key b
    → All (λ y. key b ≤ key y) xs
    → All (λ y. key a ≤ key y) xs
All-le key a b [] h l = tt
All-le key a b (x ∷ xs) h l = (omega (arith, h, l.0), All-le key a b xs h l.1)

insert_sorted-Sorted :
    (key : ℕ → ℕ) (id : ℕ) (xs : List ℕ) → Sorted key xs → Sorted key (insert_sorted key id xs)
unfolding insert_sorted
insert_sorted-Sorted key id [] h = (tt, tt)
insert_sorted-Sorted key id (x ∷ xs) h = elim (Bool-cases (leb (key id) (key x))) [
  | inl first ↦
      let le = leb→le (key id) (key x) first in rw first ((le, All-le key id x xs le h.0), h)
  | inr later ↦
      let ge : key x ≤ key id = ground (arith, later) in
      rw later (
        insert_sorted-All (λ y. key x ≤ key y) key id xs ge h.0,
        insert_sorted-Sorted key id xs h.1,
      )
]

sort_by-Sorted : (key : ℕ → ℕ) (xs : List ℕ) → Sorted key (sort_by key xs)
unfolding sort_by
sort_by-Sorted key [] = tt
sort_by-Sorted key (x ∷ xs) = insert_sorted-Sorted key x (sort_by key xs) (sort_by-Sorted key xs)

All-get_elem? : (P : ℕ → Type 0) (xs : List ℕ) (i x : ℕ) → All P xs → get_elem? xs i ≡ some x → P x
All-get_elem? P [] i x h e = absurd (ground arith)
All-get_elem? P (y ∷ xs) zero x h e = subst P (ground (arith, e)) h.0
All-get_elem? P (y ∷ xs) (suc i) x h e = All-get_elem? P xs i x h.1 e

Sorted-Ordered : (key : ℕ → ℕ) (xs : List ℕ) → Sorted key xs → Ordered key xs
Sorted-Ordered key [] h i j a b l e e' = absurd (ground (arith, e))
Sorted-Ordered key (x ∷ xs) h zero zero a b l e e' = ground (arith, ap key, e, e')
Sorted-Ordered key (x ∷ xs) h zero (suc j) a b l e e' =
    subst (λ c. key c ≤ key b) (ground (arith, e))
      (All-get_elem? (λ y. key x ≤ key y) xs j b h.0 e')
Sorted-Ordered key (x ∷ xs) h (suc i) zero a b l e e' = absurd (omega arith)
Sorted-Ordered key (x ∷ xs) h (suc i) (suc j) a b l e e' =
    Sorted-Ordered key xs h.1 i j a b (omega arith) e e'

count-insert_sorted :
    (key : ℕ → ℕ) (id j : ℕ) (xs : List ℕ) → count j (insert_sorted key id xs) ≡ count j (id ∷ xs)
unfolding insert_sorted
count-insert_sorted key id j [] = refl
count-insert_sorted key id j (x ∷ xs) = ground (arith, count-insert_sorted key id j xs)

count-sort_by : (key : ℕ → ℕ) (j : ℕ) (xs : List ℕ) → count j (sort_by key xs) ≡ count j xs
unfolding sort_by
count-sort_by key j [] = refl
count-sort_by key j (x ∷ xs) =
    ground (arith, count-insert_sorted key x j (sort_by key xs), count-sort_by key j xs)

-- In a table whose indexes fit its rows, a new index over the rows that are there fits them too.
pub add_index-IsTable :
    {T : Type 0} (unique : Bool) (accessor : T → ℕ) (t : TableCore T)
    → IsTable t
    → IsTable (add_index unique accessor t)
unfolding add_index new_index
add_index-IsTable unique accessor t h =
    let key = key_of t.rows accessor in
    let fits : IsIndex t.rows (new_index t.rows unique accessor) = record {
      each_once = λ id. count-sort_by key id (ids_of t.rows) ∙ h.each_id id;
      in_order =
          Sorted-Ordered key (sort_by key (ids_of t.rows)) (sort_by-Sorted key (ids_of t.rows));
    } in
    record {
      each_id = h.each_id;
      below = h.below;
      indexed =
          All-append (IsIndex t.rows) t.indexes (new_index t.rows unique accessor ∷ []) h.indexed
            (fits, tt);
    }
