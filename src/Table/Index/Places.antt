-- ===== src/Table/Index/Places.antt =====
-- crates/server/src/util/table/index_store.rs: places in a list of ids.
use minibot_rust.Base.{
  ℕ, zero, suc, ◌+◌, ◌-◌, ◌≤◌, ◌<◌, List, [], ◌∷◌, some, ◌==◌, ltb, if◌then◌else◌, ◌≡◌, length,
  get_elem?, take, drop, refl, sym, ap, ◌∙◌, arith, Bool-cases, ==_iff, inl, inr,
}
use minibot_rust.Table.{bind, insert_at, remove_at, position, slice}
use minibot_rust.Table.Index.{count, select}

pub put : ℕ → ℕ → List ℕ → List ℕ
put zero id xs = id ∷ xs
put (suc i) id [] = id ∷ []
put (suc i) id (x ∷ xs) = x ∷ put i id xs

pub cut : ℕ → List ℕ → List ℕ
cut i [] = []
cut zero (x ∷ xs) = xs
cut (suc i) (x ∷ xs) = x ∷ cut i xs

pub insert_at-put :
    (i id : ℕ) (xs : List ℕ) → i ≤ length xs → insert_at i id xs ≡ some (put i id xs)
unfolding insert_at put
insert_at-put zero id xs h = refl
insert_at-put (suc i) id [] h = absurd (omega arith)
insert_at-put (suc i) id (x ∷ xs) h = rw (insert_at-put i id xs (omega arith), bind) refl

pub remove_at-cut : (i : ℕ) (xs : List ℕ) → i < length xs → remove_at i xs ≡ some (cut i xs)
unfolding remove_at cut
remove_at-cut i [] h = absurd (omega arith)
remove_at-cut zero (x ∷ xs) h = refl
remove_at-cut (suc i) (x ∷ xs) h = rw (remove_at-cut i xs (omega arith), bind) refl

pub count-put :
    (x i id : ℕ) (xs : List ℕ)
    → count x (put i id xs) ≡ (if id == x then 1 + count x xs else count x xs)
unfolding put
count-put x zero id xs = refl
count-put x (suc i) id [] = refl
count-put x (suc i) id (y ∷ xs) = ground (arith, count-put x i id xs)

pub get_elem?-put :
    (i id j : ℕ) (xs : List ℕ)
    → i ≤ length xs
    → get_elem? (put i id xs) j
      ≡ (if ltb j i then get_elem? xs j else if j == i then some id else get_elem? xs (j - 1))
unfolding put
get_elem?-put zero id zero xs h = ground arith
get_elem?-put zero id (suc j) xs h = let q : suc j - 1 ≡ j = omega arith in rw q ground arith
get_elem?-put (suc i) id j [] h = absurd (omega arith)
get_elem?-put (suc i) id zero (x ∷ xs) h = ground arith
get_elem?-put (suc i) id (suc zero) (x ∷ xs) h = ground (arith, get_elem?-put i id zero xs)
get_elem?-put (suc i) id (suc (suc j)) (x ∷ xs) h =
    let q : suc (suc j) - 1 ≡ suc j = omega arith in
    let q' : suc j - 1 ≡ j = omega arith in
    let ih = get_elem?-put i id (suc j) xs (omega arith) in ground (arith, ih, ap (get_elem? xs) q')

pub count-cut :
    (x i id : ℕ) (xs : List ℕ)
    → get_elem? xs i ≡ some id
    → count x xs ≡ (if id == x then 1 + count x (cut i xs) else count x (cut i xs))
unfolding cut
count-cut x i id [] h = ground arith
count-cut x zero id (y ∷ xs) h = ground arith
count-cut x (suc i) id (y ∷ xs) h = ground (arith, count-cut x i id xs)

pub get_elem?-cut :
    (i j : ℕ) (xs : List ℕ)
    → get_elem? (cut i xs) j ≡ (if ltb j i then get_elem? xs j else get_elem? xs (suc j))
unfolding cut
get_elem?-cut i j [] = ground arith
get_elem?-cut zero j (x ∷ xs) = ground arith
get_elem?-cut (suc i) zero (x ∷ xs) = ground arith
get_elem?-cut (suc i) (suc j) (x ∷ xs) = ground (arith, get_elem?-cut i j xs)

pub position-there :
    (id : ℕ) (xs : List ℕ)
    → 0 < count id xs
    → (p : ℕ) × (position id xs ≡ some p) × (get_elem? xs p ≡ some id)
unfolding position
position-there id [] h = absurd (omega arith)
position-there id (x ∷ xs) h = elim (Bool-cases (x == id)) [
  | inl same ↦ (0, rw same refl, ap some ((==_iff x id).0 same))
  | inr other ↦
      let (p, found, at) = position-there id xs (ground (arith, h)) in
      let q : p + 1 ≡ suc p = omega arith in (p + 1, rw (other, found, bind) refl, rw q at)
]

pub count-select :
    (key : ℕ → ℕ) (id : ℕ) (xs : List ℕ) → count id (select key (key id) xs) ≡ count id xs
count-select key id [] = refl
count-select key id (x ∷ xs) = grind (arith, count-select key id xs)

get_elem?-take :
    (n p x : ℕ) (xs : List ℕ) → get_elem? (take n xs) p ≡ some x → get_elem? xs p ≡ some x
get_elem?-take zero p x xs h = ground arith
get_elem?-take (suc n) p x [] h = h
get_elem?-take (suc n) zero x (y ∷ xs) h = h
get_elem?-take (suc n) (suc p) x (y ∷ xs) h = get_elem?-take n p x xs h

get_elem?-drop : (n p : ℕ) (xs : List ℕ) → get_elem? (drop n xs) p ≡ get_elem? xs (n + p)
get_elem?-drop zero p xs = let q : 0 + p ≡ p = omega arith in rw q refl
get_elem?-drop (suc n) p [] = refl
get_elem?-drop (suc n) p (x ∷ xs) =
    let q : suc n + p ≡ suc (n + p) = omega arith in rw q (get_elem?-drop n p xs)

pub get_elem?-slice :
    (s e p x : ℕ) (xs : List ℕ)
    → get_elem? (slice (s, e) xs) p ≡ some x
    → get_elem? xs (s + p) ≡ some x
get_elem?-slice s e p x xs h =
    sym (get_elem?-drop s p xs) ∙ get_elem?-take (e - s) p x (drop s xs) h

pub take-bound : (n p x : ℕ) (xs : List ℕ) → get_elem? (take n xs) p ≡ some x → p < n
take-bound zero p x xs h = ground arith
take-bound (suc n) p x [] h = ground arith
take-bound (suc n) zero x (y ∷ xs) h = omega arith
take-bound (suc n) (suc p) x (y ∷ xs) h = omega (arith, take-bound n p x xs h)
