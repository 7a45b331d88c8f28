-- ===== src/Table/Search.antt =====
-- crates/server/src/util/table/index_store.rs: the search of `find_range`.
mod Steps
use minibot_rust.Base.{
  ℕ, zero, suc, ◌+◌, ◌-◌, ◌/◌, ◌≤◌, ◌<◌, some, ◌≡◌, ◌≢◌, ◌⊎◌, inl, inr, refl, sym, ap, ◌∙◌, arith,
}
use minibot_rust.Table.{
  Finder, Found, found, absent, bind, settle, halve, binary_search, widen_down, widen_up, range_of,
  search_range,
}
use minibot_rust.Table.Search.Steps.{
  order-cases, settle-less, settle-same, settle-more, halve-one, halve-left, halve-right,
  widen_down-same, widen_down-other, widen_up-same, widen_up-other,
}

-- A range that cuts ordered keys: smaller keys before it, the key inside, greater keys behind.
abbrev pub Cut : (ℕ → ℕ) → ℕ → ℕ → ℕ → ℕ → Type 0
Cut g k n s e =
    (s ≤ e)
    × (e ≤ n)
    × ((i : ℕ) → i < s → g i < k)
    × ((i : ℕ) → s ≤ i → i < e → g i ≡ k)
    × ((i : ℕ) → e ≤ i → i < n → k < g i)

module _ (f : Finder) (g : ℕ → ℕ) (k n : ℕ) (keys : (i : ℕ) → i < n → f i ≡ some (g i))
    (ordered : (i j : ℕ) → i ≤ j → j < n → g i ≤ g j) where
  abbrev Lands : Found → Type 0
  Lands (found i) = (i < n) × (g i ≡ k)
  Lands (absent i) = Cut g k n i i

  settle-Lands :
      (base : ℕ)
      → base < n
      → (base ≡ 0) ⊎ (g base ≤ k)
      → ((i : ℕ) → base + 1 ≤ i → i < n → k < g i)
      → (r : Found) × (settle f k base ≡ some r) × Lands r
  unfolding settle
  settle-Lands base b low high = elim (order-cases (g base) k) [
    | inl less ↦ (
      absent (base + 1),
      settle-less f k base (g base) (keys base b) less,
      (
        omega arith,
        omega arith,
        λ i h. omega (arith, ordered i base (omega arith) b),
        λ i h l. absurd (omega arith),
        high,
      ),
    )
    | inr (inl same) ↦ (found base, settle-same f k base (keys base b ∙ ap some same), (b, same))
    | inr (inr more) ↦
        let zero_base : base ≡ 0 = omega arith in
        (
          absent base,
          settle-more f k base (g base) (keys base b) more,
          (
            omega arith,
            omega arith,
            λ i h. absurd (omega arith),
            λ i h l. absurd (omega arith),
            λ i h l. omega (arith, ordered base i h l),
          ),
        )
  ]

  halve-Lands :
      (fuel base size : ℕ)
      → size ≤ fuel
      → 0 < size
      → base + size ≤ n
      → (base ≡ 0) ⊎ (g base ≤ k)
      → ((i : ℕ) → base + size ≤ i → i < n → k < g i)
      → (r : Found) × (halve fuel f k base size ≡ some r) × Lands r
  halve-Lands zero base size enough p inside low high = absurd (omega arith)
  halve-Lands (suc fuel) base size enough p inside low high = elim (order-cases size 1) [
    | inl less ↦ absurd (omega arith)
    | inr (inl one) ↦
        rw (halve-one fuel f k base size (omega arith))
          (settle-Lands base (omega arith) low (λ i h l. high i (omega arith) l))
    | inr (inr many) ↦
        let mid = base + size / 2 in
        let within : mid < n = omega arith in
        let at = keys mid within in
        let go_left =
          halve-Lands fuel base (size - size / 2) (omega arith) (omega arith) (omega arith) low in
        let go_right =
          halve-Lands fuel mid (size - size / 2) (omega arith) (omega arith) (omega arith) in
        elim (order-cases k (g mid)) [
          | inl less ↦
              rw (halve-left fuel f k base size (g mid) many at less)
                (go_left (λ i h l. omega (arith, ordered mid i (omega arith) l)))
          | inr not_less ↦
              let low' : g mid ≤ k = omega arith in
              rw (halve-right fuel f k base size (g mid) many at low')
                (go_right (inr low') (λ i h l. high i (omega arith) l))
        ]
  ]

  binary_search-Lands : (r : Found) × (binary_search f k n ≡ some r) × Lands r
  unfolding binary_search
  binary_search-Lands = elim (order-cases n 0) [
    | inl less ↦ absurd (omega arith)
    | inr (inl none_there) ↦ (
      absent 0,
      ground arith,
      (
        omega arith,
        omega arith,
        λ i h. absurd (omega arith),
        λ i h l. absurd (omega arith),
        λ i h l. absurd (omega arith),
      ),
    )
    | inr (inr some_there) ↦
        let (r, e, lands) =
          halve-Lands n 0 n (omega arith) some_there (omega arith) (inl refl)
            (λ i h l. absurd (omega arith)) in
        (r, ground (arith, e), lands)
  ]

  widen_down-start :
      (i : ℕ)
      → i ≤ n
      → ((j : ℕ) → j < i → g j ≤ k)
      → (s : ℕ) × (widen_down f k i ≡ some s)
        × (s ≤ i)
        × ((j : ℕ) → j < s → g j < k)
        × ((j : ℕ) → s ≤ j → j < i → g j ≡ k)
  widen_down-start zero b h = (
    0,
    unfold widen_down in refl,
    omega arith,
    λ j l. absurd (omega arith),
    λ j a l. absurd (omega arith),
  )
  widen_down-start (suc i) b h =
      let (s, e, s_le, below, inside) =
        widen_down-start i (omega arith) (λ j l. h j (omega arith)) in
      let at = keys i (omega arith) in
      elim (order-cases (g i) k) [
        | inr (inl same) ↦ (
          s,
          widen_down-same f k i (at ∙ ap some same) ∙ e,
          omega arith,
          below,
          λ j a l. elim (order-cases j i) [
            | inl less ↦ inside j a less
            | inr (inl last) ↦ ap g last ∙ same
            | inr (inr more) ↦ absurd (omega arith)
          ],
        )
        | inl less ↦ (
          suc i,
          widen_down-other f k i (g i) at (omega arith),
          omega arith,
          λ j l. omega (arith, ordered j i (omega arith) (omega arith)),
          λ j a l. absurd (omega arith),
        )
        | inr (inr more) ↦ absurd (omega (arith, h i (omega arith)))
      ]

  widen_up-end :
      (left e : ℕ)
      → e + left ≡ n
      → ((j : ℕ) → e ≤ j → j < n → k ≤ g j)
      → (x : ℕ) × (widen_up left f k e ≡ some x)
        × (e ≤ x)
        × (x ≤ n)
        × ((j : ℕ) → e ≤ j → j < x → g j ≡ k)
        × ((j : ℕ) → x ≤ j → j < n → k < g j)
  widen_up-end zero e b h = (
    e,
    unfold widen_up in refl,
    omega arith,
    omega arith,
    λ j a l. absurd (omega arith),
    λ j a l. absurd (omega arith),
  )
  widen_up-end (suc left) e b h =
      let (x, eq, e_le, x_le, inside, above) =
        widen_up-end left (e + 1) (omega arith) (λ j a l. h j (omega arith) l) in
      let at = keys e (omega arith) in
      elim (order-cases (g e) k) [
        | inr (inl same) ↦ (
          x,
          widen_up-same f k left e (at ∙ ap some same) ∙ eq,
          omega arith,
          x_le,
          λ j a l. elim (order-cases e j) [
            | inl less ↦ inside j (omega arith) l
            | inr (inl first) ↦ ap g (sym first) ∙ same
            | inr (inr more) ↦ absurd (omega arith)
          ],
          above,
        )
        | inl less ↦ absurd (omega (arith, h e (omega arith) (omega arith)))
        | inr (inr more) ↦ (
          e,
          widen_up-other f k left e (g e) at (omega arith),
          omega arith,
          omega arith,
          λ j a l. absurd (omega arith),
          λ j a l. omega (arith, ordered e j a l),
        )
      ]

  range_of-Cut :
      (r : Found) → Lands r → (s e : ℕ) × (range_of f k n r ≡ some (s, e)) × Cut g k n s e
  unfolding range_of
  range_of-Cut (absent i) lands = (i, i, refl, lands)
  range_of-Cut (found i) (b, same) =
      let (s, down, s_le, below, inside) =
        widen_down-start i (omega arith) (λ j l. omega (arith, ordered j i (omega arith) b)) in
      let (e, up, e_le, e_n, inside', above) =
        widen_up-end (n - (i + 1)) (i + 1) (omega arith)
          (λ j a l. omega (arith, ordered i j (omega arith) l)) in
      (
        s,
        e,
        rw (down, up, bind),
        (
          omega arith,
          e_n,
          below,
          λ j a l. elim (order-cases j i) [
            | inl less ↦ inside j a less
            | inr (inl here) ↦ ap g here ∙ same
            | inr (inr more) ↦ inside' j (omega arith) l
          ],
          above,
        ),
      )

  -- The search ends, without a panic, in the range that cuts the keys.
  pub search_range-Cut : (s e : ℕ) × (search_range f k n ≡ some (s, e)) × Cut g k n s e
  unfolding search_range
  search_range-Cut =
      let (r, e, lands) = binary_search-Lands in
      let (s, t, found_it, cut) = range_of-Cut r lands in (s, t, rw (e, bind) found_it, cut)
