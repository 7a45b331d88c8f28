-- ===== src/Base/Results.antt =====
-- What a call gives: a value, an `Err`, a panic, or a loop that used up its fuel.
use minibot_rust.Base.Tests.{if◌then◌else◌}
use minibot_rust.Base.Lists.{Bytes, Lacks}
use Prim.Native.Nat.{ℕ}
use mathlib.Core.Path.{◌≡◌, refl}
use mathlib.Core.Bool.{Bool, true, false}
use mathlib.Core.Option.{Option, none, some}

pub data Outcome {ℓ} (E : Type 0) (A : Type ℓ) : Type ℓ where
  ok : A → Outcome E A
  err : E → Outcome E A
  panic : Outcome E A
  out_of_fuel : Outcome E A

module _ {ℓ κ} {E : Type 0} {A : Type ℓ} {B : Type κ} where
  infixl 5 ◌>>=◌
  -- The `?` operator.
  abbrev pub ◌>>=◌ : Outcome E A → (A → Outcome E B) → Outcome E B
  ok a >>= f = f a
  err e >>= f = err e
  panic >>= f = panic
  out_of_fuel >>= f = out_of_fuel

  pub bind-eq-ok :
      (m : Outcome E A) (f : A → Outcome E B) {b : B}
      → (m >>= f) ≡ ok b
      → (a : A) × (m ≡ ok a) × (f a ≡ ok b)
  bind-eq-ok (ok a) f h = (a, refl, h)
  bind-eq-ok (err e) f h = cc
  bind-eq-ok panic f h = cc
  bind-eq-ok out_of_fuel f h = cc

module _ {κ} {E : Type 0} {B : Type κ} where
  infixl 5 ◌>>◌
  abbrev pub ◌>>◌ : Outcome E (Unit {0}) → Outcome E B → Outcome E B
  m >> k = m >>= λ _. k

module _ {E : Type 0} where
  -- `ensure!(test, error)`.
  abbrev pub ensure : Bool → E → Outcome E (Unit {0})
  ensure true e = ok tt
  ensure false e = err e

  -- `assert!(test)`.
  abbrev pub assert : Bool → Outcome E (Unit {0})
  assert true = ok tt
  assert false = panic

  -- `unwrap()`.
  abbrev pub unwrap {ℓ} : {A : Type ℓ} → Option A → Outcome E A
  unwrap (some a) = ok a
  unwrap none = panic

  -- `ok_or(error)`.
  abbrev pub ok_or {ℓ} : {A : Type ℓ} → Option A → E → Outcome E A
  ok_or (some a) e = ok a
  ok_or none e = err e

-- What is written, if anything is, is free of the byte `b`.
abbrev pub OkLacks : {E : Type 0} → ℕ → Outcome E Bytes → Type 0
OkLacks b (ok w) = Lacks b w
OkLacks b _ = Unit

-- The call comes to an end: no loop in it runs out of fuel.
abbrev pub Ends {ℓ} : {E : Type 0} {A : Type ℓ} → Outcome E A → Type 0
Ends out_of_fuel = ⊥
Ends _ = Unit

pub bind-Ends {ℓ κ} :
    {E : Type 0} {A : Type ℓ} {B : Type κ} (m : Outcome E A) (f : A → Outcome E B)
    → Ends m
    → ((a : A) → Ends (f a))
    → Ends (m >>= f)
bind-Ends (ok a) f h k = k a
bind-Ends (err e) f h k = tt
bind-Ends panic f h k = tt
bind-Ends out_of_fuel f h k = h

pub if-Ends {ℓ} :
    {E : Type 0} {A : Type ℓ} (b : Bool) (m n : Outcome E A)
    → Ends m
    → Ends n
    → Ends (if b then m else n)
if-Ends true m n h k = h
if-Ends false m n h k = k

pub ensure-Ends : {E : Type 0} (b : Bool) (e : E) → Ends (ensure b e)
ensure-Ends true e = tt
ensure-Ends false e = tt

pub ok_or-Ends {ℓ} : {E : Type 0} {A : Type ℓ} (o : Option A) (e : E) → Ends (ok_or o e)
ok_or-Ends (some a) e = tt
ok_or-Ends none e = tt
