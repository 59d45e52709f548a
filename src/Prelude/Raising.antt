-- ===== src/Prelude/Raising.antt =====
-- A method that changes an object: it returns a value or raises (`none`), and leaves the object in a
-- new state either way.
use mathlib.Core.Option.{Option, none, some}
use mathlib.Core.Bool.{Bool, true, false}

abbrev pub Method : Type 0 → Type 0 → Type 0
Method S A = S → Option A × S

module _ {S : Type 0} where
  abbrev pub continue : {A B : Type 0} → Option A → (A → Method S B) → Method S B
  continue none f s = (none, s)
  continue (some a) f s = f a s

  infixl 5 ◌>>=◌
  abbrev pub ◌>>=◌ : {A B : Type 0} → Method S A → (A → Method S B) → Method S B
  ◌>>=◌ m f s = continue (m s).0 f (m s).1

  infixl 5 ◌>>◌
  abbrev pub ◌>>◌ : {A : Type 0} → Method S (Unit {0}) → Method S A → Method S A
  ◌>>◌ m f s = continue (m s).0 (λ _. f) (m s).1

  abbrev pub pure : {A : Type 0} → A → Method S A
  pure a s = (some a, s)

  abbrev pub raise : {A : Type 0} → Method S A
  raise s = (none, s)

  abbrev pub gets : {A : Type 0} → (S → A) → Method S A
  gets f s = (some (f s), s)

  abbrev pub modify : (S → S) → Method S (Unit {0})
  modify f s = (some tt, f s)

  -- if b: m
  abbrev pub when : Bool → Method S (Unit {0}) → Method S (Unit {0})
  when true m s = m s
  when false m s = (some tt, s)
