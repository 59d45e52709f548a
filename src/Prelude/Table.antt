-- ===== src/Prelude/Table.antt =====
-- Tables of rows that a text selects: what the SQL statements of the program do to them.
use litellm_gateway.Prelude.Tests.{if◌then◌else◌, Bool-cases, is_some}
use litellm_gateway.Prelude.Lists.{keep}
use Prim.Native.Nat.{ℕ, suc}
use Prim.Native.String.{String}
use mathlib.Core.Path.{◌≡◌, refl}
use mathlib.Core.Logic.{inl, inr}
use mathlib.Core.Bool.{Bool, true, false, not}
use mathlib.Core.List.{List, [], ◌∷◌, ◌++◌, map}
use mathlib.Core.Option.{Option, none, some}
use mathlib.Core.Option
use native.Mathlib.Omega.{arith}
use text.Mathlib.Text.{◌==◌}
use text.Mathlib.TextEquality.{eq_iff}

module _ {ℓ} {A : Type ℓ} where
  -- SELECT * … WHERE key = k, fetchone()
  unfoldable pub find_by : (A → String) → String → List A → Option A
  find_by key k [] = none
  find_by key k (x ∷ xs) = if key x == k then some x else find_by key k xs

  -- UPDATE … SET … WHERE p
  unfoldable pub update_where : (A → Bool) → (A → A) → List A → List A
  update_where p f = map (λ x. if p x then f x else x)

  -- rowcount of an UPDATE
  unfoldable pub count_where : (A → Bool) → List A → ℕ
  count_where p [] = 0
  count_where p (x ∷ xs) = if p x then suc (count_where p xs) else count_where p xs

  -- DELETE … WHERE p
  unfoldable pub delete_where : (A → Bool) → List A → List A
  delete_where p = keep (λ x. not (p x))

  -- SELECT 1 … WHERE p
  unfoldable pub any_where : (A → Bool) → List A → Bool
  any_where p [] = false
  any_where p (x ∷ xs) = if p x then true else any_where p xs

  pub find_by-key :
      (key : A → String) (k : String) (xs : List A) {x : A} → find_by key k xs ≡ some x → key x ≡ k
  unfolding find_by
  find_by-key key k [] h = cc
  find_by-key key k (y ∷ xs) {x} h = elim (Bool-cases (key y == k)) [
    | inl e ↦ ground (arith, eq_iff (key y) k)
    | inr e ↦ find_by-key key k xs (ground arith)
  ]

  pub find_by-append :
      (key : A → String) (k : String) (xs : List A) (y : A)
      → find_by key k (xs ++ y ∷ []) ≡ (
          if is_some (find_by key k xs)
          then find_by key k xs
          else (if key y == k then some y else none))
  unfolding find_by
  find_by-append key k [] y = refl
  find_by-append key k (x ∷ xs) y = ground (arith, find_by-append key k xs y)

  pub find_by-update_where :
      (key : A → String) (k : String) (p : A → Bool) (f : A → A) (xs : List A)
      → ((x : A) → key (f x) ≡ key x)
      → find_by key k (update_where p f xs)
        ≡ Option.map (λ x. if p x then f x else x) (find_by key k xs)
  unfolding find_by update_where
  find_by-update_where key k p f [] h = refl
  find_by-update_where key k p f (x ∷ xs) h =
      ground (arith, h x, find_by-update_where key k p f xs h)

  pub find_by-delete_key :
      (key : A → String) (j k : String) (xs : List A)
      → find_by key k (delete_where (λ x. key x == j) xs)
        ≡ (if j == k then none else find_by key k xs)
  unfolding find_by delete_where
  find_by-delete_key key j k [] = ground arith
  find_by-delete_key key j k (x ∷ xs) =
      ground (arith, eq_iff (key x) j, eq_iff (key x) k, eq_iff j k, find_by-delete_key key j k xs)
