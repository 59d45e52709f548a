-- ===== src/Prelude/Json.antt =====
-- Values of Python's json module, and what the program does with them. A dict keeps the order in which
-- its keys were inserted.
use Prim.Native.Nat.{ℕ, zero, suc, ◌+◌, ◌-◌}
use Prim.Native.String.{String}
use mathlib.Core.Bool.{Bool, true, false}
use mathlib.Core.Option.{Option, none, some}
use mathlib.Core.List.{List, [], ◌∷◌}
use text.Mathlib.Text.{◌==◌}
use litellm_gateway.Prelude.Tests.{if◌then◌else◌, ltb}

-- `negsuc n` is -(n + 1).
pub data ℤ : Type 0 where
  pos : ℕ → ℤ
  negsuc : ℕ → ℤ

abbrev pub sub_nat : ℕ → ℕ → ℤ
sub_nat m n = if ltb m n then negsuc (n - m - 1) else pos (m - n)

infixl 20 ◌+ℤ◌
abbrev pub ◌+ℤ◌ : ℤ → ℤ → ℤ
pos m +ℤ pos n = pos (m + n)
pos m +ℤ negsuc n = sub_nat m (suc n)
negsuc m +ℤ pos n = sub_nat n (suc m)
negsuc m +ℤ negsuc n = negsuc (suc (m + n))

abbrev pub ltz : ℤ → ℤ → Bool
ltz (pos m) (pos n) = ltb m n
ltz (pos m) (negsuc n) = false
ltz (negsuc m) (pos n) = true
ltz (negsuc m) (negsuc n) = ltb n m

-- `float m e` is a number that is written with a point or an exponent: m times ten to the e.
mutual
  pub data Json : Type 0 where
    null : Json
    bool : Bool → Json
    int : ℤ → Json
    float : ℤ → ℤ → Json
    str : String → Json
    arr : Items → Json
    obj : Fields → Json

  pub data Items : Type 0 where
    nil : Items
    cons : Json → Items → Items

  pub data Fields : Type 0 where
    end : Fields
    field : String → Json → Fields → Fields

-- d.get(key): `None`, which is also null, where the key is missing.
unfoldable pub get : String → Fields → Json
get k end = null
get k (field l v d) = if l == k then v else get k d

-- d[key] = value
unfoldable pub set : String → Json → Fields → Fields
set k v end = field k v end
set k v (field l w d) = let rest = set k v d in if l == k then field l v d else field l w rest

-- {k: v, …} by pairs.
unfoldable pub dict : List (String × Json) → Fields
unfolding set
dict [] = end
dict ((k, v) ∷ kvs) = field k v (dict kvs)

unfoldable pub array : List Json → Items
array [] = nil
array (x ∷ xs) = cons x (array xs)

unfoldable pub items : Items → List Json
items nil = []
items (cons x xs) = x ∷ items xs

-- `None` for a value that may be missing.
abbrev pub or_null : Option String → Json
or_null none = null
or_null (some s) = str s

abbrev pub is_null : Json → Bool
is_null null = true
is_null _ = false

-- isinstance(value, dict)
abbrev pub as_dict : Json → Option Fields
as_dict (obj d) = some d
as_dict _ = none

abbrev pub as_list : Json → Option Items
as_list (arr xs) = some xs
as_list _ = none

abbrev pub as_str : Json → Option String
as_str (str s) = some s
as_str _ = none

abbrev pub is_zero : ℤ → Bool
is_zero (pos zero) = true
is_zero _ = false

-- bool(value)
abbrev pub is_truthy : Json → Bool
is_truthy null = false
is_truthy (bool b) = b
is_truthy (int (pos zero)) = false
is_truthy (int _) = true
is_truthy (float (pos zero) e) = false
is_truthy (float _ e) = true
is_truthy (str s) = if s == "" then false else true
is_truthy (arr nil) = false
is_truthy (arr (cons x xs)) = true
is_truthy (obj end) = false
is_truthy (obj (field k v d)) = true

-- value or other
abbrev pub or_else : Json → Json → Json
or_else a b = if is_truthy a then a else b

-- value is True
abbrev pub is_true : Json → Bool
is_true (bool b) = b
is_true _ = false
