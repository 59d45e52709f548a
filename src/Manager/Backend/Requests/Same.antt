-- ===== src/Manager/Backend/Requests/Same.antt =====
-- Python's == on the inputs of operations: dicts are equal whatever the order of their keys is, and a
-- bool is a number. The inputs hold no number with a point.
use litellm_gateway.Prelude.{String, Bool, true, false, ◌&&◌, ◌||◌, Option, some, ◌==◌, nat_eq}
use litellm_gateway.Prelude.Json.{
  ℤ, pos, negsuc, Json, null, bool, int, float, str, arr, obj, Items, nil, cons, Fields, end, field,
  get, is_null,
}
use litellm_gateway.SandboxApi.Grants.{as_integer}

abbrev same_integer : ℤ → ℤ → Bool
same_integer (pos m) (pos n) = nat_eq m n
same_integer (negsuc m) (negsuc n) = nat_eq m n
same_integer _ _ = false

abbrev same_number : Option ℤ → Option ℤ → Bool
same_number (some m) (some n) = same_integer m n
same_number _ _ = false

unfoldable pub has_key : String → Fields → Bool
has_key k end = false
has_key k (field l v d) = l == k || has_key k d

-- Is every key of the second dict in the first?
unfoldable pub has_keys : Fields → Fields → Bool
has_keys d end = true
has_keys d (field l v e) = has_key l d && has_keys d e

unfoldable mutual
  pub same_json : Json → Json → Bool
  same_json null v = is_null v
  same_json (bool b) v = same_number (as_integer (bool b)) (as_integer v)
  same_json (int n) v = same_number (some n) (as_integer v)
  same_json (float m e) (float n f) = same_integer m n && same_integer e f
  same_json (str s) (str t) = s == t
  same_json (arr xs) (arr ys) = same_items xs ys
  same_json (obj d) (obj e) = same_fields d e && has_keys d e
  same_json _ _ = false

  pub same_items : Items → Items → Bool
  same_items nil nil = true
  same_items (cons x xs) (cons y ys) = same_json x y && same_items xs ys
  same_items _ _ = false

  -- Has the second dict every key of the first, with the same value?
  pub same_fields : Fields → Fields → Bool
  same_fields end e = true
  same_fields (field k v d) e = has_key k e && same_json v (get k e) && same_fields d e
