-- ===== src/SandboxApi/Grants.antt =====
-- src/sandbox_api/grants.py: signed grants.
--
-- The digest, base64 and json.dumps and json.loads are the fields of `Signing`: `encode` and `decode`
-- are _encode and _decode (`none` is a ValueError), and bytes are lists of numbers.
pub mod Accepted
pub mod RoundTrip
use Prim.Native.String.{count}
use litellm_gateway.Prelude.{
  ℕ, zero, suc, ◌+◌, String, Bool, true, false, not, ◌&&◌, ◌||◌, Option, none, some, List, [], ◌∷◌,
  ◌++◌, ◌==◌, if◌then◌else◌, ltb, nat_eq,
}
use litellm_gateway.Prelude.Json.{
  ℤ, pos, negsuc, ◌+ℤ◌, ltz, Json, bool, int, str, obj, Fields, end, field, get, set,
}
use litellm_gateway.Prelude.Text.{concat, split_dot}

abbrev pub Bytes : Type 0
Bytes = List ℕ

pub record Signing : Type 0 where
  pub digest : String → String → Bytes
  pub encode : Bytes → String
  pub decode : String → Option Bytes
  pub dumps : Json → Bytes
  pub loads : Bytes → Option Json

-- The messages of GrantError.
pub data GrantError : Type 0 where
  invalid_grant invalid_signature invalid_payload : GrantError
  timestamps_required not_active lifetime_invalid : GrantError
  wrong_audience wrong_operation identity_invalid : GrantError

pub data Verified : Type 0 where
  accepted : Fields → Verified
  refused : GrantError → Verified

-- {**base, **claims}
unfoldable pub merge : Fields → Fields → Fields
merge base end = base
merge base (field k v d) = merge (set k v base) d

unfoldable pub payload_of : String → String → String → ℤ → ℤ → String → Fields → Fields
unfolding merge
payload_of issuer audience operation issued_at expires_in nonce claims =
    merge
      (field "iss" (str issuer) (
        field "aud" (str audience) (
          field "operation" (str operation) (
            field "iat" (int issued_at)
              (field "exp" (int (issued_at +ℤ expires_in)) (field "nonce" (str nonce) end))))))
      claims

abbrev negated : ℤ → ℤ
negated (pos zero) = pos 0
negated (pos (suc n)) = negsuc n
negated (negsuc n) = pos (suc n)

infixl 20 ◌-ℤ◌
abbrev pub ◌-ℤ◌ : ℤ → ℤ → ℤ
a -ℤ b = a +ℤ negated b

abbrev pub lez : ℤ → ℤ → Bool
lez a b = not (ltz b a)

-- isinstance(value, int): a bool is one.
abbrev pub as_integer : Json → Option ℤ
as_integer (int n) = some n
as_integer (bool true) = some (pos 1)
as_integer (bool false) = some (pos 0)
as_integer _ = none

-- value == text
abbrev pub is_text : String → Json → Bool
is_text t (str s) = s == t
is_text t _ = false

abbrev is_str : Json → Bool
is_str (str s) = true
is_str _ = false

abbrev is_nonempty_str : Json → Bool
is_nonempty_str (str s) = not (s == "")
is_nonempty_str _ = false

abbrev wrong_for : Option String → Json → Bool
wrong_for none v = false
wrong_for (some operation) v = not (is_text operation v)

check_claims : String → Option String → Fields → Verified
check_claims audience operation payload =
    if not (is_text audience (get "aud" payload))
    then refused wrong_audience
    else (if wrong_for operation (get "operation" payload)
        then refused wrong_operation
        else (if not (is_str (get "iss" payload)) || not (is_nonempty_str (get "nonce" payload))
            then refused identity_invalid
            else accepted payload))

check_times : String → Option String → ℕ → ℕ → Fields → Option ℤ → Option ℤ → Verified
unfolding check_claims
check_times audience operation current max_lifetime payload (some issued_at) (some expires_at) =
    if ltz (pos (current + 30)) issued_at || lez expires_at (pos current)
    then refused not_active
    else (if lez (expires_at -ℤ issued_at) (pos 0)
          || ltz (pos max_lifetime) (expires_at -ℤ issued_at)
        then refused lifetime_invalid
        else check_claims audience operation payload)
check_times audience operation current max_lifetime payload _ _ = refused timestamps_required

check_payload : String → Option String → ℕ → ℕ → Option Json → Verified
unfolding check_times
check_payload audience operation current max_lifetime (some (obj payload)) =
    check_times audience operation current max_lifetime payload (as_integer (get "iat" payload))
      (as_integer (get "exp" payload))
check_payload audience operation current max_lifetime _ = refused invalid_payload

-- hmac.compare_digest
unfoldable pub same_bytes : Bytes → Bytes → Bool
same_bytes [] [] = true
same_bytes [] (y ∷ ys) = false
same_bytes (x ∷ xs) [] = false
same_bytes (x ∷ xs) (y ∷ ys) = nat_eq x y && same_bytes xs ys

module _ (s : Signing) where
  unfoldable pub issue_grant : String → String → String → String → ℤ → ℤ → String → Fields → String
  unfolding payload_of
  issue_grant secret issuer audience operation issued_at expires_in nonce claims =
      let encoded =
        s.encode (
          s.dumps (obj (payload_of issuer audience operation issued_at expires_in nonce claims))) in
      concat encoded (concat "." (s.encode (s.digest secret encoded)))

  abbrev loaded : Option Bytes → Option Json
  loaded none = none
  loaded (some bytes) = s.loads bytes

  check_signature : String → String → Option String → ℕ → ℕ → String → Option Bytes → Verified
  unfolding same_bytes check_payload
  check_signature secret audience operation current max_lifetime encoded none =
      refused invalid_grant
  check_signature secret audience operation current max_lifetime encoded (some signature) =
      if same_bytes signature (s.digest secret encoded)
      then check_payload audience operation current max_lifetime (loaded (s.decode encoded))
      else refused invalid_signature

  check_parts : String → String → Option String → ℕ → ℕ → Option (String × String) → Verified
  unfolding check_signature
  check_parts secret audience operation current max_lifetime none = refused invalid_grant
  check_parts secret audience operation current max_lifetime (some (encoded, supplied)) =
      check_signature secret audience operation current max_lifetime encoded (s.decode supplied)

  unfoldable pub verify_grant : String → String → String → Option String → ℕ → ℕ → Verified
  unfolding check_parts split_dot
  verify_grant token secret audience operation current max_lifetime =
      if token == "" || ltb 65536 (count token)
      then refused invalid_grant
      else check_parts secret audience operation current max_lifetime (split_dot token)
