-- ===== src/SandboxApi/Grants/Accepted.antt =====
-- What an accepted grant of src/sandbox_api/grants.py carries.
use mathlib.Core.Path.{subst}
use litellm_gateway.Prelude.{
  ℕ, ◌<◌, ◌≡◌, refl, ap, ◌∙◌, String, true, false, Option, none, some, arith,
}
use litellm_gateway.Prelude.Json.{
  ℤ, pos, negsuc, Json, null, bool, int, float, str, arr, obj, Fields, get,
}
use litellm_gateway.Prelude.Text.{split_dot}
use litellm_gateway.SandboxApi.Grants.{
  Signing, accepted, verify_grant, check_claims, check_times, check_payload, check_signature,
  check_parts, loaded, lez, as_integer, is_nonempty_str, Bytes,
}

-- The payload that a token carries, whether or not it is accepted.
pub payload_in : Signing → String → Option Json
payload_in s token = of_parts (split_dot token)
  where
    of_parts : Option (String × String) → Option Json
    of_parts none = none
    of_parts (some (encoded, supplied)) = loaded s (s.decode encoded)

-- What an acceptance at a time says of the payload.
pub record IsLive (current : ℕ) (payload : Fields) : Type 0 where
  pub expires_at : ℕ
  pub expires : as_integer (get "exp" payload) ≡ some (pos expires_at)
  pub early : current < expires_at
  pub named : is_nonempty_str (get "nonce" payload) ≡ true

lez-pos : (e : ℤ) (n : ℕ) → lez e (pos n) ≡ false → (m : ℕ) × (e ≡ pos m) × (n < m)
lez-pos (pos m) n h = (m, refl, ground arith)
lez-pos (negsuc m) n h = ground arith

check_claims-named :
    (audience : String) (operation : Option String) (payload q : Fields)
    → check_claims audience operation payload ≡ accepted q
    → (payload ≡ q) × (is_nonempty_str (get "nonce" payload) ≡ true)
unfolding check_claims
check_claims-named audience operation payload q h = (ground arith, ground arith)

check_times-IsLive :
    (audience : String) (operation : Option String) (current max_lifetime : ℕ) (payload q : Fields)
    (iat exp : Option ℤ)
    → as_integer (get "exp" payload) ≡ exp
    → check_times audience operation current max_lifetime payload iat exp ≡ accepted q
    → (payload ≡ q) × IsLive current payload
unfolding check_times
check_times-IsLive audience operation current max_lifetime payload q none exp e h = ground arith
check_times-IsLive audience operation current max_lifetime payload q (some i) none e h =
    ground arith
check_times-IsLive audience operation current max_lifetime payload q (some i) (some x) e h =
    let late : lez x (pos current) ≡ false = ground arith in
    let claims : check_claims audience operation payload ≡ accepted q = ground arith in
    let (same, named) = check_claims-named audience operation payload q claims in
    let (m, at_m, early) = lez-pos x current late in
    (same, record { expires_at = m; expires = e ∙ ap some at_m; early = early; named = named })

check_payload-IsLive :
    (audience : String) (operation : Option String) (current max_lifetime : ℕ) (v : Option Json)
    (q : Fields)
    → check_payload audience operation current max_lifetime v ≡ accepted q
    → (v ≡ some (obj q)) × IsLive current q
unfolding check_payload
check_payload-IsLive audience operation current max_lifetime (some (obj payload)) q h =
    let (same, live) =
      check_times-IsLive audience operation current max_lifetime payload q
        (as_integer (get "iat" payload)) (as_integer (get "exp" payload)) refl h in
    (ap (λ d. some (obj d)) same, subst (IsLive current) same live)
check_payload-IsLive audience operation current max_lifetime none q h = ground arith
check_payload-IsLive audience operation current max_lifetime (some null) q h = ground arith
check_payload-IsLive audience operation current max_lifetime (some (bool b)) q h = ground arith
check_payload-IsLive audience operation current max_lifetime (some (int n)) q h = ground arith
check_payload-IsLive audience operation current max_lifetime (some (float m e)) q h = ground arith
check_payload-IsLive audience operation current max_lifetime (some (str t)) q h = ground arith
check_payload-IsLive audience operation current max_lifetime (some (arr xs)) q h = ground arith

module _ (s : Signing) (secret audience : String) (operation : Option String)
    (current max_lifetime : ℕ) where
  signed-IsLive :
      (encoded : String) (signature : Option Bytes) (q : Fields)
      → check_signature s secret audience operation current max_lifetime encoded signature
        ≡ accepted q
      → (loaded s (s.decode encoded) ≡ some (obj q)) × IsLive current q
  unfolding check_signature
  signed-IsLive encoded none q h = ground arith
  signed-IsLive encoded (some signature) q h =
      check_payload-IsLive audience operation current max_lifetime (loaded s (s.decode encoded)) q
        (ground arith)

  parts-IsLive :
      (token : String) (parts : Option (String × String)) (q : Fields)
      → split_dot token ≡ parts
      → check_parts s secret audience operation current max_lifetime parts ≡ accepted q
      → (payload_in s token ≡ some (obj q)) × IsLive current q
  unfolding check_parts payload_in
  parts-IsLive token none q e h = ground arith
  parts-IsLive token (some (encoded, supplied)) q e h =
      let (same, live) = signed-IsLive encoded (s.decode supplied) q h in (rw e same, live)

  -- An accepted token carries its payload, and the payload is live.
  pub verify_grant-IsLive :
      (token : String) (q : Fields)
      → verify_grant s token secret audience operation current max_lifetime ≡ accepted q
      → (payload_in s token ≡ some (obj q)) × IsLive current q
  unfolding verify_grant
  verify_grant-IsLive token q h = parts-IsLive token (split_dot token) q refl (ground arith)
