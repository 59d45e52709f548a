-- ===== src/SandboxApi/Grants/RoundTrip.antt =====
-- A grant that `issue_grant` of src/sandbox_api/grants.py makes, at `verify_grant`.
use Prim.Native.String.{count}
use litellm_gateway.Prelude.{
  ℕ, zero, suc, ◌+◌, ◌≤◌, ◌<◌, ◌≡◌, refl, ap, ◌∙◌, String, Bool, true, false, ◌||◌, some, [], ◌∷◌,
  ◌==◌, Bool-cases, inl, inr, eq_iff, eq_refl, arith, ltb,
}
use litellm_gateway.Prelude.Json.{pos, Json, int, str, obj, Fields, end, field, get, set}
use litellm_gateway.Prelude.Text.{split_dot, has_char}
use litellm_gateway.Prelude.Split.{split_dot-concat}
use litellm_gateway.SandboxApi.Grants.{
  Signing, accepted, verify_grant, issue_grant, payload_of, merge, check_claims, check_times,
  check_payload, check_signature, check_parts, loaded, same_bytes, Bytes, ◌-ℤ◌,
}

abbrev pub is_reserved : String → Bool
is_reserved k =
    k == "iss" || k == "aud" || k == "operation" || k == "iat" || k == "exp" || k == "nonce"

-- Claims that name none of the grant's own fields.
abbrev pub AreOther : Fields → Type 0
AreOther end = Unit
AreOther (field k v d) = (is_reserved k ≡ false) × AreOther d

get-set_other :
    (l k : String) (v : Json) (d : Fields) → (k == l) ≡ false → get l (set k v d) ≡ get l d
unfolding get set
get-set_other l k v end h = ground (arith, h)
get-set_other l k v (field j w d) h =
    ground (arith, get-set_other l k v d h, eq_iff j k, eq_iff j l, eq_iff k l)

get-merge :
    (l : String) (base claims : Fields)
    → is_reserved l ≡ true
    → AreOther claims
    → get l (merge base claims) ≡ get l base
unfolding merge
get-merge l base end r h = refl
get-merge l base (field k v claims) r h =
    get-merge l (set k v base) claims r h.1 ∙ get-set_other l k v base (ground (arith, eq_iff k l))

same_bytes_refl : (bytes : Bytes) → same_bytes bytes bytes ≡ true
unfolding same_bytes
same_bytes_refl [] = refl
same_bytes_refl (x ∷ bytes) = ground (arith, same_bytes_refl bytes)

-- What the encodings promise: a text without a full stop that decodes to its bytes, and a JSON text of
-- the payload that reads back as a dict with the same values (json.dumps sorts the keys).
pub record IsFaithful (s : Signing) (payload : Fields) : Type 0 where
  pub without_dot : (bytes : Bytes) → has_char 46 (s.encode bytes) ≡ false
  pub decoded : (bytes : Bytes) → s.decode (s.encode bytes) ≡ some bytes
  pub sorted : Fields
  pub read_back : s.loads (s.dumps (obj payload)) ≡ some (obj sorted)
  pub same_values : (k : String) → get k sorted ≡ get k payload

minus_lem : (n m : ℕ) → (pos (n + m) -ℤ pos n) ≡ pos m
minus_lem zero m = ap pos (omega arith)
minus_lem (suc n) m = ground arith

module _ (audience operation : String) (current max_lifetime issued_at lifetime : ℕ) where
  claims_lem :
      (q : Fields) (issuer nonce : String)
      → get "aud" q ≡ str audience
      → get "operation" q ≡ str operation
      → get "iss" q ≡ str issuer
      → get "nonce" q ≡ str nonce
      → (nonce == "") ≡ false
      → check_claims audience (some operation) q ≡ accepted q
  unfolding check_claims
  claims_lem q issuer nonce a o i n named =
      rw (a, o, i, n, eq_refl audience, eq_refl operation, named) refl

  times_lem :
      (q : Fields)
      → issued_at ≤ current + 30
      → current < issued_at + lifetime
      → 0 < lifetime
      → lifetime ≤ max_lifetime
      → check_claims audience (some operation) q ≡ accepted q
      → check_times audience
          (some operation)
          current
          max_lifetime
          q
          (some (pos issued_at))
          (some (pos (issued_at + lifetime)))
        ≡ accepted q
  unfolding check_times
  times_lem q early late positive short h = rw (minus_lem issued_at lifetime) (ground (arith, h))

nonempty_lem : (t : String) (p : String × String) → split_dot t ≡ some p → (t == "") ≡ false
unfolding split_dot
nonempty_lem t p h = elim (Bool-cases (t == "")) [
  | inl e ↦ let none_found = ap split_dot ((eq_iff t "").0 e) in ground (arith, none_found, h)
  | inr e ↦ e
]

short_lem : (n : ℕ) → n ≤ 65536 → ltb 65536 n ≡ false
short_lem n h = ground arith

-- What is left to check, where a token has its parts and the signature of its secret.
signed_lem :
    (s : Signing) (payload : Fields) (f : IsFaithful s payload) (secret audience operation : String)
    (current max_lifetime : ℕ) (encoded token : String)
    → split_dot token ≡ some (encoded, s.encode (s.digest secret encoded))
    → count token ≤ 65536
    → verify_grant s token secret audience (some operation) current max_lifetime
      ≡ check_payload audience (some operation) current max_lifetime (loaded s (s.decode encoded))
unfolding verify_grant check_parts check_signature
signed_lem s payload f secret audience operation current max_lifetime encoded token parts fits =
    rw
      (
        nonempty_lem token _ parts,
        short_lem (count token) fits,
        parts,
        f.decoded (s.digest secret encoded),
        same_bytes_refl (s.digest secret encoded),
      )
      refl

payload_lem :
    (audience operation : String) (current max_lifetime issued_at expires_at : ℕ) (q : Fields)
    → get "iat" q ≡ int (pos issued_at)
    → get "exp" q ≡ int (pos expires_at)
    → check_times audience
        (some operation)
        current
        max_lifetime
        q
        (some (pos issued_at))
        (some (pos expires_at))
      ≡ accepted q
    → check_payload audience (some operation) current max_lifetime (some (obj q)) ≡ accepted q
unfolding check_payload
payload_lem audience operation current max_lifetime issued_at expires_at q i e h = rw (i, e) h

-- A grant verifies where it was made for: with encodings that read back what they wrote, a token of at
-- most 64 KiB, claims beside the grant's own fields, a nonce, a lifetime that is positive and no longer
-- than the longest one allowed, and a clock from 30 seconds before the issue up to the expiry, what
-- `issue_grant` returns is accepted with the same secret, audience and operation, and every claim that
-- `verify_grant` returns is the one that was issued.
pub grant_round_trip :
    (s : Signing) (secret issuer audience operation nonce : String)
    (current max_lifetime issued_at lifetime : ℕ) (claims : Fields)
    → IsFaithful s
        (payload_of issuer audience operation (pos issued_at) (pos lifetime) nonce claims)
    → AreOther claims
    → (nonce == "") ≡ false
    → issued_at ≤ current + 30
    → current < issued_at + lifetime
    → 0 < lifetime
    → lifetime ≤ max_lifetime
    → count
        (issue_grant s secret issuer audience operation (pos issued_at) (pos lifetime) nonce claims)
      ≤ 65536
    → (q : Fields) × (verify_grant s
          (issue_grant s secret issuer audience operation
            (pos issued_at)
            (pos lifetime)
            nonce
            claims)
          secret
          audience
          (some operation)
          current
          max_lifetime
        ≡ accepted q)
      × ((k : String)
          → get k q
            ≡ get k
                (payload_of issuer audience operation (pos issued_at) (pos lifetime) nonce claims))
unfolding issue_grant payload_of get
grant_round_trip s secret issuer audience operation nonce current max_lifetime issued_at lifetime
      claims f other named early late positive short fits =
    let payload =
      payload_of issuer audience operation (pos issued_at) (pos lifetime) nonce claims in
    let q = f.sorted in
    let encoded = s.encode (s.dumps (obj payload)) in
    let other_than =
      λ (l : String) (r : is_reserved l ≡ true). f.same_values l ∙ get-merge l _ claims r other in
    (
      q,
      signed_lem s payload f secret audience operation current max_lifetime encoded _
            (split_dot-concat encoded _ (f.without_dot (s.dumps (obj payload)))) fits
          ∙ rw (f.decoded (s.dumps (obj payload)), f.read_back)
              (payload_lem audience operation current max_lifetime issued_at (issued_at + lifetime)
                q (other_than "iat" refl) (other_than "exp" refl)
                (times_lem audience operation current max_lifetime issued_at lifetime q early late
                  positive short
                  (claims_lem audience operation current max_lifetime issued_at lifetime q issuer
                    nonce (other_than "aud" refl) (other_than "operation" refl)
                    (other_than "iss" refl) (other_than "nonce" refl) named))),
      f.same_values,
    )
