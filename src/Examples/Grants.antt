-- ===== src/Examples/Grants.antt =====
-- A grant of src/sandbox_api/grants.py that is made and verified, with bytes written in unary: as many "a"
-- as a byte says, and a "b".
use Prim.Native.Char.{code}
use Prim.Native.String.{String, [], ◌∷◌}
use litellm_gateway.Prelude.{
  ℕ, zero, suc, ◌+◌, ◌≡◌, refl, ap, ◌∙◌, false, Option, none, some, [], ◌∷◌, nat_eq, if◌then◌else◌,
  arith,
}
use litellm_gateway.Prelude.Json.{pos, str, obj, Fields, end, field, get}
use litellm_gateway.Prelude.Text.{has_char}
use litellm_gateway.SandboxApi.Grants.{
  Signing, Bytes, accepted, verify_grant, issue_grant, payload_of,
}
use litellm_gateway.SandboxApi.Grants.RoundTrip.{IsFaithful, grant_round_trip}

unfoldable tally : ℕ → String → String
tally zero s = "b" ∷ s
tally (suc n) s = "a" ∷ tally n s

unfoldable unary : Bytes → String
unary [] = []
unary (n ∷ bytes) = tally n (unary bytes)

abbrev with_byte : ℕ → Option Bytes → Option Bytes
with_byte n none = none
with_byte n (some bytes) = some (n ∷ bytes)

unfoldable counted : ℕ → String → Option Bytes
counted n [] = some []
counted n (c ∷ s) =
    let more = counted (suc n) s in
    let next = counted 0 s in if nat_eq (code c) 97 then more else with_byte n next

counted-tally : (n m : ℕ) (s : String) → counted m (tally n s) ≡ with_byte (n + m) (counted 0 s)
unfolding counted tally
counted-tally zero m s = ap (λ k. with_byte k (counted 0 s)) (omega arith)
counted-tally (suc n) m s =
    counted-tally n (suc m) s ∙ ap (λ k. with_byte k (counted 0 s)) (omega arith)

counted-unary : (bytes : Bytes) → counted 0 (unary bytes) ≡ some bytes
unfolding counted unary
counted-unary [] = refl
counted-unary (n ∷ bytes) =
    counted-tally n 0 (unary bytes)
    ∙ rw (counted-unary bytes) (ap (λ k. some (k ∷ bytes)) (omega arith))

tally_without_dot : (n : ℕ) (s : String) → has_char 46 (tally n s) ≡ has_char 46 s
unfolding tally has_char
tally_without_dot zero s = refl
tally_without_dot (suc n) s = tally_without_dot n s

unary_without_dot : (bytes : Bytes) → has_char 46 (unary bytes) ≡ false
unfolding unary has_char
unary_without_dot [] = refl
unary_without_dot (n ∷ bytes) = tally_without_dot n (unary bytes) ∙ unary_without_dot bytes

abbrev claims : Fields
claims = field "workspace_id" (str "workspace_a") end

abbrev payload : Fields
payload = payload_of "open-webui" "sandbox-manager" "sandbox_create" (pos 100) (pos 120) "n1" claims

abbrev signing : Signing
signing = record {
  digest = λ secret message. 3 ∷ [];
  encode = unary;
  decode = counted 0;
  dumps = λ value. 2 ∷ 1 ∷ [];
  loads = λ bytes. some (obj payload);
}

signing-IsFaithful : IsFaithful signing payload
signing-IsFaithful = record {
  without_dot = unary_without_dot;
  decoded = counted-unary;
  sorted = payload;
  read_back = refl;
  same_values = λ k. refl;
}

grant_round_trip_example :
    (q : Fields) × (verify_grant signing
        (issue_grant signing "secret" "open-webui" "sandbox-manager" "sandbox_create"
          (pos 100)
          (pos 120)
          "n1"
          claims)
        "secret"
        "sandbox-manager"
        (some "sandbox_create")
        110
        900
      ≡ accepted q)
    × ((k : String) → get k q ≡ get k payload)
grant_round_trip_example =
    grant_round_trip signing "secret" "open-webui" "sandbox-manager" "sandbox_create" "n1" 110 900
      100 120 claims signing-IsFaithful (refl, tt) refl (omega arith) (omega arith) (omega arith)
      (omega arith) (unfold issue_grant in unfold unary in unfold tally in omega arith)
