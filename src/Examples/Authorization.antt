-- ===== src/Examples/Authorization.antt =====
-- src/sandbox_api/grants.py and `_authorize` of src/sandbox_manager/docker_backend.py at concrete
-- inputs, with toy functions for the digest and the encodings.
use litellm_gateway.Prelude.{◌≡◌, ◌<◌, ◌≤◌, refl, none, some, [], ◌∷◌, if◌then◌else◌, ◌==◌, arith}
use litellm_gateway.Prelude.Json.{int, pos, str, obj, Fields, end, field, get}
use litellm_gateway.Prelude.Table.{find_by, delete_where}
use litellm_gateway.Manager.State.{Store}
use litellm_gateway.Manager.State.Operations.{consume_nonce}
use litellm_gateway.Manager.State.History.{consumes, run_all, run, empty}
use litellm_gateway.SandboxApi.Grants.{Signing, verify_grant}
use litellm_gateway.Manager.Authorization.{
  Authorization, authorized, Settings, authorize, already_consumed, seconds_of,
}
use litellm_gateway.Manager.Authorization.Once.{authorized_again_at_expiry}

abbrev claims : Fields
claims = field "iss" (str "open-webui") (
    field "aud" (str "sandbox-manager") (
      field "operation" (str "checkpoint") (
        field "iat" (int (pos 100)) (
          field "exp" (int (pos 220))
            (field "nonce" (str "n1") (field "workspace_id" (str "workspace_a") end))))))

-- One payload, which is written as "p"; every digest is written as "d".
abbrev pub signing : Signing
signing = record {
  digest = λ secret message. 7 ∷ [];
  encode = λ bytes. "d";
  decode =
      λ text. if text == "d" then some (7 ∷ []) else (if text == "p" then some (1 ∷ []) else none);
  dumps = λ value. 1 ∷ [];
  loads = λ bytes. some (obj claims);
}

abbrev settings : Settings
settings = record { operation_signing_secret = "secret"; operation_grant_issuer = "open-webui" }

abbrev first : Authorization × Store
first = authorize signing settings "p.d" (some "checkpoint") (some "workspace_a") 110 110 empty

first_authorized : first.0 ≡ authorized claims
unfolding authorize verify_grant consume_nonce get find_by delete_where
first_authorized = refl

-- The two readings of the clock in the second request lie on both sides of the expiry.
second_at_expiry :
    (authorize signing settings "p.d" none none 219 220
      (run_all (consumes "n2" 300 200 ∷ []) first.1)).0
    ≡ authorized claims
unfolding authorize verify_grant consume_nonce get find_by delete_where run_all run
second_at_expiry = refl

authorized_again_at_expiry_example :
    (219 < seconds_of (get "exp" claims)) × (seconds_of (get "exp" claims) ≤ 220)
authorized_again_at_expiry_example =
    authorized_again_at_expiry signing settings "p.d" (some "checkpoint") (some "workspace_a") 110
      110 empty claims first_authorized (consumes "n2" 300 200 ∷ []) none none 219 220
      ((omega arith), tt) claims second_at_expiry

-- At one time, the second request is refused.
second_refused :
    (authorize signing settings "p.d" none none 215 215
      (run_all (consumes "n2" 300 200 ∷ []) first.1)).0
    ≡ already_consumed
unfolding authorize verify_grant consume_nonce get find_by delete_where run_all run
second_refused = refl
