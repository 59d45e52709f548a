-- ===== src/Manager/Authorization.antt =====
-- src/sandbox_manager/docker_backend.py: `DockerSandboxBackend._authorize`, which checks a Workspace
-- grant and consumes its nonce.
--
-- verify_grant and consume_nonce read the clock one after the other: `current` and `timestamp`.
pub mod Once
use litellm_gateway.Prelude.{
  ℕ, String, Bool, true, false, not, Option, none, some, ◌==◌, if◌then◌else◌,
}
use litellm_gateway.Prelude.Json.{ℤ, pos, negsuc, Json, str, Fields, get}
use litellm_gateway.Manager.State.{Store, StateError, Result, ok, err}
use litellm_gateway.Manager.State.Operations.{consume_nonce}
use litellm_gateway.SandboxApi.Grants.{
  Signing, GrantError, Verified, accepted, refused, verify_grant, is_text, as_integer,
}

-- The messages of SandboxAuthorizationError, and an error of the store.
pub data Authorization : Type 0 where
  authorized : Fields → Authorization
  grant_refused : GrantError → Authorization
  wrong_issuer : Authorization
  wrong_binding : Authorization
  already_consumed : Authorization
  store_failed : StateError → Authorization

pub record Settings : Type 0 where
  pub operation_signing_secret : String
  pub operation_grant_issuer : String

abbrev pub bound_to : Option String → Json → Bool
bound_to none v = true
bound_to (some workspace_id) v = is_text workspace_id v

abbrev pub text_of : Json → String
text_of (str s) = s
text_of _ = ""

-- The claim as the integer that the store compares; an accepted one is not negative.
abbrev whole : Option ℤ → ℕ
whole (some (pos n)) = n
whole _ = 0

abbrev pub seconds_of : Json → ℕ
seconds_of v = whole (as_integer v)

after_consuming : Fields → Result Bool × Store → Authorization × Store
after_consuming claims (ok true, s) = (authorized claims, s)
after_consuming claims (ok false, s) = (already_consumed, s)
after_consuming claims (err e, s) = (store_failed e, s)

after_verifying : Settings → Option String → ℕ → Verified → Store → Authorization × Store
unfolding after_consuming
after_verifying settings workspace_id timestamp (refused e) s = (grant_refused e, s)
after_verifying settings workspace_id timestamp (accepted claims) s =
    if not (is_text settings.operation_grant_issuer (get "iss" claims))
    then (wrong_issuer, s)
    else (if not (bound_to workspace_id (get "workspace_id" claims))
        then (wrong_binding, s)
        else after_consuming claims (
            consume_nonce (text_of (get "nonce" claims)) (seconds_of (get "exp" claims)) timestamp
              s))

unfoldable pub authorize :
    Signing
    → Settings
    → String
    → Option String
    → Option String
    → ℕ
    → ℕ
    → Store
    → Authorization × Store
unfolding after_verifying
authorize signing settings token operation workspace_id current timestamp s =
    after_verifying settings workspace_id timestamp
      (verify_grant signing token settings.operation_signing_secret "sandbox-manager" operation
        current 900)
      s
