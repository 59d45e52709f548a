-- ===== src/Manager/Backend.antt =====
-- src/sandbox_manager/docker_backend.py: what the methods of `DockerSandboxBackend` share. The methods
-- are programs, in the files below.
--
-- An error keeps its class and the fixed part of its text. `has_runner` is false where
-- `self._operation_runner` is None.
pub mod Volumes
pub mod Storing
pub mod Only
pub mod Restores
pub mod Checkpoints
pub mod Waiting
pub mod Sandboxes
pub mod Creation
pub mod Workspaces
pub mod Claims
pub mod Requests
pub mod Operations
pub mod Startup
pub mod Reaper
pub mod Machine
pub mod Order
use litellm_gateway.Prelude.{
  ℕ, ◌+◌, String, Bool, true, false, not, ◌&&◌, ◌||◌, Option, none, some, List, [], ◌∷◌, ◌==◌,
  if◌then◌else◌,
}
use litellm_gateway.Prelude.Json.{Json, str, obj, Fields, dict, get}
use litellm_gateway.Prelude.Text.{concat}
use litellm_gateway.Manager.State.{Workspace, not_found, conflict, Result, ok, err}
use litellm_gateway.Manager.State.History.{Call, consumes}
use litellm_gateway.Manager.Settings.{Outside, ManagerSettings}
use litellm_gateway.Manager.Authorization.{bound_to, text_of, seconds_of}
use litellm_gateway.Manager.Program.{
  Error, is_exception, state_error, workspace_not_found, sandbox_not_found, authorization_error,
  conflict_error, backend_error, missing, key_error, Program, done, raises, ◌>>=◌, ◌>>◌, rescue_if,
  unless, store, ask, look, dockered, now, SandboxRecord, lookup_record, workspace_of, or_raise,
  container_remove, container_reload,
}
use litellm_gateway.SandboxApi.Grants.{
  Signing, GrantError, Verified, accepted, refused, verify_grant, is_text,
}

pub record Environment : Type 0 where
  pub outside : Outside
  pub settings : ManagerSettings
  pub has_runner : Bool

abbrev pub is_not_found : Error → Bool
is_not_found (state_error not_found) = true
is_not_found _ = false

abbrev pub is_conflict : Error → Bool
is_conflict (state_error conflict) = true
is_conflict _ = false

-- except NotFound
abbrev pub is_docker_not_found : Error → Bool
is_docker_not_found (missing text) = true
is_docker_not_found _ = false

-- except (NotFound, KeyError)
abbrev pub is_missing : Error → Bool
is_missing (missing text) = true
is_missing (key_error text) = true
is_missing _ = false

abbrev pub is_backend_error : Error → Bool
is_backend_error (backend_error text) = true
is_backend_error _ = false

abbrev pub either : (Error → Bool) → (Error → Bool) → Error → Bool
either p q e = p e || q e

module _ (env : Environment) where
  unfoldable pub workspace_volume : String → String
  workspace_volume workspace_id = concat "agent-workspace-" (env.outside.sha256_hex_32 workspace_id)

  unfoldable pub accept : Verified → Program Fields
  accept (refused e) = raises (authorization_error "")
  accept (accepted claims) = done claims

  unfoldable pub consume : Fields → Program Fields
  consume claims = now >>= λ timestamp.
      store (consumes (text_of (get "nonce" claims)) (seconds_of (get "exp" claims)) timestamp)
      >>= λ fresh.
          unless fresh (authorization_error "Workspace grant was already consumed") >> done claims

  -- _authorize
  unfoldable pub authorize : String → Option String → Option String → Program Fields
  authorize token operation workspace_id = now >>= λ current.
      accept (
        verify_grant env.outside.signing token env.settings.operation_signing_secret
          "sandbox-manager" operation current 900)
      >>= λ claims.
          unless (is_text env.settings.operation_grant_issuer (get "iss" claims))
            (authorization_error "Workspace grant issuer does not match")
          >> unless (bound_to workspace_id (get "workspace_id" claims))
              (authorization_error "Workspace grant binding does not match")
          >> consume claims

-- _get_workspace
unfoldable pub get_workspace : String → Program Workspace
get_workspace workspace_id =
    rescue_if is_not_found (ask (workspace_of workspace_id) >>= λ r. or_raise r)
      (λ e. raises workspace_not_found)

unfoldable pub found_record : String → Option SandboxRecord → Program SandboxRecord
found_record sandbox_id none = raises (sandbox_not_found sandbox_id)
found_record sandbox_id (some record_) = done record_

-- _get
unfoldable pub get_record : String → Program SandboxRecord
get_record sandbox_id = look (lookup_record sandbox_id) >>= λ found. found_record sandbox_id found

-- _remove_container
unfoldable pub remove_container : String → Program (Unit {0})
remove_container container =
    rescue_if is_exception
      (rescue_if is_docker_not_found (dockered (container_remove container)) (λ e. done tt))
      (λ e. raises (backend_error "Failed to remove Sandbox"))
