-- ===== src/Manager/Backend/Workspaces.antt =====
-- src/sandbox_manager/docker_backend.py: `create_workspace`, `inspect_workspace` and
-- `release_workspace`.
use litellm_gateway.Prelude.{ℕ, ◌+◌, String, Bool, true, false, Option, none, some, if◌then◌else◌}
use litellm_gateway.Manager.State.{Workspace}
use litellm_gateway.Manager.State.History.{creates, schedules}
use litellm_gateway.Manager.Program.{
  Error, is_exception, workspace_not_found, authorization_error, conflict_error, backend_error,
  Program, done, raises, ◌>>=◌, ◌>>◌, rescue_if, store, now,
}
use litellm_gateway.Manager.Backend.{
  Environment, is_not_found, is_conflict, authorize, get_workspace, workspace_volume,
}
use litellm_gateway.Manager.Backend.Volumes.{ensure_workspace_volume}
use litellm_gateway.Manager.Backend.Storing.{ignore}
use litellm_gateway.Manager.Backend.Sandboxes.{terminate}

pub record WorkspaceInfo : Type 0 where
  pub id : String
  pub kind : String
  pub status : String
  pub generation : ℕ
  pub head_revision : Option String
  pub active_sandbox_id : Option String
  pub created_at : ℕ
  pub updated_at : ℕ
  pub delete_after : Option ℕ

-- _workspace_info
unfoldable pub workspace_info : Workspace → WorkspaceInfo
workspace_info w = record {
  id = w.id;
  kind = w.kind;
  status = w.status;
  generation = w.generation;
  head_revision = w.head_revision;
  active_sandbox_id = w.active_sandbox_id;
  created_at = w.created_at;
  updated_at = w.updated_at;
  delete_after = w.delete_after;
}

abbrev is_refusal : Error → Bool
is_refusal (conflict_error text) = true
is_refusal (authorization_error text) = true
is_refusal _ = false

-- The handlers of create_workspace.
unfoldable pub creation_failed : Error → Program Workspace
creation_failed e =
    if is_conflict e
    then raises (conflict_error "")
    else (if is_refusal e then raises e else raises (backend_error "Failed to create Workspace"))

unfoldable pub terminate_active : Environment → Option String → Program (Unit {0})
terminate_active env none = done tt
terminate_active env (some sandbox_id) = ignore (terminate env sandbox_id)

module _ (env : Environment) where
  unfoldable pub insert_recoverable : String → Program Workspace
  insert_recoverable workspace_id = do
    timestamp ← now
    workspace ←
        store (creates workspace_id "recoverable" (workspace_volume env workspace_id) timestamp)
    ensure_workspace_volume workspace
    done workspace

  unfoldable pub create_workspace : (workspace_id workspace_grant : String) → Program WorkspaceInfo
  create_workspace workspace_id workspace_grant = do
    ignore (authorize env workspace_grant (some "workspace_create") (some workspace_id))
    workspace ← rescue_if is_exception (insert_recoverable workspace_id) creation_failed
    done (workspace_info workspace)

  unfoldable pub inspect_workspace : (workspace_id workspace_grant : String) → Program WorkspaceInfo
  inspect_workspace workspace_id workspace_grant = do
    ignore (authorize env workspace_grant (some "workspace_inspect") (some workspace_id))
    workspace ← get_workspace workspace_id
    done (workspace_info workspace)

  unfoldable pub schedule_delete : String → Program Workspace
  schedule_delete workspace_id = do
    deadline ← now
    timestamp ← now
    rescue_if is_not_found
        (store (
          schedules workspace_id (deadline + env.settings.workspace_delete_grace_seconds)
            timestamp))
        (λ e. raises workspace_not_found)

  unfoldable pub release_workspace : (workspace_id workspace_grant : String) → Program WorkspaceInfo
  release_workspace workspace_id workspace_grant = do
    ignore (authorize env workspace_grant (some "workspace_release") (some workspace_id))
    workspace ← get_workspace workspace_id
    terminate_active env workspace.active_sandbox_id
    scheduled ← schedule_delete workspace_id
    done (workspace_info scheduled)
