-- ===== src/Manager/Backend/Sandboxes.antt =====
-- src/sandbox_manager/docker_backend.py: `inspect`, `renew` and `terminate`, and how a Sandbox whose
-- container is gone is finished.
use litellm_gateway.Prelude.{ℕ, ◌+◌, String, Bool, not, Option, none, some, ◌==◌, if◌then◌else◌}
use litellm_gateway.Prelude.Text.{concat, rstrip, decimal}
use litellm_gateway.Manager.State.{Workspace}
use litellm_gateway.Manager.State.History.{renews}
use litellm_gateway.Manager.Settings.{runtime_state_volume}
use litellm_gateway.Manager.Program.{
  conflict_error, Program, done, raises, ◌>>=◌, ◌>>◌, rescue_if, when, store, look, now, spawn,
  checkpoints, SandboxRecord, pop_record, extend_record,
}
use litellm_gateway.Manager.Backend.{Environment, is_conflict, get_record, remove_container}
use litellm_gateway.Manager.Backend.Volumes.{remove_volume}
use litellm_gateway.Manager.Backend.Waiting.{status_of}
use litellm_gateway.Manager.Backend.Storing.{ignore, finish_sandbox, delete_unless_used}

pub record WorkerConnection : Type 0 where
  pub base_url : String
  pub api_key : String

pub record SandboxInfo : Type 0 where
  pub id : String
  pub status : String
  pub created_at : ℕ
  pub expires_at : Option ℕ
  pub worker : Option WorkerConnection
  pub workspace_id : String
  pub recoverable : Bool

-- What a Workspace becomes when its Sandbox is gone.
abbrev pub status_after : Bool → String
status_after recoverable = if recoverable then "detached_dirty" else "deleting"

-- _finish_failed_creation
unfoldable pub finish_failed_creation : String → Workspace → Program (Unit {0})
finish_failed_creation sandbox_id workspace =
    finish_sandbox sandbox_id "failed" (status_after (workspace.kind == "recoverable"))
    >> remove_volume (runtime_state_volume sandbox_id)
    >> when (workspace.kind == "ephemeral")
        (remove_volume workspace.volume_name >> delete_unless_used workspace.id)

module _ (env : Environment) where
  -- _worker_api_key, without its padding by 61
  unfoldable pub worker_api_key : String → String
  worker_api_key sandbox_id =
      rstrip 61 (env.outside.worker_digest env.settings.worker_token_secret sandbox_id)

  unfoldable pub connection : SandboxRecord → WorkerConnection
  connection record_ = record {
    base_url =
        concat "http://"
          (concat record_.worker_host (concat ":" (decimal env.settings.worker_port)));
    api_key = worker_api_key record_.sandbox_id;
  }

  -- _info
  unfoldable pub info : SandboxRecord → String → SandboxInfo
  info record_ status = record {
    id = record_.sandbox_id;
    status = status;
    created_at = record_.created_at;
    expires_at = some record_.expires_at;
    worker = if status == "running" then some (connection record_) else none;
    workspace_id = record_.workspace_id;
    recoverable = record_.recoverable;
  }

  unfoldable pub inspect : String → Program SandboxInfo
  inspect sandbox_id = do
    record_ ← get_record sandbox_id
    status ← status_of record_.container
    done (info record_ status)

  unfoldable pub renew_running : SandboxRecord → Program SandboxRecord
  renew_running record_ = do
    timestamp ← now
    rescue_if is_conflict
        (ignore
          (store (renews record_.sandbox_id (timestamp + env.settings.execution_ttl_seconds))))
        (λ e. raises (conflict_error ""))
    there ← look (extend_record record_.sandbox_id (timestamp + env.settings.execution_ttl_seconds))
    done (
        if there
        then record record_ { expires_at = timestamp + env.settings.execution_ttl_seconds }
        else record_)

  unfoldable pub renew : String → Program SandboxInfo
  renew sandbox_id = do
    record_ ← get_record sandbox_id
    status ← status_of record_.container
    renewed ← if status == "running" then renew_running record_ else done record_
    done (info renewed status)

  unfoldable pub terminated : SandboxRecord → SandboxInfo
  terminated record_ = record {
    id = record_.sandbox_id;
    status = "terminated";
    created_at = record_.created_at;
    expires_at = none;
    worker = none;
    workspace_id = record_.workspace_id;
    recoverable = record_.recoverable;
  }

  -- What becomes of the Workspace of a terminated Sandbox.
  unfoldable pub release_files : SandboxRecord → Program (Unit {0})
  release_files record_ =
      if not record_.recoverable
      then remove_volume record_.workspace_volume >> delete_unless_used record_.workspace_id
      else when env.settings.storage_enabled (spawn (checkpoints record_.workspace_id))

  unfoldable pub terminate_record : SandboxRecord → Program SandboxInfo
  terminate_record record_ = do
    remove_container record_.container
    look (pop_record record_.sandbox_id record_.container)
    remove_volume (runtime_state_volume record_.sandbox_id)
    finish_sandbox record_.sandbox_id "terminated" (status_after record_.recoverable)
    release_files record_
    done (terminated record_)

  unfoldable pub terminate : String → Program SandboxInfo
  terminate sandbox_id = get_record sandbox_id >>= λ record_. terminate_record record_
