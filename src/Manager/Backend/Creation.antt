-- ===== src/Manager/Backend/Creation.antt =====
-- src/sandbox_manager/docker_backend.py: `create`. The `try` around the container is cut where the
-- container is known; the handler of the first part raises.
use litellm_gateway.Prelude.{ℕ, ◌+◌, String, Option, none, some, ◌==◌, if◌then◌else◌}
use litellm_gateway.Prelude.Json.{Json, null, str, Fields, get}
use litellm_gateway.Prelude.Text.{concat, after_prefix, is_hex_id}
use litellm_gateway.Manager.State.{Workspace}
use litellm_gateway.Manager.State.History.{creates, claims}
use litellm_gateway.Manager.Settings.{build_container_spec}
use litellm_gateway.Manager.Program.{
  Error, is_exception, authorization_error, conflict_error, backend_error, Program, done, raises,
  ◌>>=◌, ◌>>◌, rescue, rescue_if, suppress, unless, when, store, look, now, hex, dockered, runs,
  SandboxRecord, put_record, run_prepare, container_create, container_start, network_get,
  network_connect,
}
use litellm_gateway.Manager.Backend.{
  Environment, is_conflict, is_backend_error, authorize, get_workspace, workspace_volume,
  remove_container,
}
use litellm_gateway.Manager.Backend.Volumes.{create_runtime_volume, remove_volume}
use litellm_gateway.Manager.Backend.Waiting.{wait_for_worker}
use litellm_gateway.Manager.Backend.Storing.{
  ignore, delete_workspace, delete_unless_used, mark_sandbox_running,
}
use litellm_gateway.Manager.Backend.Restores.{prepare_workspace}
use litellm_gateway.Manager.Backend.Sandboxes.{
  SandboxInfo, info, worker_api_key, finish_failed_creation,
}

-- claims.get("sandbox_id")
unfoldable pub requested_sandbox_id : Json → Program (Option String)
requested_sandbox_id null = done none
requested_sandbox_id (str s) =
    if is_hex_id "sandbox_" 32 s
    then done (some s)
    else raises (authorization_error "Workspace grant has an invalid sandbox_id")
requested_sandbox_id _ = raises (authorization_error "Workspace grant has an invalid sandbox_id")

abbrev rest_or : String → Option String → String
rest_or s none = s
rest_or s (some rest) = rest

-- sandbox_id.removeprefix("sandbox_")
abbrev pub sandbox_token : String → String
sandbox_token s = rest_or s (after_prefix "sandbox_" s)

abbrev or_fresh : Option String → String → String
or_fresh none token = concat "sandbox_" token
or_fresh (some s) token = s

unfoldable pub granted_workspace : Fields → Json → Program (Workspace × Option String)
granted_workspace granted (str workspace_id) = do
  workspace ← get_workspace workspace_id
  unless (workspace.kind == "recoverable")
      (authorization_error "Workspace grant does not select a recoverable Workspace")
  sandbox_id ← requested_sandbox_id (get "sandbox_id" granted)
  done (workspace, sandbox_id)
granted_workspace granted _ = raises (authorization_error "Workspace grant has no workspace_id")

-- except Exception, after _prepare_workspace
unfoldable pub abandon : Workspace → Error → Program (Unit {0})
abandon workspace e =
    when (workspace.kind == "ephemeral") (
      suppress is_exception (remove_volume workspace.volume_name)
      >> delete_unless_used workspace.id)
    >> raises e

unfoldable pub record_of :
    Workspace
    → (sandbox_id worker_host container : String) → (created_at expires_at : ℕ) → SandboxRecord
record_of workspace sandbox_id worker_host container created_at expires_at = record {
  sandbox_id = sandbox_id;
  workspace_id = workspace.id;
  workspace_volume = workspace.volume_name;
  recoverable = workspace.kind == "recoverable";
  container = container;
  worker_host = worker_host;
  created_at = created_at;
  expires_at = expires_at;
}

-- except BaseException, where there is no container
unfoldable pub undo_claim : Workspace → String → Error → Program String
undo_claim workspace sandbox_id e = finish_failed_creation sandbox_id workspace >> raises e

-- The record is kept, as expired, where the container could not be removed.
unfoldable pub keep_expired : SandboxRecord → Program (Unit {0})
keep_expired record_ =
    look (put_record (record record_ { expires_at = record_.created_at }))
    >> raises (backend_error "Sandbox creation failed and Worker cleanup failed")

-- except BaseException, where there is a container
unfoldable pub undo_container : Workspace → SandboxRecord → Error → Program SandboxInfo
undo_container workspace record_ e = do
  rescue_if is_backend_error (remove_container record_.container) (λ f. keep_expired record_)
  finish_failed_creation record_.sandbox_id workspace
  raises e

module _ (env : Environment) where
  unfoldable pub create_ephemeral : Program (Workspace × Option String)
  create_ephemeral = do
    token ← hex
    timestamp ← now
    workspace ← store (
        creates (concat "workspace_" token) "ephemeral"
          (workspace_volume env (concat "workspace_" token)) timestamp)
    done (workspace, none)

  unfoldable pub choose_workspace : Option String → Program (Workspace × Option String)
  choose_workspace none = create_ephemeral
  choose_workspace (some workspace_grant) =
      authorize env workspace_grant (some "sandbox_create") none >>= λ granted.
      granted_workspace granted (get "workspace_id" granted)

  unfoldable pub prepare : Workspace → Program Workspace
  prepare workspace = do
    prepared ←
        rescue_if is_exception (prepare_workspace env workspace)
          (λ e. abandon workspace e >> done workspace)
    rescue_if is_exception (when env.has_runner (ignore (runs (run_prepare prepared))))
        (λ e. abandon prepared e)
    done prepared

  unfoldable pub claim : Workspace → String → String → ℕ → Program (Unit {0})
  claim workspace sandbox_id worker_host created_at =
      rescue_if is_conflict
        (ignore (
          store (
            claims workspace.id sandbox_id worker_host worker_host created_at
              (created_at + env.settings.execution_ttl_seconds))))
        (λ e.
          when (workspace.kind == "ephemeral")
            (remove_volume workspace.volume_name >> delete_workspace workspace.id)
          >> raises (conflict_error ""))

  unfoldable pub create_container : Workspace → (sandbox_id worker_host : String) → Program String
  create_container workspace sandbox_id worker_host = do
    timestamp ← now
    rescue
        (create_runtime_volume sandbox_id workspace.id
          >> dockered (
              container_create env.settings.sandbox_image (
                build_container_spec env.settings sandbox_id worker_host
                  (worker_api_key env sandbox_id) workspace.id workspace.volume_name
                  (workspace.kind == "recoverable") timestamp)))
        (λ e. undo_claim workspace sandbox_id e)

  unfoldable pub start_container : SandboxRecord → Program SandboxInfo
  start_container record_ = do
    attrs ← dockered (network_get env.settings.egress_network)
    dockered (network_connect env.settings.egress_network record_.container)
    dockered (container_start record_.container)
    wait_for_worker env.settings.worker_start_timeout_milliseconds record_.container
    mark_sandbox_running record_.sandbox_id
    look (put_record record_)
    done (info env record_ "running")

  unfoldable pub launch : Workspace → (sandbox_id worker_host : String) → ℕ → Program SandboxInfo
  launch workspace sandbox_id worker_host created_at = do
    container ← create_container workspace sandbox_id worker_host
    rescue
        (start_container (
          record_of workspace sandbox_id worker_host container created_at
            (created_at + env.settings.execution_ttl_seconds)))
        (λ e.
          undo_container workspace
            (record_of workspace sandbox_id worker_host container created_at
              (created_at + env.settings.execution_ttl_seconds))
            e)

  unfoldable pub create_in : Workspace → String → Program SandboxInfo
  create_in workspace sandbox_id = do
    timestamp ← now
    claim workspace sandbox_id (concat "sandbox-worker-" (sandbox_token sandbox_id)) timestamp
    launch workspace sandbox_id (concat "sandbox-worker-" (sandbox_token sandbox_id)) timestamp

  unfoldable pub create : Option String → Program SandboxInfo
  create workspace_grant = do
    (chosen, requested) ← choose_workspace workspace_grant
    workspace ← prepare chosen
    token ← hex
    create_in workspace (or_fresh requested token)
