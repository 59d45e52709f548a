-- ===== src/Manager/Backend/Startup.antt =====
-- src/sandbox_manager/docker_backend.py: what `startup` does between opening the store and starting the
-- reaper: `_validate_docker`, `_reconcile_managed_containers`, `_cleanup_orphaned_ephemeral_workspaces`
-- and `_recover_incomplete_operations`. The operation runner is given.
use litellm_gateway.Prelude.{
  ℕ, String, Bool, false, not, ◌&&◌, ◌||◌, Option, none, some, List, [], ◌∷◌, ◌++◌, ◌==◌,
  if◌then◌else◌, is_some, is_none, ltb,
}
use litellm_gateway.Prelude.Table.{find_by}
use litellm_gateway.Prelude.Json.{Json, str, obj, Fields, end, field, get, is_true, as_dict}
use litellm_gateway.SandboxApi.Grants.{is_text}
use litellm_gateway.Manager.State.{
  Workspace, Sandbox, Operation, Result, ok, err, not_found, one_of,
}
use litellm_gateway.Manager.Settings.{ManagerSettings, runtime_state_volume}
use litellm_gateway.Manager.Program.{
  is_exception, state_error, backend_error, other_error, Program, done, raises, ◌>>=◌, ◌>>◌,
  rescue_if, unless, when, each, ask, look, now, dockered, Listed, SandboxRecord, put_record,
  or_raise, sandbox_of, workspace_of, live_sandboxes, open_operations, with_status, container_list,
  network_get, image_get, docker_info,
}
use litellm_gateway.Manager.Backend.{Environment, get_workspace, workspace_volume, remove_container}
use litellm_gateway.Manager.Backend.Volumes.{remove_volume, ensure_publish_spool_volume}
use litellm_gateway.Manager.Backend.Waiting.{status_of}
use litellm_gateway.Manager.Backend.Storing.{
  ignore, update_operation, transition_if_expected, finish_sandbox, delete_unless_used,
  mark_sandbox_running,
}
use litellm_gateway.Manager.Backend.Sandboxes.{status_after}

-- key in d
unfoldable pub is_listed : String → Fields → Bool
is_listed k end = false
is_listed k (field l v d) = l == k || is_listed k d

abbrev dict_of : Json → Option Fields
dict_of (obj d) = as_dict (get "Runtimes" d)
dict_of _ = none

abbrev has_runtime : Option Fields → String → Bool
has_runtime none name = false
has_runtime (some runtimes) name = is_listed name runtimes

unfoldable pub validate_network : String → Program (Unit {0})
validate_network name = do
  attrs ←
      rescue_if is_exception (dockered (network_get name))
        (λ e. raises (backend_error "Docker network is unavailable"))
  unless (is_true (get "Internal" attrs)) (backend_error "Docker network must be internal")

unfoldable pub validate_image : String → Program (Unit {0})
validate_image name =
    rescue_if is_exception (dockered (image_get name))
      (λ e. raises (backend_error "image is unavailable"))

unfoldable pub validate_storage : ManagerSettings → Program (Unit {0})
validate_storage s = do
  rescue_if is_exception (ignore (dockered (network_get s.storage_network)))
      (λ e. raises (backend_error "Docker network is unavailable"))
  validate_image s.storage_ops_image

-- _validate_docker
unfoldable pub validate_docker : ManagerSettings → Program (Unit {0})
validate_docker s = do
  told ← dockered docker_info
  unless (has_runtime (dict_of told) s.docker_runtime)
      (backend_error "Docker runtime is unavailable")
  unless (not s.storage_enabled || has_runtime (dict_of told) s.operation_runtime)
      (backend_error "Docker runtime is unavailable")
  each (s.rpc_network ∷ s.egress_network ∷ []) validate_network
  validate_image s.sandbox_image
  when s.storage_enabled (validate_storage s)

abbrev expires_later : Option ℕ → ℕ → Bool
expires_later none timestamp = false
expires_later (some till) timestamp = ltb timestamp till

-- `valid`, but the container's status, which is asked for where the rest holds
abbrev pub is_valid_label : Option Sandbox → Json → ℕ → Bool
is_valid_label none workspace_id timestamp = false
is_valid_label (some b) workspace_id timestamp =
    is_text b.workspace_id workspace_id && expires_later b.expires_at timestamp

-- _record_from_state
unfoldable pub record_from_state : Sandbox → Workspace → String → Option ℕ → Program SandboxRecord
record_from_state b w container none = raises (other_error "")
record_from_state b w container (some expires_at) = done (record {
  sandbox_id = b.id;
  workspace_id = w.id;
  workspace_volume = w.volume_name;
  recoverable = w.kind == "recoverable";
  container = container;
  worker_host = b.worker_host;
  created_at = b.created_at;
  expires_at = expires_at;
})

unfoldable pub finish_of : Sandbox → Workspace → Program (Unit {0})
finish_of b workspace =
    finish_sandbox b.id "failed" (status_after (workspace.kind == "recoverable"))
    >> remove_volume (runtime_state_volume b.id)
    >> when (workspace.kind == "ephemeral")
        (remove_volume workspace.volume_name >> delete_unless_used workspace.id)

unfoldable pub finish_found : Sandbox → Result Workspace → Program (Unit {0})
finish_found b (ok workspace) = finish_of b workspace
finish_found b (err not_found) = done tt
finish_found b (err e) = raises (state_error e)

-- _finish_reconciled_sandbox
unfoldable pub finish_reconciled_sandbox : Sandbox → Program (Unit {0})
finish_reconciled_sandbox b = ask (workspace_of b.workspace_id) >>= λ found. finish_found b found

-- The row after mark_sandbox_running, where the Sandbox was starting.
unfoldable pub running_row : Sandbox → Program Sandbox
running_row b =
    if b.status == "starting"
    then mark_sandbox_running b.id >> (ask (sandbox_of b.id) >>= λ r. or_raise r)
    else done b

unfoldable pub adopt : Sandbox → String → Program (List String)
adopt b container = do
  row ← running_row b
  workspace ← get_workspace row.workspace_id
  record_ ← record_from_state row workspace container row.expires_at
  look (put_record record_)
  done (row.id ∷ [])

unfoldable pub remove_runtime : Json → Program (Unit {0})
remove_runtime (str sandbox_id) = remove_volume (runtime_state_volume sandbox_id)
remove_runtime _ = done tt

module _ (env : Environment) where
  unfoldable pub remove_orphan : Json → Json → Program (Unit {0})
  remove_orphan kind (str workspace_id) =
      when (is_text "ephemeral" kind) (remove_volume (workspace_volume env workspace_id))
  remove_orphan kind _ = done tt

  unfoldable pub finish_removed : Option Sandbox → Fields → Program (List String)
  finish_removed (some b) labels = finish_reconciled_sandbox b >> done (b.id ∷ [])
  finish_removed none labels =
      remove_orphan (get "io.litellm-codex-gateway.workspace-kind" labels)
        (get "io.litellm-codex-gateway.workspace-id" labels)
      >> done []

  unfoldable pub discard : Listed → Option Sandbox → Program (List String)
  discard container row =
      remove_container container.container
      >> remove_runtime (get "io.litellm-codex-gateway.sandbox-id" container.labels)
      >> finish_removed row container.labels

  unfoldable pub adopt_or_discard : Listed → Option Sandbox → String → Program (List String)
  adopt_or_discard container none status = discard container none
  adopt_or_discard container (some b) status =
      if status == "running" then adopt b container.container else discard container (some b)

  -- A container of a Worker. The answer is what it adds to `seen`.
  unfoldable pub reconcile_worker : ℕ → Listed → Option Sandbox → Program (List String)
  reconcile_worker timestamp container row =
      if is_valid_label row (get "io.litellm-codex-gateway.workspace-id" container.labels) timestamp
      then (status_of container.container >>= λ status. adopt_or_discard container row status)
      else discard container row

  abbrev row_labelled : List Sandbox → Json → Option Sandbox
  row_labelled active (str sandbox_id) = find_by (λ b. b.id) sandbox_id active
  row_labelled active _ = none

  -- labels.get(ROLE_LABEL, "worker")
  abbrev role_in : Fields → Json
  role_in labels =
      if is_listed "io.litellm-codex-gateway.role" labels
      then get "io.litellm-codex-gateway.role" labels
      else str "worker"

  unfoldable pub reconcile_container : ℕ → List Sandbox → Listed → Program (List String)
  reconcile_container timestamp active container =
      if is_text "operation" (role_in container.labels)
      then remove_container container.container >> done []
      else (if is_text "worker" (role_in container.labels)
          then reconcile_worker timestamp container
              (row_labelled active (get "io.litellm-codex-gateway.sandbox-id" container.labels))
          else done [])

  -- The loop over the containers; `seen` grows.
  unfoldable pub reconcile_containers :
      ℕ → List Sandbox → List Listed → List String → Program (List String)
  reconcile_containers timestamp active [] seen = done seen
  reconcile_containers timestamp active (container ∷ containers) seen =
      reconcile_container timestamp active container >>= λ ids.
      reconcile_containers timestamp active containers (ids ++ seen)

  -- _reconcile_managed_containers
  unfoldable pub reconcile_managed_containers : Program (Unit {0})
  reconcile_managed_containers = do
    active ← ask live_sandboxes
    containers ← dockered container_list
    timestamp ← now
    seen ← reconcile_containers timestamp active containers []
    each active (λ b. when (not (one_of b.id seen)) (finish_reconciled_sandbox b))

-- _cleanup_orphaned_ephemeral_workspaces
unfoldable pub remove_if_orphaned : Workspace → Program (Unit {0})
remove_if_orphaned workspace =
    when (workspace.kind == "ephemeral" && is_none workspace.active_sandbox_id)
      (remove_volume workspace.volume_name >> delete_unless_used workspace.id)

unfoldable pub cleanup_orphaned_ephemeral_workspaces : Program (Unit {0})
cleanup_orphaned_ephemeral_workspaces =
    ask (with_status ("detached_clean" ∷ [])) >>= λ workspaces. each workspaces remove_if_orphaned

abbrev has_capture : Option Json → Bool
has_capture (some (obj d)) = is_some (as_dict (get "capture" d))
has_capture _ = false

abbrev phase_kept : Operation → Option String
phase_kept o = if o.operation == "publish" && has_capture o.result then some "captured" else o.phase

unfoldable pub fail_incomplete : Operation → Program (Unit {0})
fail_incomplete o = ignore (
    update_operation o.id "failed" (phase_kept o) o.result
      (some "Manager restarted before the operation result was committed"))

unfoldable pub undo_checkpoint : Workspace → Program (Unit {0})
undo_checkpoint workspace =
    transition_if_expected workspace.id ("checkpointing" ∷ []) "detached_dirty"

unfoldable pub undo_restore : Workspace → Program (Unit {0})
undo_restore workspace =
    remove_volume workspace.volume_name
    >> transition_if_expected workspace.id ("restoring" ∷ []) "remote_only"

-- _recover_incomplete_operations
unfoldable pub recover_incomplete_operations : Program (Unit {0})
recover_incomplete_operations = do
  operations ← ask open_operations
  each operations fail_incomplete
  checkpointing ← ask (with_status ("checkpointing" ∷ []))
  each checkpointing undo_checkpoint
  restoring ← ask (with_status ("restoring" ∷ []))
  each restoring undo_restore

-- startup, from _validate_docker to _recover_incomplete_operations
unfoldable pub start_up : Environment → Program (Unit {0})
start_up env = do
  validate_docker env.settings
  when env.settings.storage_enabled (ensure_publish_spool_volume env.settings.publish_spool_volume)
  reconcile_managed_containers env
  cleanup_orphaned_ephemeral_workspaces
  recover_incomplete_operations
