-- ===== src/Manager/Backend/Volumes.antt =====
-- src/sandbox_manager/docker_backend.py: the methods of `DockerSandboxBackend` that act on volumes. The
-- Docker client is there: it is None only before `start`.
use litellm_gateway.Prelude.{String, Bool, true, false, [], ◌∷◌}
use litellm_gateway.Prelude.Json.{str, Fields, dict}
use litellm_gateway.Manager.State.{Workspace}
use litellm_gateway.Manager.Settings.{runtime_state_volume}
use litellm_gateway.Manager.Program.{
  is_exception, backend_error, Program, done, raises, ◌>>=◌, ◌>>◌, rescue_if, suppress, when,
  dockered, volume_create, volume_get, volume_remove,
}
use litellm_gateway.Manager.Backend.{is_missing}

abbrev pub workspace_labels : Workspace → Fields
workspace_labels workspace = dict (
    ("io.litellm-codex-gateway.managed", str "true")
    ∷ ("io.litellm-codex-gateway.role", str "workspace")
    ∷ ("io.litellm-codex-gateway.workspace-id", str workspace.id)
    ∷ ("io.litellm-codex-gateway.workspace-kind", str workspace.kind)
    ∷ [])

unfoldable pub ensure_workspace_volume : Workspace → Program (Unit {0})
ensure_workspace_volume workspace =
    rescue_if is_exception
      (dockered (volume_create workspace.volume_name (workspace_labels workspace)))
      (λ e. raises (backend_error "Failed to create Workspace volume"))

abbrev spool_labels : Fields
spool_labels = dict (
    ("io.litellm-codex-gateway.managed", str "true")
    ∷ ("io.litellm-codex-gateway.role", str "publish-spool")
    ∷ [])

unfoldable pub ensure_publish_spool_volume : String → Program (Unit {0})
ensure_publish_spool_volume name =
    rescue_if is_exception (dockered (volume_create name spool_labels))
      (λ e. raises (backend_error "Failed to create publish spool volume"))

unfoldable pub volume_exists : String → Program Bool
volume_exists name =
    rescue_if is_exception
      (rescue_if is_missing (dockered (volume_get name) >> done true) (λ e. done false))
      (λ e. raises (backend_error "Failed to inspect Workspace volume"))

abbrev runtime_labels : String → String → Fields
runtime_labels sandbox_id workspace_id = dict (
    ("io.litellm-codex-gateway.managed", str "true")
    ∷ ("io.litellm-codex-gateway.role", str "runtime-state")
    ∷ ("io.litellm-codex-gateway.sandbox-id", str sandbox_id)
    ∷ ("io.litellm-codex-gateway.workspace-id", str workspace_id)
    ∷ [])

unfoldable pub create_runtime_volume : String → String → Program (Unit {0})
create_runtime_volume sandbox_id workspace_id =
    dockered
      (volume_create (runtime_state_volume sandbox_id) (runtime_labels sandbox_id workspace_id))

unfoldable pub remove_volume : String → Program (Unit {0})
remove_volume name =
    suppress is_exception (dockered (volume_get name) >> dockered (volume_remove name))

unfoldable pub remove_volume_checked : String → Program (Unit {0})
remove_volume_checked name = do
  there ← rescue_if is_missing (dockered (volume_get name) >> done true) (λ e. done false)
  when there (
      rescue_if is_exception (dockered (volume_remove name))
        (λ e. raises (backend_error "Failed to remove Workspace volume")))
