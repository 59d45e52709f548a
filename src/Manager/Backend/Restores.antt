-- ===== src/Manager/Backend/Restores.antt =====
-- src/sandbox_manager/docker_backend.py: how a Workspace is made ready, `_prepare_workspace` and
-- `_restore_requested_workspace`.
--
-- Under `except`, `current` is the row that the transition returned, with the id of the one before.
use litellm_gateway.Prelude.{
  String, true, not, ◌&&◌, Option, none, some, [], ◌∷◌, ◌==◌, if◌then◌else◌, is_some, is_none,
}
use litellm_gateway.Prelude.Json.{bool, str, obj, dict, or_null}
use litellm_gateway.Prelude.Text.{concat}
use litellm_gateway.Manager.State.{Workspace, Operation}
use litellm_gateway.Manager.Program.{
  Error, is_exception, conflict_error, backend_error, Program, done, raises, ◌>>=◌, ◌>>◌, rescue_if,
  when, runs, run_restore, locked,
}
use litellm_gateway.Manager.Backend.{Environment, is_conflict, is_backend_error, get_workspace}
use litellm_gateway.Manager.Backend.Volumes.{ensure_workspace_volume, volume_exists, remove_volume}
use litellm_gateway.Manager.Backend.Storing.{
  ignore, transition_workspace, transition_if_expected, create_operation, update_operation,
  fail_if_there,
}

-- except Exception, in _prepare_workspace
unfoldable pub failed_restore : Workspace → String → Error → Program Workspace
failed_restore current operation_id e =
    remove_volume current.volume_name
    >> fail_if_there operation_id e
    >> transition_if_expected current.id ("restoring" ∷ []) "remote_only"
    >> raises (if is_backend_error e then e else backend_error "Failed to restore Workspace")

unfoldable pub restore_materialized : Workspace → String → String → Program Workspace
restore_materialized current operation_id revision_id = do
  ignore (update_operation operation_id "running" none none none)
  result ← runs (run_restore operation_id current revision_id)
  ignore (update_operation operation_id "succeeded" none (some (obj result)) none)
  transition_workspace current.id ("restoring" ∷ []) "detached_clean"

-- The first handler raises, so the second one is of the same `try`.
unfoldable pub restore_into : Workspace → String → String → Program Workspace
restore_into current operation_id revision_id = do
  restoring ←
      rescue_if is_exception (transition_workspace current.id ("remote_only" ∷ []) "restoring")
        (λ e. failed_restore current operation_id e)
  rescue_if is_exception (restore_materialized restoring operation_id revision_id)
      (λ e. failed_restore restoring operation_id e)

unfoldable pub restore_revision : Workspace → String → Program Workspace
restore_revision current revision_id = do
  there ← volume_exists current.volume_name
  when there (remove_volume current.volume_name)
  ensure_workspace_volume current
  (operation, created) ←
      create_operation "restore" current.id none
        (concat "restore:" (concat current.id (concat ":" revision_id)))
        (obj (dict (("revision_id", str revision_id) ∷ [])))
  restore_into current operation.id revision_id

module _ (env : Environment) where
  unfoldable pub restore_head : Workspace → Option String → Program Workspace
  restore_head current (some revision_id) =
      if env.settings.storage_enabled && env.has_runner
      then restore_revision current revision_id
      else raises (backend_error "Workspace requires object-storage restore")
  restore_head current none = raises (backend_error "Workspace requires object-storage restore")

  unfoldable pub restore_if_remote : Workspace → Program Workspace
  restore_if_remote current =
      if not (current.status == "remote_only")
      then done current
      else restore_head current current.head_revision

  -- current.status != "remote_only" and not volume_exists
  unfoldable pub without_volume : Workspace → Program Workspace
  without_volume current =
      if is_some current.head_revision && is_none current.active_sandbox_id
      then (rescue_if is_conflict
            (transition_workspace current.id ("detached_clean" ∷ []) "remote_only")
            (λ e. raises (conflict_error ""))
          >>= λ moved. restore_if_remote moved)
      else (if current.status == "detached_dirty"
          then raises (backend_error "Dirty Workspace has no local volume")
          else ensure_workspace_volume current >> done current)

  unfoldable pub prepare_current : String → Program Workspace
  prepare_current workspace_id = do
    current ← get_workspace workspace_id
    there ← volume_exists current.volume_name
    if not (current.status == "remote_only") && not there
        then without_volume current
        else restore_if_remote current

  -- _prepare_workspace
  unfoldable pub prepare_workspace : Workspace → Program Workspace
  prepare_workspace workspace = locked workspace.id (prepare_current workspace.id)

  unfoldable pub restore_requested : Operation → Workspace → Program (Unit {0})
  restore_requested operation workspace =
      if workspace.status == "detached_clean"
      then ignore (
          update_operation operation.id "succeeded" none
            (some (
              obj (
                dict (
                  ("revision_id", or_null workspace.head_revision)
                  ∷ ("already_materialized", bool true)
                  ∷ []))))
            none)
      else (if not (workspace.status == "remote_only")
          then raises (conflict_error "Workspace cannot restore")
          else ignore (prepare_workspace workspace))

  -- _restore_requested_workspace
  unfoldable pub restore_requested_workspace : Operation → Program (Unit {0})
  restore_requested_workspace operation =
      rescue_if is_exception
        (get_workspace operation.workspace_id >>= λ workspace.
          restore_requested operation workspace)
        (λ e. fail_if_there operation.id e)
