-- ===== src/Manager/Backend/Reaper.antt =====
-- src/sandbox_manager/docker_backend.py: a round of `_reaper`, after its sleep, and the tasks that the
-- backend starts.
use litellm_gateway.Prelude.{ℕ, ◌-◌, List, [], ◌∷◌, keep, leb, ltb, if◌then◌else◌}
use litellm_gateway.Manager.State.{Workspace}
use litellm_gateway.Manager.Program.{
  is_exception, Program, done, ◌>>=◌, ◌>>◌, when, each, ask, look, now, spawn, Task, checkpoints,
  retires, restores, transfers, SandboxRecord, all_records, with_status, due_for_retirement,
  due_for_cleanup, suppress,
}
use litellm_gateway.Manager.Backend.{Environment}
use litellm_gateway.Manager.Backend.Storing.{ignore}
use litellm_gateway.Manager.Backend.Sandboxes.{terminate}
use litellm_gateway.Manager.Backend.Restores.{restore_requested_workspace}
use litellm_gateway.Manager.Backend.Checkpoints.{
  checkpoint_workspace, retire_workspace, cleanup_local_workspace,
}
use litellm_gateway.Manager.Backend.Operations.{execute_file_operation}

abbrev expired_records : ℕ → List SandboxRecord → List SandboxRecord
expired_records timestamp records = keep (λ r. leb r.expires_at timestamp) records

module _ (env : Environment) where
  unfoldable pub reap : SandboxRecord → Program (Unit {0})
  reap record_ = suppress is_exception (ignore (terminate env record_.sandbox_id))

  unfoldable pub clean : Workspace → Program (Unit {0})
  clean workspace = suppress is_exception (cleanup_local_workspace env workspace.id)

  -- cleanup_candidates(cutoff): a cutoff before 0 is before every update, so no row is a candidate.
  unfoldable pub candidates_before : ℕ → Program (List Workspace)
  candidates_before timestamp =
      if ltb timestamp env.settings.workspace_local_retention_seconds
      then done []
      else ask (due_for_cleanup (timestamp - env.settings.workspace_local_retention_seconds))

  unfoldable pub tend_storage : ℕ → Program (Unit {0})
  tend_storage timestamp = do
    dirty ← ask (with_status ("detached_dirty" ∷ []))
    each dirty (λ w. spawn (checkpoints w.id))
    due ← ask (due_for_retirement timestamp)
    each due (λ w. spawn (retires w.id))
    old ← candidates_before timestamp
    each old clean

  unfoldable pub reaper_round : Program (Unit {0})
  reaper_round = do
    timestamp ← now
    records ← look all_records
    each (expired_records timestamp records) reap
    when env.settings.storage_enabled (tend_storage timestamp)

  -- The coroutine of a task.
  unfoldable pub task : Task → Program (Unit {0})
  task (checkpoints workspace_id) = checkpoint_workspace env workspace_id
  task (retires workspace_id) = retire_workspace env workspace_id
  task (restores operation) = restore_requested_workspace env operation
  task (transfers operation granted) = execute_file_operation env operation granted
