-- ===== src/Manager/Backend/Only/Reaper.antt =====
-- What the methods of Manager/Backend/Reaper ask of the store: they finish no Sandbox into a live status.
use litellm_gateway.Prelude.{ℕ, ◌-◌, [], ltb}
use litellm_gateway.Manager.State.{Workspace}
use litellm_gateway.Manager.Program.{
  Task, checkpoints, retires, restores, transfers, SandboxRecord, due_for_cleanup,
}
use litellm_gateway.Manager.Backend.{Environment}
use litellm_gateway.Manager.Backend.Reaper.{
  reap, clean, candidates_before, tend_storage, reaper_round, task,
}
use litellm_gateway.Manager.Program.Only.{Only, if-Only, done-Only, ask-Only}
use litellm_gateway.Manager.Backend.Only.{Allowed, backend_rules}
use litellm_gateway.Manager.Backend.Only.Sandboxes.{terminate-Only}
use litellm_gateway.Manager.Backend.Only.Restores.{restore_requested_workspace-Only}
use litellm_gateway.Manager.Backend.Only.Checkpoints.{
  checkpoint_workspace-Only, retire_workspace-Only, cleanup_local_workspace-Only,
}
use litellm_gateway.Manager.Backend.Only.Operations.{execute_file_operation-Only}

reap-Only : (env : Environment) (record_ : SandboxRecord) → Only Allowed (reap env record_)
unfolding reap
reap-Only env record_ = search (backend_rules, terminate-Only)

clean-Only : (env : Environment) (workspace : Workspace) → Only Allowed (clean env workspace)
unfolding clean
clean-Only env workspace = search (backend_rules, cleanup_local_workspace-Only)

candidates_before-Only :
    (env : Environment) (timestamp : ℕ) → Only Allowed (candidates_before env timestamp)
unfolding candidates_before
candidates_before-Only env timestamp =
    if-Only (ltb timestamp env.settings.workspace_local_retention_seconds) _ _ (done-Only [])
      (ask-Only (due_for_cleanup (timestamp - env.settings.workspace_local_retention_seconds)) tt)

tend_storage-Only : (env : Environment) (timestamp : ℕ) → Only Allowed (tend_storage env timestamp)
unfolding tend_storage
tend_storage-Only env timestamp =
    search (backend_rules, clean-Only, candidates_before-Only) depth 12

pub reaper_round-Only : (env : Environment) → Only Allowed (reaper_round env)
unfolding reaper_round
reaper_round-Only env = search (backend_rules, reap-Only, tend_storage-Only)

pub task-Only : (env : Environment) (x : Task) → Only Allowed (task env x)
unfolding task
task-Only env (checkpoints workspace_id) = search (backend_rules, checkpoint_workspace-Only)
task-Only env (retires workspace_id) = search (backend_rules, retire_workspace-Only)
task-Only env (restores operation) = search (backend_rules, restore_requested_workspace-Only)
task-Only env (transfers operation granted) = search (backend_rules, execute_file_operation-Only)
