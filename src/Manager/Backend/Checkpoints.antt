-- ===== src/Manager/Backend/Checkpoints.antt =====
-- src/sandbox_manager/docker_backend.py: the tasks that move a Workspace without a Sandbox,
-- `_checkpoint_workspace`, `_retire_workspace` and `_cleanup_local_workspace`.
use litellm_gateway.Prelude.{
  ℕ, ◌+◌, String, Bool, false, not, ◌&&◌, Option, none, some, [], ◌∷◌, ◌==◌, if◌then◌else◌, is_some,
  is_none, leb,
}
use litellm_gateway.Prelude.Json.{Json, int, pos, str, obj, end, Fields, get, dict}
use litellm_gateway.Prelude.Text.{concat, decimal}
use litellm_gateway.Manager.State.{Workspace, Operation, one_of, Result, not_found, ok, err}
use litellm_gateway.Manager.State.History.{commits}
use litellm_gateway.Manager.Program.{
  Error, is_exception, execution_error, Program, done, raises, ◌>>=◌, ◌>>◌, rescue_if, when,
  state_error, store, now, runs, run_checkpoint, run_retire, locked, ask, workspace_of,
}
use litellm_gateway.Manager.Backend.{Environment, get_workspace}
use litellm_gateway.Manager.Backend.Volumes.{remove_volume_checked}
use litellm_gateway.Manager.Backend.Storing.{
  ignore, delete_workspace, transition_workspace, transition_if_expected, create_operation,
  update_operation, fail_if_there,
}

unfoldable pub commit_revision :
    (workspace_id operation_id revision_id : String) → ℕ → Json → Program (Unit {0})
commit_revision workspace_id operation_id revision_id generation result = now >>= λ timestamp.
    ignore (store (commits workspace_id operation_id revision_id generation result timestamp))

-- The revision that a checkpoint's result names.
unfoldable pub revision_in : Json → Program String
revision_in (str revision_id) =
    if revision_id == ""
    then raises (execution_error "checkpoint returned no revision_id")
    else done revision_id
revision_in _ = raises (execution_error "checkpoint returned no revision_id")

-- try, in _checkpoint_workspace
unfoldable pub checkpoint_under : Workspace → Operation → Program (Unit {0})
checkpoint_under workspace operation = do
  moved ← transition_workspace workspace.id ("detached_dirty" ∷ []) "checkpointing"
  ignore (update_operation operation.id "running" none none none)
  result ← runs (run_checkpoint operation.id moved)
  revision_id ← revision_in (get "revision_id" result)
  commit_revision moved.id operation.id revision_id moved.generation (obj result)

unfoldable pub failed_checkpoint : Workspace → Operation → Error → Program (Unit {0})
failed_checkpoint workspace operation e =
    fail_if_there operation.id e
    >> transition_if_expected workspace.id ("checkpointing" ∷ []) "detached_dirty"

unfoldable pub checkpoint_dirty : Workspace → Program (Unit {0})
checkpoint_dirty workspace = do
  (operation, created) ←
      create_operation "checkpoint" workspace.id none
        (concat "checkpoint:" (concat workspace.id (concat ":" (decimal workspace.generation))))
        (obj (dict (("generation", int (pos workspace.generation)) ∷ [])))
  when (not (operation.status == "succeeded")) (
      rescue_if is_exception (checkpoint_under workspace operation)
        (λ e. failed_checkpoint workspace operation e))

unfoldable pub checkpoint_current : String → Program (Unit {0})
checkpoint_current workspace_id = do
  workspace ← get_workspace workspace_id
  when (is_none workspace.active_sandbox_id && workspace.status == "detached_dirty")
      (checkpoint_dirty workspace)

-- Is `delete_after` over, and nothing in the way of a retirement?
abbrev is_over : Option ℕ → ℕ → Bool
is_over none timestamp = false
is_over (some after) timestamp = leb after timestamp

abbrev pub is_retirable_at : ℕ → Workspace → Bool
is_retirable_at timestamp workspace =
    is_over workspace.delete_after timestamp
    && is_none workspace.active_sandbox_id
    && one_of workspace.status ("detached_clean" ∷ "remote_only" ∷ "deleting" ∷ [])

unfoldable pub retired : Operation → Workspace → Program Fields
retired operation workspace =
    if is_some workspace.head_revision
    then runs (run_retire operation.id workspace)
    else done (dict (("objects_deleted", int (pos 0)) ∷ []))

unfoldable pub begin_retirement : Workspace → Program Workspace
begin_retirement workspace =
    if not (workspace.status == "deleting")
    then transition_workspace workspace.id ("detached_clean" ∷ "remote_only" ∷ []) "deleting"
    else done workspace

-- try, in _retire_workspace
unfoldable pub retire_under : Workspace → Operation → Program (Unit {0})
retire_under workspace operation = do
  moved ← begin_retirement workspace
  ignore (update_operation operation.id "running" none none none)
  result ← retired operation moved
  ignore (update_operation operation.id "succeeded" none (some (obj result)) none)
  remove_volume_checked moved.volume_name
  delete_workspace moved.id

unfoldable pub retire_due : Workspace → Program (Unit {0})
retire_due workspace = do
  (operation, created) ←
      create_operation "retire" workspace.id none (concat "retire:" workspace.id) (obj end)
  rescue_if is_exception (retire_under workspace operation) (λ e. fail_if_there operation.id e)

unfoldable pub retire_read : Workspace → Program (Unit {0})
retire_read workspace = do
  timestamp ← now
  when (is_retirable_at timestamp workspace) (retire_due workspace)

-- `return` where the Workspace is gone.
unfoldable pub retire_found : Result Workspace → Program (Unit {0})
retire_found (ok workspace) = retire_read workspace
retire_found (err not_found) = done tt
retire_found (err e) = raises (state_error e)

unfoldable pub retire_current : String → Program (Unit {0})
retire_current workspace_id = do found ← ask (workspace_of workspace_id); retire_found found

module _ (env : Environment) where
  -- _checkpoint_workspace
  unfoldable pub checkpoint_workspace : String → Program (Unit {0})
  checkpoint_workspace workspace_id =
      when env.has_runner (locked workspace_id (checkpoint_current workspace_id))

  -- _retire_workspace
  unfoldable pub retire_workspace : String → Program (Unit {0})
  retire_workspace workspace_id =
      when env.has_runner (locked workspace_id (retire_current workspace_id))

  -- `updated_at <= cutoff`, with the subtraction of the cutoff on the other side
  abbrev pub is_cleanable : ℕ → Workspace → Bool
  is_cleanable timestamp workspace =
      workspace.status == "detached_clean"
      && is_some workspace.head_revision
      && is_none workspace.active_sandbox_id
      && leb (workspace.updated_at + env.settings.workspace_local_retention_seconds) timestamp

  unfoldable pub cleanup_current : String → Program (Unit {0})
  cleanup_current workspace_id = do
    workspace ← get_workspace workspace_id
    timestamp ← now
    when (is_cleanable timestamp workspace) (
        remove_volume_checked workspace.volume_name
        >> ignore (transition_workspace workspace.id ("detached_clean" ∷ []) "remote_only"))

  -- _cleanup_local_workspace
  unfoldable pub cleanup_local_workspace : String → Program (Unit {0})
  cleanup_local_workspace workspace_id = locked workspace_id (cleanup_current workspace_id)
