-- ===== src/Manager/Backend/Only/Checkpoints.antt =====
-- What the methods of Manager/Backend/Checkpoints ask of the store: they finish no Sandbox into a live status.
use litellm_gateway.Prelude.{ℕ, String}
use litellm_gateway.Prelude.Json.{Json, str}
use litellm_gateway.Manager.State.{Workspace, Operation, Result, not_found, ok, err}
use litellm_gateway.Manager.Program.{Error}
use litellm_gateway.Manager.Backend.{Environment}
use litellm_gateway.Manager.Backend.Checkpoints.{
  commit_revision, revision_in, checkpoint_under, failed_checkpoint, checkpoint_dirty,
  checkpoint_current, retired, begin_retirement, retire_under, retire_due, retire_read,
  retire_found, retire_current, checkpoint_workspace, retire_workspace, cleanup_current,
  cleanup_local_workspace,
}
use litellm_gateway.Manager.Program.Only.{Only}
use litellm_gateway.Manager.Backend.Only.{Allowed, backend_rules}

commit_revision-Only :
    (workspace_id : String) (operation_id : String) (revision_id : String) (generation : ℕ)
    (result : Json)
    → Only Allowed (commit_revision workspace_id operation_id revision_id generation result)
unfolding commit_revision
commit_revision-Only workspace_id operation_id revision_id generation result = search backend_rules

revision_in-Only : (v : Json) → Only Allowed (revision_in v)
unfolding revision_in
revision_in-Only (str revision_id) = search backend_rules
revision_in-Only _ = search backend_rules

checkpoint_under-Only :
    (workspace : Workspace) (operation : Operation)
    → Only Allowed (checkpoint_under workspace operation)
unfolding checkpoint_under
checkpoint_under-Only workspace operation =
    search (backend_rules, commit_revision-Only, revision_in-Only)

failed_checkpoint-Only :
    (workspace : Workspace) (operation : Operation) (e : Error)
    → Only Allowed (failed_checkpoint workspace operation e)
unfolding failed_checkpoint
failed_checkpoint-Only workspace operation e = search backend_rules

checkpoint_dirty-Only : (workspace : Workspace) → Only Allowed (checkpoint_dirty workspace)
unfolding checkpoint_dirty
checkpoint_dirty-Only workspace =
    search (backend_rules, checkpoint_under-Only, failed_checkpoint-Only)

checkpoint_current-Only : (workspace_id : String) → Only Allowed (checkpoint_current workspace_id)
unfolding checkpoint_current
checkpoint_current-Only workspace_id = search (backend_rules, checkpoint_dirty-Only)

retired-Only :
    (operation : Operation) (workspace : Workspace) → Only Allowed (retired operation workspace)
unfolding retired
retired-Only operation workspace = search backend_rules

begin_retirement-Only : (workspace : Workspace) → Only Allowed (begin_retirement workspace)
unfolding begin_retirement
begin_retirement-Only workspace = search backend_rules

retire_under-Only :
    (workspace : Workspace) (operation : Operation)
    → Only Allowed (retire_under workspace operation)
unfolding retire_under
retire_under-Only workspace operation =
    search (backend_rules, retired-Only, begin_retirement-Only) depth 12

retire_due-Only : (workspace : Workspace) → Only Allowed (retire_due workspace)
unfolding retire_due
retire_due-Only workspace = search (backend_rules, retire_under-Only)

retire_read-Only : (workspace : Workspace) → Only Allowed (retire_read workspace)
unfolding retire_read
retire_read-Only workspace = search (backend_rules, retire_due-Only)

retire_found-Only : (x : Result Workspace) → Only Allowed (retire_found x)
unfolding retire_found
retire_found-Only (ok workspace) = search (backend_rules, retire_read-Only)
retire_found-Only (err not_found) = search backend_rules
retire_found-Only (err e) = search backend_rules

retire_current-Only : (workspace_id : String) → Only Allowed (retire_current workspace_id)
unfolding retire_current
retire_current-Only workspace_id = search (backend_rules, retire_found-Only)

pub checkpoint_workspace-Only :
    (env : Environment) (workspace_id : String)
    → Only Allowed (checkpoint_workspace env workspace_id)
unfolding checkpoint_workspace
checkpoint_workspace-Only env workspace_id = search (backend_rules, checkpoint_current-Only)

pub retire_workspace-Only :
    (env : Environment) (workspace_id : String) → Only Allowed (retire_workspace env workspace_id)
unfolding retire_workspace
retire_workspace-Only env workspace_id = search (backend_rules, retire_current-Only)

cleanup_current-Only :
    (env : Environment) (workspace_id : String) → Only Allowed (cleanup_current env workspace_id)
unfolding cleanup_current
cleanup_current-Only env workspace_id = search backend_rules depth 12

pub cleanup_local_workspace-Only :
    (env : Environment) (workspace_id : String)
    → Only Allowed (cleanup_local_workspace env workspace_id)
unfolding cleanup_local_workspace
cleanup_local_workspace-Only env workspace_id = search (backend_rules, cleanup_current-Only)
