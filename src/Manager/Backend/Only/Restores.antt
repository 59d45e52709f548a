-- ===== src/Manager/Backend/Only/Restores.antt =====
-- What the methods of Manager/Backend/Restores ask of the store: they finish no Sandbox into a live status.
use litellm_gateway.Prelude.{String, Option, none, some}
use litellm_gateway.Manager.State.{Workspace, Operation}
use litellm_gateway.Manager.Program.{Error}
use litellm_gateway.Manager.Backend.{Environment}
use litellm_gateway.Manager.Backend.Restores.{
  failed_restore, restore_materialized, restore_into, restore_revision, restore_head,
  restore_if_remote, without_volume, prepare_current, prepare_workspace, restore_requested,
  restore_requested_workspace,
}
use litellm_gateway.Manager.Program.Only.{Only}
use litellm_gateway.Manager.Backend.Only.{Allowed, backend_rules}

failed_restore-Only :
    (current : Workspace) (operation_id : String) (e : Error)
    → Only Allowed (failed_restore current operation_id e)
unfolding failed_restore
failed_restore-Only current operation_id e = search backend_rules

restore_materialized-Only :
    (current : Workspace) (operation_id : String) (revision_id : String)
    → Only Allowed (restore_materialized current operation_id revision_id)
unfolding restore_materialized
restore_materialized-Only current operation_id revision_id = search backend_rules

restore_into-Only :
    (current : Workspace) (operation_id : String) (revision_id : String)
    → Only Allowed (restore_into current operation_id revision_id)
unfolding restore_into
restore_into-Only current operation_id revision_id =
    search (backend_rules, failed_restore-Only, restore_materialized-Only)

restore_revision-Only :
    (current : Workspace) (revision_id : String)
    → Only Allowed (restore_revision current revision_id)
unfolding restore_revision
restore_revision-Only current revision_id = search (backend_rules, restore_into-Only)

restore_head-Only :
    (env : Environment) (current : Workspace) (found : Option String)
    → Only Allowed (restore_head env current found)
unfolding restore_head
restore_head-Only env current (some revision_id) = search (backend_rules, restore_revision-Only)
restore_head-Only env current none = search backend_rules

restore_if_remote-Only :
    (env : Environment) (current : Workspace) → Only Allowed (restore_if_remote env current)
unfolding restore_if_remote
restore_if_remote-Only env current = search (backend_rules, restore_head-Only)

without_volume-Only :
    (env : Environment) (current : Workspace) → Only Allowed (without_volume env current)
unfolding without_volume
without_volume-Only env current = search (backend_rules, restore_if_remote-Only)

prepare_current-Only :
    (env : Environment) (workspace_id : String) → Only Allowed (prepare_current env workspace_id)
unfolding prepare_current
prepare_current-Only env workspace_id =
    search (backend_rules, restore_if_remote-Only, without_volume-Only)

pub prepare_workspace-Only :
    (env : Environment) (workspace : Workspace) → Only Allowed (prepare_workspace env workspace)
unfolding prepare_workspace
prepare_workspace-Only env workspace = search (backend_rules, prepare_current-Only)

restore_requested-Only :
    (env : Environment) (operation : Operation) (workspace : Workspace)
    → Only Allowed (restore_requested env operation workspace)
unfolding restore_requested
restore_requested-Only env operation workspace = search (backend_rules, prepare_workspace-Only)

pub restore_requested_workspace-Only :
    (env : Environment) (operation : Operation)
    → Only Allowed (restore_requested_workspace env operation)
unfolding restore_requested_workspace
restore_requested_workspace-Only env operation = search (backend_rules, restore_requested-Only)
