-- ===== src/Manager/Backend/Only/Workspaces.antt =====
-- What the methods of Manager/Backend/Workspaces ask of the store: they finish no Sandbox into a live status.
use litellm_gateway.Prelude.{String, Option, none, some}
use litellm_gateway.Manager.Program.{Error}
use litellm_gateway.Manager.Backend.{Environment}
use litellm_gateway.Manager.Backend.Workspaces.{
  creation_failed, terminate_active, insert_recoverable, create_workspace, inspect_workspace,
  schedule_delete, release_workspace,
}
use litellm_gateway.Manager.Program.Only.{Only}
use litellm_gateway.Manager.Backend.Only.{Allowed, backend_rules}
use litellm_gateway.Manager.Backend.Only.Sandboxes.{terminate-Only}

creation_failed-Only : (e : Error) → Only Allowed (creation_failed e)
unfolding creation_failed
creation_failed-Only e = search backend_rules

terminate_active-Only :
    (env : Environment) (found : Option String) → Only Allowed (terminate_active env found)
unfolding terminate_active
terminate_active-Only env none = search backend_rules
terminate_active-Only env (some sandbox_id) = search (backend_rules, terminate-Only)

insert_recoverable-Only :
    (env : Environment) (workspace_id : String) → Only Allowed (insert_recoverable env workspace_id)
unfolding insert_recoverable
insert_recoverable-Only env workspace_id = search backend_rules

pub create_workspace-Only :
    (env : Environment) (workspace_id : String) (workspace_grant : String)
    → Only Allowed (create_workspace env workspace_id workspace_grant)
unfolding create_workspace
create_workspace-Only env workspace_id workspace_grant =
    search (backend_rules, creation_failed-Only, insert_recoverable-Only)

pub inspect_workspace-Only :
    (env : Environment) (workspace_id : String) (workspace_grant : String)
    → Only Allowed (inspect_workspace env workspace_id workspace_grant)
unfolding inspect_workspace
inspect_workspace-Only env workspace_id workspace_grant = search backend_rules

schedule_delete-Only :
    (env : Environment) (workspace_id : String) → Only Allowed (schedule_delete env workspace_id)
unfolding schedule_delete
schedule_delete-Only env workspace_id = search backend_rules

pub release_workspace-Only :
    (env : Environment) (workspace_id : String) (workspace_grant : String)
    → Only Allowed (release_workspace env workspace_id workspace_grant)
unfolding release_workspace
release_workspace-Only env workspace_id workspace_grant =
    search (backend_rules, terminate_active-Only, schedule_delete-Only)
