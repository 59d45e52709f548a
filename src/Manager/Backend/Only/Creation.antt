-- ===== src/Manager/Backend/Only/Creation.antt =====
-- What the methods of Manager/Backend/Creation ask of the store: they finish no Sandbox into a live status.
use litellm_gateway.Prelude.{ℕ, String, Option, none, some}
use litellm_gateway.Prelude.Json.{Json, null, str, Fields}
use litellm_gateway.Manager.State.{Workspace}
use litellm_gateway.Manager.Program.{Error, SandboxRecord}
use litellm_gateway.Manager.Backend.{Environment}
use litellm_gateway.Manager.Backend.Creation.{
  requested_sandbox_id, granted_workspace, abandon, undo_claim, keep_expired, undo_container,
  create_ephemeral, choose_workspace, prepare, claim, create_container, start_container, launch,
  create_in, create,
}
use litellm_gateway.Manager.Program.Only.{Only}
use litellm_gateway.Manager.Backend.Only.{Allowed, backend_rules}
use litellm_gateway.Manager.Backend.Only.Waiting.{wait_for_worker-Only}
use litellm_gateway.Manager.Backend.Only.Sandboxes.{finish_failed_creation-Only}
use litellm_gateway.Manager.Backend.Only.Restores.{prepare_workspace-Only}

requested_sandbox_id-Only : (v : Json) → Only Allowed (requested_sandbox_id v)
unfolding requested_sandbox_id
requested_sandbox_id-Only null = search backend_rules
requested_sandbox_id-Only (str s) = search backend_rules
requested_sandbox_id-Only _ = search backend_rules

granted_workspace-Only : (granted : Fields) (v : Json) → Only Allowed (granted_workspace granted v)
unfolding granted_workspace
granted_workspace-Only granted (str workspace_id) =
    search (backend_rules, requested_sandbox_id-Only)
granted_workspace-Only granted _ = search backend_rules

abandon-Only : (workspace : Workspace) (e : Error) → Only Allowed (abandon workspace e)
unfolding abandon
abandon-Only workspace e = search backend_rules

undo_claim-Only :
    (workspace : Workspace) (sandbox_id : String) (e : Error)
    → Only Allowed (undo_claim workspace sandbox_id e)
unfolding undo_claim
undo_claim-Only workspace sandbox_id e = search (backend_rules, finish_failed_creation-Only)

keep_expired-Only : (record_ : SandboxRecord) → Only Allowed (keep_expired record_)
unfolding keep_expired
keep_expired-Only record_ = search backend_rules

undo_container-Only :
    (workspace : Workspace) (record_ : SandboxRecord) (e : Error)
    → Only Allowed (undo_container workspace record_ e)
unfolding undo_container
undo_container-Only workspace record_ e =
    search (backend_rules, finish_failed_creation-Only, keep_expired-Only)

create_ephemeral-Only : (env : Environment) → Only Allowed (create_ephemeral env)
unfolding create_ephemeral
create_ephemeral-Only env = search backend_rules

choose_workspace-Only :
    (env : Environment) (found : Option String) → Only Allowed (choose_workspace env found)
unfolding choose_workspace
choose_workspace-Only env none = search (backend_rules, create_ephemeral-Only)
choose_workspace-Only env (some workspace_grant) = search (backend_rules, granted_workspace-Only)

prepare-Only : (env : Environment) (workspace : Workspace) → Only Allowed (prepare env workspace)
unfolding prepare
prepare-Only env workspace = search (backend_rules, prepare_workspace-Only, abandon-Only) depth 12

claim-Only :
    (env : Environment) (workspace : Workspace) (sandbox_id : String) (worker_host : String)
    (created_at : ℕ)
    → Only Allowed (claim env workspace sandbox_id worker_host created_at)
unfolding claim
claim-Only env workspace sandbox_id worker_host created_at = search backend_rules

create_container-Only :
    (env : Environment) (workspace : Workspace) (sandbox_id : String) (worker_host : String)
    → Only Allowed (create_container env workspace sandbox_id worker_host)
unfolding create_container
create_container-Only env workspace sandbox_id worker_host = search (backend_rules, undo_claim-Only)

start_container-Only :
    (env : Environment) (record_ : SandboxRecord) → Only Allowed (start_container env record_)
unfolding start_container
start_container-Only env record_ = search (backend_rules, wait_for_worker-Only) depth 12

launch-Only :
    (env : Environment) (workspace : Workspace) (sandbox_id : String) (worker_host : String)
    (created_at : ℕ)
    → Only Allowed (launch env workspace sandbox_id worker_host created_at)
unfolding launch
launch-Only env workspace sandbox_id worker_host created_at =
    search (backend_rules, undo_container-Only, create_container-Only, start_container-Only) depth
      12

create_in-Only :
    (env : Environment) (workspace : Workspace) (sandbox_id : String)
    → Only Allowed (create_in env workspace sandbox_id)
unfolding create_in
create_in-Only env workspace sandbox_id = search (backend_rules, claim-Only, launch-Only)

pub create-Only :
    (env : Environment) (workspace_grant : Option String)
    → Only Allowed (create env workspace_grant)
unfolding create
create-Only env workspace_grant =
    search (backend_rules, choose_workspace-Only, prepare-Only, create_in-Only)
