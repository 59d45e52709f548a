-- ===== src/Manager/Backend/Only/Sandboxes.antt =====
-- What the methods of Manager/Backend/Sandboxes ask of the store: they finish no Sandbox into a live status.
use litellm_gateway.Prelude.{String}
use litellm_gateway.Manager.State.{Workspace}
use litellm_gateway.Manager.Program.{SandboxRecord}
use litellm_gateway.Manager.Backend.{Environment}
use litellm_gateway.Manager.Backend.Sandboxes.{
  finish_failed_creation, inspect, renew_running, renew, release_files, terminate_record, terminate,
}
use litellm_gateway.Manager.Program.Only.{Only}
use litellm_gateway.Manager.Backend.Only.{Allowed, backend_rules}
use litellm_gateway.Manager.Backend.Only.Waiting.{status_of-Only}

pub finish_failed_creation-Only :
    (sandbox_id : String) (workspace : Workspace)
    → Only Allowed (finish_failed_creation sandbox_id workspace)
unfolding finish_failed_creation
finish_failed_creation-Only sandbox_id workspace = search backend_rules

pub inspect-Only : (env : Environment) (sandbox_id : String) → Only Allowed (inspect env sandbox_id)
unfolding inspect
inspect-Only env sandbox_id = search (backend_rules, status_of-Only)

renew_running-Only :
    (env : Environment) (record_ : SandboxRecord) → Only Allowed (renew_running env record_)
unfolding renew_running
renew_running-Only env record_ = search backend_rules

pub renew-Only : (env : Environment) (sandbox_id : String) → Only Allowed (renew env sandbox_id)
unfolding renew
renew-Only env sandbox_id = search (backend_rules, status_of-Only, renew_running-Only)

release_files-Only :
    (env : Environment) (record_ : SandboxRecord) → Only Allowed (release_files env record_)
unfolding release_files
release_files-Only env record_ = search backend_rules

terminate_record-Only :
    (env : Environment) (record_ : SandboxRecord) → Only Allowed (terminate_record env record_)
unfolding terminate_record
terminate_record-Only env record_ = search (backend_rules, release_files-Only) depth 12

pub terminate-Only :
    (env : Environment) (sandbox_id : String) → Only Allowed (terminate env sandbox_id)
unfolding terminate
terminate-Only env sandbox_id = search (backend_rules, terminate_record-Only)
