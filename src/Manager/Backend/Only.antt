-- ===== src/Manager/Backend/Only.antt =====
-- What the shared methods of the backend ask of the store: they finish no Sandbox into a live status.
pub mod Checkpoints
pub mod Creation
pub mod Operations
pub mod Reaper
pub mod Requests
pub mod Restores
pub mod Sandboxes
pub mod Startup
pub mod Waiting
pub mod Workspaces
use litellm_gateway.Prelude.{
  ℕ, String, Bool, true, Option, none, some, List, ◌≡◌, false, refl, ◌==◌,
}
use litellm_gateway.Prelude.Json.{Json, Fields}
use litellm_gateway.Manager.State.{Workspace, Sandbox, Operation, StateError, Result, ok, err}
use litellm_gateway.Manager.State.History.{
  Ends, creates, deletes, schedules, transitions, claims, marks, renews, finishes, opens, updates,
  commits, consumes,
}
use litellm_gateway.SandboxApi.Grants.{Verified, accepted, refused}
use litellm_gateway.Manager.Program.{
  Program, look, put_record, pop_record, call, done, loop_time, sleeps, sleep, Command, stores,
  dockered, store, Error, SandboxRecord, Listed, volume_create, volume_get, volume_remove,
  container_create, container_start, container_reload, container_logs, container_remove,
  container_list, network_get, network_connect, image_get, docker_info,
}
use litellm_gateway.Manager.Program.Only.{
  Only, call-Only, done-Only, or_fail-Only, look-Only, dockered-Only, store-Only, only_rules,
}
use litellm_gateway.Manager.Backend.{
  Environment, accept, consume, authorize, get_workspace, found_record, get_record,
  remove_container,
}
use litellm_gateway.Manager.Backend.Volumes.{
  workspace_labels, ensure_workspace_volume, ensure_publish_spool_volume, volume_exists,
  create_runtime_volume, remove_volume, remove_volume_checked,
}
use litellm_gateway.Manager.Backend.Storing.{
  ignore, delete_workspace, delete_unless_used, transition_workspace, transition_if_expected,
  mark_sandbox_running, finish_sandbox, create_operation, update_operation, fail_operation,
  fail_if_there,
}

abbrev pub Allowed : Command → Type 0
Allowed (stores c) = Ends c
Allowed _ = Unit

-- Docker is asked for anything, and the store for any call but one that finishes a Sandbox.
pub volume_create-Only :
    (name : String) (labels : Fields)
    → Only Allowed {A = Unit {0}} (dockered (volume_create name labels))
volume_create-Only name labels = dockered-Only (volume_create name labels) tt

pub volume_get-Only : (name : String) → Only Allowed {A = Unit {0}} (dockered (volume_get name))
volume_get-Only name = dockered-Only (volume_get name) tt

pub volume_remove-Only :
    (name : String) → Only Allowed {A = Unit {0}} (dockered (volume_remove name))
volume_remove-Only name = dockered-Only (volume_remove name) tt

pub container_create-Only :
    (image : String) (spec : Fields)
    → Only Allowed {A = String} (dockered (container_create image spec))
container_create-Only image spec = dockered-Only (container_create image spec) tt

pub container_start-Only :
    (container : String) → Only Allowed {A = Unit {0}} (dockered (container_start container))
container_start-Only container = dockered-Only (container_start container) tt

pub container_reload-Only :
    (container : String)
    → Only Allowed {A = String × Fields} (dockered (container_reload container))
container_reload-Only container = dockered-Only (container_reload container) tt

pub container_logs-Only :
    (container : String) → Only Allowed {A = String} (dockered (container_logs container))
container_logs-Only container = dockered-Only (container_logs container) tt

pub container_remove-Only :
    (container : String) → Only Allowed {A = Unit {0}} (dockered (container_remove container))
container_remove-Only container = dockered-Only (container_remove container) tt

pub container_list-Only : Only Allowed {A = List Listed} (dockered container_list)
container_list-Only = dockered-Only container_list tt

pub network_get-Only : (name : String) → Only Allowed {A = Fields} (dockered (network_get name))
network_get-Only name = dockered-Only (network_get name) tt

pub network_connect-Only :
    (network container : String)
    → Only Allowed {A = Unit {0}} (dockered (network_connect network container))
network_connect-Only network container = dockered-Only (network_connect network container) tt

pub image_get-Only : (name : String) → Only Allowed {A = Unit {0}} (dockered (image_get name))
image_get-Only name = dockered-Only (image_get name) tt

pub docker_info-Only : Only Allowed {A = Json} (dockered docker_info)
docker_info-Only = dockered-Only docker_info tt

pub put_record-Only :
    (record_ : SandboxRecord) → Only Allowed {A = Unit {0}} (look (put_record record_))
put_record-Only record_ = look-Only (put_record record_) tt

pub pop_record-Only :
    (sandbox_id container : String)
    → Only Allowed {A = Unit {0}} (look (pop_record sandbox_id container))
pop_record-Only sandbox_id container = look-Only (pop_record sandbox_id container) tt

pub loop_time-Only : Only Allowed {A = ℕ} (call loop_time done)
loop_time-Only = call-Only loop_time done tt (λ x. done-Only x)

pub sleep-Only : Only Allowed sleep
unfolding sleep
sleep-Only = call-Only sleeps _ tt (λ x. or_fail-Only x)

pub creates-Only :
    (workspace_id kind volume_name : String) (timestamp : ℕ)
    → Only Allowed {A = Workspace} (store (creates workspace_id kind volume_name timestamp))
creates-Only workspace_id kind volume_name timestamp =
    store-Only (creates workspace_id kind volume_name timestamp) tt

pub deletes-Only :
    (workspace_id : String) → Only Allowed {A = Unit {0}} (store (deletes workspace_id))
deletes-Only workspace_id = store-Only (deletes workspace_id) tt

pub schedules-Only :
    (workspace_id : String) (after timestamp : ℕ)
    → Only Allowed {A = Workspace} (store (schedules workspace_id after timestamp))
schedules-Only workspace_id after timestamp = store-Only (schedules workspace_id after timestamp) tt

pub transitions-Only :
    (workspace_id : String) (expected : List String) (status : String) (timestamp : ℕ)
    → Only Allowed {A = Workspace} (store (transitions workspace_id expected status timestamp))
transitions-Only workspace_id expected status timestamp =
    store-Only (transitions workspace_id expected status timestamp) tt

pub claims-Only :
    (workspace_id sandbox_id host name : String) (created_at expires_at : ℕ)
    → Only Allowed {A = Workspace × Sandbox}
        (store (claims workspace_id sandbox_id host name created_at expires_at))
claims-Only workspace_id sandbox_id host name created_at expires_at =
    store-Only (claims workspace_id sandbox_id host name created_at expires_at) tt

pub marks-Only :
    (sandbox_id : String) (timestamp : ℕ)
    → Only Allowed {A = Unit {0}} (store (marks sandbox_id timestamp))
marks-Only sandbox_id timestamp = store-Only (marks sandbox_id timestamp) tt

pub renews-Only :
    (sandbox_id : String) (expires_at : ℕ)
    → Only Allowed {A = Sandbox} (store (renews sandbox_id expires_at))
renews-Only sandbox_id expires_at = store-Only (renews sandbox_id expires_at) tt

pub opens-Only :
    (operation_id operation workspace_id : String) (sandbox_id : Option String) (key : String)
    (input : Json) (timestamp : ℕ)
    → Only Allowed {A = Operation × Bool}
        (store (opens operation_id operation workspace_id sandbox_id key input timestamp))
opens-Only operation_id operation workspace_id sandbox_id key input timestamp =
    store-Only (opens operation_id operation workspace_id sandbox_id key input timestamp) tt

pub updates-Only :
    (operation_id status : String) (phase : Option String) (result : Option Json)
    (error : Option String) (timestamp : ℕ)
    → Only Allowed {A = Operation}
        (store (updates operation_id status phase result error timestamp))
updates-Only operation_id status phase result error timestamp =
    store-Only (updates operation_id status phase result error timestamp) tt

pub commits-Only :
    (workspace_id operation_id revision_id : String) (generation : ℕ) (result : Json)
    (timestamp : ℕ)
    → Only Allowed {A = Workspace × Operation}
        (store (commits workspace_id operation_id revision_id generation result timestamp))
commits-Only workspace_id operation_id revision_id generation result timestamp =
    store-Only (commits workspace_id operation_id revision_id generation result timestamp) tt

pub finishes-Only :
    (sandbox_id status workspace_status : String) (timestamp : ℕ)
    → (status == "starting") ≡ false
    → (status == "running") ≡ false
    → Only Allowed {A = Workspace} (store (finishes sandbox_id status workspace_status timestamp))
finishes-Only sandbox_id status workspace_status timestamp over gone =
    store-Only (finishes sandbox_id status workspace_status timestamp) (over, gone)

pub ruleset command_rules = (
  only_rules, volume_create-Only, volume_get-Only, volume_remove-Only, container_create-Only,
  container_start-Only, container_reload-Only, container_logs-Only, container_remove-Only,
  container_list-Only, network_get-Only, network_connect-Only, image_get-Only, docker_info-Only,
  creates-Only, deletes-Only, schedules-Only, transitions-Only, claims-Only, marks-Only,
  renews-Only, opens-Only, updates-Only, commits-Only, finishes-Only, put_record-Only,
  pop_record-Only, loop_time-Only, sleep-Only,
)

module _ (env : Environment) where
  accept-Only : (v : Verified) → Only Allowed (accept env v)
  unfolding accept
  accept-Only (accepted granted) = search command_rules
  accept-Only (refused e) = search command_rules

  consume-Only : (granted : Fields) → Only Allowed (consume env granted)
  unfolding consume
  consume-Only granted = search command_rules

  pub authorize-Only :
      (token : String) (operation workspace_id : Option String)
      → Only Allowed (authorize env token operation workspace_id)
  unfolding authorize
  authorize-Only token operation workspace_id = search (command_rules, accept-Only, consume-Only)

pub get_workspace-Only : (workspace_id : String) → Only Allowed (get_workspace workspace_id)
unfolding get_workspace
get_workspace-Only workspace_id = search (command_rules)

found_record-Only :
    (sandbox_id : String) (found : Option SandboxRecord)
    → Only Allowed (found_record sandbox_id found)
unfolding found_record
found_record-Only sandbox_id none = search command_rules
found_record-Only sandbox_id (some record_) = search command_rules

pub get_record-Only : (sandbox_id : String) → Only Allowed (get_record sandbox_id)
unfolding get_record
get_record-Only sandbox_id = search (command_rules, found_record-Only)

pub remove_container-Only : (container : String) → Only Allowed (remove_container container)
unfolding remove_container
remove_container-Only container = search (command_rules)

pub ensure_workspace_volume-Only :
    (workspace : Workspace) → Only Allowed (ensure_workspace_volume workspace)
unfolding ensure_workspace_volume
ensure_workspace_volume-Only workspace = search (command_rules)

pub ensure_publish_spool_volume-Only :
    (name : String) → Only Allowed (ensure_publish_spool_volume name)
unfolding ensure_publish_spool_volume
ensure_publish_spool_volume-Only name = search (command_rules)

pub volume_exists-Only : (name : String) → Only Allowed (volume_exists name)
unfolding volume_exists
volume_exists-Only name = search (command_rules)

pub create_runtime_volume-Only :
    (sandbox_id workspace_id : String)
    → Only Allowed (create_runtime_volume sandbox_id workspace_id)
unfolding create_runtime_volume
create_runtime_volume-Only sandbox_id workspace_id = search (command_rules)

pub remove_volume-Only : (name : String) → Only Allowed (remove_volume name)
unfolding remove_volume
remove_volume-Only name = search (command_rules)

pub remove_volume_checked-Only : (name : String) → Only Allowed (remove_volume_checked name)
unfolding remove_volume_checked
remove_volume_checked-Only name = search (command_rules)

pub ignore-Only : {A : Type 0} (m : Program A) → Only Allowed m → Only Allowed (ignore m)
unfolding ignore
ignore-Only m h = search (command_rules, h)

pub delete_workspace-Only : (workspace_id : String) → Only Allowed (delete_workspace workspace_id)
unfolding delete_workspace
delete_workspace-Only workspace_id = search (command_rules)

pub delete_unless_used-Only :
    (workspace_id : String) → Only Allowed (delete_unless_used workspace_id)
unfolding delete_unless_used
delete_unless_used-Only workspace_id = search (command_rules, delete_workspace-Only)

pub transition_workspace-Only :
    (workspace_id : String) (expected : List String) (status : String)
    → Only Allowed (transition_workspace workspace_id expected status)
unfolding transition_workspace
transition_workspace-Only workspace_id expected status = search (command_rules)

pub transition_if_expected-Only :
    (workspace_id : String) (expected : List String) (status : String)
    → Only Allowed (transition_if_expected workspace_id expected status)
unfolding transition_if_expected
transition_if_expected-Only workspace_id expected status =
    search (command_rules, ignore-Only, transition_workspace-Only)

pub mark_sandbox_running-Only :
    (sandbox_id : String) → Only Allowed (mark_sandbox_running sandbox_id)
unfolding mark_sandbox_running
mark_sandbox_running-Only sandbox_id = search (command_rules)

pub finish_sandbox-Only :
    (sandbox_id status workspace_status : String)
    → (status == "starting") ≡ false
    → (status == "running") ≡ false
    → Only Allowed (finish_sandbox sandbox_id status workspace_status)
unfolding finish_sandbox
finish_sandbox-Only sandbox_id status workspace_status over gone =
    search (command_rules, ignore-Only, over, gone)

pub create_operation-Only :
    (operation workspace_id : String) (sandbox_id : Option String) (idempotency_key : String)
    (input_data : Json)
    → Only Allowed (create_operation operation workspace_id sandbox_id idempotency_key input_data)
unfolding create_operation
create_operation-Only operation workspace_id sandbox_id idempotency_key input_data =
    search (command_rules)

pub update_operation-Only :
    (operation_id status : String) (phase : Option String) (result : Option Json)
    (error : Option String)
    → Only Allowed (update_operation operation_id status phase result error)
unfolding update_operation
update_operation-Only operation_id status phase result error = search (command_rules)

pub fail_operation-Only :
    (operation_id : String) (e : Error) → Only Allowed (fail_operation operation_id e)
unfolding fail_operation
fail_operation-Only operation_id e = search (command_rules, ignore-Only, update_operation-Only)

pub fail_if_there-Only :
    (operation_id : String) (e : Error) → Only Allowed (fail_if_there operation_id e)
unfolding fail_if_there
fail_if_there-Only operation_id e = search (command_rules, fail_operation-Only)

pub ruleset backend_rules = (
  command_rules, authorize-Only, get_workspace-Only, get_record-Only, remove_container-Only,
  ensure_workspace_volume-Only, ensure_publish_spool_volume-Only, volume_exists-Only,
  create_runtime_volume-Only, remove_volume-Only, remove_volume_checked-Only, ignore-Only,
  delete_workspace-Only, delete_unless_used-Only, transition_workspace-Only,
  transition_if_expected-Only, mark_sandbox_running-Only, finish_sandbox-Only,
  create_operation-Only, update_operation-Only, fail_operation-Only, fail_if_there-Only, refl,
)
