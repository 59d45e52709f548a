-- ===== src/Manager/Backend/Only/Requests.antt =====
-- What the methods of Manager/Backend/Requests ask of the store: they finish no Sandbox into a live status.
use litellm_gateway.Prelude.{String, Bool, Option, none, some}
use litellm_gateway.Prelude.Json.{Json, str, Fields}
use litellm_gateway.Manager.State.{Workspace, Operation}
use litellm_gateway.Manager.Backend.{Environment}
use litellm_gateway.Manager.Backend.Claims.{Checked, passed, denied, checked}
use litellm_gateway.Manager.Backend.Requests.Inputs.{Request}
use litellm_gateway.Manager.Backend.Requests.{
  get_sandbox, bound_sandbox, transfer_request, checkpoint_request, head_claimed, restore_request,
  start_task, open_operation, request_of, request_operation, request_named, operate,
  inspect_operation,
}
use litellm_gateway.Manager.Program.Only.{Only}
use litellm_gateway.Manager.Backend.Only.{Allowed, backend_rules}

get_sandbox-Only : (sandbox_id : String) → Only Allowed (get_sandbox sandbox_id)
unfolding get_sandbox
get_sandbox-Only sandbox_id = search backend_rules

checked-Only : {A : Type 0} (m : Checked A) → Only Allowed (checked m)
checked-Only (passed a) = search backend_rules
checked-Only (denied text) = search backend_rules

bound_sandbox-Only :
    (granted : Fields) (workspace : Workspace) → Only Allowed (bound_sandbox granted workspace)
unfolding bound_sandbox
bound_sandbox-Only granted workspace = search (backend_rules, checked-Only, get_sandbox-Only)

transfer_request-Only :
    (env : Environment) (granted : Fields) (requested operation : String) (workspace : Workspace)
    → Only Allowed (transfer_request env granted requested operation workspace)
unfolding transfer_request
transfer_request-Only env granted requested operation workspace =
    search (backend_rules, checked-Only, bound_sandbox-Only)

checkpoint_request-Only :
    (granted : Fields) (workspace : Workspace) → Only Allowed (checkpoint_request granted workspace)
unfolding checkpoint_request
checkpoint_request-Only granted workspace = search backend_rules

head_claimed-Only : (v : Json) (head : Option String) → Only Allowed (head_claimed v head)
unfolding head_claimed
head_claimed-Only (str revision_id) head = search backend_rules
head_claimed-Only _ head = search backend_rules

restore_request-Only :
    (granted : Fields) (workspace : Workspace) → Only Allowed (restore_request granted workspace)
unfolding restore_request
restore_request-Only granted workspace = search (backend_rules, head_claimed-Only)

start_task-Only :
    (workspace : Workspace) (request : Request) (o : Operation) (created : Bool)
    → Only Allowed (start_task workspace request o created)
unfolding start_task
start_task-Only workspace request o created = search backend_rules

open_operation-Only :
    (workspace : Workspace) (request : Request) → Only Allowed (open_operation workspace request)
unfolding open_operation
open_operation-Only workspace request = search (backend_rules, start_task-Only)

request_of-Only :
    (env : Environment) (granted : Fields) (requested : String) (operation : String)
    (workspace : Workspace)
    → Only Allowed (request_of env granted requested operation workspace)
unfolding request_of
request_of-Only env granted requested operation workspace =
    search (backend_rules, transfer_request-Only, checkpoint_request-Only, restore_request-Only)

request_operation-Only :
    (env : Environment) (granted : Fields) (requested : String) (operation : Option String)
    → Only Allowed (request_operation env granted requested operation)
unfolding request_operation
request_operation-Only env granted requested none = search backend_rules
request_operation-Only env granted requested (some operation) =
    search (backend_rules, checked-Only, request_of-Only, open_operation-Only) depth 9

request_named-Only :
    (env : Environment) (granted : Fields) (found : Option String)
    → Only Allowed (request_named env granted found)
unfolding request_named
request_named-Only env granted none = search backend_rules
request_named-Only env granted (some requested) = search (backend_rules, request_operation-Only)

pub operate-Only : (env : Environment) (grant : String) → Only Allowed (operate env grant)
unfolding operate
operate-Only env grant = search (backend_rules, request_named-Only)

pub inspect_operation-Only : (operation_id : String) → Only Allowed (inspect_operation operation_id)
unfolding inspect_operation
inspect_operation-Only operation_id = search backend_rules
