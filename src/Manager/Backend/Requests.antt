-- ===== src/Manager/Backend/Requests.antt =====
-- src/sandbox_manager/docker_backend.py: `create_operation`, which turns a grant into an operation and
-- gives its work to a task, and `inspect_operation`.
pub mod Same
pub mod Inputs
use litellm_gateway.Prelude.{
  ℕ, String, Bool, true, false, not, ◌&&◌, ◌||◌, Option, none, some, List, [], ◌∷◌, ◌==◌,
  if◌then◌else◌, is_some, is_none, opt_eq, map,
}
use litellm_gateway.Prelude.Json.{
  ℤ, Json, null, bool, int, pos, str, arr, obj, Fields, get, set, dict, array, is_null, or_null,
  or_else, ltz,
}
use litellm_gateway.Prelude.Text.{concat, decimal, is_hex_id}
use litellm_gateway.SandboxApi.Grants.{as_integer}
use litellm_gateway.Manager.State.{Workspace, Sandbox, Operation, Result, ok, err, one_of}
use litellm_gateway.Manager.Program.{
  Error, authorization_error, conflict_error, backend_error, operation_not_found, Program, done,
  raises, ◌>>=◌, ◌>>◌, rescue_if, unless, when, ask, or_raise, spawn, checkpoints, restores,
  transfers, sandbox_of, operation_of, Task,
}
use litellm_gateway.Manager.Backend.{
  Environment, is_not_found, is_conflict, authorize, get_workspace,
}
use litellm_gateway.Manager.Backend.Storing.{create_operation, update_operation}
use litellm_gateway.Manager.Backend.Claims.{
  Checked, passed, denied, check, checked, required_claim, idempotency_key, message_id_claim,
  safe_output_relative, validate_transfer_url, checkout_artifacts, Artifact,
}
use litellm_gateway.Manager.Backend.Requests.Same.{same_json}
use litellm_gateway.Manager.Backend.Requests.Inputs.{Request, checkout_input, publish_input}

-- operation_names
abbrev operation_name : String → Option String
operation_name requested =
    if requested == "artifact_checkout"
    then some "checkout"
    else (if requested == "artifact_publish"
        then some "publish"
        else (if requested == "workspace_checkpoint"
            then some "checkpoint"
            else (if requested == "workspace_restore" then some "restore" else none)))

abbrev chosen_sandbox : Json → Option String → Checked String
chosen_sandbox null none = denied "Operation Workspace has no active Sandbox"
chosen_sandbox null (some sandbox_id) = passed sandbox_id
chosen_sandbox (str s) active =
    if s == "" then denied "Operation sandbox_id is invalid" else passed s
chosen_sandbox _ active = denied "Operation sandbox_id is invalid"

unfoldable pub get_sandbox : String → Program Sandbox
get_sandbox sandbox_id =
    rescue_if is_not_found (ask (sandbox_of sandbox_id) >>= λ r. or_raise r)
      (λ e. raises (authorization_error "Operation Sandbox does not exist"))

-- The Sandbox of a transfer, which has to be the running one of the Workspace.
unfoldable pub bound_sandbox : Fields → Workspace → Program String
bound_sandbox granted workspace = do
  sandbox_id ← checked (chosen_sandbox (get "sandbox_id" granted) workspace.active_sandbox_id)
  sandbox ← get_sandbox sandbox_id
  unless
      (sandbox.workspace_id == workspace.id
        && sandbox.status == "running"
        && opt_eq workspace.active_sandbox_id (some sandbox_id))
      (authorization_error "Operation Sandbox binding is not active")
  done sandbox_id

module _ (env : Environment) where
  -- operation in {"checkout", "publish"}
  unfoldable pub transfer_request : Fields → String → String → Workspace → Program Request
  transfer_request granted requested operation workspace = do
    sandbox_id ← bound_sandbox granted workspace
    checked (
        if operation == "checkout"
        then checkout_input env granted requested sandbox_id
        else publish_input env granted requested sandbox_id)

unfoldable pub checkpoint_request : Fields → Workspace → Program Request
checkpoint_request granted workspace = do
  unless (is_none workspace.active_sandbox_id) (conflict_error "Workspace still has a writer")
  unless (one_of workspace.status ("detached_dirty" ∷ "detached_clean" ∷ []))
      (conflict_error "Workspace cannot checkpoint")
  done (record {
    operation = "checkpoint";
    sandbox_id = none;
    input = obj (dict (("generation", int (pos workspace.generation)) ∷ []));
    key = concat "checkpoint:" (concat workspace.id (concat ":" (decimal workspace.generation)));
    granted = granted;
  })

-- claims.get("revision_id") or workspace.head_revision, where it is the head.
unfoldable pub head_claimed : Json → Option String → Program String
head_claimed (str revision_id) head =
    if opt_eq (some revision_id) head
    then done revision_id
    else raises (authorization_error "Restore revision is not the Workspace head")
head_claimed _ head = raises (authorization_error "Restore revision is not the Workspace head")

unfoldable pub restore_request : Fields → Workspace → Program Request
restore_request granted workspace = do
  revision_id ←
      head_claimed (or_else (get "revision_id" granted) (or_null workspace.head_revision))
        workspace.head_revision
  unless (is_none workspace.active_sandbox_id) (conflict_error "Workspace still has a writer")
  unless (one_of workspace.status ("remote_only" ∷ "detached_clean" ∷ []))
      (conflict_error "Workspace cannot restore")
  done (record {
    operation = "restore";
    sandbox_id = none;
    input = obj (dict (("revision_id", str revision_id) ∷ []));
    key = concat "restore:" (concat workspace.id (concat ":" revision_id));
    granted = granted;
  })

-- Does the operation found belong to this request?
abbrev pub is_same_request : Workspace → Request → Operation → Bool
is_same_request workspace request o =
    o.operation == request.operation
    && o.workspace_id == workspace.id
    && opt_eq o.sandbox_id request.sandbox_id
    && same_json o.input request.input

abbrev pub task_of : Workspace → Request → Operation → Task
task_of workspace request o =
    if request.operation == "checkpoint"
    then checkpoints workspace.id
    else (if request.operation == "restore" then restores o else transfers o request.granted)

abbrev is_text_value : Json → Bool
is_text_value (str s) = true
is_text_value _ = false

-- resume_captured_publish
abbrev pub is_resumed : Request → Operation → Bool
is_resumed request o =
    request.operation == "publish"
    && o.status == "running"
    && opt_eq o.phase (some "captured")
    && is_text_value (get "upload_url" request.granted)

unfoldable pub start_task : Workspace → Request → Operation → Bool → Program Operation
start_task workspace request o created =
    if created || o.status == "failed" || is_resumed request o
    then ((if created then done o else update_operation o.id "pending" o.phase o.result none)
        >>= λ started. spawn (task_of workspace request started) >> done started)
    else done o

unfoldable pub open_operation : Workspace → Request → Program Operation
open_operation workspace request = do
  (o, created) ←
      rescue_if is_conflict
        (create_operation request.operation workspace.id request.sandbox_id request.key
          request.input)
        (λ e. raises (conflict_error ""))
  unless (is_same_request workspace request o)
      (conflict_error "Operation idempotency key is bound to another request")
  if request.operation == "checkpoint" && workspace.status == "detached_clean"
      then update_operation o.id "succeeded" none
          (some (
            obj (
              dict (
                ("revision_id", or_null workspace.head_revision)
                ∷ ("already_clean", bool true)
                ∷ []))))
          none
      else start_task workspace request o created

module _ (env : Environment) where
  unfoldable pub request_of : Fields → String → String → Workspace → Program Request
  request_of granted requested operation workspace =
      if operation == "checkpoint"
      then checkpoint_request granted workspace
      else (if operation == "restore"
          then restore_request granted workspace
          else transfer_request env granted requested operation workspace)

  unfoldable pub request_operation : Fields → String → Option String → Program Operation
  request_operation granted requested none =
      raises (authorization_error "Operation grant has an unsupported operation")
  request_operation granted requested (some operation) = do
    unless env.has_runner (backend_error "Storage operations are disabled")
    workspace_id ← checked (required_claim granted "workspace_id")
    workspace ← get_workspace workspace_id
    request ← request_of granted requested operation workspace
    open_operation workspace request

  abbrev text_or_none : Json → Option String
  text_or_none (str s) = some s
  text_or_none _ = none

  unfoldable pub request_named : Fields → Option String → Program Operation
  request_named granted none =
      raises (authorization_error "Operation grant has an unsupported operation")
  request_named granted (some requested) =
      request_operation granted requested (operation_name requested)

  -- create_operation, whose answer has every field of the operation but its key and input
  unfoldable pub operate : String → Program Operation
  operate grant = authorize env grant none none >>= λ granted.
      request_named granted (text_or_none (get "operation" granted))

unfoldable pub inspect_operation : String → Program Operation
inspect_operation operation_id =
    rescue_if is_not_found (ask (operation_of operation_id) >>= λ r. or_raise r)
      (λ e. raises operation_not_found)
