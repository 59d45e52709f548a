-- ===== src/Manager/Backend/Storing.antt =====
-- src/sandbox_manager/docker_backend.py: calls of the store as the methods of `DockerSandboxBackend`
-- make them. A method of the store that is given no `now` reads the clock.
use litellm_gateway.Prelude.{String, Bool, Option, none, some, List, if◌then◌else◌, ◌==◌}
use litellm_gateway.Prelude.Json.{Json}
use litellm_gateway.Prelude.Text.{concat, strip, first_chars}
use litellm_gateway.Manager.State.{
  Workspace, Operation, StateError, not_found, conflict, integrity, assertion,
}
use litellm_gateway.Manager.State.History.{deletes, transitions, marks, finishes, opens, updates}
use litellm_gateway.Manager.Program.{
  Error, state_error, workspace_not_found, sandbox_not_found, operation_not_found,
  authorization_error, conflict_error, backend_error, execution_error, missing, key_error,
  other_error, cancelled, out_of_turns, Program, done, ◌>>=◌, store, now, hex, suppress,
}
use litellm_gateway.Manager.Backend.{is_not_found, is_conflict, either}

unfoldable pub ignore : {A : Type 0} → Program A → Program (Unit {0})
ignore m = m >>= λ _. done tt

unfoldable pub delete_workspace : String → Program (Unit {0})
delete_workspace workspace_id = store (deletes workspace_id)

-- with suppress(StateConflictError): delete_workspace
unfoldable pub delete_unless_used : String → Program (Unit {0})
delete_unless_used workspace_id = suppress is_conflict (delete_workspace workspace_id)

unfoldable pub transition_workspace : String → List String → String → Program Workspace
transition_workspace workspace_id expected status =
    now >>= λ timestamp. store (transitions workspace_id expected status timestamp)

-- with suppress(StateConflictError, StateNotFoundError): transition_workspace
unfoldable pub transition_if_expected : String → List String → String → Program (Unit {0})
transition_if_expected workspace_id expected status =
    suppress (either is_conflict is_not_found)
      (ignore (transition_workspace workspace_id expected status))

unfoldable pub mark_sandbox_running : String → Program (Unit {0})
mark_sandbox_running sandbox_id = now >>= λ timestamp. store (marks sandbox_id timestamp)

-- with suppress(StateNotFoundError): finish_sandbox
unfoldable pub finish_sandbox : String → String → String → Program (Unit {0})
finish_sandbox sandbox_id status workspace_status =
    suppress is_not_found
      (ignore (now >>= λ timestamp. store (finishes sandbox_id status workspace_status timestamp)))

unfoldable pub create_operation :
    (operation workspace_id : String) → Option String → String → Json → Program (Operation × Bool)
create_operation operation workspace_id sandbox_id idempotency_key input_data = do
  token ← hex
  timestamp ← now
  store (
      opens (concat "operation_" token) operation workspace_id sandbox_id idempotency_key input_data
        timestamp)

unfoldable pub update_operation :
    (operation_id status : String) → Option String → Option Json → Option String → Program Operation
update_operation operation_id status phase result error =
    now >>= λ timestamp. store (updates operation_id status phase result error timestamp)

abbrev state_error_name : StateError → String
state_error_name not_found = "StateNotFoundError"
state_error_name conflict = "StateConflictError"
state_error_name integrity = "IntegrityError"
state_error_name assertion = "AssertionError"

-- str(exc) and exc.__class__.__name__
abbrev text_of_error : Error → String
text_of_error (sandbox_not_found text) = text
text_of_error (authorization_error text) = text
text_of_error (conflict_error text) = text
text_of_error (backend_error text) = text
text_of_error (execution_error text) = text
text_of_error (missing text) = text
text_of_error (key_error text) = text
text_of_error (other_error text) = text
text_of_error _ = ""

abbrev class_name : Error → String
class_name (state_error e) = state_error_name e
class_name workspace_not_found = "WorkspaceNotFoundError"
class_name (sandbox_not_found text) = "SandboxNotFoundError"
class_name operation_not_found = "OperationNotFoundError"
class_name (authorization_error text) = "SandboxAuthorizationError"
class_name (conflict_error text) = "SandboxConflictError"
class_name (backend_error text) = "SandboxBackendError"
class_name (execution_error text) = "OperationExecutionError"
class_name (missing text) = "NotFound"
class_name (key_error text) = "KeyError"
class_name (other_error text) = "Exception"
class_name cancelled = "CancelledError"
class_name out_of_turns = ""

-- _operation_error
unfoldable pub operation_error : Error → String
operation_error e =
    first_chars 1000
      (if strip (text_of_error e) == "" then class_name e else strip (text_of_error e))

-- update_operation(…, status="failed", error=_operation_error(exc))
unfoldable pub fail_operation : String → Error → Program (Unit {0})
fail_operation operation_id e =
    ignore (update_operation operation_id "failed" none none (some (operation_error e)))

-- The same under `with suppress(StateNotFoundError)`.
unfoldable pub fail_if_there : String → Error → Program (Unit {0})
fail_if_there operation_id e = suppress is_not_found (fail_operation operation_id e)
