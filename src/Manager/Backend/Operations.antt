-- ===== src/Manager/Backend/Operations.antt =====
-- src/sandbox_manager/docker_backend.py: `_execute_file_operation`, the task of a checkout or of a
-- publication.
--
-- `capture_result` changes inside the lock and the handler reads it outside: `Capture` is how the
-- block under the lock ends.
pub mod Captures
pub mod Settled
use litellm_gateway.Prelude.{ℕ, String, ◌||◌, Option, none, some, [], ◌∷◌, ◌==◌, if◌then◌else◌}
use litellm_gateway.Prelude.Json.{
  ℤ, Json, pos, str, arr, obj, Fields, end, get, set, dict, is_null, as_dict,
}
use litellm_gateway.SandboxApi.Grants.{as_integer, is_text}
use litellm_gateway.Manager.State.{Workspace, Operation}
use litellm_gateway.Manager.Program.{
  Error, is_exception, execution_error, key_error, other_error, Program, done, raises, ◌>>=◌, ◌>>◌,
  rescue_if, unless, runs, run_checkout, run_capture, run_upload, locked,
}
use litellm_gateway.Manager.Backend.{Environment, get_workspace}
use litellm_gateway.Manager.Backend.Storing.{
  ignore, update_operation, fail_operation, operation_error,
}

abbrev pub input_dict : Json → Fields
input_dict (obj d) = d
input_dict _ = end

-- str(operation.input[key]); an operation's inputs are texts.
unfoldable pub text_at : Json → Program String
text_at (str s) = done s
text_at _ = raises (key_error "input")

unfoldable pub input_text : Operation → String → Program String
input_text o key = text_at (get key (input_dict o.input))

unfoldable pub natural : Option ℤ → Program ℕ
natural (some (pos n)) = done n
natural _ = raises (key_error "max_bytes")

-- assert isinstance(artifacts, list)
unfoldable pub list_given : Json → Program Json
list_given (arr xs) = done (arr xs)
list_given _ = raises (other_error "")

unfoldable pub checkout_locked : Operation → Fields → Workspace → Program Fields
checkout_locked o granted workspace = do
  artifacts ← list_given (get "artifacts" granted)
  user_message_id ← input_text o "user_message_id"
  assistant_message_id ← input_text o "assistant_message_id"
  runs (run_checkout o.id workspace user_message_id assistant_message_id artifacts)

unfoldable pub execute_checkout : Operation → Fields → Workspace → Program (Unit {0})
execute_checkout o granted workspace =
    rescue_if is_exception
      (ignore (update_operation o.id "running" none none none)
        >> (locked workspace.id (checkout_locked o granted workspace) >>= λ result.
            ignore (update_operation o.id "succeeded" none (some (obj result)) none)))
      (λ e. fail_operation o.id e)

pub data Capture : Type 0 where
  captured : Fields → Capture
  stopped : Option Fields → Error → Capture

abbrev capture_in : Option Json → Option Fields
capture_in none = none
capture_in (some v) = as_dict (get "capture" (input_dict v))

abbrev with_capture : Option Fields → Option Json
with_capture none = none
with_capture (some c) = some (obj (dict (("capture", obj c) ∷ [])))

unfoldable pub capture_files : Operation → Workspace → Option Fields → Program Fields
capture_files o workspace before = do
  ignore (update_operation o.id "running" (some "capturing") (with_capture before) none)
  source ← input_text o "workspace_path"
  max_bytes ← natural (as_integer (get "max_bytes" (input_dict o.input)))
  runs (run_capture o.id workspace source max_bytes)

unfoldable pub note_capture : Operation → Capture → Program Capture
note_capture o (stopped before e) = done (stopped before e)
note_capture o (captured c) =
    rescue_if is_exception
      (ignore (update_operation o.id "running" (some "captured") (with_capture (some c)) none)
        >> done (captured c))
      (λ e. done (stopped (some c) e))

unfoldable pub capture_locked : Operation → Workspace → Option Fields → Program Capture
capture_locked o workspace before = do
  outcome ←
      rescue_if is_exception (capture_files o workspace before >>= λ c. done (captured c))
        (λ e. done (stopped before e))
  note_capture o outcome

abbrev with_target : Json → Fields → Fields
with_target (str s) d = set "target_artifact_id" (str s) d
with_target _ d = d

abbrev failed_result : Option Fields → Fields → Option Json
failed_result none granted = none
failed_result (some c) granted =
    some (obj (with_target (get "artifact_id" granted) (dict (("capture", obj c) ∷ []))))

abbrev phase_after : Option Fields → String
phase_after none = "capturing"
phase_after (some c) = "captured"

-- except Exception, of a publication
unfoldable pub failed_publish : Operation → Fields → Option Fields → Error → Program (Unit {0})
failed_publish o granted capture e = ignore (
    update_operation o.id "failed" (some (phase_after capture)) (failed_result capture granted)
      (some (operation_error e)))

abbrev target_in : Option Json → Json
target_in none = Json.null
target_in (some v) = get "target_artifact_id" (input_dict v)

unfoldable pub upload :
    Operation → Workspace → Fields → (artifact_id url token : String) → Program (Unit {0})
upload o workspace c artifact_id url token = do
  unless (is_null (target_in o.result) || is_text artifact_id (target_in o.result))
      (execution_error "Publish operation Artifact binding changed")
  ignore (
      update_operation o.id "running" (some "uploading")
        (some (obj (dict (("capture", obj c) ∷ ("target_artifact_id", str artifact_id) ∷ []))))
        none)
  result ← runs (run_upload o.id workspace url token)
  unless (is_text artifact_id (get "artifact_id" result))
      (execution_error "Artifact upload returned another artifact_id")
  ignore (
      update_operation o.id "succeeded" (some "uploading")
        (some (
          obj (
            dict (
              ("capture", obj c)
              ∷ ("target_artifact_id", str artifact_id)
              ∷ ("artifact", obj result)
              ∷ []))))
        none)

-- `return` where a target value is missing.
unfoldable pub upload_if_given :
    Operation → Workspace → Fields → (artifact_id url token : Json) → Program (Unit {0})
upload_if_given o workspace c (str artifact_id) (str url) (str token) =
    if artifact_id == "" || url == "" || token == ""
    then done tt
    else upload o workspace c artifact_id url token
upload_if_given o workspace c _ _ _ = done tt

unfoldable pub after_capture : Operation → Fields → Workspace → Capture → Program (Unit {0})
after_capture o granted workspace (stopped before e) = failed_publish o granted before e
after_capture o granted workspace (captured c) =
    rescue_if is_exception
      (upload_if_given o workspace c (get "artifact_id" granted) (get "upload_url" granted)
        (get "upload_token" granted))
      (λ e. failed_publish o granted (some c) e)

unfoldable pub execute_publish : Operation → Fields → Workspace → Program (Unit {0})
execute_publish o granted workspace = do
  outcome ←
      rescue_if is_exception
        (locked workspace.id (capture_locked o workspace (capture_in o.result)))
        (λ e. done (stopped (capture_in o.result) e))
  after_capture o granted workspace outcome

unfoldable pub execute_with_runner : Operation → Fields → Program (Unit {0})
execute_with_runner o granted = do
  workspace ← get_workspace o.workspace_id
  if o.operation == "checkout"
      then execute_checkout o granted workspace
      else execute_publish o granted workspace

-- _execute_file_operation
unfoldable pub execute_file_operation : Environment → Operation → Fields → Program (Unit {0})
execute_file_operation env o granted =
    if env.has_runner
    then execute_with_runner o granted
    else ignore (update_operation o.id "failed" none none (some "storage operations are disabled"))
