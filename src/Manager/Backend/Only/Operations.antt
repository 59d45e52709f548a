-- ===== src/Manager/Backend/Only/Operations.antt =====
-- What the methods of Manager/Backend/Operations ask of the store: they finish no Sandbox into a live status.
use litellm_gateway.Prelude.{String, Option, some}
use litellm_gateway.Prelude.Json.{ℤ, Json, pos, str, arr, Fields}
use litellm_gateway.Manager.State.{Workspace, Operation}
use litellm_gateway.Manager.Program.{Error}
use litellm_gateway.Manager.Backend.{Environment}
use litellm_gateway.Manager.Backend.Operations.{
  text_at, input_text, natural, list_given, checkout_locked, execute_checkout, capture_files,
  note_capture, capture_locked, failed_publish, upload, upload_if_given, after_capture,
  execute_publish, execute_with_runner, execute_file_operation, Capture, captured, stopped,
}
use litellm_gateway.Manager.Program.Only.{Only}
use litellm_gateway.Manager.Backend.Only.{Allowed, backend_rules}

text_at-Only : (v : Json) → Only Allowed (text_at v)
unfolding text_at
text_at-Only (str s) = search backend_rules
text_at-Only _ = search backend_rules

input_text-Only : (o : Operation) (key : String) → Only Allowed (input_text o key)
unfolding input_text
input_text-Only o key = search (backend_rules, text_at-Only)

natural-Only : (x : Option ℤ) → Only Allowed (natural x)
unfolding natural
natural-Only (some (pos n)) = search backend_rules
natural-Only _ = search backend_rules

list_given-Only : (v : Json) → Only Allowed (list_given v)
unfolding list_given
list_given-Only (arr xs) = search backend_rules
list_given-Only _ = search backend_rules

checkout_locked-Only :
    (o : Operation) (granted : Fields) (workspace : Workspace)
    → Only Allowed (checkout_locked o granted workspace)
unfolding checkout_locked
checkout_locked-Only o granted workspace = search (backend_rules, input_text-Only, list_given-Only)

execute_checkout-Only :
    (o : Operation) (granted : Fields) (workspace : Workspace)
    → Only Allowed (execute_checkout o granted workspace)
unfolding execute_checkout
execute_checkout-Only o granted workspace = search (backend_rules, checkout_locked-Only)

capture_files-Only :
    (o : Operation) (workspace : Workspace) (before : Option Fields)
    → Only Allowed (capture_files o workspace before)
unfolding capture_files
capture_files-Only o workspace before = search (backend_rules, input_text-Only, natural-Only)

note_capture-Only : (o : Operation) (x : Capture) → Only Allowed (note_capture o x)
unfolding note_capture
note_capture-Only o (stopped before e) = search backend_rules
note_capture-Only o (captured c) = search backend_rules

capture_locked-Only :
    (o : Operation) (workspace : Workspace) (before : Option Fields)
    → Only Allowed (capture_locked o workspace before)
unfolding capture_locked
capture_locked-Only o workspace before =
    search (backend_rules, capture_files-Only, note_capture-Only)

failed_publish-Only :
    (o : Operation) (granted : Fields) (capture : Option Fields) (e : Error)
    → Only Allowed (failed_publish o granted capture e)
unfolding failed_publish
failed_publish-Only o granted capture e = search backend_rules

upload-Only :
    (o : Operation) (workspace : Workspace) (c : Fields) (artifact_id : String) (url : String)
    (token : String)
    → Only Allowed (upload o workspace c artifact_id url token)
unfolding upload
upload-Only o workspace c artifact_id url token = search backend_rules depth 12

upload_if_given-Only :
    (o : Operation) (workspace : Workspace) (c : Fields) (artifact_id : Json) (url : Json)
    (token : Json)
    → Only Allowed (upload_if_given o workspace c artifact_id url token)
unfolding upload_if_given
upload_if_given-Only o workspace c (str artifact_id) (str url) (str token) =
    search (backend_rules, upload-Only)
upload_if_given-Only o workspace c _ _ _ = search backend_rules

after_capture-Only :
    (o : Operation) (granted : Fields) (workspace : Workspace) (x : Capture)
    → Only Allowed (after_capture o granted workspace x)
unfolding after_capture
after_capture-Only o granted workspace (stopped before e) =
    search (backend_rules, failed_publish-Only)
after_capture-Only o granted workspace (captured c) =
    search (backend_rules, failed_publish-Only, upload_if_given-Only)

execute_publish-Only :
    (o : Operation) (granted : Fields) (workspace : Workspace)
    → Only Allowed (execute_publish o granted workspace)
unfolding execute_publish
execute_publish-Only o granted workspace =
    search (backend_rules, capture_locked-Only, after_capture-Only)

execute_with_runner-Only :
    (o : Operation) (granted : Fields) → Only Allowed (execute_with_runner o granted)
unfolding execute_with_runner
execute_with_runner-Only o granted =
    search (backend_rules, execute_checkout-Only, execute_publish-Only)

pub execute_file_operation-Only :
    (env : Environment) (o : Operation) (granted : Fields)
    → Only Allowed (execute_file_operation env o granted)
unfolding execute_file_operation
execute_file_operation-Only env o granted = search (backend_rules, execute_with_runner-Only)
