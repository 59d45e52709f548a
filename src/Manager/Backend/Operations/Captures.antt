-- ===== src/Manager/Backend/Operations/Captures.antt =====
-- What the task of a checkout or of a publication, `_execute_file_operation` of
-- src/sandbox_manager/docker_backend.py, asks the operation runner to capture.
use litellm_gateway.Prelude.{ℕ, String, ◌≡◌, ◌≢◌, List, ◌∷◌, All, Option, some}
use litellm_gateway.Prelude.Json.{ℤ, Json, pos, str, arr, Fields, get}
use litellm_gateway.Prelude.Text.{split_on}
use litellm_gateway.SandboxApi.Grants.{as_integer}
use litellm_gateway.Manager.State.{Workspace, Operation}
use litellm_gateway.Manager.State.History.{updates}
use litellm_gateway.Manager.Program.{
  Error, Command, runner, run_capture, run_checkout, run_upload, runs, Program, ◌>>=◌,
}
use litellm_gateway.Manager.Program.Only.{
  Only, store-Only, now-Only, runs-Only, bind-Only, then-Only, done-Only, only_rules,
}
use litellm_gateway.Manager.Backend.{Environment, get_workspace}
use litellm_gateway.Manager.Backend.Storing.{ignore, update_operation, fail_operation}
use litellm_gateway.Manager.Backend.Operations.{
  input_dict, text_at, input_text, natural, list_given, checkout_locked, execute_checkout,
  capture_files, note_capture, capture_locked, failed_publish, upload, upload_if_given,
  after_capture, execute_publish, execute_with_runner, execute_file_operation, Capture, captured,
  stopped,
}

-- A part of a path that names an entry of its directory.
abbrev pub IsPlain : String → Type 0
IsPlain part = (part ≢ "") × (part ≢ ".") × (part ≢ "..")

-- A path under outputs/<message id>.
abbrev pub IsInside : String → String → Type 0
IsInside message_id path =
    (parts : List String) × (split_on 47 path ≡ "outputs" ∷ message_id ∷ parts)
    × All IsPlain (message_id ∷ parts)

-- A command that captures nothing but a file under outputs/<message id>.
abbrev pub Captures : String → Command → Type 0
Captures message_id (runner (run_capture operation_id workspace source max_bytes)) =
    IsInside message_id source
Captures message_id _ = Unit

module _ {message_id : String} where
  text_at-Only : (v : Json) → Only (Captures message_id) (text_at v)
  unfolding text_at
  text_at-Only (str s) = search only_rules
  text_at-Only _ = search only_rules

  natural-Only : (x : Option ℤ) → Only (Captures message_id) (natural x)
  unfolding natural
  natural-Only (some (pos n)) = search only_rules
  natural-Only _ = search only_rules

  list_given-Only : (v : Json) → Only (Captures message_id) (list_given v)
  unfolding list_given
  list_given-Only (arr xs) = search only_rules
  list_given-Only _ = search only_rules

  ignore-Only :
      {A : Type 0} (m : Program A)
      → Only (Captures message_id) m
      → Only (Captures message_id) (ignore m)
  unfolding ignore
  ignore-Only m h = bind-Only m _ h (λ a. done-Only tt)

  get_workspace-Only :
      (workspace_id : String) → Only (Captures message_id) (get_workspace workspace_id)
  unfolding get_workspace
  get_workspace-Only workspace_id = search only_rules

  update_operation-Only :
      (operation_id status : String) (phase : Option String) (result : Option Json)
      (error : Option String)
      → Only (Captures message_id) (update_operation operation_id status phase result error)
  unfolding update_operation
  update_operation-Only operation_id status phase result error =
      bind-Only _ _ (now-Only tt)
        (λ timestamp. store-Only (updates operation_id status phase result error timestamp) tt)

  fail_operation-Only :
      (operation_id : String) (e : Error)
      → Only (Captures message_id) (fail_operation operation_id e)
  unfolding fail_operation
  fail_operation-Only operation_id e = search (only_rules, ignore-Only, update_operation-Only)

  run_checkout-Only :
      (operation_id : String) (workspace : Workspace)
      (user_message_id assistant_message_id : String) (artifacts : Json)
      → Only (Captures message_id) (
          runs (run_checkout operation_id workspace user_message_id assistant_message_id artifacts))
  run_checkout-Only operation_id workspace user_message_id assistant_message_id artifacts =
      runs-Only (run_checkout operation_id workspace user_message_id assistant_message_id artifacts)
        tt

  run_upload-Only :
      (operation_id : String) (workspace : Workspace) (url token : String)
      → Only (Captures message_id) (runs (run_upload operation_id workspace url token))
  run_upload-Only operation_id workspace url token =
      runs-Only (run_upload operation_id workspace url token) tt

ruleset capture_rules = (
  only_rules, text_at-Only, natural-Only, list_given-Only, ignore-Only, get_workspace-Only,
  update_operation-Only, fail_operation-Only, run_checkout-Only, run_upload-Only,
)

module _ (message_id : String) (o : Operation) (claims : Fields) where
  checkout_locked-Only :
      (workspace : Workspace) → Only (Captures message_id) (checkout_locked o claims workspace)
  unfolding checkout_locked input_text
  checkout_locked-Only workspace = search capture_rules

  execute_checkout-Only :
      (workspace : Workspace) → Only (Captures message_id) (execute_checkout o claims workspace)
  unfolding execute_checkout
  execute_checkout-Only workspace = search (capture_rules, checkout_locked-Only)

  note_capture-Only : (x : Capture) → Only (Captures message_id) (note_capture o x)
  unfolding note_capture
  note_capture-Only (stopped before e) = search capture_rules
  note_capture-Only (captured c) = search capture_rules

  failed_publish-Only :
      (capture : Option Fields) (e : Error)
      → Only (Captures message_id) (failed_publish o claims capture e)
  unfolding failed_publish
  failed_publish-Only capture e = search capture_rules

  upload-Only :
      (workspace : Workspace) (c : Fields) (artifact_id url token : String)
      → Only (Captures message_id) (upload o workspace c artifact_id url token)
  unfolding upload
  upload-Only workspace c artifact_id url token = search capture_rules depth 12

  upload_if_given-Only :
      (workspace : Workspace) (c : Fields) (artifact_id url token : Json)
      → Only (Captures message_id) (upload_if_given o workspace c artifact_id url token)
  unfolding upload_if_given
  upload_if_given-Only workspace c (str artifact_id) (str url) (str token) =
      search (capture_rules, upload-Only)
  upload_if_given-Only workspace c _ _ _ = search capture_rules

  after_capture-Only :
      (workspace : Workspace) (x : Capture)
      → Only (Captures message_id) (after_capture o claims workspace x)
  unfolding after_capture
  after_capture-Only workspace (stopped before e) = search (capture_rules, failed_publish-Only)
  after_capture-Only workspace (captured c) =
      search (capture_rules, failed_publish-Only, upload_if_given-Only)

  module _ (path : String) (given : get "workspace_path" (input_dict o.input) ≡ str path)
      (inside : IsInside message_id path) where
    run_capture-Only :
        (workspace : Workspace) (max_bytes : ℕ)
        → Only (Captures message_id) (runs (run_capture o.id workspace path max_bytes))
    run_capture-Only workspace max_bytes =
        runs-Only (run_capture o.id workspace path max_bytes) inside

    source-Only :
        (workspace : Workspace) (v : Json)
        → v ≡ str path
        → Only (Captures message_id) (
            text_at v >>= λ source.
            natural (as_integer (get "max_bytes" (input_dict o.input))) >>= λ max_bytes.
            runs (run_capture o.id workspace source max_bytes))
    unfolding text_at ◌>>=◌
    source-Only workspace v e =
        rw e (bind-Only _ _ (natural-Only _) (λ max_bytes. run_capture-Only workspace max_bytes))

    -- The one capture of a task is that of its input.
    capture_files-Only :
        (workspace : Workspace) (before : Option Fields)
        → Only (Captures message_id) (capture_files o workspace before)
    unfolding capture_files input_text
    capture_files-Only workspace before =
        then-Only _ _ (ignore-Only _ (update_operation-Only _ _ _ _ _))
          (source-Only workspace _ given)

    capture_locked-Only :
        (workspace : Workspace) (before : Option Fields)
        → Only (Captures message_id) (capture_locked o workspace before)
    unfolding capture_locked
    capture_locked-Only workspace before =
        search (capture_rules, capture_files-Only, note_capture-Only)

    execute_publish-Only :
        (workspace : Workspace) → Only (Captures message_id) (execute_publish o claims workspace)
    unfolding execute_publish
    execute_publish-Only workspace = search (capture_rules, capture_locked-Only, after_capture-Only)

    execute_with_runner-Only : Only (Captures message_id) (execute_with_runner o claims)
    unfolding execute_with_runner
    execute_with_runner-Only = search (capture_rules, execute_checkout-Only, execute_publish-Only)

    pub execute_file_operation-Only :
        (env : Environment) → Only (Captures message_id) (execute_file_operation env o claims)
    unfolding execute_file_operation
    execute_file_operation-Only env = search (capture_rules, execute_with_runner-Only)
