-- ===== src/Manager/Backend/Requests/Inputs.antt =====
-- src/sandbox_manager/docker_backend.py: the checks of `create_operation` on the claims of a checkout and
-- of a publication, and the inputs of their operations.
use litellm_gateway.Prelude.{
  String, Bool, false, not, ◌&&◌, Option, none, some, [], ◌∷◌, ◌==◌, if◌then◌else◌, map,
}
use litellm_gateway.Prelude.Json.{
  ℤ, Json, int, pos, str, arr, obj, Fields, get, set, dict, array, is_null, ltz,
}
use litellm_gateway.Prelude.Text.{concat, is_hex_id}
use litellm_gateway.SandboxApi.Grants.{as_integer}
use litellm_gateway.Manager.Backend.{Environment}
use litellm_gateway.Manager.Backend.Claims.{
  Checked, passed, denied, ◌>>=◌, ◌>>◌, check, required_claim, idempotency_key, message_id_claim,
  safe_output_relative, validate_transfer_url, checkout_artifacts, Artifact,
}

-- What a request's branch finds out: the Sandbox, the input, the key and the claims for its task.
pub record Request : Type 0 where
  pub operation : String
  pub sandbox_id : Option String
  pub input : Json
  pub key : String
  pub granted : Fields

-- The item of `input_data`, and the whole one, which the task gets.
abbrev item_of : Artifact → Json
item_of a = obj (
    dict (
      ("artifact_id", str a.artifact_id)
      ∷ ("filename", str a.filename)
      ∷ ("size", int (pos a.size))
      ∷ ("sha256", str a.sha256)
      ∷ ("max_bytes", int (pos a.max_bytes))
      ∷ []))

abbrev whole_item : Artifact → Json
whole_item a = obj (
    dict (
      ("artifact_id", str a.artifact_id)
      ∷ ("filename", str a.filename)
      ∷ ("size", int (pos a.size))
      ∷ ("sha256", str a.sha256)
      ∷ ("max_bytes", int (pos a.max_bytes))
      ∷ ("url", str a.url)
      ∷ ("token", str a.token)
      ∷ []))

-- 0 < max_bytes <= 10 GiB; a bool is an int.
abbrev within_limit : Option ℤ → Bool
within_limit none = false
within_limit (some n) = ltz (pos 0) n && not (ltz (pos 10737418240) n)

abbrev target_text : Json → Option String
target_text (str s) = if s == "" then none else some s
target_text _ = none

module _ (env : Environment) where
  unfoldable pub checkout_input : Fields → String → String → Checked Request
  checkout_input granted requested sandbox_id = do
    user_message_id ← message_id_claim granted "user_message_id"
    assistant_message_id ← message_id_claim granted "assistant_message_id"
    artifacts ← checkout_artifacts env (get "artifacts" granted)
    key ←
        idempotency_key (set "artifacts" (arr (array (map whole_item artifacts))) granted) requested
    passed (record {
      operation = "checkout";
      sandbox_id = some sandbox_id;
      input = obj (
          dict (
            ("user_message_id", str user_message_id)
            ∷ ("assistant_message_id", str assistant_message_id)
            ∷ ("artifacts", arr (array (map item_of artifacts)))
            ∷ []));
      key = key;
      granted = set "artifacts" (arr (array (map whole_item artifacts))) granted;
    })

  -- The three target values that are all there.
  unfoldable pub check_target : Option String → Option String → Option String → Checked (Unit {0})
  check_target (some artifact_id) (some upload_url) (some upload_token) =
      check (is_hex_id "artifact_" 32 artifact_id) "Operation artifact_id is invalid"
      >> validate_transfer_url env upload_url
  check_target _ _ _ = denied "Artifact upload target is incomplete"

  -- {**claims, …} sets the three keys to the values that they have.
  unfoldable pub check_upload : Fields → Checked (Unit {0})
  check_upload granted =
      if is_null (get "artifact_id" granted)
        && is_null (get "upload_url" granted)
        && is_null (get "upload_token" granted)
      then passed tt
      else check_target (target_text (get "artifact_id" granted))
          (target_text (get "upload_url" granted)) (target_text (get "upload_token" granted))

  unfoldable pub publish_input : Fields → String → String → Checked Request
  publish_input granted requested sandbox_id = do
    assistant_message_id ← message_id_claim granted "assistant_message_id"
    response_id ← required_claim granted "response_id"
    check (is_hex_id "resp_" 32 response_id) "Operation response_id is invalid"
    output ← required_claim granted "output_relative_path"
    relative_path ← safe_output_relative output
    check (within_limit (as_integer (get "max_bytes" granted))) "Operation max_bytes is invalid"
    check_upload granted
    key ← idempotency_key granted requested
    passed (record {
      operation = "publish";
      sandbox_id = some sandbox_id;
      input = obj (
          dict (
            ("assistant_message_id", str assistant_message_id)
            ∷ ("response_id", str response_id)
            ∷ ("output_relative_path", str relative_path)
            ∷ (
              "workspace_path",
              str (concat "outputs/" (concat assistant_message_id (concat "/" relative_path))),
            )
            ∷ ("max_bytes", get "max_bytes" granted)
            ∷ []));
      key = key;
      granted = granted;
    })
