-- ===== src/Examples/Requests.antt =====
-- The checks, the waits and the removals of src/sandbox_manager/docker_backend.py at concrete inputs.
use litellm_gateway.Prelude.{◌≤◌, String, ◌≡◌, refl, true, false, none, some, [], ◌∷◌, length, All}
use litellm_gateway.Prelude.Json.{Json, str, int, pos, arr, obj, Fields, dict, array, items, get}
use litellm_gateway.Prelude.Text.{
  concat, lower, split_on, join_with, after_prefix, all_chars, has_char, is_hex, is_word,
}
use litellm_gateway.Manager.State.{Workspace, Operation, one_of}
use litellm_gateway.Manager.Program.{SandboxRecord, Listed, backend_error}
use litellm_gateway.Manager.Backend.Sandboxes.{terminate_record}
use litellm_gateway.Manager.Backend.Creation.{undo_container}
use litellm_gateway.Manager.Backend.Waiting.{wait_for_worker}
use litellm_gateway.Manager.Backend.Waiting.Ends.{WaitsFor, wait_ends}
use litellm_gateway.Manager.Backend.Order.{IsOrderly}
use litellm_gateway.Manager.Backend.Order.Gone.{container_gone_first}
use litellm_gateway.Manager.Backend.Startup.{discard}
use litellm_gateway.Manager.Backend.Claims.{
  passed, ◌>>=◌, ◌>>◌, check, Artifact, required_claim, message_id_claim, all_safe,
  safe_output_relative, validate_transfer_url, check_fields, check_artifact, check_artifacts,
  at_most, checkout_artifacts, idempotency_key,
}
use litellm_gateway.Manager.Backend.Claims.Bounds.{IsArtifact, AreDistinct, checkout_bounded}
use litellm_gateway.Manager.Backend.Claims.Paths.{published_path_inside}
use litellm_gateway.Manager.Program.Only.{Only}
use litellm_gateway.Manager.Backend.Operations.{execute_file_operation}
use litellm_gateway.Manager.Backend.Operations.Captures.{Captures}
use litellm_gateway.Manager.Backend.Requests.Inputs.{Request, publish_input, check_upload}
use litellm_gateway.Examples.Backend.{env}

abbrev digits : String
digits = "0123456789abcdef0123456789abcdef"

abbrev raw_item : String → Json
raw_item filename = obj (
    dict (
      ("artifact_id", str (concat "artifact_" (concat filename "123456789abcdef0123456789abcdef")))
      ∷ ("filename", str filename)
      ∷ ("sha256", str (concat digits digits))
      ∷ ("url", str "http://artifacts/1")
      ∷ ("token", str "t")
      ∷ ("size", int (pos 5))
      ∷ ("max_bytes", int (pos 8))
      ∷ []))

abbrev item : String → Artifact
item filename = record {
  artifact_id = concat "artifact_" (concat filename "123456789abcdef0123456789abcdef");
  filename = filename;
  size = 5;
  sha256 = concat digits digits;
  max_bytes = 8;
  url = "http://artifacts/1";
  token = "t";
}

abbrev two_items : Json
two_items = arr (array (raw_item "a" ∷ raw_item "b" ∷ []))

two_items_pass : checkout_artifacts env two_items ≡ passed (item "a" ∷ item "b" ∷ [])
unfolding checkout_artifacts check_artifacts check_artifact check_fields required_claim check ◌>>=◌
    ◌>>◌ validate_transfer_url at_most dict array items get one_of lower after_prefix all_chars
    is_hex has_char
two_items_pass = refl

checkout_bounded_example :
    (length (item "a" ∷ item "b" ∷ []) ≤ 32)
    × All IsArtifact (item "a" ∷ item "b" ∷ [])
    × AreDistinct (item "a" ∷ item "b" ∷ [])
checkout_bounded_example = checkout_bounded env two_items (item "a" ∷ item "b" ∷ []) two_items_pass

abbrev publication : Fields
publication = dict (
    ("assistant_message_id", str "m-1")
    ∷ ("response_id", str (concat "resp_" digits))
    ∷ ("output_relative_path", str "a/b.txt")
    ∷ ("max_bytes", int (pos 100))
    ∷ ("nonce", str "n1")
    ∷ [])

abbrev publication_input : Json
publication_input = obj (
    dict (
      ("assistant_message_id", str "m-1")
      ∷ ("response_id", str (concat "resp_" digits))
      ∷ ("output_relative_path", str "a/b.txt")
      ∷ ("workspace_path", str "outputs/m-1/a/b.txt")
      ∷ ("max_bytes", int (pos 100))
      ∷ []))

abbrev publishing : Request
publishing = record {
  operation = "publish";
  sandbox_id = some "sandbox_1";
  input = publication_input;
  key = "publish:n1";
  granted = publication;
}

publication_passes : publish_input env publication "publish" "sandbox_1" ≡ passed publishing
unfolding publish_input check_upload idempotency_key safe_output_relative message_id_claim
    required_claim check ◌>>=◌ ◌>>◌ dict get after_prefix split_on all_safe one_of has_char
    join_with all_chars is_word is_hex
publication_passes = refl

abbrev publish_operation : Operation
publish_operation = record {
  id = "operation_1";
  operation = "publish";
  workspace_id = "workspace_a";
  sandbox_id = some "sandbox_1";
  status = "pending";
  phase = none;
  idempotency_key = "publish:n1";
  input = publication_input;
  result = none;
  error = none;
  created_at = 1;
  updated_at = 1;
}

published_path_inside_example :
    (message_id : String) × (get "assistant_message_id" publication ≡ str message_id)
    × Only (Captures message_id) (execute_file_operation env publish_operation publication)
published_path_inside_example =
    published_path_inside env publication "publish" "sandbox_1" publishing publication_passes
      publish_operation refl publication

abbrev workspace : Workspace
workspace = record {
  id = "workspace_a";
  kind = "recoverable";
  status = "running";
  volume_name = "volume_a";
  generation = 1;
  head_revision = none;
  active_sandbox_id = some "sandbox_1";
  created_at = 1;
  updated_at = 1;
  delete_after = none;
}

abbrev with_targets : Fields
with_targets = dict (
    ("artifact_id", str (concat "artifact_" digits))
    ∷ ("upload_url", str "http://artifacts/1")
    ∷ ("upload_token", str "t")
    ∷ [])

wait_ends_example : WaitsFor 30000 150 (wait_for_worker 30000 "container")
wait_ends_example = wait_ends 30000 "container"

abbrev row : SandboxRecord
row = record {
  sandbox_id = "sandbox_1";
  workspace_id = "workspace_a";
  workspace_volume = "volume_a";
  recoverable = true;
  container = "container";
  worker_host = "host_1";
  created_at = 1;
  expires_at = 601;
}

abbrev listed : Listed
listed = record { container = "left_over"; labels = dict [] }

container_gone_first_example :
    IsOrderly "container" false (terminate_record env row)
    × IsOrderly "container" false (undo_container workspace row (backend_error "no network"))
    × IsOrderly "left_over" false (discard env listed none)
container_gone_first_example =
    container_gone_first env workspace row (backend_error "no network") listed none
