-- ===== src/Adapter/Calls.antt =====
-- src/codex_responses_adapter/events.py: the output item of an MCP tool call and its metadata.
--
-- json.dumps and urllib.parse.urlencode are the parameters of a `Codec`.
pub mod Ids
use litellm_gateway.Prelude.{
  ℕ, String, Bool, true, false, not, ◌&&◌, ◌||◌, Option, none, some, List, [], ◌∷◌, ◌++◌, ◌==◌,
  if◌then◌else◌, opt_eq,
}
use litellm_gateway.Prelude.Json.{
  Json, null, str, arr, obj, Items, nil, Fields, end, field, get, set, dict, array, or_null,
  is_null, is_true, as_dict,
}
use litellm_gateway.Prelude.Text.{concat, rstrip}
use litellm_gateway.Prelude.Raising.{Method, ◌>>=◌, ◌>>◌, pure, gets, modify}
use litellm_gateway.Adapter.Response.{ResponseRecord, register_mcp_app_target}
use litellm_gateway.Adapter.Values.{
  string, or_text, or_option, status, mcp_error, resource_uri_from_result,
}

pub record Codec : Type 0 where
  pub dumps : Json → String
  pub urlencode : List (String × String) → String

-- 47 is the slash.
unfoldable pub public_url : ResponseRecord → String → String
public_url r path =
    let base = rstrip 47 r.mcp_apps_base_url in if base == "" then path else concat base path

abbrev pub dict_or_empty : Json → Fields
dict_or_empty (obj d) = d
dict_or_empty _ = end

abbrev is_empty_dict : Fields → Bool
is_empty_dict end = true
is_empty_dict (field k v d) = false

query : String → String → String → Option String → List (String × String)
query server resource_uri call_id none =
    ("server", server) ∷ ("uri", resource_uri) ∷ ("origin_call_id", call_id) ∷ []
query server resource_uri call_id (some connector_id) =
    ("server", server)
    ∷ ("uri", resource_uri)
    ∷ ("origin_call_id", call_id)
    ∷ ("connector_id", connector_id)
    ∷ []

is_error : Json → Bool
is_error (obj result) = is_true (get "isError" result)
is_error _ = false

with_result_meta : Json → Fields → Fields
with_result_meta (obj meta) fields = set "mcp_result" (obj meta) fields
with_result_meta _ fields = fields

with_result : Json → Fields → Fields
unfolding with_result_meta
with_result (obj result) fields = with_result_meta (get "_meta" result) fields
with_result _ fields = fields

-- error is not None or is_error or _status(…) == "failed"
unfoldable pub is_failed : Fields → Bool
unfolding is_error
is_failed source =
    not (is_null (get "error" source))
    || is_error (get "result" source)
    || opt_eq (status (get "status" source)) (some "failed")

module _ (c : Codec) where
  -- _json_string
  unfoldable pub json_string : Json → String
  json_string (str s) = s
  json_string v = c.dumps v

  descriptor :
      ResponseRecord → String → String → String → String → Option String → Option String → Fields
  unfolding query public_url
  descriptor r call_id server tool resource_uri connector_id link_id =
      let path : String → String = λ rest. concat "/v1/mcp-apps/responses/" (concat r.id rest) in
      let resource_path =
        path
          (concat "/resources?" (c.urlencode (query server resource_uri call_id connector_id))) in
      dict (
        ("response_id", str r.id)
        ∷ ("call_id", str call_id)
        ∷ ("server", str server)
        ∷ ("tool", str tool)
        ∷ ("resource_uri", str resource_uri)
        ∷ ("resource_url", str (public_url r resource_path))
        ∷ ("events_url", str (public_url r (path "/events")))
        ∷ ("state_url", str (public_url r (path "/state")))
        ∷ ("tool_call_url", str (public_url r (path "/tools/call")))
        ∷ ("connector_id", or_null connector_id)
        ∷ ("link_id", or_null link_id)
        ∷ ("app_id", str (or_text (or_option connector_id link_id) call_id))
        ∷ ("allowed_tools", arr (array []))
        ∷ [])

  app_meta : Fields → String → String → String → Option String → Method ResponseRecord Fields
  unfolding descriptor
  app_meta app_context call_id server tool none = pure (
      if is_empty_dict app_context then end else dict (("codex_app_context", obj app_context) ∷ []))
  app_meta app_context call_id server tool (some resource_uri) = do
    target ← gets (λ r.
        descriptor r call_id server tool resource_uri (string (get "connectorId" app_context))
          (string (get "linkId" app_context)))
    modify (register_mcp_app_target call_id target)
    pure (
        dict (
          ("ui", obj (dict (("resourceUri", str resource_uri) ∷ [])))
          ∷ ("mcp_app", obj target)
          ∷ ("codex_app_context", obj app_context)
          ∷ []))

  -- _mcp_meta
  unfoldable pub mcp_meta : Fields → String → String → String → Method ResponseRecord Fields
  unfolding app_meta
  mcp_meta source call_id server tool =
      let app_context = dict_or_empty (get "appContext" source) in
      app_meta app_context call_id server tool (
        or_option
          (or_option (string (get "resourceUri" app_context))
            (string (get "mcpAppResourceUri" source)))
          (resource_uri_from_result (get "result" source)))

  -- The item before its metadata. The keys are inserted in order.
  plain_item : Fields → Bool → String → String → String → Fields
  unfolding is_failed json_string
  plain_item source completed call_id server tool =
      let arguments_value = get "arguments" source in
      let arguments = json_string (if is_null arguments_value then obj end else arguments_value) in
      let error = get "error" source in
      let result = get "result" source in
      let failed = is_failed source in
      let item = dict (
        ("id", str call_id)
        ∷ ("type", str "mcp_call")
        ∷ ("arguments", str arguments)
        ∷ ("name", str tool)
        ∷ ("server_label", str server)
        ∷ (
          "status",
          str (if failed then "failed" else (if completed then "completed" else "in_progress")),
        )
        ∷ []) in
      let with_output =
        if completed && not (is_null result)
        then set "output" (str (json_string result)) item
        else item in
      if failed
      then set "error" (obj (mcp_error (if is_null error then result else error))) with_output
      else with_output

  -- _mcp_call_item
  unfoldable pub mcp_call_item : Fields → Bool → Method ResponseRecord Fields
  unfolding plain_item mcp_meta with_result
  mcp_call_item source completed =
      let call_id = or_text (string (get "id" source)) "mcp_unknown" in
      let server = or_text (string (get "server" source)) "unknown" in
      let tool = or_text (string (get "tool" source)) "unknown" in
      let item = plain_item source completed call_id server tool in
      do
        meta ← mcp_meta source call_id server tool
        let full = with_result (get "result" source) meta
        pure (if is_empty_dict full then item else set "_meta" (obj full) item)
