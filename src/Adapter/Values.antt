-- ===== src/Adapter/Values.antt =====
-- src/codex_responses_adapter/events.py: the functions that read values of a notification.
use litellm_gateway.Prelude.{
  String, Bool, false, Option, none, some, List, [], ◌∷◌, ◌==◌, if◌then◌else◌,
}
use litellm_gateway.Prelude.Json.{
  ℤ, pos, ◌+ℤ◌, Json, int, str, arr, obj, Items, nil, cons, Fields, get, dict, or_else,
}
use litellm_gateway.Prelude.Text.{without, lower}

-- _string
abbrev pub string : Json → Option String
string (str s) = if s == "" then none else some s
string _ = none

-- x or y
abbrev pub or_text : Option String → String → String
or_text none t = t
or_text (some s) t = s

abbrev pub or_option : Option String → Option String → Option String
or_option none o = o
or_option (some s) o = some s

status_names : List (String × String)
status_names =
    ("inprogress", "in_progress")
    ∷ ("calling", "in_progress")
    ∷ ("completed", "completed")
    ∷ ("failed", "failed")
    ∷ ("interrupted", "interrupted")
    ∷ ("incomplete", "incomplete")
    ∷ []

-- {…}.get(key, default)
lookup : String → String → List (String × String) → String
lookup k default [] = default
lookup k default ((l, v) ∷ rest) = if l == k then v else lookup k default rest

-- 95 and 45 are the underscore and the hyphen.
unfoldable pub normalized : String → String
normalized value = lower (without 45 (without 95 value))

-- _status
unfoldable pub status : Json → Option String
unfolding lookup status_names normalized
status (str value) = some (lookup (normalized value) value status_names)
status _ = none

-- _as_int
abbrev pub integer : Json → ℤ
integer (int n) = n
integer _ = pos 0

message_in : Json → Option String
message_in (str s) = string (str s)
message_in (obj d) = string (get "message" d)
message_in _ = none

-- _error_message
unfoldable pub error_message : Fields → String
unfolding message_in
error_message value =
    or_text
      (or_option (message_in (get "message" value))
        (or_option (message_in (get "error" value)) (message_in (get "detail" value))))
      "Codex app-server execution failed"

abbrev execution_error : Json → Fields
execution_error content =
    dict (("type", str "mcp_tool_execution_error") ∷ ("content", content) ∷ [])

coded_error : Json → Fields → Fields
unfolding error_message
coded_error (int code) value = dict (
    ("type", str "mcp_protocol_error")
    ∷ ("code", int code)
    ∷ ("message", str (error_message value))
    ∷ [])
coded_error _ value = execution_error (obj value)

-- _mcp_error
unfoldable pub mcp_error : Json → Fields
unfolding coded_error
mcp_error (obj value) = coded_error (get "code" value) value
mcp_error (str value) = execution_error (str value)
mcp_error _ = execution_error (str "MCP tool call failed")

-- _usage_from_turn
usage_of : Json → Option Fields
usage_of (obj raw) =
    let input_tokens = integer (or_else (get "inputTokens" raw) (get "input_tokens" raw)) in
    let cached_tokens =
      integer (or_else (get "cachedInputTokens" raw) (get "cached_input_tokens" raw)) in
    let output_tokens = integer (or_else (get "outputTokens" raw) (get "output_tokens" raw)) in
    some (
      dict (
        ("input_tokens", int input_tokens)
        ∷ ("input_tokens_details", obj (dict (("cached_tokens", int cached_tokens) ∷ [])))
        ∷ ("output_tokens", int output_tokens)
        ∷ ("output_tokens_details", obj (dict (("reasoning_tokens", int (pos 0)) ∷ [])))
        ∷ ("total_tokens", int (input_tokens +ℤ output_tokens))
        ∷ []))
usage_of _ = none

unfoldable pub usage_from_turn : Fields → Option Fields
unfolding usage_of
usage_from_turn turn = usage_of (get "usage" turn)

-- item.get("type") == name
abbrev pub is_text : String → Json → Bool
is_text name (str s) = s == name
is_text name _ = false

abbrev pub has_type : String → Fields → Bool
has_type name item = is_text name (get "type" item)

-- for item in reversed(items): the last one of its type.
last_message : Items → Option Fields → Option Fields
last_message nil found = found
last_message (cons (obj item) xs) found =
    last_message xs (if has_type "agentMessage" item then some item else found)
last_message (cons _ xs) found = last_message xs found

abbrev pub text_or_empty : Json → String
text_or_empty (str s) = s
text_or_empty _ = ""

abbrev pub text_or_none : Json → Option String
text_or_none (str s) = some s
text_or_none _ = none

message_parts : Option Fields → String × Option String
message_parts none = ("", none)
message_parts (some item) = (text_or_empty (get "text" item), text_or_none (get "id" item))

last_in : Json → String × Option String
unfolding last_message message_parts
last_in (arr xs) = message_parts (last_message xs none)
last_in _ = ("", none)

-- _last_agent_message
unfoldable pub last_agent_message : Fields → String × Option String
unfolding last_in
last_agent_message turn = last_in (get "items" turn)

uri_of_ui : Json → Option String
uri_of_ui (obj ui) = string (get "resourceUri" ui)
uri_of_ui _ = none

uri_of_meta : Json → Option String
unfolding uri_of_ui
uri_of_meta (obj meta) = or_option (uri_of_ui (get "ui" meta)) (string (get "ui/resourceUri" meta))
uri_of_meta _ = none

-- _resource_uri_from_result
unfoldable pub resource_uri_from_result : Json → Option String
unfolding uri_of_meta
resource_uri_from_result (obj value) = uri_of_meta (get "_meta" value)
resource_uri_from_result _ = none
