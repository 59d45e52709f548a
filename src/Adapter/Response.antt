-- ===== src/Adapter/Response.antt =====
-- src/codex_responses_adapter/models.py: `ResponseRecord`, the state of one response.
--
-- `output_indexes` lists the keys with their values; `none` as a result is an exception. The deep
-- copies of the source are values here.
pub mod Sound
use litellm_gateway.Prelude.{
  ℕ, zero, suc, String, Bool, true, false, not, ◌&&◌, ◌||◌, Option, none, some, List, [], ◌∷◌, ◌++◌,
  ◌==◌, map, if◌then◌else◌, length, is_some,
}
use litellm_gateway.Prelude.Json.{
  Json, null, bool, int, pos, str, arr, obj, Fields, end, get, set, dict, array, or_null,
}
use litellm_gateway.Prelude.Text.{concat}
use litellm_gateway.Prelude.Raising.{Method, ◌>>=◌, ◌>>◌, pure, raise, gets, modify, when}

pub record ResponseRecord : Type 0 where
  pub id : String
  pub model : String
  pub created_at : ℕ
  pub status : String
  pub instructions : Option String
  pub previous_response_id : Option String
  pub metadata : Fields
  pub input_items : List Fields
  pub store : Bool
  pub stream : Bool
  pub reasoning : Option Fields
  pub service_tier : Option String
  pub mcp_apps_base_url : String
  pub sandbox_id : Option String
  pub workspace_id : Option String
  pub workspace_recoverable : Bool
  pub thread_id : Option String
  pub turn_id : Option String
  pub message_id : String
  pub message_output_index : Option ℕ
  pub output_text : String
  pub message_started : Bool
  pub message_completed : Bool
  pub output_items : List Fields
  pub output_indexes : List (String × ℕ)
  pub mcp_app_targets : List (String × Fields)
  pub error : Option Fields
  pub incomplete_details : Option Fields
  pub usage : Option Fields

-- The fields of a request that the record takes.
pub record CreateResponseRequest : Type 0 where
  pub model : String
  pub instructions : Option String
  pub previous_response_id : Option String
  pub stream : Bool
  pub metadata : Option Fields
  pub store : Option Bool
  pub reasoning : Option Fields
  pub service_tier : Option String

abbrev or_empty : Option Fields → Fields
or_empty none = end
or_empty (some d) = d

-- value is not False
abbrev not_false : Option Bool → Bool
not_false none = true
not_false (some b) = b

-- `first_hex` and `second_hex` are what the two calls of uuid.uuid4().hex return.
unfoldable pub create :
    CreateResponseRequest → List Fields → String → String → String → ℕ → ResponseRecord
create request input_items mcp_apps_base_url first_hex second_hex now = record {
  id = concat "resp_" first_hex;
  model = request.model;
  created_at = now;
  status = "in_progress";
  instructions = request.instructions;
  previous_response_id = request.previous_response_id;
  metadata = or_empty request.metadata;
  input_items = input_items;
  store = not_false request.store;
  stream = request.stream;
  reasoning = request.reasoning;
  service_tier = request.service_tier;
  mcp_apps_base_url = mcp_apps_base_url;
  sandbox_id = none;
  workspace_id = none;
  workspace_recoverable = false;
  thread_id = none;
  turn_id = none;
  message_id = concat "msg_" second_hex;
  message_output_index = none;
  output_text = "";
  message_started = false;
  message_completed = false;
  output_items = [];
  output_indexes = [];
  mcp_app_targets = [];
  error = none;
  incomplete_details = none;
  usage = none;
}

-- self.output_indexes.get(item_id)
unfoldable pub find_index : String → List (String × ℕ) → Option ℕ
find_index k [] = none
find_index k ((l, n) ∷ rest) = if l == k then some n else find_index k rest

unfoldable pub item_at : ℕ → List Fields → Option Fields
item_at n [] = none
item_at zero (x ∷ xs) = some x
item_at (suc n) (x ∷ xs) = item_at n xs

unfoldable pub replace_at : ℕ → Fields → List Fields → List Fields
replace_at n item [] = []
replace_at zero item (x ∷ xs) = item ∷ xs
replace_at (suc n) item (x ∷ xs) = x ∷ replace_at n item xs

-- isinstance(item_id, str) and item_id
abbrev pub usable_id : Json → Option String
usable_id (str s) = if s == "" then none else some s
usable_id _ = none

-- self.output_items[index] = item, and an IndexError out of range.
store_at : ℕ → Fields → Method ResponseRecord ℕ
unfolding item_at replace_at
store_at index item r =
    if is_some (item_at index r.output_items)
    then (some index, record r { output_items = replace_at index item r.output_items })
    else (none, r)

append_item : String → Fields → Method ResponseRecord ℕ
append_item item_id item r = (
  some (length r.output_items),
  record r {
    output_indexes = r.output_indexes ++ (item_id, length r.output_items) ∷ [];
    output_items = r.output_items ++ item ∷ [];
  },
)

place_item : String → Option ℕ → Fields → Method ResponseRecord ℕ
unfolding store_at append_item
place_item item_id (some existing) item = store_at existing item
place_item item_id none item = append_item item_id item

add_identified : Option String → Fields → Method ResponseRecord ℕ
unfolding find_index place_item
add_identified none item r = (none, r)
add_identified (some item_id) item r =
    place_item item_id (find_index item_id r.output_indexes) item r

unfoldable pub add_output_item : Fields → Method ResponseRecord ℕ
unfolding add_identified
add_output_item item = add_identified (usable_id (get "id" item)) item

abbrev pub update_output_item : Fields → Method ResponseRecord ℕ
update_output_item = add_output_item

abbrev at_index : Option ℕ → List Fields → Option Fields
at_index none xs = none
at_index (some n) xs = item_at n xs

unfoldable pub get_output_item : String → ResponseRecord → Option Fields
unfolding find_index item_at
get_output_item item_id r = at_index (find_index item_id r.output_indexes) r.output_items

abbrev pub output_index : String → ResponseRecord → Option ℕ
output_index item_id r = find_index item_id r.output_indexes

unfoldable pub message_item : ResponseRecord → Fields
message_item r = dict (
    ("id", str r.message_id)
    ∷ ("type", str "message")
    ∷ ("status", str (if r.message_completed then "completed" else "in_progress"))
    ∷ ("role", str "assistant")
    ∷ (
      "content",
      arr (
          array (
            obj (
              dict (
                ("type", str "output_text")
                ∷ ("text", str r.output_text)
                ∷ ("annotations", arr (array []))
                ∷ []))
            ∷ [])),
    )
    ∷ [])

abbrev named : Option String → ResponseRecord → ResponseRecord
named none r = r
named (some item_id) r = if item_id == "" then r else record r { message_id = item_id }

start_message : Option String → Method ResponseRecord ℕ
start_message item_id = do
  modify (named item_id)
  modify (λ r. record r { message_started = true })
  item ← gets message_item
  index ← add_output_item item
  modify (λ r. record r { message_output_index = some index })
  pure index

abbrev started_index : ResponseRecord → Option ℕ
started_index r = if r.message_started then r.message_output_index else none

ensured : Option ℕ → Option String → Method ResponseRecord ℕ
ensured (some index) item_id = pure index
ensured none item_id = start_message item_id

unfoldable pub ensure_message : Option String → Method ResponseRecord ℕ
unfolding ensured start_message
ensure_message item_id r = ensured (started_index r) item_id r

unfoldable pub sync_message_item : Method ResponseRecord (Unit {0})
sync_message_item r =
    when r.message_started (do item ← gets message_item; index ← update_output_item item; pure tt) r

put_target : String → Fields → List (String × Fields) → List (String × Fields)
put_target k t [] = (k, t) ∷ []
put_target k t ((l, u) ∷ rest) =
    let more = put_target k t rest in if l == k then (l, t) ∷ rest else (l, u) ∷ more

unfoldable pub register_mcp_app_target : String → Fields → ResponseRecord → ResponseRecord
unfolding put_target
register_mcp_app_target call_id target r = record r {
  mcp_app_targets = put_target call_id target r.mcp_app_targets;
}

-- What Python's == says of a value and a text.
abbrev is_text : String → Json → Bool
is_text s (str t) = t == s
is_text s _ = false

any_server : String → List (String × Fields) → Bool
any_server server [] = false
any_server server ((k, t) ∷ rest) = is_text server (get "server" t) || any_server server rest

unfoldable pub allowed_mcp_server : String → ResponseRecord → Bool
unfolding any_server
allowed_mcp_server server r = any_server server r.mcp_app_targets

abbrev dict_or_null : Option Fields → Json
dict_or_null none = null
dict_or_null (some d) = obj d

-- Only the reasons of the Responses API are shown; an empty dict is shown as it is.
shown_details : Option Fields → Json
shown_details none = null
shown_details (some end) = obj end
shown_details (some d) =
    if is_text "max_output_tokens" (get "reason" d) || is_text "content_filter" (get "reason" d)
    then obj d
    else null

response_json : ResponseRecord → Json
unfolding shown_details
response_json r = obj (
    dict (
      ("id", str r.id)
      ∷ ("object", str "response")
      ∷ ("created_at", int (pos r.created_at))
      ∷ ("status", str r.status)
      ∷ ("background", bool false)
      ∷ ("error", dict_or_null r.error)
      ∷ ("incomplete_details", shown_details r.incomplete_details)
      ∷ ("instructions", or_null r.instructions)
      ∷ ("max_output_tokens", null)
      ∷ ("model", str r.model)
      ∷ ("output", arr (array (map obj r.output_items)))
      ∷ ("parallel_tool_calls", bool true)
      ∷ ("previous_response_id", or_null r.previous_response_id)
      ∷ ("reasoning", dict_or_null r.reasoning)
      ∷ ("store", bool r.store)
      ∷ ("service_tier", or_null r.service_tier)
      ∷ ("temperature", null)
      ∷ ("text", obj (dict (("format", obj (dict (("type", str "text") ∷ []))) ∷ [])))
      ∷ ("tool_choice", str "auto")
      ∷ ("tools", arr (array []))
      ∷ ("top_p", null)
      ∷ ("truncation", str "disabled")
      ∷ ("usage", dict_or_null r.usage)
      ∷ ("metadata", obj r.metadata)
      ∷ []))

unfoldable pub to_response : Method ResponseRecord Json
unfolding response_json
to_response = do sync_message_item; gets response_json
