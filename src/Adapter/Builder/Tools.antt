-- ===== src/Adapter/Builder/Tools.antt =====
-- src/codex_responses_adapter/events.py: the methods of `ResponsesEventBuilder` for MCP tool calls,
-- and `mcp_app_side_event`.
use litellm_gateway.Prelude.{
  String, Bool, true, false, not, ◌&&◌, ◌||◌, Option, none, some, List, [], ◌∷◌, ◌==◌,
  if◌then◌else◌, is_some,
}
use litellm_gateway.Prelude.Json.{Json, int, pos, str, obj, Fields, get, dict}
use litellm_gateway.Adapter.Response.{output_index, add_output_item, update_output_item}
use litellm_gateway.Adapter.Values.{string, has_type, is_text}
use litellm_gateway.Adapter.Calls.{Codec, mcp_call_item}
use litellm_gateway.Adapter.Builder.{Event, Emit, with_response, event, no_events, ◌⊕◌, choose}

-- call_id in the set
unfoldable pub in_calls : String → List String → Bool
in_calls k [] = false
in_calls k (l ∷ ls) = l == k || in_calls k ls

unfoldable pub add_completed : String → Emit
add_completed call_id b =
    (some [], record b { completed_mcp_calls = call_id ∷ b.completed_mcp_calls })

module _ (c : Codec) where
  unfoldable pub started_call : String → Fields → Emit
  started_call call_id source = with_response (mcp_call_item c source false) (λ item.
      with_response (add_output_item item) (λ index.
        event "response.output_item.added"
          (λ r. ("output_index", int (pos index)) ∷ ("item", obj item) ∷ [])
        ⊕ event "response.mcp_call_arguments.done" (λ r.
          ("item_id", str call_id)
          ∷ ("output_index", int (pos index))
          ∷ ("arguments", get "arguments" item)
          ∷ [])
        ⊕ event "response.mcp_call.in_progress"
            (λ r. ("item_id", str call_id) ∷ ("output_index", int (pos index)) ∷ [])))

  unfoldable pub start_call : Option String → Fields → Emit
  start_call none source = no_events
  start_call (some call_id) source =
      choose (λ b. is_some (output_index call_id b.response)) no_events
        (started_call call_id source)

  -- _start_mcp_call
  unfoldable pub start_mcp_call : Fields → Emit
  start_mcp_call source = start_call (string (get "id" source)) source

  unfoldable pub completed_call : String → Fields → Emit
  completed_call call_id source = with_response (mcp_call_item c source true) (λ item.
      with_response (update_output_item item) (λ index.
        event
          (if is_text "failed" (get "status" item)
            then "response.mcp_call.failed"
            else "response.mcp_call.completed")
          (λ r. ("item_id", str call_id) ∷ ("output_index", int (pos index)) ∷ [])
        ⊕ event "response.output_item.done"
            (λ r. ("output_index", int (pos index)) ∷ ("item", obj item) ∷ [])))

  unfoldable pub complete_call : Option String → Fields → Emit
  complete_call none source = no_events
  complete_call (some call_id) source =
      choose (λ b. in_calls call_id b.completed_mcp_calls) no_events
        (choose (λ b. is_some (output_index call_id b.response)) no_events (start_mcp_call source)
          ⊕ completed_call call_id source
          ⊕ add_completed call_id)

  -- _complete_mcp_call
  unfoldable pub complete_mcp_call : Fields → Emit
  complete_mcp_call source = complete_call (string (get "id" source)) source

-- meta["mcp_app"] is a dict
has_app : Json → Bool
has_app (obj meta) = is_app (get "mcp_app" meta)
  where
    is_app : Json → Bool
    is_app (obj app) = true
    is_app _ = false
has_app _ = false

app_item : Json → Bool
unfolding has_app
app_item (obj item) = has_type "mcp_call" item && has_app (get "_meta" item)
app_item _ = false

-- The side channel of MCP Apps: the name and the payload of what it sends.
unfoldable pub mcp_app_side_event : Event → Option (String × Fields)
unfolding app_item
mcp_app_side_event e =
    let item = get "item" e.payload in
    let shown = dict (("item", item) ∷ ("output_index", get "output_index" e.payload) ∷ []) in
    if not (app_item item)
    then none
    else (if e.type == "response.output_item.added"
        then some ("mcp_app.available", shown)
        else (if e.type == "response.output_item.done"
            then some ("mcp_app.tool.completed", shown)
            else none))
