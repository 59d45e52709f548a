-- ===== src/Adapter/Builder/Turns.antt =====
-- src/codex_responses_adapter/events.py: the methods of `ResponsesEventBuilder` that end a response,
-- and `consume`, which picks the method for a notification.
use litellm_gateway.Prelude.{String, ◌||◌, Option, none, some, [], ◌∷◌, ◌==◌, if◌then◌else◌}
use litellm_gateway.Prelude.Json.{Json, str, arr, obj, Items, nil, cons, Fields, get, dict, is_true}
use litellm_gateway.Adapter.Response.{ResponseRecord}
use litellm_gateway.Adapter.Values.{
  status, error_message, usage_from_turn, last_agent_message, has_type, text_or_empty, text_or_none,
}
use litellm_gateway.Adapter.Calls.{Codec, dict_or_empty}
use litellm_gateway.Adapter.Builder.{
  Emit, assigning, ending, no_events, ◌⊕◌, choose, response_event,
}
use litellm_gateway.Adapter.Builder.Messages.{finish_message, sync_completed_message, append_text}
use litellm_gateway.Adapter.Builder.Tools.{start_mcp_call, complete_mcp_call}

unfoldable pub sync_final : String × Option String → Emit
sync_final (text, item_id) = if text == "" then no_events else sync_completed_message text item_id

abbrev turn_error : Json → Fields → Fields
turn_error (obj error) turn = error
turn_error _ turn = turn

-- A terminal event, after what it records.
unfoldable pub ended_by : String → (ResponseRecord → ResponseRecord) → Emit
ended_by type f = assigning f (ending (response_event type))

-- The three ways in which a turn ends.
unfoldable pub end_turn : String → Fields → Emit
end_turn turn_status turn =
    if turn_status == "completed"
    then ended_by "response.completed" (λ r. record r { status = "completed" })
    else (if turn_status == "interrupted"
        then ended_by "response.incomplete" (λ r. record r {
          status = "incomplete";
          incomplete_details = some (dict (("reason", str "cancelled") ∷ []));
        })
        else ended_by "response.failed" (λ r. record r {
          status = "failed";
          error = some (
              dict (
                ("code", str "codex_turn_failed")
                ∷ ("message", str (error_message (turn_error (get "error" turn) turn)))
                ∷ []));
        }))

unfoldable pub record_usage : Fields → Emit
record_usage turn = assigning (λ r. record r { usage = usage_from_turn turn }) no_events

-- `_status(…) or "completed"`
abbrev status_or_completed : Option String → String
status_or_completed none = "completed"
status_or_completed (some s) = if s == "" then "completed" else s

unfoldable pub fail : String → Emit
fail message =
    choose (λ b. b.terminal) no_events
      (finish_message
        ⊕ ended_by "response.failed" (λ r. record r {
          status = "failed";
          error =
              some (dict (("code", str "codex_execution_failed") ∷ ("message", str message) ∷ []));
        }))

unfoldable pub incomplete : String → Emit
incomplete reason =
    choose (λ b. b.terminal) no_events
      (finish_message
        ⊕ ended_by "response.incomplete" (λ r. record r {
          status = "incomplete";
          incomplete_details = some (dict (("reason", str reason) ∷ []));
        }))

unfoldable pub message_delta : Json → Json → Emit
message_delta (str delta) item_id =
    if delta == "" then no_events else append_text delta (text_or_none item_id)
message_delta _ item_id = no_events

module _ (c : Codec) where
  unfoldable pub complete_calls : Items → Emit
  complete_calls nil = no_events
  complete_calls (cons (obj item) xs) =
      (if has_type "mcpToolCall" item then complete_mcp_call c item else no_events)
      ⊕ complete_calls xs
  complete_calls (cons _ xs) = complete_calls xs

  unfoldable pub complete_listed : Json → Emit
  complete_listed (arr xs) = complete_calls xs
  complete_listed _ = no_events

  -- _complete_turn
  unfoldable pub complete_turn : Fields → Emit
  complete_turn turn =
      choose (λ b. b.terminal) no_events
        (complete_listed (get "items" turn)
          ⊕ sync_final (last_agent_message turn)
          ⊕ finish_message
          ⊕ record_usage turn
          ⊕ end_turn (status_or_completed (status (get "status" turn))) turn)

  unfoldable pub item_started : Json → Emit
  item_started (obj item) = if has_type "mcpToolCall" item then start_mcp_call c item else no_events
  item_started _ = no_events

  unfoldable pub item_completed : Json → Emit
  item_completed (obj item) =
      if has_type "agentMessage" item
      then sync_completed_message (text_or_empty (get "text" item)) (text_or_none (get "id" item))
      else (if has_type "mcpToolCall" item then complete_mcp_call c item else no_events)
  item_completed _ = no_events

  unfoldable pub handle : String → Fields → Emit
  handle method params =
      if method == "item/started"
      then item_started (get "item" params)
      else (if method == "item/agentMessage/delta"
          then message_delta (get "delta" params) (get "itemId" params)
          else (if method == "item/completed"
              then item_completed (get "item" params)
              else (if method == "turn/completed"
                  then complete_turn (dict_or_empty (get "turn" params))
                  else (if method == "error" || method == "turn/error"
                      then (if is_true (get "willRetry" params)
                          then no_events
                          else fail (error_message params))
                      else no_events))))

  unfoldable pub dispatch : Json → Json → Emit
  dispatch (str method) (obj params) = handle method params
  dispatch _ _ = no_events

  unfoldable pub consume : Fields → Emit
  consume notification = dispatch (get "method" notification) (get "params" notification)
