-- ===== src/Adapter/Builder/Messages.antt =====
-- src/codex_responses_adapter/events.py: the methods of `ResponsesEventBuilder` for the message.
use litellm_gateway.Prelude.{
  ℕ, String, true, not, ◌||◌, Option, none, some, [], ◌∷◌, ◌==◌, if◌then◌else◌,
}
use litellm_gateway.Prelude.Json.{Json, int, pos, str, arr, obj, dict, array}
use litellm_gateway.Prelude.Text.{concat, after_prefix}
use litellm_gateway.Adapter.Response.{
  ResponseRecord, ensure_message, sync_message_item, message_item,
}
use litellm_gateway.Adapter.Builder.{
  Emit, with_response, assigning, event, no_events, ◌⊕◌, choose, response_event,
}

unfoldable pub initial_events : Emit
initial_events = response_event "response.created" ⊕ response_event "response.in_progress"

-- The content part of a message, with its text.
abbrev text_part : String → Json
text_part text =
    obj (
      dict
        (("type", str "output_text") ∷ ("text", str text) ∷ ("annotations", arr (array [])) ∷ []))

abbrev message_index : ResponseRecord → Json
message_index r = int (pos (index_or_zero r.message_output_index))
  where
    index_or_zero : Option ℕ → ℕ
    index_or_zero none = 0
    index_or_zero (some n) = n

-- _start_message
unfoldable pub start_message : Option String → Emit
start_message item_id =
    choose (λ b. b.response.message_started) no_events
      (with_response (ensure_message item_id) (λ index.
        event "response.output_item.added"
          (λ r. ("output_index", int (pos index)) ∷ ("item", obj (message_item r)) ∷ [])
        ⊕ event "response.content_part.added" (λ r.
          ("item_id", str r.message_id)
          ∷ ("output_index", int (pos index))
          ∷ ("content_index", int (pos 0))
          ∷ ("part", text_part "")
          ∷ [])))

-- _finish_message
unfoldable pub finish_message : Emit
finish_message =
    choose (λ b. not b.response.message_started || b.response.message_completed) no_events
      (assigning (λ r. record r { message_completed = true })
        (with_response sync_message_item (λ _.
          event "response.output_text.done" (λ r.
            ("item_id", str r.message_id)
            ∷ ("output_index", message_index r)
            ∷ ("content_index", int (pos 0))
            ∷ ("text", str r.output_text)
            ∷ [])
          ⊕ event "response.content_part.done" (λ r.
            ("item_id", str r.message_id)
            ∷ ("output_index", message_index r)
            ∷ ("content_index", int (pos 0))
            ∷ ("part", text_part r.output_text)
            ∷ [])
          ⊕ event "response.output_item.done"
              (λ r. ("output_index", message_index r) ∷ ("item", obj (message_item r)) ∷ []))))

-- A delta of the text, which the record has taken.
unfoldable pub text_delta : String → Emit
text_delta delta =
    assigning (λ r. record r { output_text = concat r.output_text delta })
      (with_response sync_message_item (λ _. event "response.output_text.delta" (λ r.
        ("item_id", str r.message_id)
        ∷ ("output_index", message_index r)
        ∷ ("content_index", int (pos 0))
        ∷ ("delta", str delta)
        ∷ [])))

-- _append_text
unfoldable pub append_text : String → Option String → Emit
append_text delta item_id = start_message item_id ⊕ text_delta delta

unfoldable pub replace_text : String → Emit
replace_text text =
    assigning (λ r. record r { output_text = text })
      (with_response sync_message_item (λ _. no_events))

-- text that starts with the record's, or not
unfoldable pub take_rest : String → Option String → Emit
take_rest text none = replace_text text
take_rest text (some missing) = if missing == "" then no_events else text_delta missing

unfoldable pub take_text : String → Emit
take_text text b =
    (if text == "" || text == b.response.output_text
        then no_events
        else take_rest text (after_prefix b.response.output_text text))
      b

-- _sync_completed_message
unfoldable pub sync_completed_message : String → Option String → Emit
sync_completed_message text item_id = start_message item_id ⊕ take_text text
