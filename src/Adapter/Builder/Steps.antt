-- ===== src/Adapter/Builder/Steps.antt =====
-- Every method of `ResponsesEventBuilder` (src/codex_responses_adapter/events.py) is put together so.
use litellm_gateway.Prelude.{
  ℕ, ◌≡◌, refl, String, Bool, true, false, Option, none, some, List, ◌==◌, ◌||◌, if◌then◌else◌,
}
use litellm_gateway.Prelude.Json.{
  Json, null, bool, int, float, str, arr, obj, Items, nil, cons, Fields, get,
}
use litellm_gateway.Prelude.Text.{after_prefix}
use litellm_gateway.Adapter.Response.{
  ResponseRecord, ensure_message, sync_message_item, add_output_item, to_response,
}
use litellm_gateway.Adapter.Response.Sound.{
  IsSound, ensure_message-Keeps, sync_message_item-Keeps, add_output_item-Keeps, to_response-Keeps,
}
use litellm_gateway.Adapter.Values.{string, has_type, is_text}
use litellm_gateway.Adapter.Calls.{Codec, mcp_call_item}
use litellm_gateway.Adapter.Calls.Ids.{mcp_call_item-Gives, string-nonempty}
use litellm_gateway.Adapter.Builder.{Emit, event, response_event, with_response}
use litellm_gateway.Adapter.Builder.Messages.{
  initial_events, start_message, finish_message, text_delta, append_text, replace_text, take_rest,
  take_text, sync_completed_message,
}
use litellm_gateway.Adapter.Builder.Tools.{
  add_completed, started_call, start_call, start_mcp_call, completed_call, complete_call,
  complete_mcp_call,
}
use litellm_gateway.Adapter.Builder.Turns.{complete_calls}
use litellm_gateway.Adapter.Builder.Runs.{
  Runs, is_terminal, Follows-nothing, ⊕-Runs, choose-Runs, if-Runs, no_events-Runs, event-Runs,
  assigning-Runs, with_response-Runs, Keeps-Gives,
}

-- A change of fields that soundness does not read.
abbrev Sound-same : (f : ResponseRecord → ResponseRecord) → Type 0
Sound-same f = (r : ResponseRecord) → IsSound r → IsSound (f r)

pub response_event-Runs : (type : String) → is_terminal type ≡ false → Runs (response_event type)
unfolding response_event
response_event-Runs type e =
    with_response-Runs (λ _. Unit {0}) to_response _
      (λ r s. Keeps-Gives (to_response r) (to_response-Keeps r s)) (λ _ _. event-Runs type _ e)

pub initial_events-Runs : Runs initial_events
unfolding initial_events
initial_events-Runs =
    ⊕-Runs _ _ (response_event-Runs "response.created" refl)
      (response_event-Runs "response.in_progress" refl)

pub synced-Runs : (m : Emit) → Runs m → Runs (with_response sync_message_item (λ _. m))
synced-Runs m h =
    with_response-Runs (λ _. Unit {0}) sync_message_item _
      (λ r s. Keeps-Gives (sync_message_item r) (sync_message_item-Keeps r s)) (λ _ _. h)

pub start_message-Runs : (item_id : Option String) → Runs (start_message item_id)
unfolding start_message
start_message-Runs item_id = choose-Runs _ _ _ no_events-Runs (
    with_response-Runs (λ _. Unit {0}) (ensure_message item_id) _
      (λ r s. Keeps-Gives (ensure_message item_id r) (ensure_message-Keeps item_id r s))
      (λ index _.
        ⊕-Runs _ _ (event-Runs "response.output_item.added" _ refl)
          (event-Runs "response.content_part.added" _ refl)))

pub finish_message-Runs : Runs finish_message
unfolding finish_message
finish_message-Runs = choose-Runs _ _ _ no_events-Runs (
    assigning-Runs _ _ (λ r s. record { usable = s.usable; indexed = s.indexed })
      (synced-Runs _ (
        ⊕-Runs _ _
          (⊕-Runs _ _ (event-Runs "response.output_text.done" _ refl)
            (event-Runs "response.content_part.done" _ refl))
          (event-Runs "response.output_item.done" _ refl))))

pub text_delta-Runs : (delta : String) → Runs (text_delta delta)
unfolding text_delta
text_delta-Runs delta =
    assigning-Runs _ _ (λ r s. record { usable = s.usable; indexed = s.indexed })
      (synced-Runs _ (event-Runs "response.output_text.delta" _ refl))

pub append_text-Runs : (delta : String) (item_id : Option String) → Runs (append_text delta item_id)
unfolding append_text
append_text-Runs delta item_id = ⊕-Runs _ _ (start_message-Runs item_id) (text_delta-Runs delta)

pub take_rest-Runs : (text : String) (missing : Option String) → Runs (take_rest text missing)
unfolding take_rest replace_text
take_rest-Runs text none =
    assigning-Runs _ _ (λ r s. record { usable = s.usable; indexed = s.indexed })
      (synced-Runs _ no_events-Runs)
take_rest-Runs text (some missing) =
    if-Runs _ _ (missing == "") no_events-Runs (text_delta-Runs missing)

pub take_text-Runs : (text : String) → Runs (take_text text)
unfolding take_text
take_text-Runs text b s =
    if-Runs _ _ (text == "" || text == b.response.output_text) no_events-Runs
      (take_rest-Runs text (after_prefix b.response.output_text text)) b s

pub sync_completed_message-Runs :
    (text : String) (item_id : Option String) → Runs (sync_completed_message text item_id)
unfolding sync_completed_message
sync_completed_message-Runs text item_id =
    ⊕-Runs _ _ (start_message-Runs item_id) (take_text-Runs text)

pub add_completed-Runs : (call_id : String) → Runs (add_completed call_id)
unfolding add_completed
add_completed-Runs call_id b s = (Follows-nothing b _ refl refl, refl, s)

module _ (c : Codec) where
  -- The item of a call is placed under the call's id.
  pub placed-Runs :
      (source : Fields) (completed : Bool) (call_id : String) (k : Fields → ℕ → Emit)
      → string (get "id" source) ≡ some call_id
      → ((item : Fields) (index : ℕ) → Runs (k item index))
      → Runs (
          with_response
            (mcp_call_item c source completed)
            (λ item. with_response (add_output_item item) (λ index. k item index)))
  placed-Runs source completed call_id k e h =
      with_response-Runs (λ item. get "id" item ≡ str call_id) (mcp_call_item c source completed) _
        (λ r s. mcp_call_item-Gives c source completed call_id r e s)
        (λ item p.
          with_response-Runs (λ _. Unit {0}) (add_output_item item) _
            (λ r s. Keeps-Gives (add_output_item item r) (
              add_output_item-Keeps call_id item r p (string-nonempty (get "id" source) call_id e)
                s))
            (λ index _. h item index))

  pub started_call-Runs :
      (call_id : String) (source : Fields)
      → string (get "id" source) ≡ some call_id
      → Runs (started_call c call_id source)
  unfolding started_call
  started_call-Runs call_id source e = placed-Runs source false call_id _ e (λ item index.
      ⊕-Runs _ _
        (⊕-Runs _ _ (event-Runs "response.output_item.added" _ refl)
          (event-Runs "response.mcp_call_arguments.done" _ refl))
        (event-Runs "response.mcp_call.in_progress" _ refl))

  pub start_call-Runs :
      (o : Option String) (source : Fields)
      → string (get "id" source) ≡ o
      → Runs (start_call c o source)
  unfolding start_call
  start_call-Runs none source e = no_events-Runs
  start_call-Runs (some call_id) source e =
      choose-Runs _ _ _ no_events-Runs (started_call-Runs call_id source e)

  pub start_mcp_call-Runs : (source : Fields) → Runs (start_mcp_call c source)
  unfolding start_mcp_call
  start_mcp_call-Runs source = start_call-Runs (string (get "id" source)) source refl

  pub result_event-Runs :
      (b : Bool) (payload : ResponseRecord → List (String × Json))
      → Runs
          (event (if b then "response.mcp_call.failed" else "response.mcp_call.completed") payload)
  result_event-Runs true payload = event-Runs "response.mcp_call.failed" payload refl
  result_event-Runs false payload = event-Runs "response.mcp_call.completed" payload refl

  pub completed_call-Runs :
      (call_id : String) (source : Fields)
      → string (get "id" source) ≡ some call_id
      → Runs (completed_call c call_id source)
  unfolding completed_call
  completed_call-Runs call_id source e = placed-Runs source true call_id _ e (λ item index.
      ⊕-Runs _ _ (result_event-Runs (is_text "failed" (get "status" item)) _)
        (event-Runs "response.output_item.done" _ refl))

  pub complete_call-Runs :
      (o : Option String) (source : Fields)
      → string (get "id" source) ≡ o
      → Runs (complete_call c o source)
  unfolding complete_call
  complete_call-Runs none source e = no_events-Runs
  complete_call-Runs (some call_id) source e = choose-Runs _ _ _ no_events-Runs (
      ⊕-Runs _ _
        (⊕-Runs _ _ (choose-Runs _ _ _ no_events-Runs (start_mcp_call-Runs source))
          (completed_call-Runs call_id source e))
        (add_completed-Runs call_id))

  pub complete_mcp_call-Runs : (source : Fields) → Runs (complete_mcp_call c source)
  unfolding complete_mcp_call
  complete_mcp_call-Runs source = complete_call-Runs (string (get "id" source)) source refl

  pub complete_calls-Runs : (xs : Items) → Runs (complete_calls c xs)
  unfolding complete_calls
  complete_calls-Runs nil = no_events-Runs
  complete_calls-Runs (cons (obj item) xs) =
      ⊕-Runs _ _
        (if-Runs _ _ (has_type "mcpToolCall" item) (complete_mcp_call-Runs item) no_events-Runs)
        (complete_calls-Runs xs)
  complete_calls-Runs (cons null xs) = complete_calls-Runs xs
  complete_calls-Runs (cons (bool b) xs) = complete_calls-Runs xs
  complete_calls-Runs (cons (int n) xs) = complete_calls-Runs xs
  complete_calls-Runs (cons (float m e) xs) = complete_calls-Runs xs
  complete_calls-Runs (cons (str s) xs) = complete_calls-Runs xs
  complete_calls-Runs (cons (arr ys) xs) = complete_calls-Runs xs
