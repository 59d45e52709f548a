-- ===== src/Adapter/Builder/Endings.antt =====
-- The methods of `ResponsesEventBuilder` (src/codex_responses_adapter/events.py) that may end the
-- response.
use litellm_gateway.Prelude.{
  ◌≡◌, refl, String, Bool, true, false, Option, none, some, List, ◌==◌, ◌||◌, if◌then◌else◌,
}
use litellm_gateway.Prelude.Json.{Json, null, bool, int, float, str, arr, obj, Fields, get, is_true}
use litellm_gateway.Adapter.Response.{ResponseRecord}
use litellm_gateway.Adapter.Response.Sound.{IsSound}
use litellm_gateway.Adapter.Values.{last_agent_message, has_type, error_message}
use litellm_gateway.Adapter.Calls.{Codec}
use litellm_gateway.Adapter.Builder.{Event, Builder, Emit, no_events, choose}
use litellm_gateway.Adapter.Builder.Turns.{
  complete_listed, sync_final, ended_by, end_turn, record_usage, complete_turn, fail, incomplete,
  item_started, message_delta, item_completed, handle, dispatch, consume,
}
use litellm_gateway.Adapter.Builder.Runs.{
  Runs, RunsIf, Open, Outcome, is_terminal, ⊕-Runs, ⊕-RunsIf, if-Runs, no_events-Runs,
  assigning-Runs, ending-RunsIf,
}
use litellm_gateway.Adapter.Builder.Steps.{
  finish_message-Runs, append_text-Runs, sync_completed_message-Runs, start_mcp_call-Runs,
  complete_mcp_call-Runs, complete_calls-Runs,
}

-- A method that returns from every sound state, whether or not it ends the response.
abbrev pub Returns : Emit → Type 0
Returns m = (b : Builder) → IsSound b.response → Outcome b (m b)

abbrev Closing : Emit → Type 0
Closing m = RunsIf (λ b. b.terminal ≡ false) m

Open-Outcome : (b : Builder) (o : Option (List Event) × Builder) → Open b o → Outcome b o
Open-Outcome b (none, t) h = h
Open-Outcome b (some es, t) h = (h.0, h.2)

pub Runs-Returns : (m : Emit) → Runs m → Returns m
Runs-Returns m h b s = Open-Outcome b (m b) (h b s)

guarded-Returns : (m : Emit) → Closing m → Returns (choose (λ b. b.terminal) no_events m)
unfolding choose
guarded-Returns m h b s = go b.terminal refl
  where
    go : (x : Bool) → b.terminal ≡ x → Outcome b (if x then no_events b else m b)
    go true e = Runs-Returns no_events no_events-Runs b s
    go false e = h b e s

if-Returns : (x : Bool) (m n : Emit) → Returns m → Returns n → Returns (if x then m else n)
if-Returns true m n h k = h
if-Returns false m n h k = k

ended_by-Closing :
    (type : String) (f : ResponseRecord → ResponseRecord)
    → is_terminal type ≡ true
    → ((r : ResponseRecord) → IsSound r → IsSound (f r))
    → Closing (ended_by type f)
unfolding ended_by
ended_by-Closing type f e h = ending-RunsIf type f e h

if-Closing : (x : Bool) (m n : Emit) → Closing m → Closing n → Closing (if x then m else n)
if-Closing true m n h k = h
if-Closing false m n h k = k

end_turn-Closing : (turn_status : String) (turn : Fields) → Closing (end_turn turn_status turn)
unfolding end_turn
end_turn-Closing turn_status turn =
    if-Closing (turn_status == "completed") _ _
      (ended_by-Closing "response.completed" _ refl
        (λ r s. record { usable = s.usable; indexed = s.indexed }))
      (if-Closing (turn_status == "interrupted") _ _
        (ended_by-Closing "response.incomplete" _ refl
          (λ r s. record { usable = s.usable; indexed = s.indexed }))
        (ended_by-Closing "response.failed" _ refl
          (λ r s. record { usable = s.usable; indexed = s.indexed })))

record_usage-Runs : (turn : Fields) → Runs (record_usage turn)
unfolding record_usage
record_usage-Runs turn =
    assigning-Runs _ _ (λ r s. record { usable = s.usable; indexed = s.indexed }) no_events-Runs

sync_final-Runs : (final : String × Option String) → Runs (sync_final final)
unfolding sync_final
sync_final-Runs (text, item_id) =
    if-Runs _ _ (text == "") no_events-Runs (sync_completed_message-Runs text item_id)

pub fail-Returns : (message : String) → Returns (fail message)
unfolding fail
fail-Returns message = guarded-Returns _ (
    ⊕-RunsIf _ _ finish_message-Runs (
      ended_by-Closing "response.failed" _ refl
        (λ r s. record { usable = s.usable; indexed = s.indexed })))

pub incomplete-Returns : (reason : String) → Returns (incomplete reason)
unfolding incomplete
incomplete-Returns reason = guarded-Returns _ (
    ⊕-RunsIf _ _ finish_message-Runs (
      ended_by-Closing "response.incomplete" _ refl
        (λ r s. record { usable = s.usable; indexed = s.indexed })))

message_delta-Runs : (delta item_id : Json) → Runs (message_delta delta item_id)
unfolding message_delta
message_delta-Runs (str delta) item_id =
    if-Runs _ _ (delta == "") no_events-Runs (append_text-Runs delta _)
message_delta-Runs null item_id = no_events-Runs
message_delta-Runs (bool b) item_id = no_events-Runs
message_delta-Runs (int n) item_id = no_events-Runs
message_delta-Runs (float m e) item_id = no_events-Runs
message_delta-Runs (arr xs) item_id = no_events-Runs
message_delta-Runs (obj d) item_id = no_events-Runs

module _ (c : Codec) where
  complete_listed-Runs : (v : Json) → Runs (complete_listed c v)
  unfolding complete_listed
  complete_listed-Runs (arr xs) = complete_calls-Runs c xs
  complete_listed-Runs null = no_events-Runs
  complete_listed-Runs (bool b) = no_events-Runs
  complete_listed-Runs (int n) = no_events-Runs
  complete_listed-Runs (float m e) = no_events-Runs
  complete_listed-Runs (str s) = no_events-Runs
  complete_listed-Runs (obj d) = no_events-Runs

  complete_turn-Returns : (turn : Fields) → Returns (complete_turn c turn)
  unfolding complete_turn
  complete_turn-Returns turn = guarded-Returns _ (
      ⊕-RunsIf _ _
        (⊕-Runs _ _
          (⊕-Runs _ _
            (⊕-Runs _ _ (complete_listed-Runs (get "items" turn))
              (sync_final-Runs (last_agent_message turn)))
            finish_message-Runs)
          (record_usage-Runs turn))
        (end_turn-Closing _ turn))

  item_started-Runs : (v : Json) → Runs (item_started c v)
  unfolding item_started
  item_started-Runs (obj item) =
      if-Runs _ _ (has_type "mcpToolCall" item) (start_mcp_call-Runs c item) no_events-Runs
  item_started-Runs null = no_events-Runs
  item_started-Runs (bool b) = no_events-Runs
  item_started-Runs (int n) = no_events-Runs
  item_started-Runs (float m e) = no_events-Runs
  item_started-Runs (str s) = no_events-Runs
  item_started-Runs (arr xs) = no_events-Runs

  item_completed-Runs : (v : Json) → Runs (item_completed c v)
  unfolding item_completed
  item_completed-Runs (obj item) =
      if-Runs _ _ (has_type "agentMessage" item) (sync_completed_message-Runs _ _)
        (if-Runs _ _ (has_type "mcpToolCall" item) (complete_mcp_call-Runs c item) no_events-Runs)
  item_completed-Runs null = no_events-Runs
  item_completed-Runs (bool b) = no_events-Runs
  item_completed-Runs (int n) = no_events-Runs
  item_completed-Runs (float m e) = no_events-Runs
  item_completed-Runs (str s) = no_events-Runs
  item_completed-Runs (arr xs) = no_events-Runs

  nothing-Returns : Returns no_events
  nothing-Returns = Runs-Returns no_events no_events-Runs

  handle-Returns : (method : String) (params : Fields) → Returns (handle c method params)
  unfolding handle
  handle-Returns method params =
      if-Returns (method == "item/started") _ _
        (Runs-Returns _ (item_started-Runs (get "item" params)))
        (if-Returns (method == "item/agentMessage/delta") _ _
          (Runs-Returns _ (message_delta-Runs (get "delta" params) (get "itemId" params)))
          (if-Returns (method == "item/completed") _ _
            (Runs-Returns _ (item_completed-Runs (get "item" params)))
            (if-Returns (method == "turn/completed") _ _ (complete_turn-Returns _) (
              if-Returns (method == "error" || method == "turn/error") _ _
                (if-Returns (is_true (get "willRetry" params)) _ _ nothing-Returns
                  (fail-Returns (error_message params)))
                nothing-Returns))))

  dispatch-Returns : (method params : Json) → Returns (dispatch c method params)
  unfolding dispatch
  dispatch-Returns (str method) (obj params) = handle-Returns method params
  dispatch-Returns _ _ = nothing-Returns

  pub consume-Returns : (notification : Fields) → Returns (consume c notification)
  unfolding consume
  consume-Returns notification =
      dispatch-Returns (get "method" notification) (get "params" notification)
