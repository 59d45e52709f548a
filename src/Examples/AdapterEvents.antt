-- ===== src/Examples/AdapterEvents.antt =====
-- src/codex_responses_adapter/events.py at concrete inputs.
use litellm_gateway.Prelude.{String, true, none, List, [], ◌∷◌}
use litellm_gateway.Prelude.Json.{Json, str, obj, Fields, end, field}
use litellm_gateway.Adapter.Response.{ResponseRecord, CreateResponseRequest, create}
use litellm_gateway.Adapter.Response.Sound.{IsSound, create-IsSound}
use litellm_gateway.Adapter.Calls.{Codec}
use litellm_gateway.Adapter.Builder.Histories.{
  Call, begins, consumes, fails, interrupts, RunsNumbered, RunsEndedOnce, events_numbered,
  ended_once,
}

abbrev codec : Codec
codec = record { dumps = λ v. "{}"; urlencode = λ q. "q" }

abbrev request : CreateResponseRequest
request = record {
  model = "codex";
  instructions = none;
  previous_response_id = none;
  stream = true;
  metadata = none;
  store = none;
  reasoning = none;
  service_tier = none;
}

abbrev fresh : ResponseRecord
fresh = create request [] "" "0a" "1b" 10

fresh-IsSound : IsSound fresh
fresh-IsSound = create-IsSound request [] "" "0a" "1b" 10

abbrev note : String → List (String × Json) → Call
note method params =
    consumes (field "method" (str method) (field "params" (obj (fields params)) end))
  where
    fields : List (String × Json) → Fields
    fields [] = end
    fields ((k, v) ∷ rest) = field k v (fields rest)

-- A turn with a text, a tool call, its end, and what comes too late.
abbrev turn : List Call
turn =
    begins
    ∷ note "item/agentMessage/delta" (("delta", str "Hi") ∷ ("itemId", str "msg_7") ∷ [])
    ∷ note "item/completed"
        (("item", obj (field "type" (str "mcpToolCall") (field "id" (str "call_1") end))) ∷ [])
    ∷ note "turn/completed" (("turn", obj (field "status" (str "completed") end)) ∷ [])
    ∷ fails "too late"
    ∷ interrupts "cancelled"
    ∷ []

events_numbered_example : RunsNumbered codec turn fresh
events_numbered_example = events_numbered codec turn fresh fresh-IsSound

ended_once_example : RunsEndedOnce codec turn fresh
ended_once_example = ended_once codec turn fresh fresh-IsSound
