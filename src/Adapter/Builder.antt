-- ===== src/Adapter/Builder.antt =====
-- src/codex_responses_adapter/events.py: `ResponsesEventBuilder`, which turns the notifications of a
-- Codex turn into the events of a response. The files below it hold its methods.
--
-- A method returns its events or raises. Methods that extend a list of events by another method's are
-- put together by `⊕`.
pub mod Messages
pub mod Tools
pub mod Turns
pub mod Runs
pub mod Steps
pub mod Endings
pub mod Histories
use litellm_gateway.Prelude.{
  ℕ, suc, String, Bool, true, false, Option, none, some, List, [], ◌∷◌, ◌++◌, if◌then◌else◌,
}
use litellm_gateway.Prelude.Json.{Json, Fields, dict}
use litellm_gateway.Prelude.Raising.{Method, ◌>>=◌, ◌>>◌, pure, modify, continue}
use litellm_gateway.Adapter.Response.{ResponseRecord, to_response}

pub record Event : Type 0 where
  pub type : String
  pub sequence_number : ℕ
  pub payload : Fields

pub record Builder : Type 0 where
  pub response : ResponseRecord
  pub sequence_number : ℕ
  pub terminal : Bool
  pub completed_mcp_calls : List String

abbrev pub start : ResponseRecord → Builder
start r = record { response = r; sequence_number = 0; terminal = false; completed_mcp_calls = [] }

abbrev pub Emit : Type 0
Emit = Method Builder (List Event)

module _ {A : Type 0} where
  then_emit : Builder → Option A × ResponseRecord → (A → Emit) → Option (List Event) × Builder
  then_emit b (none, r) k = (none, record b { response = r })
  then_emit b (some a, r) k = k a (record b { response = r })

  -- A method of the record, and the rest of the builder's method after it.
  unfoldable pub with_response : Method ResponseRecord A → (A → Emit) → Emit
  unfolding then_emit
  with_response m k b = then_emit b (m b.response) k

-- Assignments to fields of the record, and to `_terminal`.
unfoldable pub assigning : (ResponseRecord → ResponseRecord) → Emit → Emit
assigning f m b = m (record b { response = f b.response })

unfoldable pub ending : Emit → Emit
ending m b = m (record b { terminal = true })

abbrev pub emitted : String → List (String × Json) → Builder → Event
emitted type payload b = record {
  type = type;
  sequence_number = b.sequence_number;
  payload = dict payload;
}

-- _event, as a list of one event. The payload is read from the record as it is then.
unfoldable pub event : String → (ResponseRecord → List (String × Json)) → Emit
event type payload b = (
  some (emitted type (payload b.response) b ∷ []),
  record b { sequence_number = suc b.sequence_number },
)

unfoldable pub no_events : Emit
no_events b = (some [], b)

infixl 6 ◌⊕◌
unfoldable pub ◌⊕◌ : Emit → Emit → Emit
m ⊕ n = m >>= λ first. n >>= λ second. pure (first ++ second)

-- if test: m else: n
unfoldable pub choose : (Builder → Bool) → Emit → Emit → Emit
choose test m n b = if test b then m b else n b

-- The event that carries the whole response.
unfoldable pub response_event : String → Emit
response_event type =
    with_response to_response (λ response. event type (λ r. ("response", response) ∷ []))
