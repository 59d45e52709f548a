-- ===== src/Worker/EventLog/Stream.antt =====
-- What a client of `event_stream` (src/sandbox_worker/app.py) gets while the log goes on.
use litellm_gateway.Prelude.{
  ◌+◌, ◌≤◌, ◌≡◌, String, Bool, false, Option, none, some, List, [], ◌∷◌, ◌++◌, length, drop,
}
use litellm_gateway.Prelude.Json.{Json}
use litellm_gateway.Worker.EventLog.{
  AgentEvent, EventLog, publish, close, Cursor, EventStream, round,
}
use litellm_gateway.Worker.EventLog.Reads.{next_after, Holds, published}

-- The events among what was yielded.
pub delivered : List (Option AgentEvent) → List AgentEvent
delivered [] = []
delivered (none ∷ ys) = delivered ys
delivered (some e ∷ ys) = e ∷ delivered ys

abbrev pub opened : Bool → Cursor → EventStream
opened follow c = record { follow = follow; cursor = c; yielded = []; returned = false }

-- A log that goes on while one stream is read from it, from the cursor `c` on. A round is taken only
-- while the log still holds all that the stream has not read.
pub data Reading (c : Cursor) : List AgentEvent → EventLog → EventStream → Type 0 where
  begins :
      {all : List AgentEvent} {l : EventLog} (follow : Bool)
      → Holds all l
      → next_after c ≤ length all
      → Reading c all l (opened follow c)
  publishes :
      {all : List AgentEvent} {l : EventLog} {s : EventStream} (type : String) (payload : Json)
      → Reading c all l s
      → Reading c (all ++ published type payload l ∷ []) (publish type payload l) s
  closes :
      {all : List AgentEvent} {l : EventLog} {s : EventStream}
      → Reading c all l s
      → Reading c all (close l) s
  rounds :
      {all : List AgentEvent} {l : EventLog} {s : EventStream}
      → Reading c all l s
      → length all ≤ next_after s.cursor + l.max_history
      → Reading c all l (round l s)

record Agrees (c : Cursor) (all : List AgentEvent) (l : EventLog) (s : EventStream) : Type 0 where
  holds : Holds all l
  began : next_after c ≤ length all
  bounded : next_after s.cursor ≤ length all
  split : delivered s.yielded ++ drop (next_after s.cursor) all ≡ drop (next_after c) all
