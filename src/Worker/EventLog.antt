-- ===== src/Worker/EventLog.antt =====
-- src/sandbox_worker/event_log.py, and `WorkerRuntime.event_stream` of src/sandbox_worker/app.py.
--
-- The condition makes each method of the log atomic. A reader that waits is woken in a later state of
-- the log, so `read` is its last step: what it returns in the state that it wakes in.
pub mod Reads
pub mod Stream
use litellm_gateway.Prelude.{
  ℕ, zero, suc, ◌+◌, String, Bool, true, false, not, ◌||◌, Option, none, some, List, [], ◌∷◌, ◌++◌,
  map, if◌then◌else◌, ltb, length, drop, keep,
}
use litellm_gateway.Prelude.Json.{Json}

pub record AgentEvent : Type 0 where
  pub id : ℕ
  pub type : String
  pub payload : Json

pub record EventLog : Type 0 where
  pub max_history : ℕ
  pub events : List AgentEvent
  pub next_id : ℕ
  pub closed : Bool

unfoldable pub new : ℕ → EventLog
new max_history = record { max_history = max_history; events = []; next_id = 0; closed = false }

-- A client's position: -1 before the first event, or the id of the last event that it has.
pub data Cursor : Type 0 where
  start : Cursor
  at : ℕ → Cursor

abbrev pub cursor_before : ℕ → Cursor
cursor_before zero = start
cursor_before (suc n) = at n

unfoldable pub last_event_id : EventLog → Cursor
last_event_id l = cursor_before l.next_id

-- deque(maxlen=…).append
push : ℕ → List AgentEvent → AgentEvent → List AgentEvent
push max_history events e =
    let grown = events ++ e ∷ [] in if ltb max_history (length grown) then drop 1 grown else grown

unfoldable pub publish : String → Json → EventLog → EventLog
unfolding push
publish type payload l =
    let event : AgentEvent = record { id = l.next_id; type = type; payload = payload } in
    record l { next_id = l.next_id + 1; events = push l.max_history l.events event }

unfoldable pub close : EventLog → EventLog
close l = record l { closed = true }

-- event.id > after
abbrev pub is_after : Cursor → AgentEvent → Bool
is_after start e = true
is_after (at n) e = ltb n e.id

unfoldable pub read : Cursor → EventLog → List AgentEvent × Bool
read after l = (keep (is_after after) l.events, l.closed)

-- A generator of `event_stream`: its cursor, what it has yielded (`none` is a keep-alive), and
-- whether it has returned.
pub record EventStream : Type 0 where
  pub follow : Bool
  pub cursor : Cursor
  pub yielded : List (Option AgentEvent)
  pub returned : Bool

abbrev pub advance : Cursor → List AgentEvent → Cursor
advance c [] = c
advance c (e ∷ es) = advance (at e.id) es

abbrev pub is_empty : List AgentEvent → Bool
is_empty [] = true
is_empty (e ∷ es) = false

-- One round of the loop.
after_read : EventStream → List AgentEvent × Bool → EventStream
after_read s (events, closed) =
    let delivered = record s {
      cursor = advance s.cursor events;
      yielded = s.yielded ++ map some events;
    } in
    if closed || not s.follow
    then record delivered { returned = true }
    else (if is_empty events
        then record delivered { yielded = delivered.yielded ++ none ∷ [] }
        else delivered)

unfoldable pub round : EventLog → EventStream → EventStream
unfolding after_read
round l s = if s.returned then s else after_read s (read s.cursor l)
