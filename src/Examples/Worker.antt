-- ===== src/Examples/Worker.antt =====
-- src/sandbox_worker/event_log.py and src/sandbox_worker/app.py at concrete inputs.
use litellm_gateway.Prelude.{◌≡◌, refl, true, false, some, [], ◌∷◌}
use litellm_gateway.Prelude.Json.{int, pos}
use litellm_gateway.Worker.EventLog.{
  AgentEvent, EventLog, new, publish, close, read, start, at, EventStream, round,
}
use litellm_gateway.Worker.EventLog.Reads.{Holds, new-Holds, publish-Holds, read_exact}
use litellm_gateway.Worker.EventLog.Stream.{opened}

abbrev event_0 : AgentEvent
event_0 = record { id = 0; type = "turn.started"; payload = int (pos 0) }

abbrev event_1 : AgentEvent
event_1 = record { id = 1; type = "turn.delta"; payload = int (pos 1) }

abbrev event_2 : AgentEvent
event_2 = record { id = 2; type = "turn.completed"; payload = int (pos 2) }

-- A log of two that has seen three.
abbrev log : EventLog
log =
    publish "turn.completed" (int (pos 2))
      (publish "turn.delta" (int (pos 1)) (publish "turn.started" (int (pos 0)) (new 2)))

log-Holds : Holds (event_0 ∷ event_1 ∷ event_2 ∷ []) log
unfolding new publish
log-Holds = publish-Holds "turn.completed" (int (pos 2)) (event_0 ∷ event_1 ∷ []) _ (
    publish-Holds "turn.delta" (int (pos 1)) (event_0 ∷ []) _
      (publish-Holds "turn.started" (int (pos 0)) [] (new 2) (new-Holds 2)))

read_exact_example : read start log ≡ (event_1 ∷ event_2 ∷ [], false)
unfolding new publish
read_exact_example = read_exact start (event_0 ∷ event_1 ∷ event_2 ∷ []) log log-Holds

-- A client that had the first event when it came back, and reads on until the log closes.
abbrev log_1 : EventLog
log_1 = publish "turn.started" (int (pos 0)) (new 2)

abbrev log_2 : EventLog
log_2 = publish "turn.delta" (int (pos 1)) log_1

abbrev log_3 : EventLog
log_3 = close (publish "turn.completed" (int (pos 2)) log_2)

abbrev client : EventStream
client = round log_3 (round log_2 (opened true (at 0)))

client_yields : client.yielded ≡ some event_1 ∷ some event_2 ∷ []
unfolding new publish close round read
client_yields = refl
