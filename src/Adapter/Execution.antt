-- ===== src/Adapter/Execution.antt =====
-- src/codex_responses_adapter/store.py: `ActiveExecution`, which hands the events of one response to
-- its subscribers.
--
-- A queue is the list of all that was ever put into it, and is named by its place among the queues.
-- No method waits once it holds the lock, so each is one step of the event loop. The set of
-- subscribers is a list; each queue gets its items one by one, so the set's order shows nowhere.
pub mod Queues
pub mod Delivery
use litellm_gateway.Prelude.{
  ℕ, zero, suc, Bool, true, false, not, Option, none, some, List, [], ◌∷◌, ◌++◌, if◌then◌else◌,
  nat_eq, length, keep,
}
use litellm_gateway.Prelude.Json.{Json}

pub record Execution : Type 0 where
  pub terminal : Bool
  pub subscribers : List ℕ
  pub queues : List (List (Option Json))

unfoldable pub start : Execution
start = record { terminal = false; subscribers = []; queues = [] }

-- queue.put_nowait(item)
unfoldable pub put_nowait : ℕ → Option Json → List (List (Option Json)) → List (List (Option Json))
put_nowait q item [] = []
put_nowait zero item (c ∷ cs) = (c ++ item ∷ []) ∷ cs
put_nowait (suc q) item (c ∷ cs) = c ∷ put_nowait q item cs

-- for queue in subscribers: queue.put_nowait(item)
unfoldable pub put_each :
    List ℕ → Option Json → List (List (Option Json)) → List (List (Option Json))
put_each [] item qs = qs
put_each (q ∷ subs) item qs = put_each subs item (put_nowait q item qs)

unfoldable pub put_events :
    List ℕ → List Json → List (List (Option Json)) → List (List (Option Json))
put_events subs [] qs = qs
put_events subs (e ∷ es) qs = put_events subs es (put_each subs (some e) qs)

-- The new queue, and its name.
unfoldable pub subscribe : Execution → ℕ × Execution
subscribe s =
    let q = length s.queues in
    if s.terminal
    then (q, record s { queues = s.queues ++ (none ∷ []) ∷ [] })
    else (q, record s { queues = s.queues ++ [] ∷ []; subscribers = q ∷ s.subscribers })

unfoldable pub unsubscribe : ℕ → Execution → Execution
unsubscribe q s = record s { subscribers = keep (λ p. not (nat_eq p q)) s.subscribers }

unfoldable pub publish : List Json → Execution → Execution
unfolding put_events put_each put_nowait
publish events s = record s { queues = put_events s.subscribers events s.queues }

unfoldable pub finish : Execution → Execution
unfolding put_each put_nowait
finish s = record s {
  subscribers = [];
  terminal = true;
  queues = put_each s.subscribers none s.queues;
}
