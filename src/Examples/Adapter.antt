-- ===== src/Examples/Adapter.antt =====
-- src/codex_responses_adapter/store.py at concrete inputs.
use litellm_gateway.Prelude.{ℕ, ◌≡◌, none, some, List, [], ◌∷◌}
use litellm_gateway.Prelude.Json.{int, pos}
use litellm_gateway.Adapter.Execution.{subscribe, unsubscribe, publish, finish, start}
use litellm_gateway.Adapter.Registry.{get, get_active, empty}
use litellm_gateway.Adapter.Registry.Latest.{
  Change, puts, deletes, registers, unregisters, change_all, latest_returned,
}
use litellm_gateway.Adapter.Execution.Queues.{content}
use litellm_gateway.Adapter.Execution.Delivery.{
  Action, publishes, finishes, subscribes, unsubscribes, act, act_all, heard, delivery_exact,
}

abbrev earlier : List Action
earlier = subscribes ∷ publishes (int (pos 1) ∷ []) ∷ []

abbrev later : List Action
later =
    publishes (int (pos 2) ∷ int (pos 3) ∷ [])
    ∷ subscribes
    ∷ unsubscribes 0
    ∷ publishes (int (pos 4) ∷ [])
    ∷ finishes
    ∷ publishes (int (pos 5) ∷ [])
    ∷ []

delivery_exact_example :
    content (act_all later (subscribe (act_all earlier start)).1).queues 1
    ≡ some (int (pos 2)) ∷ some (int (pos 3)) ∷ some (int (pos 4)) ∷ none ∷ []
unfolding start act act_all content heard subscribe unsubscribe publish finish
delivery_exact_example = delivery_exact earlier later

abbrev changes : List (Change ℕ ℕ)
changes =
    puts "resp_1" 1
    ∷ registers "resp_1" 10
    ∷ puts "resp_2" 2
    ∷ puts "resp_1" 3
    ∷ unregisters "resp_1"
    ∷ deletes "resp_2"
    ∷ []

latest_returned_example :
    (get "resp_1" (change_all changes empty) ≡ some 3)
    × (get_active "resp_1" (change_all changes empty) ≡ none)
latest_returned_example = latest_returned "resp_1" changes
