-- ===== src/Manager/Backend/Operations/Settled.antt =====
-- How the task of a checkout or of a publication, `_execute_file_operation` of
-- src/sandbox_manager/docker_backend.py, leaves the row of its operation.
use litellm_gateway.Prelude.{String, ◌≡◌, Bool, true, false, ◌&&◌, ◌||◌, ◌==◌, if◌then◌else◌}
use litellm_gateway.Prelude.Json.{Json}
use litellm_gateway.Manager.State.{Result, ok, err}
use litellm_gateway.Manager.State.History.{Call, updates}
use litellm_gateway.Manager.Program.{
  is_exception, Command, stores, Answer, Returned, Program, done, raises, call,
}

-- What the last update of the operation was: of a status that is not the last one, of a last status, or
-- one that the store refused.
pub data Progress : Type 0 where
  unsettled settled refused : Progress

abbrev is_open : Progress → Bool
is_open unsettled = true
is_open _ = false

abbrev is_last : String → Bool
is_last status = status == "succeeded" || status == "failed"

abbrev answered : {A : Type 0} → Bool → Result A → Progress
answered last (ok a) = if last then settled else unsettled
answered last (err e) = refused

abbrev stored : String → (c : Call) → Progress → Result (Returned c) → Progress
stored k (updates operation_id status phase result error timestamp) p x =
    if operation_id == k then answered (is_last status) x else p
stored k c p x = p

abbrev pub progressed : String → (c : Command) → Progress → Answer c → Progress
progressed k (stores c) p x = stored k c p x
progressed k c p x = p

-- A program that returns only when the store has taken a last status of the operation `k`, and raises an
-- exception only then or when the store has refused its last update.
unfoldable pub IsSettling : {A : Type 0} → String → Progress → Program A → Type 0
IsSettling k p (done a) = p ≡ settled
IsSettling k p (raises e) = (is_exception e && is_open p) ≡ false
IsSettling k p (call c f) = (x : Answer c) → IsSettling k (progressed k c p x) (f x)

-- The same of what it returns alone.
unfoldable IsReturning : {A : Type 0} → String → Progress → Program A → Type 0
IsReturning k p (done a) = p ≡ settled
IsReturning k p (raises e) = Unit
IsReturning k p (call c f) = (x : Answer c) → IsReturning k (progressed k c p x) (f x)
