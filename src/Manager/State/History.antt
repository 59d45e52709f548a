-- ===== src/Manager/State/History.antt =====
-- Histories of calls on the `StateStore` of src/sandbox_manager/state.py. The Manager has one store
-- and one lock, so the transactions of all its tasks form one sequence.
use litellm_gateway.Prelude.{ℕ, String, Option, List, [], ◌∷◌, All, false, ◌≡◌, ◌==◌}
use litellm_gateway.Prelude.Json.{Json}
use litellm_gateway.Manager.State.{Store}
use litellm_gateway.Manager.State.Workspaces.{
  create_workspace, delete_workspace, schedule_workspace_delete, transition_workspace,
}
use litellm_gateway.Manager.State.Sandboxes.{
  claim_workspace, mark_sandbox_running, renew_sandbox, finish_sandbox,
}
use litellm_gateway.Manager.State.Operations.{
  create_operation, update_operation, commit_revision, consume_nonce,
}

-- The methods that write.
pub data Call : Type 0 where
  creates : (workspace_id kind volume_name : String) (now : ℕ) → Call
  deletes : (workspace_id : String) → Call
  schedules : (workspace_id : String) (delete_after now : ℕ) → Call
  transitions : (workspace_id : String) (expected : List String) (status : String) (now : ℕ) → Call
  claims :
      (workspace_id sandbox_id worker_host container_name : String) (created_at expires_at : ℕ)
      → Call
  marks : (sandbox_id : String) (now : ℕ) → Call
  renews : (sandbox_id : String) (expires_at : ℕ) → Call
  finishes : (sandbox_id status workspace_status : String) (now : ℕ) → Call
  opens :
      (operation_id operation workspace_id : String) (sandbox_id : Option String) (key : String)
      (input : Json) (now : ℕ)
      → Call
  updates :
      (operation_id status : String) (phase : Option String) (result : Option Json)
      (error : Option String) (now : ℕ)
      → Call
  commits :
      (workspace_id operation_id revision_id : String) (generation : ℕ) (result : Json) (now : ℕ)
      → Call
  consumes : (nonce : String) (expires_at now : ℕ) → Call

-- The state after a call, whether it returns or raises.
unfoldable pub run : Call → Store → Store
run (creates k kind volume now) s = (create_workspace k kind volume now s).1
run (deletes k) s = (delete_workspace k s).1
run (schedules k after now) s = (schedule_workspace_delete k after now s).1
run (transitions k expected status now) s = (transition_workspace k expected status now s).1
run (claims k sid host name now till) s = (claim_workspace k sid host name now till s).1
run (marks sid now) s = (mark_sandbox_running sid now s).1
run (renews sid till) s = (renew_sandbox sid till s).1
run (finishes sid status workspace_status now) s =
    (finish_sandbox sid status workspace_status now s).1
run (opens oid operation k sid key input now) s =
    (create_operation oid operation k sid key input now s).1
run (updates oid status phase result error now) s =
    (update_operation oid status phase result error now s).1
run (commits k oid rid generation result now) s =
    (commit_revision k oid rid generation result now s).1
run (consumes nonce till now) s = (consume_nonce nonce till now s).1

unfoldable pub run_all : List Call → Store → Store
run_all [] s = s
run_all (c ∷ cs) s = run_all cs (run c s)

abbrev pub empty : Store
empty = record {
  workspaces = [];
  sandboxes = [];
  revisions = [];
  operations = [];
  consumed_nonces = [];
}

-- A Sandbox is finished with a status that is not live, as every caller does.
abbrev pub Ends : Call → Type 0
Ends (finishes sid status workspace_status now) =
    ((status == "starting") ≡ false) × ((status == "running") ≡ false)
Ends _ = Unit

module _ {ℓ} (P : Store → Type ℓ) (Q : Call → Type 0)
    (step : (c : Call) (s : Store) → Q c → P s → P (run c s)) where
  pub run_all_induction : (cs : List Call) (s : Store) → All Q cs → P s → P (run_all cs s)
  unfolding run_all
  run_all_induction [] s q h = h
  run_all_induction (c ∷ cs) s q h = run_all_induction cs (run c s) q.1 (step c s q.0 h)
