-- ===== src/Examples/ManagerState.antt =====
-- src/sandbox_manager/state.py at concrete inputs.
use litellm_gateway.Prelude.{
  ◌≡◌, ◌≢◌, eq_iff, refl, true, false, none, List, [], ◌∷◌, arith, inl, inr,
}
use mathlib.Core.Bool.{false≢true}
use litellm_gateway.Prelude.Json.{null}
use litellm_gateway.Manager.State.{Workspace, Sandbox, Operation, Store, ok, err, conflict}
use litellm_gateway.Manager.State.Workspaces.{create_workspace}
use litellm_gateway.Manager.State.Sandboxes.{
  claim_workspace, mark_sandbox_running, finish_sandbox, is_live, starting,
}
use litellm_gateway.Manager.State.Operations.{
  create_operation, commit_revision, consume_nonce, new_operation,
}
use litellm_gateway.Manager.State.History.{
  Call, creates, claims, marks, finishes, consumes, run, run_all, empty,
}
use litellm_gateway.Manager.State.Exclusion.{single_writer, moving_without_writer}
use litellm_gateway.Manager.State.Fencing.{generation_of, stale_checkpoint_refused}
use litellm_gateway.Manager.State.Replay.{consume_nonce_once}
use litellm_gateway.Manager.State.Idempotency.{create_operation_idempotent}
use litellm_gateway.Prelude.Table.{find_by, update_where, count_where, delete_where, any_where}

abbrev script : List Call
script =
    creates "workspace_a" "recoverable" "volume_a" 10
    ∷ claims "workspace_a" "sandbox_1" "host_1" "host_1" 11 611
    ∷ marks "sandbox_1" 12
    ∷ finishes "sandbox_1" "terminated" "detached_dirty" 20
    ∷ claims "workspace_a" "sandbox_2" "host_2" "host_2" 30 630
    ∷ []

abbrev second : Sandbox
second = starting "sandbox_2" "workspace_a" "host_2" "host_2" 30 630

abbrev first : Sandbox
first = record {
  id = "sandbox_1";
  workspace_id = "workspace_a";
  worker_host = "host_1";
  container_name = "host_1";
  status = "terminated";
  created_at = 11;
  expires_at = none;
}

script_runs : (run_all script empty).sandboxes ≡ first ∷ second ∷ []
unfolding run_all run create_workspace claim_workspace mark_sandbox_running finish_sandbox find_by
    update_where count_where any_where
script_runs = refl

single_writer_example : second.id ≡ second.id
unfolding run_all run create_workspace claim_workspace mark_sandbox_running finish_sandbox find_by
    update_where count_where any_where
single_writer_example =
    single_writer script (tt, (tt, (tt, ((refl, refl), (tt, tt))))) second second (inr (inl refl))
      (inr (inl refl)) refl refl refl

abbrev ended : List Call
ended =
    creates "workspace_a" "recoverable" "volume_a" 10
    ∷ claims "workspace_a" "sandbox_1" "host_1" "host_1" 11 611
    ∷ marks "sandbox_1" 12
    ∷ finishes "sandbox_1" "terminated" "detached_dirty" 20
    ∷ []

abbrev detached : Workspace
detached = record {
  id = "workspace_a";
  kind = "recoverable";
  status = "detached_dirty";
  volume_name = "volume_a";
  generation = 1;
  head_revision = none;
  active_sandbox_id = none;
  created_at = 10;
  updated_at = 20;
  delete_after = none;
}

not_running : detached.status ≢ "running"
not_running p = false≢true ((eq_iff detached.status "running").1 p)

moving_without_writer_example : is_live first ≡ false
unfolding run_all run create_workspace claim_workspace mark_sandbox_running finish_sandbox find_by
    update_where count_where any_where
moving_without_writer_example =
    moving_without_writer ended (tt, (tt, (tt, ((refl, refl), tt)))) detached first (inl refl)
      (inl refl) refl not_running

abbrev fresh : Store
fresh = record empty {
  workspaces = record detached { status = "detached_clean"; generation = 0; updated_at = 10 } ∷ [];
}

abbrev after_claim : Store
after_claim =
    run_all (marks "sandbox_1" 12 ∷ [])
      (claim_workspace "workspace_a" "sandbox_1" "host_1" "host_1" 11 611 fresh).1

stale_checkpoint_refused_example :
    commit_revision "workspace_a" "operation_1" "revision_1" 0 null 13 after_claim
    ≡ (err conflict, after_claim)
unfolding run_all run create_workspace claim_workspace mark_sandbox_running finish_sandbox find_by
    generation_of update_where count_where any_where
stale_checkpoint_refused_example =
    stale_checkpoint_refused "workspace_a" "sandbox_1" "host_1" "host_1" 11 611 0 fresh _
      (marks "sandbox_1" 12 ∷ []) "operation_1" "revision_1" null 13 refl refl (tt, tt)

consume_nonce_once_example :
    (consume_nonce "nonce_1" 999 130
      (run_all (consumes "nonce_2" 400 120 ∷ []) (consume_nonce "nonce_1" 200 100 empty).1)).0
    ≡ ok false
unfolding consume_nonce find_by delete_where
consume_nonce_once_example =
    consume_nonce_once "nonce_1" 200 100 empty (consumes "nonce_2" 400 120 ∷ []) 999 130 refl
      (omega arith) (omega arith)

abbrev opened : Operation
opened = new_operation "operation_1" "checkpoint" "workspace_a" none "key" null 11

create_operation_idempotent_example :
    let t =
      run_all
        (marks "sandbox_1" 12 ∷ [])
        (create_operation "operation_1" "checkpoint" "workspace_a" none "key" null 11 fresh).1 in
    (o : Operation) × (create_operation "operation_2" "restore" "workspace_b" none "key" null 12 t
      ≡ (ok (o, false), t))
    × (o.id ≡ opened.id)
    × (o.workspace_id ≡ opened.workspace_id)
unfolding create_operation find_by
create_operation_idempotent_example =
    create_operation_idempotent "operation_1" "checkpoint" "workspace_a" none "key" null 11 fresh
      opened true (marks "sandbox_1" 12 ∷ []) "operation_2" "restore" "workspace_b" none null 12
      refl (tt, tt)
