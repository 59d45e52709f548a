-- ===== src/Manager/Backend/Only/Startup.antt =====
-- What the methods of Manager/Backend/Startup ask of the store: they finish no Sandbox into a live status.
use litellm_gateway.Prelude.{ℕ, String, Option, none, some, List, [], ◌∷◌}
use litellm_gateway.Prelude.Json.{Json, str, Fields}
use litellm_gateway.Manager.State.{Workspace, Sandbox, Operation, Result, ok, err, not_found}
use litellm_gateway.Manager.Settings.{ManagerSettings}
use litellm_gateway.Manager.Program.{Listed}
use litellm_gateway.Manager.Backend.{Environment}
use litellm_gateway.Manager.Backend.Startup.{
  validate_network, validate_image, validate_storage, validate_docker, record_from_state, finish_of,
  finish_found, finish_reconciled_sandbox, running_row, adopt, remove_runtime, remove_orphan,
  finish_removed, discard, adopt_or_discard, reconcile_worker, reconcile_container,
  reconcile_containers, reconcile_managed_containers, remove_if_orphaned,
  cleanup_orphaned_ephemeral_workspaces, fail_incomplete, undo_checkpoint, undo_restore,
  recover_incomplete_operations, start_up,
}
use litellm_gateway.Manager.Program.Only.{Only}
use litellm_gateway.Manager.Backend.Only.{Allowed, backend_rules}
use litellm_gateway.Manager.Backend.Only.Waiting.{status_of-Only}

validate_network-Only : (name : String) → Only Allowed (validate_network name)
unfolding validate_network
validate_network-Only name = search backend_rules

validate_image-Only : (name : String) → Only Allowed (validate_image name)
unfolding validate_image
validate_image-Only name = search backend_rules

validate_storage-Only : (s : ManagerSettings) → Only Allowed (validate_storage s)
unfolding validate_storage
validate_storage-Only s = search (backend_rules, validate_image-Only)

validate_docker-Only : (s : ManagerSettings) → Only Allowed (validate_docker s)
unfolding validate_docker
validate_docker-Only s =
    search (backend_rules, validate_network-Only, validate_image-Only, validate_storage-Only) depth
      12

record_from_state-Only :
    (b : Sandbox) (w : Workspace) (container : String) (x : Option ℕ)
    → Only Allowed (record_from_state b w container x)
unfolding record_from_state
record_from_state-Only b w container none = search backend_rules
record_from_state-Only b w container (some expires_at) = search backend_rules

finish_of-Only : (b : Sandbox) (workspace : Workspace) → Only Allowed (finish_of b workspace)
unfolding finish_of
finish_of-Only b workspace = search backend_rules

finish_found-Only : (b : Sandbox) (x : Result Workspace) → Only Allowed (finish_found b x)
unfolding finish_found
finish_found-Only b (ok workspace) = search (backend_rules, finish_of-Only)
finish_found-Only b (err not_found) = search backend_rules
finish_found-Only b (err e) = search backend_rules

finish_reconciled_sandbox-Only : (b : Sandbox) → Only Allowed (finish_reconciled_sandbox b)
unfolding finish_reconciled_sandbox
finish_reconciled_sandbox-Only b = search (backend_rules, finish_found-Only)

running_row-Only : (b : Sandbox) → Only Allowed (running_row b)
unfolding running_row
running_row-Only b = search backend_rules

adopt-Only : (b : Sandbox) (container : String) → Only Allowed (adopt b container)
unfolding adopt
adopt-Only b container = search (backend_rules, record_from_state-Only, running_row-Only)

remove_runtime-Only : (v : Json) → Only Allowed (remove_runtime v)
unfolding remove_runtime
remove_runtime-Only (str sandbox_id) = search backend_rules
remove_runtime-Only _ = search backend_rules

remove_orphan-Only :
    (env : Environment) (kind : Json) (v : Json) → Only Allowed (remove_orphan env kind v)
unfolding remove_orphan
remove_orphan-Only env kind (str workspace_id) = search backend_rules
remove_orphan-Only env kind _ = search backend_rules

finish_removed-Only :
    (env : Environment) (x : Option Sandbox) (labels : Fields)
    → Only Allowed (finish_removed env x labels)
unfolding finish_removed
finish_removed-Only env (some b) labels = search (backend_rules, finish_reconciled_sandbox-Only)
finish_removed-Only env none labels = search (backend_rules, remove_orphan-Only)

discard-Only :
    (env : Environment) (container : Listed) (row : Option Sandbox)
    → Only Allowed (discard env container row)
unfolding discard
discard-Only env container row = search (backend_rules, remove_runtime-Only, finish_removed-Only)

adopt_or_discard-Only :
    (env : Environment) (container : Listed) (x : Option Sandbox) (status : String)
    → Only Allowed (adopt_or_discard env container x status)
unfolding adopt_or_discard
adopt_or_discard-Only env container none status = search (backend_rules, discard-Only)
adopt_or_discard-Only env container (some b) status =
    search (backend_rules, adopt-Only, discard-Only)

reconcile_worker-Only :
    (env : Environment) (timestamp : ℕ) (container : Listed) (row : Option Sandbox)
    → Only Allowed (reconcile_worker env timestamp container row)
unfolding reconcile_worker
reconcile_worker-Only env timestamp container row =
    search (backend_rules, status_of-Only, discard-Only, adopt_or_discard-Only)

reconcile_container-Only :
    (env : Environment) (timestamp : ℕ) (active : List Sandbox) (container : Listed)
    → Only Allowed (reconcile_container env timestamp active container)
unfolding reconcile_container
reconcile_container-Only env timestamp active container =
    search (backend_rules, reconcile_worker-Only)

reconcile_containers-Only :
    (env : Environment) (timestamp : ℕ) (active : List Sandbox) (containers : List Listed)
    (seen : List String)
    → Only Allowed (reconcile_containers env timestamp active containers seen)
unfolding reconcile_containers
reconcile_containers-Only env timestamp active [] seen = search backend_rules
reconcile_containers-Only env timestamp active (container ∷ containers) seen = search (
  backend_rules,
  reconcile_container-Only,
  reconcile_containers-Only env timestamp active containers,
)

reconcile_managed_containers-Only :
    (env : Environment) → Only Allowed (reconcile_managed_containers env)
unfolding reconcile_managed_containers
reconcile_managed_containers-Only env =
    search (backend_rules, finish_reconciled_sandbox-Only, reconcile_containers-Only) depth 12

remove_if_orphaned-Only : (workspace : Workspace) → Only Allowed (remove_if_orphaned workspace)
unfolding remove_if_orphaned
remove_if_orphaned-Only workspace = search backend_rules

cleanup_orphaned_ephemeral_workspaces-Only : Only Allowed cleanup_orphaned_ephemeral_workspaces
unfolding cleanup_orphaned_ephemeral_workspaces
cleanup_orphaned_ephemeral_workspaces-Only = search (backend_rules, remove_if_orphaned-Only)

fail_incomplete-Only : (o : Operation) → Only Allowed (fail_incomplete o)
unfolding fail_incomplete
fail_incomplete-Only o = search backend_rules

undo_checkpoint-Only : (workspace : Workspace) → Only Allowed (undo_checkpoint workspace)
unfolding undo_checkpoint
undo_checkpoint-Only workspace = search backend_rules

undo_restore-Only : (workspace : Workspace) → Only Allowed (undo_restore workspace)
unfolding undo_restore
undo_restore-Only workspace = search backend_rules

recover_incomplete_operations-Only : Only Allowed recover_incomplete_operations
unfolding recover_incomplete_operations
recover_incomplete_operations-Only =
    search (backend_rules, fail_incomplete-Only, undo_checkpoint-Only, undo_restore-Only) depth 12

pub start_up-Only : (env : Environment) → Only Allowed (start_up env)
unfolding start_up
start_up-Only env = search (
  backend_rules, validate_docker-Only, reconcile_managed_containers-Only,
  cleanup_orphaned_ephemeral_workspaces-Only, recover_incomplete_operations-Only,
)
