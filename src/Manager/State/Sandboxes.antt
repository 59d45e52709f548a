-- ===== src/Manager/State/Sandboxes.antt =====
-- src/sandbox_manager/state.py: the methods of `StateStore` that bind a Sandbox to a Workspace.
use litellm_gateway.Prelude.{
  ℕ, suc, String, Bool, not, ◌&&◌, ◌||◌, Option, none, some, List, [], ◌∷◌, ◌++◌, ◌==◌, is_some,
  is_none, nat_eq, opt_eq, keep,
}
use litellm_gateway.Prelude.Table.{find_by, update_where, count_where}
use litellm_gateway.Manager.State.{
  Workspace, Sandbox, Store, Tx, not_found, conflict, assertion, ◌>>=◌, ◌>>◌, pure, select, gets,
  require, constrained, write, changing, transaction, one_of,
}
use litellm_gateway.Manager.State.Workspaces.{workspace_row, update_workspaces}

-- SELECT * FROM sandboxes WHERE id = ?
abbrev pub sandbox_row : String → Store → Option Sandbox
sandbox_row k s = find_by (λ b. b.id) k s.sandboxes

abbrev pub update_sandboxes : (Sandbox → Bool) → (Sandbox → Sandbox) → Store → Store
update_sandboxes p f s = record s { sandboxes = update_where p f s.sandboxes }

-- PRIMARY KEY (id), REFERENCES workspaces(id).
insert_sandbox : Sandbox → Tx (Unit {0})
insert_sandbox b =
    constrained (λ s. is_none (sandbox_row b.id s) && is_some (workspace_row b.workspace_id s))
      (λ s. record s { sandboxes = s.sandboxes ++ b ∷ [] })

abbrev pub unmountable : List String
unmountable = "checkpointing" ∷ "restoring" ∷ "deleting" ∷ "deleted" ∷ []

abbrev pub claimed : String → ℕ → Workspace → Workspace
claimed sandbox_id created_at w = record w {
  status = "running";
  active_sandbox_id = some sandbox_id;
  generation = suc w.generation;
  updated_at = created_at;
  delete_after = none;
}

abbrev pub starting : String → String → String → String → ℕ → ℕ → Sandbox
starting sandbox_id workspace_id worker_host container_name created_at expires_at = record {
  id = sandbox_id;
  workspace_id = workspace_id;
  worker_host = worker_host;
  container_name = container_name;
  status = "starting";
  created_at = created_at;
  expires_at = some expires_at;
}

unfoldable pub claim_workspace :
    String → String → String → String → ℕ → ℕ → Tx (Workspace × Sandbox)
unfolding transaction insert_sandbox
claim_workspace workspace_id sandbox_id worker_host container_name created_at expires_at =
    transaction (do
      row ← select (workspace_row workspace_id) not_found
      require (is_none row.active_sandbox_id || opt_eq row.active_sandbox_id (some sandbox_id))
          conflict
      require (not (one_of row.status unmountable)) conflict
      insert_sandbox
          (starting sandbox_id workspace_id worker_host container_name created_at expires_at)
      write (update_workspaces (λ w. w.id == workspace_id) (claimed sandbox_id created_at))
      workspace ← select (workspace_row workspace_id) assertion
      sandbox ← select (sandbox_row sandbox_id) assertion
      pure (workspace, sandbox))

abbrev pub is_starting : String → Sandbox → Bool
is_starting k b = b.id == k && b.status == "starting"

unfoldable pub mark_sandbox_running : String → ℕ → Tx (Unit {0})
unfolding transaction
mark_sandbox_running sandbox_id timestamp = transaction (do
  changed ←
      changing (λ s. count_where (is_starting sandbox_id) s.sandboxes)
        (update_sandboxes (is_starting sandbox_id) (λ b. record b { status = "running" }))
  require (nat_eq changed 1) conflict
  write (
      update_workspaces (λ w. opt_eq w.active_sandbox_id (some sandbox_id))
        (λ w. record w { updated_at = timestamp })))

unfoldable pub get_sandbox : String → Tx Sandbox
get_sandbox sandbox_id = select (sandbox_row sandbox_id) not_found

-- status IN ('starting', 'running')
abbrev pub is_live : Sandbox → Bool
is_live b = b.status == "starting" || b.status == "running"

unfoldable pub active_sandboxes : Tx (List Sandbox)
active_sandboxes = gets (λ s. keep is_live s.sandboxes)

abbrev pub is_running : String → Sandbox → Bool
is_running k b = b.id == k && b.status == "running"

unfoldable pub renew_sandbox : String → ℕ → Tx Sandbox
unfolding transaction
renew_sandbox sandbox_id expires_at = transaction (do
  changed ←
      changing (λ s. count_where (is_running sandbox_id) s.sandboxes)
        (update_sandboxes (is_running sandbox_id) (λ b. record b { expires_at = some expires_at }))
  require (nat_eq changed 1) conflict
  select (sandbox_row sandbox_id) assertion)

abbrev pub finished : String → Sandbox → Sandbox
finished status b = record b { status = status; expires_at = none }

abbrev pub released : String → ℕ → Workspace → Workspace
released workspace_status timestamp w = record w {
  status = workspace_status;
  active_sandbox_id = none;
  updated_at = timestamp;
}

unfoldable pub finish_sandbox : String → String → String → ℕ → Tx Workspace
unfolding transaction
finish_sandbox sandbox_id status workspace_status timestamp = transaction (do
  sandbox ← select (sandbox_row sandbox_id) not_found
  write (
      update_sandboxes (λ b. b.id == sandbox_id)
        (λ b. record b { status = status; expires_at = none }))
  write (
      update_workspaces
        (λ w. w.id == sandbox.workspace_id && opt_eq w.active_sandbox_id (some sandbox_id))
        (λ w. record w {
          status = workspace_status;
          active_sandbox_id = none;
          updated_at = timestamp;
        }))
  select (workspace_row sandbox.workspace_id) assertion)
