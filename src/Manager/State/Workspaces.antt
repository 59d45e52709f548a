-- ===== src/Manager/State/Workspaces.antt =====
-- src/sandbox_manager/state.py: the methods of `StateStore` that act on a Workspace alone.
use litellm_gateway.Prelude.{
  ℕ, String, Bool, not, ◌&&◌, ◌||◌, Option, none, some, List, [], ◌∷◌, ◌++◌, ◌==◌, if◌then◌else◌,
  is_some, is_none, nat_eq,
}
use litellm_gateway.Prelude.Table.{find_by, update_where, count_where, delete_where, any_where}
use litellm_gateway.Manager.State.{
  Workspace, Store, Tx, not_found, conflict, assertion, ◌>>=◌, ◌>>◌, pure, select, require,
  constrained, write, changing, transaction, one_of,
}

-- SELECT * FROM workspaces WHERE id = ?
abbrev pub workspace_row : String → Store → Option Workspace
workspace_row k s = find_by (λ w. w.id) k s.workspaces

-- UPDATE workspaces SET … WHERE p
abbrev pub update_workspaces : (Workspace → Bool) → (Workspace → Workspace) → Store → Store
update_workspaces p f s = record s { workspaces = update_where p f s.workspaces }

abbrev pub new_workspace : String → String → String → ℕ → Workspace
new_workspace workspace_id kind volume_name timestamp = record {
  id = workspace_id;
  kind = kind;
  status = "detached_clean";
  volume_name = volume_name;
  generation = 0;
  head_revision = none;
  active_sandbox_id = none;
  created_at = timestamp;
  updated_at = timestamp;
  delete_after = none;
}

-- The CHECK on `kind`, then `ON CONFLICT(id) DO NOTHING`, then the UNIQUE `volume_name`.
insert_workspace : Workspace → Tx (Unit {0})
unfolding one_of
insert_workspace w =
    constrained
      (λ s.
        one_of w.kind ("ephemeral" ∷ "recoverable" ∷ [])
        && (is_some (workspace_row w.id s)
            || not (any_where (λ v. v.volume_name == w.volume_name) s.workspaces)))
      (λ s.
        if is_some (workspace_row w.id s)
        then s
        else record s { workspaces = s.workspaces ++ w ∷ [] })

unfoldable pub create_workspace : String → String → String → ℕ → Tx Workspace
unfolding transaction insert_workspace
create_workspace workspace_id kind volume_name timestamp = transaction (do
  insert_workspace (new_workspace workspace_id kind volume_name timestamp)
  row ← select (workspace_row workspace_id) assertion
  require (row.kind == kind && row.volume_name == volume_name) conflict
  pure row)

unfoldable pub get_workspace : String → Tx Workspace
get_workspace workspace_id = select (workspace_row workspace_id) not_found

abbrev pub delete_children : String → Store → Store
delete_children k s = record s {
  operations = delete_where (λ o. o.workspace_id == k) s.operations;
  revisions = delete_where (λ r. r.workspace_id == k) s.revisions;
  sandboxes = delete_where (λ b. b.workspace_id == k) s.sandboxes;
}

abbrev pub delete_row : String → Store → Store
delete_row k s = record s { workspaces = delete_where (λ w. w.id == k) s.workspaces }

-- The rows that refer to the Workspace go before it, so no foreign key is left dangling.
delete_found : String → Option Workspace → Tx (Unit {0})
delete_found k none = pure tt
delete_found k (some row) = do
  require (is_none row.active_sandbox_id) conflict
  write (delete_children k)
  write (delete_row k)

unfoldable pub delete_workspace : String → Tx (Unit {0})
unfolding transaction delete_found
delete_workspace workspace_id =
    transaction (λ s. delete_found workspace_id (workspace_row workspace_id s) s)

abbrev pub is_recoverable : String → Workspace → Bool
is_recoverable k w = w.id == k && w.kind == "recoverable"

unfoldable pub schedule_workspace_delete : String → ℕ → ℕ → Tx Workspace
unfolding transaction
schedule_workspace_delete workspace_id delete_after timestamp = transaction (do
  changed ←
      changing (λ s. count_where (is_recoverable workspace_id) s.workspaces)
        (update_workspaces (is_recoverable workspace_id)
          (λ w. record w { delete_after = some delete_after; updated_at = timestamp }))
  require (nat_eq changed 1) not_found
  select (workspace_row workspace_id) assertion)

unfoldable pub transition_workspace : String → List String → String → ℕ → Tx Workspace
unfolding transaction
transition_workspace workspace_id expected status timestamp = transaction (do
  row ← select (workspace_row workspace_id) not_found
  require (one_of row.status expected) conflict
  require (is_none row.active_sandbox_id || status == "running") conflict
  write (
      update_workspaces (λ w. w.id == workspace_id)
        (λ w. record w { status = status; updated_at = timestamp }))
  select (workspace_row workspace_id) assertion)
