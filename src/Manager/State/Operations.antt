-- ===== src/Manager/State/Operations.antt =====
-- src/sandbox_manager/state.py: the methods of `StateStore` that act on operations, revisions and
-- the consumed nonces of grants. What json.dumps writes and json.loads reads back is kept as the
-- value itself.
use litellm_gateway.Prelude.{
  ℕ, String, Bool, true, false, not, ◌&&◌, ◌||◌, Option, none, some, List, [], ◌∷◌, ◌++◌, ◌==◌,
  if◌then◌else◌, is_some, is_none, nat_eq, leb, keep,
}
use litellm_gateway.Prelude.Json.{Json}
use litellm_gateway.Prelude.Table.{find_by, update_where, count_where, delete_where, any_where}
use litellm_gateway.Manager.State.{
  Workspace, Operation, Revision, Nonce, Store, Result, ok, err, Tx, not_found, conflict, integrity,
  assertion, ◌>>=◌, ◌>>◌, pure, select, gets, require, constrained, write, changing, transaction,
}
use litellm_gateway.Manager.State.Workspaces.{workspace_row, update_workspaces}

-- SELECT * FROM operations WHERE id = ?
abbrev pub operation_row : String → Store → Option Operation
operation_row k s = find_by (λ o. o.id) k s.operations

-- SELECT * FROM operations WHERE idempotency_key = ?
abbrev pub operation_by_key : String → Store → Option Operation
operation_by_key k s = find_by (λ o. o.idempotency_key) k s.operations

abbrev pub update_operations : (Operation → Bool) → (Operation → Operation) → Store → Store
update_operations p f s = record s { operations = update_where p f s.operations }

-- PRIMARY KEY (id), UNIQUE (idempotency_key), REFERENCES workspaces(id).
insert_operation : Operation → Tx (Unit {0})
insert_operation o =
    constrained
      (λ s.
        is_none (operation_row o.id s)
        && is_none (operation_by_key o.idempotency_key s)
        && is_some (workspace_row o.workspace_id s))
      (λ s. record s { operations = s.operations ++ o ∷ [] })

abbrev pub new_operation : String → String → String → Option String → String → Json → ℕ → Operation
new_operation operation_id operation workspace_id sandbox_id idempotency_key input_data timestamp =
    record {
      id = operation_id;
      operation = operation;
      status = "pending";
      phase = none;
      workspace_id = workspace_id;
      sandbox_id = sandbox_id;
      idempotency_key = idempotency_key;
      input = input_data;
      result = none;
      error = none;
      created_at = timestamp;
      updated_at = timestamp;
    }

-- A known key returns its operation; a new one is inserted.
create_unless : Option Operation → Operation → Tx (Operation × Bool)
unfolding insert_operation
create_unless (some existing) o = pure (existing, false)
create_unless none o = do
  insert_operation o
  row ← select (operation_row o.id) assertion
  pure (row, true)

unfoldable pub create_operation :
    String → String → String → Option String → String → Json → ℕ → Tx (Operation × Bool)
unfolding transaction create_unless
create_operation operation_id operation workspace_id sandbox_id idempotency_key input_data
      timestamp =
    transaction (λ s.
      create_unless (operation_by_key idempotency_key s)
        (new_operation operation_id operation workspace_id sandbox_id idempotency_key input_data
          timestamp)
        s)

unfoldable pub get_operation : String → Tx Operation
get_operation operation_id = select (operation_row operation_id) not_found

-- Every column that is given replaces the old one: `phase`, `result` and `error` too, by NULL where
-- the caller leaves them out.
unfoldable pub update_operation :
    String → String → Option String → Option Json → Option String → ℕ → Tx Operation
unfolding transaction
update_operation operation_id status phase result error timestamp = transaction (do
  changed ←
      changing (λ s. count_where (λ o. o.id == operation_id) s.operations)
        (update_operations (λ o. o.id == operation_id)
          (λ o. record o {
            status = status;
            phase = phase;
            result = result;
            error = error;
            updated_at = timestamp;
          }))
  require (nat_eq changed 1) not_found
  select (operation_row operation_id) assertion)

abbrev pub is_open : Operation → Bool
is_open o = o.status == "pending" || o.status == "running"

unfoldable pub incomplete_operations : Tx (List Operation)
incomplete_operations = gets (λ s. keep is_open s.operations)

abbrev same_snapshot : String → String → Revision → Bool
same_snapshot workspace_id snapshot_id r =
    r.workspace_id == workspace_id && r.snapshot_id == snapshot_id

-- `ON CONFLICT(workspace_id, snapshot_id) DO NOTHING`, then PRIMARY KEY (id), then the reference.
insert_revision : Revision → Tx (Unit {0})
insert_revision r =
    constrained
      (λ s.
        any_where (same_snapshot r.workspace_id r.snapshot_id) s.revisions
        || not (any_where (λ q. q.id == r.id) s.revisions)
          && is_some (workspace_row r.workspace_id s))
      (λ s.
        if any_where (same_snapshot r.workspace_id r.snapshot_id) s.revisions
        then s
        else record s { revisions = s.revisions ++ r ∷ [] })

abbrev is_committable : ℕ → Workspace → Bool
is_committable generation w =
    w.status == "checkpointing" && is_none w.active_sandbox_id && nat_eq w.generation generation

unfoldable pub commit_revision :
    String → String → String → ℕ → Json → ℕ → Tx (Workspace × Operation)
unfolding transaction insert_revision
commit_revision workspace_id operation_id revision_id generation result timestamp = transaction (do
  workspace ← select (workspace_row workspace_id) not_found
  require (is_committable generation workspace) conflict
  insert_revision (record {
    id = revision_id;
    workspace_id = workspace_id;
    snapshot_id = revision_id;
    created_at = timestamp;
  })
  write (
      update_workspaces (λ w. w.id == workspace_id)
        (λ w. record w {
          head_revision = some revision_id;
          status = "detached_clean";
          updated_at = timestamp;
        }))
  write (
      update_operations (λ o. o.id == operation_id)
        (λ o. record o {
          status = "succeeded";
          result = some result;
          error = none;
          updated_at = timestamp;
        }))
  row ← select (workspace_row workspace_id) assertion
  operation ← select (operation_row operation_id) assertion
  pure (row, operation))

-- nonce TEXT PRIMARY KEY
insert_nonce : Nonce → Tx (Unit {0})
insert_nonce n =
    constrained (λ s. is_none (find_by (λ m. m.nonce) n.nonce s.consumed_nonces))
      (λ s. record s { consumed_nonces = s.consumed_nonces ++ n ∷ [] })

-- `except sqlite3.IntegrityError: return False`, inside the transaction, which then commits.
unless_refused : Result (Unit {0}) × Store → Result Bool × Store
unless_refused (ok u, s) = (ok true, s)
unless_refused (err integrity, s) = (ok false, s)
unless_refused (err e, s) = (err e, s)

unfoldable pub consume_nonce : String → ℕ → ℕ → Tx Bool
unfolding transaction unless_refused insert_nonce
consume_nonce nonce expires_at timestamp = transaction (do
  write (λ s. record s {
    consumed_nonces = delete_where (λ n. leb n.expires_at timestamp) s.consumed_nonces;
  })
  λ s.
      unless_refused (
        insert_nonce (record { nonce = nonce; expires_at = expires_at; consumed_at = timestamp })
          s))
