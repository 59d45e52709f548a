-- ===== src/Manager/State/Idempotency.antt =====
-- An idempotency key names one operation: `create_operation` of src/sandbox_manager/state.py, over
-- whole histories.
use litellm_gateway.Prelude.{
  ℕ, String, ◌≡◌, refl, Bool, false, Option, none, some, List, [], ◌∷◌, ◌++◌, ◌==◌, eq_iff, eq_refl,
  is_some, All, arith, inl, inr, Bool-cases, if◌then◌else◌, Option-cases,
}
use litellm_gateway.Prelude.Json.{Json}
use litellm_gateway.Prelude.Table.{find_by, delete_where, update_where, find_by-append}
use litellm_gateway.Manager.State.{Operation, Store, ok}
use litellm_gateway.Manager.State.Workspaces.{
  create_workspace, delete_workspace, schedule_workspace_delete, transition_workspace,
}
use litellm_gateway.Manager.State.Sandboxes.{
  claim_workspace, mark_sandbox_running, renew_sandbox, finish_sandbox,
}
use litellm_gateway.Manager.State.Operations.{
  create_operation, update_operation, commit_revision, consume_nonce, operation_by_key,
  new_operation,
}
use litellm_gateway.Manager.State.History.{
  Call, deletes, opens, updates, commits, run, run_all, run_all_induction,
}

-- The id and the Workspace of the operation with a key.
pub bound_to : List Operation → String → Option (String × String)
bound_to [] key = none
bound_to (o ∷ os) key =
    if o.idempotency_key == key then some (o.id, o.workspace_id) else bound_to os key

bound_to_found :
    (os : List Operation) (key : String) {o : Operation}
    → find_by (λ p. p.idempotency_key) key os ≡ some o
    → bound_to os key ≡ some (o.id, o.workspace_id)
unfolding bound_to find_by
bound_to_found [] key h = cc
bound_to_found (p ∷ os) key {o} h = elim (Bool-cases (p.idempotency_key == key)) [
  | inl e ↦ ground arith
  | inr e ↦ rw e (bound_to_found os key {o = o} (ground arith))
]

bound_to_missing :
    (os : List Operation) (key : String)
    → find_by (λ p. p.idempotency_key) key os ≡ none
    → bound_to os key ≡ none
unfolding bound_to find_by
bound_to_missing [] key h = refl
bound_to_missing (p ∷ os) key h = ground (arith, bound_to_missing os key)

bound_to-update :
    (p : Operation → Bool) (f : Operation → Operation) (os : List Operation) (key : String)
    → ((o : Operation) → (f o).idempotency_key ≡ o.idempotency_key)
    → ((o : Operation) → (f o).id ≡ o.id)
    → ((o : Operation) → (f o).workspace_id ≡ o.workspace_id)
    → bound_to (update_where p f os) key ≡ bound_to os key
unfolding bound_to update_where
bound_to-update p f [] key a b c = refl
bound_to-update p f (o ∷ os) key a b c =
    ground (arith, a o, b o, c o, bound_to-update p f os key a b c)

bound_to-append :
    (o : Operation) (os : List Operation) (key : String)
    → bound_to (os ++ o ∷ []) key ≡ (
        if is_some (bound_to os key)
        then bound_to os key
        else (if o.idempotency_key == key then some (o.id, o.workspace_id) else none))
unfolding bound_to
bound_to-append o [] key = refl
bound_to-append o (p ∷ os) key = ground (arith, bound_to-append o os key)

bound_to-delete :
    (j : String) (os : List Operation) (key oid k : String)
    → (k == j) ≡ false
    → bound_to os key ≡ some (oid, k)
    → bound_to (delete_where (λ o. o.workspace_id == j) os) key ≡ some (oid, k)
unfolding bound_to delete_where
bound_to-delete j [] key oid k other h = cc
bound_to-delete j (o ∷ os) key oid k other h = elim (Bool-cases (o.idempotency_key == key)) [
  | inl e ↦ ground (arith, eq_iff o.workspace_id j, eq_iff k j)
  | inr e ↦ ground (arith, bound_to-delete j os key oid k other)
]

-- No call deletes the Workspace `k`.
abbrev pub Keeping : String → Call → Type 0
Keeping k (deletes j) = (k == j) ≡ false
Keeping k _ = Unit

module _ (key oid k : String) where
  abbrev Bound : Store → Type 0
  Bound s = bound_to s.operations key ≡ some (oid, k)

  create_operation-Bound :
      (o operation j : String) (sid : Option String) (key' : String) (input : Json) (now : ℕ)
      (s : Store)
      → Bound s
      → Bound (create_operation o operation j sid key' input now s).1
  unfolding create_operation
  create_operation-Bound o operation j sid key' input now s h = ground (
    arith,
    bound_to-append
        (record {
          id = o;
          operation = operation;
          status = "pending";
          phase = none;
          workspace_id = j;
          sandbox_id = sid;
          idempotency_key = key';
          input = input;
          result = none;
          error = none;
          created_at = now;
          updated_at = now;
        })
        s.operations key,
  )

  run-Bound : (c : Call) (s : Store) → Keeping k c → Bound s → Bound (run c s)
  unfolding run create_workspace delete_workspace schedule_workspace_delete transition_workspace
      claim_workspace mark_sandbox_running renew_sandbox finish_sandbox update_operation
      commit_revision consume_nonce
  run-Bound (opens o operation j sid key' input now) s q h =
      create_operation-Bound o operation j sid key' input now s h
  run-Bound (deletes j) s q h = ground (arith, bound_to-delete j s.operations key oid k q h)
  run-Bound (updates o status phase result error now) s q h = ground (
    arith,
    bound_to-update (λ p. p.id == o)
        (λ p. record p {
          status = status;
          phase = phase;
          result = result;
          error = error;
          updated_at = now;
        })
        s.operations key (λ p. refl) (λ p. refl) (λ p. refl),
  )
  run-Bound (commits j o rid generation result now) s q h = ground (
    arith,
    bound_to-update (λ p. p.id == o)
        (λ p. record p {
          status = "succeeded";
          result = some result;
          error = none;
          updated_at = now;
        })
        s.operations key (λ p. refl) (λ p. refl) (λ p. refl),
  )
  run-Bound _ s q h = ground arith

module _ (oid operation k : String) (sid : Option String) (key : String) (input : Json) (now : ℕ)
    (s : Store) where
  created-Bound :
      (o : Operation) (created : Bool)
      → (create_operation oid operation k sid key input now s).0 ≡ ok (o, created)
      → Bound key o.id o.workspace_id (create_operation oid operation k sid key input now s).1
  unfolding create_operation
  created-Bound o created h = elim (Option-cases (operation_by_key key s)) [
    | inl new ↦ ground (
      arith,
      eq_refl key,
      eq_refl oid,
      bound_to_missing s.operations key new,
      bound_to-append (new_operation oid operation k sid key input now) s.operations key,
      find_by-append (λ p. p.id) oid s.operations (new_operation oid operation k sid key input now),
    )
    | inr (e, old) ↦ ground (arith, bound_to_found s.operations key old)
  ]

  known_key :
      (i j : String)
      → Bound key i j s
      → (o : Operation) × (create_operation oid operation k sid key input now s
          ≡ (ok (o, false), s))
        × (o.id ≡ i)
        × (o.workspace_id ≡ j)
  unfolding create_operation
  known_key i j h = elim (Option-cases (operation_by_key key s)) [
    | inl new ↦ cc (bound_to_missing s.operations key new)
    | inr (e, old) ↦ (
      e,
      ground arith,
      ground (arith, bound_to_found s.operations key old),
      ground (arith, bound_to_found s.operations key old),
    )
  ]

-- Once a key has named an operation, a request with the same key returns an operation of the same id
-- and Workspace as an old one and writes nothing, whatever else the request asks for and whatever
-- calls came between, as long as none of those deleted the Workspace.
pub create_operation_idempotent :
    (oid operation k : String) (sid : Option String) (key : String) (input : Json) (now : ℕ)
    (s : Store) (o : Operation) (created : Bool) (cs : List Call) (oid' operation' k' : String)
    (sid' : Option String) (input' : Json) (now' : ℕ)
    → (create_operation oid operation k sid key input now s).0 ≡ ok (o, created)
    → All (Keeping o.workspace_id) cs
    → let t = run_all cs (create_operation oid operation k sid key input now s).1 in
      (o' : Operation) × (create_operation oid' operation' k' sid' key input' now' t
        ≡ (ok (o', false), t))
      × (o'.id ≡ o.id)
      × (o'.workspace_id ≡ o.workspace_id)
create_operation_idempotent oid operation k sid key input now s o created cs oid' operation' k' sid'
      input' now' first between =
    known_key oid' operation' k' sid' key input' now'
      (run_all cs (create_operation oid operation k sid key input now s).1) o.id o.workspace_id
      (run_all_induction (Bound key o.id o.workspace_id) (Keeping o.workspace_id)
        (run-Bound key o.id o.workspace_id) cs _ between
        (created-Bound oid operation k sid key input now s o created first))
