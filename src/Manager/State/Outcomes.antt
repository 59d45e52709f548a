-- ===== src/Manager/State/Outcomes.antt =====
-- What each method of src/sandbox_manager/state.py leaves in the tables of Workspaces and of
-- Sandboxes: the state that it began with, or one new state, and then what it had checked.
use litellm_gateway.Prelude.{
  ℕ, String, ◌≡◌, true, ◌&&◌, ◌||◌, Option, none, some, List, [], ◌∷◌, ◌++◌, ◌==◌, opt_eq, is_some,
  is_none, arith, Option-cases, inl, inr, ◌⊎◌,
}
use litellm_gateway.Prelude.Json.{Json}
use litellm_gateway.Prelude.Table.{find_by, update_where, delete_where}
use litellm_gateway.Manager.State.{Workspace, Sandbox, Store}
use litellm_gateway.Manager.State.Workspaces.{
  new_workspace, workspace_row, create_workspace, delete_workspace, schedule_workspace_delete,
  transition_workspace, is_recoverable,
}
use litellm_gateway.Manager.State.Sandboxes.{
  sandbox_row, starting, claimed, finished, released, is_starting, is_running, claim_workspace,
  mark_sandbox_running, renew_sandbox, finish_sandbox,
}
use litellm_gateway.Manager.State.Operations.{
  create_operation, update_operation, commit_revision, consume_nonce,
}
use litellm_gateway.Manager.State.Lookups.{writer_of, writer_of_found}

-- The two tables of `t` are `ws` and `bs`.
abbrev pub Tables : Store → List Workspace → List Sandbox → Type 0
Tables t ws bs = (t.workspaces ≡ ws) × (t.sandboxes ≡ bs)

abbrev pub Same : Store → Store → Type 0
Same t s = Tables t s.workspaces s.sandboxes

module _ (s : Store) where
  pub create_workspace_outcome :
      (k kind volume : String) (now : ℕ)
      → let t = (create_workspace k kind volume now s).1 in
        Same t s
        ⊎ (Tables t (s.workspaces ++ new_workspace k kind volume now ∷ []) s.sandboxes
            × (workspace_row k s ≡ none))
  unfolding create_workspace
  create_workspace_outcome k kind volume now = ground arith

  pub delete_workspace_outcome :
      (k : String)
      → let t = (delete_workspace k s).1 in
        Same t s
        ⊎ (Tables t
              (delete_where (λ w. w.id == k) s.workspaces)
              (delete_where (λ b. b.workspace_id == k) s.sandboxes)
            × (writer_of s.workspaces k ≡ none))
  unfolding delete_workspace
  delete_workspace_outcome k = elim (Option-cases (workspace_row k s)) [
    | inl e ↦ ground arith
    | inr (w, e) ↦ ground (arith, writer_of_found s.workspaces k e)
  ]

  pub schedule_outcome :
      (k : String) (after now : ℕ)
      → let t = (schedule_workspace_delete k after now s).1 in
        Same t s
        ⊎ Tables t
            (update_where
              (is_recoverable k)
              (λ w. record w { delete_after = some after; updated_at = now })
              s.workspaces)
            s.sandboxes
  unfolding schedule_workspace_delete
  schedule_outcome k after now = ground arith

  pub transition_outcome :
      (k : String) (expected : List String) (status : String) (now : ℕ)
      → let t = (transition_workspace k expected status now s).1 in
        Same t s
        ⊎ (Tables t
              (update_where
                (λ w. w.id == k)
                (λ w. record w { status = status; updated_at = now })
                s.workspaces)
              s.sandboxes
            × ((is_none (writer_of s.workspaces k) || status == "running") ≡ true))
  unfolding transition_workspace
  transition_outcome k expected status now = elim (Option-cases (workspace_row k s)) [
    | inl e ↦ ground arith
    | inr (w, e) ↦ ground (arith, writer_of_found s.workspaces k e)
  ]

  pub claim_outcome :
      (k sid host name : String) (now till : ℕ)
      → let t = (claim_workspace k sid host name now till s).1 in
        Same t s
        ⊎ (Tables t
              (update_where (λ w. w.id == k) (claimed sid now) s.workspaces)
              (s.sandboxes ++ starting sid k host name now till ∷ [])
            × ((is_none (writer_of s.workspaces k) || opt_eq (writer_of s.workspaces k) (some sid))
                ≡ true)
            × (sandbox_row sid s ≡ none)
            × (is_some (workspace_row k s) ≡ true))
  unfolding claim_workspace
  claim_outcome k sid host name now till = elim (Option-cases (workspace_row k s)) [
    | inl e ↦ ground arith
    | inr (w, e) ↦ ground (arith, writer_of_found s.workspaces k e)
  ]

  pub mark_outcome :
      (sid : String) (now : ℕ)
      → let t = (mark_sandbox_running sid now s).1 in
        Same t s
        ⊎ Tables t
            (update_where
              (λ w. opt_eq w.active_sandbox_id (some sid))
              (λ w. record w { updated_at = now })
              s.workspaces)
            (update_where (is_starting sid) (λ b. record b { status = "running" }) s.sandboxes)
  unfolding mark_sandbox_running
  mark_outcome sid now = ground arith

  pub renew_outcome :
      (sid : String) (till : ℕ)
      → let t = (renew_sandbox sid till s).1 in
        Same t s
        ⊎ Tables t s.workspaces
            (update_where (is_running sid) (λ b. record b { expires_at = some till }) s.sandboxes)
  unfolding renew_sandbox
  renew_outcome sid till = ground arith

  pub finish_outcome :
      (sid status workspace_status : String) (now : ℕ)
      → let t = (finish_sandbox sid status workspace_status now s).1 in
        Same t s
        ⊎ ((b : Sandbox) × (sandbox_row sid s ≡ some b)
            × Tables t
                (update_where
                  (λ w. w.id == b.workspace_id && opt_eq w.active_sandbox_id (some sid))
                  (released workspace_status now)
                  s.workspaces)
                (update_where (λ b. b.id == sid) (finished status) s.sandboxes))
  unfolding finish_sandbox
  finish_outcome sid status workspace_status now = elim (Option-cases (sandbox_row sid s)) [
    | inl e ↦ inl (ground arith)
    | inr (b, e) ↦
        elim (Option-cases (
          find_by (λ w. w.id) b.workspace_id
            (update_where (λ w. w.id == b.workspace_id && opt_eq w.active_sandbox_id (some sid))
              (released workspace_status now) s.workspaces))) [
                | inl g ↦ inl (ground arith)
                | inr (w, g) ↦ inr (b, e, ground arith)
              ]
  ]

  pub commit_outcome :
      (k oid rid : String) (generation : ℕ) (result : Json) (now : ℕ)
      → let t = (commit_revision k oid rid generation result now s).1 in
        Same t s
        ⊎ (Tables t
              (update_where
                (λ w. w.id == k)
                (λ w. record w {
                  head_revision = some rid;
                  status = "detached_clean";
                  updated_at = now;
                })
                s.workspaces)
              s.sandboxes
            × (writer_of s.workspaces k ≡ none))
  unfolding commit_revision
  commit_outcome k oid rid generation result now = elim (Option-cases (workspace_row k s)) [
    | inl e ↦ ground arith
    | inr (w, e) ↦ ground (arith, writer_of_found s.workspaces k e)
  ]

  pub create_operation_outcome :
      (oid operation k : String) (sid : Option String) (key : String) (input : Json) (now : ℕ)
      → Same (create_operation oid operation k sid key input now s).1 s
  unfolding create_operation
  create_operation_outcome oid operation k sid key input now = ground arith

  pub update_operation_outcome :
      (oid status : String) (phase : Option String) (result : Option Json) (error : Option String)
      (now : ℕ)
      → Same (update_operation oid status phase result error now s).1 s
  unfolding update_operation
  update_operation_outcome oid status phase result error now = ground arith

  pub consume_nonce_outcome :
      (nonce : String) (till now : ℕ) → Same (consume_nonce nonce till now s).1 s
  unfolding consume_nonce
  consume_nonce_outcome nonce till now = ground arith
