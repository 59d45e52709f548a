-- ===== src/Manager/State/Candidates.antt =====
-- src/sandbox_manager/state.py: the queries that choose Workspaces for the reaper.
use litellm_gateway.Prelude.{
  ℕ, String, Bool, false, not, ◌&&◌, Option, none, some, List, [], ◌∷◌, ◌==◌, is_some, is_none, leb,
  keep,
}
use litellm_gateway.Prelude.Table.{any_where}
use litellm_gateway.Manager.State.{Workspace, Store, Tx, gets, one_of}
use litellm_gateway.Manager.State.Operations.{is_open}

-- EXISTS (SELECT 1 FROM operations … status IN ('pending', 'running'))
abbrev pub is_busy : Store → Workspace → Bool
is_busy s w = any_where (λ o. o.workspace_id == w.id && is_open o) s.operations

unfoldable pub is_clean_and_old : Store → ℕ → Workspace → Bool
is_clean_and_old s updated_before w =
    w.kind == "recoverable"
    && w.status == "detached_clean"
    && is_some w.head_revision
    && is_none w.active_sandbox_id
    && leb w.updated_at updated_before
    && not (is_busy s w)

unfoldable pub cleanup_candidates : ℕ → Tx (List Workspace)
unfolding is_clean_and_old
cleanup_candidates updated_before =
    gets (λ s. keep (is_clean_and_old s updated_before) s.workspaces)

-- delete_after IS NOT NULL AND delete_after <= ?
abbrev pub is_due : Option ℕ → ℕ → Bool
is_due none now = false
is_due (some t) now = leb t now

unfoldable pub is_retirable : Store → ℕ → Workspace → Bool
unfolding one_of
is_retirable s now w =
    w.kind == "recoverable"
    && one_of w.status ("detached_clean" ∷ "remote_only" ∷ "deleting" ∷ [])
    && is_none w.active_sandbox_id
    && is_due w.delete_after now
    && not (is_busy s w)

unfoldable pub retire_candidates : ℕ → Tx (List Workspace)
unfolding is_retirable
retire_candidates now = gets (λ s. keep (is_retirable s now) s.workspaces)

unfoldable pub workspaces_with_status : List String → Tx (List Workspace)
unfolding one_of
workspaces_with_status statuses = gets (λ s. keep (λ w. one_of w.status statuses) s.workspaces)
