-- ===== src/Manager/State/Exclusion.antt =====
-- A Workspace has one writer at a time: src/sandbox_manager/state.py, over whole histories.
use mathlib.Core.Path.{subst}
use litellm_gateway.Prelude.{
  ◌≡◌, ◌≢◌, refl, sym, true, false, some, List, ◌==◌, eq_iff, opt_eq, All, In, All-In, arith, inl,
  inr,
}
use litellm_gateway.Manager.State.{Workspace, Sandbox, Store}
use litellm_gateway.Manager.State.Workspaces.{is_recoverable}
use litellm_gateway.Manager.State.Sandboxes.{is_live, is_starting, is_running}
use litellm_gateway.Manager.State.Outcomes
use litellm_gateway.Manager.State.Outcomes.{Tables, Same}
use litellm_gateway.Manager.State.Writers.{
  IsWriter, IsClaimed, IsExclusive, update-IsExclusive, update_sandboxes-IsExclusive,
  create-IsExclusive, claim-IsExclusive, delete-IsExclusive, finish-IsExclusive,
}
use litellm_gateway.Manager.State.History.{
  Call, creates, deletes, schedules, transitions, claims, marks, renews, finishes, opens, updates,
  commits, consumes, run, run_all, empty, Ends, run_all_induction,
}

abbrev pub Exclusive : Store → Type 0
Exclusive s = IsExclusive s.workspaces s.sandboxes

Tables-Exclusive :
    (t : Store) (ws : List Workspace) (bs : List Sandbox)
    → Tables t ws bs
    → IsExclusive ws bs
    → Exclusive t
Tables-Exclusive t ws bs h v =
    subst (λ x. IsExclusive x t.sandboxes) (sym h.0) (subst (λ y. IsExclusive ws y) (sym h.1) v)

module _ (s : Store) (v : Exclusive s) where
  step-Exclusive : (c : Call) → Ends c → Exclusive (run c s)
  unfolding run
  step-Exclusive (creates k kind volume now) q =
      elim (Outcomes.create_workspace_outcome s k kind volume now) [
        | inl h ↦ Tables-Exclusive (run (creates k kind volume now) s) _ _ h v
        | inr (h, new) ↦
            Tables-Exclusive (run (creates k kind volume now) s) _ _ h
              (create-IsExclusive v k kind volume now new)
      ]
  step-Exclusive (deletes k) q = elim (Outcomes.delete_workspace_outcome s k) [
    | inl h ↦ Tables-Exclusive (run (deletes k) s) _ _ h v
    | inr (h, free) ↦ Tables-Exclusive (run (deletes k) s) _ _ h (delete-IsExclusive v k free)
  ]
  step-Exclusive (schedules k after now) q = elim (Outcomes.schedule_outcome s k after now) [
    | inl h ↦ Tables-Exclusive (run (schedules k after now) s) _ _ h v
    | inr h ↦ Tables-Exclusive (run (schedules k after now) s) _ _ h (
        update-IsExclusive v (is_recoverable k)
          (λ w. record w { delete_after = some after; updated_at = now }) (λ w. refl) (λ w. refl)
          (λ w j p e r. r))
  ]
  step-Exclusive (transitions k expected status now) q =
      elim (Outcomes.transition_outcome s k expected status now) [
        | inl h ↦ Tables-Exclusive (run (transitions k expected status now) s) _ _ h v
        | inr (h, free) ↦ Tables-Exclusive (run (transitions k expected status now) s) _ _ h (
            update-IsExclusive v (λ w. w.id == k)
              (λ w. record w { status = status; updated_at = now }) (λ w. refl) (λ w. refl)
              (λ w j p e r. ground (arith, eq_iff w.id k, eq_iff status "running")))
      ]
  step-Exclusive (claims k sid host name now till) q =
      elim (Outcomes.claim_outcome s k sid host name now till) [
        | inl h ↦ Tables-Exclusive (run (claims k sid host name now till) s) _ _ h v
        | inr (h, free, fresh, there) ↦
            Tables-Exclusive (run (claims k sid host name now till) s) _ _ h
              (claim-IsExclusive v k sid host name now till free fresh there)
      ]
  step-Exclusive (marks sid now) q = elim (Outcomes.mark_outcome s sid now) [
    | inl h ↦ Tables-Exclusive (run (marks sid now) s) _ _ h v
    | inr h ↦ Tables-Exclusive (run (marks sid now) s) _ _ h (
        update-IsExclusive
          (update_sandboxes-IsExclusive v (is_starting sid) (λ b. record b { status = "running" })
            (λ b. refl) (λ b. refl) (λ b p l. ground arith))
          (λ w. opt_eq w.active_sandbox_id (some sid)) (λ w. record w { updated_at = now })
          (λ w. refl) (λ w. refl) (λ w j p e r. r))
  ]
  step-Exclusive (renews sid till) q = elim (Outcomes.renew_outcome s sid till) [
    | inl h ↦ Tables-Exclusive (run (renews sid till) s) _ _ h v
    | inr h ↦ Tables-Exclusive (run (renews sid till) s) _ _ h (
        update_sandboxes-IsExclusive v (is_running sid) (λ b. record b { expires_at = some till })
          (λ b. refl) (λ b. refl) (λ b p l. l))
  ]
  step-Exclusive (finishes sid status workspace_status now) q =
      elim (Outcomes.finish_outcome s sid status workspace_status now) [
        | inl h ↦ Tables-Exclusive (run (finishes sid status workspace_status now) s) _ _ h v
        | inr (b, there, h) ↦
            Tables-Exclusive (run (finishes sid status workspace_status now) s) _ _ h
              (finish-IsExclusive v b sid status workspace_status now q.0 q.1 there)
      ]
  step-Exclusive (opens oid operation k sid key input now) q =
      Tables-Exclusive (run (opens oid operation k sid key input now) s) _ _
        (Outcomes.create_operation_outcome s oid operation k sid key input now) v
  step-Exclusive (updates oid status phase result error now) q =
      Tables-Exclusive (run (updates oid status phase result error now) s) _ _
        (Outcomes.update_operation_outcome s oid status phase result error now) v
  step-Exclusive (commits k oid rid generation result now) q =
      elim (Outcomes.commit_outcome s k oid rid generation result now) [
        | inl h ↦ Tables-Exclusive (run (commits k oid rid generation result now) s) _ _ h v
        | inr (h, free) ↦ Tables-Exclusive (run (commits k oid rid generation result now) s) _ _ h (
            update-IsExclusive v (λ w. w.id == k)
              (λ w. record w {
                head_revision = some rid;
                status = "detached_clean";
                updated_at = now;
              })
              (λ w. refl) (λ w. refl) (λ w j p e r. ground (arith, eq_iff w.id k)))
      ]
  step-Exclusive (consumes nonce till now) q =
      Tables-Exclusive (run (consumes nonce till now) s) _ _
        (Outcomes.consume_nonce_outcome s nonce till now) v

pub run_all-Exclusive :
    (cs : List Call) (s : Store) → All Ends cs → Exclusive s → Exclusive (run_all cs s)
run_all-Exclusive = run_all_induction Exclusive Ends (λ c s q v. step-Exclusive s v c q)

-- Over any history of the store, in which Sandboxes are finished with a status that is not live:
-- two live Sandboxes of one Workspace are the same Sandbox.
pub single_writer :
    (cs : List Call)
    → All Ends cs
    → (a b : Sandbox) → In a (run_all cs empty).sandboxes
    → In b (run_all cs empty).sandboxes
    → is_live a ≡ true
    → is_live b ≡ true
    → a.workspace_id ≡ b.workspace_id
    → a.id ≡ b.id
single_writer cs q a b in_a in_b live_a live_b same =
    let v = run_all-Exclusive cs empty q (record { writers = tt; claims = tt }) in
    let ws = (run_all cs empty).workspaces in
    let bs = (run_all cs empty).sandboxes in
    ground (
      arith,
      All-In (IsWriter ws) bs a v.writers in_a live_a,
      All-In (IsWriter ws) bs b v.writers in_b live_b,
    )

-- Over any history of the store, in which Sandboxes are finished with a status that is not live: a
-- Workspace that is not running (one that is checkpointing, restoring, deleting or detached) has no
-- live Sandbox.
pub moving_without_writer :
    (cs : List Call)
    → All Ends cs
    → (w : Workspace) (b : Sandbox) → In w (run_all cs empty).workspaces
    → In b (run_all cs empty).sandboxes
    → b.workspace_id ≡ w.id
    → w.status ≢ "running"
    → is_live b ≡ false
moving_without_writer cs q w b in_w in_b same moving =
    let v = run_all-Exclusive cs empty q (record { writers = tt; claims = tt }) in
    let ws = (run_all cs empty).workspaces in
    let bs = (run_all cs empty).sandboxes in
    ground (
      arith,
      All-In (IsWriter ws) bs b v.writers in_b,
      All-In (IsClaimed ws bs) ws w v.claims in_w,
      (All-In (IsClaimed ws bs) ws w v.claims in_w).1 b.id,
    )
