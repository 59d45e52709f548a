-- ===== src/Manager/State/Fencing.antt =====
-- A checkpoint is committed only to the generation that it read: `commit_revision` of
-- src/sandbox_manager/state.py, over whole histories.
use litellm_gateway.Prelude.{
  ℕ, suc, ◌≤◌, String, ◌≡◌, ap, ◌∙◌, refl, Bool, true, false, Option, none, some, List, [], ◌∷◌,
  ◌++◌, ◌==◌, eq_iff, eq_refl, is_some, All, arith, inl, inr, Bool-cases, if◌then◌else◌,
  Option-cases, opt_eq, ◌&&◌,
}
use litellm_gateway.Prelude.Json.{Json}
use litellm_gateway.Prelude.Table.{find_by, delete_where, update_where}
use litellm_gateway.Manager.State.{Workspace, Sandbox, Store, ok, err, conflict}
use litellm_gateway.Manager.State.Workspaces.{new_workspace, is_recoverable, workspace_row}
use litellm_gateway.Manager.State.Sandboxes.{claimed, released, claim_workspace}
use litellm_gateway.Manager.State.Operations.{commit_revision}
use litellm_gateway.Manager.State.Outcomes
use litellm_gateway.Manager.State.Outcomes.{Tables, Same}
use litellm_gateway.Manager.State.Idempotency.{Keeping}
use litellm_gateway.Manager.State.History.{
  Call, creates, deletes, schedules, transitions, claims, marks, renews, finishes, opens, updates,
  commits, consumes, run, run_all, run_all_induction,
}

-- The generation of a Workspace that is there.
unfoldable pub generation_of : List Workspace → String → Option ℕ
generation_of [] k = none
generation_of (w ∷ ws) k = if w.id == k then some w.generation else generation_of ws k

pub generation_of-update :
    (p : Workspace → Bool) (f : Workspace → Workspace) (ws : List Workspace) (k : String)
    → ((w : Workspace) → (f w).id ≡ w.id)
    → ((w : Workspace) → (f w).generation ≡ w.generation)
    → generation_of (update_where p f ws) k ≡ generation_of ws k
unfolding generation_of update_where
generation_of-update p f [] k same_id same = refl
generation_of-update p f (w ∷ ws) k same_id same =
    ground (arith, same_id w, same w, generation_of-update p f ws k same_id same)

abbrev next : Bool → Option ℕ → Option ℕ
next true (some g) = some (suc g)
next b g = g

generation_of-claim :
    (sid j : String) (now : ℕ) (ws : List Workspace) (k : String)
    → generation_of (update_where (λ w. w.id == j) (claimed sid now) ws) k
      ≡ next (j == k) (generation_of ws k)
unfolding generation_of update_where
generation_of-claim sid j now [] k = ground arith
generation_of-claim sid j now (w ∷ ws) k =
    ground (arith, eq_iff w.id j, eq_iff w.id k, eq_iff j k, generation_of-claim sid j now ws k)

generation_of-append :
    (w : Workspace) (ws : List Workspace) (k : String)
    → generation_of (ws ++ w ∷ []) k ≡ (
        if is_some (generation_of ws k)
        then generation_of ws k
        else (if w.id == k then some w.generation else none))
unfolding generation_of
generation_of-append w [] k = refl
generation_of-append w (v ∷ ws) k = ground (arith, generation_of-append w ws k)

generation_of-delete :
    (j : String) (ws : List Workspace) (k : String)
    → (k == j) ≡ false
    → generation_of (delete_where (λ w. w.id == j) ws) k ≡ generation_of ws k
unfolding generation_of delete_where
generation_of-delete j [] k h = refl
generation_of-delete j (w ∷ ws) k h =
    ground (arith, eq_iff w.id j, eq_iff w.id k, eq_iff k j, generation_of-delete j ws k h)

generation_of_found :
    (ws : List Workspace) (k : String) {w : Workspace}
    → find_by (λ v. v.id) k ws ≡ some w
    → generation_of ws k ≡ some w.generation
unfolding generation_of find_by
generation_of_found [] k h = cc
generation_of_found (v ∷ ws) k {w} h = elim (Bool-cases (v.id == k)) [
  | inl e ↦ ground arith
  | inr e ↦ rw e (generation_of_found ws k {w = w} (ground arith))
]

generation_of_missing :
    (ws : List Workspace) (k : String) → find_by (λ v. v.id) k ws ≡ none → generation_of ws k ≡ none
unfolding generation_of find_by
generation_of_missing [] k h = refl
generation_of_missing (v ∷ ws) k h = ground (arith, generation_of_missing ws k)

-- The Workspace is there, at a generation that is at least `g`.
abbrev pub AtLeast : ℕ → Option ℕ → Type 0
AtLeast g none = ⊥
AtLeast g (some n) = g ≤ n

module _ (k : String) (g : ℕ) where
  abbrev Reached : Store → Type 0
  Reached s = AtLeast g (generation_of s.workspaces k)

  kept-Reached :
      (t s : Store)
      → generation_of t.workspaces k ≡ generation_of s.workspaces k
      → Reached s
      → Reached t
  kept-Reached t s e h = rw e h

  same_Reached :
      (t : Store) (ws : List Workspace) (s : Store)
      → t.workspaces ≡ ws
      → generation_of ws k ≡ generation_of s.workspaces k
      → Reached s
      → Reached t
  same_Reached t ws s e f h = kept-Reached t s (ap (λ x. generation_of x k) e ∙ f) h

  run-Reached : (c : Call) (s : Store) → Keeping k c → Reached s → Reached (run c s)
  unfolding run
  run-Reached (creates j kind volume now) s q h =
      elim (Outcomes.create_workspace_outcome s j kind volume now) [
        | inl e ↦ same_Reached (run (creates j kind volume now) s) s.workspaces s e.0 refl h
        | inr (e, new) ↦
            same_Reached (run (creates j kind volume now) s) _ s e.0
              (ground
                (arith, generation_of-append (new_workspace j kind volume now) s.workspaces k))
              h
      ]
  run-Reached (deletes j) s q h = elim (Outcomes.delete_workspace_outcome s j) [
    | inl e ↦ same_Reached (run (deletes j) s) s.workspaces s e.0 refl h
    | inr (e, free) ↦
        same_Reached (run (deletes j) s) _ s e.0 (generation_of-delete j s.workspaces k q) h
  ]
  run-Reached (schedules j after now) s q h = elim (Outcomes.schedule_outcome s j after now) [
    | inl e ↦ same_Reached (run (schedules j after now) s) s.workspaces s e.0 refl h
    | inr e ↦
        same_Reached (run (schedules j after now) s) _ s e.0
          (generation_of-update (is_recoverable j)
            (λ w. record w { delete_after = some after; updated_at = now }) s.workspaces k
            (λ w. refl) (λ w. refl))
          h
  ]
  run-Reached (transitions j expected status now) s q h =
      elim (Outcomes.transition_outcome s j expected status now) [
        | inl e ↦ same_Reached (run (transitions j expected status now) s) s.workspaces s e.0 refl h
        | inr (e, free) ↦
            same_Reached (run (transitions j expected status now) s) _ s e.0
              (generation_of-update (λ w. w.id == j)
                (λ w. record w { status = status; updated_at = now }) s.workspaces k (λ w. refl)
                (λ w. refl))
              h
      ]
  run-Reached (claims j sid host name now till) s q h =
      elim (Outcomes.claim_outcome s j sid host name now till) [
        | inl e ↦ same_Reached (run (claims j sid host name now till) s) s.workspaces s e.0 refl h
        | inr (e, free, fresh, there) ↦
            ground (arith, e.0, generation_of-claim sid j now s.workspaces k)
      ]
  run-Reached (marks sid now) s q h = elim (Outcomes.mark_outcome s sid now) [
    | inl e ↦ same_Reached (run (marks sid now) s) s.workspaces s e.0 refl h
    | inr e ↦
        same_Reached (run (marks sid now) s) _ s e.0
          (generation_of-update (λ w. opt_eq w.active_sandbox_id (some sid))
            (λ w. record w { updated_at = now }) s.workspaces k (λ w. refl) (λ w. refl))
          h
  ]
  run-Reached (renews sid till) s q h = elim (Outcomes.renew_outcome s sid till) [
    | inl e ↦ same_Reached (run (renews sid till) s) s.workspaces s e.0 refl h
    | inr e ↦ same_Reached (run (renews sid till) s) s.workspaces s e.0 refl h
  ]
  run-Reached (finishes sid status workspace_status now) s q h =
      elim (Outcomes.finish_outcome s sid status workspace_status now) [
        | inl e ↦
            same_Reached (run (finishes sid status workspace_status now) s) s.workspaces s e.0 refl
              h
        | inr (b, there, e) ↦
            same_Reached (run (finishes sid status workspace_status now) s) _ s e.0
              (generation_of-update
                (λ w. w.id == b.workspace_id && opt_eq w.active_sandbox_id (some sid))
                (released workspace_status now) s.workspaces k (λ w. refl) (λ w. refl))
              h
      ]
  run-Reached (opens oid operation j sid key input now) s q h =
      same_Reached (run (opens oid operation j sid key input now) s) s.workspaces s
        (Outcomes.create_operation_outcome s oid operation j sid key input now).0 refl h
  run-Reached (updates oid status phase result error now) s q h =
      same_Reached (run (updates oid status phase result error now) s) s.workspaces s
        (Outcomes.update_operation_outcome s oid status phase result error now).0 refl h
  run-Reached (commits j oid rid generation result now) s q h =
      elim (Outcomes.commit_outcome s j oid rid generation result now) [
        | inl e ↦
            same_Reached (run (commits j oid rid generation result now) s) s.workspaces s e.0 refl h
        | inr (e, free) ↦
            same_Reached (run (commits j oid rid generation result now) s) _ s e.0
              (generation_of-update (λ w. w.id == j)
                (λ w. record w {
                  head_revision = some rid;
                  status = "detached_clean";
                  updated_at = now;
                })
                s.workspaces k (λ w. refl) (λ w. refl))
              h
      ]
  run-Reached (consumes nonce till now) s q h =
      same_Reached (run (consumes nonce till now) s) s.workspaces s
        (Outcomes.consume_nonce_outcome s nonce till now).0 refl h

claim_workspace-generation :
    (k sid host name : String) (now till g : ℕ) (s : Store) (r : Workspace × Sandbox)
    → generation_of s.workspaces k ≡ some g
    → (claim_workspace k sid host name now till s).0 ≡ ok r
    → generation_of (claim_workspace k sid host name now till s).1.workspaces k ≡ some (suc g)
unfolding claim_workspace
claim_workspace-generation k sid host name now till g s r at h =
    ground (arith, eq_refl k, generation_of-claim sid k now s.workspaces k)

commit_revision-stale :
    (k oid rid : String) (g : ℕ) (result : Json) (now : ℕ) (s : Store)
    → AtLeast (suc g) (generation_of s.workspaces k)
    → commit_revision k oid rid g result now s ≡ (err conflict, s)
unfolding commit_revision
commit_revision-stale k oid rid g result now s h = elim (Option-cases (workspace_row k s)) [
  | inl e ↦ ground (arith, generation_of_missing s.workspaces k e)
  | inr (w, e) ↦ ground (arith, generation_of_found s.workspaces k e)
]

-- Once a Sandbox has claimed a Workspace at the generation `g`, no checkpoint of that generation is
-- committed any more: whatever calls follow, as long as none deletes the Workspace, committing it is
-- a conflict and changes nothing.
pub stale_checkpoint_refused :
    (k sid host name : String) (at till g : ℕ) (s : Store) (r : Workspace × Sandbox)
    (cs : List Call) (oid rid : String) (result : Json) (now : ℕ)
    → generation_of s.workspaces k ≡ some g
    → (claim_workspace k sid host name at till s).0 ≡ ok r
    → All (Keeping k) cs
    → let t = run_all cs (claim_workspace k sid host name at till s).1 in
      commit_revision k oid rid g result now t ≡ (err conflict, t)
stale_checkpoint_refused k sid host name at till g s r cs oid rid result now there claimed between =
    commit_revision-stale k oid rid g result now
      (run_all cs (claim_workspace k sid host name at till s).1)
      (run_all_induction (λ t. AtLeast (suc g) (generation_of t.workspaces k)) (Keeping k)
        (run-Reached k (suc g)) cs _ between
        (ground (arith, claim_workspace-generation k sid host name at till g s r there claimed)))
