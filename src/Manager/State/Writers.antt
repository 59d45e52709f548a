-- ===== src/Manager/State/Writers.antt =====
-- Who may write a Workspace: the invariant that the methods of src/sandbox_manager/state.py keep
-- between the tables of Workspaces and of Sandboxes.
use litellm_gateway.Prelude.{
  ℕ, String, ◌≡◌, refl, ◌∙◌, Bool, true, false, not, ◌&&◌, ◌||◌, none, some, List, [], ◌∷◌, ◌++◌,
  ◌==◌, eq_iff, eq_refl, opt_eq, opt_eq_iff, if◌then◌else◌, is_some, is_none, All, All-snoc,
  All-map, All-keep, All-imp, arith,
}
use litellm_gateway.Prelude.Table.{find_by, update_where, delete_where}
use litellm_gateway.Manager.State.{Workspace, Sandbox}
use litellm_gateway.Manager.State.Workspaces.{new_workspace}
use litellm_gateway.Manager.State.Sandboxes.{is_live, starting, claimed, finished, released}
use litellm_gateway.Manager.State.Lookups.{
  writer_of, home_of, writer_of-update, writer_of-claim, writer_of-release, writer_of-delete,
  writer_of-append, home_of-update, home_of-append, home_of-delete, home_of_missing,
  writer_of_missing,
}

-- A live Sandbox is the one that its Workspace names.
abbrev pub IsWriter : List Workspace → Sandbox → Type 0
IsWriter ws b = is_live b ≡ true → writer_of ws b.workspace_id ≡ some b.id

-- A row of a Workspace is the one that its id finds. The Sandbox that it names is in the table and
-- belongs to it; the Workspace is running.
abbrev pub IsClaimed : List Workspace → List Sandbox → Workspace → Type 0
IsClaimed ws bs w =
    (writer_of ws w.id ≡ w.active_sandbox_id)
    × ((k : String)
        → w.active_sandbox_id ≡ some k
        → (home_of bs k ≡ some w.id) × (w.status ≡ "running"))

pub record IsExclusive (ws : List Workspace) (bs : List Sandbox) : Type 0 where
  pub writers : All (IsWriter ws) bs
  pub claims : All (IsClaimed ws bs) ws

module _ {ws : List Workspace} {bs : List Sandbox} (v : IsExclusive ws bs) where
  -- An update of Workspaces that leaves ids and writers alone, and a claimed one running.
  pub update-IsExclusive :
      (p : Workspace → Bool) (f : Workspace → Workspace)
      → ((w : Workspace) → (f w).id ≡ w.id)
      → ((w : Workspace) → (f w).active_sandbox_id ≡ w.active_sandbox_id)
      → ((w : Workspace) (k : String)
          → p w ≡ true
          → writer_of ws w.id ≡ some k
          → w.status ≡ "running"
          → (f w).status ≡ "running")
      → IsExclusive (update_where p f ws) bs
  unfolding update_where
  update-IsExclusive p f same_id same_writer same_status = record {
    writers =
        All-imp (IsWriter ws) (IsWriter (update_where p f ws)) bs
          (λ b h live. writer_of-update p f ws b.workspace_id same_id same_writer ∙ h live)
          v.writers;
    claims =
        All-map (IsClaimed ws bs) (IsClaimed (update_where p f ws) bs) (λ w. if p w then f w else w)
          ws
          (λ w h. (
            ground
                (arith, writer_of-update p f ws w.id same_id same_writer, same_id w, same_writer w),
            λ k. ground (arith, h.1 k, same_id w, same_writer w, same_status w k),
          ))
          v.claims;
  }

  -- An update of Sandboxes that moves none, and brings none to life.
  pub update_sandboxes-IsExclusive :
      (p : Sandbox → Bool) (f : Sandbox → Sandbox)
      → ((b : Sandbox) → (f b).id ≡ b.id)
      → ((b : Sandbox) → (f b).workspace_id ≡ b.workspace_id)
      → ((b : Sandbox) → p b ≡ true → is_live (f b) ≡ true → is_live b ≡ true)
      → IsExclusive ws (update_where p f bs)
  unfolding update_where
  update_sandboxes-IsExclusive p f same_id same_home old = record {
    writers =
        All-map (IsWriter ws) (IsWriter ws) (λ b. if p b then f b else b) bs
          (λ b h. ground (arith, h, same_id b, same_home b, old b)) v.writers;
    claims =
        All-imp (IsClaimed ws bs) (IsClaimed ws (update_where p f bs)) ws
          (λ w h. (h.0, λ k e. rw (home_of-update p f bs k same_id same_home) (h.1 k e))) v.claims;
  }

  pub create-IsExclusive :
      (k kind volume : String) (now : ℕ)
      → find_by (λ w. w.id) k ws ≡ none
      → IsExclusive (ws ++ new_workspace k kind volume now ∷ []) bs
  create-IsExclusive k kind volume now fresh =
      let w' = new_workspace k kind volume now in
      record {
        writers =
            All-imp (IsWriter ws) (IsWriter (ws ++ w' ∷ [])) bs
              (λ b h live. writer_of-append w' ws b.workspace_id refl ∙ h live) v.writers;
        claims =
            All-snoc (IsClaimed (ws ++ w' ∷ []) bs) ws w'
              (All-imp (IsClaimed ws bs) (IsClaimed (ws ++ w' ∷ []) bs) ws
                (λ w h. (writer_of-append w' ws w.id refl ∙ h.0, h.1)) v.claims)
              (writer_of-append w' ws k refl ∙ writer_of_missing ws k fresh, λ j e. cc);
      }

  pub claim-IsExclusive :
      (k sid host name : String) (now till : ℕ)
      → (is_none (writer_of ws k) || opt_eq (writer_of ws k) (some sid)) ≡ true
      → find_by (λ b. b.id) sid bs ≡ none
      → is_some (find_by (λ w. w.id) k ws) ≡ true
      → IsExclusive
          (update_where (λ w. w.id == k) (claimed sid now) ws)
          (bs ++ starting sid k host name now till ∷ [])
  unfolding update_where
  claim-IsExclusive k sid host name now till free fresh there = record {
    writers =
        All-snoc (IsWriter (update_where (λ w. w.id == k) (claimed sid now) ws)) bs
          (starting sid k host name now till)
          (All-imp (IsWriter ws) (IsWriter (update_where (λ w. w.id == k) (claimed sid now) ws)) bs
            (λ b h live. ground (
              arith,
              h live,
              eq_iff k b.workspace_id,
              opt_eq_iff (writer_of ws k) (some sid),
              now_writes b.workspace_id,
            ))
            v.writers)
          (λ live. ground (arith, eq_refl k, now_writes k));
    claims =
        All-map (IsClaimed ws bs)
          (IsClaimed (update_where (λ w. w.id == k) (claimed sid now) ws)
            (bs ++ starting sid k host name now till ∷ []))
          (λ w. if w.id == k then claimed sid now w else w) ws
          (λ w h. (
            ground (arith, now_writes w.id, eq_iff k w.id, eq_iff w.id k),
            λ j. ground (
              arith,
              h.1 j,
              home_of-append (starting sid k host name now till) bs j,
              home_of_missing bs sid fresh,
              eq_iff w.id k,
              eq_iff sid j,
            ),
          ))
          v.claims;
  }
    where
      now_writes :
          (j : String)
          → writer_of (update_where (λ w. w.id == k) (claimed sid now) ws) j
            ≡ (if k == j then some sid else writer_of ws j)
      now_writes j = writer_of-claim (claimed sid now) k sid ws j (λ w. refl) (λ w. refl) there

  pub delete-IsExclusive :
      (k : String)
      → writer_of ws k ≡ none
      → IsExclusive (delete_where (λ w. w.id == k) ws) (delete_where (λ b. b.workspace_id == k) bs)
  unfolding delete_where
  delete-IsExclusive k free = record {
    writers =
        All-keep (IsWriter ws) (IsWriter (delete_where (λ w. w.id == k) ws))
          (λ b. not (b.workspace_id == k)) bs
          (λ b other h live. ground (
            arith,
            writer_of-delete k ws b.workspace_id,
            eq_iff k b.workspace_id,
            eq_iff b.workspace_id k,
            h live,
          ))
          v.writers;
    claims =
        All-keep (IsClaimed ws bs)
          (IsClaimed (delete_where (λ w. w.id == k) ws)
            (delete_where (λ b. b.workspace_id == k) bs))
          (λ w. not (w.id == k)) ws
          (λ w other h. (
            ground (arith, writer_of-delete k ws w.id, eq_iff k w.id, eq_iff w.id k),
            λ j e. (home_of-delete k bs j w.id (ground arith) (h.1 j e).0, (h.1 j e).1),
          ))
          v.claims;
  }

  pub finish-IsExclusive :
      (b : Sandbox) (sid status workspace_status : String) (now : ℕ)
      → (status == "starting") ≡ false
      → (status == "running") ≡ false
      → find_by (λ b. b.id) sid bs ≡ some b
      → IsExclusive
          (update_where
            (λ w. w.id == b.workspace_id && opt_eq w.active_sandbox_id (some sid))
            (released workspace_status now)
            ws)
          (update_where (λ b. b.id == sid) (finished status) bs)
  unfolding update_where
  finish-IsExclusive b sid status workspace_status now over gone there = record {
    writers =
        All-map (IsWriter ws)
          (IsWriter (
            update_where (λ w. w.id == b.workspace_id && opt_eq w.active_sandbox_id (some sid))
              (released workspace_status now) ws))
          (λ b. if b.id == sid then finished status b else b) bs
          (λ c h. ground (
            arith,
            h,
            eq_iff c.id sid,
            opt_eq_iff (writer_of ws c.workspace_id) (some sid),
            then_writes c.workspace_id,
          ))
          v.writers;
    claims =
        All-map (IsClaimed ws bs)
          (IsClaimed
            (update_where (λ w. w.id == b.workspace_id && opt_eq w.active_sandbox_id (some sid))
              (released workspace_status now) ws)
            (update_where (λ b. b.id == sid) (finished status) bs))
          (λ w.
            if w.id == b.workspace_id && opt_eq w.active_sandbox_id (some sid)
            then released workspace_status now w
            else w)
          ws
          (λ w h. (
            ground
                (arith, then_writes w.id, eq_iff w.id b.workspace_id, eq_iff b.workspace_id w.id),
            λ j. ground (
              arith,
              h.1 j,
              home_of-update (λ b. b.id == sid) (finished status) bs j (λ b. refl) (λ b. refl),
            ),
          ))
          v.claims;
  }
    where
      then_writes :
          (j : String)
          → writer_of
              (update_where
                (λ w. w.id == b.workspace_id && opt_eq w.active_sandbox_id (some sid))
                (released workspace_status now)
                ws)
              j
            ≡ (if b.workspace_id == j && opt_eq (writer_of ws j) (some sid)
                then none
                else writer_of ws j)
      then_writes j =
          writer_of-release (released workspace_status now) b.workspace_id sid ws j (λ w. refl)
            (λ w. refl)
