-- ===== src/Manager/State/Lookups.antt =====
-- What a Workspace's writer and a Sandbox's home become under the statements of
-- src/sandbox_manager/state.py.
use litellm_gateway.Prelude.{
  String, ◌≡◌, refl, Bool, true, false, Option, none, some, List, [], ◌∷◌, ◌++◌, ◌==◌, ◌&&◌, eq_iff,
  opt_eq, if◌then◌else◌, is_some, arith, Bool-cases, inl, inr,
}
use litellm_gateway.Prelude.Table.{find_by, update_where, delete_where}
use litellm_gateway.Manager.State.{Workspace, Sandbox}

-- The writer that a Workspace names.
pub writer_of : List Workspace → String → Option String
writer_of [] k = none
writer_of (w ∷ ws) k = if w.id == k then w.active_sandbox_id else writer_of ws k

-- The Workspace that a Sandbox belongs to.
pub home_of : List Sandbox → String → Option String
home_of [] k = none
home_of (b ∷ bs) k = if b.id == k then some b.workspace_id else home_of bs k

pub writer_of_found :
    (ws : List Workspace) (k : String) {w : Workspace}
    → find_by (λ v. v.id) k ws ≡ some w
    → writer_of ws k ≡ w.active_sandbox_id
unfolding writer_of find_by
writer_of_found [] k h = cc
writer_of_found (v ∷ ws) k {w} h = elim (Bool-cases (v.id == k)) [
  | inl e ↦ ground arith
  | inr e ↦ rw e (writer_of_found ws k {w = w} (ground arith))
]

pub home_of_found :
    (bs : List Sandbox) (k : String) {b : Sandbox}
    → find_by (λ v. v.id) k bs ≡ some b
    → home_of bs k ≡ some b.workspace_id
unfolding home_of find_by
home_of_found [] k h = cc
home_of_found (v ∷ bs) k {b} h = elim (Bool-cases (v.id == k)) [
  | inl e ↦ ground arith
  | inr e ↦ rw e (home_of_found bs k {b = b} (ground arith))
]

pub home_of_missing :
    (bs : List Sandbox) (k : String) → find_by (λ v. v.id) k bs ≡ none → home_of bs k ≡ none
unfolding home_of find_by
home_of_missing [] k h = refl
home_of_missing (v ∷ bs) k h = ground (arith, home_of_missing bs k)

pub writer_of_missing :
    (ws : List Workspace) (k : String) → find_by (λ v. v.id) k ws ≡ none → writer_of ws k ≡ none
unfolding writer_of find_by
writer_of_missing [] k h = refl
writer_of_missing (v ∷ ws) k h = ground (arith, writer_of_missing ws k)

pub writer_of-update :
    (p : Workspace → Bool) (f : Workspace → Workspace) (ws : List Workspace) (k : String)
    → ((w : Workspace) → (f w).id ≡ w.id)
    → ((w : Workspace) → (f w).active_sandbox_id ≡ w.active_sandbox_id)
    → writer_of (update_where p f ws) k ≡ writer_of ws k
unfolding writer_of update_where
writer_of-update p f [] k same_id same = refl
writer_of-update p f (w ∷ ws) k same_id same =
    ground (arith, same_id w, same w, writer_of-update p f ws k same_id same)

writer_of-claim_any :
    (f : Workspace → Workspace) (j sid : String) (ws : List Workspace) (k : String)
    → ((w : Workspace) → (f w).id ≡ w.id)
    → ((w : Workspace) → (f w).active_sandbox_id ≡ some sid)
    → writer_of (update_where (λ w. w.id == j) f ws) k
      ≡ (if j == k && is_some (find_by (λ w. w.id) k ws) then some sid else writer_of ws k)
unfolding writer_of update_where find_by
writer_of-claim_any f j sid [] k same_id set = ground arith
writer_of-claim_any f j sid (w ∷ ws) k same_id set = ground (
  arith,
  same_id w,
  set w,
  eq_iff w.id j,
  eq_iff w.id k,
  eq_iff j k,
  writer_of-claim_any f j sid ws k same_id set,
)

pub writer_of-claim :
    (f : Workspace → Workspace) (j sid : String) (ws : List Workspace) (k : String)
    → ((w : Workspace) → (f w).id ≡ w.id)
    → ((w : Workspace) → (f w).active_sandbox_id ≡ some sid)
    → is_some (find_by (λ w. w.id) j ws) ≡ true
    → writer_of (update_where (λ w. w.id == j) f ws) k
      ≡ (if j == k then some sid else writer_of ws k)
writer_of-claim f j sid ws k same_id set h =
    ground (arith, eq_iff j k, writer_of-claim_any f j sid ws k same_id set)

-- A Workspace lets its writer go.
pub writer_of-release :
    (f : Workspace → Workspace) (j sid : String) (ws : List Workspace) (k : String)
    → ((w : Workspace) → (f w).id ≡ w.id)
    → ((w : Workspace) → (f w).active_sandbox_id ≡ none)
    → writer_of (update_where (λ w. w.id == j && opt_eq w.active_sandbox_id (some sid)) f ws) k
      ≡ (if j == k && opt_eq (writer_of ws k) (some sid) then none else writer_of ws k)
unfolding writer_of update_where
writer_of-release f j sid [] k same_id drop = ground arith
writer_of-release f j sid (w ∷ ws) k same_id drop = ground (
  arith,
  same_id w,
  drop w,
  eq_iff w.id j,
  eq_iff w.id k,
  eq_iff j k,
  writer_of-release f j sid ws k same_id drop,
)

pub writer_of-delete :
    (j : String) (ws : List Workspace) (k : String)
    → writer_of (delete_where (λ w. w.id == j) ws) k ≡ (if j == k then none else writer_of ws k)
unfolding writer_of delete_where
writer_of-delete j [] k = ground arith
writer_of-delete j (w ∷ ws) k =
    ground (arith, eq_iff w.id j, eq_iff w.id k, eq_iff j k, writer_of-delete j ws k)

pub writer_of-append :
    (w : Workspace) (ws : List Workspace) (k : String)
    → w.active_sandbox_id ≡ none
    → writer_of (ws ++ w ∷ []) k ≡ writer_of ws k
unfolding writer_of
writer_of-append w [] k h = ground arith
writer_of-append w (v ∷ ws) k h = ground (arith, writer_of-append w ws k h)

pub home_of-update :
    (p : Sandbox → Bool) (f : Sandbox → Sandbox) (bs : List Sandbox) (k : String)
    → ((b : Sandbox) → (f b).id ≡ b.id)
    → ((b : Sandbox) → (f b).workspace_id ≡ b.workspace_id)
    → home_of (update_where p f bs) k ≡ home_of bs k
unfolding home_of update_where
home_of-update p f [] k same_id same = refl
home_of-update p f (b ∷ bs) k same_id same =
    ground (arith, same_id b, same b, home_of-update p f bs k same_id same)

pub home_of-append :
    (b : Sandbox) (bs : List Sandbox) (k : String)
    → home_of (bs ++ b ∷ []) k ≡ (
        if is_some (home_of bs k)
        then home_of bs k
        else (if b.id == k then some b.workspace_id else none))
unfolding home_of
home_of-append b [] k = refl
home_of-append b (v ∷ bs) k = ground (arith, home_of-append b bs k)

-- A Sandbox of another Workspace stays where it is.
pub home_of-delete :
    (j : String) (bs : List Sandbox) (k h : String)
    → (h == j) ≡ false
    → home_of bs k ≡ some h
    → home_of (delete_where (λ b. b.workspace_id == j) bs) k ≡ some h
unfolding home_of delete_where
home_of-delete j [] k h other at = cc
home_of-delete j (b ∷ bs) k h other at = elim (Bool-cases (b.id == k)) [
  | inl e ↦ ground (arith, eq_iff b.workspace_id j, eq_iff h j)
  | inr e ↦ ground (arith, home_of-delete j bs k h other)
]
