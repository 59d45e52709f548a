-- ===== src/Manager/State/Replay.antt =====
-- A grant's nonce is consumed once: `consume_nonce` of src/sandbox_manager/state.py, over whole
-- histories.
use litellm_gateway.Prelude.{
  ℕ, ◌<◌, String, ◌≡◌, refl, true, false, Option, none, some, List, [], ◌∷◌, ◌++◌, ◌==◌, eq_refl,
  is_some, All, arith, inl, inr, Bool-cases, if◌then◌else◌, leb,
}
use litellm_gateway.Prelude.Table.{find_by, delete_where}
use litellm_gateway.Manager.State.{Nonce, Store, ok}
use litellm_gateway.Manager.State.Workspaces.{
  create_workspace, delete_workspace, schedule_workspace_delete, transition_workspace,
}
use litellm_gateway.Manager.State.Sandboxes.{
  claim_workspace, mark_sandbox_running, renew_sandbox, finish_sandbox,
}
use litellm_gateway.Manager.State.Operations.{
  create_operation, update_operation, commit_revision, consume_nonce,
}
use litellm_gateway.Manager.State.History.{Call, consumes, run, run_all, run_all_induction}

-- When the nonce's row may go.
pub expiry_of : List Nonce → String → Option ℕ
expiry_of [] k = none
expiry_of (n ∷ ns) k = if n.nonce == k then some n.expires_at else expiry_of ns k

expiry_of-find :
    (ns : List Nonce) (k : String)
    → is_some (find_by (λ n. n.nonce) k ns) ≡ is_some (expiry_of ns k)
unfolding expiry_of find_by
expiry_of-find [] k = refl
expiry_of-find (n ∷ ns) k = ground (arith, expiry_of-find ns k)

expiry_of-prune :
    (t e : ℕ) (ns : List Nonce) (k : String)
    → t < e
    → expiry_of ns k ≡ some e
    → expiry_of (delete_where (λ n. leb n.expires_at t) ns) k ≡ some e
unfolding expiry_of delete_where
expiry_of-prune t e [] k h at = cc
expiry_of-prune t e (n ∷ ns) k h at = elim (Bool-cases (n.nonce == k)) [
  | inl hit ↦ ground arith
  | inr miss ↦ ground (arith, expiry_of-prune t e ns k h)
]

expiry_of-append :
    (n : Nonce) (ns : List Nonce) (k : String)
    → expiry_of (ns ++ n ∷ []) k ≡ (
        if is_some (expiry_of ns k)
        then expiry_of ns k
        else (if n.nonce == k then some n.expires_at else none))
unfolding expiry_of
expiry_of-append n [] k = refl
expiry_of-append n (m ∷ ns) k = ground (arith, expiry_of-append n ns k)

-- Another call of the store leaves the nonce where it is until it expires.
abbrev pub Before : ℕ → Call → Type 0
Before e (consumes nonce till now) = now < e
Before e _ = Unit

consume_nonce-held :
    (k nonce : String) (e till now : ℕ) (s : Store)
    → now < e
    → expiry_of s.consumed_nonces k ≡ some e
    → expiry_of (consume_nonce nonce till now s).1.consumed_nonces k ≡ some e
unfolding consume_nonce
consume_nonce-held k nonce e till now s early held =
    let pruned = delete_where (λ n. leb n.expires_at now) s.consumed_nonces in
    ground (
      arith,
      expiry_of-prune now e s.consumed_nonces k early held,
      expiry_of-append (record { nonce = nonce; expires_at = till; consumed_at = now }) pruned k,
    )

nonces-run :
    (c : Call) (s : Store) (k : String) (e : ℕ)
    → Before e c
    → expiry_of s.consumed_nonces k ≡ some e
    → expiry_of (run c s).consumed_nonces k ≡ some e
unfolding run create_workspace delete_workspace schedule_workspace_delete transition_workspace
    claim_workspace mark_sandbox_running renew_sandbox finish_sandbox create_operation
    update_operation commit_revision
nonces-run (consumes nonce till now) s k e q h = consume_nonce-held k nonce e till now s q h
nonces-run _ s k e q h = ground arith

consume_nonce-holds :
    (k : String) (e now : ℕ) (s : Store)
    → (consume_nonce k e now s).0 ≡ ok true
    → expiry_of (consume_nonce k e now s).1.consumed_nonces k ≡ some e
unfolding consume_nonce
consume_nonce-holds k e now s h =
    let pruned = delete_where (λ n. leb n.expires_at now) s.consumed_nonces in
    ground (
      arith,
      eq_refl k,
      expiry_of-find pruned k,
      expiry_of-append (record { nonce = k; expires_at = e; consumed_at = now }) pruned k,
    )

held-refused :
    (k : String) (e till now : ℕ) (s : Store)
    → now < e
    → expiry_of s.consumed_nonces k ≡ some e
    → (consume_nonce k till now s).0 ≡ ok false
unfolding consume_nonce
held-refused k e till now s early held =
    let pruned = delete_where (λ n. leb n.expires_at now) s.consumed_nonces in
    ground (arith, expiry_of-prune now e s.consumed_nonces k early held, expiry_of-find pruned k)

-- A nonce that was consumed until the time `e` is refused whenever it is presented again before
-- `e`, whatever calls of the store came between, in all of which the clock was before `e` too.
pub consume_nonce_once :
    (k : String) (e now : ℕ) (s : Store) (cs : List Call) (till later : ℕ)
    → (consume_nonce k e now s).0 ≡ ok true
    → All (Before e) cs
    → later < e
    → (consume_nonce k till later (run_all cs (consume_nonce k e now s).1)).0 ≡ ok false
consume_nonce_once k e now s cs till later first between early =
    held-refused k e till later _ early (
      run_all_induction (λ t. expiry_of t.consumed_nonces k ≡ some e) (Before e)
        (λ c t q h. nonces-run c t k e q h) cs _ between (consume_nonce-holds k e now s first))
