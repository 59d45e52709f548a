-- ===== src/Manager/Backend/Machine/Histories.antt =====
-- Every store that the tasks of src/sandbox_manager/docker_backend.py reach is one that a history of the
-- methods of src/sandbox_manager/state.py makes.
use mathlib.Core.Path.{subst}
use litellm_gateway.Prelude.{
  true, List, [], ◌∷◌, ◌++◌, ◌≡◌, refl, sym, ap, ◌∙◌, All, All-snoc, All-append, In,
}
use litellm_gateway.Manager.State.{Store, Sandbox}
use litellm_gateway.Manager.State.Sandboxes.{is_live}
use litellm_gateway.Manager.State.History.{
  Call, creates, deletes, schedules, transitions, claims, marks, renews, finishes, opens, updates,
  commits, consumes, run, run_all, empty, Ends,
}
use litellm_gateway.Manager.State.Exclusion.{single_writer}
use litellm_gateway.Manager.Program.{
  Program, call, Command, stores, reads, looks, docker, runner, clock, loop_time, fresh_hex, sleeps,
  acquires, releases, spawns,
}
use litellm_gateway.Manager.Program.Only.{Only, command-Only, answered-Only}
use litellm_gateway.Manager.Backend.{Environment}
use litellm_gateway.Manager.Backend.Only.{Allowed, backend_rules}
use litellm_gateway.Manager.Backend.Only.Sandboxes.{inspect-Only, renew-Only, terminate-Only}
use litellm_gateway.Manager.Backend.Only.Creation.{create-Only}
use litellm_gateway.Manager.Backend.Only.Workspaces.{
  create_workspace-Only, inspect_workspace-Only, release_workspace-Only,
}
use litellm_gateway.Manager.Backend.Only.Requests.{operate-Only, inspect_operation-Only}
use litellm_gateway.Manager.Backend.Only.Startup.{start_up-Only}
use litellm_gateway.Manager.Backend.Only.Reaper.{reaper_round-Only, task-Only}
use litellm_gateway.Manager.Backend.Machine.{
  perform, System, store_after, spawned, Request, creates_sandbox, inspects, renews_sandbox,
  terminates, creates_workspace, inspects_workspace, releases_workspace, operates,
  inspects_operation, reaps, handle, Reachable, starts, restarts, arrives, moves,
}

performed : (c : Call) (s : Store) → (perform c s).1 ≡ run c s
unfolding perform run
performed (creates k kind volume timestamp) s = refl
performed (deletes k) s = refl
performed (schedules k after timestamp) s = refl
performed (transitions k expected status timestamp) s = refl
performed (claims k sid host name created_at till) s = refl
performed (marks sid timestamp) s = refl
performed (renews sid till) s = refl
performed (finishes sid status workspace_status timestamp) s = refl
performed (opens oid operation k sid key input timestamp) s = refl
performed (updates oid status phase result error timestamp) s = refl
performed (commits k oid rid generation result timestamp) s = refl
performed (consumes nonce till timestamp) s = refl

run_all-snoc :
    (cs : List Call) (c : Call) (s : Store) → run_all (cs ++ c ∷ []) s ≡ run c (run_all cs s)
unfolding run_all
run_all-snoc [] c s = refl
run_all-snoc (d ∷ cs) c s = run_all-snoc cs c (run d s)

-- A history that makes the store.
pub record Recorded (s : Store) : Type 0 where
  pub calls : List Call
  pub ended : All Ends calls
  pub made : s ≡ run_all calls empty

stores-Recorded : (c : Call) (s : Store) → Ends c → Recorded s → Recorded (perform c s).1
stores-Recorded c s e h = record {
  calls = h.calls ++ c ∷ [];
  ended = All-snoc Ends h.calls c h.ended e;
  made = performed c s ∙ (ap (run c) h.made ∙ sym (run_all-snoc h.calls c empty));
}

command-Recorded : (c : Command) (s : Store) → Allowed c → Recorded s → Recorded (store_after c s)
command-Recorded (stores c) s e h = stores-Recorded c s e h
command-Recorded (reads q) s e h = h
command-Recorded (looks t) s e h = h
command-Recorded (docker d) s e h = h
command-Recorded (runner r) s e h = h
command-Recorded clock s e h = h
command-Recorded loop_time s e h = h
command-Recorded fresh_hex s e h = h
command-Recorded sleeps s e h = h
command-Recorded (acquires k) s e h = h
command-Recorded (releases k) s e h = h
command-Recorded (spawns t) s e h = h

abbrev Tasks : List (Program (Unit {0})) → Type 0
Tasks ps = All (Only Allowed) ps

All-before : (ps qs : List (Program (Unit {0}))) → Tasks (ps ++ qs) → Tasks ps
All-before [] qs h = tt
All-before (p ∷ ps) qs h = (h.0, All-before ps qs h.1)

All-after : (ps qs : List (Program (Unit {0}))) → Tasks (ps ++ qs) → Tasks qs
All-after [] qs h = h
All-after (p ∷ ps) qs h = All-after ps qs h.1

handle-Only : (env : Environment) (r : Request) → Only Allowed (handle env r)
unfolding handle
handle-Only env (creates_sandbox grant) = search (backend_rules, create-Only)
handle-Only env (inspects k) = search (backend_rules, inspect-Only)
handle-Only env (renews_sandbox k) = search (backend_rules, renew-Only)
handle-Only env (terminates k) = search (backend_rules, terminate-Only)
handle-Only env (creates_workspace k grant) = search (backend_rules, create_workspace-Only)
handle-Only env (inspects_workspace k grant) = search (backend_rules, inspect_workspace-Only)
handle-Only env (releases_workspace k grant) = search (backend_rules, release_workspace-Only)
handle-Only env (operates grant) = search (backend_rules, operate-Only)
handle-Only env (inspects_operation k) = search (backend_rules, inspect_operation-Only)
handle-Only env reaps = reaper_round-Only env

module _ (env : Environment) where
  spawned-Only : (c : Command) → All (Only Allowed) (spawned env c)
  spawned-Only (spawns t) = (task-Only env t, tt)
  spawned-Only (stores c) = tt
  spawned-Only (reads q) = tt
  spawned-Only (looks t) = tt
  spawned-Only (docker d) = tt
  spawned-Only (runner r) = tt
  spawned-Only clock = tt
  spawned-Only loop_time = tt
  spawned-Only fresh_hex = tt
  spawned-Only sleeps = tt
  spawned-Only (acquires k) = tt
  spawned-Only (releases k) = tt

  kept : (s : System) → Reachable env s → Recorded s.store × All (Only Allowed) s.tasks
  kept _ starts =
      (record { calls = []; ended = tt; made = unfold run_all in refl }, (start_up-Only env, tt))
  kept _ (restarts s h) = ((kept s h).0, (start_up-Only env, tt))
  kept _ (arrives s r h) = ((kept s h).0, (handle-Only env r, (kept s h).1))
  kept _ (moves s before rest c k x e p h) =
      let all = subst (λ ps. All (Only Allowed) ps) e (kept s h).1 in
      let current = (All-after before (call c k ∷ rest) all).0 in
      (
        command-Recorded c s.store (command-Only c k current) (kept s h).0,
        All-append (Only Allowed) before _ (All-before before (call c k ∷ rest) all) (
          answered-Only c k current x,
          All-append (Only Allowed) rest _ (All-after before (call c k ∷ rest) all).1
              (spawned-Only c),
        ),
      )

  -- In every state that the Manager can reach, under every interleaving of its tasks and with every
  -- answer of Docker and of the runner, two live Sandboxes of one Workspace are the same Sandbox.
  pub backend_single_writer :
      (s : System)
      → Reachable env s
      → (a b : Sandbox) → In a s.store.sandboxes
      → In b s.store.sandboxes
      → is_live a ≡ true
      → is_live b ≡ true
      → a.workspace_id ≡ b.workspace_id
      → a.id ≡ b.id
  backend_single_writer s h a b in_a in_b =
      let r = (kept s h).0 in
      single_writer r.calls r.ended a b (subst (λ t. In a t.sandboxes) r.made in_a)
        (subst (λ t. In b t.sandboxes) r.made in_b)
