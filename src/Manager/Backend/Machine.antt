-- ===== src/Manager/Backend/Machine.antt =====
-- The Manager as a whole: the tasks of src/sandbox_manager/docker_backend.py over one store, one table
-- of records and the locks of the Workspaces.
--
-- A step is one command of one task, whichever task; a request may arrive at any time, and the Manager
-- may stop and start again, with the store that it has. Docker, the runner and the clock answer as they
-- like, and a wait for a lock may be cancelled. The reaper is a request for a round at any time.
pub mod Histories
pub mod Solo
use litellm_gateway.Prelude.{
  ℕ, String, Bool, true, false, not, Option, none, some, List, [], ◌∷◌, ◌++◌, ◌≡◌, ◌==◌, ◌&&◌, keep,
  leb, is_some,
}
use litellm_gateway.Prelude.Table.{find_by, update_where, delete_where}
use litellm_gateway.Prelude.Json.{Fields}
use litellm_gateway.Manager.State.{
  Store, Workspace, Sandbox, Operation, Result, ok, err, Tx, one_of,
}
use litellm_gateway.Manager.State.History.{
  Call, creates, deletes, schedules, transitions, claims, marks, renews, finishes, opens, updates,
  commits, consumes, run, empty,
}
use litellm_gateway.Manager.State.Workspaces.{
  create_workspace, get_workspace, delete_workspace, schedule_workspace_delete,
  transition_workspace,
}
use litellm_gateway.Manager.State.Sandboxes.{
  claim_workspace, mark_sandbox_running, get_sandbox, active_sandboxes, renew_sandbox,
  finish_sandbox,
}
use litellm_gateway.Manager.State.Operations.{
  create_operation, get_operation, update_operation, incomplete_operations, commit_revision,
  consume_nonce,
}
use litellm_gateway.Manager.State.Candidates.{
  cleanup_candidates, retire_candidates, workspaces_with_status,
}
use litellm_gateway.Manager.Program.{
  Program, call, Command, stores, reads, looks, docker, runner, clock, loop_time, fresh_hex, sleeps,
  acquires, releases, spawns, Answer, Reply, replied, failed, Returned, Query, Found, workspace_of,
  sandbox_of, operation_of, live_sandboxes, open_operations, with_status, due_for_retirement,
  due_for_cleanup, TableCall, Looked, lookup_record, put_record, pop_record, extend_record,
  all_records, SandboxRecord, Task,
}
use litellm_gateway.Manager.Backend.{Environment}
use litellm_gateway.Manager.Backend.Storing.{ignore}
use litellm_gateway.Manager.Backend.Sandboxes.{inspect, renew, terminate}
use litellm_gateway.Manager.Backend.Creation.{create}
use litellm_gateway.Manager.Backend.Workspaces
use litellm_gateway.Manager.Backend.Requests.{operate, inspect_operation}
use litellm_gateway.Manager.Backend.Startup.{start_up}
use litellm_gateway.Manager.Backend.Reaper.{reaper_round, task}

-- A call of the store as its method makes it.
unfoldable pub perform : (c : Call) → Tx (Returned c)
perform (creates k kind volume timestamp) = create_workspace k kind volume timestamp
perform (deletes k) = delete_workspace k
perform (schedules k after timestamp) = schedule_workspace_delete k after timestamp
perform (transitions k expected status timestamp) = transition_workspace k expected status timestamp
perform (claims k sid host name created_at till) = claim_workspace k sid host name created_at till
perform (marks sid timestamp) = mark_sandbox_running sid timestamp
perform (renews sid till) = renew_sandbox sid till
perform (finishes sid status workspace_status timestamp) =
    finish_sandbox sid status workspace_status timestamp
perform (opens oid operation k sid key input timestamp) =
    create_operation oid operation k sid key input timestamp
perform (updates oid status phase result error timestamp) =
    update_operation oid status phase result error timestamp
perform (commits k oid rid generation result timestamp) =
    commit_revision k oid rid generation result timestamp
perform (consumes nonce till timestamp) = consume_nonce nonce till timestamp

-- The rows of a query that raises nothing.
abbrev listed : {A : Type 0} → Result (List A) → List A
listed (ok rows) = rows
listed (err e) = []

unfoldable pub find : (q : Query) → Store → Found q
find (workspace_of k) s = (get_workspace k s).0
find (sandbox_of k) s = (get_sandbox k s).0
find (operation_of k) s = (get_operation k s).0
find live_sandboxes s = listed (active_sandboxes s).0
find open_operations s = listed (incomplete_operations s).0
find (with_status statuses) s = listed (workspaces_with_status statuses s).0
find (due_for_retirement timestamp) s = listed (retire_candidates timestamp s).0
find (due_for_cleanup updated_before) s = listed (cleanup_candidates updated_before s).0

abbrev is_record : String → SandboxRecord → Bool
is_record k r = r.sandbox_id == k

-- self._records, of which a later record of an id stands for an earlier one.
unfoldable pub told_by : (t : TableCall) → List SandboxRecord → Looked t
told_by (lookup_record k) rs = find_by (λ r. r.sandbox_id) k rs
told_by (put_record r) rs = tt
told_by (pop_record k container) rs = tt
told_by (extend_record k till) rs = is_some (find_by (λ r. r.sandbox_id) k rs)
told_by all_records rs = rs

unfoldable pub changed_by : TableCall → List SandboxRecord → List SandboxRecord
changed_by (put_record r) rs = r ∷ delete_where (is_record r.sandbox_id) rs
changed_by (pop_record k container) rs =
    delete_where (λ r. r.sandbox_id == k && r.container == container) rs
changed_by (extend_record k till) rs =
    update_where (is_record k) (λ r. record r { expires_at = till }) rs
changed_by _ rs = rs

pub record System : Type 0 where
  pub store : Store
  pub records : List SandboxRecord
  pub held : List String
  pub tasks : List (Program (Unit {0}))

-- What a command may be answered.
abbrev Free : Reply (Unit {0}) → String → List String → Type 0
Free (replied u) k held = one_of k held ≡ false
Free (failed e) k held = Unit

abbrev pub Possible : (c : Command) → System → Answer c → Type 0
Possible (stores c) s x = x ≡ (perform c s.store).0
Possible (reads q) s x = x ≡ find q s.store
Possible (looks t) s x = x ≡ told_by t s.records
Possible (acquires k) s x = Free x k s.held
Possible _ s x = Unit

-- What a command does.
abbrev pub store_after : Command → Store → Store
store_after (stores c) s = (perform c s).1
store_after _ s = s

abbrev records_after : Command → List SandboxRecord → List SandboxRecord
records_after (looks t) rs = changed_by t rs
records_after _ rs = rs

abbrev held_with : Reply (Unit {0}) → String → List String → List String
held_with (replied u) k held = k ∷ held
held_with (failed e) k held = held

abbrev held_after : (c : Command) → Answer c → List String → List String
held_after (acquires k) x held = held_with x k held
held_after (releases k) x held = delete_where (λ j. j == k) held
held_after _ x held = held

abbrev pub spawned : Environment → Command → List (Program (Unit {0}))
spawned env (spawns t) = task env t ∷ []
spawned env _ = []

-- The requests, which src/sandbox_manager/app.py passes on.
pub data Request : Type 0 where
  creates_sandbox : Option String → Request
  inspects renews_sandbox terminates : String → Request
  creates_workspace inspects_workspace releases_workspace : (workspace_id grant : String) → Request
  operates inspects_operation : String → Request
  reaps : Request

unfoldable pub handle : Environment → Request → Program (Unit {0})
handle env (creates_sandbox grant) = ignore (create env grant)
handle env (inspects k) = ignore (inspect env k)
handle env (renews_sandbox k) = ignore (renew env k)
handle env (terminates k) = ignore (terminate env k)
handle env (creates_workspace k grant) = ignore (Workspaces.create_workspace env k grant)
handle env (inspects_workspace k grant) = ignore (Workspaces.inspect_workspace env k grant)
handle env (releases_workspace k grant) = ignore (Workspaces.release_workspace env k grant)
handle env (operates grant) = ignore (operate env grant)
handle env (inspects_operation k) = ignore (inspect_operation k)
handle env reaps = reaper_round env

abbrev pub moved :
    Environment
    → System
    → (c : Command) → Answer c
    → List (Program (Unit {0}))
    → Program (Unit {0})
    → List (Program (Unit {0}))
    → System
moved env s c x before next rest = record {
  store = store_after c s.store;
  records = records_after c s.records;
  held = held_after c x s.held;
  tasks = before ++ next ∷ (rest ++ spawned env c);
}

module _ (env : Environment) where
  pub data Reachable : System → Type 0 where
    starts :
        Reachable (record { store = empty; records = []; held = []; tasks = start_up env ∷ [] })
    restarts :
        (s : System)
        → Reachable s
        → Reachable (record { store = s.store; records = []; held = []; tasks = start_up env ∷ [] })
    arrives :
        (s : System) (r : Request)
        → Reachable s
        → Reachable (record s { tasks = handle env r ∷ s.tasks })
    moves :
        (s : System) (before rest : List (Program (Unit {0}))) (c : Command)
        (k : Answer c → Program (Unit {0})) (x : Answer c)
        → s.tasks ≡ before ++ call c k ∷ rest
        → Possible c s x
        → Reachable s
        → Reachable (moved env s c x before (k x) rest)
