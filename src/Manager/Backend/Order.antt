-- ===== src/Manager/Backend/Order.antt =====
-- src/sandbox_manager/docker_backend.py: the order of removing a Sandbox's container and of giving its
-- Workspace up, which `finish_sandbox` does.
pub mod Gone
use mathlib.Core.Path.{subst}
use litellm_gateway.Prelude.{sym, ◌||◌, String, ◌≡◌, refl, Bool, true, false, Option, none, some}
use litellm_gateway.Prelude.{if◌then◌else◌, ◌==◌, arith, ap, eq_refl, fun_ext}
use litellm_gateway.Prelude.Json.{Json, str, Fields, get}
use litellm_gateway.Manager.State.{
  Workspace, Sandbox, Result, ok, err, not_found, conflict, integrity, assertion,
}
use litellm_gateway.Manager.Backend.Startup.{
  finish_of, finish_found, finish_reconciled_sandbox, remove_runtime, remove_orphan, finish_removed,
  discard,
}
use litellm_gateway.Manager.Program.{
  Listed, TableCall, lookup_record, put_record, extend_record, all_records,
}
use litellm_gateway.Manager.State.History.{
  Call, creates, deletes, schedules, transitions, claims, marks, renews, finishes, opens, updates,
  commits, consumes,
}
use litellm_gateway.Manager.Program.{
  Error, missing, key_error, Reply, replied, failed, Command, stores, docker, container_create,
  container_remove, Answer, Program, done, raises, call, ◌>>=◌, ◌>>◌, rescue, Told, DockerCall,
}
use litellm_gateway.Manager.Program.Only.{Only, command-Only, answered-Only, only_rules}
use litellm_gateway.Manager.Backend.{
  Environment, is_docker_not_found, is_backend_error, remove_container,
}
use litellm_gateway.Manager.Backend.Sandboxes.{
  terminate_record, SandboxInfo, finish_failed_creation,
}
use litellm_gateway.Manager.Backend.Creation.{undo_container, keep_expired}
use litellm_gateway.Manager.Program.{
  SandboxRecord, is_exception, or_fail, cancelled, out_of_turns, state_error, workspace_not_found,
  sandbox_not_found, operation_not_found, authorization_error, conflict_error, execution_error,
  other_error, spawns, reads, looks, runner, clock, loop_time, fresh_hex, sleeps, acquires,
  releases, volume_create, container_start, container_reload, container_logs, container_list,
  network_get, network_connect, image_get, docker_info, volume_get, volume_remove, dockered, look,
  pop_record, rescue_if, backend_error,
}
use litellm_gateway.Manager.Program.Only.{
  dockered-Only, look-Only, store-Only, then-Only, done-Only, suppress-Only, bind-Only, now-Only,
  raises-Only,
}
use litellm_gateway.Manager.Backend.Volumes.{remove_volume}
use litellm_gateway.Manager.Backend.Storing.{
  ignore, finish_sandbox, delete_workspace, delete_unless_used,
}
use litellm_gateway.Manager.Backend.{get_record, found_record}
use litellm_gateway.Manager.Backend.Sandboxes.{release_files}

-- Is there no container, after the removal of one or before the creation?
abbrev pub confirms : Reply (Unit {0}) → Bool
confirms (replied u) = true
confirms (failed (missing text)) = true
confirms (failed e) = false

abbrev is_created : Reply String → Bool → Bool
is_created (replied container) gone = false
is_created (failed e) gone = gone

-- Is the container `c` gone, after an answer?
abbrev gone_told : String → (d : DockerCall) → Bool → Reply (Told d) → Bool
gone_told c (container_remove d) gone x = if d == c then confirms x || gone else gone
gone_told c (container_create image spec) gone x = is_created x gone
gone_told c d gone x = gone

abbrev gone_after : String → (command : Command) → Bool → Answer command → Bool
gone_after c (docker d) gone x = gone_told c d gone x
gone_after c _ gone x = gone

abbrev Ready : Bool → Call → Type 0
Ready gone (finishes sid status workspace_status timestamp) = gone ≡ true
Ready gone (deletes workspace_id) = gone ≡ true
Ready gone _ = Unit

abbrev Unused : Bool → DockerCall → Type 0
Unused gone (volume_remove name) = gone ≡ true
Unused gone _ = Unit

abbrev Forgets : Bool → TableCall → Type 0
Forgets gone (pop_record sandbox_id container) = gone ≡ true
Forgets gone _ = Unit

-- A command that gives something of a Sandbox up - its row, its Workspace's row, a volume or its
-- record - only where its container is gone.
abbrev May : Bool → Command → Type 0
May gone (stores c) = Ready gone c
May gone (docker d) = Unused gone d
May gone (looks t) = Forgets gone t
May gone _ = Unit

-- A program that gives a Sandbox up only once the container `c` is gone, whatever the answers are.
pub IsOrderly : {A : Type 0} → String → Bool → Program A → Type 0
IsOrderly c gone (done a) = Unit
IsOrderly c gone (raises e) = Unit
IsOrderly c gone (call command k) =
    May gone command × ((x : Answer command) → IsOrderly c (gone_after c command gone x) (k x))

-- A command that creates no container.
abbrev pub NotCreating : DockerCall → Type 0
NotCreating (container_create image spec) = ⊥
NotCreating _ = Unit

abbrev pub Removing : Command → Type 0
Removing (docker d) = NotCreating d
Removing _ = Unit

stays_gone : (h : String) (c : Command) → Removing c → (x : Answer c) → gone_after h c true x ≡ true
stays_gone c (stores d) h x = refl
stays_gone c (docker (container_remove d)) h x = either_true (d == c) (confirms x)
  where
    either_true : (b y : Bool) → (if b then y || true else true) ≡ true
    either_true b y = ground arith
stays_gone c (docker (container_create image spec)) h x = elim h [ ]
stays_gone c (docker (volume_create n labels)) h x = refl
stays_gone c (docker (volume_get n)) h x = refl
stays_gone c (docker (volume_remove n)) h x = refl
stays_gone c (docker (container_start n)) h x = refl
stays_gone c (docker (container_reload n)) h x = refl
stays_gone c (docker (container_logs n)) h x = refl
stays_gone c (docker container_list) h x = refl
stays_gone c (docker (network_get n)) h x = refl
stays_gone c (docker (network_connect n d)) h x = refl
stays_gone c (docker (image_get n)) h x = refl
stays_gone c (docker docker_info) h x = refl
stays_gone c (reads q) h x = refl
stays_gone c (looks t) h x = refl
stays_gone c (runner r) h x = refl
stays_gone c clock h x = refl
stays_gone c loop_time h x = refl
stays_gone c fresh_hex h x = refl
stays_gone c sleeps h x = refl
stays_gone c (acquires j) h x = refl
stays_gone c (releases j) h x = refl
stays_gone c (spawns t) h x = refl

Ready-gone : (c : Call) → Ready true c
Ready-gone (finishes a b c t) = refl
Ready-gone (creates a b c t) = tt
Ready-gone (deletes a) = refl
Ready-gone (schedules a t u) = tt
Ready-gone (transitions a b c t) = tt
Ready-gone (claims a b c d t u) = tt
Ready-gone (marks a t) = tt
Ready-gone (renews a t) = tt
Ready-gone (opens a b c d e f t) = tt
Ready-gone (updates a b c d e t) = tt
Ready-gone (commits a b c d e t) = tt
Ready-gone (consumes a t u) = tt

Unused-gone : (d : DockerCall) → Unused true d
Unused-gone (volume_remove n) = refl
Unused-gone (container_remove d) = tt
Unused-gone (container_create image spec) = tt
Unused-gone (volume_create n labels) = tt
Unused-gone (volume_get n) = tt
Unused-gone (container_start n) = tt
Unused-gone (container_reload n) = tt
Unused-gone (container_logs n) = tt
Unused-gone container_list = tt
Unused-gone (network_get n) = tt
Unused-gone (network_connect n d) = tt
Unused-gone (image_get n) = tt
Unused-gone docker_info = tt

Forgets-gone : (t : TableCall) → Forgets true t
Forgets-gone (pop_record sandbox_id container) = refl
Forgets-gone (lookup_record sandbox_id) = tt
Forgets-gone (put_record record_) = tt
Forgets-gone (extend_record sandbox_id till) = tt
Forgets-gone all_records = tt

May-gone : (c : Command) → May true c
May-gone (stores c) = Ready-gone c
May-gone (docker d) = Unused-gone d
May-gone (reads q) = tt
May-gone (looks t) = Forgets-gone t
May-gone (runner r) = tt
May-gone clock = tt
May-gone loop_time = tt
May-gone fresh_hex = tt
May-gone sleeps = tt
May-gone (acquires j) = tt
May-gone (releases j) = tt
May-gone (spawns t) = tt

-- With the container gone, a program that creates none is in order.
pub removed-IsOrderly :
    {A : Type 0} (c : String) (m : Program A) → Only Removing m → IsOrderly c true m
unfolding IsOrderly
removed-IsOrderly c (done a) h = tt
removed-IsOrderly c (raises e) h = tt
removed-IsOrderly c (call command k) h = (
  May-gone command,
  λ x.
      subst (λ gone. IsOrderly c gone (k x))
        (sym (stays_gone c command (command-Only command k h) x))
        (removed-IsOrderly c (k x) (answered-Only command k h x)),
)
