-- ===== src/Manager/Backend/Order/Gone.antt =====
-- `terminate`, the handler of `create` and the start-up of src/sandbox_manager/docker_backend.py give a
-- Sandbox up after its container is gone.
use mathlib.Core.Path.{subst}
use litellm_gateway.Prelude.{sym, ◌||◌, String, ◌≡◌, refl, Bool, false, Option, none, some}
use litellm_gateway.Prelude.{if◌then◌else◌, ◌==◌, ap, eq_refl, fun_ext}
use litellm_gateway.Prelude.Json.{Json, str, Fields, get}
use litellm_gateway.Manager.State.{
  Workspace, Sandbox, Result, ok, err, not_found, conflict, integrity, assertion,
}
use litellm_gateway.Manager.Backend.Startup.{
  finish_of, finish_found, finish_reconciled_sandbox, remove_runtime, remove_orphan, finish_removed,
  discard,
}
use litellm_gateway.Manager.Program.{Listed}
use litellm_gateway.Manager.State.History.{deletes, finishes}
use litellm_gateway.Manager.Program.{
  Error, missing, key_error, Reply, replied, failed, Program, done, raises, call, ◌>>=◌, ◌>>◌,
  rescue, DockerCall,
}
use litellm_gateway.Manager.Program.Only.{Only, only_rules}
use litellm_gateway.Manager.Backend.{
  Environment, is_docker_not_found, is_backend_error, remove_container,
}
use litellm_gateway.Manager.Backend.Sandboxes.{
  terminate_record, SandboxInfo, finish_failed_creation,
}
use litellm_gateway.Manager.Backend.Creation.{undo_container, keep_expired}
use litellm_gateway.Manager.Program.{
  SandboxRecord, is_exception, or_fail, cancelled, out_of_turns, state_error, workspace_not_found,
  sandbox_not_found, operation_not_found, authorization_error, conflict_error, execution_error,
  other_error, volume_get, volume_remove, dockered, look, pop_record, rescue_if, backend_error,
}
use litellm_gateway.Manager.Program.Only.{
  dockered-Only, look-Only, store-Only, then-Only, done-Only, suppress-Only, bind-Only, now-Only,
  raises-Only,
}
use litellm_gateway.Manager.Backend.Volumes.{remove_volume}
use litellm_gateway.Manager.Backend.Storing.{
  ignore, finish_sandbox, delete_workspace, delete_unless_used,
}
use litellm_gateway.Manager.Backend.Sandboxes.{release_files}
use litellm_gateway.Manager.Backend.Order.{
  confirms, IsOrderly, NotCreating, Removing, removed-IsOrderly,
}

asked-Removing : (d : DockerCall) → NotCreating d → Only Removing (dockered d)
asked-Removing d h = dockered-Only d h

remove_volume-Removing : (name : String) → Only Removing (remove_volume name)
unfolding remove_volume
remove_volume-Removing name =
    suppress-Only _ _
      (then-Only _ _ (asked-Removing (volume_get name) tt) (asked-Removing (volume_remove name) tt))

finish_sandbox-Removing :
    (sandbox_id status workspace_status : String)
    → Only Removing (finish_sandbox sandbox_id status workspace_status)
unfolding finish_sandbox ignore
finish_sandbox-Removing sandbox_id status workspace_status = suppress-Only _ _ (
    bind-Only _ _
      (bind-Only _ _ (now-Only tt)
        (λ timestamp. store-Only (finishes sandbox_id status workspace_status timestamp) tt))
      (λ w. done-Only tt))

delete_unless_used-Removing :
    (workspace_id : String) → Only Removing (delete_unless_used workspace_id)
unfolding delete_unless_used delete_workspace
delete_unless_used-Removing workspace_id = suppress-Only _ _ (store-Only (deletes workspace_id) tt)

ruleset removing_rules =
    (only_rules, remove_volume-Removing, finish_sandbox-Removing, delete_unless_used-Removing)

finish_failed_creation-Removing :
    (sandbox_id : String) (workspace : Workspace)
    → Only Removing (finish_failed_creation sandbox_id workspace)
unfolding finish_failed_creation
finish_failed_creation-Removing sandbox_id workspace = search removing_rules

release_files-Removing :
    (env : Environment) (record_ : SandboxRecord) → Only Removing (release_files env record_)
unfolding release_files
release_files-Removing env record_ = search removing_rules

-- The removal of a container, with its answer.
unfoldable removal_told : Reply (Unit {0}) → Program (Unit {0})
removal_told x =
    rescue_if is_exception (rescue_if is_docker_not_found (or_fail x) (λ e. done tt))
      (λ e. raises (backend_error "Failed to remove Sandbox"))

told-IsOrderly :
    {A : Type 0} (c : String) (x : Reply (Unit {0})) (rest : Program A)
    → Only Removing rest
    → IsOrderly c (confirms x || false) (removal_told x >> rest)
unfolding IsOrderly removal_told rescue_if rescue ◌>>=◌ ◌>>◌
told-IsOrderly c (replied u) rest h = removed-IsOrderly c rest h
told-IsOrderly c (failed (missing text)) rest h = removed-IsOrderly c rest h
told-IsOrderly c (failed (key_error t)) rest h = tt
told-IsOrderly c (failed (state_error f)) rest h = tt
told-IsOrderly c (failed workspace_not_found) rest h = tt
told-IsOrderly c (failed (sandbox_not_found t)) rest h = tt
told-IsOrderly c (failed operation_not_found) rest h = tt
told-IsOrderly c (failed (authorization_error t)) rest h = tt
told-IsOrderly c (failed (conflict_error t)) rest h = tt
told-IsOrderly c (failed (backend_error t)) rest h = tt
told-IsOrderly c (failed (execution_error t)) rest h = tt
told-IsOrderly c (failed (other_error t)) rest h = tt
told-IsOrderly c (failed cancelled) rest h = tt
told-IsOrderly c (failed out_of_turns) rest h = tt

same_container : (c : String) (y : Bool) → (if c == c then y || false else false) ≡ (y || false)
same_container c y = rw (eq_refl c) refl

-- What follows the removal of a container is in order, whatever the removal is answered.
removal-IsOrderly :
    {A : Type 0} (container : String) (rest : Program A)
    → Only Removing rest
    → IsOrderly container false (remove_container container >> rest)
unfolding IsOrderly remove_container dockered rescue_if rescue ◌>>=◌ ◌>>◌ removal_told
removal-IsOrderly container rest h = (
  tt,
  λ x.
      subst (λ gone. IsOrderly container gone (removal_told x >> rest))
        (sym (same_container container (confirms x))) (told-IsOrderly container x rest h),
)

kept-IsOrderly :
    {A : Type 0} (c : String) (x : Reply (Unit {0})) (record_ : SandboxRecord) (rest : Program A)
    → Only Removing rest
    → IsOrderly c
        (confirms x || false)
        (rescue_if is_backend_error (removal_told x) (λ f. keep_expired record_) >> rest)
unfolding IsOrderly removal_told keep_expired look rescue_if rescue ◌>>=◌ ◌>>◌
kept-IsOrderly c (replied u) record_ rest h = removed-IsOrderly c rest h
kept-IsOrderly c (failed (missing text)) record_ rest h = removed-IsOrderly c rest h
kept-IsOrderly c (failed (key_error t)) record_ rest h = (tt, λ u. tt)
kept-IsOrderly c (failed (state_error f)) record_ rest h = (tt, λ u. tt)
kept-IsOrderly c (failed workspace_not_found) record_ rest h = (tt, λ u. tt)
kept-IsOrderly c (failed (sandbox_not_found t)) record_ rest h = (tt, λ u. tt)
kept-IsOrderly c (failed operation_not_found) record_ rest h = (tt, λ u. tt)
kept-IsOrderly c (failed (authorization_error t)) record_ rest h = (tt, λ u. tt)
kept-IsOrderly c (failed (conflict_error t)) record_ rest h = (tt, λ u. tt)
kept-IsOrderly c (failed (backend_error t)) record_ rest h = (tt, λ u. tt)
kept-IsOrderly c (failed (execution_error t)) record_ rest h = (tt, λ u. tt)
kept-IsOrderly c (failed (other_error t)) record_ rest h = (tt, λ u. tt)
kept-IsOrderly c (failed cancelled) record_ rest h = tt
kept-IsOrderly c (failed out_of_turns) record_ rest h = tt

record-IsOrderly :
    (env : Environment) (record_ : SandboxRecord)
    → IsOrderly record_.container false (terminate_record env record_)
unfolding terminate_record
record-IsOrderly env record_ = removal-IsOrderly record_.container _ (
    then-Only _ _ (look-Only (pop_record record_.sandbox_id record_.container) tt)
      (search (removing_rules, release_files-Removing)))

undo_container-IsOrderly :
    (workspace : Workspace) (record_ : SandboxRecord) (e : Error)
    → IsOrderly record_.container false (undo_container workspace record_ e)
unfolding IsOrderly undo_container remove_container dockered rescue_if rescue ◌>>=◌ ◌>>◌
    removal_told
undo_container-IsOrderly workspace record_ e = (
  tt,
  λ x.
      subst
        (λ gone. IsOrderly {A = SandboxInfo} record_.container gone (
          rescue_if is_backend_error (removal_told x) (λ f. keep_expired record_)
          >> (finish_failed_creation record_.sandbox_id workspace >> raises e)))
        (sym (same_container record_.container (confirms x)))
        (kept-IsOrderly record_.container x record_ _ (
          then-Only _ _ (finish_failed_creation-Removing record_.sandbox_id workspace)
            (raises-Only e))),
)

finish_of-Removing : (b : Sandbox) (workspace : Workspace) → Only Removing (finish_of b workspace)
unfolding finish_of
finish_of-Removing b workspace = search removing_rules

finish_found-Removing :
    (b : Sandbox) (found : Result Workspace) → Only Removing (finish_found b found)
unfolding finish_found
finish_found-Removing b (ok workspace) = finish_of-Removing b workspace
finish_found-Removing b (err not_found) = search removing_rules
finish_found-Removing b (err conflict) = search removing_rules
finish_found-Removing b (err integrity) = search removing_rules
finish_found-Removing b (err assertion) = search removing_rules

finish_reconciled_sandbox-Removing : (b : Sandbox) → Only Removing (finish_reconciled_sandbox b)
unfolding finish_reconciled_sandbox
finish_reconciled_sandbox-Removing b = search (removing_rules, finish_found-Removing)

remove_runtime-Removing : (v : Json) → Only Removing (remove_runtime v)
unfolding remove_runtime
remove_runtime-Removing (str s) = search removing_rules
remove_runtime-Removing _ = search removing_rules

remove_orphan-Removing :
    (env : Environment) (kind v : Json) → Only Removing (remove_orphan env kind v)
unfolding remove_orphan
remove_orphan-Removing env kind (str s) = search removing_rules
remove_orphan-Removing env kind _ = search removing_rules

finish_removed-Removing :
    (env : Environment) (row : Option Sandbox) (labels : Fields)
    → Only Removing (finish_removed env row labels)
unfolding finish_removed
finish_removed-Removing env none labels = search (removing_rules, remove_orphan-Removing)
finish_removed-Removing env (some b) labels =
    search (removing_rules, finish_reconciled_sandbox-Removing)

bind_assoc :
    {A B C : Type 0} (m : Program A) (f : A → Program B) (g : B → Program C)
    → (m >>= f >>= g) ≡ (m >>= λ a. f a >>= g)
unfolding ◌>>=◌
bind_assoc (done a) f g = refl
bind_assoc (raises e) f g = refl
bind_assoc (call c k) f g = ap (call c) (fun_ext (λ x. bind_assoc (k x) f g))

discard-IsOrderly :
    (env : Environment) (container : Listed) (row : Option Sandbox)
    → IsOrderly container.container false (discard env container row)
unfolding discard ◌>>◌
discard-IsOrderly env container row =
    let label = get "io.litellm-codex-gateway.sandbox-id" container.labels in
    subst (IsOrderly container.container false)
      (sym (
        bind_assoc (remove_container container.container) (λ _. remove_runtime label)
          (λ _. finish_removed env row container.labels)))
      (removal-IsOrderly container.container
        (remove_runtime label >> finish_removed env row container.labels)
        (then-Only _ _ (remove_runtime-Removing label)
          (finish_removed-Removing env row container.labels)))

-- Three ways to give a Sandbox up wait until its own container is gone: `terminate` with the record that
-- it found, the handler of `create` where there is a container, and the start-up's removal of a
-- container. Whatever Docker, the store and the table answer, the row of the Sandbox is finished, the row
-- of its Workspace deleted, a volume removed and the record popped only after Docker has removed that
-- very container, or has said that it does not exist; a refused or cancelled removal leaves all of them.
pub container_gone_first :
    (env : Environment) (workspace : Workspace) (record_ : SandboxRecord) (e : Error)
    (container : Listed) (row : Option Sandbox)
    → IsOrderly record_.container false (terminate_record env record_)
      × IsOrderly record_.container false (undo_container workspace record_ e)
      × IsOrderly container.container false (discard env container row)
container_gone_first env workspace record_ e container row = (
  record-IsOrderly env record_,
  undo_container-IsOrderly workspace record_ e,
  discard-IsOrderly env container row,
)
