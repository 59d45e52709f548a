-- ===== src/Manager/Program.antt =====
-- The methods of src/sandbox_manager/docker_backend.py as programs: what a method asks for, one command
-- after the other, and how it goes on with each answer.
--
-- A command is a call of the store (src/sandbox_manager/state.py), of the backend's table of records,
-- of a lock, of the clock, or of what the backend does not implement: Docker and the operation runner,
-- of which any answer is allowed, an exception or the task's cancellation included. asyncio changes
-- tasks only where a method awaits; here it may do so before every command.
pub mod Only
use litellm_gateway.Prelude.{
  ℕ, String, Bool, true, false, Option, none, some, List, [], ◌∷◌, if◌then◌else◌,
}
use litellm_gateway.Prelude.Json.{Json, Fields}
use litellm_gateway.Manager.State.{Workspace, Sandbox, Operation, StateError, Result, ok, err}
use litellm_gateway.Manager.State.History.{
  Call, creates, deletes, schedules, transitions, claims, marks, renews, finishes, opens, updates,
  commits, consumes,
}

-- What a method may raise, with a text. `state_error` comes from the store; `missing` is docker's
-- NotFound and `key_error` KeyError; `cancelled` is CancelledError, which is no Exception.
-- `out_of_turns` is no exception of the source: it ends a loop of the model that has no fuel left.
pub data Error : Type 0 where
  state_error : StateError → Error
  workspace_not_found : Error
  sandbox_not_found : String → Error
  operation_not_found : Error
  authorization_error : String → Error
  conflict_error : String → Error
  backend_error : String → Error
  execution_error : String → Error
  missing : String → Error
  key_error : String → Error
  other_error : String → Error
  cancelled : Error
  out_of_turns : Error

abbrev pub is_exception : Error → Bool
is_exception cancelled = false
is_exception out_of_turns = false
is_exception _ = true

-- What an external call does.
pub data Reply (A : Type 0) : Type 0 where
  replied : A → Reply A
  failed : Error → Reply A

-- `_SandboxRecord`. A container is known by a handle.
pub record SandboxRecord : Type 0 where
  pub sandbox_id : String
  pub workspace_id : String
  pub workspace_volume : String
  pub recoverable : Bool
  pub container : String
  pub worker_host : String
  pub created_at : ℕ
  pub expires_at : ℕ

-- A container that Docker lists, with its labels.
pub record Listed : Type 0 where
  pub container : String
  pub labels : Fields

-- The coroutines that the backend gives to a task of its own.
pub data Task : Type 0 where
  checkpoints : String → Task
  retires : String → Task
  restores : Operation → Task
  transfers : Operation → Fields → Task

-- What a writing method of the store returns.
abbrev pub Returned : Call → Type 0
Returned (creates _ _ _ _) = Workspace
Returned (deletes _) = Unit
Returned (schedules _ _ _) = Workspace
Returned (transitions _ _ _ _) = Workspace
Returned (claims _ _ _ _ _ _) = Workspace × Sandbox
Returned (marks _ _) = Unit
Returned (renews _ _) = Sandbox
Returned (finishes _ _ _ _) = Workspace
Returned (opens _ _ _ _ _ _ _) = Operation × Bool
Returned (updates _ _ _ _ _ _) = Operation
Returned (commits _ _ _ _ _ _) = Workspace × Operation
Returned (consumes _ _ _) = Bool

-- The reading methods of the store.
pub data Query : Type 0 where
  workspace_of : String → Query
  sandbox_of : String → Query
  operation_of : String → Query
  live_sandboxes : Query
  open_operations : Query
  with_status : List String → Query
  due_for_retirement : ℕ → Query
  due_for_cleanup : ℕ → Query

abbrev pub Found : Query → Type 0
Found (workspace_of _) = Result Workspace
Found (sandbox_of _) = Result Sandbox
Found (operation_of _) = Result Operation
Found live_sandboxes = List Sandbox
Found open_operations = List Operation
Found (with_status _) = List Workspace
Found (due_for_retirement _) = List Workspace
Found (due_for_cleanup _) = List Workspace

-- The calls of `self._records`. A record is popped if it is the one of that container; `extend_record`
-- tells whether there is one.
pub data TableCall : Type 0 where
  lookup_record : String → TableCall
  put_record : SandboxRecord → TableCall
  pop_record : (sandbox_id container : String) → TableCall
  extend_record : (sandbox_id : String) (expires_at : ℕ) → TableCall
  all_records : TableCall

abbrev pub Looked : TableCall → Type 0
Looked (lookup_record _) = Option SandboxRecord
Looked (put_record _) = Unit
Looked (pop_record _ _) = Unit
Looked (extend_record _ _) = Bool
Looked all_records = List SandboxRecord

pub data DockerCall : Type 0 where
  volume_create : (name : String) (labels : Fields) → DockerCall
  volume_get : String → DockerCall
  volume_remove : String → DockerCall
  container_create : (image : String) (spec : Fields) → DockerCall
  container_start : String → DockerCall
  container_reload : String → DockerCall
  container_logs : String → DockerCall
  container_remove : String → DockerCall
  container_list : DockerCall
  network_get : String → DockerCall
  network_connect : (network container : String) → DockerCall
  image_get : String → DockerCall
  docker_info : DockerCall

-- A reload tells the container's status and its attributes; a network its attributes.
abbrev pub Told : DockerCall → Type 0
Told (volume_create _ _) = Unit
Told (volume_get _) = Unit
Told (volume_remove _) = Unit
Told (container_create _ _) = String
Told (container_start _) = Unit
Told (container_reload _) = String × Fields
Told (container_logs _) = String
Told (container_remove _) = Unit
Told container_list = List Listed
Told (network_get _) = Fields
Told (network_connect _ _) = Unit
Told (image_get _) = Unit
Told docker_info = Json

-- The operation runner.
pub data RunnerCall : Type 0 where
  run_prepare : Workspace → RunnerCall
  run_checkpoint : String → Workspace → RunnerCall
  run_restore : String → Workspace → String → RunnerCall
  run_retire : String → Workspace → RunnerCall
  run_checkout :
      String → Workspace → (user_message_id assistant_message_id : String) → Json → RunnerCall
  run_capture : String → Workspace → (source : String) → ℕ → RunnerCall
  run_upload : String → Workspace → (url token : String) → RunnerCall

pub data Command : Type 0 where
  stores : Call → Command
  reads : Query → Command
  looks : TableCall → Command
  docker : DockerCall → Command
  runner : RunnerCall → Command
  clock : Command
  loop_time : Command
  fresh_hex : Command
  sleeps : Command
  acquires : String → Command
  releases : String → Command
  spawns : Task → Command

abbrev pub Answer : Command → Type 0
Answer (stores c) = Result (Returned c)
Answer (reads q) = Found q
Answer (looks t) = Looked t
Answer (docker d) = Reply (Told d)
Answer (runner r) = Reply Fields
Answer clock = ℕ
Answer loop_time = ℕ
Answer fresh_hex = String
Answer sleeps = Reply Unit
Answer (acquires k) = Reply Unit
Answer (releases k) = Unit
Answer (spawns t) = Unit

pub data Program (A : Type 0) : Type 0 where
  done : A → Program A
  raises : Error → Program A
  call : (c : Command) → (Answer c → Program A) → Program A

infixl 5 ◌>>=◌
unfoldable pub ◌>>=◌ : {A B : Type 0} → Program A → (A → Program B) → Program B
done a >>= f = f a
raises e >>= f = raises e
call c k >>= f = call c (λ x. k x >>= f)

infixl 5 ◌>>◌
unfoldable pub ◌>>◌ : {A : Type 0} → Program (Unit {0}) → Program A → Program A
m >> n = m >>= λ _. n

-- try: m / except: h
unfoldable pub rescue : {A : Type 0} → Program A → (Error → Program A) → Program A
rescue (done a) h = done a
rescue (raises e) h = h e
rescue (call c k) h = call c (λ x. rescue (k x) h)

-- except of the errors of a test: the others are raised again
unfoldable pub rescue_if :
    {A : Type 0} → (Error → Bool) → Program A → (Error → Program A) → Program A
rescue_if test m h = rescue m (λ e. if test e then h e else raises e)

-- with suppress(…)
unfoldable pub suppress : (Error → Bool) → Program (Unit {0}) → Program (Unit {0})
suppress test m = rescue_if test m (λ e. done tt)

-- try: m / finally: r
unfoldable pub finally : {A : Type 0} → Program A → Program (Unit {0}) → Program A
finally m r = rescue m (λ e. r >>= λ _. raises e) >>= λ a. r >>= λ _. done a

unfoldable pub unless : Bool → Error → Program (Unit {0})
unless b e = if b then done tt else raises e

unfoldable pub when : Bool → Program (Unit {0}) → Program (Unit {0})
when b m = if b then m else done tt

-- for x in xs: body(x)
unfoldable pub each : {A : Type 0} → List A → (A → Program (Unit {0})) → Program (Unit {0})
each [] body = done tt
each (x ∷ xs) body = body x >>= λ _. each xs body

abbrev pub or_raise : {A : Type 0} → Result A → Program A
or_raise (ok a) = done a
or_raise (err e) = raises (state_error e)

abbrev pub or_fail : {A : Type 0} → Reply A → Program A
or_fail (replied a) = done a
or_fail (failed e) = raises e

unfoldable pub store : (c : Call) → Program (Returned c)
store c = call (stores c) or_raise

unfoldable pub ask : (q : Query) → Program (Found q)
ask q = call (reads q) done

unfoldable pub look : (t : TableCall) → Program (Looked t)
look t = call (looks t) done

unfoldable pub dockered : (d : DockerCall) → Program (Told d)
dockered d = call (docker d) or_fail

unfoldable pub runs : RunnerCall → Program Fields
runs r = call (runner r) or_fail

unfoldable pub now : Program ℕ
now = call clock done

unfoldable pub hex : Program String
hex = call fresh_hex done

unfoldable pub sleep : Program (Unit {0})
sleep = call sleeps or_fail

unfoldable pub spawn : Task → Program (Unit {0})
spawn t = call (spawns t) done

-- async with lock: m
unfoldable pub locked : {A : Type 0} → String → Program A → Program A
locked k m = call (acquires k) (λ x. or_fail x >>= λ _. finally m (call (releases k) done))
