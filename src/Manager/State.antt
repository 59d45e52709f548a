-- ===== src/Manager/State.antt =====
-- src/sandbox_manager/state.py: the rows, the tables and the transactions of the Manager's control
-- state. The methods of `StateStore` are in the modules below.
--
-- A statement acts on the whole database and may raise; what it wrote before a raise stays until
-- the transaction rolls back. The clock is an argument, as the parameter `now` is in the source;
-- an exception keeps its class and not its text.
pub mod Workspaces
pub mod Sandboxes
pub mod Operations
pub mod Candidates
pub mod Outcomes
pub mod Lookups
pub mod Writers
pub mod History
pub mod Exclusion
pub mod Fencing
pub mod Replay
pub mod Idempotency
use litellm_gateway.Prelude.{
  ℕ, String, Bool, true, false, Option, none, some, List, [], ◌∷◌, ◌==◌, ◌||◌, if◌then◌else◌,
}
use litellm_gateway.Prelude.Json.{Json}

pub record Workspace : Type 0 where
  pub id : String
  pub kind : String
  pub status : String
  pub volume_name : String
  pub generation : ℕ
  pub head_revision : Option String
  pub active_sandbox_id : Option String
  pub created_at : ℕ
  pub updated_at : ℕ
  pub delete_after : Option ℕ

pub record Sandbox : Type 0 where
  pub id : String
  pub workspace_id : String
  pub worker_host : String
  pub container_name : String
  pub status : String
  pub created_at : ℕ
  pub expires_at : Option ℕ

pub record Operation : Type 0 where
  pub id : String
  pub operation : String
  pub status : String
  pub phase : Option String
  pub workspace_id : String
  pub sandbox_id : Option String
  pub idempotency_key : String
  pub input : Json
  pub result : Option Json
  pub error : Option String
  pub created_at : ℕ
  pub updated_at : ℕ

pub record Revision : Type 0 where
  pub id : String
  pub workspace_id : String
  pub snapshot_id : String
  pub created_at : ℕ

pub record Nonce : Type 0 where
  pub nonce : String
  pub expires_at : ℕ
  pub consumed_at : ℕ

-- The tables that `startup` creates.
pub record Store : Type 0 where
  pub workspaces : List Workspace
  pub sandboxes : List Sandbox
  pub revisions : List Revision
  pub operations : List Operation
  pub consumed_nonces : List Nonce

-- StateNotFoundError, StateConflictError, sqlite3.IntegrityError, AssertionError.
pub data StateError : Type 0 where
  not_found conflict integrity assertion : StateError

pub data Result (A : Type 0) : Type 0 where
  ok : A → Result A
  err : StateError → Result A

abbrev pub Tx : Type 0 → Type 0
Tx A = Store → Result A × Store

module _ {A B : Type 0} where
  abbrev pub continue : Result A → (A → Tx B) → Tx B
  continue (ok a) f s = f a s
  continue (err e) f s = (err e, s)

  infixl 5 ◌>>=◌
  abbrev pub ◌>>=◌ : Tx A → (A → Tx B) → Tx B
  ◌>>=◌ m f s = continue (m s).0 f (m s).1

infixl 5 ◌>>◌
abbrev pub ◌>>◌ : {B : Type 0} → Tx (Unit {0}) → Tx B → Tx B
m >> k = m >>= λ _. k

abbrev pub pure : {A : Type 0} → A → Tx A
pure a s = (ok a, s)

abbrev found : {A : Type 0} → Option A → StateError → Result A
found none e = err e
found (some a) e = ok a

-- A SELECT of one row, and what is raised where there is none.
abbrev pub select : {A : Type 0} → (Store → Option A) → StateError → Tx A
select q e s = (found (q s) e, s)

-- A SELECT of rows.
abbrev pub gets : {A : Type 0} → (Store → A) → Tx A
gets q s = (ok (q s), s)

-- `if not b: raise e`
abbrev pub require : Bool → StateError → Tx (Unit {0})
require b e s = if b then (ok tt, s) else (err e, s)

-- A statement that a constraint may refuse.
abbrev pub constrained : (Store → Bool) → (Store → Store) → Tx (Unit {0})
constrained p g s = if p s then (ok tt, g s) else (err integrity, s)

-- An UPDATE or DELETE; `changing` returns its rowcount.
abbrev pub write : (Store → Store) → Tx (Unit {0})
write g s = (ok tt, g s)

abbrev pub changing : (Store → ℕ) → (Store → Store) → Tx ℕ
changing q g s = (ok (q s), g s)

rollback : {A : Type 0} → Store → Result A × Store → Result A × Store
rollback s (ok a, s') = (ok a, s')
rollback s (err e, s') = (err e, s)

-- transaction(): BEGIN IMMEDIATE; COMMIT where the body returns, ROLLBACK where it raises.
pub transaction : {A : Type 0} → Tx A → Tx A
unfolding rollback
transaction m s = rollback s (m s)

-- value in {…}
unfoldable pub one_of : String → List String → Bool
one_of x [] = false
one_of x (y ∷ ys) = x == y || one_of x ys
