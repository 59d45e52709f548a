-- ===== src/Adapter/Registry.antt =====
-- src/codex_responses_adapter/store.py: `ResponseStore`, the responses and the active executions of a
-- process by the id of the response. A dict is the list of its items; none as a result is a
-- ResponseNotFoundError. Every method holds the lock while it works, so each is one step.
pub mod Latest
use litellm_gateway.Prelude.{
  String, Bool, true, false, Option, none, some, List, [], ◌∷◌, ◌==◌, if◌then◌else◌,
}

module _ {A : Type 0} where
  -- d.get(key)
  unfoldable pub entry : String → List (String × A) → Option A
  entry k [] = none
  entry k ((l, v) ∷ rest) = if l == k then some v else entry k rest

  -- d[key] = value
  unfoldable pub enter : String → A → List (String × A) → List (String × A)
  enter k v [] = (k, v) ∷ []
  enter k v ((l, w) ∷ rest) =
      let more = enter k v rest in if l == k then (l, v) ∷ rest else (l, w) ∷ more

  -- d.pop(key, None)
  unfoldable pub leave : String → List (String × A) → List (String × A)
  leave k [] = []
  leave k ((l, w) ∷ rest) = let more = leave k rest in if l == k then rest else (l, w) ∷ more

  abbrev pub values : List (String × A) → List A
  values [] = []
  values ((k, v) ∷ rest) = v ∷ values rest

module _ (Response Execution : Type 0) where
  pub record ResponseStore : Type 0 where
    pub records : List (String × Response)
    pub active : List (String × Execution)

module _ {Response Execution : Type 0} where
  abbrev pub empty : ResponseStore Response Execution
  empty = record { records = []; active = [] }

  abbrev pub put :
      String → Response → ResponseStore Response Execution → ResponseStore Response Execution
  put id r s = record s { records = enter id r s.records }

  abbrev pub get : String → ResponseStore Response Execution → Option Response
  get id s = entry id s.records

  abbrev pub delete :
      String → ResponseStore Response Execution → Option Response × ResponseStore Response Execution
  delete id s = (entry id s.records, record s { records = leave id s.records })

  abbrev pub register_active :
      String → Execution → ResponseStore Response Execution → ResponseStore Response Execution
  register_active id e s = record s { active = enter id e s.active }

  abbrev pub get_active : String → ResponseStore Response Execution → Option Execution
  get_active id s = entry id s.active

  abbrev pub unregister_active :
      String → ResponseStore Response Execution → ResponseStore Response Execution
  unregister_active id s = record s { active = leave id s.active }

  abbrev pub active_executions : ResponseStore Response Execution → List Execution
  active_executions s = values s.active
