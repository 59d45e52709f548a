-- ===== src/Adapter/Registry/Latest.antt =====
-- What `ResponseStore` of src/codex_responses_adapter/store.py returns after any history.
use litellm_gateway.Prelude.{
  ◌≡◌, refl, ap, ◌∙◌, String, Option, none, some, List, [], ◌∷◌, ◌==◌, eq_iff, if◌then◌else◌, arith,
  Bool-cases, inl, inr,
}
use litellm_gateway.Adapter.Registry.{
  entry, enter, leave, ResponseStore, empty, put, get, delete, register_active, get_active,
  unregister_active,
}

-- The calls that change a store.
pub data Change (Response Execution : Type 0) : Type 0 where
  puts : String → Response → Change Response Execution
  deletes : String → Change Response Execution
  registers : String → Execution → Change Response Execution
  unregisters : String → Change Response Execution

module _ {A : Type 0} where
  -- No key stands twice.
  pub Distinct : List (String × A) → Type 0
  Distinct [] = Unit
  Distinct ((l, v) ∷ rest) = (entry l rest ≡ none) × Distinct rest

  entry-enter :
      (k l : String) (v : A) (d : List (String × A))
      → entry l (enter k v d) ≡ (if k == l then some v else entry l d)
  unfolding entry enter
  entry-enter k l v [] = refl
  entry-enter k l v ((m, w) ∷ d) =
      ground (arith, eq_iff m k, eq_iff k l, eq_iff m l, entry-enter k l v d)

  entry-leave :
      (k l : String) (d : List (String × A))
      → Distinct d
      → entry l (leave k d) ≡ (if k == l then none else entry l d)
  unfolding entry leave Distinct
  entry-leave k l [] h = ground arith
  entry-leave k l ((m, w) ∷ d) h =
      ground (arith, eq_iff m k, eq_iff k l, eq_iff m l, entry-leave k l d h.1, h.0)

  enter-Distinct :
      (k : String) (v : A) (d : List (String × A)) → Distinct d → Distinct (enter k v d)
  unfolding enter Distinct entry
  enter-Distinct k v [] h = (refl, tt)
  enter-Distinct k v ((m, w) ∷ d) h = elim (Bool-cases (m == k)) [
    | inl e ↦ rw e h
    | inr e ↦
        rw e (
          ground (arith, eq_iff m k, eq_iff k m, entry-enter k m v d, h.0),
          enter-Distinct k v d h.1,
        )
  ]

  leave-Distinct : (k : String) (d : List (String × A)) → Distinct d → Distinct (leave k d)
  unfolding leave Distinct
  leave-Distinct k [] h = tt
  leave-Distinct k ((m, w) ∷ d) h = elim (Bool-cases (m == k)) [
    | inl e ↦ rw e h.1
    | inr e ↦
        rw e (
          ground (arith, eq_iff k m, eq_iff m k, entry-leave k m d h.1, h.0),
          leave-Distinct k d h.1,
        )
  ]

module _ {Response Execution : Type 0} where
  abbrev pub change :
      Change Response Execution
      → ResponseStore Response Execution
      → ResponseStore Response Execution
  change (puts k r) s = put k r s
  change (deletes k) s = (delete k s).1
  change (registers k e) s = register_active k e s
  change (unregisters k) s = unregister_active k s

  abbrev pub change_all :
      List (Change Response Execution)
      → ResponseStore Response Execution
      → ResponseStore Response Execution
  change_all [] s = s
  change_all (c ∷ cs) s = change_all cs (change c s)

  -- What was put last under an id, if it was not deleted since; `o` before the history.
  abbrev pub last_put :
      String → Option Response → List (Change Response Execution) → Option Response
  last_put id o [] = o
  last_put id o (puts k r ∷ cs) = last_put id (if k == id then some r else o) cs
  last_put id o (deletes k ∷ cs) = last_put id (if k == id then none else o) cs
  last_put id o (registers k e ∷ cs) = last_put id o cs
  last_put id o (unregisters k ∷ cs) = last_put id o cs

  abbrev pub last_registered :
      String → Option Execution → List (Change Response Execution) → Option Execution
  last_registered id o [] = o
  last_registered id o (puts k r ∷ cs) = last_registered id o cs
  last_registered id o (deletes k ∷ cs) = last_registered id o cs
  last_registered id o (registers k e ∷ cs) = last_registered id (if k == id then some e else o) cs
  last_registered id o (unregisters k ∷ cs) = last_registered id (if k == id then none else o) cs

  record AreDistinct (s : ResponseStore Response Execution) : Type 0 where
    records : Distinct s.records
    active : Distinct s.active

  change-AreDistinct :
      (c : Change Response Execution) (s : ResponseStore Response Execution)
      → AreDistinct s
      → AreDistinct (change c s)
  change-AreDistinct (puts k r) s h = record {
    records = enter-Distinct k r s.records h.records;
    active = h.active;
  }
  change-AreDistinct (deletes k) s h = record {
    records = leave-Distinct k s.records h.records;
    active = h.active;
  }
  change-AreDistinct (registers k e) s h = record {
    records = h.records;
    active = enter-Distinct k e s.active h.active;
  }
  change-AreDistinct (unregisters k) s h = record {
    records = h.records;
    active = leave-Distinct k s.active h.active;
  }

  get-change_all :
      (id : String) (cs : List (Change Response Execution)) (s : ResponseStore Response Execution)
      → AreDistinct s
      → get id (change_all cs s) ≡ last_put id (get id s) cs
  get-change_all id [] s h = refl
  get-change_all id (c ∷ cs) s h =
      get-change_all id cs (change c s) (change-AreDistinct c s h) ∙ one c
    where
      one :
          (c : Change Response Execution)
          → last_put id (get id (change c s)) cs ≡ last_put id (get id s) (c ∷ cs)
      one (puts k r) = ap (λ o. last_put id o cs) (entry-enter k id r s.records)
      one (deletes k) = ap (λ o. last_put id o cs) (entry-leave k id s.records h.records)
      one (registers k e) = refl
      one (unregisters k) = refl

  get_active-change_all :
      (id : String) (cs : List (Change Response Execution)) (s : ResponseStore Response Execution)
      → AreDistinct s
      → get_active id (change_all cs s) ≡ last_registered id (get_active id s) cs
  get_active-change_all id [] s h = refl
  get_active-change_all id (c ∷ cs) s h =
      get_active-change_all id cs (change c s) (change-AreDistinct c s h) ∙ one c
    where
      one :
          (c : Change Response Execution)
          → last_registered id (get_active id (change c s)) cs
            ≡ last_registered id (get_active id s) (c ∷ cs)
      one (puts k r) = refl
      one (deletes k) = refl
      one (registers k e) = ap (λ o. last_registered id o cs) (entry-enter k id e s.active)
      one (unregisters k) = ap (λ o. last_registered id o cs) (entry-leave k id s.active h.active)

  empty-AreDistinct : AreDistinct empty
  unfolding Distinct
  empty-AreDistinct = record { records = tt; active = tt }

-- After any history of a new store, `get` returns the response that was put last under the id if it was
-- not deleted since, and raises otherwise; `get_active` returns the execution that was registered last
-- under the id if it was not unregistered since, and None otherwise.
pub latest_returned :
    {Response Execution : Type 0} (id : String) (cs : List (Change Response Execution))
    → (get id (change_all cs empty) ≡ last_put id none cs)
      × (get_active id (change_all cs empty) ≡ last_registered id none cs)
unfolding entry
latest_returned id cs = (
  get-change_all id cs empty empty-AreDistinct,
  get_active-change_all id cs empty empty-AreDistinct,
)
