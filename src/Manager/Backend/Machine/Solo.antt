-- ===== src/Manager/Backend/Machine/Solo.antt =====
-- A task of the Manager that runs alone, with answers of Docker, of the runner and of the clock that a
-- world fixes.
use litellm_gateway.Prelude.{ℕ, String, Bool, true, false, List, [], ◌∷◌, ◌++◌, ◌≡◌, refl}
use litellm_gateway.Prelude.Json.{Fields}
use litellm_gateway.Manager.State.{one_of}
use litellm_gateway.Manager.Program.{
  Program, done, raises, call, Command, stores, reads, looks, docker, runner, clock, loop_time,
  fresh_hex, sleeps, acquires, releases, spawns, Answer, Reply, replied, failed, DockerCall, Told,
  RunnerCall, cancelled,
}
use litellm_gateway.Manager.Backend.{Environment}
use litellm_gateway.Manager.Backend.Machine.{
  perform, find, told_by, System, Possible, moved, spawned, Reachable, moves,
}

pub record World : Type 0 where
  pub on_docker : (d : DockerCall) → Reply (Told d)
  pub on_runner : RunnerCall → Reply Fields
  pub time : ℕ
  pub fresh : String

abbrev entered : Bool → Reply (Unit {0})
entered true = failed cancelled
entered false = replied tt

abbrev answer : World → (c : Command) → System → Answer c
answer w (stores c) s = (perform c s.store).0
answer w (reads q) s = find q s.store
answer w (looks t) s = told_by t s.records
answer w (docker d) s = w.on_docker d
answer w (runner r) s = w.on_runner r
answer w clock s = w.time
answer w loop_time s = w.time
answer w fresh_hex s = w.fresh
answer w sleeps s = replied tt
answer w (acquires k) s = entered (one_of k s.held)
answer w (releases k) s = tt
answer w (spawns t) s = tt

answer-Possible : (w : World) (c : Command) (s : System) → Possible c s (answer w c s)
answer-Possible w (stores c) s = refl
answer-Possible w (reads q) s = refl
answer-Possible w (looks t) s = refl
answer-Possible w (docker d) s = tt
answer-Possible w (runner r) s = tt
answer-Possible w clock s = tt
answer-Possible w loop_time s = tt
answer-Possible w fresh_hex s = tt
answer-Possible w sleeps s = tt
answer-Possible w (releases k) s = tt
answer-Possible w (spawns t) s = tt
answer-Possible w (acquires k) s = if_free (one_of k s.held) refl
  where
    if_free : (b : Bool) → one_of k s.held ≡ b → Possible (acquires k) s (entered b)
    if_free true e = tt
    if_free false e = e

module _ (env : Environment) (w : World) where
  -- The system after the task; the tasks that it started wait.
  unfoldable pub alone : Program (Unit {0}) → System → List (Program (Unit {0})) → System
  alone (done a) s rest = s
  alone (raises e) s rest = s
  alone (call c k) s rest =
      alone (k (answer w c s)) (moved env s c (answer w c s) [] (k (answer w c s)) rest)
        (rest ++ spawned env c)

  pub alone-Reachable :
      (p : Program (Unit {0})) (s : System) (rest : List (Program (Unit {0})))
      → s.tasks ≡ p ∷ rest
      → Reachable env s
      → Reachable env (alone p s rest)
  unfolding alone
  alone-Reachable (done a) s rest e h = h
  alone-Reachable (raises e') s rest e h = h
  alone-Reachable (call c k) s rest e h =
      alone-Reachable (k (answer w c s)) _ (rest ++ spawned env c) refl
        (moves s [] rest c k (answer w c s) e (answer-Possible w c s) h)
