-- ===== src/Manager/Backend/Waiting/Ends.antt =====
-- `_wait_for_worker` of src/sandbox_manager/docker_backend.py ends: its loop has a deadline, and each turn
-- sleeps.
use mathlib.Core.Bool.{false≢true}
use litellm_gateway.Prelude.{
  ℕ, zero, suc, ◌+◌, ◌-◌, ◌≡◌, refl, sym, ◌∙◌, ◌*◌, ◌/◌, ◌≤◌, ◌<◌, String, ◌≢◌, ap, [], ◌∷◌, Bool,
  true, false, ◌&&◌, ◌==◌, arith, inl, inr, Bool-cases, ltb, ltb→lt, if◌then◌else◌,
}
use litellm_gateway.Prelude.Json.{Fields}
use litellm_gateway.Manager.State.{one_of}
use litellm_gateway.Manager.Program.{
  Error, out_of_turns, backend_error, Reply, replied, failed, Command, docker, runner, DockerCall,
  Told, or_fail, loop_time, sleeps, acquires, Answer, Program, done, raises, call, ◌>>=◌, ◌>>◌,
  dockered, container_reload, sleep,
}
use litellm_gateway.Manager.Backend.Waiting.{
  raise_with_logs, after_reload, wait_until, wait_for_worker, current_time, health_status,
}

abbrev Genuine : {A : Type 0} → Reply A → Type 0
Genuine (replied a) = Unit
Genuine (failed e) = (e ≢ out_of_turns) × (e ≢ backend_error "Sandbox worker did not become ready")

-- An answer that fits: the clock, which was at `time`, does not go back, and what is asked
-- raises neither `out_of_turns` nor the error of a wait that is over.
abbrev pub Fits : (c : Command) → ℕ → Answer c → Type 0
Fits loop_time time x = time ≤ x
Fits sleeps time x = Genuine x
Fits (docker d) time x = Genuine x
Fits (runner r) time x = Genuine x
Fits (acquires k) time x = Genuine x
Fits _ time x = Unit

abbrev awake : ℕ → Reply (Unit {0}) → ℕ
awake time (replied u) = time + 200
awake time (failed e) = time

-- Running and healthy, as a reload tells it.
abbrev is_ready : Reply (String × Fields) → Bool
is_ready (replied (status, attrs)) = status == "running" && health_status attrs == "healthy"
is_ready (failed e) = false

-- What is known while a wait runs: the last reading of the clock, the earliest time that it can be, how
-- many reloads are left, and whether the last one told of a Worker that is ready.
pub record Watch : Type 0 where
  pub reading : ℕ
  pub time : ℕ
  pub reloads : ℕ
  pub ready : Bool

abbrev reloaded : (d : DockerCall) → Watch → Reply (Told d) → Watch
reloaded (container_reload c) w x = record w { reloads = w.reloads - 1; ready = is_ready x }
reloaded d w x = w

-- A sleep takes 200 milliseconds, where nothing cuts it short.
abbrev pub after : (c : Command) → Watch → Answer c → Watch
after loop_time w x = record w { reading = x; time = x }
after sleeps w x = record w { time = awake w.time x }
after (docker d) w x = reloaded d w x
after _ w x = w

abbrev Reloads : ℕ → DockerCall → Watch → Type 0
Reloads deadline (container_reload c) w = (w.reading < deadline) × (1 ≤ w.reloads)
Reloads deadline d w = Unit

-- A reload needs one that is left, and a last reading of the clock before the deadline.
abbrev pub Asks : ℕ → Command → Watch → Type 0
Asks deadline (docker d) w = Reloads deadline d w
Asks deadline _ w = Unit

abbrev pub not_ready : Error
not_ready = backend_error "Sandbox worker did not become ready"

-- A wait that reloads as `Asks` says, returns only when the Worker is ready, raises `not_ready` only at
-- the deadline or after it, and never runs out of turns.
unfoldable pub IsWaiting : ℕ → Watch → Program (Unit {0}) → Type 0
IsWaiting deadline w (done a) = w.ready ≡ true
IsWaiting deadline w (raises e) = (e ≢ out_of_turns) × (e ≡ not_ready → deadline ≤ w.reading)
IsWaiting deadline w (call c k) =
    Asks deadline c w × ((x : Answer c) → Fits c w.time x → IsWaiting deadline (after c w x) (k x))

abbrev first_reading : ℕ → ℕ → Watch
first_reading reloads start = record {
  reading = start;
  time = start;
  reloads = reloads;
  ready = false;
}

-- A program that reads the clock, and from then on waits for `timeout` with so many reloads.
unfoldable pub WaitsFor : (timeout reloads : ℕ) → Program (Unit {0}) → Type 0
WaitsFor timeout reloads (call loop_time k) =
    (start : ℕ) → IsWaiting (start + timeout) (first_reading reloads start) (k start)
WaitsFor timeout reloads _ = ⊥

is_turn : Error → Bool
is_turn out_of_turns = true
is_turn _ = false

not_turn : (text : String) → backend_error text ≢ out_of_turns
unfolding is_turn
not_turn text e = false≢true (ap is_turn e)

text_in : Error → String
text_in (backend_error text) = text
text_in _ = ""

other_text : backend_error "Sandbox worker failed" ≢ not_ready
unfolding text_in
other_text e = false≢true (sym (ap (λ f. text_in f == "Sandbox worker failed") e))

module _ (deadline : ℕ) where
  logs-IsWaiting :
      (w : Watch) (container : String) → IsWaiting deadline w (raise_with_logs container)
  unfolding IsWaiting raise_with_logs dockered ◌>>=◌
  logs-IsWaiting w container = (tt, answered)
    where
      answered :
          (x : Reply String)
          → Genuine x
          → IsWaiting deadline w
              (or_fail x >>= λ logs. raises (backend_error "Sandbox worker failed"))
      answered (replied logs) g = (not_turn "Sandbox worker failed", λ e. elim (other_text e) [ ])
      answered (failed e) g = (g.0, λ same. elim (g.1 same) [ ])

  sleep-IsWaiting :
      (w : Watch) (again : Program (Unit {0}))
      → IsWaiting deadline (record w { time = w.time + 200 }) again
      → IsWaiting deadline w (sleep >> again)
  unfolding IsWaiting sleep ◌>>=◌ ◌>>◌
  sleep-IsWaiting w again h = (tt, answered)
    where
      answered :
          (x : Reply (Unit {0}))
          → Genuine x
          → IsWaiting deadline (record w { time = awake w.time x }) (or_fail x >>= λ _. again)
      answered (replied u) g = h
      answered (failed e) g = (g.0, λ same. elim (g.1 same) [ ])

  told-IsWaiting :
      (w : Watch) (container : String) (again : Program (Unit {0})) (told : String × Fields)
      → w.ready ≡ is_ready (replied told)
      → IsWaiting deadline (record w { time = w.time + 200 }) again
      → IsWaiting deadline w (after_reload container again told)
  unfolding IsWaiting after_reload
  told-IsWaiting w container again (status, attrs) e h =
      if-IsWaiting (one_of status ("exited" ∷ "dead" ∷ [])) _ _ (λ _. logs-IsWaiting w container)
        (λ _.
          if-IsWaiting (status == "running" && health_status attrs == "healthy") _ _
            (λ ready. e ∙ ready)
            (λ _.
              if-IsWaiting (health_status attrs == "unhealthy") _ _
                (λ _. logs-IsWaiting w container) (λ _. sleep-IsWaiting w again h)))
    where
      if-IsWaiting :
          (b : Bool) (m n : Program (Unit {0}))
          → (b ≡ true → IsWaiting deadline w m)
          → (b ≡ false → IsWaiting deadline w n)
          → IsWaiting deadline w (if b then m else n)
      if-IsWaiting true m n h k = h refl
      if-IsWaiting false m n h k = k refl

  -- A turn of the loop.
  turn-IsWaiting :
      (w : Watch) (container : String) (again : Program (Unit {0}))
      → (w.reading < deadline → 1 ≤ w.reloads)
      → ((ready : Bool)
          → w.reading < deadline
          → IsWaiting deadline
              (record w { time = w.time + 200; reloads = w.reloads - 1; ready = ready })
              again)
      → IsWaiting deadline w (
          if ltb w.reading deadline
          then (dockered (container_reload container) >>= λ told. after_reload container again told)
          else raises not_ready)
  unfolding IsWaiting dockered ◌>>=◌
  turn-IsWaiting w container again some_left h = elim (Bool-cases (ltb w.reading deadline)) [
    | inl e ↦
        let early = ltb→lt w.reading deadline e in rw e ((early, some_left early), answered early)
    | inr e ↦ rw e (not_turn "Sandbox worker did not become ready", λ same. ground arith)
  ]
    where
      answered :
          w.reading < deadline
          → (x : Reply (String × Fields)) → Genuine x
          → IsWaiting deadline
              (record w { reloads = w.reloads - 1; ready = is_ready x })
              (or_fail x >>= λ told. after_reload container again told)
      answered early (replied told) g = told-IsWaiting _ container again told refl (h _ early)
      answered early (failed e) g = (g.0, λ same. elim (g.1 same) [ ])

  turns-IsWaiting :
      (turns : ℕ) (w : Watch) (container : String)
      → deadline ≤ w.time + 200 * turns
      → deadline ≤ w.time + 200 * w.reloads
      → IsWaiting deadline w (wait_until deadline (suc turns) container)
  unfolding IsWaiting wait_until current_time ◌>>=◌
  turns-IsWaiting zero w container h k = (
    tt,
    λ x le.
        turn-IsWaiting (record w { reading = x; time = x }) container _
          (λ early. omega (arith, h, k, le, early)) (λ ready early. elim (late x le early) [ ]),
  )
    where
      late : (x : ℕ) → w.time ≤ x → x < deadline → ⊥
      late x le early = omega (arith, h, le, early)
  turns-IsWaiting (suc turns) w container h k = (
    tt,
    λ x le.
        turn-IsWaiting (record w { reading = x; time = x }) container _
          (λ early. omega (arith, k, le, early))
          (λ ready early.
            turns-IsWaiting turns
              (record { reading = x; time = x + 200; reloads = w.reloads - 1; ready = ready })
              container (omega (arith, h, le)) (omega (arith, k, le, early))),
  )

-- The wait for a Worker ends, with an answer that is right. The clock of the event loop does not go back,
-- a sleep that nothing cuts short takes 200 milliseconds, and Docker raises neither error of the wait
-- itself. Then the wait asks Docker for the state at most once for each 200 milliseconds of the timeout
-- that have begun, and only while its last reading of the clock is before the deadline; it returns
-- only when the last answer told of a container that runs and is healthy; it raises that the Worker did
-- not become ready only when its last reading is at the deadline or after it; and it has turns enough.
pub wait_ends :
    (timeout : ℕ) (container : String)
    → WaitsFor timeout ((timeout + 199) / 200) (wait_for_worker timeout container)
unfolding WaitsFor wait_for_worker current_time ◌>>=◌
wait_ends timeout container start =
    turns-IsWaiting (start + timeout) (suc (timeout / 200))
      (first_reading ((timeout + 199) / 200) start) container (omega arith) (omega arith)
