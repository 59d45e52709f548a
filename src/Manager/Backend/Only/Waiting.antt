-- ===== src/Manager/Backend/Only/Waiting.antt =====
-- What the methods of Manager/Backend/Waiting ask of the store: they finish no Sandbox into a live status.
use litellm_gateway.Prelude.{ℕ, zero, suc, String, ◌&&◌, [], ◌∷◌, ◌==◌, ltb}
use litellm_gateway.Prelude.Json.{Fields}
use litellm_gateway.Manager.State.{one_of}
use litellm_gateway.Manager.Program.{Program}
use litellm_gateway.Manager.Backend.Waiting.{
  status_of, current_time, raise_with_logs, after_reload, wait_until, wait_for_worker,
  health_status,
}
use litellm_gateway.Manager.Program.Only.{Only, bind-Only, then-Only, if-Only}
use litellm_gateway.Manager.Backend.Only.{Allowed, backend_rules, container_reload-Only, sleep-Only}

pub status_of-Only : (container : String) → Only Allowed (status_of container)
unfolding status_of
status_of-Only container = search backend_rules

current_time-Only : Only Allowed current_time
unfolding current_time
current_time-Only = search backend_rules

raise_with_logs-Only : (container : String) → Only Allowed (raise_with_logs container)
unfolding raise_with_logs
raise_with_logs-Only container = search backend_rules

after_reload-Only :
    (container : String) (again : Program (Unit {0})) (told : String × Fields)
    → Only Allowed again
    → Only Allowed (after_reload container again told)
unfolding after_reload
after_reload-Only container again (status, attrs) h =
    if-Only (one_of status ("exited" ∷ "dead" ∷ [])) _ _ (raise_with_logs-Only container) (
      if-Only (status == "running" && health_status attrs == "healthy") _ _ (search backend_rules) (
        if-Only (health_status attrs == "unhealthy") _ _ (raise_with_logs-Only container)
          (then-Only _ _ sleep-Only h)))

wait_until-Only :
    (deadline turns : ℕ) (container : String) → Only Allowed (wait_until deadline turns container)
unfolding wait_until
wait_until-Only deadline zero container = search backend_rules
wait_until-Only deadline (suc turns) container = bind-Only _ _ current_time-Only (λ time.
    if-Only (ltb time deadline) _ _
      (bind-Only _ _ (container_reload-Only container)
        (λ told. after_reload-Only container _ told (wait_until-Only deadline turns container)))
      (search backend_rules))

pub wait_for_worker-Only :
    (timeout : ℕ) (container : String) → Only Allowed (wait_for_worker timeout container)
unfolding wait_for_worker
wait_for_worker-Only timeout container = search (backend_rules, current_time-Only, wait_until-Only)
