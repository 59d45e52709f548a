-- ===== src/Manager/Backend/Waiting.antt =====
-- src/sandbox_manager/docker_backend.py: what a container's attributes say of its health, `_status`, and
-- `_wait_for_worker`. The loop's clock is in milliseconds.
pub mod Ends
use litellm_gateway.Prelude.{
  ℕ, zero, suc, ◌+◌, ◌/◌, String, not, ◌&&◌, ◌||◌, [], ◌∷◌, ◌==◌, if◌then◌else◌, ltb,
}
use litellm_gateway.Prelude.Json.{Json, str, obj, Fields, end, get}
use litellm_gateway.Manager.State.{one_of}
use litellm_gateway.Manager.Program.{
  backend_error, out_of_turns, Program, done, raises, call, ◌>>=◌, ◌>>◌, dockered, container_reload,
  container_logs, sleep, loop_time,
}

abbrev pub dict_in : Json → Fields
dict_in (obj d) = d
dict_in _ = end

abbrev text_or_missing : Json → String
text_or_missing (str s) = s
text_or_missing _ = "missing"

-- _health_status, of container.attrs
unfoldable pub health_status : Fields → String
health_status attrs =
    text_or_missing (get "Status" (dict_in (get "Health" (dict_in (get "State" attrs)))))

unfoldable pub status_told : String × Fields → String
status_told (status, attrs) =
    if not (status == "running") || not (health_status attrs == "healthy")
    then "failed"
    else "running"

-- _status
unfoldable pub status_of : String → Program String
status_of container = dockered (container_reload container) >>= λ told. done (status_told told)

unfoldable pub current_time : Program ℕ
current_time = call loop_time done

unfoldable pub raise_with_logs : String → Program (Unit {0})
raise_with_logs container =
    dockered (container_logs container) >>= λ logs. raises (backend_error "Sandbox worker failed")

-- A turn of the loop after the reload: `return`, `raise`, or sleep and go on.
unfoldable pub after_reload : String → Program (Unit {0}) → String × Fields → Program (Unit {0})
after_reload container again (status, attrs) =
    if one_of status ("exited" ∷ "dead" ∷ [])
    then raise_with_logs container
    else (if status == "running" && health_status attrs == "healthy"
        then done tt
        else (if health_status attrs == "unhealthy"
            then raise_with_logs container
            else sleep >> again))

-- `while time() < deadline`, with `turns` left.
unfoldable pub wait_until : ℕ → ℕ → String → Program (Unit {0})
wait_until deadline zero container = raises out_of_turns
wait_until deadline (suc turns) container = current_time >>= λ time.
    if ltb time deadline
    then (dockered (container_reload container) >>= λ told.
        after_reload container (wait_until deadline turns container) told)
    else raises (backend_error "Sandbox worker did not become ready")

-- A turn for every 200 milliseconds of the timeout, and two more.
unfoldable pub wait_for_worker : ℕ → String → Program (Unit {0})
wait_for_worker timeout container =
    current_time >>= λ start. wait_until (start + timeout) (suc (suc (timeout / 200))) container
