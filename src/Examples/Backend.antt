-- ===== src/Examples/Backend.antt =====
-- src/sandbox_manager/docker_backend.py at concrete requests.
use litellm_gateway.Prelude.{
  ℕ, String, Bool, true, false, Option, none, some, List, [], ◌∷◌, ◌++◌, ◌≡◌, refl, sym, inl, inr,
  ◌==◌, In, All,
}
use litellm_gateway.Prelude.Text.{concat}
use litellm_gateway.Prelude.Json.{Json, null, str, obj, Fields, end, dict}
use litellm_gateway.Manager.State.{Sandbox}
use litellm_gateway.Manager.Program.{
  Reply, replied, failed, missing, DockerCall, Told, volume_create, volume_get, volume_remove,
  container_create, container_start, container_reload, container_logs, container_remove,
  container_list, network_get, network_connect, image_get, docker_info, RunnerCall, Program,
}
use mathlib.Core.Path.{subst}
use litellm_gateway.Manager.State.History.{empty}
use litellm_gateway.Manager.Backend.Machine.Histories.{backend_single_writer}
use litellm_gateway.Manager.Settings.{Outside, ManagerSettings}
use litellm_gateway.Manager.Backend.{Environment}
use litellm_gateway.Manager.Backend.Startup.{start_up}
use litellm_gateway.Manager.Backend.Machine.{
  System, Reachable, starts, arrives, creates_sandbox, handle,
}
use litellm_gateway.Manager.Backend.Machine.Solo.{World, alone, alone-Reachable}
use litellm_gateway.Examples.Authorization.{signing}

abbrev outside : Outside
outside = record {
  signing = signing;
  worker_digest = λ secret sandbox_id. concat sandbox_id "==";
  sha256_hex_32 = λ s. s;
  scheme_of = λ url. "http";
  has_host = λ url. true;
}

abbrev settings : ManagerSettings
settings = record {
  worker_token_secret = "secret";
  operation_signing_secret = "k";
  operation_grant_issuer = "adapter";
  workspace_delete_grace_seconds = 60;
  workspace_local_retention_seconds = 60;
  storage_enabled = true;
  storage_ops_image = "ops";
  operation_runtime = "runsc";
  storage_network = "storage";
  publish_spool_volume = "spool";
  artifact_transfer_base_url = "http://artifacts";
  sandbox_image = "worker";
  docker_runtime = "runsc";
  rpc_network = "rpc";
  egress_network = "egress";
  resolv_conf_file = none;
  egress_proxy_url = "http://proxy";
  internal_no_proxy = "";
  worker_port = 8080;
  worker_start_timeout_milliseconds = 1000;
  execution_ttl_seconds = 600;
  memory_limit = "1g";
  nano_cpus = 1;
  pids_limit = 64;
  tmpfs_limit = "64m";
  container_user = "1000";
  codex_command = "codex";
  codex_model = none;
  codex_auth_file = none;
  codex_config_file = none;
  mcp_apps_enabled = false;
}

abbrev pub env : Environment
env = record { outside = outside; settings = settings; has_runner = true }

abbrev healthy : Fields
healthy =
    dict (("State", obj (dict (("Health", obj (dict (("Status", str "healthy") ∷ []))) ∷ []))) ∷ [])

abbrev on_docker : (d : DockerCall) → Reply (Told d)
on_docker (volume_create name labels) = replied tt
on_docker (volume_get name) = failed (missing name)
on_docker (volume_remove name) = replied tt
on_docker (container_create image spec) = replied "container"
on_docker (container_start c) = replied tt
on_docker (container_reload c) = replied ("running", healthy)
on_docker (container_logs c) = replied ""
on_docker (container_remove c) = replied tt
on_docker container_list = replied []
on_docker (network_get name) = replied end
on_docker (network_connect name c) = replied tt
on_docker (image_get name) = replied tt
on_docker docker_info = replied null

abbrev world : World
world = record { on_docker = on_docker; on_runner = λ r. replied end; time = 100; fresh = "a1" }

abbrev started : System
started = record {
  store = empty;
  records = [];
  held = [];
  tasks = handle env (creates_sandbox none) ∷ start_up env ∷ [];
}

started-Reachable :
    Reachable env (alone env world (handle env (creates_sandbox none)) started (start_up env ∷ []))
started-Reachable =
    alone-Reachable env world (handle env (creates_sandbox none)) started (start_up env ∷ []) refl
      (arrives _ (creates_sandbox none) starts)

abbrev created : Sandbox
created = record {
  id = "sandbox_a1";
  workspace_id = "workspace_a1";
  worker_host = "sandbox-worker-a1";
  container_name = "sandbox-worker-a1";
  status = "running";
  created_at = 100;
  expires_at = some 700;
}

sandboxes_created :
    (alone env world
      (handle env (creates_sandbox none))
      started
      (start_up env ∷ [])).store.sandboxes
    ≡ created ∷ []
unfolding alone handle litellm_gateway.Manager.Program.◌>>=◌ litellm_gateway.Manager.Program.◌>>◌
    litellm_gateway.Manager.Program.rescue litellm_gateway.Manager.Program.rescue_if
    litellm_gateway.Manager.Program.suppress litellm_gateway.Manager.Program.finally
    litellm_gateway.Manager.Program.unless litellm_gateway.Manager.Program.when
    litellm_gateway.Manager.Program.each litellm_gateway.Manager.Program.store
    litellm_gateway.Manager.Program.ask litellm_gateway.Manager.Program.look
    litellm_gateway.Manager.Program.dockered litellm_gateway.Manager.Program.runs
    litellm_gateway.Manager.Program.now litellm_gateway.Manager.Program.hex
    litellm_gateway.Manager.Program.sleep litellm_gateway.Manager.Program.spawn
    litellm_gateway.Manager.Program.locked litellm_gateway.Manager.Backend.workspace_volume
    litellm_gateway.Manager.Backend.get_workspace litellm_gateway.Manager.Backend.remove_container
    litellm_gateway.Manager.Backend.Storing.ignore
    litellm_gateway.Manager.Backend.Storing.mark_sandbox_running
    litellm_gateway.Manager.Backend.Storing.delete_unless_used
    litellm_gateway.Manager.Backend.Volumes.ensure_workspace_volume
    litellm_gateway.Manager.Backend.Volumes.volume_exists
    litellm_gateway.Manager.Backend.Volumes.create_runtime_volume
    litellm_gateway.Manager.Backend.Restores.prepare_workspace
    litellm_gateway.Manager.Backend.Restores.prepare_current
    litellm_gateway.Manager.Backend.Restores.without_volume
    litellm_gateway.Manager.Backend.Restores.restore_if_remote
    litellm_gateway.Manager.Backend.Waiting.wait_for_worker
    litellm_gateway.Manager.Backend.Waiting.wait_until
    litellm_gateway.Manager.Backend.Waiting.after_reload
    litellm_gateway.Manager.Backend.Waiting.current_time
    litellm_gateway.Manager.Backend.Waiting.health_status
    litellm_gateway.Manager.Backend.Creation.create
    litellm_gateway.Manager.Backend.Creation.create_in
    litellm_gateway.Manager.Backend.Creation.create_ephemeral
    litellm_gateway.Manager.Backend.Creation.choose_workspace
    litellm_gateway.Manager.Backend.Creation.prepare litellm_gateway.Manager.Backend.Creation.claim
    litellm_gateway.Manager.Backend.Creation.launch
    litellm_gateway.Manager.Backend.Creation.create_container
    litellm_gateway.Manager.Backend.Creation.start_container
    litellm_gateway.Manager.Backend.Creation.record_of
    litellm_gateway.Manager.Backend.Sandboxes.info
    litellm_gateway.Manager.Backend.Sandboxes.worker_api_key
    litellm_gateway.Manager.Backend.Sandboxes.connection
    litellm_gateway.Manager.Backend.Machine.perform litellm_gateway.Manager.Backend.Machine.find
    litellm_gateway.Manager.Backend.Machine.told_by
    litellm_gateway.Manager.Backend.Machine.changed_by
    litellm_gateway.Manager.State.Workspaces.create_workspace
    litellm_gateway.Manager.State.Workspaces.get_workspace
    litellm_gateway.Manager.State.Sandboxes.claim_workspace
    litellm_gateway.Manager.State.Sandboxes.mark_sandbox_running
    litellm_gateway.Prelude.Table.find_by litellm_gateway.Prelude.Table.any_where
    litellm_gateway.Prelude.Table.update_where litellm_gateway.Prelude.Table.count_where
    litellm_gateway.Prelude.Table.delete_where litellm_gateway.Prelude.Text.after_prefix
    litellm_gateway.Prelude.Text.rstrip litellm_gateway.Prelude.Json.get
    litellm_gateway.Prelude.Json.dict
sandboxes_created = refl

abbrev after_creation : System
after_creation = alone env world (handle env (creates_sandbox none)) started (start_up env ∷ [])

created-In : In created after_creation.store.sandboxes
created-In = subst (In created) (sym sandboxes_created) (inl refl)

backend_single_writer_example : created.id ≡ created.id
backend_single_writer_example =
    backend_single_writer env after_creation started-Reachable created created created-In created-In
      refl refl refl
