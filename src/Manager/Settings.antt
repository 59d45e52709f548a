-- ===== src/Manager/Settings.antt =====
-- src/sandbox_manager/settings.py: the settings that the backend reads, and
-- `build_container_spec` of src/sandbox_manager/docker_backend.py.
--
-- Numbers that only go into a container's specification are kept as their texts. `Outside` is what the
-- backend takes from Python's hmac, hashlib and urllib.
use litellm_gateway.Prelude.{
  ℕ, String, Bool, true, false, Option, none, some, List, [], ◌∷◌, ◌==◌, if◌then◌else◌,
}
use litellm_gateway.Prelude.Json.{Json, bool, int, pos, str, arr, obj, Fields, set, dict, array}
use litellm_gateway.Prelude.Text.{concat, split_on, strip, join_with, decimal}
use litellm_gateway.SandboxApi.Grants.{Signing}

pub record Outside : Type 0 where
  pub signing : Signing
  pub worker_digest : (secret sandbox_id : String) → String
  pub sha256_hex_32 : String → String
  pub scheme_of : String → String
  pub has_host : String → Bool

pub record ManagerSettings : Type 0 where
  pub worker_token_secret : String
  pub operation_signing_secret : String
  pub operation_grant_issuer : String
  pub workspace_delete_grace_seconds : ℕ
  pub workspace_local_retention_seconds : ℕ
  pub storage_enabled : Bool
  pub storage_ops_image : String
  pub operation_runtime : String
  pub storage_network : String
  pub publish_spool_volume : String
  pub artifact_transfer_base_url : String
  pub sandbox_image : String
  pub docker_runtime : String
  pub rpc_network : String
  pub egress_network : String
  pub resolv_conf_file : Option String
  pub egress_proxy_url : String
  pub internal_no_proxy : String
  pub worker_port : ℕ
  pub worker_start_timeout_milliseconds : ℕ
  pub execution_ttl_seconds : ℕ
  pub memory_limit : String
  pub nano_cpus : ℕ
  pub pids_limit : ℕ
  pub tmpfs_limit : String
  pub container_user : String
  pub codex_command : String
  pub codex_model : Option String
  pub codex_auth_file : Option String
  pub codex_config_file : Option String
  pub mcp_apps_enabled : Bool

-- [name.strip() for name in names if name.strip()]
unfoldable pub stripped_names : List String → List String
stripped_names [] = []
stripped_names (name ∷ names) =
    let rest = stripped_names names in if strip name == "" then rest else strip name ∷ rest

-- 44 is the comma.
unfoldable pub internal_no_proxy_names : ManagerSettings → List String
unfolding stripped_names
internal_no_proxy_names s = stripped_names (split_on 44 s.internal_no_proxy)

abbrev mount : String → String → Json
mount target mode = obj (dict (("bind", str target) ∷ ("mode", str mode) ∷ []))

abbrev with_file : Option String → String → Fields → Fields
with_file none target volumes = volumes
with_file (some path) target volumes = set path (mount target "ro") volumes

abbrev or_blank : Option String → String
or_blank none = ""
or_blank (some s) = s

abbrev pub legacy_workspace_volume : String → String
legacy_workspace_volume sandbox_id = concat "sandbox-workspace-" sandbox_id

abbrev pub runtime_state_volume : String → String
runtime_state_volume sandbox_id = concat "sandbox-runtime-" sandbox_id

unfoldable pub worker_environment : ManagerSettings → String → Fields
worker_environment s worker_api_key = dict (
    ("SANDBOX_WORKER_API_KEY", str worker_api_key)
    ∷ ("SANDBOX_WORKER_HOST", str "0.0.0.0")
    ∷ ("SANDBOX_WORKER_PORT", str (decimal s.worker_port))
    ∷ ("SANDBOX_WORKER_CODEX_COMMAND", str s.codex_command)
    ∷ ("SANDBOX_WORKER_CODEX_WORKDIR", str "/workspace/work")
    ∷ ("SANDBOX_WORKER_CODEX_MODEL", str (or_blank s.codex_model))
    ∷ ("SANDBOX_WORKER_MCP_APPS_ENABLED", str (if s.mcp_apps_enabled then "true" else "false"))
    ∷ ("HTTP_PROXY", str s.egress_proxy_url)
    ∷ ("HTTPS_PROXY", str s.egress_proxy_url)
    ∷ ("ALL_PROXY", str s.egress_proxy_url)
    ∷ ("NO_PROXY", str (join_with "," ("127.0.0.1" ∷ "localhost" ∷ internal_no_proxy_names s)))
    ∷ [])

unfoldable pub worker_volumes : ManagerSettings → String → String → Fields
worker_volumes s sandbox_id workspace_volume = with_file s.resolv_conf_file "/etc/resolv.conf" (
    with_file s.codex_config_file "/home/agent/.codex/config.toml" (
      with_file s.codex_auth_file "/home/agent/.codex/auth.json" (
        set (runtime_state_volume sandbox_id) (mount "/home/agent/.codex" "rw")
          (dict ((workspace_volume, mount "/workspace" "rw") ∷ [])))))

-- `workspace_id` and `workspace_volume` are given by every caller.
unfoldable pub build_container_spec :
    ManagerSettings
    → (sandbox_id worker_host worker_api_key workspace_id workspace_volume : String) → Bool
    → ℕ
    → Fields
unfolding worker_environment worker_volumes
build_container_spec s sandbox_id worker_host worker_api_key workspace_id workspace_volume
      recoverable created_at =
    dict (
      ("name", str worker_host)
      ∷ ("hostname", str worker_host)
      ∷ ("init", bool true)
      ∷ ("runtime", str s.docker_runtime)
      ∷ ("network", str s.rpc_network)
      ∷ ("environment", obj (worker_environment s worker_api_key))
      ∷ ("volumes", obj (worker_volumes s sandbox_id workspace_volume))
      ∷ (
        "labels",
        obj (
            dict (
              ("io.litellm-codex-gateway.managed", str "true")
              ∷ ("io.litellm-codex-gateway.role", str "worker")
              ∷ ("io.litellm-codex-gateway.sandbox-id", str sandbox_id)
              ∷ ("io.litellm-codex-gateway.workspace-id", str workspace_id)
              ∷ (
                "io.litellm-codex-gateway.workspace-kind",
                str (if recoverable then "recoverable" else "ephemeral"),
              )
              ∷ ("io.litellm-codex-gateway.created-at", str (decimal created_at))
              ∷ ("io.litellm-codex-gateway.worker-host", str worker_host)
              ∷ [])),
      )
      ∷ ("privileged", bool false)
      ∷ ("cap_drop", arr (array (str "ALL" ∷ [])))
      ∷ ("security_opt", arr (array (str "no-new-privileges:true" ∷ [])))
      ∷ ("read_only", bool true)
      ∷ ("user", str s.container_user)
      ∷ ("mem_limit", str s.memory_limit)
      ∷ ("nano_cpus", int (pos s.nano_cpus))
      ∷ ("pids_limit", int (pos s.pids_limit))
      ∷ (
        "tmpfs",
        obj (
            dict (
              ("/tmp", str (concat "rw,nosuid,nodev,size=" s.tmpfs_limit))
              ∷ ("/run", str "rw,nosuid,nodev,size=16m")
              ∷ [])),
      )
      ∷ [])
