-- ===== src/Lib.antt =====
-- LiteLLM Responses gateway: the control and event paths of a service that runs Codex in Sandboxes.
--
-- A Sandbox Manager owns Workspaces (volumes) and Sandboxes (containers), and keeps its control state in
-- SQLite. A Sandbox Worker inside each Sandbox runs Codex and publishes its notifications in an event
-- log. A Responses adapter starts turns through the Worker, follows the log, and fans the events of one
-- response out to the clients that subscribe to it.
--
-- Which file models which part:
--
-- - Prelude: Boolean tests, lists, tables of rows with a key, JSON values, texts, and methods that may
--   raise.
-- - Manager/State and the files below it: src/sandbox_manager/state.py. `Store` holds the four tables of
--   the schema and `consumed_nonces`; Workspaces, Sandboxes, Operations and Candidates hold one function
--   per method of `StateStore`, named like it. A method is a function of the store into a result and a
--   store; `transaction` undoes the changes of a method that fails, as BEGIN IMMEDIATE and ROLLBACK do.
--   The constraints of the schema that a method can violate are the checks of `constrained`. History has
--   the calls of a client and their runs; the other files beside it hold what is proved.
-- - SandboxApi/Grants: src/sandbox_api/grants.py. The digest, base64 and JSON encoding are the fields
--   of `Signing`. Manager/Authorization: `DockerSandboxBackend._authorize` of
--   src/sandbox_manager/docker_backend.py, which verifies a grant and consumes its nonce.
-- - Manager/Program: the methods of `DockerSandboxBackend` (src/sandbox_manager/docker_backend.py) are
--   programs: trees of commands (a call of the store, of the table of records, of a lock, of the clock,
--   of Docker or of the operation runner), each of which goes on with every answer it may get. Program
--   has the combinators for `try`, `finally`, `suppress`, loops and locks, and Program/Only the programs
--   whose commands have a property.
-- - Manager/Settings: the settings that the backend reads, and `build_container_spec`. Manager/Backend
--   and the files below it hold one program per method: Volumes, Waiting (`_status`, `_wait_for_worker`),
--   Sandboxes (`inspect`, `renew`, `terminate`), Creation (`create`), Workspaces, Restores
--   (`_prepare_workspace`), Checkpoints (checkpoint, retire, clean), Claims and Requests
--   (`create_operation` as `operate`), Operations (`_execute_file_operation`), Startup and Reaper.
--   Storing has the calls of the store as the methods make them. Machine puts the tasks over one store:
--   a step is one command of any task, requests arrive at any time, and the Manager may stop and start
--   again; Machine/Solo runs one task alone. Only, Order, Waiting/Ends, Claims and
--   Operations/{Captures,Settled} hold what is proved of single programs.
-- - Worker/EventLog: src/sandbox_worker/event_log.py, and the loop of `WorkerRuntime.event_stream` in
--   src/sandbox_worker/app.py. A cursor is `start` for -1 and `at n` for n.
-- - Adapter/Registry: `ResponseStore` of src/codex_responses_adapter/store.py, over any types of
--   responses and executions.
-- - Artifacts/Upload: how `S3ArtifactStore.upload_and_commit` of src/artifact_service/store.py cuts a
--   body into parts, and `_match_existing`. The part size is an argument.
-- - Adapter/Execution: `ActiveExecution` of src/codex_responses_adapter/store.py. A queue is the list of
--   all that was put into it.
-- - Adapter/Response: `ResponseRecord` of src/codex_responses_adapter/models.py. Adapter/Values,
--   Adapter/Calls and Adapter/Builder: src/codex_responses_adapter/events.py, its helpers, the items of
--   MCP tool calls, and `ResponsesEventBuilder` with one function per method. A method is a function of
--   the record or the builder into a value, or `none` where it raises, and its new state.
--   json.dumps and urllib.parse.urlencode are the fields of a `Codec` that the functions take; urlencode
--   returns a text, where the one of Python raises on a lone surrogate.
-- - Adapter/Csp: `build_mcp_app_csp` of src/codex_responses_adapter/csp.py and its helpers. A text is cut at
--   ";" by the Prelude's `split_on`, Python's str.split.
-- - Examples: the code and the theorems at concrete inputs.
--
-- Conventions: time is a natural number of seconds that the caller passes, where the source reads
-- the clock; identifiers are strings; what json.dumps writes and json.loads reads back is the value
-- itself. Every loop of the modelled code is a recursion on a list, but two. The inner
-- loop of an upload: `flush` has the length of the buffer as fuel, and each turn takes at least one byte from
-- it where the part size is positive. The wait for a Worker has a turn for every 200 milliseconds of its
-- timeout and two more as fuel, since each turn sleeps that long.
--
-- Not modelled: Docker and what runs in its containers (any answer is allowed), the opening and closing of
-- the Manager's connections, logging, the object store, the HTTP routes and
-- clients, restic and the file system, the settings from the environment, the scripts and the
-- frontend. They are I/O or third-party code.
pub mod Prelude
pub mod SandboxApi
pub mod Manager
pub mod Worker
pub mod Adapter
pub mod Artifacts
pub mod Examples
