-- ===== src/Lib.antt =====
-- MissionForge: the contract and control layer of the package src/missionforge.
--
-- MissionForge runs work that is described by a frozen task contract. Agents (PiWorkers) do the work;
-- the program checks what they may read, write and call, and moves a flow from step to step on the
-- decisions that they write. All that crosses a boundary is a JSON value with refs: relative paths
-- into the workspace.
--
-- The parts and the files:
-- Text: Python's `str` as a list of code points, with the methods that the program calls; equality,
--   splitting, stripping and the decimal format of numbers. Value: the values that the contract checks
--   tell apart. Outcome: exceptions as values, with the class and the check that raised. Platform: what
--   Python and its library decide (Unicode tables, SHA-256, ISO dates), as a parameter.
-- Contracts (src/missionforge/contracts.py): `require_*`, `validate_ref`, `ensure_json_value` in
--   Contracts/Json, `assert_refs_only_payload` in Contracts/Payload. Contracts/Refs and
--   Contracts/Payload/Occurs have their meaning. Checks: what every module builds from these in the same
--   words.
-- TaskContract (src/missionforge/task_contract.py): TaskContract/Contract is `TaskContract` with its hash
--   and `freeze`, TaskContract/Clause its clauses, TaskContract/Revision `TaskContractRevision`; then
--   `WorkspacePolicy`, `PermissionManifest`, and the grants for extensions and progress streams.
-- Permissions (src/missionforge/permissions.py): `PermissionEnforcer` on a manifest.
-- RuntimeControl (src/missionforge/runtime_control.py): grants, sandbox profiles and requests;
--   RuntimeControl/Runner has `HostSandboxRunner.run`, which builds a permission manifest from the
--   profile and asks the enforcer, and `ToolGateway.dispatch` over any runner.
-- Kernel (src/missionforge/kernel): Kernel/Contracts and Kernel/Declaration are the declarations of
--   kernel/contracts.py and `Flow.validate`; Kernel/Route, Kernel/Ledger, Kernel/Snapshot, Kernel/Flow
--   and Kernel/Run are `run_flow` of kernel/runner.py, from the first check to the result.
-- Jsonl: the log files of JSON lines that src/missionforge/interaction.py writes and reads, in a root of
--   files; Text/Maps: dicts in their order.
-- DecisionLedger (src/missionforge/decision_ledger.py): entries, final packages and replay summaries
--   with their parsers; DecisionLedger/Replay has appending, reading, `_validate_ledger_sequence` and
--   `replay_decision_ledger`.
-- Interaction (src/missionforge/interaction.py): user events and acknowledgements; Interaction/Port has
--   submitting, reading, `pending_user_events` and `acknowledge`.
-- Evidence (src/missionforge/evidence.py) and Evidence/Store (src/missionforge/evidence_store.py): refs,
--   trust levels and records, the store in memory, and in Evidence/Store/Files the one in files.
-- PiWorker (src/missionforge/piworker_call.py): PiWorker/Call and PiWorker/Result are a call and its
--   result, with `validate_against_call`.
-- Kernel/Compile (src/missionforge/kernel/compiler.py): `compile_step`, with its grants in
--   Kernel/Compile/Grants and the manifest and call it makes in Kernel/Compile/Compiled.
-- ProductGate (src/missionforge/product_gate.py): checks, specs, findings and results of a gate.
-- Kernel/Attempts (src/missionforge/kernel/runner.py): `_run_piworker_with_failure_policy`.
-- Kernel/Resume (src/missionforge/kernel/runner.py and io.py): `_can_skip_from_record`, with the refs of
--   the workspace that it reads and hashes.
-- Examples: every theorem of the list below at a concrete input.
--
-- `run_flow` is modelled over an environment: a type of workspaces, and the operations that the loop
-- asks of it (running a step, reading a decision artifact, the interaction port, the projections, the
-- event sink, writing the ledger and the result). Its loop is bounded in the source, by `max_steps` or
-- twice the number of steps, and is a recursion on that number: no fuel is added. The attempts at a step
-- are a recursion on those left, over a host that runs the worker. JSON text is a parameter: a codec
-- with `dumps` and `loads`; files are a map from paths to texts.
--
-- Not modelled: field names in error messages, event metadata, the checks of the context and of the
-- step results in `run_flow`, `run_step` around the attempts and the records that it writes, extension
-- locks, agent events, the runtime behind the worker, adapters and long-term memory, the integration of
-- products, progress and context summaries.
pub mod Common
pub mod Text
pub mod Outcome
pub mod Value
pub mod Contracts
pub mod Platform
pub mod Checks
pub mod Jsonl
pub mod DecisionLedger
pub mod TaskContract
pub mod Permissions
pub mod RuntimeControl
pub mod Kernel
pub mod PiWorker
pub mod Interaction
pub mod Evidence
pub mod ProductGate
pub mod Examples
