-- ===== src/Examples/Workers.antt =====
-- The theorems on the compiler, on a worker's call and on its attempts at one step.
use missionforge.Common.{
  ℕ, zero, suc, ◌+◌, ◌==◌, if◌then◌else◌, arith, subst, ◌≡◌, refl, All, true, false, none, some, [],
  ◌∷◌, ◌++◌,
}
use missionforge.Text.{Text, codes, strip}
use missionforge.Outcome.{Outcome, ok, ok_injective}
use missionforge.Value.{dict, end}
use missionforge.Permissions.{PermissionDecision, check_write}
use missionforge.Permissions.Decisions.{InRoots}
use missionforge.Kernel.Contracts.{Step, executor, blocked, validate_step}
use missionforge.Kernel.Compile.{StepCompileContext, validate_context}
use missionforge.Kernel.Compile.Compiled.{CompiledStep, compile_step}
use missionforge.Kernel.Compile.Authority.{compile_step-DeniesContract, compile_step-InRoots}
use missionforge.Kernel.Attempts.{
  is_last, Host, AttemptResult, run_piworker_with_failure_policy, attempts, Attempted,
}
use missionforge.Kernel.Attempts.Bounds.{Kept, policy-Kept, attempts_complete}
use missionforge.PiWorker.{PiWorkerCallResultStatus, failed, completed}
use missionforge.PiWorker.Call.{PiWorkerCall}
use missionforge.PiWorker.Result.{PiWorkerCallResult, validate_against_call, result_schema}
use missionforge.PiWorker.Authority.{Authorised, validate_against_call-Authorised}
use missionforge.Examples.Running.{computing, python}

unfoldable pub compiling : Unit {0}
unfolding computing missionforge.Permissions.ref_is_under
    missionforge.Kernel.Contracts.is_no_segment missionforge.Kernel.Contracts.safe_id
    missionforge.Kernel.Contracts.optional_safe_id missionforge.Kernel.Contracts.optional_kernel_ref
    missionforge.Kernel.Contracts.unique_refs missionforge.Kernel.Contracts.unique_non_empty_strings
    missionforge.Kernel.Contracts.safe_ids missionforge.Kernel.Contracts.unique_ids
    missionforge.Kernel.Contracts.known_keys missionforge.Kernel.Contracts.positive_items
    missionforge.Kernel.Contracts.runtime_budget missionforge.Kernel.Contracts.validate_failure
    missionforge.Kernel.Contracts.validate_step missionforge.Kernel.Contracts.validate_projection
    missionforge.Kernel.Compile.non_empty missionforge.Kernel.Compile.safe_id
    missionforge.Kernel.Compile.hash missionforge.Kernel.Compile.validate_each_ref
    missionforge.Kernel.Compile.validate_context missionforge.Kernel.Compile.validate_ref_authority
    missionforge.Kernel.Compile.validate_visible missionforge.Kernel.Compile.spare_roots
    missionforge.Kernel.Compile.validate_contract_write_boundary missionforge.Text.Maps.lookup
    missionforge.Kernel.Compile.validate_runtime_owned_outputs
    missionforge.Kernel.Compile.dedupe_from missionforge.Kernel.Compile.dedupe_strings
    missionforge.Kernel.Compile.Grants.set_field missionforge.Kernel.Compile.Grants.merge
    missionforge.Kernel.Compile.Grants.extension_grant_for_toolset
    missionforge.Kernel.Compile.Grants.extension_grants
    missionforge.Kernel.Compile.Grants.required_envs
    missionforge.Kernel.Compile.Compiled.validate_compiled
    missionforge.Kernel.Compile.Compiled.validate_toolsets
    missionforge.Kernel.Compile.Compiled.validate_artifacts
    missionforge.Kernel.Compile.Compiled.manifest_for missionforge.Kernel.Compile.Compiled.call_for
    missionforge.Kernel.Compile.Compiled.check_step
    missionforge.Kernel.Compile.Compiled.compile_step missionforge.Kernel.Toolset.validate
    missionforge.Kernel.Toolset.parse missionforge.Kernel.Toolset.from_dict
    missionforge.Kernel.Toolset.validate_artifact missionforge.Kernel.Toolset.step_to_dict
    missionforge.Kernel.Toolset.spec_hash missionforge.PiWorker.reject_authority
    missionforge.PiWorker.reject_authority_items missionforge.PiWorker.reject_authority_fields
    missionforge.PiWorker.metadata missionforge.PiWorker.runtime_budget
    missionforge.PiWorker.check_under missionforge.PiWorker.validate_refs_under_roots
    missionforge.PiWorker.call_result_status missionforge.PiWorker.Call.validate
    missionforge.PiWorker.Call.parse missionforge.PiWorker.Call.from_dict
    missionforge.PiWorker.Call.to_dict missionforge.PiWorker.Result.validate
    missionforge.PiWorker.Result.parse missionforge.PiWorker.Result.from_dict
    missionforge.PiWorker.Result.misses missionforge.PiWorker.Result.validate_against_call
    missionforge.PiWorker.Result.to_dict missionforge.Permissions.Roots.under_any
    missionforge.Kernel.Route.safe_route_segment missionforge.Kernel.Route.field_values
    missionforge.Kernel.Route.join_plus missionforge.Kernel.Route.route_value_for_step
    missionforge.Kernel.Route.dedupe missionforge.Kernel.Route.dedupe_refs
    missionforge.Kernel.Attempts.step_status_from_call_result
    missionforge.Kernel.Attempts.failure_refs_from_call_result
    missionforge.Kernel.Attempts.is_non_retryable missionforge.Kernel.Attempts.filter
    missionforge.Kernel.Attempts.attempt_call missionforge.Kernel.Attempts.is_last
    missionforge.Kernel.Attempts.normalize_attempt_result
    missionforge.Kernel.Attempts.validate_outputs missionforge.Kernel.Attempts.attempt
    missionforge.Kernel.Attempts.attempts
    missionforge.Kernel.Attempts.run_piworker_with_failure_policy
    missionforge.TaskContract.Manifest.validate missionforge.TaskContract.Manifest.parse
    missionforge.TaskContract.Manifest.from_dict
    missionforge.TaskContract.Extension.validate_extension_package
    missionforge.TaskContract.Extension.validate_env_name
    missionforge.TaskContract.Extension.validate_env_names
    missionforge.TaskContract.Extension.optional_non_empty
    missionforge.TaskContract.Extension.validate missionforge.TaskContract.Extension.from_dict
    missionforge.TaskContract.Extension.validate_grants
    missionforge.TaskContract.Extension.parse_grants
    missionforge.TaskContract.Extension.grants_from_dicts
    missionforge.TaskContract.ProgressStream.validate
    missionforge.TaskContract.ProgressStream.from_dict
    missionforge.TaskContract.ProgressStream.to_dict
    missionforge.TaskContract.ProgressStream.validate_streams
    missionforge.TaskContract.ProgressStream.parse_streams
    missionforge.TaskContract.ProgressStream.streams_from_dicts
compiling = tt

abbrev pub step : Step
step = record {
  id = codes "write";
  brief = codes "Write the page.";
  inputs = codes "docs/notes.md" ∷ [];
  outputs = codes "out/page.md" ∷ [];
  readable = codes "docs" ∷ [];
  writable = codes "out" ∷ [];
  tools = codes "write" ∷ [];
  role = executor;
  route_on = none;
  route_fields = [];
  runtime_budget = dict end;
  command_allowlist = [];
  env_allowlist = [];
  network = false;
  failure = record { retries = 1; on_exhausted = blocked };
  metadata = dict end;
}

abbrev digest : Text
digest = codes "0123456789abcdef"

abbrev context : StepCompileContext
context = record {
  flow_id = codes "flow";
  contract_id = codes "c";
  contract_hash = codes "sha256:" ++ (digest ++ (digest ++ (digest ++ digest)));
  contract_ref = codes "contract.json";
  workspace_policy_ref = codes "policy.json";
  denied_refs = [];
  permission_manifest_ref = none;
  ref_prefix = none;
  call_id = none;
}

abbrev nothing : CompiledStep
nothing = record {
  step = step;
  piworker_call = record {
    call_id = [];
    role = executor;
    contract_id = [];
    contract_hash = [];
    contract_ref = [];
    objective = [];
    visible_refs = [];
    writable_refs = [];
    expected_output_refs = [];
    permission_manifest_ref = none;
    source_packet_ref = none;
    source_packet_hash = none;
    evidence_refs = [];
    output_schema_ref = none;
    validation_policy_ref = none;
    runtime_budget = dict end;
    metadata = dict end;
    schema_version = [];
  };
  permission_manifest = record {
    manifest_id = [];
    workspace_policy_ref = none;
    readable_refs = [];
    writable_refs = [];
    denied_refs = [];
    allowed_commands = [];
    network_policy = missionforge.TaskContract.Manifest.disabled;
    env_allowlist = [];
    secret_ref = none;
    unsupported_hard_policies = [];
    extension_grants = [];
    progress_streams = [];
    schema_version = [];
  };
  permission_manifest_ref = [];
}

abbrev compiled_of : Outcome CompiledStep → CompiledStep
compiled_of (ok k) = k
compiled_of _ = nothing

abbrev pub compiled : CompiledStep
compiled = compiled_of (compile_step python step context [] [])

step_compiles : compile_step python step context [] [] ≡ ok compiled
unfolding compiling
step_compiles = refl

compile_step-DeniesContract_example :
    (d : PermissionDecision) × (check_write compiled.permission_manifest context.contract_ref
      ≡ ok d)
    × (d.allowed ≡ false)
compile_step-DeniesContract_example =
    compile_step-DeniesContract python step context [] [] compiled step_compiles

compile_step-InRoots_example :
    All (λ ref. InRoots (strip ref) compiled.permission_manifest.writable_refs) step.outputs
    × All (λ ref. InRoots (strip ref) compiled.permission_manifest.readable_refs) step.inputs
compile_step-InRoots_example = compile_step-InRoots python step context [] [] compiled step_compiles

abbrev result_for : PiWorkerCall → PiWorkerCallResultStatus → PiWorkerCallResult
result_for call status = record {
  result_id = codes "result";
  call_id = call.call_id;
  role = call.role;
  contract_id = call.contract_id;
  contract_hash = call.contract_hash;
  contract_ref = call.contract_ref;
  status = status;
  execution_report_ref = codes "out/report.json";
  output_refs = call.expected_output_refs;
  runtime_refs = [];
  evidence_refs = [];
  metric_refs = [];
  validation_report_ref = none;
  error_ref = none;
  metadata = dict end;
  schema_version = result_schema;
}

result_matches :
    validate_against_call python
      (result_for compiled.piworker_call completed)
      compiled.piworker_call
    ≡ ok tt
unfolding compiling
result_matches = refl

validate_against_call-Authorised_example :
    Authorised (result_for compiled.piworker_call completed) compiled.piworker_call
validate_against_call-Authorised_example =
    validate_against_call-Authorised python (result_for compiled.piworker_call completed)
      compiled.piworker_call result_matches

-- The workspace counts the calls; the first one fails.
abbrev host : Host
host = record {
  Workspace = ℕ;
  ref_exists = λ w ref. true;
  write_json_ref = λ w ref v. ok w;
  run_piworker_call =
      λ w call id fs. ok (result_for call (elim w [ zero ↦ failed | suc n ↦ completed ]), suc w);
}

abbrev kept_of : Outcome (AttemptResult × ℕ) → AttemptResult
kept_of (ok (r, w)) = r
kept_of _ = record {
  call_result = result_for compiled.piworker_call failed;
  attempt_call_refs = [];
  attempt_result_refs = [];
}

abbrev kept : AttemptResult
kept =
    kept_of
      (run_piworker_with_failure_policy python host compiled context (codes "p") (codes "r") 0)

policy_runs :
    run_piworker_with_failure_policy python host compiled context (codes "p") (codes "r") 0
    ≡ ok (kept, 2)
unfolding compiling
policy_runs = refl

policy-Kept_example : Kept python host compiled context (codes "p") (codes "r") 0 2 kept
policy-Kept_example =
    policy-Kept python host compiled context (codes "p") (codes "r") 0 2 kept policy_runs

abbrev ran : ℕ → ℕ → Outcome (PiWorkerCallResult × ℕ)
ran i w = ok (result_for compiled.piworker_call (if i == 2 then completed else failed), suc w)

ran_ends :
    (w : ℕ) (done : PiWorkerCallResult × ℕ) → ran (1 + 1) w ≡ ok done → is_last python done.0 ≡ true
unfolding is_last
ran_ends w done h =
    subst (λ (d : PiWorkerCallResult × ℕ). is_last python d.0 ≡ true) (ok_injective h) refl

abbrev untried : Attempted ℕ
untried = record { final_result = none; call_refs = []; result_refs = []; workspace = 0 }

attempts_complete_example :
    (after : Attempted ℕ) × (r : PiWorkerCallResult) × (attempts python ran
        (λ i. codes "call")
        (λ i. codes "result")
        3
        1
        untried
      ≡ ok after)
    × (after.final_result ≡ some r)
    × (is_last python r ≡ true)
attempts_complete_example =
    attempts_complete python ran (λ i. codes "call") (λ i. codes "result") 3 1 1 untried
      (omega arith) (λ i w. (_, refl)) ran_ends
