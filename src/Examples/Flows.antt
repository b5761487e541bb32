-- ===== src/Examples/Flows.antt =====
-- The theorems on flows at a flow of a writing step and a judge.
use missionforge.Common.{
  ℕ, suc, All, map, ◌≤◌, ◌≡◌, refl, none, some, List, [], ◌∷◌, ◌++◌, true, false, if◌then◌else◌,
}
use missionforge.Text.{
  Text, codes, text_eq, has_code, starts_with, has_text, split, is_space, lstrip, rstrip, strip,
}
use missionforge.Text.Decimal.{digits, zeros, decimal}
use missionforge.Outcome.{Outcome, ok, raise}
use missionforge.Platform.{Platform, aware}
use missionforge.Value.{text, dict, end, entry, get, texts}
use missionforge.Contracts.{
  validate_ref, check_ref, require_non_empty_str, require_str_list, strip_items, require_mapping,
  is_control, is_dot_segment, has_drive, is_unsafe_start,
}
use missionforge.Contracts.Json.{ensure_json_value, ensure_json_items, ensure_json_fields}
use missionforge.Contracts.Payload.{
  assert_refs_only_payload, reject_forbidden, reject_forbidden_items, reject_forbidden_fields,
  validate_payload_refs, validate_payload_refs_items, validate_payload_refs_fields,
}
use missionforge.Checks.{ref_list, validate_refs, has_duplicates, set_of, member, safe_mapping}
use missionforge.Kernel.Contracts.{
  Step, completed, blocked, PiWorkerCallRole, executor, judge, is_judge, Artifact, decision,
  is_no_segment, safe_id, optional_safe_id, optional_kernel_ref, unique_refs,
  unique_non_empty_strings, safe_ids, unique_ids, runtime_budget, known_keys, positive_items,
  validate_failure, validate_step,
}
use missionforge.Kernel.Declaration.{
  Flow, to_step, flow_stop, find_step, find_artifact, find_route, split_dot, route_key,
  prior_outputs, judge_accepts_prior, validate_routes, validate_steps, validate_projections,
  validate_flow,
}
use missionforge.Kernel.Route.{
  safe_route_segment, field_values, join_plus, route_value_for_step, dedupe, dedupe_refs,
}
use missionforge.Kernel.Ledger.{
  FlowLedgerEvent, started, stopped, validate_event, interaction_stop_decision,
}
use missionforge.Kernel.Flow.{
  Env, Context, FlowRunResult, append_event, routed_event, record_step, perform,
}
use missionforge.Kernel.Snapshot.{step_with_snapshot}
use missionforge.Kernel.Run.{
  start_step, round, loop, project, validate_flow_result, finish, run_flow, limit_of,
}
use missionforge.Kernel.Run.Ends.{run_flow_ledger}
use missionforge.Checks.Distinct.{IsDistinct}
use missionforge.Kernel.Route.Distinct.{dedupe_refs-IsDistinct}
use missionforge.Kernel.Accepted.{accepted_by_judge}

abbrev python : Platform
python = record {
  lower = λ t. t;
  is_alpha = λ c. true;
  is_alnum = λ c. true;
  sha256 = λ v. [];
  to_str = λ v. [];
  from_iso = λ t. some (aware 1000);
}

abbrev step_of : Text → List Text → Text → PiWorkerCallRole → Step
step_of id inputs output role = record {
  id = id;
  brief = codes "Do it.";
  inputs = inputs;
  outputs = output ∷ [];
  readable = codes "docs" ∷ [];
  writable = codes "out" ∷ [];
  tools = [];
  role = role;
  route_on = some output;
  route_fields = codes "verdict" ∷ [];
  runtime_budget = dict end;
  command_allowlist = [];
  env_allowlist = [];
  network = false;
  failure = record { retries = 0; on_exhausted = blocked };
  metadata = dict end;
}

abbrev decision_at : Text → Artifact
decision_at ref = record {
  ref = ref;
  role = decision;
  owner = codes "piworker";
  required = true;
  metadata = dict end;
}

abbrev write : Step
write = step_of (codes "write") [] (codes "out/page.json") executor

abbrev review : Step
review = step_of (codes "review") (codes "out/page.json" ∷ []) (codes "out/verdict.json") judge

abbrev flow : Flow
flow = record {
  id = codes "flow";
  steps = write ∷ review ∷ [];
  routes =
      (codes "write.done", to_step (codes "review"))
      ∷ (codes "review.pass", flow_stop (codes "accepted"))
      ∷ [];
  artifacts = decision_at (codes "out/page.json") ∷ decision_at (codes "out/verdict.json") ∷ [];
  toolset_ids = [];
  projections = [];
  metadata = dict end;
}

-- The workspace counts the steps that ran.
abbrev workspace : Env ℕ
workspace = record {
  execution_id = λ w. ok (codes "001");
  run_step = λ step ref name w. ok (
    record {
      step_record_ref = codes "records/" ++ step.id;
      status = completed;
      output_refs = step.outputs;
    },
    suc w,
  );
  read_json = λ w ref. ok (
      dict (
        entry "verdict"
          (text (if text_eq ref (codes "out/page.json") then codes "done" else codes "pass")) end));
  port = none;
  run_projections = λ ps ref w. ok ([], w);
  emit = λ e w. w;
  write_ledger = λ ref es w. ok w;
  write_result = λ ref w. ok w;
}

abbrev context : Context
context = record { flow_id = codes "flow"; contract_ref = codes "contract.json" }

abbrev nothing : FlowRunResult
nothing = record {
  status = [];
  stop_reason = [];
  ledger = [];
  step_record_refs = [];
  final_artifact_refs = [];
  decision_refs = [];
  ledger_refs = [];
  executed_steps = 0;
}

abbrev result_of : Outcome (FlowRunResult × ℕ) → FlowRunResult
result_of (ok (r, w)) = r
result_of (raise e) = nothing

abbrev result : FlowRunResult
result = result_of (run_flow workspace python context flow none 0)

flow_valid : validate_flow python flow ≡ ok tt
unfolding validate_flow validate_routes validate_steps validate_projections split_dot route_key
    prior_outputs judge_accepts_prior find_step find_artifact validate_step runtime_budget
    known_keys positive_items validate_failure safe_id optional_kernel_ref unique_refs
    unique_non_empty_strings safe_ids unique_ids is_no_segment safe_mapping assert_refs_only_payload
    ensure_json_value ensure_json_items ensure_json_fields reject_forbidden reject_forbidden_items
    reject_forbidden_fields validate_payload_refs validate_payload_refs_items
    validate_payload_refs_fields ref_list validate_refs has_duplicates set_of member require_mapping
    require_str_list strip_items texts require_non_empty_str validate_ref check_ref is_control
    is_dot_segment has_drive is_unsafe_start strip lstrip rstrip is_space has_code starts_with
    has_text split text_eq
flow_valid = refl

accepted_by_judge_example : (is_judge judge ≡ true) × (judge_accepts_prior review flow.steps ≡ true)
unfolding find_step find_route text_eq strip lstrip rstrip is_space has_code
accepted_by_judge_example =
    accepted_by_judge python flow review (codes "pass") flow_valid refl refl refl refl

-- The flow runs both steps, and the judge's verdict ends it.
flow_runs : run_flow workspace python context flow none 0 ≡ ok (result, 2)
unfolding run_flow validate_flow_result loop round start_step step_with_snapshot perform record_step
    append_event routed_event finish project interaction_stop_decision validate_event
    optional_safe_id dedupe dedupe_refs route_value_for_step field_values join_plus
    safe_route_segment find_route get decimal digits zeros validate_flow validate_routes
    validate_steps validate_projections split_dot route_key prior_outputs judge_accepts_prior
    find_step find_artifact validate_step runtime_budget known_keys positive_items validate_failure
    safe_id optional_kernel_ref unique_refs unique_non_empty_strings safe_ids unique_ids
    is_no_segment safe_mapping assert_refs_only_payload ensure_json_value ensure_json_items
    ensure_json_fields reject_forbidden reject_forbidden_items reject_forbidden_fields
    validate_payload_refs validate_payload_refs_items validate_payload_refs_fields ref_list
    validate_refs has_duplicates set_of member require_mapping require_str_list strip_items texts
    require_non_empty_str validate_ref check_ref is_control is_dot_segment has_drive is_unsafe_start
    strip lstrip rstrip is_space has_code starts_with has_text split text_eq
flow_runs = refl

run_flow_ledger_example :
    (result.executed_steps ≤ limit_of none flow)
    × (first : FlowLedgerEvent) × (middle : List FlowLedgerEvent) × (last : FlowLedgerEvent)
    × (result.ledger ≡ first ∷ (middle ++ last ∷ []))
    × (first.kind ≡ started)
    × (last.kind ≡ stopped)
    × (last.status ≡ some result.status)
    × (last.stop_reason ≡ some result.stop_reason)
run_flow_ledger_example = run_flow_ledger workspace python context flow none 0 result 2 flow_runs

abbrev repeated : List Text
repeated = codes "out" ∷ codes " out" ∷ codes "docs" ∷ []

abbrev distinct : List Text
distinct = codes "out" ∷ codes "docs" ∷ []

repeated_deduped : dedupe_refs repeated ≡ ok distinct
unfolding dedupe_refs dedupe member require_non_empty_str validate_ref check_ref is_control
    is_dot_segment has_drive is_unsafe_start strip lstrip rstrip is_space has_code starts_with
    has_text split text_eq
repeated_deduped = refl

dedupe_refs-IsDistinct_example :
    IsDistinct distinct
    × All (λ v. member (strip v) distinct ≡ true) repeated
    × All (λ r. member r (map strip repeated) ≡ true) distinct
dedupe_refs-IsDistinct_example = dedupe_refs-IsDistinct repeated distinct repeated_deduped

-- A route key is read up to its first dot when the flow is validated, and formed from the whole id when
-- it runs: this route is checked for the judge `a` and taken by the step `a.b`, which is no judge.
abbrev first : Step
first = step_of (codes "write") [] (codes "out/page.json") executor

abbrev short : Step
short = step_of (codes "a") (codes "out/page.json" ∷ []) (codes "out/verdict.json") judge

abbrev dotted : Step
dotted = step_of (codes "a.b") [] (codes "out/other.json") executor

abbrev dotted_flow : Flow
dotted_flow = record flow {
  steps = first ∷ short ∷ dotted ∷ [];
  routes = (codes "a.b.pass", flow_stop (codes "accepted")) ∷ [];
}

dotted_flow_valid : validate_flow python dotted_flow ≡ ok tt
unfolding validate_flow validate_routes validate_steps validate_projections split_dot route_key
    prior_outputs judge_accepts_prior find_step find_artifact validate_step runtime_budget
    known_keys positive_items validate_failure safe_id optional_kernel_ref unique_refs
    unique_non_empty_strings safe_ids unique_ids is_no_segment safe_mapping assert_refs_only_payload
    ensure_json_value ensure_json_items ensure_json_fields reject_forbidden reject_forbidden_items
    reject_forbidden_fields validate_payload_refs validate_payload_refs_items
    validate_payload_refs_fields ref_list validate_refs has_duplicates set_of member require_mapping
    require_str_list strip_items texts require_non_empty_str validate_ref check_ref is_control
    is_dot_segment has_drive is_unsafe_start strip lstrip rstrip is_space has_code starts_with
    has_text split text_eq
dotted_flow_valid = refl

dotted_accepted :
    find_route (dotted.id ++ codes "." ++ codes "pass") dotted_flow.routes
    ≡ some (flow_stop (codes "accepted"))
unfolding find_route text_eq
dotted_accepted = refl
