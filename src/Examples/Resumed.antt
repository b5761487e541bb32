-- ===== src/Examples/Resumed.antt =====
-- The theorem on skipped steps, at the step of Examples/Workers and a record of its completed run.
use missionforge.Common.{◌≡◌, refl, true, false, none, some, [], ◌∷◌, All, if◌then◌else◌}
use missionforge.Text.{Text, codes, text_eq}
use missionforge.Outcome.{Outcome, ok, raise, json_decode_error}
use missionforge.Value.{dict, end}
use missionforge.Jsonl.{Root}
use missionforge.Kernel.Contracts.{completed}
use missionforge.Kernel.Toolset.{spec_hash}
use missionforge.Kernel.Resume.{StepRecord, Boundary, can_skip_from_record}
use missionforge.Kernel.Resume.Current.{IsCurrent, can_skip-IsCurrent}
use missionforge.Examples.Running.{python}
use missionforge.Examples.Workers.{compiling, compiled, step}

unfoldable resuming : Unit {0}
unfolding compiling missionforge.Text.Maps.put missionforge.Text.Maps.lookup
    missionforge.Kernel.Resume.resolve_workspace_ref missionforge.Kernel.Resume.ref_exists
    missionforge.Kernel.Resume.hash_safe missionforge.Kernel.Resume.hash_ref
    missionforge.Kernel.Resume.hash_refs_from missionforge.Kernel.Resume.includes
    missionforge.Kernel.Resume.same_list missionforge.Kernel.Resume.same_boundary
    missionforge.Kernel.Resume.all_exist missionforge.Kernel.Resume.can_skip_from_record
resuming = tt

-- One file, the page with this text.
abbrev page_with : Text → Root
page_with t = record {
  inside = λ p. true;
  file = λ p. if text_eq p (codes "out/page.md") then some t else none;
}

abbrev boundary : Root → Boundary
boundary root = record {
  root = root;
  digest = λ t. t;
  read_json = λ ref. raise json_decode_error;
  input_hashes = [];
  permission_manifest_hash = codes "m";
  extension_lock_ref = none;
  extension_lock_hash = none;
}

abbrev text_of : Outcome Text → Text
text_of (ok t) = t
text_of (raise e) = []

abbrev step_record : StepRecord
step_record = record {
  step_id = codes "write";
  step_spec_hash = text_of (spec_hash python step);
  contract_ref = compiled.piworker_call.contract_ref;
  contract_hash = compiled.piworker_call.contract_hash;
  input_refs = step.inputs;
  output_refs = step.outputs;
  status = completed;
  permission_manifest_ref = compiled.permission_manifest_ref;
  permission_manifest_hash = some (codes "m");
  extension_lock_ref = none;
  extension_lock_hash = none;
  input_hashes = [];
  output_hashes = (codes "out/page.md", codes "sha256:page") ∷ [];
  piworker_call_ref = none;
  piworker_call_result_ref = none;
  execution_report_ref = none;
  metric_refs = [];
  failure_refs = [];
  metadata = dict end;
}

skips :
    can_skip_from_record python step_record compiled (boundary (page_with (codes "page"))) ≡ ok true
unfolding resuming
skips = refl

-- A page that was changed since is not skipped.
changed :
    can_skip_from_record python step_record compiled (boundary (page_with (codes "other")))
    ≡ ok false
unfolding resuming
changed = refl

can_skip-IsCurrent_example :
    (step_record.step_id ≡ compiled.step.id)
    × (spec_hash python compiled.step ≡ ok step_record.step_spec_hash)
    × (step_record.contract_hash ≡ compiled.piworker_call.contract_hash)
    × (step_record.permission_manifest_hash ≡ some (codes "m"))
    × All
        (IsCurrent (boundary (page_with (codes "page"))) step_record.output_hashes)
        compiled.step.outputs
can_skip-IsCurrent_example =
    can_skip-IsCurrent python step_record compiled (boundary (page_with (codes "page"))) skips
