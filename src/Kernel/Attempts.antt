-- ===== src/Kernel/Attempts.antt =====
-- The attempts of one step's call: `_run_piworker_with_failure_policy` of
-- src/missionforge/kernel/runner.py and its helpers, over an environment that runs one call.
pub mod Bounds
use missionforge.Common.{
  ℕ, zero, suc, ◌==◌, Bool, true, false, not, ◌&&◌, ◌||◌, any, Option, none, some, List, [], ◌∷◌,
  ◌++◌, is_empty, if◌then◌else◌,
}
use missionforge.Text.{Text, codes, text_eq, has_text}
use missionforge.Text.Decimal.{decimal}
use missionforge.Outcome.{Outcome, ok, refuse, missing, ◌>>=◌, ◌>>◌}
use missionforge.Platform.{Platform}
use missionforge.Value.{
  ℤ, pos, Value, boolean, integer, text, dict, Fields, end, entry, get, strings,
}
use missionforge.PiWorker.{
  PiWorkerCallResultStatus, completed, blocked, invalid_output, is_completed,
}
use missionforge.PiWorker.Call.{PiWorkerCall}
use missionforge.PiWorker.Result.{PiWorkerCallResult, validate_against_call}
use missionforge.Kernel.Contracts.{Step, StepStatus}
use missionforge.Kernel.Compile.{StepCompileContext}
use missionforge.Kernel.Compile.Grants.{merge, mapping_of}
use missionforge.Kernel.Compile.Compiled.{CompiledStep}

-- The workspace, and the running of one call in it (src/missionforge/piworker_runtime.py): call,
-- identifier of the result, metadata.
pub record Host : Type 1 where
  pub Workspace : Type 0
  pub ref_exists : Workspace → Text → Bool
  pub write_json_ref : Workspace → Text → Value → Outcome Workspace
  pub run_piworker_call :
      Workspace → PiWorkerCall → Text → Fields → Outcome (PiWorkerCallResult × Workspace)

-- `_step_status_from_call_result`
unfoldable pub step_status_from_call_result : PiWorkerCallResultStatus → StepStatus → StepStatus
step_status_from_call_result completed on_exhausted = StepStatus.completed
step_status_from_call_result blocked on_exhausted = StepStatus.blocked
step_status_from_call_result _ on_exhausted = on_exhausted

abbrev pub some_ref : Option Text → List Text
some_ref none = []
some_ref (some r) = r ∷ []

-- `_failure_refs_from_call_result`
unfoldable pub failure_refs_from_call_result : PiWorkerCallResult → List Text
failure_refs_from_call_result r =
    some_ref r.error_ref ++ (if is_completed r.status then [] else some_ref r.validation_report_ref)

abbrev non_retryable_words : List Text
non_retryable_words =
    codes "openai api error (401)"
    ∷ codes "openai api error (403)"
    ∷ codes "authentication"
    ∷ codes "authorization"
    ∷ codes "api key"
    ∷ codes "quota"
    ∷ codes "insufficient_quota"
    ∷ codes "余额不足"
    ∷ []

abbrev from_summary : Platform → Option Value → Bool
from_summary py (some (text summary)) = any (λ w. has_text w (py.lower summary)) non_retryable_words
from_summary py _ = false

abbrev from_flag : Option Value → Bool → Bool
from_flag (some (boolean b)) otherwise = b
from_flag _ otherwise = otherwise

-- `_call_result_has_non_retryable_provider_error`
unfoldable pub is_non_retryable : Platform → PiWorkerCallResult → Bool
is_non_retryable py r =
    from_flag (get (codes "non_retryable_provider_error") (mapping_of r.metadata))
      (from_summary py (get (codes "failure_summary") (mapping_of r.metadata)))

-- `[ref for ref in refs if test]`
unfoldable pub filter : (Text → Bool) → List Text → List Text
filter p [] = []
filter p (r ∷ rs) = let rest = filter p rs in if p r then r ∷ rest else rest

-- `_attempt_call`
unfoldable pub attempt_call : PiWorkerCall → ℕ → ℕ → PiWorkerCall
attempt_call call index max = if max == 1 then call else record call {
  call_id = call.call_id ++ (codes "-attempt-" ++ decimal 3 index);
  metadata = dict (
      merge (mapping_of call.metadata) (
        entry "kernel_parent_call_id" (text call.call_id) (
          entry "attempt_index" (integer (pos index))
            (entry "max_attempts" (integer (pos max)) end))));
}

-- Where an attempt is written, and what its result is called.
abbrev attempt_ref : Text → ℕ → Text → Text
attempt_ref prefix index file = prefix ++ (codes "/attempts/" ++ (decimal 3 index ++ file))

abbrev result_id_of : StepCompileContext → Step → ℕ → ℕ → Text
result_id_of c s index max =
    if max == 1
    then c.flow_id ++ (codes "-" ++ (s.id ++ codes "-result"))
    else c.flow_id
      ++ (codes "-" ++ (s.id ++ (codes "-attempt-" ++ (decimal 3 index ++ codes "-result"))))

module _ (py : Platform) (host : Host) where
  -- `_validate_attempt_output_boundary`
  unfoldable pub validate_outputs :
      host.Workspace
      → PiWorkerCallResult
      → PiWorkerCall
      → Text
      → Outcome (PiWorkerCallResult × host.Workspace)
  unfolding filter
  validate_outputs w r call report_ref =
      let missing_expected =
        filter (λ ref. not (host.ref_exists w ref)) call.expected_output_refs in
      let missing_reported = filter (λ ref. not (host.ref_exists w ref)) r.output_refs in
      let report = entry "schema_version" (text (codes "kernel_output_validation.v1")) (
        entry "status" (text (codes "invalid_output")) (
          entry "call_id" (text call.call_id) (
            entry "expected_output_refs" (strings call.expected_output_refs) (
              entry "reported_output_refs" (strings r.output_refs) (
                entry "missing_expected_output_refs" (strings missing_expected)
                  (entry "missing_reported_output_refs" (strings missing_reported) end)))))) in
      let invalid : PiWorkerCallResult = record r {
        status = invalid_output;
        output_refs = filter (host.ref_exists w) r.output_refs;
        validation_report_ref = some report_ref;
        metadata = dict (
            merge (mapping_of r.metadata) (
              entry "kernel_output_validation_ref" (text report_ref) (
                entry "missing_expected_output_refs" (strings missing_expected)
                  (entry "missing_reported_output_refs" (strings missing_reported) end))));
      } in
      let rejected = host.write_json_ref w report_ref (dict report) >>= λ w'.
      validate_against_call py invalid call >>= λ _. ok (invalid, w') in
      if not (is_completed r.status) || (is_empty missing_expected && is_empty missing_reported)
      then ok (r, w)
      else rejected

  -- One round: the call and its result are written, and the outputs that it claims must exist.
  unfoldable pub attempt :
      CompiledStep
      → StepCompileContext
      → Text
      → Text
      → ℕ
      → ℕ
      → host.Workspace
      → Outcome (PiWorkerCallResult × host.Workspace)
  unfolding validate_outputs attempt_call
  attempt compiled c prefix step_record_ref index max w = do
    call_fields ←
        missionforge.PiWorker.Call.to_dict py (attempt_call compiled.piworker_call index max)
    w1 ←
        host.write_json_ref w (attempt_ref prefix index (codes "/piworker_call.json"))
          (dict call_fields)
    (ran, w2) ←
        host.run_piworker_call w1 (attempt_call compiled.piworker_call index max)
          (result_id_of c compiled.step index max)
          (entry "kernel_flow_id" (text c.flow_id) (
            entry "kernel_step_id" (text compiled.step.id) (
              entry "kernel_step_record_ref" (text step_record_ref) (
                entry "attempt_index" (integer (pos index))
                  (entry "max_attempts" (integer (pos max)) end)))))
    (result, w3) ←
        validate_outputs w2 ran (attempt_call compiled.piworker_call index max)
          (attempt_ref prefix index (codes "/output_validation.json"))
    fields ← missionforge.PiWorker.Result.to_dict py result
    w4 ←
        host.write_json_ref w3 (attempt_ref prefix index (codes "/piworker_call_result.json"))
          (dict fields)
    ok (result, w4)

-- `_PiWorkerAttemptResult`
pub record AttemptResult : Type 0 where
  pub call_result : PiWorkerCallResult
  pub attempt_call_refs : List Text
  pub attempt_result_refs : List Text

-- `break` after a result: it is completed, or trying again cannot help.
unfoldable pub is_last : Platform → PiWorkerCallResult → Bool
unfolding is_non_retryable
is_last py r = is_completed r.status || is_non_retryable py r

-- `refs[-1]` of the refs so far and one more
abbrev pub last_ref : List Text → Text
last_ref [] = []
last_ref (r ∷ []) = r
last_ref (r ∷ s ∷ rs) = last_ref (s ∷ rs)

-- The result under the name of the step's own call.
abbrev pub renamed_result : PiWorkerCallResult → PiWorkerCall → List Text → PiWorkerCallResult
renamed_result r call refs = record r {
  result_id = call.call_id ++ codes "-result";
  call_id = call.call_id;
  metadata = dict (
      merge (mapping_of r.metadata) (
        entry "kernel_parent_call_id" (text call.call_id) (
          entry "final_attempt_call_id" (text r.call_id)
            (entry "final_attempt_result_ref" (text (last_ref refs)) end))));
}

-- `_normalize_attempt_result`
unfoldable pub normalize_attempt_result :
    Platform → PiWorkerCallResult → PiWorkerCall → List Text → Outcome PiWorkerCallResult
normalize_attempt_result py r call refs =
    let renamed = validate_against_call py (renamed_result r call refs) call >>= λ _.
    ok (renamed_result r call refs) in
    if text_eq r.call_id call.call_id then ok r else renamed

-- What the loop has when it ends: the last result, the refs of all attempts, and the workspace.
pub record Attempted (W : Type 0) : Type 0 where
  pub final_result : Option PiWorkerCallResult
  pub call_refs : List Text
  pub result_refs : List Text
  pub workspace : W

module _ (py : Platform) {W : Type 0} (try : ℕ → W → Outcome (PiWorkerCallResult × W))
    (call_ref result_ref : ℕ → Text) where
  -- The loop over the attempts from `index` on, with `left` still allowed.
  unfoldable pub attempts : ℕ → ℕ → Attempted W → Outcome (Attempted W)
  unfolding is_last
  attempts zero index t = ok t
  attempts (suc left) index t = try index t.workspace >>= λ done.
      let next : Attempted W = record {
        final_result = some done.0;
        call_refs = t.call_refs ++ call_ref index ∷ [];
        result_refs = t.result_refs ++ result_ref index ∷ [];
        workspace = done.1;
      } in
      let rest = attempts left (suc index) next in if is_last py done.0 then ok next else rest

abbrev required_result : Option PiWorkerCallResult → Outcome PiWorkerCallResult
required_result none = refuse missing
required_result (some r) = ok r

module _ (py : Platform) (host : Host) where
  unfoldable pub run_piworker_with_failure_policy :
      CompiledStep
      → StepCompileContext
      → Text
      → Text
      → host.Workspace
      → Outcome (AttemptResult × host.Workspace)
  unfolding attempt attempts normalize_attempt_result
  run_piworker_with_failure_policy compiled c prefix step_record_ref w = do
    t ←
        attempts py
          (λ index w'.
            attempt py host compiled c prefix step_record_ref index
              (suc compiled.step.failure.retries) w')
          (λ index. attempt_ref prefix index (codes "/piworker_call.json"))
          (λ index. attempt_ref prefix index (codes "/piworker_call_result.json"))
          (suc compiled.step.failure.retries) 1
          (record { final_result = none; call_refs = []; result_refs = []; workspace = w })
    final ← required_result t.final_result
    result ← normalize_attempt_result py final compiled.piworker_call t.result_refs
    ok (
      record {
        call_result = result;
        attempt_call_refs = t.call_refs;
        attempt_result_refs = t.result_refs;
      },
      t.workspace,
    )
