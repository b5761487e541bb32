-- ===== src/PiWorker/Result.antt =====
-- `PiWorkerCallResult` of src/missionforge/piworker_call.py: whether a call's boundary completed, and
-- what it wrote.
use missionforge.Common.{Bool, not, ◌&&◌, any, Option, none, some, List, [], ◌∷◌}
use missionforge.Text.{Text, codes, text_eq}
use missionforge.Outcome.{Outcome, ok, refuse_if, missing, mismatch, bad_value, ◌>>=◌, ◌>>◌}
use missionforge.Platform.{Platform}
use missionforge.Value.{Value, text, dict, Fields, end, item, item_or, entry, strings}
use missionforge.Contracts.{require_non_empty_str, require_mapping, validate_ref}
use missionforge.Checks.{
  ref_list, validate_unique_refs, optional_ref, from_option, require_enum, require_schema,
  safe_mapping, member,
}
use missionforge.Checks.Hash.{validate_hash, reject_unknown}
use missionforge.Kernel.Contracts.{PiWorkerCallRole}
use missionforge.Kernel.Toolset.{role_value}
use missionforge.PiWorker.{
  role_of, PiWorkerCallResultStatus, status_value, status_of, is_completed, metadata,
  validate_refs_under_roots,
}
use missionforge.PiWorker.Call.{PiWorkerCall}

-- PIWORKER_CALL_RESULT_SCHEMA_VERSION
abbrev pub result_schema : Text
result_schema = codes "piworker_call_result.v1"

pub record PiWorkerCallResult : Type 0 where
  pub result_id : Text
  pub call_id : Text
  pub role : PiWorkerCallRole
  pub contract_id : Text
  pub contract_hash : Text
  pub contract_ref : Text
  pub status : PiWorkerCallResultStatus
  pub execution_report_ref : Text
  pub output_refs : List Text
  pub runtime_refs : List Text
  pub evidence_refs : List Text
  pub metric_refs : List Text
  pub validation_report_ref : Option Text
  pub error_ref : Option Text
  pub metadata : Value
  pub schema_version : Text

abbrev pub is_some : Option Text → Bool
is_some none = Bool.false
is_some (some t) = Bool.true

unfoldable pub validate : Platform → PiWorkerCallResult → Outcome (Unit {0})
validate py r = do
  require_schema r.schema_version result_schema
  require_non_empty_str (text r.result_id)
  require_non_empty_str (text r.call_id)
  require_non_empty_str (text r.contract_id)
  validate_hash (text r.contract_hash)
  validate_ref (text r.contract_ref)
  validate_ref (text r.execution_report_ref)
  validate_unique_refs r.output_refs
  validate_unique_refs r.runtime_refs
  validate_unique_refs r.evidence_refs
  validate_unique_refs r.metric_refs
  optional_ref (from_option r.validation_report_ref)
  optional_ref (from_option r.error_ref)
  refuse_if (is_completed r.status && is_some r.error_ref) bad_value
  metadata py r.metadata
  ok tt

-- _PIWORKER_CALL_RESULT_FIELDS
abbrev result_keys : List Text
result_keys =
    codes "result_id"
    ∷ codes "schema_version"
    ∷ codes "call_id"
    ∷ codes "role"
    ∷ codes "contract_id"
    ∷ codes "contract_hash"
    ∷ codes "contract_ref"
    ∷ codes "status"
    ∷ codes "execution_report_ref"
    ∷ codes "output_refs"
    ∷ codes "runtime_refs"
    ∷ codes "evidence_refs"
    ∷ codes "metric_refs"
    ∷ codes "validation_report_ref"
    ∷ codes "error_ref"
    ∷ codes "metadata"
    ∷ []

unfoldable pub parse : Platform → Fields → Outcome PiWorkerCallResult
parse py fs = do
  result_id ← require_non_empty_str (item "result_id" fs)
  schema ← require_non_empty_str (item_or "schema_version" (text result_schema) fs)
  call_id ← require_non_empty_str (item "call_id" fs)
  role ← require_enum role_of (item "role" fs)
  contract_id ← require_non_empty_str (item "contract_id" fs)
  hash ← validate_hash (item "contract_hash" fs)
  contract_ref ← validate_ref (item "contract_ref" fs)
  status ← require_enum status_of (item "status" fs)
  report_ref ← validate_ref (item "execution_report_ref" fs)
  outputs ← ref_list (item_or "output_refs" (strings []) fs)
  runtime ← ref_list (item_or "runtime_refs" (strings []) fs)
  evidence ← ref_list (item_or "evidence_refs" (strings []) fs)
  metrics ← ref_list (item_or "metric_refs" (strings []) fs)
  validation_ref ← optional_ref (item "validation_report_ref" fs)
  error_ref ← optional_ref (item "error_ref" fs)
  meta ← metadata py (item_or "metadata" (dict end) fs)
  ok (record {
    result_id = result_id;
    call_id = call_id;
    role = role;
    contract_id = contract_id;
    contract_hash = hash;
    contract_ref = contract_ref;
    status = status;
    execution_report_ref = report_ref;
    output_refs = outputs;
    runtime_refs = runtime;
    evidence_refs = evidence;
    metric_refs = metrics;
    validation_report_ref = validation_ref;
    error_ref = error_ref;
    metadata = meta;
    schema_version = schema;
  })

unfoldable pub from_dict : Platform → Value → Outcome PiWorkerCallResult
unfolding parse
from_dict py payload = do
  checked ← safe_mapping py payload
  fs ← require_mapping checked
  reject_unknown result_keys fs
  result ← parse py fs
  validate py result
  ok result

-- `set(expected) - set(outputs)` has an element
unfoldable pub misses : List Text → List Text → Bool
misses expected outputs = any (λ r. not (member r outputs)) expected

unfoldable pub validate_against_call :
    Platform → PiWorkerCallResult → PiWorkerCall → Outcome (Unit {0})
unfolding misses
validate_against_call py r c = do
  validate py r
  missionforge.PiWorker.Call.validate py c
  refuse_if (not (text_eq r.call_id c.call_id)) mismatch
  refuse_if (not (text_eq (role_value r.role) (role_value c.role))) mismatch
  refuse_if (not (text_eq r.contract_id c.contract_id)) mismatch
  refuse_if (not (text_eq r.contract_hash c.contract_hash)) mismatch
  refuse_if (not (text_eq r.contract_ref c.contract_ref)) mismatch
  validate_refs_under_roots r.output_refs c.writable_refs
  refuse_if (is_completed r.status && misses c.expected_output_refs r.output_refs) missing

unfoldable pub to_dict : Platform → PiWorkerCallResult → Outcome Fields
to_dict py r = do
  validate py r
  ok (
      entry "result_id" (text r.result_id) (
        entry "schema_version" (text r.schema_version) (
          entry "call_id" (text r.call_id) (
            entry "role" (text (role_value r.role)) (
              entry "contract_id" (text r.contract_id) (
                entry "contract_hash" (text r.contract_hash) (
                  entry "contract_ref" (text r.contract_ref) (
                    entry "status" (text (status_value r.status)) (
                      entry "execution_report_ref" (text r.execution_report_ref) (
                        entry "output_refs" (strings r.output_refs) (
                          entry "runtime_refs" (strings r.runtime_refs) (
                            entry "evidence_refs" (strings r.evidence_refs) (
                              entry "metric_refs" (strings r.metric_refs) (
                                entry "validation_report_ref" (from_option r.validation_report_ref)
                                  (entry "error_ref" (from_option r.error_ref)
                                    (entry "metadata" r.metadata end))))))))))))))))
