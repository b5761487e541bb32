-- ===== src/ProductGate/Result.antt =====
-- `ProductGateFinding` and `ProductGateResult` of src/missionforge/product_gate.py.
use missionforge.Common.{Bool, true, false, ◌&&◌, Option, List, [], ◌∷◌, any}
use missionforge.Text.{Text, codes}
use missionforge.Outcome.{Outcome, ok, refuse_if, mismatch, ◌>>=◌, ◌>>◌}
use missionforge.Platform.{Platform}
use missionforge.Value.{
  Value, text, list, dict, Items, nil, cons, Fields, end, item, item_or, entry, strings,
}
use missionforge.Contracts.{
  require_non_empty_str, require_str, require_str_list, require_mapping, validate_ref,
}
use missionforge.Contracts.Payload.{assert_refs_only_payload}
use missionforge.Checks.{find_name, require_enum, require_schema}
use missionforge.Checks.Hash.{strict_mapping}
use missionforge.ProductGate.{validate_ref_list, children}

pub data ProductGateStatus : Type 0 where
  passed failed needs_review unsupported candidate product_grade quarantined : ProductGateStatus

pub data ProductGateSeverity : Type 0 where
  info warning blocking : ProductGateSeverity

-- `status.value`
abbrev pub status_value : ProductGateStatus → Text
status_value passed = codes "passed"
status_value failed = codes "failed"
status_value needs_review = codes "needs_review"
status_value unsupported = codes "unsupported"
status_value candidate = codes "candidate"
status_value product_grade = codes "product_grade"
status_value quarantined = codes "quarantined"

-- `severity.value`
abbrev pub severity_value : ProductGateSeverity → Text
severity_value info = codes "info"
severity_value warning = codes "warning"
severity_value blocking = codes "blocking"

abbrev pub status_of : Text → Option ProductGateStatus
status_of = find_name (
    (status_value passed, passed)
    ∷ (status_value failed, failed)
    ∷ (status_value needs_review, needs_review)
    ∷ (status_value unsupported, unsupported)
    ∷ (status_value candidate, candidate)
    ∷ (status_value product_grade, product_grade)
    ∷ (status_value quarantined, quarantined)
    ∷ [])

abbrev pub severity_of : Text → Option ProductGateSeverity
severity_of = find_name (
    (severity_value info, info)
    ∷ (severity_value warning, warning)
    ∷ (severity_value blocking, blocking)
    ∷ [])

pub record ProductGateFinding : Type 0 where
  pub check_id : Text
  pub severity : ProductGateSeverity
  pub message : Text
  pub evidence_refs : List Text

abbrev severity_blocks : ProductGateSeverity → Bool
severity_blocks blocking = true
severity_blocks _ = false

-- `finding.blocking`
abbrev pub is_blocking : ProductGateFinding → Bool
is_blocking f = severity_blocks f.severity

abbrev pub finding_to_dict : ProductGateFinding → Fields
finding_to_dict f = entry "check_id" (text f.check_id) (
    entry "severity" (text (severity_value f.severity))
      (entry "message" (text f.message) (entry "evidence_refs" (strings f.evidence_refs) end)))

unfoldable pub validate_finding : Platform → ProductGateFinding → Outcome (Unit {0})
validate_finding py f = do
  require_non_empty_str (text f.check_id)
  require_non_empty_str (text f.message)
  validate_ref_list f.evidence_refs
  assert_refs_only_payload py.lower (dict (finding_to_dict f))
  ok tt

abbrev pub finding_keys : List Text
finding_keys = codes "check_id" ∷ codes "severity" ∷ codes "message" ∷ codes "evidence_refs" ∷ []

unfoldable pub finding_from_dict : Platform → Value → Outcome ProductGateFinding
unfolding validate_finding
finding_from_dict py payload = do
  fs ← strict_mapping finding_keys payload
  check_id ← require_non_empty_str (item "check_id" fs)
  severity ← require_enum severity_of (item "severity" fs)
  message ← require_non_empty_str (item "message" fs)
  evidence_refs ← require_str_list (item_or "evidence_refs" (strings []) fs)
  let finding : ProductGateFinding = record {
    check_id = check_id;
    severity = severity;
    message = message;
    evidence_refs = evidence_refs;
  }
  validate_finding py finding
  ok finding

unfoldable pub parse_findings : Platform → Items → Outcome (List ProductGateFinding)
unfolding finding_from_dict
parse_findings py nil = ok []
parse_findings py (cons v vs) = do
  fs ← require_mapping v
  finding ← finding_from_dict py (dict fs)
  rest ← parse_findings py vs
  ok (finding ∷ rest)

-- PRODUCT_GATE_RESULT_SCHEMA_VERSION
abbrev pub result_schema : Text
result_schema = codes "missionforge.product_gate_result.v1"

pub record ProductGateResult : Type 0 where
  pub product_id : Text
  pub status : ProductGateStatus
  pub gate_spec_ref : Text
  pub findings : List ProductGateFinding
  pub evidence_refs : List Text
  pub reason : Text
  pub schema_version : Text

abbrev pub has_blocking_findings : ProductGateResult → Bool
has_blocking_findings r = any is_blocking r.findings

-- `status in {PASSED, PRODUCT_GRADE}`
abbrev pub is_ready : ProductGateStatus → Bool
is_ready passed = true
is_ready product_grade = true
is_ready _ = false

abbrev pub finding_items : List ProductGateFinding → Items
finding_items [] = nil
finding_items (f ∷ fs) = cons (dict (finding_to_dict f)) (finding_items fs)

abbrev pub result_to_dict : ProductGateResult → Fields
result_to_dict r = entry "schema_version" (text r.schema_version) (
    entry "product_id" (text r.product_id) (
      entry "status" (text (status_value r.status)) (
        entry "gate_spec_ref" (text r.gate_spec_ref) (
          entry "findings" (list (finding_items r.findings)) (
            entry "evidence_refs" (strings r.evidence_refs)
              (entry "reason" (text r.reason) end))))))

unfoldable pub validate_findings : Platform → List ProductGateFinding → Outcome (Unit {0})
validate_findings py [] = ok tt
validate_findings py (f ∷ fs) = validate_finding py f >> validate_findings py fs

unfoldable pub validate_result : Platform → ProductGateResult → Outcome (Unit {0})
unfolding validate_findings
validate_result py r = do
  require_schema r.schema_version result_schema
  require_non_empty_str (text r.product_id)
  validate_ref (text r.gate_spec_ref)
  validate_findings py r.findings
  validate_ref_list r.evidence_refs
  refuse_if (has_blocking_findings r && is_ready r.status) mismatch
  assert_refs_only_payload py.lower (dict (result_to_dict r))
  ok tt

abbrev pub result_keys : List Text
result_keys =
    codes "schema_version"
    ∷ codes "product_id"
    ∷ codes "status"
    ∷ codes "gate_spec_ref"
    ∷ codes "findings"
    ∷ codes "evidence_refs"
    ∷ codes "reason"
    ∷ []

unfoldable pub parse_result : Platform → Fields → Outcome ProductGateResult
unfolding parse_findings
parse_result py fs = do
  product_id ← require_non_empty_str (item "product_id" fs)
  status ← require_enum status_of (item "status" fs)
  gate_spec_ref ← validate_ref (item "gate_spec_ref" fs)
  items ← children (item_or "findings" (strings []) fs)
  findings ← parse_findings py items
  evidence_refs ← require_str_list (item_or "evidence_refs" (strings []) fs)
  reason ← require_str (item_or "reason" (text []) fs)
  schema ← require_non_empty_str (item_or "schema_version" (text result_schema) fs)
  ok (record {
    product_id = product_id;
    status = status;
    gate_spec_ref = gate_spec_ref;
    findings = findings;
    evidence_refs = evidence_refs;
    reason = reason;
    schema_version = schema;
  })

unfoldable pub result_from_dict : Platform → Value → Outcome ProductGateResult
unfolding parse_result validate_result
result_from_dict py payload = do
  fs ← strict_mapping result_keys payload
  result ← parse_result py fs
  validate_result py result
  ok result
