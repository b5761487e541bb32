-- ===== src/DecisionLedger/Summary.antt =====
-- `RunReplaySummary` of src/missionforge/decision_ledger.py: what a ledger says of its run.
use missionforge.Common.{Option, List, [], ◌∷◌}
use missionforge.Text.{Text, codes}
use missionforge.Outcome.{Outcome, ok, ◌>>=◌, ◌>>◌}
use missionforge.Platform.{Platform}
use missionforge.Value.{Value, text, dict, Fields, end, item, item_or, entry, strings}
use missionforge.Contracts.{require_non_empty_str, validate_ref}
use missionforge.Contracts.Payload.{assert_refs_only_payload}
use missionforge.Checks.{find_name, require_enum, require_schema, optional_ref, from_option}
use missionforge.Checks.Hash.{validate_hash, strict_mapping}
use missionforge.DecisionLedger.{ref_list}

-- RUN_REPLAY_SUMMARY_SCHEMA_VERSION
abbrev pub summary_schema : Text
summary_schema = codes "run_replay_summary.v1"

pub data RunReplayStatus : Type 0 where
  accepted repair revision_required rejected blocked unknown : RunReplayStatus

-- `status.value`
abbrev pub status_value : RunReplayStatus → Text
status_value accepted = codes "accepted"
status_value repair = codes "repair"
status_value revision_required = codes "revision_required"
status_value rejected = codes "rejected"
status_value blocked = codes "blocked"
status_value unknown = codes "unknown"

abbrev row : RunReplayStatus → Text × RunReplayStatus
row s = (status_value s, s)

abbrev pub status_of : Text → Option RunReplayStatus
status_of = find_name (
    row accepted
    ∷ row repair
    ∷ row revision_required
    ∷ row rejected
    ∷ row blocked
    ∷ row unknown
    ∷ [])

pub record RunReplaySummary : Type 0 where
  pub run_id : Text
  pub contract_id : Text
  pub contract_hash : Text
  pub status : RunReplayStatus
  pub decision_ledger_ref : Text
  pub ledger_tail_ref : Text
  pub final_package_ref : Option Text
  pub judge_report_ref : Option Text
  pub repair_brief_ref : Option Text
  pub revision_request_ref : Option Text
  pub accepted_artifact_refs : List Text
  pub schema_version : Text

-- `to_dict_without_validation`
unfoldable pub content : RunReplaySummary → Fields
content s = entry "schema_version" (text s.schema_version) (
    entry "run_id" (text s.run_id) (
      entry "contract_id" (text s.contract_id) (
        entry "contract_hash" (text s.contract_hash) (
          entry "status" (text (status_value s.status)) (
            entry "decision_ledger_ref" (text s.decision_ledger_ref) (
              entry "ledger_tail_ref" (text s.ledger_tail_ref) (
                entry "final_package_ref" (from_option s.final_package_ref) (
                  entry "judge_report_ref" (from_option s.judge_report_ref) (
                    entry "repair_brief_ref" (from_option s.repair_brief_ref) (
                      entry "revision_request_ref" (from_option s.revision_request_ref) (
                        entry "accepted_artifact_refs" (strings s.accepted_artifact_refs)
                          end)))))))))))

unfoldable pub validate : Platform → RunReplaySummary → Outcome (Unit {0})
unfolding content
validate py s = do
  require_schema s.schema_version summary_schema
  require_non_empty_str (text s.run_id)
  require_non_empty_str (text s.contract_id)
  validate_hash (text s.contract_hash)
  validate_ref (text s.decision_ledger_ref)
  validate_ref (text s.ledger_tail_ref)
  optional_ref (from_option s.final_package_ref)
  optional_ref (from_option s.judge_report_ref)
  optional_ref (from_option s.repair_brief_ref)
  optional_ref (from_option s.revision_request_ref)
  ref_list (strings s.accepted_artifact_refs)
  assert_refs_only_payload py.lower (dict (content s))
  ok tt

abbrev summary_keys : List Text
summary_keys =
    codes "schema_version"
    ∷ codes "run_id"
    ∷ codes "contract_id"
    ∷ codes "contract_hash"
    ∷ codes "status"
    ∷ codes "decision_ledger_ref"
    ∷ codes "ledger_tail_ref"
    ∷ codes "final_package_ref"
    ∷ codes "judge_report_ref"
    ∷ codes "repair_brief_ref"
    ∷ codes "revision_request_ref"
    ∷ codes "accepted_artifact_refs"
    ∷ []

unfoldable pub parse : Fields → Outcome RunReplaySummary
parse fs = do
  schema ← require_non_empty_str (item_or "schema_version" (text summary_schema) fs)
  run_id ← require_non_empty_str (item "run_id" fs)
  contract_id ← require_non_empty_str (item "contract_id" fs)
  hash ← validate_hash (item "contract_hash" fs)
  status ← require_enum status_of (item "status" fs)
  ledger_ref ← validate_ref (item "decision_ledger_ref" fs)
  tail_ref ← validate_ref (item "ledger_tail_ref" fs)
  package_ref ← optional_ref (item "final_package_ref" fs)
  judge_ref ← optional_ref (item "judge_report_ref" fs)
  repair_ref ← optional_ref (item "repair_brief_ref" fs)
  revision_ref ← optional_ref (item "revision_request_ref" fs)
  artifacts ← ref_list (item_or "accepted_artifact_refs" (strings []) fs)
  ok (record {
    run_id = run_id;
    contract_id = contract_id;
    contract_hash = hash;
    status = status;
    decision_ledger_ref = ledger_ref;
    ledger_tail_ref = tail_ref;
    final_package_ref = package_ref;
    judge_report_ref = judge_ref;
    repair_brief_ref = repair_ref;
    revision_request_ref = revision_ref;
    accepted_artifact_refs = artifacts;
    schema_version = schema;
  })

unfoldable pub from_dict : Platform → Value → Outcome RunReplaySummary
unfolding parse
from_dict py payload = do
  fs ← strict_mapping summary_keys payload
  s ← parse fs
  validate py s
  ok s

unfoldable pub to_dict : Platform → RunReplaySummary → Outcome Fields
to_dict py s = do validate py s; ok (content s)
