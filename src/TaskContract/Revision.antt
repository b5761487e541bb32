-- ===== src/TaskContract/Revision.antt =====
-- `TaskContractRevision` of src/missionforge/task_contract.py: the record of a change to a frozen
-- contract.
pub mod RoundTrip
use missionforge.Common.{Option, none, some, List, [], ◌∷◌, ◌≡◌, ◌≢◌}
use missionforge.Text.{Text, codes, text_eq}
use missionforge.Outcome.{Outcome, ok, refuse_if, mismatch, ◌>>=◌, ◌>>◌}
use missionforge.Value.{Value, text, Fields, end, item, item_or, entry, strings}
use missionforge.Contracts.{require_non_empty_str, require_mapping, validate_ref}
use missionforge.Checks.{ref_list, validate_unique_refs, require_schema, from_option}
use missionforge.Checks.Hash.{validate_hash}
use missionforge.TaskContract.Extension.{optional_non_empty}

-- TASK_CONTRACT_REVISION_SCHEMA_VERSION
abbrev pub revision_schema : Text
revision_schema = codes "task_contract_revision.v1"

pub record TaskContractRevision : Type 0 where
  pub revision_id : Text
  pub previous_contract_ref : Text
  pub previous_contract_hash : Text
  pub revised_contract_ref : Text
  pub revised_contract_hash : Text
  pub reason : Text
  pub requested_by : Text
  pub approved_by : Option Text
  pub evidence_refs : List Text
  pub schema_version : Text

unfoldable pub validate : TaskContractRevision → Outcome (Unit {0})
validate r = do
  require_schema r.schema_version revision_schema
  require_non_empty_str (text r.revision_id)
  validate_ref (text r.previous_contract_ref)
  validate_hash (text r.previous_contract_hash)
  validate_ref (text r.revised_contract_ref)
  validate_hash (text r.revised_contract_hash)
  refuse_if (text_eq r.previous_contract_hash r.revised_contract_hash) mismatch
  require_non_empty_str (text r.reason)
  require_non_empty_str (text r.requested_by)
  optional_non_empty (from_option r.approved_by)
  validate_unique_refs r.evidence_refs
  ok tt

unfoldable pub from_dict : Value → Outcome TaskContractRevision
from_dict payload = do
  fs ← require_mapping payload
  approved_by ← optional_non_empty (item "approved_by" fs)
  revision_id ← require_non_empty_str (item "revision_id" fs)
  previous_ref ← validate_ref (item "previous_contract_ref" fs)
  previous_hash ← require_non_empty_str (item "previous_contract_hash" fs)
  revised_ref ← validate_ref (item "revised_contract_ref" fs)
  revised_hash ← require_non_empty_str (item "revised_contract_hash" fs)
  reason ← require_non_empty_str (item "reason" fs)
  requested_by ← require_non_empty_str (item "requested_by" fs)
  evidence_refs ← ref_list (item_or "evidence_refs" (strings []) fs)
  schema ← require_non_empty_str (item_or "schema_version" (text revision_schema) fs)
  let revision : TaskContractRevision = record {
    revision_id = revision_id;
    previous_contract_ref = previous_ref;
    previous_contract_hash = previous_hash;
    revised_contract_ref = revised_ref;
    revised_contract_hash = revised_hash;
    reason = reason;
    requested_by = requested_by;
    approved_by = approved_by;
    evidence_refs = evidence_refs;
    schema_version = schema;
  }
  validate revision
  ok revision

abbrev pub content : TaskContractRevision → Fields
content r = entry "revision_id" (text r.revision_id) (
    entry "schema_version" (text r.schema_version) (
      entry "previous_contract_ref" (text r.previous_contract_ref) (
        entry "previous_contract_hash" (text r.previous_contract_hash) (
          entry "revised_contract_ref" (text r.revised_contract_ref) (
            entry "revised_contract_hash" (text r.revised_contract_hash) (
              entry "reason" (text r.reason) (
                entry "requested_by" (text r.requested_by) (
                  entry "approved_by" (from_option r.approved_by)
                    (entry "evidence_refs" (strings r.evidence_refs) end)))))))))

unfoldable pub to_dict : TaskContractRevision → Outcome Fields
to_dict r = validate r >> ok (content r)
