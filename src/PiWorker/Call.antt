-- ===== src/PiWorker/Call.antt =====
-- `PiWorkerCall` of src/missionforge/piworker_call.py: the refs, the write scope and the contract that
-- one call of a worker is bound to.
use missionforge.Common.{Option, List, [], ◌∷◌, is_empty}
use missionforge.Text.{Text, codes}
use missionforge.Outcome.{Outcome, ok, refuse_if, missing, ◌>>=◌, ◌>>◌}
use missionforge.Platform.{Platform}
use missionforge.Value.{Value, text, dict, Fields, end, item, item_or, entry, strings}
use missionforge.Contracts.{require_non_empty_str, require_mapping, validate_ref}
use missionforge.Checks.{
  ref_list, validate_unique_refs, optional_ref, from_option, require_enum, require_schema,
  safe_mapping,
}
use missionforge.Checks.Hash.{validate_hash, hash_or_none, reject_unknown}
use missionforge.Kernel.Contracts.{PiWorkerCallRole}
use missionforge.Kernel.Toolset.{role_value}
use missionforge.PiWorker.{role_of, metadata, runtime_budget, validate_refs_under_roots}

-- PIWORKER_CALL_SCHEMA_VERSION
abbrev pub call_schema : Text
call_schema = codes "piworker_call.v1"

pub record PiWorkerCall : Type 0 where
  pub call_id : Text
  pub role : PiWorkerCallRole
  pub contract_id : Text
  pub contract_hash : Text
  pub contract_ref : Text
  pub objective : Text
  pub visible_refs : List Text
  pub writable_refs : List Text
  pub expected_output_refs : List Text
  pub permission_manifest_ref : Option Text
  pub source_packet_ref : Option Text
  pub source_packet_hash : Option Text
  pub evidence_refs : List Text
  pub output_schema_ref : Option Text
  pub validation_policy_ref : Option Text
  pub runtime_budget : Value
  pub metadata : Value
  pub schema_version : Text

unfoldable pub validate : Platform → PiWorkerCall → Outcome (Unit {0})
validate py c = do
  require_schema c.schema_version call_schema
  require_non_empty_str (text c.call_id)
  require_non_empty_str (text c.contract_id)
  validate_hash (text c.contract_hash)
  validate_ref (text c.contract_ref)
  require_non_empty_str (text c.objective)
  validate_unique_refs c.visible_refs
  validate_unique_refs c.writable_refs
  validate_unique_refs c.expected_output_refs
  validate_unique_refs c.evidence_refs
  refuse_if (is_empty c.expected_output_refs) missing
  validate_refs_under_roots c.expected_output_refs c.writable_refs
  optional_ref (from_option c.permission_manifest_ref)
  optional_ref (from_option c.source_packet_ref)
  hash_or_none (from_option c.source_packet_hash)
  optional_ref (from_option c.output_schema_ref)
  optional_ref (from_option c.validation_policy_ref)
  runtime_budget py c.runtime_budget
  metadata py c.metadata
  ok tt

-- _PIWORKER_CALL_FIELDS
abbrev call_keys : List Text
call_keys =
    codes "call_id"
    ∷ codes "schema_version"
    ∷ codes "role"
    ∷ codes "contract_id"
    ∷ codes "contract_hash"
    ∷ codes "contract_ref"
    ∷ codes "objective"
    ∷ codes "visible_refs"
    ∷ codes "writable_refs"
    ∷ codes "expected_output_refs"
    ∷ codes "permission_manifest_ref"
    ∷ codes "source_packet_ref"
    ∷ codes "source_packet_hash"
    ∷ codes "evidence_refs"
    ∷ codes "output_schema_ref"
    ∷ codes "validation_policy_ref"
    ∷ codes "runtime_budget"
    ∷ codes "metadata"
    ∷ []

unfoldable pub parse : Platform → Fields → Outcome PiWorkerCall
parse py fs = do
  call_id ← require_non_empty_str (item "call_id" fs)
  schema ← require_non_empty_str (item_or "schema_version" (text call_schema) fs)
  role ← require_enum role_of (item "role" fs)
  contract_id ← require_non_empty_str (item "contract_id" fs)
  hash ← validate_hash (item "contract_hash" fs)
  contract_ref ← validate_ref (item "contract_ref" fs)
  objective ← require_non_empty_str (item "objective" fs)
  visible ← ref_list (item_or "visible_refs" (strings []) fs)
  writable ← ref_list (item_or "writable_refs" (strings []) fs)
  expected ← ref_list (item_or "expected_output_refs" (strings []) fs)
  manifest_ref ← optional_ref (item "permission_manifest_ref" fs)
  packet_ref ← optional_ref (item "source_packet_ref" fs)
  packet_hash ← hash_or_none (item "source_packet_hash" fs)
  evidence ← ref_list (item_or "evidence_refs" (strings []) fs)
  schema_ref ← optional_ref (item "output_schema_ref" fs)
  policy_ref ← optional_ref (item "validation_policy_ref" fs)
  budget ← runtime_budget py (item_or "runtime_budget" (dict end) fs)
  meta ← metadata py (item_or "metadata" (dict end) fs)
  ok (record {
    call_id = call_id;
    role = role;
    contract_id = contract_id;
    contract_hash = hash;
    contract_ref = contract_ref;
    objective = objective;
    visible_refs = visible;
    writable_refs = writable;
    expected_output_refs = expected;
    permission_manifest_ref = manifest_ref;
    source_packet_ref = packet_ref;
    source_packet_hash = packet_hash;
    evidence_refs = evidence;
    output_schema_ref = schema_ref;
    validation_policy_ref = policy_ref;
    runtime_budget = budget;
    metadata = meta;
    schema_version = schema;
  })

unfoldable pub from_dict : Platform → Value → Outcome PiWorkerCall
unfolding parse
from_dict py payload = do
  checked ← safe_mapping py payload
  fs ← require_mapping checked
  reject_unknown call_keys fs
  call ← parse py fs
  validate py call
  ok call

unfoldable pub to_dict : Platform → PiWorkerCall → Outcome Fields
to_dict py c = do
  validate py c
  ok (
      entry "call_id" (text c.call_id) (
        entry "schema_version" (text c.schema_version) (
          entry "role" (text (role_value c.role)) (
            entry "contract_id" (text c.contract_id) (
              entry "contract_hash" (text c.contract_hash) (
                entry "contract_ref" (text c.contract_ref) (
                  entry "objective" (text c.objective) (
                    entry "visible_refs" (strings c.visible_refs) (
                      entry "writable_refs" (strings c.writable_refs) (
                        entry "expected_output_refs" (strings c.expected_output_refs) (
                          entry "permission_manifest_ref" (from_option c.permission_manifest_ref) (
                            entry "source_packet_ref" (from_option c.source_packet_ref) (
                              entry "source_packet_hash" (from_option c.source_packet_hash) (
                                entry "evidence_refs" (strings c.evidence_refs) (
                                  entry "output_schema_ref" (from_option c.output_schema_ref) (
                                    entry "validation_policy_ref"
                                      (from_option c.validation_policy_ref)
                                      (entry "runtime_budget" c.runtime_budget
                                        (entry "metadata" c.metadata end))))))))))))))))))
