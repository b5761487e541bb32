-- ===== src/DecisionLedger.antt =====
-- The entries of the decision ledger, src/missionforge/decision_ledger.py: one refs-only record for
-- each event of a task contract's run.
pub mod Package
pub mod Summary
pub mod Replay
pub mod Sequence
pub mod Replayed
use missionforge.Common.{Bool, true, false, not, Option, none, some, List, [], ◌∷◌, if◌then◌else◌}
use missionforge.Text.{Text, codes}
use missionforge.Text.Maps.{put, lookup}
use missionforge.Outcome.{
  Outcome, ok, refuse, missing, duplicate, refuse_if, not_text_list, ◌>>=◌, ◌>>◌,
}
use missionforge.Platform.{Platform, str}
use missionforge.Value.{
  Value, null, text, list, dict, object, Items, nil, cons, Fields, end, field, Key, name, other_key,
  item, item_or, entry,
}
use missionforge.Contracts.{require_non_empty_str, require_mapping, validate_ref}
use missionforge.Contracts.Payload.{assert_refs_only_payload}
use missionforge.Checks.{find_name, require_enum, require_schema, from_option, has_duplicates}
use missionforge.Checks.Hash.{validate_hash, strict_mapping}

-- DECISION_LEDGER_ENTRY_SCHEMA_VERSION
abbrev pub ledger_entry_schema : Text
ledger_entry_schema = codes "decision_ledger_entry.v1"

pub data DecisionLedgerEventKind : Type 0 where
  contract_frozen projection_written execution_packet_issued : DecisionLedgerEventKind
  execution_report_recorded hard_checks_recorded judge_packet_issued : DecisionLedgerEventKind
  judge_report_recorded repair_requested repair_execution_recorded : DecisionLedgerEventKind
  revision_requested revision_draft_recorded revision_applied : DecisionLedgerEventKind
  revision_judge_report_recorded final_package_emitted : DecisionLedgerEventKind

-- `event_kind.value`
abbrev pub event_kind_value : DecisionLedgerEventKind → Text
event_kind_value contract_frozen = codes "contract_frozen"
event_kind_value projection_written = codes "projection_written"
event_kind_value execution_packet_issued = codes "execution_packet_issued"
event_kind_value execution_report_recorded = codes "execution_report_recorded"
event_kind_value hard_checks_recorded = codes "hard_checks_recorded"
event_kind_value judge_packet_issued = codes "judge_packet_issued"
event_kind_value judge_report_recorded = codes "judge_report_recorded"
event_kind_value repair_requested = codes "repair_requested"
event_kind_value repair_execution_recorded = codes "repair_execution_recorded"
event_kind_value revision_requested = codes "revision_requested"
event_kind_value revision_draft_recorded = codes "revision_draft_recorded"
event_kind_value revision_applied = codes "revision_applied"
event_kind_value revision_judge_report_recorded = codes "revision_judge_report_recorded"
event_kind_value final_package_emitted = codes "final_package_emitted"

abbrev row : DecisionLedgerEventKind → Text × DecisionLedgerEventKind
row kind = (event_kind_value kind, kind)

abbrev pub event_kind_of : Text → Option DecisionLedgerEventKind
event_kind_of = find_name (
    row contract_frozen
    ∷ row projection_written
    ∷ row execution_packet_issued
    ∷ row execution_report_recorded
    ∷ row hard_checks_recorded
    ∷ row judge_packet_issued
    ∷ row judge_report_recorded
    ∷ row repair_requested
    ∷ row repair_execution_recorded
    ∷ row revision_requested
    ∷ row revision_draft_recorded
    ∷ row revision_applied
    ∷ row revision_judge_report_recorded
    ∷ row final_package_emitted
    ∷ [])

-- A dict from strings to strings, in insertion order, each key once.
abbrev pub Map : Type 0
Map = List (Text × Text)

abbrev pub fields_of : Map → Fields
fields_of [] = end
fields_of ((k, v) ∷ m) = field (name k) (text v) (fields_of m)

-- A key as a value, and `str(key)`.
abbrev pub key_value : Key → Value
key_value (name k) = text k
key_value (other_key n) = object n

unfoldable pub ref_entries : Platform → Fields → Map → Outcome Map
ref_entries py end refs = ok refs
ref_entries py (field k v fs) refs = do
  require_non_empty_str (key_value k)
  ref ← validate_ref v
  ref_entries py fs (put (str py (key_value k)) ref refs)

-- `_ref_mapping`
unfoldable pub ref_mapping : Platform → Value → Outcome Map
unfolding ref_entries
ref_mapping py value = do fs ← require_mapping value; ref_entries py fs []

unfoldable pub hash_entries : Platform → Fields → Map → Outcome Map
hash_entries py end hashes = ok hashes
hash_entries py (field k v fs) hashes = do
  validate_ref (text (str py (key_value k)))
  hash ← validate_hash v
  hash_entries py fs (put (str py (key_value k)) hash hashes)

-- `_hash_mapping`
unfoldable pub hash_mapping : Platform → Value → Outcome Map
unfolding hash_entries
hash_mapping py value = do fs ← require_mapping value; hash_entries py fs []

-- `_optional_str`
unfoldable pub optional_str : Value → Outcome (Option Text)
optional_str null = ok none
optional_str v = do t ← require_non_empty_str v; ok (some t)

-- `[validate_ref(item) for item in value]`, of a list of any values
unfoldable pub validate_items : Items → Outcome (List Text)
validate_items nil = ok []
validate_items (cons v vs) = do r ← validate_ref v; rs ← validate_items vs; ok (r ∷ rs)

-- `_ref_list`
unfoldable pub ref_list : Value → Outcome (List Text)
unfolding validate_items has_duplicates
ref_list (list vs) = do refs ← validate_items vs; refuse_if (has_duplicates refs) duplicate; ok refs
ref_list _ = refuse not_text_list

-- `_required_ref`
unfoldable pub required_ref : Map → Text → Outcome Text
required_ref refs key = elim (lookup key refs) [
  | none ↦ refuse missing
  | some value ↦ validate_ref (text value)
]

-- `_optional_ref_from_map`
unfoldable pub optional_ref_from_map : Map → Text → Outcome (Option Text)
optional_ref_from_map refs key = elim (lookup key refs) [
  | none ↦ ok none
  | some value ↦ validate_ref (text value) >>= λ ref. ok (some ref)
]

pub record TaskContractDecisionLedgerEntry : Type 0 where
  pub entry_id : Text
  pub run_id : Text
  pub event_kind : DecisionLedgerEventKind
  pub contract_id : Text
  pub contract_hash : Text
  pub ref_map : Map
  pub created_at : Text
  pub status : Option Text
  pub content_hashes : Map
  pub schema_version : Text

-- `to_dict_without_validation`
unfoldable pub content : TaskContractDecisionLedgerEntry → Fields
content e = entry "schema_version" (text e.schema_version) (
    entry "entry_id" (text e.entry_id) (
      entry "created_at" (text e.created_at) (
        entry "run_id" (text e.run_id) (
          entry "event_kind" (text (event_kind_value e.event_kind)) (
            entry "contract_id" (text e.contract_id) (
              entry "contract_hash" (text e.contract_hash) (
                entry "status" (from_option e.status) (
                  entry "ref_map" (dict (fields_of e.ref_map))
                    (entry "content_hashes" (dict (fields_of e.content_hashes)) end)))))))))

unfoldable pub validate : Platform → TaskContractDecisionLedgerEntry → Outcome (Unit {0})
unfolding content
validate py e = do
  require_schema e.schema_version ledger_entry_schema
  require_non_empty_str (text e.entry_id)
  require_non_empty_str (text e.run_id)
  require_non_empty_str (text e.contract_id)
  validate_hash (text e.contract_hash)
  ref_mapping py (dict (fields_of e.ref_map))
  hash_mapping py (dict (fields_of e.content_hashes))
  optional_str (from_option e.status)
  assert_refs_only_payload py.lower (dict (content e))
  ok tt

abbrev entry_keys : List Text
entry_keys =
    codes "schema_version"
    ∷ codes "entry_id"
    ∷ codes "created_at"
    ∷ codes "run_id"
    ∷ codes "event_kind"
    ∷ codes "contract_id"
    ∷ codes "contract_hash"
    ∷ codes "status"
    ∷ codes "ref_map"
    ∷ codes "content_hashes"
    ∷ []

unfoldable pub parse : Platform → Fields → Outcome TaskContractDecisionLedgerEntry
parse py fs = do
  schema ← require_non_empty_str (item_or "schema_version" (text ledger_entry_schema) fs)
  entry_id ← require_non_empty_str (item "entry_id" fs)
  run_id ← require_non_empty_str (item "run_id" fs)
  kind ← require_enum event_kind_of (item "event_kind" fs)
  contract_id ← require_non_empty_str (item "contract_id" fs)
  hash ← validate_hash (item "contract_hash" fs)
  status ← optional_str (item "status" fs)
  refs ← ref_mapping py (item_or "ref_map" (dict end) fs)
  hashes ← hash_mapping py (item_or "content_hashes" (dict end) fs)
  ok (record {
    entry_id = entry_id;
    run_id = run_id;
    event_kind = kind;
    contract_id = contract_id;
    contract_hash = hash;
    ref_map = refs;
    created_at = str py (item_or "created_at" (text []) fs);
    status = status;
    content_hashes = hashes;
    schema_version = schema;
  })

unfoldable pub from_dict : Platform → Value → Outcome TaskContractDecisionLedgerEntry
unfolding parse
from_dict py payload = do
  fs ← strict_mapping entry_keys payload
  e ← parse py fs
  validate py e
  ok e

unfoldable pub to_dict : Platform → TaskContractDecisionLedgerEntry → Outcome Fields
to_dict py e = do validate py e; ok (content e)
