-- ===== src/Evidence/Store.antt =====
-- The evidence ledgers of src/missionforge/evidence_store.py: `InMemoryEvidenceStore` here,
-- `FileEvidenceStore` in Evidence/Store/Files.
pub mod Appended
pub mod Duplicated
pub mod Ids
pub mod Files
pub mod Reopened
pub mod Sorted
use missionforge.Common.{
  ℕ, suc, ◌+◌, Bool, true, false, not, Option, none, some, List, [], ◌∷◌, ◌++◌, length,
  if◌then◌else◌,
}
use missionforge.Text.{Text, codes, text_eq}
use missionforge.Text.Decimal.{decimal}
use missionforge.Text.Maps.{put, lookup}
use missionforge.Outcome.{
  Outcome, ok, refuse, refuse_if, duplicate, mismatch, not_found, ◌>>=◌, ◌>>◌,
}
use missionforge.Platform.{Platform}
use missionforge.Value.{
  pos, Value, text, integer, list, dict, Items, nil, cons, Fields, end, item, item_or, entry,
}
use missionforge.Contracts.{
  require_non_empty_str, require_mapping, require_int_at_least, validate_ref,
}
use missionforge.Contracts.Json.{ensure_json_value}
use missionforge.Checks.{require_enum, stable_json_hash, or_default}
use missionforge.Evidence.{
  EvidenceRef, level_of, evidence_from_dict, validate_evidence, evidence_to_dict,
}

pub record EvidenceRecord : Type 0 where
  pub sequence : ℕ
  pub evidence_ref : EvidenceRef
  pub payload : Value
  pub payload_hash : Text

-- `record.evidence_id`
abbrev pub id_of : EvidenceRecord → Text
id_of r = r.evidence_ref.evidence_id

unfoldable pub validate_record : EvidenceRecord → Outcome (Unit {0})
validate_record r = do
  require_int_at_least (integer (pos r.sequence)) 1
  validate_evidence r.evidence_ref
  fs ← require_mapping r.payload
  ensure_json_value (dict fs)
  require_non_empty_str (text r.payload_hash)
  ok tt

-- `EvidenceRecord.create`
unfoldable pub create :
    Platform → ℕ → Text → Text → Value → Text → Value → List Text → Outcome EvidenceRecord
create py sequence evidence_id ref trust_level kind payload source_refs = do
  fs ← require_mapping payload
  content ← ensure_json_value (dict fs)
  number ← require_int_at_least (integer (pos sequence)) 1
  id ← require_non_empty_str (text evidence_id)
  safe_ref ← validate_ref (text ref)
  level ← require_enum level_of trust_level
  safe_kind ← require_non_empty_str (text kind)
  hash ← stable_json_hash py content
  let made : EvidenceRecord = record {
    sequence = number;
    evidence_ref = record {
      evidence_id = id;
      ref = safe_ref;
      trust_level = level;
      kind = safe_kind;
      source_refs = source_refs;
    };
    payload = content;
    payload_hash = hash;
  }
  validate_record made
  ok made

unfoldable pub from_dict : Platform → Value → Outcome EvidenceRecord
from_dict py value = do
  fs ← require_mapping value
  number ← require_int_at_least (item "sequence" fs) 1
  ref_fields ← require_mapping (item "evidence_ref" fs)
  evidence ← evidence_from_dict (dict ref_fields)
  content_fields ← require_mapping (item_or "payload" (dict end) fs)
  content ← ensure_json_value (dict content_fields)
  hash ← require_non_empty_str (item "payload_hash" fs)
  let r : EvidenceRecord = record {
    sequence = number;
    evidence_ref = evidence;
    payload = content;
    payload_hash = hash;
  }
  validate_record r
  actual ← stable_json_hash py content
  refuse_if (not (text_eq hash actual)) mismatch
  ok r

unfoldable pub to_dict : EvidenceRecord → Outcome Fields
to_dict r = do
  validate_record r
  ref_fields ← evidence_to_dict r.evidence_ref
  content ← ensure_json_value r.payload
  ok (
      entry "sequence" (integer (pos r.sequence)) (
        entry "evidence_ref" (dict ref_fields)
          (entry "payload" content (entry "payload_hash" (text r.payload_hash) end))))

-- `[record.to_dict() for record in records]`
unfoldable pub record_items : List EvidenceRecord → Outcome Items
unfolding to_dict
record_items [] = ok nil
record_items (r ∷ rs) = do fs ← to_dict r; vs ← record_items rs; ok (cons (dict fs) vs)

-- `EvidenceSnapshot.ledger_hash`
unfoldable pub ledger_hash : Platform → List EvidenceRecord → Outcome Text
unfolding record_items
ledger_hash py records = do vs ← record_items records; stable_json_hash py (list vs)

-- `EvidenceSnapshot.to_dict`
unfoldable pub snapshot_to_dict : Platform → List EvidenceRecord → Outcome Fields
unfolding ledger_hash
snapshot_to_dict py records = do
  hash ← ledger_hash py records
  vs ← record_items records
  ok (entry "ledger_hash" (text hash) (entry "records" (list vs) end))

pub record InMemoryEvidenceStore : Type 0 where
  pub records : List EvidenceRecord
  pub by_id : List (Text × EvidenceRecord)
  pub ref_prefix : Text

unfoldable pub empty_store : Text → Outcome InMemoryEvidenceStore
empty_store ref_prefix = do
  prefix ← validate_ref (text ref_prefix)
  ok (record { records = []; by_id = []; ref_prefix = prefix })

-- `f"E-{sequence:06d}"`
unfoldable pub generated_id : ℕ → Text
generated_id sequence = codes "E-" ++ decimal 6 sequence

unfoldable pub next_id : Option Text → ℕ → Text
unfolding generated_id
next_id evidence_id sequence = or_default evidence_id (generated_id sequence)

abbrev pub is_known : Option EvidenceRecord → Bool
is_known none = false
is_known (some r) = true

-- `self._records.append(record)` and `self._by_id[record.evidence_id] = record`
abbrev pub with_record : InMemoryEvidenceStore → EvidenceRecord → InMemoryEvidenceStore
with_record store r = record store {
  records = store.records ++ r ∷ [];
  by_id = put (id_of r) r store.by_id;
}

-- `append`: the ref, and the store after it
unfoldable pub append :
    Platform
    → InMemoryEvidenceStore
    → Value
    → Value
    → Text
    → List Text
    → Option Text
    → Option Text
    → Outcome (EvidenceRef × InMemoryEvidenceStore)
unfolding next_id
append py store payload trust_level kind source_refs evidence_id ref = do
  let sequence : ℕ = length store.records + 1
  let id : Text = next_id evidence_id sequence
  refuse_if (is_known (lookup id store.by_id)) duplicate
  made ←
      create py sequence id
        (or_default ref (store.ref_prefix ++ (codes "/" ++ (id ++ codes ".json")))) trust_level kind
        payload source_refs
  ok (made.evidence_ref, with_record store made)

abbrev pub found_record : Option EvidenceRecord → Outcome EvidenceRecord
found_record none = refuse not_found
found_record (some r) = ok r

-- `get`
unfoldable pub get : InMemoryEvidenceStore → Text → Outcome EvidenceRecord
get store evidence_id = do
  id ← require_non_empty_str (text evidence_id)
  found_record (lookup id store.by_id)
