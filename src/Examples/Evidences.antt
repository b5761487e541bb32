-- ===== src/Examples/Evidences.antt =====
-- The theorems on the evidence stores at one or two records.
use mathlib.Core.List.{Perm, Mem, mem-cons_self, mem-cons_of_mem}
use missionforge.Common.{
  ◌+◌, ◌≡◌, ◌≤◌, ◌≢◌, refl, sym, subst, length, arith, true, ◌||◌, none, some, Option, List, [],
  ◌∷◌, ◌++◌, if◌then◌else◌,
}
use missionforge.Text.{Text, codes, strip, starts_with}
use missionforge.Text.Maps.{lookup}
use missionforge.Outcome.{Outcome, ok, refuse, bad_segment}
use missionforge.Value.{Value, text, dict, Fields, end, item}
use missionforge.Kernel.Compile.Grants.{mapping_of}
use missionforge.Jsonl.{Codec}
use missionforge.Evidence.{EvidenceRef, test_result}
use missionforge.Evidence.Store.{
  EvidenceRecord, id_of, to_dict, from_dict, InMemoryEvidenceStore, empty_store, append,
}
use missionforge.Evidence.Store.Files.{FileEvidenceStore, file_append, text_lt, open_store}
use missionforge.Evidence.Store.Sorted.{File, IsSorted, json_files}
use missionforge.Evidence.Store.Appended.{IsValid, append-IsValid}
use missionforge.Evidence.Store.Duplicated.{append-duplicate}
use missionforge.Evidence.Store.Reopened.{
  Loads, open_store-IsValid, open_store-unordered, file_append-unsafe,
}
use missionforge.Examples.Running.{computing, python}

storing : Unit {0}
unfolding computing missionforge.Evidence.trust_satisfies missionforge.Evidence.artifact_from_dict
    missionforge.Evidence.validate_artifact_ref missionforge.Evidence.artifact_to_dict
    missionforge.Evidence.evidence_from_dict missionforge.Evidence.validate_sources
    missionforge.Evidence.validate_evidence missionforge.Evidence.evidence_to_dict
    missionforge.Evidence.require_trust_for_acceptance missionforge.Evidence.Store.validate_record
    missionforge.Evidence.Store.create missionforge.Evidence.Store.from_dict
    missionforge.Evidence.Store.to_dict missionforge.Evidence.Store.record_items
    missionforge.Evidence.Store.ledger_hash missionforge.Evidence.Store.snapshot_to_dict
    missionforge.Evidence.Store.empty_store missionforge.Evidence.Store.generated_id
    missionforge.Evidence.Store.next_id missionforge.Evidence.Store.append
    missionforge.Evidence.Store.get missionforge.Evidence.Store.Files.record_path
    missionforge.Evidence.Store.Files.pop_last missionforge.Evidence.Store.Files.remove
    missionforge.Evidence.Store.Files.write_record missionforge.Evidence.Store.Files.file_append
    missionforge.Evidence.Store.Files.text_lt missionforge.Evidence.Store.Files.insert_file
    missionforge.Evidence.Store.Files.sorted_files missionforge.Evidence.Store.Files.load_files
    missionforge.Evidence.Store.Files.open_store missionforge.Text.Maps.put
    missionforge.Text.Maps.lookup missionforge.TaskContract.Extension.validate_extension_package
    missionforge.TaskContract.Extension.validate_env_name
    missionforge.TaskContract.Extension.validate_env_names
    missionforge.TaskContract.Extension.optional_non_empty
    missionforge.TaskContract.Extension.validate missionforge.TaskContract.Extension.from_dict
    missionforge.TaskContract.Extension.validate_grants
    missionforge.TaskContract.Extension.parse_grants
    missionforge.TaskContract.Extension.grants_from_dicts
storing = tt

abbrev fresh : InMemoryEvidenceStore
fresh = record { records = []; by_id = []; ref_prefix = codes "evidence" }

abbrev none_made : EvidenceRef
none_made = record {
  evidence_id = [];
  ref = [];
  trust_level = test_result;
  kind = [];
  source_refs = [];
}

-- One more record under an id.
abbrev adding : InMemoryEvidenceStore → Option Text → Outcome (EvidenceRef × InMemoryEvidenceStore)
adding s id = append python s (dict end) (text (codes "test_result")) (codes "log") [] id none

abbrev added_of :
    Outcome (EvidenceRef × InMemoryEvidenceStore) → EvidenceRef × InMemoryEvidenceStore
added_of (ok p) = p
added_of _ = (none_made, fresh)

abbrev first : EvidenceRef × InMemoryEvidenceStore
first = added_of (adding fresh none)

first_added : adding fresh none ≡ ok first
unfolding storing
first_added = refl

append-IsValid_example :
    IsValid first.1
    × (r : EvidenceRecord) × (first.1.records ≡ [] ++ r ∷ [])
    × (r.evidence_ref ≡ first.0)
    × (r.sequence ≡ 0 + 1)
    × (lookup first.0.evidence_id first.1.by_id ≡ some r)
append-IsValid_example =
    append-IsValid python fresh first.1 (dict end) (text (codes "test_result")) (codes "log") []
      none none first.0 (record { numbered = tt; indexed = tt }) tt first_added

abbrev record_of : List EvidenceRecord → EvidenceRecord
record_of [] = record {
  sequence = 0;
  evidence_ref = none_made;
  payload = dict end;
  payload_hash = [];
}
record_of (r ∷ rs) = r

abbrev one : InMemoryEvidenceStore
one = (added_of (adding fresh (some (codes "a")))).1

abbrev a : EvidenceRecord
a = record_of one.records

abbrev padded : EvidenceRef × InMemoryEvidenceStore
padded = added_of (adding one (some (codes " a")))

padded_added : adding one (some (codes " a")) ≡ ok padded
unfolding storing
padded_added = refl

one_record : one.records ≡ [] ++ a ∷ []
unfolding storing
one_record = refl

a_id : id_of a ≡ strip (codes " a")
unfolding storing
a_id = refl

append-duplicate_example :
    (r : EvidenceRecord) × (padded.1.records ≡ one.records ++ r ∷ [])
    × (id_of r ≡ id_of a)
    × (lookup (id_of a) padded.1.by_id ≡ some r)
    × ¬ IsValid padded.1
append-duplicate_example =
    append-duplicate python one padded.1 (dict end) (text (codes "test_result")) (codes "log") []
      b' ' (codes "a") none padded.0 [] [] a one_record a_id padded_added

-- Two records in files: `b` is appended first, and `a` second.
abbrev two : InMemoryEvidenceStore
two = (added_of (adding (added_of (adding fresh (some (codes "b")))).1 (some (codes "a")))).1

abbrev fields_of : Outcome Fields → Fields
fields_of (ok fs) = fs
fields_of _ = end

abbrev second_of : List EvidenceRecord → EvidenceRecord
second_of (r ∷ s ∷ rs) = s
second_of rs = record_of rs

abbrev text_of : Value → Text
text_of (text t) = t
text_of _ = []

-- A record is written as its id.
abbrev by_name : Codec
by_name = record {
  dumps = λ v. text_of (item "evidence_id" (mapping_of (item "evidence_ref" (mapping_of v))));
  loads = λ s. some (
      dict (
        fields_of (
          to_dict
            (if starts_with (codes "b") s then record_of two.records else second_of two.records))));
}

abbrev filing : FileEvidenceStore → Option Text → FileEvidenceStore
filing s id =
    (file_append python by_name s (dict end) (text (codes "test_result")) (codes "log") [] id
      none).0

abbrev started : FileEvidenceStore
started = record { memory = fresh; files = [] }

abbrev b_only : FileEvidenceStore
b_only = filing started (some (codes "b"))

abbrev b_then_a : FileEvidenceStore
b_then_a = filing b_only (some (codes "a"))

-- A directory that lists its two files out of the order of their names.
abbrev out_of_order : List File
out_of_order = (codes "c.json", codes "c" ++ 10 ∷ []) ∷ b_only.files

abbrev store_of : Outcome FileEvidenceStore → FileEvidenceStore
store_of (ok s) = s
store_of _ = started

abbrev opened : FileEvidenceStore
opened = store_of (open_store python by_name out_of_order (codes "evidence"))

opens : open_store python by_name out_of_order (codes "evidence") ≡ ok opened
unfolding storing
opens = refl

open_store-IsValid_example :
    (ordered : List File) × IsSorted ordered
    × Perm ordered (json_files out_of_order)
    × Loads python by_name ordered opened.memory.records
    × IsValid opened.memory
open_store-IsValid_example =
    open_store-IsValid python by_name out_of_order (codes "evidence") opened opens

two_loaded : length opened.memory.records ≡ 2
unfolding storing
two_loaded = refl

abbrev a_file : File
a_file = (codes "a.json", codes "a" ++ 10 ∷ [])

abbrev b_file : File
b_file = (codes "b.json", codes "b" ++ 10 ∷ [])

both_files : json_files b_then_a.files ≡ b_file ∷ a_file ∷ []
unfolding storing
both_files = refl

b_read :
    from_dict python (dict (fields_of (to_dict (record_of two.records))))
    ≡ ok (record_of two.records)
unfolding storing
b_read = refl

b_loaded : by_name.loads b_file.1 ≡ some (dict (fields_of (to_dict (record_of two.records))))
unfolding storing
b_loaded = refl

a_read :
    from_dict python (dict (fields_of (to_dict (second_of two.records))))
    ≡ ok (second_of two.records)
unfolding storing
a_read = refl

a_loaded : by_name.loads a_file.1 ≡ some (dict (fields_of (to_dict (second_of two.records))))
unfolding storing
a_loaded = refl

a_before_b : text_lt a_file.0 b_file.0 ≡ true
unfolding storing
a_before_b = refl

b_earlier : (record_of two.records).sequence ≤ (second_of two.records).sequence
unfolding storing
b_earlier = omega arith

open_store-unordered_example :
    open_store python by_name b_then_a.files (codes "evidence") ≢ ok b_then_a
open_store-unordered_example =
    open_store-unordered python by_name b_then_a.files (codes "evidence") a_file b_file
      (dict (fields_of (to_dict (second_of two.records))))
      (dict (fields_of (to_dict (record_of two.records)))) (second_of two.records)
      (record_of two.records) b_then_a
      (subst (Mem a_file) (sym both_files) (mem-cons_of_mem b_file mem-cons_self))
      (subst (Mem b_file) (sym both_files) mem-cons_self) a_before_b a_loaded a_read b_loaded b_read
      b_earlier

abbrev slashed : EvidenceRef × InMemoryEvidenceStore
slashed = added_of (adding fresh (some (codes "a/b")))

slashed_added : adding fresh (some (codes "a/b")) ≡ ok slashed
unfolding storing
slashed_added = refl

slashed_unsafe :
    missionforge.Text.has_code b'/' slashed.0.evidence_id
      || missionforge.Text.has_code 92 slashed.0.evidence_id
    ≡ true
unfolding storing
slashed_unsafe = refl

file_append-unsafe_example :
    (r : EvidenceRecord) × (slashed.1.records ≡ [] ++ r ∷ [])
    × (r.evidence_ref ≡ slashed.0)
    × (file_append python by_name started
          (dict end)
          (text (codes "test_result"))
          (codes "log")
          []
          (some (codes "a/b"))
          none
        ≡ (record started { memory = slashed.1 }, refuse bad_segment))
file_append-unsafe_example =
    file_append-unsafe python by_name started (dict end) (text (codes "test_result")) (codes "log")
      [] (some (codes "a/b")) none slashed.0 slashed.1 slashed_added slashed_unsafe
