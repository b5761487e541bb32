-- ===== src/Evidence/Store/Files.antt =====
-- `FileEvidenceStore` of src/missionforge/evidence_store.py: the records of the store in memory, each
-- in a file of a directory that is named after its id. A call gives the store after it also when it
-- raises.
use missionforge.Common.{
  ◌+◌, Bool, true, false, not, ◌&&◌, ◌||◌, ltb, ◌==◌, Option, none, some, List, [], ◌∷◌, ◌++◌,
  length, if◌then◌else◌,
}
use missionforge.Text.{Text, codes, text_eq, has_code, ends_with}
use missionforge.Text.Maps.{put, lookup}
use missionforge.Outcome.{
  Outcome, ok, raise, refuse, refuse_if, json_decode_error, bad_segment, duplicate, mismatch, ◌>>=◌,
  ◌>>◌,
}
use missionforge.Platform.{Platform}
use missionforge.Value.{Value, text, dict, Fields}
use missionforge.Contracts.{require_non_empty_str}
use missionforge.Jsonl.{Codec}
use missionforge.Evidence.{EvidenceRef}
use missionforge.Evidence.Store.{
  EvidenceRecord, id_of, from_dict, to_dict, InMemoryEvidenceStore, empty_store, with_record,
  is_known, append, get,
}

-- The directory has a name and a text for each of its files.
pub record FileEvidenceStore : Type 0 where
  pub memory : InMemoryEvidenceStore
  pub files : List (Text × Text)

-- `_record_path`
unfoldable pub record_path : Text → Outcome Text
record_path evidence_id = do
  safe_id ← require_non_empty_str (text evidence_id)
  refuse_if (has_code b'/' safe_id || has_code 92 safe_id) bad_segment
  ok (safe_id ++ codes ".json")

-- `self._records.pop()`
unfoldable pub pop_last {ℓ} : {A : Type ℓ} → List A → List A
pop_last [] = []
pop_last (x ∷ []) = []
pop_last (x ∷ y ∷ xs) = x ∷ pop_last (y ∷ xs)

-- `self._by_id.pop(key, None)`
unfoldable pub remove {ℓ} : {A : Type ℓ} → Text → List (Text × A) → List (Text × A)
remove k [] = []
remove k ((j, v) ∷ m) = let rest = remove k m in if text_eq j k then m else (j, v) ∷ rest

abbrev pub without_last : InMemoryEvidenceStore → Text → InMemoryEvidenceStore
without_last store id = record store {
  records = pop_last store.records;
  by_id = remove id store.by_id;
}

abbrev pub is_file : Option Text → Bool
is_file none = false
is_file (some s) = true

abbrev pub write_fields :
    Codec → FileEvidenceStore → Text → Outcome Fields → FileEvidenceStore × Outcome (Unit {0})
write_fields json store path (raise e) = (store, raise e)
write_fields json store path (ok fs) =
    (record store { files = put path (json.dumps (dict fs) ++ 10 ∷ []) store.files }, ok tt)

-- What happens at the path of a record that the memory already has.
unfoldable pub write_record :
    Codec → FileEvidenceStore → EvidenceRecord → Text → FileEvidenceStore × Outcome (Unit {0})
unfolding pop_last remove
write_record json store r path =
    if is_file (lookup path store.files)
    then (record store { memory = without_last store.memory (id_of r) }, refuse duplicate)
    else write_fields json store path (to_dict r)

abbrev pub at_path :
    Codec
    → FileEvidenceStore
    → EvidenceRef
    → EvidenceRecord
    → Outcome Text
    → FileEvidenceStore × Outcome EvidenceRef
at_path json store ref r (raise e) = (store, raise e)
at_path json store ref r (ok path) =
    let (after, written) = write_record json store r path in (after, written >> ok ref)

abbrev pub at_record :
    Codec
    → FileEvidenceStore
    → EvidenceRef
    → Outcome EvidenceRecord
    → FileEvidenceStore × Outcome EvidenceRef
at_record json store ref (raise e) = (store, raise e)
at_record json store ref (ok r) = at_path json store ref r (record_path (id_of r))

-- `append` after the record is in the memory, or was refused there.
abbrev pub after_append :
    Codec
    → FileEvidenceStore
    → Outcome (EvidenceRef × InMemoryEvidenceStore)
    → FileEvidenceStore × Outcome EvidenceRef
after_append json store (raise e) = (store, raise e)
after_append json store (ok (made, memory)) =
    at_record json (record store { memory = memory }) made (get memory made.evidence_id)

unfoldable pub file_append :
    Platform
    → Codec
    → FileEvidenceStore
    → Value
    → Value
    → Text
    → List Text
    → Option Text
    → Option Text
    → FileEvidenceStore × Outcome EvidenceRef
unfolding write_record record_path
file_append py json store payload trust_level kind source_refs evidence_id ref =
    after_append json store
      (append py store.memory payload trust_level kind source_refs evidence_id ref)

-- `<` of Python strings
unfoldable pub text_lt : Text → Text → Bool
text_lt s [] = false
text_lt [] (d ∷ t) = true
text_lt (c ∷ s) (d ∷ t) = ltb c d || (c == d && text_lt s t)

unfoldable pub insert_file : Text × Text → List (Text × Text) → List (Text × Text)
unfolding text_lt
insert_file f [] = f ∷ []
insert_file f (g ∷ gs) =
    let rest = insert_file f gs in if text_lt g.0 f.0 then g ∷ rest else f ∷ g ∷ gs

-- `sorted(root.glob("*.json"))`
unfoldable pub sorted_files : List (Text × Text) → List (Text × Text)
unfolding insert_file
sorted_files [] = []
sorted_files (f ∷ fs) =
    let rest = sorted_files fs in if ends_with (codes ".json") f.0 then insert_file f rest else rest

abbrev pub loaded : Option Value → Outcome Value
loaded none = raise json_decode_error
loaded (some v) = ok v

-- The loop of `_load_existing`.
unfoldable pub load_files :
    Platform → Codec → List (Text × Text) → InMemoryEvidenceStore → Outcome InMemoryEvidenceStore
load_files py json [] memory = ok memory
load_files py json (f ∷ fs) memory = do
  value ← loaded (json.loads f.1)
  r ← from_dict py value
  refuse_if (is_known (lookup (id_of r) memory.by_id)) duplicate
  refuse_if (not (r.sequence == length memory.records + 1)) mismatch
  load_files py json fs (with_record memory r)

-- `FileEvidenceStore(root, ref_prefix=ref_prefix)` over a directory that is there
unfoldable pub open_store : Platform → Codec → List (Text × Text) → Text → Outcome FileEvidenceStore
unfolding load_files sorted_files
open_store py json files ref_prefix = do
  memory ← empty_store ref_prefix
  full ← load_files py json (sorted_files files) memory
  ok (record { memory = full; files = files })
