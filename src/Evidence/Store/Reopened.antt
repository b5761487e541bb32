-- ===== src/Evidence/Store/Reopened.antt =====
-- Opening a directory of records again, and what a call of `append` that raises leaves behind
-- (src/missionforge/evidence_store.py).
use mathlib.Core.HLevel.{⊥_prop}
use mathlib.Core.Logic.Or
use mathlib.Core.List.Perm
use mathlib.Core.List.{Perm, Mem, mem-cons, not-mem-nil, append_assoc, append-nil}
use native.Mathlib.Bridge.{le_prop}
use missionforge.Common.{
  ℕ, suc, ◌+◌, ◌≤◌, ◌<◌, ◌≡◌, ◌≢◌, refl, sym, ap, subst, ◌∙◌, arith, Bool, true, false, not, ◌==◌,
  ==_iff, Option, none, some, List, [], ◌∷◌, ◌++◌, ◌||◌, length, All,
}
use missionforge.Text.{Text, has_code, strip}
use missionforge.Text.Strip.{strip_idem}
use missionforge.Text.Maps.{put, lookup, lookup-put_self}
use missionforge.Outcome.{
  ok, refuse, refuse_if, duplicate, mismatch, bad_segment, >>=-eq-ok, refuse_if-eq-ok, ok_injective,
}
use missionforge.Platform.{Platform}
use missionforge.Value.{Value, text}
use missionforge.Contracts.{require_non_empty_str, validate_ref}
use missionforge.Jsonl.{Codec}
use missionforge.Evidence.{EvidenceRef}
use missionforge.Evidence.Store.{
  EvidenceRecord, id_of, from_dict, InMemoryEvidenceStore, empty_store, with_record, is_known,
  next_id, append, get,
}
use missionforge.Evidence.Store.Files.{
  text_lt, FileEvidenceStore, record_path, file_append, sorted_files, loaded, load_files,
  open_store,
}
use missionforge.Evidence.Store.Sorted.{
  File, IsBefore, IsSorted, json_files, lt_asym, sorted_files-IsSorted, sorted_files-perm,
}
use missionforge.Evidence.Store.Appended.{
  IsValid, with_record-IsValid, append-Added, known_none, IsNumbered,
}

not-false : (b : Bool) → not b ≡ false → b ≡ true
not-false true h = refl
not-false false h = cc

-- The records are those that the files hold, in their order.
pub data Loads (py : Platform) (json : Codec) : List File → List EvidenceRecord → Type 0 where
  no_file : Loads py json [] []
  next_file :
      (f : File) (fs : List File) (value : Value) (r : EvidenceRecord) (rs : List EvidenceRecord)
      → json.loads f.1 ≡ some value
      → from_dict py value ≡ ok r
      → Loads py json fs rs
      → Loads py json (f ∷ fs) (r ∷ rs)

loaded-some : (o : Option Value) (v : Value) → loaded o ≡ ok v → o ≡ some v
loaded-some none v h = cc
loaded-some (some w) v h = ap some (ok_injective h)

-- What loading files makes of a store: a valid one, with the records of the files behind those before.
record Filled (py : Platform) (json : Codec) (fs : List File) (m full : InMemoryEvidenceStore)
    : Type 0 where
  new : List EvidenceRecord
  loads : Loads py json fs new
  records : full.records ≡ m.records ++ new
  valid : IsValid full

load_files-Filled :
    (py : Platform) (json : Codec) (fs : List File) (m full : InMemoryEvidenceStore)
    → IsValid m
    → load_files py json fs m ≡ ok full
    → Filled py json fs m full
unfolding load_files
load_files-Filled py json [] m full v h =
    subst (Filled py json [] m) (ok_injective h)
      (record { new = []; loads = no_file; records = sym (append-nil m.records); valid = v })
load_files-Filled py json (f ∷ fs) m full v h =
    let (value, e1, h1) = >>=-eq-ok (loaded (json.loads f.1)) _ h in
    let (r, e2, h2) = >>=-eq-ok (from_dict py value) _ h1 in
    let (u, e3, h3) = >>=-eq-ok (refuse_if (is_known (lookup (id_of r) m.by_id)) duplicate) _ h2 in
    let (w, e4, h4) =
      >>=-eq-ok (refuse_if (not (r.sequence == length m.records + 1)) mismatch) _ h3 in
    let number : r.sequence ≡ length m.records + 1 = (==_iff r.sequence (length m.records + 1)).0 (
      not-false (r.sequence == length m.records + 1)
        (refuse_if-eq-ok (not (r.sequence == length m.records + 1)) mismatch e4)) in
    let fresh : lookup (id_of r) m.by_id ≡ none =
      known_none (lookup (id_of r) m.by_id)
        (refuse_if-eq-ok (is_known (lookup (id_of r) m.by_id)) duplicate e3) in
    let rest =
      load_files-Filled py json fs (with_record m r) full (with_record-IsValid m r v number fresh)
        h4 in
    record {
      new = r ∷ rest.new;
      loads = next_file f fs value r rest.new (loaded-some (json.loads f.1) value e1) e2 rest.loads;
      records = rest.records ∙ append_assoc m.records (r ∷ []) rest.new;
      valid = rest.valid;
    }

empty_store-IsValid :
    (prefix : Text) (m : InMemoryEvidenceStore)
    → empty_store prefix ≡ ok m
    → IsValid m × (m.records ≡ []) × (m.by_id ≡ [])
unfolding empty_store
empty_store-IsValid prefix m h =
    let (p, e, h1) = >>=-eq-ok (validate_ref (text prefix)) _ h in
    subst (λ (s : InMemoryEvidenceStore). IsValid s × (s.records ≡ []) × (s.by_id ≡ []))
      (ok_injective h1) (record { numbered = tt; indexed = tt }, refl, refl)

-- A directory that opens gives a valid store: put in the order of their names, its JSON files, all of
-- them, hold the records of the store one by one; the records count up from 1, and each is found under
-- its id.
pub open_store-IsValid :
    (py : Platform) (json : Codec) (files : List File) (prefix : Text) (s : FileEvidenceStore)
    → open_store py json files prefix ≡ ok s
    → (ordered : List File) × IsSorted ordered
      × Perm ordered (json_files files)
      × Loads py json ordered s.memory.records
      × IsValid s.memory
unfolding open_store
open_store-IsValid py json files prefix s h =
    let (m, e1, h1) = >>=-eq-ok (empty_store prefix) _ h in
    let (full, e2, h2) = >>=-eq-ok (load_files py json (sorted_files files) m) _ h1 in
    let (valid, no_records, no_ids) = empty_store-IsValid prefix m e1 in
    let filled = load_files-Filled py json (sorted_files files) m full valid e2 in
    let records : full.records ≡ filled.new =
      filled.records ∙ ap (λ rs. rs ++ filled.new) no_records in
    subst
      (λ (x : FileEvidenceStore).
        (ordered : List File) × IsSorted ordered
        × Perm ordered (json_files files)
        × Loads py json ordered x.memory.records
        × IsValid x.memory)
      (ok_injective h2)
      (
        sorted_files files,
        sorted_files-IsSorted files,
        sorted_files-perm files,
        subst (Loads py json (sorted_files files)) (sym records) filled.loads,
        filled.valid,
      )

-- One file holds one record.
same_record :
    (py : Platform) (json : Codec) (f g : File) (v w : Value) (q r : EvidenceRecord)
    → g ≡ f
    → json.loads f.1 ≡ some v
    → from_dict py v ≡ ok q
    → json.loads g.1 ≡ some w
    → from_dict py w ≡ ok r
    → q.sequence ≡ r.sequence
same_record py json f g v w q r e l p l' p' =
    let values : some v ≡ some w = sym l ∙ ap (λ (x : File). json.loads x.1) (sym e) ∙ l' in
    let records : ok q ≡ ok r =
      sym p
      ∙ ap (λ (o : Option Value). elim o [ none ↦ ok q | some x ↦ from_dict py x ]) values
      ∙ p' in
    ap (λ (x : EvidenceRecord). x.sequence) (ok_injective records)

-- A file that holds a record of the list has a number of the list.
number_from :
    (py : Platform) (json : Codec) (n : ℕ) (fs : List File) (rs : List EvidenceRecord) (g : File)
    (value : Value) (r : EvidenceRecord)
    → Loads py json fs rs
    → IsNumbered n rs
    → Mem g fs
    → json.loads g.1 ≡ some value
    → from_dict py value ≡ ok r
    → n ≤ r.sequence
number_from py json n [] rs g value r loads number at read parsed = absurd (not-mem-nil at)
number_from py json n (f ∷ fs) [] g value r loads number at read parsed = elim loads [ ]
number_from py json n (f ∷ fs) (q ∷ rs) g value r (next_file _ _ w _ _ l p loads) number at read
      parsed =
    Or.elim le_prop (mem-cons.0 at)
      (λ e.
        let same = same_record py json f g w value q r e l p read parsed in
        omega (arith, number.0, same))
      (λ k.
        let more = number_from py json (suc n) fs rs g value r loads number.1 k read parsed in
        omega (arith, more))

all_of_mem : (P : File → Type 0) (f : File) (fs : List File) → All P fs → Mem f fs → (P f → ⊥) → ⊥
all_of_mem P f [] all at out = not-mem-nil at
all_of_mem P f (g ∷ fs) (p, all) at out =
    Or.elim ⊥_prop (mem-cons.0 at) (λ e. out (subst P (sym e) p)) (λ k. all_of_mem P f fs all k out)

-- Files in the order of their names hold numbers in that order.
numbers_ordered :
    (py : Platform) (json : Codec) (n : ℕ) (fs : List File) (rs : List EvidenceRecord) (f g : File)
    (vf vg : Value) (rf rg : EvidenceRecord)
    → IsSorted fs
    → Loads py json fs rs
    → IsNumbered n rs
    → Mem f fs
    → Mem g fs
    → text_lt f.0 g.0 ≡ true
    → json.loads f.1 ≡ some vf
    → from_dict py vf ≡ ok rf
    → json.loads g.1 ≡ some vg
    → from_dict py vg ≡ ok rg
    → rf.sequence < rg.sequence
numbers_ordered py json n [] rs f g vf vg rf rg sorted loads number af ag less lf pf lg pg =
    absurd (not-mem-nil af)
numbers_ordered py json n (h ∷ fs) [] f g vf vg rf rg sorted loads number af ag less lf pf lg pg =
    elim loads [ ]
numbers_ordered py json n (h ∷ fs) (q ∷ rs) f g vf vg rf rg sorted (next_file _ _ w _ _ l p loads)
      number af ag less lf pf lg pg =
    Or.elim le_prop (mem-cons.0 af)
      (λ ef.
        Or.elim le_prop (mem-cons.0 ag)
          (λ eg.
            let same : text_lt f.0 f.0 ≡ true =
              subst (λ (x : File). text_lt f.0 x.0 ≡ true) (eg ∙ sym ef) less in
            let never = lt_asym f.0 f.0 same in absurd (cc))
          (λ kg.
            let same = same_record py json h f w vf q rf ef l p lf pf in
            let more = number_from py json (suc n) fs rs g vg rg loads number.1 kg lg pg in
            let here = number.0 in omega (arith, here, more, same)))
      (λ kf.
        Or.elim le_prop (mem-cons.0 ag)
          (λ eg. absurd (
            all_of_mem (IsBefore h) f fs sorted.0 kf (λ b.
              let greater : text_lt f.0 h.0 ≡ true =
                subst (λ (x : File). text_lt f.0 x.0 ≡ true) eg less in
              cc)))
          (λ kg.
            numbers_ordered py json (suc n) fs rs f g vf vg rf rg sorted.1 loads number.1 kf kg less
              lf pf lg pg))

-- A directory in which the later of two records stands in the file whose name comes first does not
-- open, whatever other files it holds.
pub open_store-unordered :
    (py : Platform) (json : Codec) (files : List File) (prefix : Text) (f g : File) (vf vg : Value)
    (rf rg : EvidenceRecord) (s : FileEvidenceStore)
    → Mem f (json_files files)
    → Mem g (json_files files)
    → text_lt f.0 g.0 ≡ true
    → json.loads f.1 ≡ some vf
    → from_dict py vf ≡ ok rf
    → json.loads g.1 ≡ some vg
    → from_dict py vg ≡ ok rg
    → rg.sequence ≤ rf.sequence
    → open_store py json files prefix ≢ ok s
open_store-unordered py json files prefix f g vf vg rf rg s af ag less lf pf lg pg later h =
    let (ordered, sorted, same, loads, valid) = open_store-IsValid py json files prefix s h in
    let mf : Mem f ordered = (Perm.mem_iff same).1 af in
    let mg : Mem g ordered = (Perm.mem_iff same).1 ag in
    let order =
      numbers_ordered py json 1 ordered s.memory.records f g vf vg rf rg sorted loads valid.numbered
        mf mg less lf pf lg pg in
    omega (arith, order, later)

filled_strip :
    (id : Text)
    → require_non_empty_str (text id) ≡ ok (strip id)
    → require_non_empty_str (text (strip id)) ≡ ok (strip id)
unfolding require_non_empty_str
filled_strip id h = rw (strip_idem id) h

-- When the id has a path separator, `append` raises, but the record stays in the memory and is in no
-- file: memory and directory differ from then on.
pub file_append-unsafe :
    (py : Platform) (json : Codec) (s : FileEvidenceStore) (payload trust : Value) (kind : Text)
    (sources : List Text) (id ref : Option Text) (out : EvidenceRef) (m : InMemoryEvidenceStore)
    → append py s.memory payload trust kind sources id ref ≡ ok (out, m)
    → has_code b'/' out.evidence_id || has_code 92 out.evidence_id ≡ true
    → (r : EvidenceRecord) × (m.records ≡ s.memory.records ++ r ∷ [])
      × (r.evidence_ref ≡ out)
      × (file_append py json s payload trust kind sources id ref
          ≡ (record s { memory = m }, refuse bad_segment))
unfolding file_append record_path get
file_append-unsafe py json s payload trust kind sources id ref out m h bad =
    let a = append-Added py s.memory m payload trust kind sources id ref out h in
    let n : ℕ = length s.memory.records + 1 in
    let own : out.evidence_id ≡ strip (next_id id n) =
      ap (λ (e : EvidenceRef). e.evidence_id) a.given ∙ a.created.own_id in
    let filled : require_non_empty_str (text out.evidence_id) ≡ ok out.evidence_id =
      subst (λ t. require_non_empty_str (text t) ≡ ok t) (sym own)
        (filled_strip (next_id id n) a.created.filled) in
    let found : lookup out.evidence_id m.by_id ≡ some a.made =
      ap (lookup out.evidence_id) (ap (λ (x : InMemoryEvidenceStore). x.by_id) a.after)
      ∙ ap (λ (e : EvidenceRef). lookup e.evidence_id (put (id_of a.made) a.made s.memory.by_id))
          a.given
      ∙ lookup-put_self (id_of a.made) a.made s.memory.by_id in
    let same_id : id_of a.made ≡ out.evidence_id =
      ap (λ (e : EvidenceRef). e.evidence_id) (sym a.given) in
    (
      a.made,
      ap (λ (x : InMemoryEvidenceStore). x.records) a.after,
      sym a.given,
      rw (h, filled, found, same_id, filled, bad) refl,
    )
