-- ===== src/Evidence/Store/Duplicated.antt =====
-- Two records of src/missionforge/evidence_store.py with one id.
use mathlib.Core.List.{append_assoc}
use missionforge.Common.{
  ℕ, suc, ◌+◌, ◌≡◌, sym, ap, subst, ◌∙◌, arith, Option, none, some, List, [], ◌∷◌, ◌++◌, length,
  length-append, All, All-middle,
}
use missionforge.Text.{Text, strip}
use missionforge.Text.Maps.{put, lookup, lookup-put_self}
use missionforge.Outcome.{ok}
use missionforge.Platform.{Platform}
use missionforge.Value.{Value}
use missionforge.Evidence.{EvidenceRef}
use missionforge.Evidence.Store.{EvidenceRecord, id_of, InMemoryEvidenceStore, next_id, append}
use missionforge.Evidence.Store.Appended.{IsNumbered, IsValid, append-Added}

numbered_middle :
    (n : ℕ) (before rest : List EvidenceRecord) (r : EvidenceRecord)
    → IsNumbered n (before ++ r ∷ rest)
    → r.sequence ≡ n + length before
numbered_middle n [] rest r h = omega (arith, h.0)
numbered_middle n (q ∷ before) rest r h = omega (arith, numbered_middle (suc n) before rest r h.1)

not-IsValid_twice :
    (s : InMemoryEvidenceStore) (before rest more : List EvidenceRecord) (old r : EvidenceRecord)
    → s.records ≡ before ++ old ∷ (rest ++ more)
    → lookup (id_of old) s.by_id ≡ some r
    → r.sequence ≡ length before + length rest + 2
    → ¬ IsValid s
not-IsValid_twice s before rest more old r split now number v =
    let first : old.sequence ≡ 1 + length before =
      numbered_middle 1 before (rest ++ more) old (subst (IsNumbered 1) split v.numbered) in
    let then_old : lookup (id_of old) s.by_id ≡ some old =
      All-middle (λ q. lookup (id_of q) s.by_id ≡ some q) before (rest ++ more) old
        (subst (All (λ q. lookup (id_of q) s.by_id ≡ some q)) split v.indexed) in
    let same : some old ≡ some r = sym then_old ∙ now in
    let number' : old.sequence ≡ r.sequence =
      ap (λ (o : Option EvidenceRecord). elim o [ none ↦ 0 | some q ↦ q.sequence ]) same in
    omega (arith, first, number', number)

-- An id that the store has is not taken for a duplicate if it comes with white space around it: when
-- `append` returns for it and that very text is no key, the store has a second record with that id,
-- finds only that one, and is not valid any more.
pub append-duplicate :
    (py : Platform) (s s' : InMemoryEvidenceStore) (payload trust : Value) (kind : Text)
    (sources : List Text) (c : ℕ) (t : Text) (ref : Option Text) (out : EvidenceRef)
    (before rest : List EvidenceRecord) (old : EvidenceRecord)
    → s.records ≡ before ++ old ∷ rest
    → id_of old ≡ strip (c ∷ t)
    → append py s payload trust kind sources (some (c ∷ t)) ref ≡ ok (out, s')
    → (r : EvidenceRecord) × (s'.records ≡ s.records ++ r ∷ [])
      × (id_of r ≡ id_of old)
      × (lookup (id_of old) s'.by_id ≡ some r)
      × ¬ IsValid s'
unfolding next_id
append-duplicate py s s' payload trust kind sources c t ref out before rest old split known h =
    let a = append-Added py s s' payload trust kind sources (some (c ∷ t)) ref out h in
    let records : s'.records ≡ s.records ++ a.made ∷ [] =
      ap (λ (x : InMemoryEvidenceStore). x.records) a.after in
    let same : id_of a.made ≡ id_of old = a.created.own_id ∙ sym known in
    let now : lookup (id_of old) s'.by_id ≡ some a.made =
      ap (lookup (id_of old)) (ap (λ (x : InMemoryEvidenceStore). x.by_id) a.after)
      ∙ ap (λ k. lookup k (put (id_of a.made) a.made s.by_id)) (sym same)
      ∙ lookup-put_self (id_of a.made) a.made s.by_id in
    let size : length s.records ≡ length before + suc (length rest) =
      ap length split ∙ length-append before (old ∷ rest) in
    (
      a.made,
      records,
      same,
      now,
      not-IsValid_twice s' before rest (a.made ∷ []) old a.made
          (records
            ∙ ap (λ rs. rs ++ a.made ∷ []) split
            ∙ append_assoc before (old ∷ rest) (a.made ∷ []))
          now (omega (arith, a.created.number, size)),
    )
