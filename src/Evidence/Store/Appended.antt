-- ===== src/Evidence/Store/Appended.antt =====
-- What `append` of src/missionforge/evidence_store.py keeps of the store in memory.
use missionforge.Common.{
  ℕ, suc, ◌+◌, ◌≡◌, refl, sym, ap, subst, ◌∙◌, inl, inr, arith, false, Bool-cases, Option, none,
  some, List, [], ◌∷◌, ◌++◌, length, All, All-append, All-map,
}
use missionforge.Text.{Text, codes, text_eq, strip}
use missionforge.Text.Equality.{text_eq_sound}
use missionforge.Text.Maps.{put, lookup, lookup-put_self, lookup-put_other}
use missionforge.Outcome.{ok, refuse_if, duplicate, >>=-eq-ok, refuse_if-eq-ok, ok_injective}
use missionforge.Platform.{Platform}
use missionforge.Value.{pos, Value, text, integer, dict}
use missionforge.Contracts.{
  require_non_empty_str, require_mapping, require_int_at_least, validate_ref,
}
use missionforge.Contracts.Json.{ensure_json_value}
use missionforge.Checks.{require_enum, stable_json_hash, or_default}
use missionforge.Evidence.{EvidenceRef, level_of}
use missionforge.Evidence.Store.{
  EvidenceRecord, id_of, validate_record, create, InMemoryEvidenceStore, next_id, is_known,
  with_record, append,
}
use missionforge.Evidence.Store.Ids.{IsStripped, next_id-strip}

-- The sequences count up from a number.
abbrev pub IsNumbered : ℕ → List EvidenceRecord → Type 0
IsNumbered n [] = Unit {0}
IsNumbered n (r ∷ rs) = (r.sequence ≡ n) × IsNumbered (suc n) rs

-- The records are numbered from 1 on, and each is found under its id: no two have the same one.
pub record IsValid (s : InMemoryEvidenceStore) : Type 0 where
  pub numbered : IsNumbered 1 s.records
  pub indexed : All (λ r. lookup (id_of r) s.by_id ≡ some r) s.records

pub IsNumbered-snoc :
    (n : ℕ) (rs : List EvidenceRecord) (r : EvidenceRecord)
    → IsNumbered n rs
    → r.sequence ≡ n + length rs
    → IsNumbered n (rs ++ r ∷ [])
IsNumbered-snoc n [] r h e = (omega (arith, e), tt)
IsNumbered-snoc n (q ∷ rs) r (h, hs) e = (h, IsNumbered-snoc (suc n) rs r hs (omega (arith, e)))

non_empty-strip : (t s : Text) → require_non_empty_str (text t) ≡ ok s → s ≡ strip t
unfolding require_non_empty_str
non_empty-strip t s h = ground arith

number-same : (n k : ℕ) → require_int_at_least (integer (pos n)) 1 ≡ ok k → k ≡ n
unfolding require_int_at_least
number-same n k h = ground arith

-- What a new record says of the call that made it.
pub record Created (r : EvidenceRecord) (sequence : ℕ) (id : Text) : Type 0 where
  pub number : r.sequence ≡ sequence
  pub own_id : id_of r ≡ strip id
  pub filled : require_non_empty_str (text id) ≡ ok (strip id)

pub create-Created :
    (py : Platform) (sequence : ℕ) (id ref : Text) (trust : Value) (kind : Text) (payload : Value)
    (sources : List Text) (r : EvidenceRecord)
    → create py sequence id ref trust kind payload sources ≡ ok r
    → Created r sequence id
unfolding create
create-Created py sequence id ref trust kind payload sources r h =
    let (fs, e1, h1) = >>=-eq-ok (require_mapping payload) _ h in
    let (content, e2, h2) = >>=-eq-ok (ensure_json_value (dict fs)) _ h1 in
    let (number, e3, h3) = >>=-eq-ok (require_int_at_least (integer (pos sequence)) 1) _ h2 in
    let (own, e4, h4) = >>=-eq-ok (require_non_empty_str (text id)) _ h3 in
    let (safe, e5, h5) = >>=-eq-ok (validate_ref (text ref)) _ h4 in
    let (level, e6, h6) = >>=-eq-ok (require_enum level_of trust) _ h5 in
    let (safe_kind, e7, h7) = >>=-eq-ok (require_non_empty_str (text kind)) _ h6 in
    let (hash, e8, h8) = >>=-eq-ok (stable_json_hash py content) _ h7 in
    let made : EvidenceRecord = record {
      sequence = number;
      evidence_ref = record {
        evidence_id = own;
        ref = safe;
        trust_level = level;
        kind = safe_kind;
        source_refs = sources;
      };
      payload = content;
      payload_hash = hash;
    } in
    let (u, e9, h9) = >>=-eq-ok (validate_record made) _ h8 in
    let same : made ≡ r = ok_injective h9 in
    record {
      number = ap (λ (x : EvidenceRecord). x.sequence) (sym same) ∙ number-same sequence number e3;
      own_id = ap id_of (sym same) ∙ non_empty-strip id own e4;
      filled = e4 ∙ ap ok (non_empty-strip id own e4);
    }

-- The record that a call of `append` added.
pub record Added (s s' : InMemoryEvidenceStore) (ref : EvidenceRef) (evidence_id : Option Text)
    : Type 0 where
  pub made : EvidenceRecord
  pub created : Created made (length s.records + 1) (next_id evidence_id (length s.records + 1))
  pub fresh : lookup (next_id evidence_id (length s.records + 1)) s.by_id ≡ none
  pub after : s' ≡ with_record s made
  pub given : ref ≡ made.evidence_ref

pub known_none : (o : Option EvidenceRecord) → is_known o ≡ false → o ≡ none
known_none none h = refl
known_none (some r) h = cc

pub append-Added :
    (py : Platform) (s s' : InMemoryEvidenceStore) (payload trust : Value) (kind : Text)
    (sources : List Text) (id ref : Option Text) (out : EvidenceRef)
    → append py s payload trust kind sources id ref ≡ ok (out, s')
    → Added s s' out id
unfolding append
append-Added py s s' payload trust kind sources id ref out h =
    let n : ℕ = length s.records + 1 in
    let (u, e1, h1) =
      >>=-eq-ok (refuse_if (is_known (lookup (next_id id n) s.by_id)) duplicate) _ h in
    let (made, e2, h2) =
      >>=-eq-ok
        (create py n (next_id id n)
          (or_default ref (s.ref_prefix ++ (codes "/" ++ (next_id id n ++ codes ".json")))) trust
          kind payload sources)
        _ h1 in
    let same : (made.evidence_ref, with_record s made) ≡ (out, s') = ok_injective h2 in
    record {
      made = made;
      created = create-Created py n (next_id id n) _ trust kind payload sources made e2;
      fresh =
          known_none (lookup (next_id id n) s.by_id)
            (refuse_if-eq-ok (is_known (lookup (next_id id n) s.by_id)) duplicate e1);
      after = sym (ap (λ (p : EvidenceRef × InMemoryEvidenceStore). p.1) same);
      given = sym (ap (λ (p : EvidenceRef × InMemoryEvidenceStore). p.0) same);
    }

not_same :
    (k j : Text) {A : Type 0} (m : List (Text × A)) (r : A)
    → lookup k m ≡ none
    → lookup j m ≡ some r
    → text_eq k j ≡ false
not_same k j m r h e = elim (Bool-cases (text_eq k j)) [
  | inl y ↦
      let g : lookup k m ≡ some r =
        subst (λ u. lookup u m ≡ some r) (sym (text_eq_sound k j y)) e in
      let x : none ≡ some r = sym h ∙ g in cc
  | inr n ↦ n
]

-- What is in the store under other ids stays there.
pub indexed_put :
    (k : Text) (r : EvidenceRecord) (m : List (Text × EvidenceRecord)) (rs : List EvidenceRecord)
    → lookup k m ≡ none
    → All (λ q. lookup (id_of q) m ≡ some q) rs
    → All (λ q. lookup (id_of q) (put k r m) ≡ some q) rs
indexed_put k r m rs fresh h =
    All-map (λ (q : EvidenceRecord). lookup (id_of q) m ≡ some q)
      (λ (q : EvidenceRecord). lookup (id_of q) (put k r m) ≡ some q) rs
      (λ q e. lookup-put_other k (id_of q) r m (not_same k (id_of q) m q fresh e) ∙ e) h

pub with_record-IsValid :
    (s : InMemoryEvidenceStore) (r : EvidenceRecord)
    → IsValid s
    → r.sequence ≡ length s.records + 1
    → lookup (id_of r) s.by_id ≡ none
    → IsValid (with_record s r)
with_record-IsValid s r v number fresh = record {
  numbered = IsNumbered-snoc 1 s.records r v.numbered (omega (arith, number));
  indexed =
      All-append (λ (q : EvidenceRecord). lookup (id_of q) (put (id_of r) r s.by_id) ≡ some q)
        s.records (r ∷ []) (indexed_put (id_of r) r s.by_id s.records fresh v.indexed)
        (lookup-put_self (id_of r) r s.by_id, tt);
}

-- Appending with a generated id, or with one that is not padded, keeps the store valid: the records stay
-- as they are, the new one stands behind them with the next number and is found under its id.
pub append-IsValid :
    (py : Platform) (s s' : InMemoryEvidenceStore) (payload trust : Value) (kind : Text)
    (sources : List Text) (id ref : Option Text) (out : EvidenceRef)
    → IsValid s
    → IsStripped id
    → append py s payload trust kind sources id ref ≡ ok (out, s')
    → IsValid s'
      × (r : EvidenceRecord) × (s'.records ≡ s.records ++ r ∷ [])
      × (r.evidence_ref ≡ out)
      × (r.sequence ≡ length s.records + 1)
      × (lookup out.evidence_id s'.by_id ≡ some r)
append-IsValid py s s' payload trust kind sources id ref out v plain h =
    let a = append-Added py s s' payload trust kind sources id ref out h in
    let n : ℕ = length s.records + 1 in
    let own : id_of a.made ≡ next_id id n = a.created.own_id ∙ next_id-strip id n plain in
    let fresh : lookup (id_of a.made) s.by_id ≡ none =
      subst (λ k. lookup k s.by_id ≡ none) (sym own) a.fresh in
    let next = with_record-IsValid s a.made v a.created.number fresh in
    (
      subst IsValid (sym a.after) next,
      a.made,
      ap (λ (x : InMemoryEvidenceStore). x.records) a.after,
      sym a.given,
      a.created.number,
      subst (λ (x : InMemoryEvidenceStore). lookup out.evidence_id x.by_id ≡ some a.made)
          (sym a.after)
          (subst
            (λ (e : EvidenceRef).
              lookup e.evidence_id (put (id_of a.made) a.made s.by_id) ≡ some a.made)
            (sym a.given) (lookup-put_self (id_of a.made) a.made s.by_id)),
    )
