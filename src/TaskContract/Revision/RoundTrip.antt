-- ===== src/TaskContract/Revision/RoundTrip.antt =====
-- A contract revision that was read (src/missionforge/task_contract.py) changes the hash, and is written
-- and read again as itself.
use missionforge.Common.{◌≡◌, ◌≢◌, refl, subst, Option, true, arith}
use missionforge.Text.{Text, text_eq}
use missionforge.Text.Equality.{text_eq_refl}
use missionforge.Outcome.{ok, refuse_if, mismatch, >>=-eq-ok, refuse_if-eq-ok, ok_injective}
use missionforge.Value.{Value, text, dict, Fields, get, get_or, strings}
use missionforge.Contracts.{require_non_empty_str, require_mapping, validate_ref}
use missionforge.Checks.{ref_list, require_schema, from_option}
use missionforge.Checks.Hash.{validate_hash}
use missionforge.Checks.Fixed.{non_empty_fixed, ref_fixed, ref_list_fixed}
use missionforge.TaskContract.Extension.{optional_non_empty}
use missionforge.TaskContract.Revision.{
  TaskContractRevision, revision_schema, validate, from_dict, content, to_dict,
}

-- Each field is a result of its own check, and the whole is valid.
record IsParsed (r : TaskContractRevision) : Type 0 where
  approved : optional_non_empty (from_option r.approved_by) ≡ ok r.approved_by
  revision_id : require_non_empty_str (text r.revision_id) ≡ ok r.revision_id
  previous : validate_ref (text r.previous_contract_ref) ≡ ok r.previous_contract_ref
  old_hash : require_non_empty_str (text r.previous_contract_hash) ≡ ok r.previous_contract_hash
  revised : validate_ref (text r.revised_contract_ref) ≡ ok r.revised_contract_ref
  new_hash : require_non_empty_str (text r.revised_contract_hash) ≡ ok r.revised_contract_hash
  reason : require_non_empty_str (text r.reason) ≡ ok r.reason
  requested : require_non_empty_str (text r.requested_by) ≡ ok r.requested_by
  evidence : ref_list (strings r.evidence_refs) ≡ ok r.evidence_refs
  schema : require_non_empty_str (text r.schema_version) ≡ ok r.schema_version
  valid : validate r ≡ ok tt

approved_fixed :
    (v : Value) (a : Option Text)
    → optional_non_empty v ≡ ok a
    → optional_non_empty (from_option a) ≡ ok a
unfolding optional_non_empty
approved_fixed missionforge.Value.null a h =
    subst (λ b. optional_non_empty (from_option b) ≡ ok b) (ok_injective h) refl
approved_fixed v a h =
    let (t, e, f) = >>=-eq-ok (require_non_empty_str v) _ h in
    subst (λ b. optional_non_empty (from_option b) ≡ ok b) (ok_injective f)
      (rw (non_empty_fixed v t e) refl)

from_dict-IsParsed : (v : Value) (r : TaskContractRevision) → from_dict v ≡ ok r → IsParsed r
unfolding from_dict
from_dict-IsParsed v out h0 =
    let (fs, e0, h1) = >>=-eq-ok (require_mapping _) _ h0 in
    let (a, ea, h2) = >>=-eq-ok (optional_non_empty _) _ h1 in
    let (b, eb, h3) = >>=-eq-ok (require_non_empty_str _) _ h2 in
    let (c, ec, h4) = >>=-eq-ok (validate_ref _) _ h3 in
    let (d, ed, h5) = >>=-eq-ok (require_non_empty_str _) _ h4 in
    let (e, ee, h6) = >>=-eq-ok (validate_ref _) _ h5 in
    let (f, ef, h7) = >>=-eq-ok (require_non_empty_str _) _ h6 in
    let (g, eg, h8) = >>=-eq-ok (require_non_empty_str _) _ h7 in
    let (i, ei, h9) = >>=-eq-ok (require_non_empty_str _) _ h8 in
    let (j, ej, h10) = >>=-eq-ok (ref_list _) _ h9 in
    let (k, ek, h11) = >>=-eq-ok (require_non_empty_str _) _ h10 in
    let (u, eu, h12) = >>=-eq-ok (validate _) _ h11 in
    subst IsParsed (ok_injective h12) (record {
      approved = approved_fixed _ a ea;
      revision_id = non_empty_fixed _ b eb;
      previous = ref_fixed _ c ec;
      old_hash = non_empty_fixed _ d ed;
      revised = ref_fixed _ e ee;
      new_hash = non_empty_fixed _ f ef;
      reason = non_empty_fixed _ g eg;
      requested = non_empty_fixed _ i ei;
      evidence = ref_list_fixed _ j ej;
      schema = non_empty_fixed _ k ek;
      valid = eu;
    })

from_dict-content : (r : TaskContractRevision) → IsParsed r → from_dict (dict (content r)) ≡ ok r
unfolding from_dict require_mapping get get_or text_eq
from_dict-content r p = rw p.approved (
    rw p.revision_id (
      rw p.previous (
        rw p.old_hash (
          rw p.revised (
            rw p.new_hash
              (rw p.reason (rw p.requested (rw p.evidence (rw p.schema (rw p.valid refl))))))))))

validate-changes :
    (r : TaskContractRevision)
    → validate r ≡ ok tt
    → r.previous_contract_hash ≢ r.revised_contract_hash
unfolding validate
validate-changes r h same =
    let (u1, e1, h1) = >>=-eq-ok (require_schema r.schema_version revision_schema) _ h in
    let (u2, e2, h2) = >>=-eq-ok (require_non_empty_str (text r.revision_id)) _ h1 in
    let (u3, e3, h3) = >>=-eq-ok (validate_ref (text r.previous_contract_ref)) _ h2 in
    let (u4, e4, h4) = >>=-eq-ok (validate_hash (text r.previous_contract_hash)) _ h3 in
    let (u5, e5, h5) = >>=-eq-ok (validate_ref (text r.revised_contract_ref)) _ h4 in
    let (u6, e6, h6) = >>=-eq-ok (validate_hash (text r.revised_contract_hash)) _ h5 in
    let (u7, e7, h7) =
      >>=-eq-ok (refuse_if (text_eq r.previous_contract_hash r.revised_contract_hash) mismatch) _
        h6 in
    let equal : text_eq r.previous_contract_hash r.revised_contract_hash ≡ true =
      subst (λ t. text_eq r.previous_contract_hash t ≡ true) same
        (text_eq_refl r.previous_contract_hash) in
    let differ = refuse_if-eq-ok _ mismatch e7 in ground (arith, equal, differ)

-- A revision that `from_dict` returns changes the contract hash, and `to_dict` writes it as a mapping
-- that `from_dict` reads as the same revision.
pub from_dict-revised :
    (v : Value) (r : TaskContractRevision)
    → from_dict v ≡ ok r
    → (r.previous_contract_hash ≢ r.revised_contract_hash)
      × (fs : Fields) × (to_dict r ≡ ok fs)
      × (from_dict (dict fs) ≡ ok r)
unfolding to_dict
from_dict-revised v r h =
    let p = from_dict-IsParsed v r h in
    (validate-changes r p.valid, content r, rw p.valid refl, from_dict-content r p)
