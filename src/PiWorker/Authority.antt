-- ===== src/PiWorker/Authority.antt =====
-- What a call and a result that src/missionforge/piworker_call.py accepts may write.
use missionforge.Common.{
  ◌≡◌, true, false, not, ◌&&◌, Bool-cases, inl, inr, arith, is_empty, List, [], ◌∷◌, All,
  All-of_none, ◌⊎◌,
}
use missionforge.Text.{Text, strip, text_eq}
use missionforge.Text.Equality.{text_eq_sound}
use missionforge.Outcome.{ok, refuse_if, missing, mismatch, denied, >>=-eq-ok, refuse_if-eq-ok}
use missionforge.Platform.{Platform}
use missionforge.Checks.{member}
use missionforge.Permissions.Decisions.{InRoots}
use missionforge.Permissions.Roots.{under_any, InRoots-of_any}
use missionforge.Kernel.Toolset.{role_value}
use missionforge.PiWorker.{check_under, validate_refs_under_roots, is_completed}
use missionforge.PiWorker.Call.{PiWorkerCall}
use missionforge.PiWorker.Result.{PiWorkerCallResult, validate_against_call, misses}

abbrev pub AllInRoots : List Text → List Text → Type 0
AllInRoots refs roots = All (λ ref. InRoots (strip ref) roots) refs

check_under-InRoots :
    (refs roots : List Text) → check_under refs roots ≡ ok tt → AllInRoots refs roots
unfolding check_under
check_under-InRoots [] roots h = tt
check_under-InRoots (ref ∷ refs) roots h =
    let (b, e, f) = >>=-eq-ok (under_any ref roots) _ h in
    let (u, g, k) = >>=-eq-ok (refuse_if (not b) denied) _ f in
    elim (Bool-cases b) [
      | inl y ↦ (InRoots-of_any ref roots (rw y at e), check_under-InRoots refs roots k)
      | inr n ↦ let z : refuse_if true denied ≡ ok u = rw n at g in cc
    ]

pub under_roots-InRoots :
    (refs roots : List Text) → validate_refs_under_roots refs roots ≡ ok tt → AllInRoots refs roots
unfolding validate_refs_under_roots
under_roots-InRoots refs roots h =
    let (u, e, f) = >>=-eq-ok (refuse_if (is_empty roots) missing) _ h in
    check_under-InRoots refs roots f

-- What a result may say of its call.
pub record Authorised (r : PiWorkerCallResult) (c : PiWorkerCall) : Type 0 where
  pub same_call : r.call_id ≡ c.call_id
  pub same_contract : r.contract_hash ≡ c.contract_hash
  pub same_contract_ref : r.contract_ref ≡ c.contract_ref
  pub written : AllInRoots r.output_refs c.writable_refs
  pub whole :
      (is_completed r.status ≡ false)
      ⊎ All (λ ref. member ref r.output_refs ≡ true) c.expected_output_refs

same_text : (s t : Text) {u : Unit {0}} → refuse_if (not (text_eq s t)) mismatch ≡ ok u → s ≡ t
same_text s t h = elim (Bool-cases (text_eq s t)) [
  | inl y ↦ text_eq_sound s t y
  | inr n ↦ let k = refuse_if-eq-ok (not (text_eq s t)) mismatch h in ground (arith, k, n)
]

held_of_misses :
    (expected outputs : List Text)
    → misses expected outputs ≡ false
    → All (λ ref. member ref outputs ≡ true) expected
unfolding misses
held_of_misses expected outputs h =
    All-of_none (λ ref. member ref outputs ≡ true) (λ r. not (member r outputs)) expected
      (λ r k. ground (arith, k)) h

-- A result that passes against its call names the call and its contract, wrote only below the call's
-- writable refs, and when it is completed it has every output that the call expects.
pub validate_against_call-Authorised :
    (py : Platform) (r : PiWorkerCallResult) (c : PiWorkerCall)
    → validate_against_call py r c ≡ ok tt
    → Authorised r c
unfolding validate_against_call
validate_against_call-Authorised py r c h =
    let (u1, e1, h1) = >>=-eq-ok (missionforge.PiWorker.Result.validate py r) _ h in
    let (u2, e2, h2) = >>=-eq-ok (missionforge.PiWorker.Call.validate py c) _ h1 in
    let (u3, e3, h3) = >>=-eq-ok (refuse_if (not (text_eq r.call_id c.call_id)) mismatch) _ h2 in
    let (u4, e4, h4) =
      >>=-eq-ok (refuse_if (not (text_eq (role_value r.role) (role_value c.role))) mismatch) _ h3 in
    let (u5, e5, h5) =
      >>=-eq-ok (refuse_if (not (text_eq r.contract_id c.contract_id)) mismatch) _ h4 in
    let (u6, e6, h6) =
      >>=-eq-ok (refuse_if (not (text_eq r.contract_hash c.contract_hash)) mismatch) _ h5 in
    let (u7, e7, h7) =
      >>=-eq-ok (refuse_if (not (text_eq r.contract_ref c.contract_ref)) mismatch) _ h6 in
    let (u8, e8, h8) = >>=-eq-ok (validate_refs_under_roots r.output_refs c.writable_refs) _ h7 in
    let last =
      refuse_if-eq-ok (is_completed r.status && misses c.expected_output_refs r.output_refs) missing
        h8 in
    record {
      same_call = same_text r.call_id c.call_id e3;
      same_contract = same_text r.contract_hash c.contract_hash e6;
      same_contract_ref = same_text r.contract_ref c.contract_ref e7;
      written = under_roots-InRoots r.output_refs c.writable_refs e8;
      whole = elim (Bool-cases (is_completed r.status)) [
        | inl y ↦
            inr (held_of_misses c.expected_output_refs r.output_refs (ground (arith, last, y)))
        | inr n ↦ inl n
      ];
    }
