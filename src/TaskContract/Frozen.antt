-- ===== src/TaskContract/Frozen.antt =====
-- What a task contract of src/missionforge/task_contract.py that was read says of itself.
use missionforge.Common.{
  ◌≡◌, refl, sym, subst, ◌⊎◌, ◌∙◌, inl, inr, true, false, not, Bool-cases, arith, is_empty, List,
  [], ◌∷◌, map, All,
}
use missionforge.Text.{Text, text_eq}
use missionforge.Text.Equality.{text_eq_refl, text_eq_sound}
use missionforge.Outcome.{
  ok, refuse_if, mismatch, missing, duplicate, >>=-eq-ok, refuse_if-eq-ok, ok_injective,
}
use missionforge.Platform.{Platform}
use missionforge.Value.{
  Value, null, boolean, integer, float, text, list, dict, object, Fields, item, strings,
}
use missionforge.Contracts.{require_mapping, require_non_empty_str, require_str_list}
use missionforge.Checks.{member, require_schema, stable_json_hash}
use missionforge.Checks.Distinct.{IsDistinct, member-first, member-more, member-rest}
use missionforge.TaskContract.Clause.{ContractClause, validate_clauses}
use missionforge.TaskContract.Contract.{
  contract_schema, TaskContract, validate, content_dict, compute_hash, post_init, hash_agrees,
  with_hash, freeze, to_dict, parse, from_dict,
}

abbrev clause_ids : List ContractClause → List Text
clause_ids = map (λ (c : ContractClause). c.clause_id)

-- An identifier that was seen before does not come again.
not_again :
    (py : Platform) (seen : List Text) (cs : List ContractClause) (t : Text)
    → validate_clauses py seen cs ≡ ok tt
    → member t seen ≡ true
    → member t (clause_ids cs) ≡ false
unfolding validate_clauses member
not_again py seen [] t h m = refl
not_again py seen (c ∷ cs) t h m =
    let (u1, e1, h1) = >>=-eq-ok (missionforge.TaskContract.Clause.validate py c) _ h in
    let (u2, e2, h2) = >>=-eq-ok (refuse_if (member c.clause_id seen) duplicate) _ h1 in
    let fresh : member c.clause_id seen ≡ false = refuse_if-eq-ok _ duplicate e2 in
    let differs : text_eq c.clause_id t ≡ false = elim (Bool-cases (text_eq c.clause_id t)) [
      | inl y ↦
          let k : member c.clause_id seen ≡ true =
            subst (λ s. member s seen ≡ true) (sym (text_eq_sound c.clause_id t y)) m in
          ground (arith, k, fresh)
      | inr n ↦ n
    ] in
    member-rest t c.clause_id (clause_ids cs)
      (not_again py (c.clause_id ∷ seen) cs t h2 (member-more t c.clause_id seen m)) differs

validate_clauses-IsDistinct :
    (py : Platform) (seen : List Text) (cs : List ContractClause)
    → validate_clauses py seen cs ≡ ok tt
    → IsDistinct (clause_ids cs)
unfolding validate_clauses
validate_clauses-IsDistinct py seen [] h = tt
validate_clauses-IsDistinct py seen (c ∷ cs) h =
    let (u1, e1, h1) = >>=-eq-ok (missionforge.TaskContract.Clause.validate py c) _ h in
    let (u2, e2, h2) = >>=-eq-ok (refuse_if (member c.clause_id seen) duplicate) _ h1 in
    (
      not_again py (c.clause_id ∷ seen) cs c.clause_id h2 (member-first c.clause_id seen),
      validate_clauses-IsDistinct py (c.clause_id ∷ seen) cs h2,
    )

-- The lists of clauses of a contract, in the order of their checks.
abbrev clause_lists : TaskContract → List (List ContractClause)
clause_lists c =
    c.non_goals ∷ c.assumptions ∷ c.required_outputs ∷ c.hard_constraints ∷ c.semantic_acceptance
    ∷ c.risk_notes ∷ []

-- A contract that has outputs and criteria, and clauses with identifiers of their own.
pub record IsObligation (c : TaskContract) : Type 0 where
  pub outputs : is_empty c.required_outputs ≡ false
  pub acceptance : is_empty c.semantic_acceptance ≡ false
  pub ids : All (λ cs. IsDistinct (clause_ids cs)) (clause_lists c)

validate-IsObligation : (py : Platform) (c : TaskContract) → validate py c ≡ ok tt → IsObligation c
unfolding validate
validate-IsObligation py c h =
    let (u1, e1, h1) = >>=-eq-ok (require_schema c.schema_version contract_schema) _ h in
    let (u2, e2, h2) = >>=-eq-ok (require_non_empty_str (text c.contract_id)) _ h1 in
    let (u3, e3, h3) = >>=-eq-ok (require_non_empty_str (text c.product_id)) _ h2 in
    let (u4, e4, h4) = >>=-eq-ok (require_non_empty_str (text c.objective)) _ h3 in
    let (u5, e5, h5) = >>=-eq-ok (require_str_list (strings c.background)) _ h4 in
    let (u6, e6, h6) = >>=-eq-ok (require_str_list (strings c.users_or_audience)) _ h5 in
    let (u7, e7, h7) = >>=-eq-ok (validate_clauses py [] c.non_goals) _ h6 in
    let (u8, e8, h8) = >>=-eq-ok (validate_clauses py [] c.assumptions) _ h7 in
    let (u9, e9, h9) = >>=-eq-ok (validate_clauses py [] c.required_outputs) _ h8 in
    let (u10, e10, h10) = >>=-eq-ok (validate_clauses py [] c.hard_constraints) _ h9 in
    let (u11, e11, h11) = >>=-eq-ok (validate_clauses py [] c.semantic_acceptance) _ h10 in
    let (u12, e12, h12) = >>=-eq-ok (validate_clauses py [] c.risk_notes) _ h11 in
    let (u13, e13, h13) = >>=-eq-ok (refuse_if (is_empty c.required_outputs) missing) _ h12 in
    let (u14, e14, h14) = >>=-eq-ok (refuse_if (is_empty c.semantic_acceptance) missing) _ h13 in
    record {
      outputs = refuse_if-eq-ok (is_empty c.required_outputs) missing e13;
      acceptance = refuse_if-eq-ok (is_empty c.semantic_acceptance) missing e14;
      ids = (
        validate_clauses-IsDistinct py [] c.non_goals e7,
        (
          validate_clauses-IsDistinct py [] c.assumptions e8,
          (
            validate_clauses-IsDistinct py [] c.required_outputs e9,
            (
              validate_clauses-IsDistinct py [] c.hard_constraints e10,
              (
                validate_clauses-IsDistinct py [] c.semantic_acceptance e11,
                (validate_clauses-IsDistinct py [] c.risk_notes e12, tt),
              ),
            ),
          ),
        ),
      );
    }

-- A contract that was read from `fs` carries the hash of its content, which is the one given if one
-- was, and freezes to its content with that hash.
pub record IsFrozen (py : Platform) (fs : Fields) (c : TaskContract) : Type 0 where
  pub content : Fields
  pub written : content_dict py c ≡ ok content
  pub hashed : stable_json_hash py (dict content) ≡ ok c.contract_hash
  pub given : (item "contract_hash" fs ≡ null) ⊎ (item "contract_hash" fs ≡ text c.contract_hash)
  pub frozen : freeze py c ≡ ok (with_hash c.contract_hash content)
  pub obligation : IsObligation c

hash_agrees-cases :
    (v : Value) (hash : Text) → hash_agrees v hash ≡ true → (v ≡ null) ⊎ (v ≡ text hash)
hash_agrees-cases null hash h = inl refl
hash_agrees-cases (text t) hash h = inr (rw (text_eq_sound t hash h) refl)
hash_agrees-cases (boolean b) hash h = absurd (cc)
hash_agrees-cases (integer i) hash h = absurd (cc)
hash_agrees-cases (float f) hash h = absurd (cc)
hash_agrees-cases (list vs) hash h = absurd (cc)
hash_agrees-cases (dict fs) hash h = absurd (cc)
hash_agrees-cases (object n) hash h = absurd (cc)

-- A contract whose hash is the one of its content freezes.
pub freeze-written :
    (py : Platform) (c : TaskContract) (content : Fields)
    → validate py c ≡ ok tt
    → content_dict py c ≡ ok content
    → stable_json_hash py (dict content) ≡ ok c.contract_hash
    → freeze py c ≡ ok (with_hash c.contract_hash content)
unfolding to_dict compute_hash
freeze-written py c content v w h = rw (v, w, h, text_eq_refl c.contract_hash) refl

post_init-IsFrozen :
    (py : Platform) (fs : Fields) (draft c : TaskContract)
    → post_init py draft ≡ ok c
    → hash_agrees (item "contract_hash" fs) c.contract_hash ≡ true
    → IsFrozen py fs c
unfolding post_init compute_hash validate content_dict
post_init-IsFrozen py fs draft c h agrees =
    let (u, e, h1) = >>=-eq-ok (validate py draft) _ h in
    let (hash, f, h2) = >>=-eq-ok (compute_hash py draft) _ h1 in
    let (content, w, k) = >>=-eq-ok (content_dict py draft) _ f in
    let frozen : TaskContract = record draft { contract_hash = hash } in
    let same : frozen ≡ c = ok_injective h2 in
    let agrees' : hash_agrees (item "contract_hash" fs) hash ≡ true =
      subst (λ (d : TaskContract). hash_agrees (item "contract_hash" fs) d.contract_hash ≡ true)
        (sym same) agrees in
    subst (IsFrozen py fs) same (record {
      content = content;
      written = w;
      hashed = k;
      given = hash_agrees-cases (item "contract_hash" fs) hash agrees';
      frozen = freeze-written py frozen content e w k;
      obligation = validate-IsObligation py frozen e;
    })

-- A contract that `from_dict` returns carries the hash of its content; the payload gave this hash or
-- none; `freeze` returns the content with the hash; there are outputs and criteria, and in no list of
-- clauses does an identifier come twice.
pub from_dict-IsFrozen :
    (py : Platform) (payload : Value) (fs : Fields) (c : TaskContract)
    → require_mapping payload ≡ ok fs
    → from_dict py payload ≡ ok c
    → IsFrozen py fs c
unfolding from_dict
from_dict-IsFrozen py payload fs c m h =
    let (fs', e1, h1) = >>=-eq-ok (require_mapping payload) _ h in
    let (draft, e2, h2) = >>=-eq-ok (parse py fs') _ h1 in
    let (made, e3, h3) = >>=-eq-ok (post_init py draft) _ h2 in
    let (u, e4, h4) =
      >>=-eq-ok
        (refuse_if (not (hash_agrees (item "contract_hash" fs') made.contract_hash)) mismatch) _
        h3 in
    let agrees : hash_agrees (item "contract_hash" fs') made.contract_hash ≡ true =
      ground (arith, refuse_if-eq-ok _ mismatch e4) in
    let same : fs' ≡ fs = ok_injective (sym e1 ∙ m) in
    subst (λ gs. IsFrozen py gs c) same
      (subst (IsFrozen py fs') (ok_injective h4) (post_init-IsFrozen py fs' draft made e3 agrees))
