-- ===== src/TaskContract/Contract/RoundTrip.antt =====
-- A task contract that was read (src/missionforge/task_contract.py) is frozen to a mapping that is read
-- as the same contract.
use missionforge.Common.{◌≡◌, refl, sym, ap, subst, ◌∙◌, not, List, [], All}
use missionforge.Text.{Text, codes, text_eq, is_space}
use missionforge.Text.Equality.{text_eq_refl}
use missionforge.Text.Solid.{IsSolid}
use missionforge.Outcome.{ok, ◌>>=◌, refuse_if, mismatch, >>=-eq-ok, ok_injective}
use missionforge.Platform.{Platform}
use missionforge.Value.{Value, text, dict, Fields, get, get_or, item, strings}
use missionforge.Contracts.{require_non_empty_str, require_str_list, require_mapping, validate_ref}
use missionforge.Checks.{ref_list, safe_mapping, stable_json_hash}
use missionforge.TaskContract.Frozen.{freeze-written}
use missionforge.Checks.Fixed.{
  IsFixed, non_empty-IsFixed, safe_mapping-same, non_empty_fixed, ref_fixed, ref_list_fixed,
  str_list_fixed, str_list-IsFixed, mapping_fixed,
}
use missionforge.TaskContract.Clause.{
  clauses_or_strings, mapped_clauses, output_keys, constraint_keys, acceptance_keys,
}
use missionforge.TaskContract.Clause.RoundTrip.{
  ListParsed, written, clause_items-written, mapped_clauses-ListParsed,
  clauses_or_strings-ListParsed, mapped_clauses-written, clauses_or_strings-written,
}
use missionforge.TaskContract.Contract.{
  TaskContract, policy_of, optional_str, string_or_str_list, validate, content_dict, content_with,
  with_hash, freeze, parse, from_dict, post_init, hash_agrees, compute_hash,
}

policy_fixed : (py : Platform) (v p : Value) → policy_of py v ≡ ok p → policy_of py p ≡ ok p
unfolding policy_of
policy_fixed py (text t) p h =
    let (s, e, f) = >>=-eq-ok (require_non_empty_str (text t)) _ h in
    subst (λ q. policy_of py q ≡ ok q) (ok_injective f)
      (ap (λ m. m >>= λ u. ok (text u)) (non_empty_fixed (text t) s e))
policy_fixed py v p h = subst (λ u. policy_of py u ≡ ok p) (sym (safe_mapping-same py v p h)) h

optional_str_fixed : (v : Value) (t : Text) → optional_str v ≡ ok t → optional_str (text t) ≡ ok t
unfolding optional_str
optional_str_fixed v t h = refl

strings-IsFixed : (v : Value) (ts : List Text) → string_or_str_list v ≡ ok ts → All IsFixed ts
unfolding string_or_str_list
strings-IsFixed (text t) ts h =
    let (s, e, f) = >>=-eq-ok (require_non_empty_str (text t)) _ h in
    subst (All IsFixed) (ok_injective f) (non_empty-IsFixed (text t) s e, tt)
strings-IsFixed v ts h = str_list-IsFixed v ts h

-- Each field is a result of its own check.
record IsParsed (py : Platform) (c : TaskContract) : Type 0 where
  contract_id : require_non_empty_str (text c.contract_id) ≡ ok c.contract_id
  schema : require_non_empty_str (text c.schema_version) ≡ ok c.schema_version
  product_id : require_non_empty_str (text c.product_id) ≡ ok c.product_id
  objective : require_non_empty_str (text c.objective) ≡ ok c.objective
  background : string_or_str_list (strings c.background) ≡ ok c.background
  users : require_str_list (strings c.users_or_audience) ≡ ok c.users_or_audience
  non_goals : ListParsed py c.non_goals
  assumptions : ListParsed py c.assumptions
  outputs : ListParsed py c.required_outputs
  constraints : ListParsed py c.hard_constraints
  acceptance : ListParsed py c.semantic_acceptance
  risks : ListParsed py c.risk_notes
  workspace : validate_ref (text c.workspace_policy_ref) ≡ ok c.workspace_policy_ref
  permission : validate_ref (text c.permission_manifest_ref) ≡ ok c.permission_manifest_ref
  rubric : validate_ref (text c.judge_rubric_ref) ≡ ok c.judge_rubric_ref
  policy : policy_of py c.revision_policy ≡ ok c.revision_policy
  sources : ref_list (strings c.source_refs) ≡ ok c.source_refs
  products : ref_list (strings c.product_contract_refs) ≡ ok c.product_contract_refs
  created_by : require_non_empty_str (text c.created_by) ≡ ok c.created_by
  metadata : safe_mapping py c.metadata ≡ ok c.metadata

IsSolid-non_goal : IsSolid (codes "non-goal")
unfolding is_space
IsSolid-non_goal = (refl, (refl, (refl, (refl, (refl, (refl, (refl, (refl, tt))))))))

IsSolid-assumption : IsSolid (codes "assumption")
unfolding is_space
IsSolid-assumption =
    (refl, (refl, (refl, (refl, (refl, (refl, (refl, (refl, (refl, (refl, tt))))))))))

IsSolid-risk : IsSolid (codes "risk")
unfolding is_space
IsSolid-risk = (refl, (refl, (refl, (refl, tt))))

parse-IsParsed :
    (py : Platform) (fs : Fields) (c : TaskContract) → parse py fs ≡ ok c → IsParsed py c
unfolding parse string_or_str_list
parse-IsParsed py fs out h0 =
    let (a, ea, h1) = >>=-eq-ok (require_non_empty_str _) _ h0 in
    let (b, eb, h2) = >>=-eq-ok (require_non_empty_str _) _ h1 in
    let (c, ec, h3) = >>=-eq-ok (require_non_empty_str _) _ h2 in
    let (d, ed, h4) = >>=-eq-ok (require_non_empty_str _) _ h3 in
    let (e, ee, h5) = >>=-eq-ok (string_or_str_list _) _ h4 in
    let (f, ef, h6) = >>=-eq-ok (require_str_list _) _ h5 in
    let (g, eg, h7) = >>=-eq-ok (clauses_or_strings py _ _) _ h6 in
    let (i, ei, h8) = >>=-eq-ok (clauses_or_strings py _ _) _ h7 in
    let (j, ej, h9) = >>=-eq-ok (mapped_clauses py _ _) _ h8 in
    let (k, ek, h10) = >>=-eq-ok (mapped_clauses py _ _) _ h9 in
    let (l, el, h11) = >>=-eq-ok (mapped_clauses py _ _) _ h10 in
    let (m, em, h12) = >>=-eq-ok (clauses_or_strings py _ _) _ h11 in
    let (n, en, h13) = >>=-eq-ok (validate_ref _) _ h12 in
    let (o, eo, h14) = >>=-eq-ok (validate_ref _) _ h13 in
    let (p, ep, h15) = >>=-eq-ok (validate_ref _) _ h14 in
    let (q, eq, h16) = >>=-eq-ok (policy_of py _) _ h15 in
    let (r, er, h17) = >>=-eq-ok (ref_list _) _ h16 in
    let (s, es, h18) = >>=-eq-ok (ref_list _) _ h17 in
    let (t, et, h19) = >>=-eq-ok (require_non_empty_str _) _ h18 in
    let (u, eu, h20) = >>=-eq-ok (optional_str _) _ h19 in
    let (v, ev, h21) = >>=-eq-ok (safe_mapping py _) _ h20 in
    subst (IsParsed py) (ok_injective h21) (record {
      contract_id = non_empty_fixed _ a ea;
      schema = non_empty_fixed _ b eb;
      product_id = non_empty_fixed _ c ec;
      objective = non_empty_fixed _ d ed;
      background = str_list_fixed e (strings-IsFixed _ e ee);
      users = str_list_fixed f (str_list-IsFixed _ f ef);
      non_goals = clauses_or_strings-ListParsed py (codes "non-goal") _ g IsSolid-non_goal eg;
      assumptions = clauses_or_strings-ListParsed py (codes "assumption") _ i IsSolid-assumption ei;
      outputs = mapped_clauses-ListParsed py output_keys _ j ej;
      constraints = mapped_clauses-ListParsed py constraint_keys _ k ek;
      acceptance = mapped_clauses-ListParsed py acceptance_keys _ l el;
      risks = clauses_or_strings-ListParsed py (codes "risk") _ m IsSolid-risk em;
      workspace = ref_fixed _ n en;
      permission = ref_fixed _ o eo;
      rubric = ref_fixed _ p ep;
      policy = policy_fixed py _ q eq;
      sources = ref_list_fixed _ r er;
      products = ref_list_fixed _ s es;
      created_by = non_empty_fixed _ t et;
      metadata = mapping_fixed py _ v ev;
    })

-- The content that a contract which was read is written as.
abbrev content_of : TaskContract → Fields
content_of c =
    content_with c (written c.non_goals) (written c.assumptions) (written c.required_outputs)
      (written c.hard_constraints) (written c.semantic_acceptance) (written c.risk_notes)
      c.revision_policy

content_dict-content_of :
    (py : Platform) (c : TaskContract) → IsParsed py c → content_dict py c ≡ ok (content_of c)
unfolding content_dict
content_dict-content_of py c p = rw (clause_items-written py c.non_goals p.non_goals.all) (
    rw (clause_items-written py c.assumptions p.assumptions.all) (
      rw (clause_items-written py c.required_outputs p.outputs.all) (
        rw (clause_items-written py c.hard_constraints p.constraints.all) (
          rw (clause_items-written py c.semantic_acceptance p.acceptance.all)
            (rw (clause_items-written py c.risk_notes p.risks.all) (rw p.policy refl))))))

parse-content_of :
    (py : Platform) (c : TaskContract) (hash : Text)
    → IsParsed py c
    → parse py (with_hash hash (content_of c)) ≡ ok (record c { contract_hash = [] })
unfolding parse with_hash get get_or text_eq optional_str
parse-content_of py c hash p = rw p.contract_id (
    rw p.schema (
      rw p.product_id (
        rw p.objective (
          rw p.background (
            rw p.users (
              rw (clauses_or_strings-written py (codes "non-goal") c.non_goals p.non_goals) (
                rw (clauses_or_strings-written py (codes "assumption") c.assumptions p.assumptions)
                  (rw (mapped_clauses-written py output_keys c.required_outputs p.outputs) (
                    rw (mapped_clauses-written py constraint_keys c.hard_constraints p.constraints)
                      (rw
                        (mapped_clauses-written py acceptance_keys c.semantic_acceptance
                          p.acceptance)
                        (rw (clauses_or_strings-written py (codes "risk") c.risk_notes p.risks) (
                          rw p.workspace (
                            rw p.permission (
                              rw p.rubric (
                                rw p.policy (
                                  rw p.sources (
                                    rw p.products
                                      (rw p.created_by (rw p.metadata refl)))))))))))))))))))

IsParsed-draft :
    (py : Platform) (payload : Value) (c : TaskContract)
    → from_dict py payload ≡ ok c
    → (draft : TaskContract) × IsParsed py draft × (post_init py draft ≡ ok c)
unfolding from_dict
IsParsed-draft py payload c h =
    let (fs, e1, h1) = >>=-eq-ok (require_mapping payload) _ h in
    let (draft, e2, h2) = >>=-eq-ok (parse py fs) _ h1 in
    let (made, e3, h3) = >>=-eq-ok (post_init py draft) _ h2 in
    let (u, e4, h4) =
      >>=-eq-ok
        (refuse_if (not (hash_agrees (item "contract_hash" fs) made.contract_hash)) mismatch) _
        h3 in
    (draft, parse-IsParsed py fs draft e2, e3 ∙ h4)

item-with_hash :
    (c : TaskContract) (hash : Text)
    → item "contract_hash" (with_hash hash (content_of c)) ≡ text hash
unfolding with_hash get get_or text_eq
item-with_hash c hash = refl

-- The hash that a contract had before does not matter to `__post_init__`.
post_init-blank :
    (py : Platform) (draft : TaskContract) (hash : Text)
    → post_init py (record draft { contract_hash = hash }) ≡ post_init py draft
unfolding post_init validate compute_hash content_dict
post_init-blank py draft hash = refl

post_init-parts :
    (py : Platform) (draft c : TaskContract)
    → post_init py draft ≡ ok c
    → (hash : Text) × (validate py draft ≡ ok tt)
      × (compute_hash py draft ≡ ok hash)
      × (record draft { contract_hash = hash } ≡ c)
unfolding post_init
post_init-parts py draft c h =
    let (u, e, h1) = >>=-eq-ok (validate py draft) _ h in
    let (hash, f, h2) = >>=-eq-ok (compute_hash py draft) _ h1 in (hash, e, f, ok_injective h2)

freeze-draft :
    (py : Platform) (draft : TaskContract) (hash : Text) (content : Fields)
    → validate py draft ≡ ok tt
    → compute_hash py draft ≡ ok hash
    → content_dict py draft ≡ ok content
    → freeze py (record draft { contract_hash = hash }) ≡ ok (with_hash hash content)
unfolding validate compute_hash content_dict
freeze-draft py draft hash content v h w =
    let (fields, e, k) = >>=-eq-ok (content_dict py draft) _ h in
    freeze-written py (record draft { contract_hash = hash }) content v w
      (subst (λ fs. stable_json_hash py (dict fs) ≡ ok hash) (ok_injective (sym e ∙ w)) k)

-- A contract that `from_dict` returns is frozen by `freeze` to a mapping that `from_dict` reads as the
-- same contract.
pub from_dict-freeze :
    (py : Platform) (payload : Value) (c : TaskContract)
    → from_dict py payload ≡ ok c
    → (fs : Fields) × (freeze py c ≡ ok fs) × (from_dict py (dict fs) ≡ ok c)
unfolding from_dict require_mapping
from_dict-freeze py payload c h =
    let (draft, parsed, made) = IsParsed-draft py payload c h in
    let (hash, valid, hashed, same) = post_init-parts py draft c made in
    let frozen : TaskContract = record draft { contract_hash = hash } in
    let content = content_dict-content_of py draft parsed in
    subst
      (λ (d : TaskContract).
        (fs : Fields) × (freeze py d ≡ ok fs) × (from_dict py (dict fs) ≡ ok d))
      same
      (
        with_hash hash (content_of draft),
        freeze-draft py draft hash (content_of draft) valid hashed content,
        rw (parse-content_of py draft hash parsed) (
            rw (post_init-blank py draft []) (
              rw (made ∙ ap ok (sym same))
                (rw (item-with_hash draft hash, text_eq_refl hash) refl))),
      )
