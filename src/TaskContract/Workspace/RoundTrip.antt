-- ===== src/TaskContract/Workspace/RoundTrip.antt =====
-- What `WorkspacePolicy.from_dict` accepts is written and parsed again as itself.
use missionforge.Common.{◌≡◌, refl, subst}
use missionforge.Text.{text_eq}
use missionforge.Outcome.{ok, >>=-eq-ok, ok_injective}
use missionforge.Value.{Value, text, dict, Fields, get_or, strings}
use missionforge.Contracts.{require_mapping, require_non_empty_str, validate_ref}
use missionforge.Checks.{ref_list}
use missionforge.Checks.Fixed.{non_empty_fixed, ref_fixed, ref_list_fixed}
use missionforge.TaskContract.Workspace.{
  WorkspacePolicy, validate, parse, from_dict, content, to_dict,
}

-- Each field is a result of its own check.
record IsParsed (p : WorkspacePolicy) : Type 0 where
  policy_id : require_non_empty_str (text p.policy_id) ≡ ok p.policy_id
  root : validate_ref (text p.workspace_root_ref) ≡ ok p.workspace_root_ref
  inputs : ref_list (strings p.input_refs) ≡ ok p.input_refs
  artifacts : ref_list (strings p.artifact_root_refs) ≡ ok p.artifact_root_refs
  scratch : ref_list (strings p.scratch_root_refs) ≡ ok p.scratch_root_refs
  denied : ref_list (strings p.denied_refs) ≡ ok p.denied_refs
  schema : require_non_empty_str (text p.schema_version) ≡ ok p.schema_version

parse-IsParsed : (fs : Fields) (p : WorkspacePolicy) → parse fs ≡ ok p → IsParsed p
unfolding parse
parse-IsParsed fs p h0 =
    let (a, ea, h1) = >>=-eq-ok (require_non_empty_str _) _ h0 in
    let (b, eb, h2) = >>=-eq-ok (validate_ref _) _ h1 in
    let (c, ec, h3) = >>=-eq-ok (ref_list _) _ h2 in
    let (d, ed, h4) = >>=-eq-ok (ref_list _) _ h3 in
    let (e, ee, h5) = >>=-eq-ok (ref_list _) _ h4 in
    let (f, ef, h6) = >>=-eq-ok (ref_list _) _ h5 in
    let (g, eg, h) = >>=-eq-ok (require_non_empty_str _) _ h6 in
    subst IsParsed (ok_injective h) (record {
      policy_id = non_empty_fixed _ a ea;
      root = ref_fixed _ b eb;
      inputs = ref_list_fixed _ c ec;
      artifacts = ref_list_fixed _ d ed;
      scratch = ref_list_fixed _ e ee;
      denied = ref_list_fixed _ f ef;
      schema = non_empty_fixed _ g eg;
    })

parse-content : (p : WorkspacePolicy) → IsParsed p → parse (content p) ≡ ok p
unfolding parse content get_or text_eq
parse-content p h =
    rw h.policy_id
      (rw h.root (rw h.inputs (rw h.artifacts (rw h.scratch (rw h.denied (rw h.schema refl))))))

from_dict_parts :
    (v : Value) (p : WorkspacePolicy) → from_dict v ≡ ok p → IsParsed p × (validate p ≡ ok tt)
unfolding from_dict
from_dict_parts v p h0 =
    let (fs, e, h1) = >>=-eq-ok (require_mapping v) _ h0 in
    let (q, f, h2) = >>=-eq-ok (parse fs) _ h1 in
    let (u, g, h3) = >>=-eq-ok (validate q) _ h2 in
    subst (λ r. IsParsed r × (validate r ≡ ok tt)) (ok_injective h3) (parse-IsParsed fs q f, g)

-- A policy that `from_dict` returns is written by `to_dict` as a mapping that `from_dict` reads back
-- as the same policy.
pub from_dict-to_dict :
    (v : Value) (p : WorkspacePolicy)
    → from_dict v ≡ ok p
    → (fs : Fields) × (to_dict p ≡ ok fs) × (from_dict (dict fs) ≡ ok p)
unfolding to_dict from_dict require_mapping
from_dict-to_dict v p h =
    let (parsed, valid) = from_dict_parts v p h in
    (content p, rw valid refl, rw (parse-content p parsed) (rw valid refl))
