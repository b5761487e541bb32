-- ===== src/ProductGate/Blocked.antt =====
-- A product gate result with a blocking finding is not ready (src/missionforge/product_gate.py), and a
-- result that was read is written and read again as itself.
use missionforge.Common.{
  ◌≡◌, refl, subst, false, ◌&&◌, ◌⊎◌, inl, inr, Bool-cases, arith, List, [], ◌∷◌, All, All-of_none,
}
use missionforge.Text.{text_eq}
use missionforge.Outcome.{ok, refuse_if, mismatch, >>=-eq-ok, refuse_if-eq-ok, ok_injective}
use missionforge.Platform.{Platform}
use missionforge.Value.{Value, text, dict, Items, nil, cons, Fields, get, get_or, strings}
use missionforge.Contracts.{
  require_non_empty_str, require_str, require_str_list, require_mapping, validate_ref,
}
use missionforge.Checks.{require_enum, require_schema, member}
use missionforge.Checks.Hash.{strict_mapping, reject_unknown}
use missionforge.Checks.Fixed.{non_empty_fixed, ref_fixed, str_list_fixed, str_list-IsFixed}
use missionforge.ProductGate.{validate_ref_list, children}
use missionforge.ProductGate.Result.{
  ProductGateStatus, ProductGateSeverity, severity_of, severity_value, status_of, status_value,
  ProductGateFinding, finding_to_dict, finding_keys, validate_finding, finding_from_dict,
  parse_findings, finding_items, ProductGateResult, is_blocking, is_ready, has_blocking_findings,
  result_schema, result_keys, result_to_dict, validate_findings, validate_result, parse_result,
  result_from_dict,
}

-- A finding that was read: each field is a result of its own check, and the whole is valid.
record FindingParsed (py : Platform) (f : ProductGateFinding) : Type 0 where
  check_id : require_non_empty_str (text f.check_id) ≡ ok f.check_id
  message : require_non_empty_str (text f.message) ≡ ok f.message
  evidence : require_str_list (strings f.evidence_refs) ≡ ok f.evidence_refs
  valid : validate_finding py f ≡ ok tt

severity_value-of :
    (s : ProductGateSeverity) → require_enum severity_of (text (severity_value s)) ≡ ok s
unfolding require_enum text_eq
severity_value-of missionforge.ProductGate.Result.info = refl
severity_value-of missionforge.ProductGate.Result.warning = refl
severity_value-of missionforge.ProductGate.Result.blocking = refl

status_value-of : (s : ProductGateStatus) → require_enum status_of (text (status_value s)) ≡ ok s
unfolding require_enum text_eq
status_value-of missionforge.ProductGate.Result.passed = refl
status_value-of missionforge.ProductGate.Result.failed = refl
status_value-of missionforge.ProductGate.Result.needs_review = refl
status_value-of missionforge.ProductGate.Result.unsupported = refl
status_value-of missionforge.ProductGate.Result.candidate = refl
status_value-of missionforge.ProductGate.Result.product_grade = refl
status_value-of missionforge.ProductGate.Result.quarantined = refl

finding-FindingParsed :
    (py : Platform) (v : Value) (f : ProductGateFinding)
    → finding_from_dict py v ≡ ok f
    → FindingParsed py f
unfolding finding_from_dict
finding-FindingParsed py v out h0 =
    let (fs, e0, h1) = >>=-eq-ok (strict_mapping finding_keys v) _ h0 in
    let (a, ea, h2) = >>=-eq-ok (require_non_empty_str _) _ h1 in
    let (b, eb, h3) = >>=-eq-ok (require_enum severity_of _) _ h2 in
    let (c, ec, h4) = >>=-eq-ok (require_non_empty_str _) _ h3 in
    let (d, ed, h5) = >>=-eq-ok (require_str_list _) _ h4 in
    let (u, eu, h6) = >>=-eq-ok (validate_finding py _) _ h5 in
    subst (FindingParsed py) (ok_injective h6) (record {
      check_id = non_empty_fixed _ a ea;
      message = non_empty_fixed _ c ec;
      evidence = str_list_fixed d (str_list-IsFixed _ d ed);
      valid = eu;
    })

finding_from_dict-written :
    (py : Platform) (f : ProductGateFinding)
    → FindingParsed py f
    → finding_from_dict py (dict (finding_to_dict f)) ≡ ok f
unfolding finding_from_dict strict_mapping reject_unknown require_mapping member get get_or text_eq
finding_from_dict-written py f p =
    rw p.check_id
      (rw (severity_value-of f.severity) (rw p.message (rw p.evidence (rw p.valid refl))))

parse_findings-written :
    (py : Platform) (fs : List ProductGateFinding)
    → All (FindingParsed py) fs
    → parse_findings py (finding_items fs) ≡ ok fs
unfolding parse_findings require_mapping
parse_findings-written py [] p = refl
parse_findings-written py (f ∷ fs) p =
    rw (finding_from_dict-written py f p.0) (rw (parse_findings-written py fs p.1) refl)

parse_findings-All :
    (py : Platform) (vs : Items) (fs : List ProductGateFinding)
    → parse_findings py vs ≡ ok fs
    → All (FindingParsed py) fs
unfolding parse_findings
parse_findings-All py nil fs h = subst (All (FindingParsed py)) (ok_injective h) tt
parse_findings-All py (cons v vs) fs h =
    let (gs, e1, h1) = >>=-eq-ok (require_mapping v) _ h in
    let (f, e2, h2) = >>=-eq-ok (finding_from_dict py (dict gs)) _ h1 in
    let (rest, e3, h3) = >>=-eq-ok (parse_findings py vs) _ h2 in
    subst (All (FindingParsed py)) (ok_injective h3)
      (finding-FindingParsed py (dict gs) f e2, parse_findings-All py vs rest e3)

-- A result that was read.
record ResultParsed (py : Platform) (r : ProductGateResult) : Type 0 where
  product_id : require_non_empty_str (text r.product_id) ≡ ok r.product_id
  gate_spec_ref : validate_ref (text r.gate_spec_ref) ≡ ok r.gate_spec_ref
  findings : All (FindingParsed py) r.findings
  evidence : require_str_list (strings r.evidence_refs) ≡ ok r.evidence_refs
  schema : require_non_empty_str (text r.schema_version) ≡ ok r.schema_version

parse_result-ResultParsed :
    (py : Platform) (fs : Fields) (r : ProductGateResult)
    → parse_result py fs ≡ ok r
    → ResultParsed py r
unfolding parse_result
parse_result-ResultParsed py fs out h0 =
    let (a, ea, h1) = >>=-eq-ok (require_non_empty_str _) _ h0 in
    let (b, eb, h2) = >>=-eq-ok (require_enum status_of _) _ h1 in
    let (c, ec, h3) = >>=-eq-ok (validate_ref _) _ h2 in
    let (d, ed, h4) = >>=-eq-ok (children _) _ h3 in
    let (e, ee, h5) = >>=-eq-ok (parse_findings py d) _ h4 in
    let (f, ef, h6) = >>=-eq-ok (require_str_list _) _ h5 in
    let (g, eg, h7) = >>=-eq-ok (require_str _) _ h6 in
    let (i, ei, h8) = >>=-eq-ok (require_non_empty_str _) _ h7 in
    subst (ResultParsed py) (ok_injective h8) (record {
      product_id = non_empty_fixed _ a ea;
      gate_spec_ref = ref_fixed _ c ec;
      findings = parse_findings-All py d e ee;
      evidence = str_list_fixed f (str_list-IsFixed _ f ef);
      schema = non_empty_fixed _ i ei;
    })

parse_result-written :
    (py : Platform) (r : ProductGateResult)
    → ResultParsed py r
    → parse_result py (result_to_dict r) ≡ ok r
unfolding parse_result children require_str get get_or text_eq
parse_result-written py r p = rw p.product_id (
    rw (status_value-of r.status) (
      rw p.gate_spec_ref
        (rw (parse_findings-written py r.findings p.findings) (rw p.evidence (rw p.schema refl)))))

result_from_dict-written :
    (py : Platform) (r : ProductGateResult)
    → ResultParsed py r
    → validate_result py r ≡ ok tt
    → result_from_dict py (dict (result_to_dict r)) ≡ ok r
unfolding result_from_dict strict_mapping reject_unknown require_mapping member text_eq
result_from_dict-written py r p valid = rw (parse_result-written py r p) (rw valid refl)

validate_result-blocked :
    (py : Platform) (r : ProductGateResult)
    → validate_result py r ≡ ok tt
    → has_blocking_findings r && is_ready r.status ≡ false
unfolding validate_result
validate_result-blocked py r h =
    let (u1, e1, h1) = >>=-eq-ok (require_schema r.schema_version result_schema) _ h in
    let (u2, e2, h2) = >>=-eq-ok (require_non_empty_str (text r.product_id)) _ h1 in
    let (u3, e3, h3) = >>=-eq-ok (validate_ref (text r.gate_spec_ref)) _ h2 in
    let (u4, e4, h4) = >>=-eq-ok (validate_findings py r.findings) _ h3 in
    let (u5, e5, h5) = >>=-eq-ok (validate_ref_list r.evidence_refs) _ h4 in
    let (u6, e6, h6) =
      >>=-eq-ok (refuse_if (has_blocking_findings r && is_ready r.status) mismatch) _ h5 in
    refuse_if-eq-ok (has_blocking_findings r && is_ready r.status) mismatch e6

-- A gate result that `from_dict` returns is neither `passed` nor `product_grade`, or none of its
-- findings is blocking; and it is written as a mapping that `from_dict` reads as the same result.
pub result_from_dict-unblocked :
    (py : Platform) (v : Value) (r : ProductGateResult)
    → result_from_dict py v ≡ ok r
    → ((is_ready r.status ≡ false) ⊎ All (λ f. is_blocking f ≡ false) r.findings)
      × (result_from_dict py (dict (result_to_dict r)) ≡ ok r)
unfolding result_from_dict
result_from_dict-unblocked py v r h =
    let (fs, e1, h1) = >>=-eq-ok (strict_mapping result_keys v) _ h in
    let (q, e2, h2) = >>=-eq-ok (parse_result py fs) _ h1 in
    let (u, e3, h3) = >>=-eq-ok (validate_result py q) _ h2 in
    let blocked = validate_result-blocked py q e3 in
    let ready : (is_ready q.status ≡ false) ⊎ All (λ f. is_blocking f ≡ false) q.findings =
      elim (Bool-cases (is_ready q.status)) [
        | inl y ↦ inr (
            All-of_none (λ f. is_blocking f ≡ false) is_blocking q.findings (λ f n. n)
              (ground (arith, blocked, y)))
        | inr n ↦ inl n
      ] in
    subst
      (λ (p : ProductGateResult).
        ((is_ready p.status ≡ false) ⊎ All (λ f. is_blocking f ≡ false) p.findings)
        × (result_from_dict py (dict (result_to_dict p)) ≡ ok p))
      (ok_injective h3)
      (ready, result_from_dict-written py q (parse_result-ResultParsed py fs q e2) e3)
