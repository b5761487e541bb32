-- ===== src/Examples/Gates.antt =====
-- The theorem on product gates, at a failed result with a blocking finding.
use missionforge.Common.{◌≡◌, refl, ◌⊎◌, false, All, [], ◌∷◌}
use missionforge.Text.{codes}
use missionforge.Outcome.{ok}
use missionforge.Value.{dict}
use missionforge.ProductGate.Result.{
  failed, passed, blocking, ProductGateFinding, ProductGateResult, is_ready, is_blocking,
  result_schema, result_to_dict, result_from_dict,
}
use missionforge.ProductGate.Blocked.{result_from_dict-unblocked}
use missionforge.Outcome.{refuse, mismatch}
use missionforge.Examples.Running.{computing, python}

unfoldable judging : Unit {0}
unfolding computing missionforge.ProductGate.validate_each
    missionforge.ProductGate.validate_ref_list missionforge.ProductGate.children
    missionforge.ProductGate.Result.validate_finding
    missionforge.ProductGate.Result.finding_from_dict missionforge.ProductGate.Result.parse_findings
    missionforge.ProductGate.Result.validate_findings
    missionforge.ProductGate.Result.validate_result missionforge.ProductGate.Result.parse_result
    missionforge.ProductGate.Result.result_from_dict
judging = tt

abbrev broken_link : ProductGateFinding
broken_link = record {
  check_id = codes "links";
  severity = blocking;
  message = codes "a link is broken";
  evidence_refs = codes "evidence/links.json" ∷ [];
}

abbrev verdict : ProductGateResult
verdict = record {
  product_id = codes "pages";
  status = failed;
  gate_spec_ref = codes "gates/pages.json";
  findings = broken_link ∷ [];
  evidence_refs = [];
  reason = codes "";
  schema_version = result_schema;
}

verdict_parsed : result_from_dict python (dict (result_to_dict verdict)) ≡ ok verdict
unfolding judging
verdict_parsed = refl

passed_refused :
    result_from_dict python (dict (result_to_dict (record verdict { status = passed })))
    ≡ refuse mismatch
unfolding judging
passed_refused = refl

result_from_dict-unblocked_example :
    ((is_ready verdict.status ≡ false) ⊎ All (λ f. is_blocking f ≡ false) verdict.findings)
    × (result_from_dict python (dict (result_to_dict verdict)) ≡ ok verdict)
result_from_dict-unblocked_example =
    result_from_dict-unblocked python (dict (result_to_dict verdict)) verdict verdict_parsed
