-- ===== src/DecisionLedger/Package.antt =====
-- `FinalPackage` of src/missionforge/decision_ledger.py: the refs handed over with an accepted run.
use missionforge.Common.{List, [], ◌∷◌, is_empty, ◌++◌}
use missionforge.Text.{Text, codes}
use missionforge.Outcome.{Outcome, ok, refuse_if, missing, ◌>>=◌, ◌>>◌}
use missionforge.Platform.{Platform}
use missionforge.Value.{Value, text, dict, Fields, end, item, item_or, entry, strings}
use missionforge.Contracts.{require_non_empty_str, validate_ref}
use missionforge.Contracts.Payload.{assert_refs_only_payload}
use missionforge.Checks.{require_schema}
use missionforge.Checks.Hash.{validate_hash, strict_mapping}
use missionforge.DecisionLedger.{ref_list}

-- FINAL_PACKAGE_SCHEMA_VERSION
abbrev pub final_package_schema : Text
final_package_schema = codes "final_package.v1"

pub record FinalPackage : Type 0 where
  pub package_id : Text
  pub run_id : Text
  pub contract_id : Text
  pub contract_hash : Text
  pub contract_ref : Text
  pub judge_report_ref : Text
  pub decision_ledger_ref : Text
  pub accepted_artifact_refs : List Text
  pub hard_check_refs : List Text
  pub metric_refs : List Text
  pub product_payload_refs : List Text
  pub schema_version : Text

-- `to_dict_without_validation`
unfoldable pub content : FinalPackage → Fields
content p = entry "schema_version" (text p.schema_version) (
    entry "package_id" (text p.package_id) (
      entry "run_id" (text p.run_id) (
        entry "contract_id" (text p.contract_id) (
          entry "contract_hash" (text p.contract_hash) (
            entry "contract_ref" (text p.contract_ref) (
              entry "judge_report_ref" (text p.judge_report_ref) (
                entry "decision_ledger_ref" (text p.decision_ledger_ref) (
                  entry "accepted_artifact_refs" (strings p.accepted_artifact_refs) (
                    entry "hard_check_refs" (strings p.hard_check_refs) (
                      entry "metric_refs" (strings p.metric_refs) (
                        entry "product_payload_refs" (strings p.product_payload_refs) end)))))))))))

unfoldable pub validate : Platform → FinalPackage → Outcome (Unit {0})
unfolding content
validate py p = do
  require_schema p.schema_version final_package_schema
  require_non_empty_str (text p.package_id)
  require_non_empty_str (text p.run_id)
  require_non_empty_str (text p.contract_id)
  validate_hash (text p.contract_hash)
  validate_ref (text p.contract_ref)
  validate_ref (text p.judge_report_ref)
  validate_ref (text p.decision_ledger_ref)
  accepted ← ref_list (strings p.accepted_artifact_refs)
  refuse_if (is_empty accepted) missing
  ref_list (strings p.hard_check_refs)
  ref_list (strings p.metric_refs)
  ref_list (strings p.product_payload_refs)
  assert_refs_only_payload py.lower (dict (content p))
  ok tt

abbrev package_keys : List Text
package_keys =
    codes "schema_version"
    ∷ codes "package_id"
    ∷ codes "run_id"
    ∷ codes "contract_id"
    ∷ codes "contract_hash"
    ∷ codes "contract_ref"
    ∷ codes "judge_report_ref"
    ∷ codes "decision_ledger_ref"
    ∷ codes "accepted_artifact_refs"
    ∷ codes "hard_check_refs"
    ∷ codes "metric_refs"
    ∷ codes "product_payload_refs"
    ∷ []

unfoldable pub parse : Fields → Outcome FinalPackage
parse fs = do
  schema ← require_non_empty_str (item_or "schema_version" (text final_package_schema) fs)
  package_id ← require_non_empty_str (item "package_id" fs)
  run_id ← require_non_empty_str (item "run_id" fs)
  contract_id ← require_non_empty_str (item "contract_id" fs)
  hash ← validate_hash (item "contract_hash" fs)
  contract_ref ← validate_ref (item "contract_ref" fs)
  judge_ref ← validate_ref (item "judge_report_ref" fs)
  ledger_ref ← validate_ref (item "decision_ledger_ref" fs)
  accepted ← ref_list (item_or "accepted_artifact_refs" (strings []) fs)
  checks ← ref_list (item_or "hard_check_refs" (strings []) fs)
  metrics ← ref_list (item_or "metric_refs" (strings []) fs)
  products ← ref_list (item_or "product_payload_refs" (strings []) fs)
  ok (record {
    package_id = package_id;
    run_id = run_id;
    contract_id = contract_id;
    contract_hash = hash;
    contract_ref = contract_ref;
    judge_report_ref = judge_ref;
    decision_ledger_ref = ledger_ref;
    accepted_artifact_refs = accepted;
    hard_check_refs = checks;
    metric_refs = metrics;
    product_payload_refs = products;
    schema_version = schema;
  })

unfoldable pub from_dict : Platform → Value → Outcome FinalPackage
unfolding parse
from_dict py payload = do
  fs ← strict_mapping package_keys payload
  p ← parse fs
  validate py p
  ok p

unfoldable pub to_dict : Platform → FinalPackage → Outcome Fields
to_dict py p = do validate py p; ok (content p)

-- `build_final_package`
unfoldable pub build_final_package :
    Platform
    → Text
    → Text
    → Text
    → Text
    → Text
    → Text
    → List Text
    → List Text
    → List Text
    → List Text
    → Outcome FinalPackage
build_final_package py run_id contract_id hash contract_ref judge_ref ledger_ref accepted checks
      metrics products =
    let p : FinalPackage = record {
      package_id = codes "final-package-" ++ run_id;
      run_id = run_id;
      contract_id = contract_id;
      contract_hash = hash;
      contract_ref = contract_ref;
      judge_report_ref = judge_ref;
      decision_ledger_ref = ledger_ref;
      accepted_artifact_refs = accepted;
      hard_check_refs = checks;
      metric_refs = metrics;
      product_payload_refs = products;
      schema_version = final_package_schema;
    } in
    validate py p >>= λ _. ok p
