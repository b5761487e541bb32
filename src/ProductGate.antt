-- ===== src/ProductGate.antt =====
-- `ProductGateCheck` and `ProductGateSpec` of src/missionforge/product_gate.py; ProductGate/Result has
-- what a gate answers.
pub mod Result
pub mod Blocked
use missionforge.Common.{ℕ, Bool, true, List, [], ◌∷◌, is_empty, map}
use missionforge.Text.{Text, codes}
use missionforge.Outcome.{
  Outcome, ok, raise, refuse_if, missing, duplicate, type_error, ◌>>=◌, ◌>>◌,
}
use missionforge.Platform.{Platform}
use missionforge.Value.{
  Value, boolean, text, list, dict, object, Items, nil, cons, Fields, end, field, name, other_key,
  item, item_or, entry, strings,
}
use missionforge.Contracts.{
  require_non_empty_str, require_str_list, require_mapping, require_bool, validate_ref,
}
use missionforge.Contracts.Payload.{assert_refs_only_payload}
use missionforge.Checks.{has_duplicates, require_schema}
use missionforge.Checks.Hash.{strict_mapping}

-- PRODUCT_GATE_SPEC_SCHEMA_VERSION
abbrev pub spec_schema : Text
spec_schema = codes "missionforge.product_gate_spec.v1"

-- `[validate_ref(ref) for ref in values]`, for its exceptions
unfoldable pub validate_each : List Text → Outcome (Unit {0})
validate_each [] = ok tt
validate_each (r ∷ rs) = validate_ref (text r) >> validate_each rs

-- `_validate_ref_list`
unfoldable pub validate_ref_list : List Text → Outcome (Unit {0})
unfolding validate_each
validate_ref_list values = do require_str_list (strings values); validate_each values

-- `_require_unique`
unfoldable pub require_unique : List Text → Outcome (Unit {0})
require_unique values = refuse_if (has_duplicates values) duplicate

abbrev characters : Text → Items
characters [] = nil
characters (c ∷ t) = cons (text (c ∷ [])) (characters t)

abbrev keys_of : Fields → Items
keys_of end = nil
keys_of (field (name k) v fs) = cons (text k) (keys_of fs)
keys_of (field (other_key n) v fs) = cons (object n) (keys_of fs)

-- `for child in value`: what Python iterates over; other objects count as not iterable.
unfoldable pub children : Value → Outcome Items
children (list vs) = ok vs
children (text t) = ok (characters t)
children (dict fs) = ok (keys_of fs)
children _ = raise type_error

pub record ProductGateCheck : Type 0 where
  pub check_id : Text
  pub purpose : Text
  pub blocking : Bool
  pub evidence_refs : List Text

abbrev pub check_to_dict : ProductGateCheck → Fields
check_to_dict c = entry "check_id" (text c.check_id) (
    entry "purpose" (text c.purpose)
      (entry "blocking" (boolean c.blocking) (entry "evidence_refs" (strings c.evidence_refs) end)))

unfoldable pub validate_check : Platform → ProductGateCheck → Outcome (Unit {0})
unfolding validate_ref_list
validate_check py c = do
  require_non_empty_str (text c.check_id)
  require_non_empty_str (text c.purpose)
  validate_ref_list c.evidence_refs
  assert_refs_only_payload py.lower (dict (check_to_dict c))
  ok tt

abbrev pub check_keys : List Text
check_keys = codes "check_id" ∷ codes "purpose" ∷ codes "blocking" ∷ codes "evidence_refs" ∷ []

unfoldable pub check_from_dict : Platform → Value → Outcome ProductGateCheck
unfolding validate_check
check_from_dict py payload = do
  fs ← strict_mapping check_keys payload
  check_id ← require_non_empty_str (item "check_id" fs)
  purpose ← require_non_empty_str (item "purpose" fs)
  blocking ← require_bool (item_or "blocking" (boolean true) fs)
  evidence_refs ← require_str_list (item_or "evidence_refs" (strings []) fs)
  let check : ProductGateCheck = record {
    check_id = check_id;
    purpose = purpose;
    blocking = blocking;
    evidence_refs = evidence_refs;
  }
  validate_check py check
  ok check

unfoldable pub parse_checks : Platform → Items → Outcome (List ProductGateCheck)
unfolding check_from_dict
parse_checks py nil = ok []
parse_checks py (cons v vs) = do
  fs ← require_mapping v
  check ← check_from_dict py (dict fs)
  rest ← parse_checks py vs
  ok (check ∷ rest)

pub record ProductGateSpec : Type 0 where
  pub product_id : Text
  pub gate_id : Text
  pub checks : List ProductGateCheck
  pub source_refs : List Text
  pub schema_version : Text

abbrev check_items : List ProductGateCheck → Items
check_items [] = nil
check_items (c ∷ cs) = cons (dict (check_to_dict c)) (check_items cs)

abbrev pub spec_to_dict : ProductGateSpec → Fields
spec_to_dict s = entry "schema_version" (text s.schema_version) (
    entry "product_id" (text s.product_id) (
      entry "gate_id" (text s.gate_id) (
        entry "checks" (list (check_items s.checks))
          (entry "source_refs" (strings s.source_refs) end))))

unfoldable pub validate_checks : Platform → List ProductGateCheck → Outcome (Unit {0})
validate_checks py [] = ok tt
validate_checks py (c ∷ cs) = validate_check py c >> validate_checks py cs

unfoldable pub validate_spec : Platform → ProductGateSpec → Outcome (Unit {0})
unfolding validate_ref_list require_unique validate_checks
validate_spec py s = do
  require_schema s.schema_version spec_schema
  require_non_empty_str (text s.product_id)
  require_non_empty_str (text s.gate_id)
  refuse_if (is_empty s.checks) missing
  require_unique (map (λ (c : ProductGateCheck). c.check_id) s.checks)
  validate_checks py s.checks
  validate_ref_list s.source_refs
  assert_refs_only_payload py.lower (dict (spec_to_dict s))
  ok tt

abbrev pub spec_keys : List Text
spec_keys =
    codes "schema_version"
    ∷ codes "product_id"
    ∷ codes "gate_id"
    ∷ codes "checks"
    ∷ codes "source_refs"
    ∷ []

unfoldable pub spec_from_dict : Platform → Value → Outcome ProductGateSpec
unfolding parse_checks children validate_spec
spec_from_dict py payload = do
  fs ← strict_mapping spec_keys payload
  product_id ← require_non_empty_str (item "product_id" fs)
  gate_id ← require_non_empty_str (item "gate_id" fs)
  items ← children (item_or "checks" (strings []) fs)
  checks ← parse_checks py items
  source_refs ← require_str_list (item_or "source_refs" (strings []) fs)
  schema ← require_non_empty_str (item_or "schema_version" (text spec_schema) fs)
  let spec : ProductGateSpec = record {
    product_id = product_id;
    gate_id = gate_id;
    checks = checks;
    source_refs = source_refs;
    schema_version = schema;
  }
  validate_spec py spec
  ok spec
