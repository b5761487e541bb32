-- ===== src/Examples/Refs.antt =====
-- The theorems on refs, payloads and policies at concrete inputs.
use missionforge.Common.{◌≡◌, refl, ◌↔◌, [], ◌∷◌}
use missionforge.Text.{
  Text, codes, text_eq, has_code, starts_with, has_text, ends_with, split, is_space, lstrip, rstrip,
  strip,
}
use missionforge.Outcome.{ok}
use missionforge.Value.{Value, text, dict, Fields, end, entry, strings, get, get_or, texts}
use missionforge.Contracts.{
  validate_ref, check_ref, require_non_empty_str, require_str_list, strip_items, require_mapping,
  is_control, is_dot_segment, has_drive, is_unsafe_start,
}
use missionforge.Contracts.Refs.{IsSafeRef, validate_ref_iff}
use missionforge.Contracts.Json.{
  ensure_json_value, ensure_json_items, ensure_json_fields, IsJson, ensure_json_value_iff,
}
use missionforge.Contracts.Payload.{
  assert_refs_only_payload, is_forbidden_key, is_refs_key, is_ref_key, validate_all,
  check_refs_item, check_ref_item, reject_forbidden, reject_forbidden_items,
  reject_forbidden_fields, validate_payload_refs, validate_payload_refs_items,
  validate_payload_refs_fields,
}
use missionforge.Contracts.Payload.Occurs.{in_dict, at_field, IsClean, payload-IsClean}
use missionforge.Checks.{
  ref_list, validate_refs, validate_unique_refs, has_duplicates, set_of, member, require_schema,
}
use missionforge.TaskContract.Workspace.{WorkspacePolicy, validate, parse, from_dict, to_dict}
use missionforge.TaskContract.Workspace.RoundTrip.{from_dict-to_dict}

abbrev padded : Text
padded = codes " runs/current "

abbrev runs : Text
runs = codes "runs/current"

validate_ref_iff_example :
    (validate_ref (text padded) ≡ ok runs) ↔ ((runs ≡ strip padded) × IsSafeRef runs)
validate_ref_iff_example = validate_ref_iff padded runs

abbrev payload : Value
payload = dict (entry "input_refs" (strings (runs ∷ [])) end)

ensure_json_value_iff_example :
    (ensure_json_value payload ≡ ok payload) ↔ ((payload ≡ payload) × IsJson payload)
ensure_json_value_iff_example = ensure_json_value_iff payload payload

payload_accepted : assert_refs_only_payload (λ t. t) payload ≡ ok payload
unfolding assert_refs_only_payload ensure_json_value ensure_json_items ensure_json_fields
    is_forbidden_key is_refs_key is_ref_key validate_all check_refs_item check_ref_item
    reject_forbidden reject_forbidden_items reject_forbidden_fields validate_payload_refs
    validate_payload_refs_items validate_payload_refs_fields validate_ref check_ref
    require_non_empty_str require_str_list strip_items is_control is_dot_segment has_drive
    is_unsafe_start strip lstrip rstrip is_space has_code starts_with has_text ends_with split
    text_eq texts
payload_accepted = refl

payload-IsClean_example : IsClean (codes "input_refs") (strings (runs ∷ []))
payload-IsClean_example =
    payload-IsClean (λ t. t) payload payload (codes "input_refs") (strings (runs ∷ []))
      payload_accepted (in_dict _ (at_field _))

abbrev policy_payload : Value
policy_payload = dict (
    entry "policy_id" (text (codes " policy "))
      (entry "input_refs" (strings (padded ∷ codes "docs" ∷ [])) end))

abbrev policy : WorkspacePolicy
policy = record {
  policy_id = codes "policy";
  workspace_root_ref = runs;
  input_refs = runs ∷ codes "docs" ∷ [];
  artifact_root_refs = [];
  scratch_root_refs = [];
  denied_refs = [];
  schema_version = codes "workspace_policy.v1";
}

policy_read : from_dict policy_payload ≡ ok policy
unfolding from_dict parse validate require_mapping get get_or texts ref_list validate_refs
    validate_unique_refs has_duplicates set_of member require_schema require_str_list strip_items
    validate_ref check_ref require_non_empty_str is_control is_dot_segment has_drive is_unsafe_start
    strip lstrip rstrip is_space has_code starts_with has_text split text_eq
policy_read = refl

from_dict-to_dict_example :
    (fs : Fields) × (to_dict policy ≡ ok fs) × (from_dict (dict fs) ≡ ok policy)
from_dict-to_dict_example = from_dict-to_dict policy_payload policy policy_read
