-- ===== src/Examples/Running.antt =====
-- What the examples compute with: the definitions that most checks call, under one name for an
-- `unfolding` line, and a platform.
use missionforge.Common.{true, some, []}
use missionforge.Text.{
  text_eq, has_code, starts_with, has_text, ends_with, split, is_space, lstrip, rstrip, strip,
}
use missionforge.Text.Decimal.{digits, zeros, decimal}
use missionforge.Platform.{Platform, aware, str}
use missionforge.Value.{get, get_or, texts, is_finite}
use missionforge.Contracts.{
  validate_ref, check_ref, require_non_empty_str, require_str, require_str_list, strip_items,
  require_mapping, require_int_at_least, require_bool, is_control, is_dot_segment, has_drive,
  is_unsafe_start,
}
use missionforge.Contracts.Json.{ensure_json_value, ensure_json_items, ensure_json_fields}
use missionforge.Contracts.Payload.{
  assert_refs_only_payload, is_forbidden_key, is_refs_key, is_ref_key, validate_all,
  check_refs_item, check_ref_item, reject_forbidden, reject_forbidden_items,
  reject_forbidden_fields, validate_payload_refs, validate_payload_refs_items,
  validate_payload_refs_fields,
}
use missionforge.Checks.{
  ref_list, validate_refs, has_duplicates, set_of, member, safe_mapping, require_schema,
  validate_unique_refs, validate_unique_strings, optional_ref, require_enum, stable_json_hash,
}
use missionforge.Checks.Hash.{
  is_hex, validate_hash, optional_hash, reject_unknown, strict_mapping, hash_or_none,
}
use missionforge.Jsonl.{
  resolve_ref, is_break, splitlines, parse_lines, append_text, append_jsonl, read_jsonl,
}

unfoldable pub computing : Unit {0}
unfolding text_eq has_code starts_with has_text ends_with split is_space lstrip rstrip strip digits
    zeros decimal str get get_or texts is_finite validate_ref check_ref require_non_empty_str
    require_str require_str_list strip_items require_mapping require_int_at_least require_bool
    is_control is_dot_segment has_drive is_unsafe_start ensure_json_value ensure_json_items
    ensure_json_fields assert_refs_only_payload is_forbidden_key is_refs_key is_ref_key validate_all
    check_refs_item check_ref_item reject_forbidden reject_forbidden_items reject_forbidden_fields
    validate_payload_refs validate_payload_refs_items validate_payload_refs_fields ref_list
    validate_refs has_duplicates set_of member safe_mapping require_schema validate_unique_refs
    validate_unique_strings optional_ref require_enum stable_json_hash is_hex validate_hash
    optional_hash reject_unknown strict_mapping hash_or_none resolve_ref is_break splitlines
    parse_lines append_text append_jsonl read_jsonl
computing = tt

abbrev pub python : Platform
python = record {
  lower = λ t. t;
  is_alpha = λ c. true;
  is_alnum = λ c. true;
  sha256 = λ v. [];
  to_str = λ v. [];
  from_iso = λ t. some (aware 1000);
}
