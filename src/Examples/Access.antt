-- ===== src/Examples/Access.antt =====
-- The theorems on permissions and the sandbox runner at concrete inputs.
use missionforge.Common.{◌≡◌, refl, ◌↔◌, none, some, [], ◌∷◌, true, false}
use missionforge.Text.{
  Text, codes, text_eq, has_code, starts_with, has_text, split, is_space, lstrip, rstrip, strip,
}
use missionforge.Outcome.{ok}
use missionforge.Platform.{Platform, aware}
use missionforge.Value.{text, dict, end, get, get_or, texts}
use missionforge.Contracts.{
  validate_ref, check_ref, require_non_empty_str, require_str_list, strip_items, require_mapping,
  is_control, is_dot_segment, has_drive, is_unsafe_start,
}
use missionforge.Contracts.Json.{ensure_json_value, ensure_json_items, ensure_json_fields}
use missionforge.Checks.{
  ref_list, validate_refs, validate_unique_refs, validate_unique_strings, has_duplicates, set_of,
  member, require_schema, optional_ref, require_enum,
}
use missionforge.TaskContract.ProgressStream.{streams_from_dicts, parse_streams, validate_streams}
use missionforge.TaskContract.Extension.{
  grants_from_dicts, optional_non_empty, parse_grants, validate_grants, validate_env_names,
  validate_env_name,
}
use missionforge.TaskContract.Manifest
use missionforge.TaskContract.Manifest.{NetworkPolicy, disabled, PermissionManifest}
use missionforge.Permissions
use missionforge.Permissions.{
  PermissionOperation, PermissionDecision, ref_is_under, match_roots, first_matching_root,
  allowed_at, check_read, check_write, ensure_allowed, ensure_read, ensure_write,
}
use missionforge.Permissions.Paths.{Below, ref_is_under_iff}
use missionforge.Permissions.Decisions.{InRoots, check_ref_iff, check_decides}
use missionforge.Permissions.Ensure.{ensure_read-InRoots, ensure_write-InRoots}
use missionforge.RuntimeControl
use missionforge.RuntimeControl.{
  SandboxMode, CapabilityGrant, SandboxProfile, ToolGatewayRequest, replace_z, parse_timestamp,
  require_timestamp, validate_grant, is_active, validate_profile, validate_request, is_under,
}
use missionforge.RuntimeControl.Runner.{
  dispatch, validate_result, run, run_tool, run_read, check_all, enforcer, manifest_fields,
  replace_slash, pass,
}
use missionforge.RuntimeControl.Gateway.{dispatch-IsPermitted}
use missionforge.RuntimeControl.Permitted.{IsPermitted, run-IsPermitted}

abbrev docs : Text
docs = codes "docs"

abbrev page : Text
page = codes "docs/page.md"

abbrev drafts : Text
drafts = codes "docs/drafts"

docs_valid : validate_ref (text docs) ≡ ok docs
unfolding validate_ref check_ref require_non_empty_str is_control is_dot_segment has_drive
    is_unsafe_start strip lstrip rstrip is_space has_code starts_with has_text split text_eq
docs_valid = refl

page_valid : validate_ref (text page) ≡ ok page
unfolding validate_ref check_ref require_non_empty_str is_control is_dot_segment has_drive
    is_unsafe_start strip lstrip rstrip is_space has_code starts_with has_text split text_eq
page_valid = refl

ref_is_under_iff_example : (ref_is_under page docs ≡ ok true) ↔ Below docs page
ref_is_under_iff_example = ref_is_under_iff page docs page_valid docs_valid

abbrev manifest : PermissionManifest
manifest = record {
  manifest_id = codes "permissions";
  workspace_policy_ref = none;
  readable_refs = docs ∷ [];
  writable_refs = codes "out" ∷ [];
  denied_refs = drafts ∷ [];
  allowed_commands = codes "make test" ∷ [];
  network_policy = disabled;
  env_allowlist = [];
  secret_ref = none;
  unsupported_hard_policies = [];
  extension_grants = [];
  progress_streams = [];
  schema_version = codes "permission_manifest.v1";
}

page_decided :
    Permissions.check_ref manifest PermissionOperation.read page (docs ∷ [])
    ≡ ok (allowed_at PermissionOperation.read page docs)
unfolding Permissions.check_ref match_roots first_matching_root ref_is_under validate_ref check_ref
    require_non_empty_str is_control is_dot_segment has_drive is_unsafe_start strip lstrip rstrip
    is_space has_code starts_with has_text split text_eq
page_decided = refl

check_ref_iff_example :
    (true ≡ true) ↔ (InRoots (strip page) (docs ∷ []) × (¬ InRoots (strip page) (drafts ∷ [])))
check_ref_iff_example =
    check_ref_iff manifest PermissionOperation.read page (docs ∷ [])
      (allowed_at PermissionOperation.read page docs) page_decided

-- Capital letters stay: nothing here asks for more of Python.
abbrev python : Platform
python = record {
  lower = λ t. t;
  is_alpha = λ c. true;
  is_alnum = λ c. true;
  sha256 = λ v. [];
  to_str = λ v. [];
  from_iso = λ t. some (aware 1000);
}

manifest_valid : Manifest.validate python manifest ≡ ok tt
unfolding Manifest.validate require_schema require_non_empty_str validate_unique_refs
    validate_unique_strings ref_list validate_refs has_duplicates set_of member optional_ref
    validate_grants validate_streams validate_env_names validate_env_name require_str_list
    strip_items texts validate_ref check_ref is_control is_dot_segment has_drive is_unsafe_start
    strip lstrip rstrip is_space has_code starts_with has_text split text_eq
manifest_valid = refl

check_decides_example :
    ((d : PermissionDecision) × (check_read manifest page ≡ ok d)
      × ((d.allowed ≡ true) ↔ (InRoots page (docs ∷ []) × (¬ InRoots page (drafts ∷ [])))))
    × ((d : PermissionDecision) × (check_write manifest page ≡ ok d)
        × ((d.allowed ≡ true) ↔ (InRoots page (codes "out" ∷ []) × (¬ InRoots page (drafts ∷ [])))))
check_decides_example = check_decides python manifest page page manifest_valid page_valid

abbrev grant : CapabilityGrant
grant = record {
  grant_id = codes "grant";
  role = codes "executor";
  contract_hash = codes "hash";
  workspace_policy_ref = codes "policy.json";
  permission_manifest_ref = codes "manifest.json";
  workspace_view_ref = codes "view";
  sandbox_profile_ref = codes "profile.json";
  issued_by = codes "planner";
  issued_at = codes "2025-01-01T00:00:00Z";
  expires_at = codes "2026-01-01T00:00:00Z";
  parent_grant_ref = none;
  revoked_at = none;
  schema_version = codes "runtime_capability_grant.v1";
  metadata = dict end;
}

abbrev profile : SandboxProfile
profile = record {
  profile_id = codes "profile";
  mode = SandboxMode.subprocess;
  workspace_root_ref = codes "view";
  readable_refs = docs ∷ [];
  writable_refs = codes "out" ∷ [];
  denied_refs = drafts ∷ [];
  network_enabled = false;
  env_allowlist = [];
  command_allowlist = codes "make test" ∷ [];
  resource_budget = dict end;
  schema_version = codes "sandbox_profile.v1";
}

abbrev reading : ToolGatewayRequest
reading = record {
  request_id = codes "request";
  grant = grant;
  tool_name = codes "read";
  args = end;
  cwd_ref = some (codes "view/src");
  input_refs = page ∷ [];
  output_refs = [];
  evidence_refs = [];
  schema_version = codes "tool_gateway_request.v1";
}

reading_allowed : run python 999 reading profile ≡ ok (pass reading)
unfolding run validate_request validate_grant validate_profile is_active parse_timestamp
    require_timestamp replace_z is_under RuntimeControl.safe_mapping RuntimeControl.ref_list
    enforcer manifest_fields replace_slash run_tool run_read check_all check_read
    Permissions.check_ref match_roots first_matching_root ref_is_under Manifest.from_dict
    Manifest.parse Manifest.validate require_schema require_non_empty_str require_mapping
    validate_unique_refs validate_unique_strings get get_or grants_from_dicts parse_grants
    streams_from_dicts parse_streams require_enum ref_list validate_refs has_duplicates set_of
    member optional_ref validate_grants validate_streams validate_env_names validate_env_name
    require_str_list strip_items texts ensure_json_value ensure_json_items ensure_json_fields
    validate_ref check_ref is_control is_dot_segment has_drive is_unsafe_start strip lstrip rstrip
    is_space has_code starts_with has_text split text_eq
reading_allowed = refl

reading_dispatched : dispatch python (run python 999) reading profile ≡ ok (pass reading)
unfolding dispatch validate_result run validate_request validate_grant validate_profile is_active
    parse_timestamp require_timestamp replace_z is_under RuntimeControl.safe_mapping
    RuntimeControl.ref_list enforcer manifest_fields replace_slash run_tool run_read check_all
    check_read Permissions.check_ref match_roots first_matching_root ref_is_under Manifest.from_dict
    Manifest.parse Manifest.validate require_schema require_non_empty_str require_mapping
    validate_unique_refs validate_unique_strings get get_or grants_from_dicts parse_grants
    streams_from_dicts parse_streams require_enum ref_list validate_refs has_duplicates set_of
    member optional_ref validate_grants validate_streams validate_env_names validate_env_name
    require_str_list strip_items texts ensure_json_value ensure_json_items ensure_json_fields
    validate_ref check_ref is_control is_dot_segment has_drive is_unsafe_start strip lstrip rstrip
    is_space has_code starts_with has_text split text_eq
reading_dispatched = refl

dispatch-IsPermitted_example :
    (codes "view" ≡ codes "view")
    × IsPermitted python 999 reading profile
    × (validate_result (pass reading) ≡ ok tt)
dispatch-IsPermitted_example =
    dispatch-IsPermitted python 999 reading profile (pass reading) reading_dispatched refl

run-IsPermitted_example : IsPermitted python 999 reading profile
run-IsPermitted_example =
    run-IsPermitted python 999 reading profile (pass reading) reading_allowed refl

page_read : ensure_read manifest page ≡ ok page
unfolding ensure_read ensure_allowed check_read Permissions.check_ref Permissions.validate
    match_roots first_matching_root ref_is_under optional_ref optional_non_empty require_str_list
    strip_items texts validate_ref check_ref require_non_empty_str is_control is_dot_segment
    has_drive is_unsafe_start strip lstrip rstrip is_space has_code starts_with has_text split
    text_eq
page_read = refl

ensure_read-InRoots_example :
    (page ≡ strip page) × InRoots page (docs ∷ []) × (¬ InRoots page (drafts ∷ []))
ensure_read-InRoots_example = ensure_read-InRoots manifest page page page_read

abbrev output : Text
output = codes "out/page.md"

output_written : ensure_write manifest output ≡ ok output
unfolding ensure_write ensure_allowed check_write Permissions.check_ref Permissions.validate
    match_roots first_matching_root ref_is_under optional_ref optional_non_empty require_str_list
    strip_items texts validate_ref check_ref require_non_empty_str is_control is_dot_segment
    has_drive is_unsafe_start strip lstrip rstrip is_space has_code starts_with has_text split
    text_eq
output_written = refl

ensure_write-InRoots_example :
    (output ≡ strip output) × InRoots output (codes "out" ∷ []) × (¬ InRoots output (drafts ∷ []))
ensure_write-InRoots_example = ensure_write-InRoots manifest output output output_written
