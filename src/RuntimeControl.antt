-- ===== src/RuntimeControl.antt =====
-- src/missionforge/runtime_control.py: grants, sandbox profiles, and the requests that the tool
-- gateway decides. The hashes that the dataclasses derive from their content, and the parsers of
-- grants and profiles, are left out.
pub mod Runner
pub mod Allowed
pub mod Permitted
pub mod Gateway
use missionforge.Common.{
  ℕ, Bool, true, false, not, ◌||◌, Option, none, some, List, [], ◌∷◌, ◌++◌, map, ltb, ◌==◌,
  if◌then◌else◌, is_empty,
}
use missionforge.Text.{Text, codes, text_eq, starts_with}
use missionforge.Outcome.{Outcome, ok, refuse, refuse_if, bad_value, mismatch, ◌>>=◌, ◌>>◌}
use missionforge.Platform.{Platform, DateTime, naive, aware}
use missionforge.Value.{Value, null, text, dict, Fields, end, strings}
use missionforge.Contracts.{require_non_empty_str, require_str_list, require_mapping, validate_ref}
use missionforge.Contracts.Json.{ensure_json_value}
use missionforge.Checks.{
  validate_refs, validate_unique_refs, require_schema, optional_ref, from_option,
}

pub data SandboxMode : Type 0 where
  bubblewrap nsjail subprocess unsupported : SandboxMode

-- RUNTIME_CAPABILITY_GRANT_SCHEMA_VERSION and the like
abbrev pub grant_schema : Text
grant_schema = codes "runtime_capability_grant.v1"

abbrev pub profile_schema : Text
profile_schema = codes "sandbox_profile.v1"

abbrev pub request_schema : Text
request_schema = codes "tool_gateway_request.v1"

abbrev pub result_schema : Text
result_schema = codes "tool_gateway_result.v1"

pub record CapabilityGrant : Type 0 where
  pub grant_id : Text
  pub role : Text
  pub contract_hash : Text
  pub workspace_policy_ref : Text
  pub permission_manifest_ref : Text
  pub workspace_view_ref : Text
  pub sandbox_profile_ref : Text
  pub issued_by : Text
  pub issued_at : Text
  pub expires_at : Text
  pub parent_grant_ref : Option Text
  pub revoked_at : Option Text
  pub schema_version : Text
  pub metadata : Value

pub record SandboxProfile : Type 0 where
  pub profile_id : Text
  pub mode : SandboxMode
  pub workspace_root_ref : Text
  pub readable_refs : List Text
  pub writable_refs : List Text
  pub denied_refs : List Text
  pub network_enabled : Bool
  pub env_allowlist : List Text
  pub command_allowlist : List Text
  pub resource_budget : Value
  pub schema_version : Text

-- `args` is a mapping.
pub record ToolGatewayRequest : Type 0 where
  pub request_id : Text
  pub grant : CapabilityGrant
  pub tool_name : Text
  pub args : Fields
  pub cwd_ref : Option Text
  pub input_refs : List Text
  pub output_refs : List Text
  pub evidence_refs : List Text
  pub schema_version : Text

-- `value.replace("Z", "+00:00")`
unfoldable pub replace_z : Text → Text
replace_z [] = []
replace_z (c ∷ s) = let rest = replace_z s in if c == b'Z' then codes "+00:00" ++ rest else c ∷ rest

abbrev to_utc : Option DateTime → Outcome ℕ
to_utc none = refuse bad_value
to_utc (some (naive t)) = ok t
to_utc (some (aware t)) = ok t

-- `_parse_timestamp`: a date without a zone is in UTC.
unfoldable pub parse_timestamp : Platform → Text → Outcome ℕ
parse_timestamp py value = do
  timestamp ← require_non_empty_str (text value)
  to_utc (py.from_iso (replace_z timestamp))

unfoldable pub require_timestamp : Platform → Text → Outcome Text
require_timestamp py value = do
  timestamp ← require_non_empty_str (text value)
  parse_timestamp py timestamp
  ok timestamp

abbrev optional_timestamp : Platform → Option Text → Outcome (Unit {0})
optional_timestamp py none = ok tt
optional_timestamp py (some value) = require_timestamp py value >> ok tt

abbrev check_optional_ref : Option Text → Outcome (Unit {0})
check_optional_ref none = ok tt
check_optional_ref (some r) = validate_ref (text r) >> ok tt

-- `_safe_mapping` of this file: None is the empty mapping.
unfoldable pub safe_mapping : Value → Outcome Value
safe_mapping null = ok (dict end)
safe_mapping value = do fs ← require_mapping value; ensure_json_value (dict fs)

-- `_ref_list` of this file
unfoldable pub ref_list : Value → Outcome (List Text)
ref_list value = do refs ← require_str_list value; validate_refs refs; ok refs

unfoldable pub validate_grant : Platform → CapabilityGrant → Outcome (Unit {0})
validate_grant py g = do
  require_schema g.schema_version grant_schema
  require_non_empty_str (text g.grant_id)
  require_non_empty_str (text g.role)
  require_non_empty_str (text g.contract_hash)
  validate_ref (text g.workspace_policy_ref)
  validate_ref (text g.permission_manifest_ref)
  validate_ref (text g.workspace_view_ref)
  validate_ref (text g.sandbox_profile_ref)
  require_non_empty_str (text g.issued_by)
  require_timestamp py g.issued_at
  require_timestamp py g.expires_at
  check_optional_ref g.parent_grant_ref
  optional_timestamp py g.revoked_at
  safe_mapping g.metadata
  ok tt

abbrev pub active_until : Platform → ℕ → Text → Option Text → Outcome Bool
active_until py now expires_at (some revoked) = ok false
active_until py now expires_at none = do
  expires ← parse_timestamp py expires_at
  ok (ltb now expires)

-- `is_active`, at the time `now`
unfoldable pub is_active : Platform → ℕ → CapabilityGrant → Outcome Bool
is_active py now g = active_until py now g.expires_at g.revoked_at

unfoldable pub validate_profile : SandboxProfile → Outcome (Unit {0})
validate_profile p = do
  require_schema p.schema_version profile_schema
  require_non_empty_str (text p.profile_id)
  validate_ref (text p.workspace_root_ref)
  validate_unique_refs p.readable_refs
  validate_unique_refs p.writable_refs
  validate_unique_refs p.denied_refs
  require_str_list (strings p.env_allowlist)
  require_str_list (strings p.command_allowlist)
  safe_mapping p.resource_budget
  ok tt

unfoldable pub validate_request : Platform → ToolGatewayRequest → Outcome (Unit {0})
validate_request py r = do
  require_non_empty_str (text r.request_id)
  validate_grant py r.grant
  require_non_empty_str (text r.tool_name)
  safe_mapping (dict r.args)
  check_optional_ref r.cwd_ref
  ref_list (strings r.input_refs)
  ref_list (strings r.output_refs)
  ref_list (strings r.evidence_refs)
  require_schema r.schema_version request_schema

-- `_is_under`
unfoldable pub is_under : Text → Text → Outcome Bool
is_under ref scope = do
  safe_ref ← validate_ref (text ref)
  safe_scope ← validate_ref (text scope)
  ok (text_eq safe_ref safe_scope || starts_with (safe_scope ++ codes "/") safe_ref)
