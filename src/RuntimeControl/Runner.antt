-- ===== src/RuntimeControl/Runner.antt =====
-- `HostSandboxRunner.run` and `ToolGateway.dispatch` of src/missionforge/runtime_control.py. A reason
-- is the decision's `Reason` of the permission layer, where it comes from there.
use missionforge.Common.{
  ℕ, Bool, true, false, not, ◌||◌, Option, none, some, List, [], ◌∷◌, ◌==◌, if◌then◌else◌,
}
use missionforge.Text.{Text, codes, text_eq}
use missionforge.Outcome.{Outcome, ok, refuse_if, mismatch, ◌>>=◌, ◌>>◌}
use missionforge.Platform.{Platform, str}
use missionforge.Value.{
  pos, negsuc, Value, null, boolean, integer, float, text, list, dict, object, nil, cons, Fields,
  end, field, item_or, entry, strings,
}
use missionforge.Contracts.{require_non_empty_str, require_str_list}
use missionforge.Checks.{member, require_schema, optional_ref, from_option}
use missionforge.TaskContract.Manifest
use missionforge.TaskContract.Manifest.{PermissionManifest}
use missionforge.Permissions.{
  PermissionDecision, Reason, check_read, check_write, check_command, check_network,
}
use missionforge.RuntimeControl.{
  SandboxProfile, ToolGatewayRequest, result_schema, ref_list, is_active, validate_profile,
  validate_request, is_under,
}

-- `decision`, the string of the result
pub data Verdict : Type 0 where
  grant_inactive cwd_denied read_denied write_denied command_denied network_denied : Verdict
  unsupported_tool allowed : Verdict

-- The messages that are written in this file, and those that a permission decision gives.
pub data ResultReason : Type 0 where
  grant_expired_or_revoked cwd_outside_root tool_not_supported passed_checks : ResultReason
  permission : Reason → ResultReason

pub record ToolGatewayResult : Type 0 where
  pub request_id : Text
  pub allowed : Bool
  pub verdict : Verdict
  pub sandbox_ref : Option Text
  pub reason : ResultReason
  pub evidence_refs : List Text
  pub unsupported_policy_names : List Text
  pub schema_version : Text

unfoldable pub validate_result : ToolGatewayResult → Outcome (Unit {0})
validate_result r = do
  require_non_empty_str (text r.request_id)
  optional_ref (from_option r.sandbox_ref)
  ref_list (strings r.evidence_refs)
  require_str_list (strings r.unsupported_policy_names)
  require_schema r.schema_version result_schema

-- A refusal with the defaults of the dataclass.
abbrev pub deny : ToolGatewayRequest → Verdict → ResultReason → ToolGatewayResult
deny request verdict reason = record {
  request_id = request.request_id;
  allowed = false;
  verdict = verdict;
  sandbox_ref = none;
  reason = reason;
  evidence_refs = [];
  unsupported_policy_names = [];
  schema_version = result_schema;
}

abbrev pub pass : ToolGatewayRequest → ToolGatewayResult
pass request = record {
  request_id = request.request_id;
  allowed = true;
  verdict = Verdict.allowed;
  sandbox_ref = some request.grant.workspace_view_ref;
  reason = passed_checks;
  evidence_refs = [];
  unsupported_policy_names = [];
  schema_version = result_schema;
}

-- `ref.replace("/", "-")`
unfoldable pub replace_slash : Text → Text
replace_slash [] = []
replace_slash (c ∷ s) = (if c == b'/' then b'-' else c) ∷ replace_slash s

-- The mapping that the runner hands to `PermissionManifest.from_dict`.
unfoldable pub manifest_fields : ToolGatewayRequest → SandboxProfile → Fields
manifest_fields request profile =
    entry "manifest_id" (text (replace_slash request.grant.permission_manifest_ref)) (
      entry "workspace_policy_ref" (text request.grant.workspace_policy_ref) (
        entry "readable_refs" (strings profile.readable_refs) (
          entry "writable_refs" (strings profile.writable_refs) (
            entry "denied_refs" (strings profile.denied_refs) (
              entry "allowed_commands" (strings profile.command_allowlist) (
                entry "network_policy"
                  (text (if profile.network_enabled then codes "enabled" else codes "disabled"))
                  (entry "env_allowlist" (strings profile.env_allowlist) end)))))))

-- Python's truth of a JSON value.
unfoldable pub truthy : Value → Bool
truthy null = false
truthy (boolean b) = b
truthy (integer (pos n)) = not (n == 0)
truthy (integer (negsuc n)) = true
truthy (float bits) = not (bits == 0 || bits == 9223372036854775808)
truthy (text []) = false
truthy (text (c ∷ s)) = true
truthy (list nil) = false
truthy (list (cons v vs)) = true
truthy (dict end) = false
truthy (dict (field k v fs)) = true
truthy (object n) = true

-- A loop that stops at the first ref that is not allowed.
unfoldable pub check_all :
    (Text → Outcome PermissionDecision) → List Text → Outcome (Option PermissionDecision)
check_all check [] = ok none
check_all check (ref ∷ refs) = do
  decision ← check ref
  let rest = check_all check refs
  if not decision.allowed then ok (some decision) else rest

abbrev pub after_refs : ToolGatewayRequest → Verdict → Option PermissionDecision → ToolGatewayResult
after_refs request verdict none = pass request
after_refs request verdict (some d) = record (deny request verdict (permission d.reason)) {
  evidence_refs = request.evidence_refs;
}

abbrev pub read_tools : List Text
read_tools = codes "read" ∷ codes "read_text" ∷ codes "read_json" ∷ []

abbrev pub write_tools : List Text
write_tools = codes "write" ∷ codes "write_text" ∷ codes "write_json" ∷ codes "edit" ∷ []

unfoldable pub run_read : PermissionManifest → ToolGatewayRequest → Outcome ToolGatewayResult
run_read m request = do
  found ← check_all (check_read m) request.input_refs
  ok (after_refs request read_denied found)

unfoldable pub run_write : PermissionManifest → ToolGatewayRequest → Outcome ToolGatewayResult
run_write m request = do
  found ← check_all (check_write m) request.output_refs
  ok (after_refs request write_denied found)

abbrev pub after_network : ToolGatewayRequest → PermissionDecision → ToolGatewayResult
after_network request d =
    if not d.allowed
    then record (deny request network_denied (permission d.reason)) {
      unsupported_policy_names = d.unsupported_policy_names;
    }
    else pass request

unfoldable pub command_of : Platform → ToolGatewayRequest → Text
command_of py request = str py (item_or "command" (text []) request.args)

unfoldable pub network_requested : ToolGatewayRequest → Bool
network_requested request = truthy (item_or "network" (boolean false) request.args)

unfoldable pub run_bash :
    Platform → PermissionManifest → ToolGatewayRequest → Outcome ToolGatewayResult
run_bash py m request = do
  d ← check_command m (command_of py request)
  ok (
      if not d.allowed
      then deny request command_denied (permission d.reason)
      else after_network request (check_network m (network_requested request)))

unfoldable pub run_tool :
    Platform → PermissionManifest → ToolGatewayRequest → Outcome ToolGatewayResult
run_tool py m request =
    if member request.tool_name read_tools
    then run_read m request
    else if member request.tool_name write_tools
    then run_write m request
    else if text_eq request.tool_name (codes "bash")
    then run_bash py m request
    else ok (deny request unsupported_tool tool_not_supported)

-- `cwd_ref is not None and not _is_under(cwd_ref, root)`
abbrev pub cwd_outside : Option Text → Text → Outcome Bool
cwd_outside none root = ok false
cwd_outside (some cwd) root = do inside ← is_under cwd root; ok (not inside)

-- The enforcer: the manifest is parsed, and validated once more.
unfoldable pub enforcer :
    Platform → ToolGatewayRequest → SandboxProfile → Outcome PermissionManifest
enforcer py request profile = do
  m ← Manifest.from_dict py (dict (manifest_fields request profile))
  Manifest.validate py m
  ok m

-- `HostSandboxRunner.run`, at the time `now`; the workspace is not used.
unfoldable pub run : Platform → ℕ → ToolGatewayRequest → SandboxProfile → Outcome ToolGatewayResult
run py now request profile = do
  validate_request py request
  validate_profile profile
  active ← is_active py now request.grant
  let checked = do
    outside ← cwd_outside request.cwd_ref profile.workspace_root_ref
    let decided = do m ← enforcer py request profile; run_tool py m request
    if outside then ok (deny request cwd_denied cwd_outside_root) else decided
  if not active then ok (deny request grant_inactive grant_expired_or_revoked) else checked

abbrev pub Runner : Type 0
Runner = ToolGatewayRequest → SandboxProfile → Outcome ToolGatewayResult

-- `ToolGateway.dispatch` over any runner
unfoldable pub dispatch :
    Platform → Runner → ToolGatewayRequest → SandboxProfile → Outcome ToolGatewayResult
dispatch py runner request profile = do
  validate_request py request
  validate_profile profile
  refuse_if (not (text_eq request.grant.workspace_view_ref profile.workspace_root_ref)) mismatch
  result ← runner request profile
  validate_result result
  ok result
