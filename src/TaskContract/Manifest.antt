-- ===== src/TaskContract/Manifest.antt =====
-- `PermissionManifest` of src/missionforge/task_contract.py: its checks and its parser.
use missionforge.Common.{Option, List, [], ◌∷◌}
use missionforge.Text.{Text, codes}
use missionforge.Outcome.{Outcome, ok, ◌>>=◌, ◌>>◌}
use missionforge.Platform.{Platform}
use missionforge.Value.{Value, text, list, nil, Fields, item, item_or, strings}
use missionforge.Contracts.{require_non_empty_str, require_str_list, require_mapping}
use missionforge.Checks.{
  find_name, ref_list, validate_unique_refs, optional_ref, from_option, require_enum,
  require_schema,
}
use missionforge.TaskContract.ProgressStream.{
  ProgressStreamGrant, streams_from_dicts, validate_streams,
}
use missionforge.TaskContract.Extension.{ExtensionGrant, grants_from_dicts, validate_grants}

pub data NetworkPolicy : Type 0 where
  disabled restricted enabled : NetworkPolicy

abbrev pub network_policy_of : Text → Option NetworkPolicy
network_policy_of = find_name (
    (codes "disabled", disabled)
    ∷ (codes "restricted", restricted)
    ∷ (codes "enabled", enabled)
    ∷ [])

-- PERMISSION_MANIFEST_SCHEMA_VERSION
abbrev pub permission_manifest_schema : Text
permission_manifest_schema = codes "permission_manifest.v1"

pub record PermissionManifest : Type 0 where
  pub manifest_id : Text
  pub workspace_policy_ref : Option Text
  pub readable_refs : List Text
  pub writable_refs : List Text
  pub denied_refs : List Text
  pub allowed_commands : List Text
  pub network_policy : NetworkPolicy
  pub env_allowlist : List Text
  pub secret_ref : Option Text
  pub unsupported_hard_policies : List Text
  pub extension_grants : List ExtensionGrant
  pub progress_streams : List ProgressStreamGrant
  pub schema_version : Text

unfoldable pub validate : Platform → PermissionManifest → Outcome (Unit {0})
validate py m = do
  require_schema m.schema_version permission_manifest_schema
  require_non_empty_str (text m.manifest_id)
  optional_ref (from_option m.workspace_policy_ref)
  validate_unique_refs m.readable_refs
  validate_unique_refs m.writable_refs
  validate_unique_refs m.denied_refs
  require_str_list (strings m.allowed_commands)
  require_str_list (strings m.env_allowlist)
  optional_ref (from_option m.secret_ref)
  require_str_list (strings m.unsupported_hard_policies)
  validate_grants py [] m.extension_grants
  validate_streams [] m.progress_streams

unfoldable pub parse : Platform → Fields → Outcome PermissionManifest
parse py fs = do
  secret_ref ← optional_ref (item "secret_ref" fs)
  manifest_id ← require_non_empty_str (item "manifest_id" fs)
  policy_ref ← optional_ref (item "workspace_policy_ref" fs)
  readable ← ref_list (item_or "readable_refs" (item_or "readable_roots" (strings []) fs) fs)
  writable ← ref_list (item_or "writable_refs" (item_or "writable_roots" (strings []) fs) fs)
  denied ← ref_list (item_or "denied_refs" (item_or "denied_paths" (strings []) fs) fs)
  commands ←
      require_str_list
        (item_or "allowed_commands" (item_or "executable_commands" (strings []) fs) fs)
  network ← require_enum network_policy_of (item_or "network_policy" (text (codes "disabled")) fs)
  env ←
      require_str_list
        (item_or "env_allowlist" (item_or "environment_allowlist" (strings []) fs) fs)
  unsupported ← require_str_list (item_or "unsupported_hard_policies" (strings []) fs)
  grants ← grants_from_dicts py (item_or "extension_grants" (list nil) fs)
  streams ← streams_from_dicts (item_or "progress_streams" (list nil) fs)
  schema ← require_non_empty_str (item_or "schema_version" (text permission_manifest_schema) fs)
  ok (record {
    manifest_id = manifest_id;
    workspace_policy_ref = policy_ref;
    readable_refs = readable;
    writable_refs = writable;
    denied_refs = denied;
    allowed_commands = commands;
    network_policy = network;
    env_allowlist = env;
    secret_ref = secret_ref;
    unsupported_hard_policies = unsupported;
    extension_grants = grants;
    progress_streams = streams;
    schema_version = schema;
  })

unfoldable pub from_dict : Platform → Value → Outcome PermissionManifest
from_dict py payload = do
  fs ← require_mapping payload
  manifest ← parse py fs
  validate py manifest
  ok manifest
