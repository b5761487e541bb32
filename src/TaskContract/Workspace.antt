-- ===== src/TaskContract/Workspace.antt =====
-- `WorkspacePolicy` of src/missionforge/task_contract.py, with its parser and its writer.
pub mod RoundTrip
use missionforge.Common.{List, []}
use missionforge.Text.{Text, codes}
use missionforge.Outcome.{Outcome, ok, ◌>>=◌, ◌>>◌}
use missionforge.Value.{Value, text, Fields, end, item, item_or, entry, strings}
use missionforge.Contracts.{require_non_empty_str, require_mapping, validate_ref}
use missionforge.Checks.{ref_list, validate_unique_refs, require_schema}

-- WORKSPACE_POLICY_SCHEMA_VERSION
abbrev pub workspace_policy_schema : Text
workspace_policy_schema = codes "workspace_policy.v1"

pub record WorkspacePolicy : Type 0 where
  pub policy_id : Text
  pub workspace_root_ref : Text
  pub input_refs : List Text
  pub artifact_root_refs : List Text
  pub scratch_root_refs : List Text
  pub denied_refs : List Text
  pub schema_version : Text

unfoldable pub validate : WorkspacePolicy → Outcome (Unit {0})
validate p = do
  require_schema p.schema_version workspace_policy_schema
  require_non_empty_str (text p.policy_id)
  validate_ref (text p.workspace_root_ref)
  validate_unique_refs p.input_refs
  validate_unique_refs p.artifact_root_refs
  validate_unique_refs p.scratch_root_refs
  validate_unique_refs p.denied_refs
  ok (tt {0})

unfoldable pub parse : Fields → Outcome WorkspacePolicy
parse fs = do
  policy_id ← require_non_empty_str (item "policy_id" fs)
  root ← validate_ref (item_or "workspace_root_ref" (text (codes "runs/current")) fs)
  inputs ← ref_list (item_or "input_refs" (item_or "readable_roots" (strings []) fs) fs)
  artifacts ← ref_list (item_or "artifact_root_refs" (item_or "artifact_roots" (strings []) fs) fs)
  scratch ← ref_list (item_or "scratch_root_refs" (strings []) fs)
  denied ← ref_list (item_or "denied_refs" (item_or "denied_paths" (strings []) fs) fs)
  schema ← require_non_empty_str (item_or "schema_version" (text workspace_policy_schema) fs)
  ok (record {
    policy_id = policy_id;
    workspace_root_ref = root;
    input_refs = inputs;
    artifact_root_refs = artifacts;
    scratch_root_refs = scratch;
    denied_refs = denied;
    schema_version = schema;
  })

unfoldable pub from_dict : Value → Outcome WorkspacePolicy
from_dict payload = do fs ← require_mapping payload; policy ← parse fs; validate policy; ok policy

unfoldable pub content : WorkspacePolicy → Fields
content p = entry "policy_id" (text p.policy_id) (
    entry "schema_version" (text p.schema_version) (
      entry "workspace_root_ref" (text p.workspace_root_ref) (
        entry "input_refs" (strings p.input_refs) (
          entry "artifact_root_refs" (strings p.artifact_root_refs) (
            entry "scratch_root_refs" (strings p.scratch_root_refs)
              (entry "denied_refs" (strings p.denied_refs) end))))))

unfoldable pub to_dict : WorkspacePolicy → Outcome Fields
to_dict p = do validate p; ok (content p)
