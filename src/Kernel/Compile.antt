-- ===== src/Kernel/Compile.antt =====
-- `compile_step` of src/missionforge/kernel/compiler.py: from a declared step to the call of a worker
-- and the manifest of what that worker may read, write and run.
pub mod Grants
pub mod Compiled
pub mod Authority
use missionforge.Common.{
  Bool, true, false, not, ◌&&◌, ◌||◌, any, map, length, leb, Option, none, some, List, [], ◌∷◌,
  ◌++◌, is_empty, if◌then◌else◌,
}
use missionforge.Text.{Text, codes, text_eq, starts_with, strip}
use missionforge.Text.Maps.{lookup}
use missionforge.Outcome.{
  Outcome, ok, kernel_refuse, kernel_refuse_if, empty_text, bad_segment, bad_value, denied, missing,
  ◌>>=◌, ◌>>◌,
}
use missionforge.Platform.{Platform}
use missionforge.Value.{Value, text, dict, Fields, end, entry, strings}
use missionforge.Contracts.{validate_ref}
use missionforge.Checks.{member}
use missionforge.Permissions.{ref_is_under}
use missionforge.Permissions.Roots.{under_any}
use missionforge.TaskContract.Extension.{ExtensionGrant}
use missionforge.TaskContract.Manifest.{
  PermissionManifest, NetworkPolicy, enabled, disabled, permission_manifest_schema,
}
use missionforge.Kernel.Contracts.{Step, Artifact, ArtifactRole, is_no_segment, validate_step}
use missionforge.Kernel.Toolset.{Toolset, validate_artifact, spec_hash}
use missionforge.Kernel.Route.{dedupe_refs}
use missionforge.PiWorker.Call.{PiWorkerCall, call_schema}

pub record StepCompileContext : Type 0 where
  pub flow_id : Text
  pub contract_id : Text
  pub contract_hash : Text
  pub contract_ref : Text
  pub workspace_policy_ref : Text
  pub denied_refs : List Text  -- None is the empty list
  pub permission_manifest_ref : Option Text
  pub ref_prefix : Option Text
  pub call_id : Option Text

-- `_non_empty`
unfoldable pub non_empty : Text → Outcome Text
non_empty value = if is_empty (strip value) then kernel_refuse empty_text else ok (strip value)

-- `_safe_id`
unfoldable pub safe_id : Text → Outcome Text
safe_id value = do
  t ← non_empty value
  kernel_refuse_if (is_no_segment t) bad_segment
  validate_ref (text t)
  ok t

-- `_hash`
unfoldable pub hash : Text → Outcome Text
hash value = do
  t ← non_empty value
  kernel_refuse_if (not (starts_with (codes "sha256:") t) || leb (length t) 7) bad_value
  ok t

abbrev pub each_optional : (Text → Outcome Text) → Option Text → Outcome (Unit {0})
each_optional check none = ok tt
each_optional check (some t) = check t >> ok tt

unfoldable pub validate_each_ref : List Text → Outcome (Unit {0})
validate_each_ref [] = ok tt
validate_each_ref (r ∷ rs) = do validate_ref (text r); validate_each_ref rs

unfoldable pub validate_context : StepCompileContext → Outcome (Unit {0})
validate_context c = do
  safe_id c.flow_id
  non_empty c.contract_id
  hash c.contract_hash
  validate_ref (text c.contract_ref)
  validate_ref (text c.workspace_policy_ref)
  each_optional (λ r. validate_ref (text r)) c.permission_manifest_ref
  each_optional (λ r. validate_ref (text r)) c.ref_prefix
  each_optional safe_id c.call_id
  validate_each_ref c.denied_refs

-- `_validate_ref_authority`
unfoldable pub validate_ref_authority : List Text → List Text → Outcome (Unit {0})
unfolding under_any
validate_ref_authority [] roots = ok tt
validate_ref_authority (ref ∷ refs) roots = do
  safe_ref ← validate_ref (text ref)
  found ← under_any safe_ref roots
  kernel_refuse_if (not found) denied
  validate_ref_authority refs roots

-- `_validate_visible_refs_authority`
unfoldable pub validate_visible : List Text → List Text → Outcome (Unit {0})
unfolding under_any
validate_visible [] roots = ok tt
validate_visible (ref ∷ refs) roots = do
  found ← under_any ref roots
  kernel_refuse_if (not found) denied
  validate_visible refs roots

unfoldable pub spare_roots : Text → List Text → Outcome (Unit {0})
spare_roots contract_ref [] = ok tt
spare_roots contract_ref (root ∷ roots) = do
  covered ← ref_is_under contract_ref root
  kernel_refuse_if covered denied
  spare_roots contract_ref roots

-- `_validate_contract_write_boundary`
unfoldable pub validate_contract_write_boundary : Step → StepCompileContext → Outcome (Unit {0})
unfolding spare_roots
validate_contract_write_boundary step context = do
  spare_roots context.contract_ref step.writable
  kernel_refuse_if (any (λ output. text_eq output context.contract_ref) step.outputs) denied

abbrev pub is_worker_role : ArtifactRole → Bool
is_worker_role ArtifactRole.output = true
is_worker_role ArtifactRole.decision = true
is_worker_role ArtifactRole.state = true
is_worker_role _ = false

abbrev owned_by_runtime : Option Artifact → Bool
owned_by_runtime none = false
owned_by_runtime (some a) = not (text_eq a.owner (codes "piworker")) || not (is_worker_role a.role)

-- `_validate_runtime_owned_outputs`
unfoldable pub validate_runtime_owned_outputs :
    List Text → List (Text × Artifact) → Outcome (Unit {0})
unfolding lookup
validate_runtime_owned_outputs [] artifacts = ok tt
validate_runtime_owned_outputs (output ∷ outputs) artifacts = do
  kernel_refuse_if (owned_by_runtime (lookup output artifacts)) denied
  validate_runtime_owned_outputs outputs artifacts

-- `_dedupe_strings`
unfoldable pub dedupe_from : List Text → List Text → Outcome (List Text)
dedupe_from seen [] = ok []
dedupe_from seen (v ∷ vs) = do
  t ← non_empty v
  let kept = do rest ← dedupe_from (t ∷ seen) vs; ok (t ∷ rest)
  let dropped = dedupe_from seen vs
  if member t seen then dropped else kept

unfoldable pub dedupe_strings : List Text → Outcome (List Text)
unfolding dedupe_from
dedupe_strings values = dedupe_from [] values
