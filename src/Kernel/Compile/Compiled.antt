-- ===== src/Kernel/Compile/Compiled.antt =====
-- `compile_step` of src/missionforge/kernel/compiler.py.
use missionforge.Common.{
  ◌&&◌, ◌||◌, any, Option, none, some, List, [], ◌∷◌, ◌++◌, is_empty, if◌then◌else◌,
}
use missionforge.Text.{Text, codes}
use missionforge.Outcome.{Outcome, ok, kernel_refuse_if, missing, ◌>>=◌, ◌>>◌}
use missionforge.Platform.{Platform}
use missionforge.Value.{text, dict, end, entry, strings}
use missionforge.Contracts.{validate_ref}
use missionforge.Checks.{or_default, member}
use missionforge.TaskContract.Extension.{ExtensionGrant}
use missionforge.TaskContract.Manifest.{
  PermissionManifest, NetworkPolicy, enabled, disabled, permission_manifest_schema,
}
use missionforge.Kernel.Contracts.{Step, Artifact, validate_step}
use missionforge.Kernel.Toolset.{Toolset, validate_artifact, spec_hash}
use missionforge.Kernel.Route.{dedupe_refs}
use missionforge.PiWorker.Call.{PiWorkerCall, call_schema}
use missionforge.Kernel.Compile.{
  StepCompileContext, validate_context, validate_ref_authority, validate_visible,
  validate_contract_write_boundary, validate_runtime_owned_outputs, dedupe_strings,
}
use missionforge.Kernel.Compile.Grants.{extension_grants, required_envs}

pub record CompiledStep : Type 0 where
  pub step : Step
  pub piworker_call : PiWorkerCall
  pub permission_manifest : PermissionManifest
  pub permission_manifest_ref : Text

unfoldable pub validate_compiled : Platform → CompiledStep → Outcome (Unit {0})
validate_compiled py c = do
  validate_step py c.step
  validate_ref (text c.permission_manifest_ref)
  missionforge.TaskContract.Manifest.validate py c.permission_manifest
  missionforge.PiWorker.Call.validate py c.piworker_call

unfoldable pub validate_toolsets : Platform → List (Text × Toolset) → Outcome (Unit {0})
validate_toolsets py [] = ok tt
validate_toolsets py ((k, t) ∷ ts) = do
  missionforge.Kernel.Toolset.validate py t
  validate_toolsets py ts

unfoldable pub validate_artifacts : Platform → List (Text × Artifact) → Outcome (Unit {0})
validate_artifacts py [] = ok tt
validate_artifacts py ((k, a) ∷ rows) = do validate_artifact py a; validate_artifacts py rows

abbrev pub or_empty : Option Text → Text
or_empty none = []
or_empty (some t) = t

abbrev pub ref_prefix_of : StepCompileContext → Step → Text
ref_prefix_of c s =
    or_default c.ref_prefix (codes "kernel/" ++ (c.flow_id ++ (codes "/steps/" ++ s.id)))

abbrev pub manifest_ref_of : StepCompileContext → Step → Text
manifest_ref_of c s =
    or_default c.permission_manifest_ref (ref_prefix_of c s ++ codes "/permission_manifest.json")

abbrev pub network_policy_for : Step → List ExtensionGrant → NetworkPolicy
network_policy_for s grants =
    if s.network || any (λ (g : ExtensionGrant). g.requires_network) grants
    then enabled
    else disabled

-- The manifest with what the step reads, writes and runs.
unfoldable pub manifest_for :
    StepCompileContext → Step → List ExtensionGrant → Outcome PermissionManifest
manifest_for c s grants = do
  readable ← dedupe_refs (c.contract_ref ∷ s.readable)
  writable ← dedupe_refs s.writable
  denied ← dedupe_refs c.denied_refs
  env ← dedupe_strings (s.env_allowlist ++ required_envs grants)
  ok (record {
    manifest_id = c.flow_id ++ (codes "-" ++ (s.id ++ codes "-permissions"));
    workspace_policy_ref = some c.workspace_policy_ref;
    readable_refs = readable;
    writable_refs = writable;
    denied_refs = denied;
    allowed_commands = s.command_allowlist;
    network_policy = network_policy_for s grants;
    env_allowlist = env;
    secret_ref = none;
    unsupported_hard_policies = [];
    extension_grants = grants;
    progress_streams = [];
    schema_version = permission_manifest_schema;
  })

unfoldable pub call_for : Platform → StepCompileContext → Step → List Text → Outcome PiWorkerCall
call_for py c s visible = do
  evidence ← dedupe_refs s.inputs
  step_hash ← spec_hash py s
  ok (record {
    call_id = or_default c.call_id (c.flow_id ++ (codes "-" ++ s.id));
    role = s.role;
    contract_id = c.contract_id;
    contract_hash = c.contract_hash;
    contract_ref = c.contract_ref;
    objective = s.brief;
    visible_refs = visible;
    writable_refs = s.writable;
    expected_output_refs = s.outputs;
    permission_manifest_ref = some (manifest_ref_of c s);
    source_packet_ref = none;
    source_packet_hash = none;
    evidence_refs = evidence;
    output_schema_ref = none;
    validation_policy_ref = none;
    runtime_budget = s.runtime_budget;
    metadata = dict (
        entry "kernel_flow_id" (text c.flow_id) (
          entry "kernel_step_id" (text s.id) (
            entry "kernel_step_spec_ref" (text (ref_prefix_of c s ++ codes "/step_spec.json")) (
              entry "kernel_step_spec_hash" (text step_hash) (
                entry "route_on_ref" (text (or_empty s.route_on))
                  (entry "route_fields" (strings s.route_fields) end))))));
    schema_version = call_schema;
  })

-- The checks before the manifest is built.
unfoldable pub check_step :
    Platform
    → Step
    → StepCompileContext
    → List (Text × Toolset)
    → List (Text × Artifact)
    → Outcome (Unit {0})
unfolding validate_toolsets validate_artifacts
check_step py s c toolsets artifacts = do
  validate_step py s
  validate_context c
  validate_toolsets py toolsets
  validate_artifacts py artifacts
  validate_ref_authority s.inputs s.readable
  validate_ref_authority s.outputs s.writable
  validate_contract_write_boundary s c
  validate_runtime_owned_outputs s.outputs artifacts

unfoldable pub compile_step :
    Platform
    → Step
    → StepCompileContext
    → List (Text × Toolset)
    → List (Text × Artifact)
    → Outcome CompiledStep
unfolding check_step manifest_for call_for validate_compiled
compile_step py s c toolsets artifacts = do
  check_step py s c toolsets artifacts
  grants ← extension_grants c.flow_id s.id toolsets s.tools
  kernel_refuse_if (member (codes "bash") s.tools && is_empty s.command_allowlist) missing
  manifest ← manifest_for c s grants
  missionforge.TaskContract.Manifest.validate py manifest
  visible ← dedupe_refs (c.contract_ref ∷ s.inputs)
  validate_visible visible manifest.readable_refs
  call ← call_for py c s visible
  missionforge.PiWorker.Call.validate py call
  let compiled : CompiledStep = record {
    step = s;
    piworker_call = call;
    permission_manifest = manifest;
    permission_manifest_ref = manifest_ref_of c s;
  }
  validate_compiled py compiled
  ok compiled
