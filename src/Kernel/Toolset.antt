-- ===== src/Kernel/Toolset.antt =====
-- `Toolset`, `Artifact.validate` and `Step.spec_hash` of src/missionforge/kernel/contracts.py: what the
-- compiler of steps reads beside a step.
use missionforge.Common.{Bool, true, false, not, ◌&&◌, Option, none, some, List, [], ◌∷◌}
use missionforge.Text.{Text, codes, text_eq}
use missionforge.Outcome.{Outcome, ok, kernel_refuse_if, bad_value, ◌>>=◌, ◌>>◌}
use missionforge.Platform.{Platform}
use missionforge.Value.{
  pos, Value, null, boolean, integer, text, dict, Fields, end, item, item_or, entry, strings,
}
use missionforge.Contracts.{require_non_empty_str, require_str_list, require_mapping, validate_ref}
use missionforge.Checks.{safe_mapping, from_option, require_enum, member, stable_json_hash}
use missionforge.TaskContract.Extension.{
  ExtensionCapability, ExtensionAdapterMode, capability_of, adapter_mode_of, optional_non_empty,
}
use missionforge.Kernel.Contracts.{
  ArtifactRole, Artifact, StepStatus, skipped, completed, failed, blocked, PiWorkerCallRole,
  frontdesk_author, executor, judge, repair, revision_drafter, Step, safe_id, optional_kernel_ref,
  unique_non_empty_strings, validate_step,
}

pub record Toolset : Type 0 where
  pub id : Text
  pub package_name : Text
  pub tools : List Text
  pub capability : ExtensionCapability
  pub version_spec : Text
  pub network : Bool
  pub bash : Bool
  pub required_env : List Text
  pub adapter_mode : ExtensionAdapterMode
  pub config_ref : Option Text
  pub integrity : Option Text
  pub metadata : Value

unfoldable pub validate : Platform → Toolset → Outcome (Unit {0})
validate py t = do
  safe_id (text t.id)
  require_non_empty_str (text t.package_name)
  unique_non_empty_strings t.tools
  require_non_empty_str (text t.version_spec)
  unique_non_empty_strings t.required_env
  optional_kernel_ref t.config_ref
  optional_non_empty (from_option t.integrity)
  safe_mapping py t.metadata
  ok tt

-- `_optional_ref` of a value: None and the empty string are None.
abbrev read_optional_ref : Value → Outcome (Option Text)
read_optional_ref null = ok none
read_optional_ref (text []) = ok none
read_optional_ref v = validate_ref v >>= λ r. ok (some r)

abbrev read_bool : Value → Outcome Bool
read_bool (boolean b) = ok b
read_bool v = kernel_refuse_if true bad_value >>= λ _. ok false

unfoldable pub parse : Platform → Fields → Outcome Toolset
parse py fs = do
  id ← safe_id (item "id" fs)
  package_name ← require_non_empty_str (item "package" fs)
  tools ← require_str_list (item_or "tools" (strings []) fs)
  capability ← require_enum capability_of (item_or "capability" (text (codes "web")) fs)
  version_spec ← require_non_empty_str (item_or "version_spec" (text (codes "0.1.0")) fs)
  network ← read_bool (item_or "network" (boolean false) fs)
  bash ← read_bool (item_or "bash" (boolean false) fs)
  required_env ← require_str_list (item_or "required_env" (strings []) fs)
  mode ←
      require_enum adapter_mode_of
        (item_or "adapter_mode" (text (codes "untrusted_pi_extension")) fs)
  config_ref ← read_optional_ref (item "config_ref" fs)
  integrity ← optional_non_empty (item "integrity" fs)
  metadata ← safe_mapping py (item_or "metadata" (dict end) fs)
  ok (record {
    id = id;
    package_name = package_name;
    tools = tools;
    capability = capability;
    version_spec = version_spec;
    network = network;
    bash = bash;
    required_env = required_env;
    adapter_mode = mode;
    config_ref = config_ref;
    integrity = integrity;
    metadata = metadata;
  })

unfoldable pub from_dict : Platform → Value → Outcome Toolset
unfolding parse
from_dict py payload = do
  checked ← safe_mapping py payload
  fs ← require_mapping checked
  t ← parse py fs
  validate py t
  ok t

abbrev is_ledger_role : ArtifactRole → Bool
is_ledger_role ArtifactRole.projection = true
is_ledger_role ArtifactRole.ledger = true
is_ledger_role _ = false

unfoldable pub validate_artifact : Platform → Artifact → Outcome (Unit {0})
validate_artifact py a = do
  validate_ref (text a.ref)
  owner ← require_non_empty_str (text a.owner)
  kernel_refuse_if (not (member owner (codes "piworker" ∷ codes "runtime" ∷ codes "product" ∷ [])))
      bad_value
  kernel_refuse_if (is_ledger_role a.role && not (text_eq owner (codes "runtime"))) bad_value
  safe_mapping py a.metadata
  ok tt

-- `status.value`
abbrev pub step_status_value : StepStatus → Text
step_status_value skipped = codes "skipped"
step_status_value completed = codes "completed"
step_status_value failed = codes "failed"
step_status_value blocked = codes "blocked"

-- `role.value`
abbrev pub role_value : PiWorkerCallRole → Text
role_value frontdesk_author = codes "frontdesk_author_piworker"
role_value executor = codes "executor_piworker"
role_value judge = codes "judge_piworker"
role_value repair = codes "repair_piworker"
role_value revision_drafter = codes "revision_drafter_piworker"

-- `FailurePolicy.to_dict`
abbrev pub failure_content : missionforge.Kernel.Contracts.FailurePolicy → Fields
failure_content p =
    entry "retries" (integer (pos p.retries))
      (entry "on_exhausted" (text (step_status_value p.on_exhausted)) end)

-- `Step.to_dict`
unfoldable pub step_to_dict : Platform → Step → Outcome Fields
step_to_dict py s = do
  validate_step py s
  ok (
      entry "id" (text s.id) (
        entry "brief" (text s.brief) (
          entry "inputs" (strings s.inputs) (
            entry "outputs" (strings s.outputs) (
              entry "read" (strings s.readable) (
                entry "write" (strings s.writable) (
                  entry "tools" (strings s.tools) (
                    entry "role" (text (role_value s.role)) (
                      entry "route_on" (from_option s.route_on) (
                        entry "route_fields" (strings s.route_fields) (
                          entry "runtime_budget" s.runtime_budget (
                            entry "command_allowlist" (strings s.command_allowlist) (
                              entry "env_allowlist" (strings s.env_allowlist) (
                                entry "network" (boolean s.network) (
                                  entry "failure" (dict (failure_content s.failure))
                                    (entry "metadata" s.metadata end))))))))))))))))

-- `Step.spec_hash`
unfoldable pub spec_hash : Platform → Step → Outcome Text
unfolding step_to_dict
spec_hash py s = do fs ← step_to_dict py s; stable_json_hash py (dict fs)
