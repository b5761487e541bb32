-- ===== src/Kernel/Compile/Grants.antt =====
-- The extension grants of a compiled step: `_extension_grant_for_toolset` and the loop over a step's
-- tools in src/missionforge/kernel/compiler.py.
use missionforge.Common.{Bool, false, ◌==◌, Option, none, some, List, [], ◌∷◌, ◌++◌, if◌then◌else◌}
use missionforge.Text.{Text, codes, text_eq}
use missionforge.Outcome.{Outcome, ok, kernel_refuse, missing, ◌>>=◌}
use missionforge.Value.{Value, text, dict, Key, name, other_key, Fields, end, field, entry, strings}
use missionforge.Checks.{member}
use missionforge.TaskContract.Extension.{ExtensionGrant}
use missionforge.Kernel.Toolset.{Toolset}
use missionforge.Text.Maps.{lookup}

-- CORE_TOOLS
abbrev pub core_tools : List Text
core_tools = codes "read" ∷ codes "write" ∷ codes "edit" ∷ codes "bash" ∷ []

abbrev same_key : Key → Key → Bool
same_key (name j) (name k) = text_eq j k
same_key (other_key j) (other_key k) = j == k
same_key _ _ = false

-- `mapping[key] = value`
unfoldable pub set_field : Key → Value → Fields → Fields
set_field k v end = field k v end
set_field k v (field j w fs) =
    let rest = set_field k v fs in if same_key j k then field j v fs else field j w rest

-- `{**first, **second}`
unfoldable pub merge : Fields → Fields → Fields
unfolding set_field
merge fs end = fs
merge fs (field k v gs) = merge (set_field k v fs) gs

abbrev pub mapping_of : Value → Fields
mapping_of (dict fs) = fs
mapping_of _ = end

-- `_extension_grant_for_toolset`
unfoldable pub extension_grant_for_toolset : Text → Text → Toolset → ExtensionGrant
unfolding merge
extension_grant_for_toolset flow_id step_id t = record {
  grant_id = flow_id ++ (codes "-" ++ (step_id ++ (codes "-" ++ t.id)));
  package_name = t.package_name;
  version_spec = t.version_spec;
  capability = t.capability;
  config_ref = t.config_ref;
  requires_network = t.network;
  requires_bash = t.bash;
  required_env = t.required_env;
  sandbox_profile_ref = none;
  adapter_mode = t.adapter_mode;
  integrity = t.integrity;
  metadata = dict (
      merge (entry "kernel_toolset_id" (text t.id) (entry "tool_names" (strings t.tools) end))
        (mapping_of t.metadata));
}

abbrev known_toolset : Option Toolset → Outcome Toolset
known_toolset none = kernel_refuse missing
known_toolset (some t) = ok t

unfoldable pub extension_grants :
    Text → Text → List (Text × Toolset) → List Text → Outcome (List ExtensionGrant)
extension_grants flow_id step_id toolsets [] = ok []
extension_grants flow_id step_id toolsets (tool ∷ tools) =
    let rest = extension_grants flow_id step_id toolsets tools in
    let granted = known_toolset (lookup tool toolsets) >>= λ t.
    rest >>= λ grants. ok (extension_grant_for_toolset flow_id step_id t ∷ grants) in
    if member tool core_tools then rest else granted

-- The environment names that the grants need.
unfoldable pub required_envs : List ExtensionGrant → List Text
required_envs [] = []
required_envs (g ∷ gs) = g.required_env ++ required_envs gs
