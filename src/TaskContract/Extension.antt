-- ===== src/TaskContract/Extension.antt =====
-- `ExtensionGrant` of src/missionforge/task_contract.py, its enums and its checks.
use missionforge.Common.{
  ℕ, Bool, true, false, not, ◌&&◌, ◌||◌, Option, none, some, List, [], ◌∷◌, any, if◌then◌else◌,
  ◌==◌,
}
use missionforge.Text.{Text, codes, starts_with}
use missionforge.Outcome.{
  Outcome, ok, refuse, refuse_if, bad_value, control_character, duplicate, not_json, ◌>>=◌, ◌>>◌,
}
use missionforge.Platform.{Platform}
use missionforge.Value.{
  Value, null, boolean, text, list, dict, Items, nil, cons, end, item, item_or, strings,
}
use missionforge.Contracts.{
  require_non_empty_str, require_str_list, require_mapping, require_bool, validate_ref, is_control,
}
use missionforge.Checks.{
  optional_ref, from_option, find_name, require_enum, safe_mapping, validate_unique_strings, member,
}

pub data ExtensionCapability : Type 0 where
  code_search lsp web mcp browser subagent memory preview workflow ui : ExtensionCapability

pub data ExtensionAdapterMode : Type 0 where
  missionforge_provider untrusted_pi_extension : ExtensionAdapterMode

abbrev pub capability_of : Text → Option ExtensionCapability
capability_of = find_name (
    (codes "code_search", code_search)
    ∷ (codes "lsp", lsp)
    ∷ (codes "web", web)
    ∷ (codes "mcp", mcp)
    ∷ (codes "browser", browser)
    ∷ (codes "subagent", subagent)
    ∷ (codes "memory", memory)
    ∷ (codes "preview", preview)
    ∷ (codes "workflow", workflow)
    ∷ (codes "ui", ui)
    ∷ [])

abbrev pub adapter_mode_of : Text → Option ExtensionAdapterMode
adapter_mode_of = find_name (
    (codes "missionforge_provider", missionforge_provider)
    ∷ (codes "untrusted_pi_extension", untrusted_pi_extension)
    ∷ [])

pub record ExtensionGrant : Type 0 where
  pub grant_id : Text
  pub package_name : Text
  pub version_spec : Text
  pub capability : ExtensionCapability
  pub config_ref : Option Text
  pub requires_network : Bool
  pub requires_bash : Bool
  pub required_env : List Text
  pub sandbox_profile_ref : Option Text
  pub adapter_mode : ExtensionAdapterMode
  pub integrity : Option Text
  pub metadata : Value

abbrev drop : ℕ → Text → Text
drop missionforge.Common.zero s = s
drop (missionforge.Common.suc n) [] = []
drop (missionforge.Common.suc n) (c ∷ s) = drop n s

-- `_validate_extension_package`; `local:` has six characters
unfoldable pub validate_extension_package : Value → Outcome Text
validate_extension_package value = do
  name ← require_non_empty_str value
  refuse_if (not (starts_with (codes "npm:") name || starts_with (codes "local:") name)) bad_value
  refuse_if (any is_control name) control_character
  if starts_with (codes "local:") name
      then (validate_ref (text (drop 6 name)) >> ok name)
      else ok name

abbrev starts_env : Platform → Text → Bool
starts_env py [] = false
starts_env py (c ∷ s) = py.is_alpha c || c == b'_'

-- `_validate_env_name`
unfoldable pub validate_env_name : Platform → Value → Outcome Text
validate_env_name py value = do
  name ← require_non_empty_str value
  refuse_if (not (starts_env py name)) bad_value
  refuse_if (any (λ c. not (py.is_alnum c || c == b'_')) name) bad_value
  ok name

unfoldable pub validate_env_names : Platform → List Text → Outcome (Unit {0})
validate_env_names py [] = ok tt
validate_env_names py (n ∷ ns) = validate_env_name py (text n) >> validate_env_names py ns

-- A string that may be absent.
unfoldable pub optional_non_empty : Value → Outcome (Option Text)
optional_non_empty null = ok none
optional_non_empty v = do t ← require_non_empty_str v; ok (some t)

unfoldable pub validate : Platform → ExtensionGrant → Outcome (Unit {0})
validate py g = do
  require_non_empty_str (text g.grant_id)
  validate_extension_package (text g.package_name)
  require_non_empty_str (text g.version_spec)
  optional_ref (from_option g.config_ref)
  validate_unique_strings g.required_env
  validate_env_names py g.required_env
  optional_ref (from_option g.sandbox_profile_ref)
  optional_non_empty (from_option g.integrity)
  safe_mapping py g.metadata
  ok tt

unfoldable pub from_dict : Platform → Value → Outcome ExtensionGrant
from_dict py payload = do
  fs ← require_mapping payload
  integrity ← optional_non_empty (item "integrity" fs)
  grant_id ← require_non_empty_str (item "grant_id" fs)
  package_name ← validate_extension_package (item "package" fs)
  version_spec ← require_non_empty_str (item "version_spec" fs)
  capability ← require_enum capability_of (item "capability" fs)
  config_ref ← optional_ref (item "config_ref" fs)
  requires_network ← require_bool (item_or "requires_network" (boolean false) fs)
  requires_bash ← require_bool (item_or "requires_bash" (boolean false) fs)
  required_env ← require_str_list (item_or "required_env" (strings []) fs)
  sandbox_profile_ref ← optional_ref (item "sandbox_profile_ref" fs)
  mode ←
      require_enum adapter_mode_of
        (item_or "adapter_mode" (text (codes "missionforge_provider")) fs)
  metadata ← safe_mapping py (item_or "metadata" (dict end) fs)
  let grant : ExtensionGrant = record {
    grant_id = grant_id;
    package_name = package_name;
    version_spec = version_spec;
    capability = capability;
    config_ref = config_ref;
    requires_network = requires_network;
    requires_bash = requires_bash;
    required_env = required_env;
    sandbox_profile_ref = sandbox_profile_ref;
    adapter_mode = mode;
    integrity = integrity;
    metadata = metadata;
  }
  validate py grant
  ok grant

-- `_validate_extension_grants`
unfoldable pub validate_grants : Platform → List Text → List ExtensionGrant → Outcome (Unit {0})
validate_grants py seen [] = ok tt
validate_grants py seen (g ∷ gs) = do
  validate py g
  refuse_if (member g.grant_id seen) duplicate
  validate_grants py (g.grant_id ∷ seen) gs

unfoldable pub parse_grants : Platform → Items → Outcome (List ExtensionGrant)
parse_grants py nil = ok []
parse_grants py (cons v vs) = do
  require_mapping v
  grant ← from_dict py v
  rest ← parse_grants py vs
  ok (grant ∷ rest)

-- `_extension_grants_from_dicts`
unfoldable pub grants_from_dicts : Platform → Value → Outcome (List ExtensionGrant)
grants_from_dicts py (list vs) = do
  grants ← parse_grants py vs
  validate_grants py [] grants
  ok grants
grants_from_dicts py _ = refuse not_json
