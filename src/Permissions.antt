-- ===== src/Permissions.antt =====
-- src/missionforge/permissions.py: the decisions of `PermissionEnforcer` on a manifest. Reasons are
-- the enum `Reason`, one constructor for each message.
pub mod Paths
pub mod Decisions
pub mod Ensure
pub mod Roots
use missionforge.Common.{
  Bool, true, false, not, ◌||◌, Option, none, some, List, [], ◌∷◌, ◌++◌, if◌then◌else◌,
}
use missionforge.Text.{Text, codes, text_eq, starts_with}
use missionforge.Outcome.{Outcome, ok, refuse, denied, no_ref, ◌>>=◌, ◌>>◌}
use missionforge.Value.{Value, text, strings}
use missionforge.Contracts.{require_non_empty_str, require_str_list, validate_ref}
use missionforge.Checks.{member, optional_ref, from_option}
use missionforge.TaskContract.Extension.{optional_non_empty}
use missionforge.TaskContract.Manifest.{
  NetworkPolicy, disabled, restricted, enabled, PermissionManifest,
}

pub data PermissionOperation : Type 0 where
  read write command network hard_policy : PermissionOperation

pub data Reason : Type 0 where
  command_explicitly_allowed command_not_allowed : Reason
  network_not_requested network_is_disabled network_not_enforced network_policy_allows : Reason
  unsupported_policies policies_supported : Reason
  ref_is_denied ref_is_allowed ref_outside_roots : Reason

pub record PermissionDecision : Type 0 where
  pub allowed : Bool
  pub operation : PermissionOperation
  pub reason : Reason
  pub ref : Option Text
  pub matched_ref : Option Text
  pub command_text : Option Text
  pub unsupported_policy_names : List Text

-- A decision with the defaults of the dataclass.
abbrev decision : Bool → PermissionOperation → Reason → PermissionDecision
decision allowed operation reason = record {
  allowed = allowed;
  operation = operation;
  reason = reason;
  ref = none;
  matched_ref = none;
  command_text = none;
  unsupported_policy_names = [];
}

unfoldable pub validate : PermissionDecision → Outcome (Unit {0})
validate d = do
  optional_ref (from_option d.ref)
  optional_ref (from_option d.matched_ref)
  optional_non_empty (from_option d.command_text)
  require_str_list (strings d.unsupported_policy_names)
  ok tt

unfoldable pub ref_is_under : Text → Text → Outcome Bool
ref_is_under ref root_ref = do
  safe_ref ← validate_ref (text ref)
  safe_root ← validate_ref (text root_ref)
  ok (text_eq safe_ref safe_root || starts_with (safe_root ++ codes "/") safe_ref)

-- The loop of `first_matching_root`: the first root that `ref` is under.
unfoldable pub match_roots : Text → List Text → Outcome (Option Text)
match_roots ref [] = ok none
match_roots ref (root_ref ∷ roots) = do
  safe_root ← validate_ref (text root_ref)
  found ← ref_is_under ref safe_root
  let rest = match_roots ref roots
  if found then ok (some safe_root) else rest

unfoldable pub first_matching_root : Text → List Text → Outcome (Option Text)
first_matching_root ref root_refs = do
  safe_ref ← validate_ref (text ref)
  match_roots safe_ref root_refs

-- The three decisions of `_check_ref`.
abbrev denied_at : PermissionOperation → Text → Text → PermissionDecision
denied_at operation ref root = record (decision false operation ref_is_denied) {
  ref = some ref;
  matched_ref = some root;
}

abbrev pub allowed_at : PermissionOperation → Text → Text → PermissionDecision
allowed_at operation ref root = record (decision true operation ref_is_allowed) {
  ref = some ref;
  matched_ref = some root;
}

abbrev pub outside : PermissionOperation → Text → PermissionDecision
outside operation ref = record (decision false operation ref_outside_roots) { ref = some ref }

abbrev pub from_match :
    PermissionOperation → Text → Option Text → Outcome (Option Text) → Outcome PermissionDecision
from_match operation ref (some root) search_allowed = ok (denied_at operation ref root)
from_match operation ref none search_allowed = do
  found ← search_allowed
  elim found [ some root ↦ ok (allowed_at operation ref root) | none ↦ ok (outside operation ref) ]

-- `_check_ref`: the denied roots are searched first.
unfoldable pub check_ref :
    PermissionManifest → PermissionOperation → Text → List Text → Outcome PermissionDecision
check_ref m operation ref allowed_roots = do
  safe_ref ← validate_ref (text ref)
  denied_match ← first_matching_root safe_ref m.denied_refs
  from_match operation safe_ref denied_match (first_matching_root safe_ref allowed_roots)

unfoldable pub check_read : PermissionManifest → Text → Outcome PermissionDecision
check_read m ref = check_ref m read ref m.readable_refs

unfoldable pub check_write : PermissionManifest → Text → Outcome PermissionDecision
check_write m ref = check_ref m write ref m.writable_refs

unfoldable pub check_command : PermissionManifest → Text → Outcome PermissionDecision
check_command m line = do
  normalized ← require_non_empty_str (text line)
  ok (
      if member normalized m.allowed_commands
      then record (decision true command command_explicitly_allowed) {
        command_text = some normalized;
      }
      else record (decision false command command_not_allowed) { command_text = some normalized })

abbrev check_policy : NetworkPolicy → PermissionDecision
check_policy disabled = decision false network network_is_disabled
check_policy restricted = record (decision false network network_not_enforced) {
  unsupported_policy_names = codes "network_restricted_policy" ∷ [];
}
check_policy enabled = decision true network network_policy_allows

unfoldable pub check_network : PermissionManifest → Bool → PermissionDecision
check_network m requested =
    if not requested
    then decision true network network_not_requested
    else check_policy m.network_policy

-- The declared policies that are not supported.
unfoldable pub missing_names : List Text → List Text → List Text
missing_names supported [] = []
missing_names supported (name ∷ names) =
    let rest = missing_names supported names in if member name supported then rest else name ∷ rest

abbrev from_unsupported : List Text → PermissionDecision
from_unsupported [] = decision true hard_policy policies_supported
from_unsupported (name ∷ names) = record (decision false hard_policy unsupported_policies) {
  unsupported_policy_names = name ∷ names;
}

unfoldable pub check_supported_hard_policies : PermissionManifest → List Text → PermissionDecision
check_supported_hard_policies m supported =
    from_unsupported (missing_names supported m.unsupported_hard_policies)

abbrev pub ref_of_decision : Option Text → Outcome Text
ref_of_decision none = refuse no_ref
ref_of_decision (some ref) = ok ref

-- `_ensure_allowed`
unfoldable pub ensure_allowed : PermissionDecision → Outcome Text
ensure_allowed d = do validate d; if not d.allowed then refuse denied else ref_of_decision d.ref

unfoldable pub ensure_read : PermissionManifest → Text → Outcome Text
ensure_read m ref = do d ← check_read m ref; ensure_allowed d

unfoldable pub ensure_write : PermissionManifest → Text → Outcome Text
ensure_write m ref = do d ← check_write m ref; ensure_allowed d
