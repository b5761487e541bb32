-- ===== src/Kernel/Contracts.antt =====
-- src/missionforge/kernel/contracts.py: steps, artifacts and projections, and their checks. The
-- parsers and writers are left out, and so are the fields of a toolset but its identifier.
use missionforge.Common.{
  ℕ, Bool, true, false, not, ◌&&◌, ◌||◌, Option, none, some, List, [], ◌∷◌, is_empty,
}
use missionforge.Text.{Text, codes, text_eq, has_code}
use missionforge.Outcome.{
  Outcome, ok, kernel_refuse, kernel_refuse_if, bad_segment, bad_value, duplicate, missing, ◌>>=◌,
  ◌>>◌,
}
use missionforge.Platform.{Platform}
use missionforge.Value.{Value, text, Fields, end, field, name, other_key, strings}
use missionforge.Contracts.{
  require_non_empty_str, require_str_list, require_mapping, require_int_at_least, validate_ref,
}
use missionforge.Checks.{ref_list, has_duplicates, member, safe_mapping}

pub data ArtifactRole : Type 0 where
  input output decision state projection ledger : ArtifactRole

pub data StepStatus : Type 0 where
  skipped completed failed blocked : StepStatus

-- piworker_call.py
pub data PiWorkerCallRole : Type 0 where
  frontdesk_author executor judge repair revision_drafter : PiWorkerCallRole

-- `role == PiWorkerCallRole.JUDGE`
abbrev pub is_judge : PiWorkerCallRole → Bool
is_judge judge = true
is_judge _ = false

pub record FailurePolicy : Type 0 where
  pub retries : ℕ
  pub on_exhausted : StepStatus

pub record Step : Type 0 where
  pub id : Text
  pub brief : Text
  pub inputs : List Text
  pub outputs : List Text
  pub readable : List Text
  pub writable : List Text
  pub tools : List Text
  pub role : PiWorkerCallRole
  pub route_on : Option Text
  pub route_fields : List Text
  pub runtime_budget : Value
  pub command_allowlist : List Text
  pub env_allowlist : List Text
  pub network : Bool
  pub failure : FailurePolicy
  pub metadata : Value

pub record Artifact : Type 0 where
  pub ref : Text
  pub role : ArtifactRole
  pub owner : Text
  pub required : Bool
  pub metadata : Value

pub record Projection : Type 0 where
  pub target : Text
  pub sources : List Text
  pub projector : Text
  pub metadata : Value

-- `"/" in text or "\\" in text or text in {".", ".."}`
unfoldable pub is_no_segment : Text → Bool
is_no_segment t =
    has_code b'/' t || has_code 92 t || text_eq t (codes ".") || text_eq t (codes "..")

-- `_safe_id`
unfoldable pub safe_id : Value → Outcome Text
safe_id value = do
  t ← require_non_empty_str value
  kernel_refuse_if (is_no_segment t) bad_segment
  validate_ref (text t)
  ok t

unfoldable pub optional_safe_id : Option Text → Outcome (Unit {0})
optional_safe_id none = ok tt
optional_safe_id (some []) = ok tt
optional_safe_id (some (c ∷ t)) = safe_id (text (c ∷ t)) >> ok tt

-- `_optional_ref` of this file: the empty string is None too.
unfoldable pub optional_kernel_ref : Option Text → Outcome (Unit {0})
optional_kernel_ref none = ok tt
optional_kernel_ref (some []) = ok tt
optional_kernel_ref (some (c ∷ t)) = validate_ref (text (c ∷ t)) >> ok tt

unfoldable pub unique_refs : List Text → Outcome (List Text)
unique_refs values = do
  refs ← ref_list (strings values)
  kernel_refuse_if (has_duplicates refs) duplicate
  ok refs

unfoldable pub unique_non_empty_strings : List Text → Outcome (List Text)
unique_non_empty_strings values = do
  items ← require_str_list (strings values)
  kernel_refuse_if (has_duplicates items) duplicate
  ok items

unfoldable pub safe_ids : List Text → Outcome (List Text)
safe_ids [] = ok []
safe_ids (t ∷ ts) = do i ← safe_id (text t); is ← safe_ids ts; ok (i ∷ is)

-- `_unique_ids`
unfoldable pub unique_ids : List Text → Outcome (List Text)
unique_ids values = do
  ids ← safe_ids values
  kernel_refuse_if (has_duplicates ids) duplicate
  ok ids

abbrev pub budget_keys : List Text
budget_keys =
    codes "max_turns"
    ∷ codes "timeout_seconds"
    ∷ codes "max_tool_calls"
    ∷ codes "max_output_refs"
    ∷ []

unfoldable pub known_keys : Fields → Outcome (Unit {0})
known_keys end = ok tt
known_keys (field (name k) v fs) = do
  kernel_refuse_if (not (member k budget_keys)) bad_value
  known_keys fs
known_keys (field (other_key k) v fs) = kernel_refuse bad_value

unfoldable pub positive_items : Fields → Outcome (Unit {0})
positive_items end = ok tt
positive_items (field k v fs) = do require_int_at_least v 1; positive_items fs

-- `_runtime_budget`
unfoldable pub runtime_budget : Platform → Value → Outcome (Unit {0})
runtime_budget py value = do
  checked ← safe_mapping py value
  fs ← require_mapping checked
  known_keys fs
  positive_items fs

abbrev pub is_finished : StepStatus → Bool
is_finished skipped = true
is_finished completed = true
is_finished _ = false

unfoldable pub validate_failure : FailurePolicy → Outcome (Unit {0})
validate_failure p = kernel_refuse_if (is_finished p.on_exhausted) bad_value

abbrev route_in_outputs : Option Text → List Text → Bool
route_in_outputs none outputs = true
route_in_outputs (some r) outputs = member r outputs

unfoldable pub validate_step : Platform → Step → Outcome (Unit {0})
validate_step py s = do
  safe_id (text s.id)
  require_non_empty_str (text s.brief)
  unique_refs s.inputs
  unique_refs s.outputs
  kernel_refuse_if (is_empty s.outputs) missing
  unique_refs s.readable
  unique_refs s.writable
  kernel_refuse_if (is_empty s.readable) missing
  kernel_refuse_if (is_empty s.writable) missing
  unique_non_empty_strings s.tools
  optional_kernel_ref s.route_on
  kernel_refuse_if (not (route_in_outputs s.route_on s.outputs)) bad_value
  unique_non_empty_strings s.route_fields
  runtime_budget py s.runtime_budget
  unique_non_empty_strings s.command_allowlist
  unique_non_empty_strings s.env_allowlist
  kernel_refuse_if (member (codes "bash") s.tools && is_empty s.command_allowlist) missing
  validate_failure s.failure
  safe_mapping py s.metadata
  ok tt

unfoldable pub validate_projection : Platform → Projection → Outcome (Unit {0})
validate_projection py p = do
  validate_ref (text p.target)
  kernel_refuse_if (is_empty p.sources) missing
  unique_refs p.sources
  safe_id (text p.projector)
  safe_mapping py p.metadata
  ok tt
