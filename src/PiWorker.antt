-- ===== src/PiWorker.antt =====
-- src/missionforge/piworker_call.py: what the call of a PiWorker and its result share.
pub mod Call
pub mod Result
pub mod Authority
use missionforge.Common.{
  Bool, true, false, not, ◌&&◌, Option, none, some, List, [], ◌∷◌, is_empty, if◌then◌else◌,
}
use missionforge.Text.{Text, codes, text_eq}
use missionforge.Outcome.{
  Outcome, ok, refuse, refuse_if, forbidden_field, bad_key, bad_value, missing, denied, ◌>>=◌, ◌>>◌,
}
use missionforge.Platform.{Platform}
use missionforge.Value.{
  Value, null, boolean, integer, float, text, list, dict, object, Items, nil, cons, Fields, end,
  field, name, other_key,
}
use missionforge.Contracts.{require_mapping, require_non_empty_str, require_int_at_least}
use missionforge.Contracts.Json.{ensure_json_value}
use missionforge.Checks.{find_name, member, safe_mapping}
use missionforge.Checks.Hash.{reject_unknown}
use missionforge.Permissions.Roots.{under_any}
use missionforge.Kernel.Toolset.{role_value}
use missionforge.Kernel.Contracts.{
  PiWorkerCallRole, frontdesk_author, executor, judge, repair, revision_drafter, positive_items,
  budget_keys,
}

abbrev row : PiWorkerCallRole → Text × PiWorkerCallRole
row role = (role_value role, role)

abbrev pub role_of : Text → Option PiWorkerCallRole
role_of =
    find_name
      (row frontdesk_author ∷ row executor ∷ row judge ∷ row repair ∷ row revision_drafter ∷ [])

pub data PiWorkerCallResultStatus : Type 0 where
  completed failed blocked invalid_output unauthorized_output runtime_error :
      PiWorkerCallResultStatus

abbrev pub status_value : PiWorkerCallResultStatus → Text
status_value completed = codes "completed"
status_value failed = codes "failed"
status_value blocked = codes "blocked"
status_value invalid_output = codes "invalid_output"
status_value unauthorized_output = codes "unauthorized_output"
status_value runtime_error = codes "runtime_error"

abbrev status_row : PiWorkerCallResultStatus → Text × PiWorkerCallResultStatus
status_row status = (status_value status, status)

abbrev pub status_of : Text → Option PiWorkerCallResultStatus
status_of = find_name (
    status_row completed
    ∷ status_row failed
    ∷ status_row blocked
    ∷ status_row invalid_output
    ∷ status_row unauthorized_output
    ∷ status_row runtime_error
    ∷ [])

-- `status == PiWorkerCallResultStatus.COMPLETED`
abbrev pub is_completed : PiWorkerCallResultStatus → Bool
is_completed completed = true
is_completed _ = false

-- _FORBIDDEN_METADATA_AUTHORITY_FIELDS
abbrev pub authority_fields : List Text
authority_fields =
    codes "accepted"
    ∷ codes "acceptance"
    ∷ codes "decision"
    ∷ codes "final_decision"
    ∷ codes "judge_decision"
    ∷ codes "semantic_acceptance"
    ∷ []

-- `_reject_forbidden_metadata_authority`
unfoldable mutual
  pub reject_authority : (Text → Text) → Value → Outcome (Unit {0})
  reject_authority lower (dict fs) = reject_authority_fields lower fs
  reject_authority lower (list vs) = reject_authority_items lower vs
  reject_authority lower _ = ok tt

  pub reject_authority_items : (Text → Text) → Items → Outcome (Unit {0})
  reject_authority_items lower nil = ok tt
  reject_authority_items lower (cons v vs) =
      reject_authority lower v >>= λ _. reject_authority_items lower vs

  pub reject_authority_fields : (Text → Text) → Fields → Outcome (Unit {0})
  reject_authority_fields lower end = ok tt
  reject_authority_fields lower (field (other_key k) v fs) = refuse bad_key
  reject_authority_fields lower (field (name k) v fs) =
      refuse_if (member (lower k) authority_fields) forbidden_field >>= λ _.
      reject_authority lower v >>= λ _. reject_authority_fields lower fs

-- `_metadata`
unfoldable pub metadata : Platform → Value → Outcome Value
metadata py value = do
  checked ← safe_mapping py value
  reject_authority py.lower checked
  ensure_json_value checked

-- `_runtime_budget`
unfoldable pub runtime_budget : Platform → Value → Outcome Value
runtime_budget py value = do
  checked ← safe_mapping py value
  budget ← require_mapping checked
  reject_unknown budget_keys budget
  positive_items budget
  ok (dict budget)

unfoldable pub check_under : List Text → List Text → Outcome (Unit {0})
unfolding under_any
check_under [] roots = ok tt
check_under (ref ∷ refs) roots = do
  found ← under_any ref roots
  refuse_if (not found) denied
  check_under refs roots

-- `_validate_refs_under_roots`
unfoldable pub validate_refs_under_roots : List Text → List Text → Outcome (Unit {0})
unfolding check_under
validate_refs_under_roots refs roots = do refuse_if (is_empty roots) missing; check_under refs roots

-- `PiWorkerCallResultStatus(normalized)`, and `FAILED` for any other string
abbrev pub status_or_failed : Option PiWorkerCallResultStatus → PiWorkerCallResultStatus
status_or_failed none = failed
status_or_failed (some status) = status

-- `_call_result_status`
unfoldable pub call_result_status : Platform → Value → Outcome PiWorkerCallResultStatus
call_result_status py status = do
  stripped ← require_non_empty_str status
  let claims =
      member (py.lower stripped) (codes "accepted" ∷ codes "acceptance" ∷ codes "approved" ∷ [])
  if member (py.lower stripped) (codes "success" ∷ codes "succeeded" ∷ [])
      then ok completed
      else (refuse_if claims denied >>= λ _. ok (status_or_failed (status_of (py.lower stripped))))
