-- ===== src/Kernel/Resume.antt =====
-- When a step may be skipped on the record of an earlier run: `_can_skip_from_record` of
-- src/missionforge/kernel/runner.py, with the refs of kernel/io.py that it reads.
pub mod Current
use missionforge.Common.{
  Bool, true, false, not, ◌&&◌, Option, none, some, List, [], ◌∷◌, ◌++◌, any, if◌then◌else◌,
}
use missionforge.Text.{Text, codes, text_eq}
use missionforge.Text.Maps.{put, lookup}
use missionforge.Outcome.{
  Outcome, ok, raise, refuse, unsafe_ref, contract_validation, kernel_validation, os_error,
  json_decode_error, key_error, type_error, ◌>>=◌, ◌>>◌,
}
use missionforge.Platform.{Platform}
use missionforge.Value.{Value, text, dict, end, entry}
use missionforge.Contracts.{validate_ref}
use missionforge.Checks.{member, stable_json_hash}
use missionforge.Jsonl.{Root}
use missionforge.Kernel.Contracts.{Step, StepStatus, skipped, completed, failed, blocked}
use missionforge.Kernel.Route.{route_value_for_step}
use missionforge.Kernel.Toolset.{spec_hash}
use missionforge.Kernel.Compile.Compiled.{CompiledStep}

-- `StepRecord` of kernel/contracts.py
pub record StepRecord : Type 0 where
  pub step_id : Text
  pub step_spec_hash : Text
  pub contract_ref : Text
  pub contract_hash : Text
  pub input_refs : List Text
  pub output_refs : List Text
  pub status : StepStatus
  pub permission_manifest_ref : Text
  pub permission_manifest_hash : Option Text
  pub extension_lock_ref : Option Text
  pub extension_lock_hash : Option Text
  pub input_hashes : List (Text × Text)
  pub output_hashes : List (Text × Text)
  pub piworker_call_ref : Option Text
  pub piworker_call_result_ref : Option Text
  pub execution_report_ref : Option Text
  pub metric_refs : List Text
  pub failure_refs : List Text
  pub metadata : Value

-- What a step is compared with, and the workspace: its files, the SHA-256 hex digest of their bytes, and
-- the JSON that they hold.
pub record Boundary : Type 0 where
  pub root : Root
  pub digest : Text → Text
  pub read_json : Text → Outcome Value
  pub input_hashes : List (Text × Text)
  pub permission_manifest_hash : Text
  pub extension_lock_ref : Option Text
  pub extension_lock_hash : Option Text

-- `resolve_workspace_ref` of kernel/io.py
unfoldable pub resolve_workspace_ref : Root → Text → Outcome Text
resolve_workspace_ref root ref = do
  safe_ref ← validate_ref (text ref)
  if root.inside safe_ref then ok safe_ref else refuse unsafe_ref

abbrev pub has_file : Option Text → Bool
has_file none = false
has_file (some t) = true

-- `ref_exists`
unfoldable pub ref_exists : Root → Text → Outcome Bool
unfolding resolve_workspace_ref
ref_exists root ref = do path ← resolve_workspace_ref root ref; ok (has_file (root.file path))

abbrev pub file_hash : Platform → (Text → Text) → Text → Option Text → Outcome Text
file_hash py digest safe_ref none =
    stable_json_hash py (dict (entry "missing_ref" (text safe_ref) end))
file_hash py digest safe_ref (some t) = ok (codes "sha256:" ++ digest t)

-- `hash_ref` of a ref that is validated already
unfoldable pub hash_safe : Platform → (Text → Text) → Root → Text → Outcome Text
unfolding resolve_workspace_ref
hash_safe py digest root safe_ref = do
  path ← resolve_workspace_ref root safe_ref
  file_hash py digest safe_ref (root.file path)

-- `hash_ref`
unfoldable pub hash_ref : Platform → (Text → Text) → Root → Text → Outcome Text
unfolding hash_safe
hash_ref py digest root ref = do
  safe_ref ← validate_ref (text ref)
  hash_safe py digest root safe_ref

-- `hash_refs`: the dict display writes its entries one after the other.
unfoldable pub hash_refs_from :
    Platform → (Text → Text) → Root → List (Text × Text) → List Text → Outcome (List (Text × Text))
unfolding hash_ref
hash_refs_from py digest root hashes [] = ok hashes
hash_refs_from py digest root hashes (ref ∷ refs) = do
  key ← validate_ref (text ref)
  hash ← hash_ref py digest root ref
  hash_refs_from py digest root (put key hash hashes) refs

abbrev pub hash_refs : Platform → (Text → Text) → Root → List Text → Outcome (List (Text × Text))
hash_refs py digest root refs = hash_refs_from py digest root [] refs

abbrev pub is_same : Option Text → Option Text → Bool
is_same none none = true
is_same none (some t) = false
is_same (some s) none = false
is_same (some s) (some t) = text_eq s t

-- The entries of a dict are those of another.
unfoldable pub includes : List (Text × Text) → List (Text × Text) → Bool
includes [] other = true
includes ((k, v) ∷ m) other = is_same (some v) (lookup k other) && includes m other

-- `mapping == other` of dicts, whatever their order
abbrev pub same_dict : List (Text × Text) → List (Text × Text) → Bool
same_dict mapping other = includes mapping other && includes other mapping

unfoldable pub same_list : List Text → List Text → Bool
same_list [] [] = true
same_list [] (t ∷ ts) = false
same_list (s ∷ ss) [] = false
same_list (s ∷ ss) (t ∷ ts) = text_eq s t && same_list ss ts

-- `set(expected).issubset(set(refs))`
abbrev pub is_subset : List Text → List Text → Bool
is_subset expected refs = not (any (λ r. not (member r refs)) expected)

-- `extension_lock_ref is not None and extension_lock_hash is None`
abbrev pub lacks_hash : Option Text → Option Text → Bool
lacks_hash (some ref) none = true
lacks_hash (some ref) (some hash) = false
lacks_hash none hash = false

-- The comparisons after the step's hash, up to the expected outputs.
unfoldable pub same_boundary : StepRecord → CompiledStep → Text → Boundary → Bool
unfolding includes same_list
same_boundary r compiled step_hash b =
    text_eq r.step_spec_hash step_hash
    && text_eq r.contract_ref compiled.piworker_call.contract_ref
    && text_eq r.contract_hash compiled.piworker_call.contract_hash
    && text_eq r.permission_manifest_ref compiled.permission_manifest_ref
    && is_same r.permission_manifest_hash (some b.permission_manifest_hash)
    && is_same r.extension_lock_ref b.extension_lock_ref
    && is_same r.extension_lock_hash b.extension_lock_hash
    && not (lacks_hash b.extension_lock_ref b.extension_lock_hash)
    && same_list r.input_refs compiled.step.inputs
    && same_dict r.input_hashes b.input_hashes
    && is_subset compiled.step.outputs r.output_refs

-- Every expected output is a file; the loop is over a set, here in the order of the list.
unfoldable pub all_exist : Root → List Text → Outcome Bool
unfolding ref_exists
all_exist root [] = ok true
all_exist root (ref ∷ refs) = do
  exists ← ref_exists root ref
  if exists then all_exist root refs else ok false

abbrev pub is_done : StepStatus → Bool
is_done completed = true
is_done skipped = true
is_done _ = false

-- Whether a route value could be read: some exceptions count as no.
abbrev pub read_well : Outcome Text → Outcome Bool
read_well (ok value) = ok true
read_well (raise key_error) = raise key_error
read_well (raise type_error) = raise type_error
read_well (raise _) = ok false

abbrev pub recoverable_on : Boundary → Step → Option Text → Outcome Bool
recoverable_on b step none = ok true
recoverable_on b step (some route_on) = do
  exists ← ref_exists b.root route_on
  if exists then read_well (route_value_for_step b.read_json step) else ok false

-- `_has_recoverable_route_decision`
abbrev pub has_recoverable_route_decision : Boundary → Step → Outcome Bool
has_recoverable_route_decision b step = recoverable_on b step step.route_on

-- `_can_skip_from_record`; its first test lets every status pass.
unfoldable pub can_skip_from_record : Platform → StepRecord → CompiledStep → Boundary → Outcome Bool
unfolding same_boundary all_exist hash_refs_from includes
can_skip_from_record py r compiled b =
    if not (text_eq r.step_id compiled.step.id) then ok false else do
      step_hash ← spec_hash py compiled.step
      if not (same_boundary r compiled step_hash b) then ok false else do
        exist ← all_exist b.root compiled.step.outputs
        if not exist then ok false else do
          hashes ← hash_refs py b.digest b.root r.output_refs
          if not (same_dict r.output_hashes hashes)
              then ok false
              else if is_done r.status
              then ok true
              else has_recoverable_route_decision b compiled.step
