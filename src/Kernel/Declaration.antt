-- ===== src/Kernel/Declaration.antt =====
-- `Flow` of src/missionforge/kernel/contracts.py: the composition of steps and its checks.
use missionforge.Common.{
  Bool, true, false, not, ◌&&◌, ◌||◌, Option, none, some, List, [], ◌∷◌, ◌++◌, any, is_empty, map,
  if◌then◌else◌, ◌==◌,
}
use missionforge.Text.{Text, codes, text_eq}
use missionforge.Outcome.{
  Outcome, ok, raise, key_error, kernel_refuse, kernel_refuse_if, bad_value, missing, mismatch,
  not_found, ◌>>=◌, ◌>>◌,
}
use missionforge.Platform.{Platform}
use missionforge.Value.{Value, text}
use missionforge.Contracts.{require_non_empty_str}
use missionforge.Checks.{member, safe_mapping}
use missionforge.Kernel.Contracts.{
  Step, Artifact, ArtifactRole, Projection, is_judge, safe_id, unique_refs, unique_ids,
  validate_step, validate_projection,
}

-- The target of a route: another step, or `FlowStop` with its status.
pub data Target : Type 0 where
  to_step : Text → Target
  flow_stop : Text → Target

pub record Flow : Type 0 where
  pub id : Text
  pub steps : List Step
  pub routes : List (Text × Target)
  pub artifacts : List Artifact
  pub toolset_ids : List Text
  pub projections : List Projection
  pub metadata : Value

-- `{step.id: step for step in steps}.get(id)`: the last step of that name.
unfoldable pub find_step : Text → List Step → Option Step
find_step id [] = none
find_step id (s ∷ ss) = elim (find_step id ss) [
  | some t ↦ some t
  | none ↦ if text_eq s.id id then some s else none
]

unfoldable pub find_artifact : Text → List Artifact → Option Artifact
find_artifact ref [] = none
find_artifact ref (a ∷ as') = elim (find_artifact ref as') [
  | some b ↦ some b
  | none ↦ if text_eq a.ref ref then some a else none
]

-- `flow.routes.get(key)`
unfoldable pub find_route : Text → List (Text × Target) → Option Target
find_route key [] = none
find_route key ((k, target) ∷ routes) = if text_eq k key then some target else find_route key routes

-- `text.split(".", 1)`, when there is a dot
unfoldable pub split_dot : Text → Option (Text × Text)
split_dot [] = none
split_dot (c ∷ s) = elim (split_dot s) [
  | none ↦ if c == b'.' then some ([], s) else none
  | some (a, b) ↦ if c == b'.' then some ([], s) else some (c ∷ a, b)
]

abbrev pub key_parts : Option (Text × Text) → Outcome (Text × Text)
key_parts none = kernel_refuse bad_value
key_parts (some (a, b)) = do source ← safe_id (text a); value ← safe_id (text b); ok (source, value)

-- `_route_key`
unfoldable pub route_key : Text → Outcome (Text × Text)
route_key value = do t ← require_non_empty_str (text value); key_parts (split_dot t)

-- The outputs of the steps before `source` that are no judges.
unfoldable pub prior_outputs : Text → List Step → List Text
prior_outputs source [] = []
prior_outputs source (s ∷ ss) =
    let rest = prior_outputs source ss in
    if text_eq s.id source then [] else if is_judge s.role then rest else s.outputs ++ rest

-- `_judge_accepts_prior_non_judge_output`
unfoldable pub judge_accepts_prior : Step → List Step → Bool
judge_accepts_prior source steps = any (λ r. member r (prior_outputs source.id steps)) source.inputs

abbrev is_decision : ArtifactRole → Bool
is_decision ArtifactRole.decision = true
is_decision _ = false

abbrev is_projection : ArtifactRole → Bool
is_projection ArtifactRole.projection = true
is_projection _ = false

abbrev check_decision : Option Artifact → Outcome (Unit {0})
check_decision none = kernel_refuse not_found
check_decision (some a) =
    kernel_refuse_if (not (text_eq a.owner (codes "piworker")) || not (is_decision a.role)) mismatch

abbrev pub check_target : Flow → Step → List Text → Target → Outcome (Unit {0})
check_target flow source ids (flow_stop status) = do
  safe_id (text status)
  kernel_refuse_if (text_eq status (codes "accepted") && not (is_judge source.role)) mismatch
  kernel_refuse_if
      (text_eq status (codes "accepted") && not (judge_accepts_prior source flow.steps)) mismatch
check_target flow source ids (to_step target) = do
  id ← safe_id (text target)
  kernel_refuse_if (not (member id ids)) not_found

abbrev pub check_route_on : Flow → List Text → Option Text → Outcome (Unit {0})
check_route_on flow fields none = kernel_refuse missing
check_route_on flow fields (some ref) = do
  kernel_refuse_if (is_empty fields) missing
  check_decision (find_artifact ref flow.artifacts)

-- The source of a route must be a step that decides, by a declared decision artifact.
abbrev pub check_source : Flow → List Text → Target → Option Step → Outcome (Unit {0})
check_source flow ids target none = raise key_error
check_source flow ids target (some source) = do
  check_route_on flow source.route_fields source.route_on
  check_target flow source ids target

unfoldable pub validate_routes : Flow → List Text → List (Text × Target) → Outcome (Unit {0})
validate_routes flow ids [] = ok tt
validate_routes flow ids ((key, target) ∷ routes) = do
  (source, value) ← route_key key
  kernel_refuse_if (not (member source ids)) not_found
  check_source flow ids target (find_step source flow.steps)
  validate_routes flow ids routes

unfoldable pub validate_steps : Platform → List Step → Outcome (Unit {0})
validate_steps py [] = ok tt
validate_steps py (s ∷ ss) = do validate_step py s; validate_steps py ss

unfoldable pub all_outputs : List Step → List Text
all_outputs [] = []
all_outputs (s ∷ ss) = s.outputs ++ all_outputs ss

abbrev check_projected : Option Artifact → Outcome (Unit {0})
check_projected none = kernel_refuse not_found
check_projected (some a) =
    kernel_refuse_if (not (text_eq a.owner (codes "runtime")) || not (is_projection a.role))
      mismatch

unfoldable pub validate_projections : Platform → Flow → List Projection → Outcome (Unit {0})
validate_projections py flow [] = ok tt
validate_projections py flow (p ∷ ps) = do
  validate_projection py p
  kernel_refuse_if (member p.target (all_outputs flow.steps)) mismatch
  check_projected (find_artifact p.target flow.artifacts)
  validate_projections py flow ps

-- `Flow.validate`
unfoldable pub validate_flow : Platform → Flow → Outcome (Unit {0})
validate_flow py flow = do
  safe_id (text flow.id)
  kernel_refuse_if (is_empty flow.steps) missing
  ids ← unique_ids (map (λ s. s.id) flow.steps)
  unique_ids flow.toolset_ids
  unique_refs (map (λ a. a.ref) flow.artifacts)
  unique_refs (map (λ p. p.target) flow.projections)
  validate_steps py flow.steps
  validate_projections py flow flow.projections
  validate_routes flow ids flow.routes
  safe_mapping py flow.metadata
  ok tt
