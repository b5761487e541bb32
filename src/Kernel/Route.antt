-- ===== src/Kernel/Route.antt =====
-- The decision artifact of a step, and the route that it names: `_route_value_for_step`,
-- `_safe_route_segment` and `_dedupe_refs` of src/missionforge/kernel/runner.py.
pub mod Distinct
use missionforge.Common.{Option, none, some, List, [], ◌∷◌, ◌++◌, is_empty, if◌then◌else◌}
use missionforge.Text.{Text, codes, strip}
use missionforge.Outcome.{
  Outcome, ok, kernel_refuse, kernel_refuse_if, bad_segment, bad_value, missing, not_mapping, ◌>>=◌,
  ◌>>◌,
}
use missionforge.Value.{Value, null, text, dict, Fields, get}
use missionforge.Contracts.{validate_ref}
use missionforge.Checks.{member}
use missionforge.Kernel.Contracts.{Step, is_no_segment}

unfoldable pub safe_route_segment : Text → Outcome Text
safe_route_segment value = do
  route_value ← validate_ref (text value)
  kernel_refuse_if (is_no_segment route_value) bad_segment
  ok route_value

abbrev field_value : Option Value → Outcome Text
field_value none = kernel_refuse missing
field_value (some null) = kernel_refuse missing
field_value (some (text t)) =
    if is_empty (strip t) then kernel_refuse bad_value else safe_route_segment (strip t)
field_value (some _) = kernel_refuse bad_value

unfoldable pub field_values : Fields → List Text → Outcome (List Text)
field_values payload [] = ok []
field_values payload (f ∷ fs) = do
  value ← field_value (get f payload)
  rest ← field_values payload fs
  ok (value ∷ rest)

-- `"+".join(values)`
unfoldable pub join_plus : List Text → Text
join_plus [] = []
join_plus (v ∷ []) = v
join_plus (v ∷ w ∷ vs) = v ++ codes "+" ++ join_plus (w ∷ vs)

abbrev payload_fields : Value → Outcome Fields
payload_fields (dict fs) = ok fs
payload_fields _ = kernel_refuse not_mapping

abbrev required_route : Option Text → Outcome Text
required_route none = kernel_refuse missing
required_route (some r) = ok r

-- `read_json` reads a ref of the workspace.
unfoldable pub route_value_for_step : (Text → Outcome Value) → Step → Outcome Text
route_value_for_step read_json step = do
  route_on ← required_route step.route_on
  payload ← read_json route_on
  fs ← payload_fields payload
  values ← field_values fs step.route_fields
  ok (join_plus values)

-- The loop of `_dedupe_refs`; `seen` holds the refs kept so far.
unfoldable pub dedupe : List Text → List Text → Outcome (List Text)
dedupe seen [] = ok []
dedupe seen (v ∷ vs) = do
  ref ← validate_ref (text v)
  let kept = do rest ← dedupe (ref ∷ seen) vs; ok (ref ∷ rest)
  let dropped = dedupe seen vs
  if member ref seen then dropped else kept

unfoldable pub dedupe_refs : List Text → Outcome (List Text)
dedupe_refs values = dedupe [] values
