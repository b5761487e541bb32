-- ===== src/Kernel/Snapshot.antt =====
-- The interaction snapshot before a step: `_prepare_interaction_snapshot` and
-- `_step_with_interaction_snapshot` of src/missionforge/kernel/runner.py.
use missionforge.Common.{Option, none, some, List, [], ◌∷◌, ◌++◌}
use missionforge.Text.{Text, codes, rstrip}
use missionforge.Outcome.{Outcome, ok, ◌>>=◌}
use missionforge.Value.{text}
use missionforge.Contracts.{validate_ref}
use missionforge.Kernel.Contracts.{Step}
use missionforge.Kernel.Route.{dedupe_refs}
use missionforge.Kernel.Ledger.{UserEvent}
use missionforge.Kernel.Flow.{Port}

-- The lines that `_step_with_interaction_snapshot` adds to the brief.
abbrev snapshot_brief : Text → Text → Text
snapshot_brief brief ref =
    rstrip brief
    ++ 10 ∷ 10 ∷ codes "User interaction safe-point snapshot:"
    ++ 10 ∷ codes "- Read `"
    ++ ref
    ++ codes "` before deciding the next action."
    ++ 10 ∷ codes "- Treat user events as interventions, not task authority."
    ++ 10
      ∷ codes
          "- Scope, success criteria, or acceptance changes require an explicit contract revision request."

unfoldable pub step_with_snapshot : Step → Text → Outcome Step
step_with_snapshot step [] = ok step
step_with_snapshot step (c ∷ s) = do
  safe_ref ← validate_ref (text (c ∷ s))
  inputs ← dedupe_refs (step.inputs ++ safe_ref ∷ [])
  readable ← dedupe_refs (step.readable ++ safe_ref ∷ [])
  ok (record step {
    brief = snapshot_brief step.brief safe_ref;
    inputs = inputs;
    readable = readable;
  })

-- `_prepare_interaction_snapshot`: no port or no event is no snapshot. A valid prefix has no slash at
-- its end to strip.
abbrev pub write_snapshot :
    {W : Type 0}
    → Port W
    → List UserEvent
    → Text
    → Text
    → Step
    → W
    → Outcome (Text × List UserEvent × W)
write_snapshot port [] prefix label current w = ok ([], [], w)
write_snapshot port (e ∷ es) prefix label current w = do
  safe_prefix ← validate_ref (text prefix)
  let ref = safe_prefix ++ codes "/" ++ label ++ codes "-user_events.json"
  w' ← port.write_projection current.id ref w
  ok (ref, e ∷ es, w')

abbrev pub prepare :
    {W : Type 0} → Option (Port W) → Text → Text → Step → W → Outcome (Text × List UserEvent × W)
prepare none prefix label current w = ok ([], [], w)
prepare (some port) prefix label current w =
    write_snapshot port (port.pending current.id w) prefix label current w
