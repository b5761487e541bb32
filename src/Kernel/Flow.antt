-- ===== src/Kernel/Flow.antt =====
-- `run_flow` of src/missionforge/kernel/runner.py. The workspace and all outside the flow loop is a
-- value `w` of a type `W`; what the loop asks of it is the record `Env`: running one step, reading a
-- decision artifact, the interaction port, the projections and the event sink. This file has what
-- follows a step's run; the loop is in Run.antt.
use missionforge.Common.{
  ℕ, ◌+◌, Bool, true, false, Option, none, some, List, [], ◌∷◌, ◌++◌, length, if◌then◌else◌,
}
use missionforge.Text.{Text, codes}
use missionforge.Text.Decimal.{decimal}
use missionforge.Outcome.{Outcome, ok, raise, key_error, type_error, ◌>>=◌, ◌>>◌}
use missionforge.Value.{Value}
use missionforge.Kernel.Contracts.{
  Step, StepStatus, skipped, completed, failed, blocked, Projection,
}
use missionforge.Kernel.Declaration.{Flow, Target, to_step, flow_stop, find_step, find_route}
use missionforge.Kernel.Ledger.{
  FlowLedgerEvent, step_recorded, routed, blank, validate_event, UserEvent,
}
use missionforge.Kernel.Route.{route_value_for_step, dedupe_refs}

-- What a step's run reports: `StepRunResult`, as far as the loop reads it.
pub record StepReport : Type 0 where
  pub step_record_ref : Text
  pub status : StepStatus
  pub output_refs : List Text

pub record Port (W : Type 0) : Type 0 where
  pub pending : Text → W → List UserEvent
  pub write_projection : Text → Text → W → Outcome W
  pub acknowledge : List UserEvent → Text → Text → Text → W → Outcome W

pub record Env (W : Type 0) : Type 0 where
  pub execution_id : W → Outcome Text
  pub run_step : Step → Text → Text → W → Outcome (StepReport × W)
  pub read_json : W → Text → Outcome Value
  pub port : Option (Port W)
  pub run_projections : List Projection → Text → W → Outcome (List (Text × Text) × W)
  pub emit : FlowLedgerEvent → W → W
  pub write_ledger : Text → List FlowLedgerEvent → W → Outcome W
  pub write_result : Text → W → Outcome W

pub record Context : Type 0 where
  pub flow_id : Text
  pub contract_ref : Text

-- What the loop has collected.
pub record Trace : Type 0 where
  pub ledger : List FlowLedgerEvent
  pub step_record_refs : List Text
  pub decision_refs : List Text
  pub artifact_refs : List Text

-- What `run_flow` returns of the flow result, with the events that it wrote to the ledger.
pub record FlowRunResult : Type 0 where
  pub status : Text
  pub stop_reason : Text
  pub ledger : List FlowLedgerEvent
  pub step_record_refs : List Text
  pub final_artifact_refs : List Text
  pub decision_refs : List Text
  pub ledger_refs : List Text
  pub executed_steps : ℕ

-- How one round of the loop ends: by `break` with a status and a reason, or at the next step.
pub data Next : Type 0 where
  halt : Text → Text → Trace → Next
  go : Step → Trace → Next

abbrev pub status_name : StepStatus → Text
status_name skipped = codes "skipped"
status_name completed = codes "completed"
status_name failed = codes "failed"
status_name blocked = codes "blocked"

-- `f"{len(ledger_events) + 1:03d}-{label}"`
abbrev pub next_id : Trace → Text → Text
next_id t label = decimal 3 (length t.ledger + 1) ++ codes "-" ++ label

module _ {W : Type 0} (env : Env W) where
  -- `_append_flow_ledger_event` with the event's refs deduplicated.
  unfoldable pub append_event : FlowLedgerEvent → Trace → W → Outcome (Trace × W)
  append_event e t w = do
    refs ← dedupe_refs e.refs
    let event : FlowLedgerEvent = record e { refs = refs }
    validate_event event
    ok (record t { ledger = t.ledger ++ event ∷ [] }, env.emit event w)

  -- The event of a route, and the end of the round.
  unfoldable pub routed_event : Step → Text → Text → Text → Text → Trace → W → Outcome (Trace × W)
  routed_event current route_on status value target t w =
      append_event
        (record (blank (next_id t (codes "routed")) routed) {
          step_id = some current.id;
          status = some status;
          decision_ref = some route_on;
          route_value = some value;
          route_target = some target;
          refs = route_on ∷ [];
        })
        t w

  abbrev pub halt_routed : Step → Text → Text → Text → Text → Text → Trace → W → Outcome (Next × W)
  halt_routed current route_on status reason value target t w = do
    (t', w') ← routed_event current route_on status value target t w
    ok (halt status reason t', w')

  abbrev pub enter : Option Step → Trace → W → Outcome (Next × W)
  enter none t w = raise key_error
  enter (some s) t w = ok (go s t, w)

  abbrev pub follow : Flow → Step → Text → Text → Option Target → Trace → W → Outcome (Next × W)
  follow flow current route_on value none t w =
      halt_routed current route_on (codes "blocked") (codes "unrouted_decision") value
        (codes "unrouted") t w
  follow flow current route_on value (some (flow_stop status)) t w =
      halt_routed current route_on status (codes "terminal_route") value status t w
  follow flow current route_on value (some (to_step target)) t w = do
    (t', w') ← routed_event current route_on (codes "running") value target t w
    enter (find_step target flow.steps) t' w'

  abbrev pub route_on_value : Flow → Step → Text → Outcome Text → Trace → W → Outcome (Next × W)
  route_on_value flow current route_on (ok value) t w =
      follow flow current route_on value (find_route (current.id ++ codes "." ++ value) flow.routes)
        t w
  route_on_value flow current route_on (raise key_error) t w = raise key_error
  route_on_value flow current route_on (raise type_error) t w = raise type_error
  route_on_value flow current route_on (raise _) t w =
      halt_routed current route_on (codes "blocked") (codes "invalid_decision_artifact")
        (codes "invalid") (codes "blocked") t w

  -- The part of a round after the step is done and its events are acknowledged.
  abbrev pub route : Flow → Step → Option Text → Trace → W → Outcome (Next × W)
  route flow current none t w = ok (halt (codes "completed") (codes "step_without_route") t, w)
  route flow current (some route_on) t w =
      route_on_value flow current route_on (route_value_for_step (env.read_json w) current)
        (record t { decision_refs = t.decision_refs ++ route_on ∷ [] }) w

  abbrev pub acknowledge : Option (Port W) → List UserEvent → Text → Text → Text → W → Outcome W
  acknowledge none events consumed_by snapshot record_ref w = ok w
  acknowledge (some port) [] consumed_by snapshot record_ref w = ok w
  acknowledge (some port) (e ∷ es) consumed_by snapshot record_ref w =
      port.acknowledge (e ∷ es) consumed_by snapshot record_ref w

  abbrev pub finished : StepStatus → Bool
  finished completed = true
  finished skipped = true
  finished _ = false

  -- `f"{index:03d}-{current.id}"`
  abbrev pub step_name : ℕ → Step → Text
  step_name index current = decimal 3 index ++ codes "-" ++ current.id

  -- Running the step and recording it.
  unfoldable pub record_step :
      Context → Step → Step → ℕ → Trace → W → Outcome (StepReport × Trace × W)
  record_step ctx current executable index t w = do
    (report, w1) ←
        env.run_step executable
          (codes "kernel/"
            ++ ctx.flow_id
            ++ codes "/runs/"
            ++ ctx.flow_id
            ++ codes "/steps/"
            ++ step_name index current)
          (ctx.flow_id ++ codes "-" ++ step_name index current) w
    let t1 : Trace = record t {
      step_record_refs = t.step_record_refs ++ report.step_record_ref ∷ [];
      artifact_refs = t.artifact_refs ++ report.output_refs;
    }
    (t2, w2) ←
        append_event
          (record (blank (next_id t1 (codes "step")) step_recorded) {
            step_id = some current.id;
            status = some (status_name report.status);
            step_record_ref = some report.step_record_ref;
            refs = report.step_record_ref ∷ [];
          })
          t1 w1
    ok (report, t2, w2)

  unfoldable pub perform :
      Context → Flow → Step → Step → ℕ → Text → List UserEvent → Trace → W → Outcome (Next × W)
  perform ctx flow current executable index snapshot events t w = do
    (report, t1, w1) ← record_step ctx current executable index t w
    let rest = do
      w2 ← acknowledge env.port events (step_name index current) snapshot report.step_record_ref w1
      route flow current current.route_on t1 w2
    if finished report.status
        then rest
        else ok (halt (status_name report.status) (codes "step_not_completed") t1, w1)
