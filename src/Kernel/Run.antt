-- ===== src/Kernel/Run.antt =====
-- The loop of `run_flow` (src/missionforge/kernel/runner.py) and what stands around it.
pub mod Grows
pub mod Ends
use missionforge.Common.{
  ℕ, zero, suc, ◌+◌, ◌*◌, Bool, true, false, not, ◌||◌, ◌&&◌, Option, none, some, List, [], ◌∷◌,
  ◌++◌, map, length, is_empty, if◌then◌else◌, ltb, ◌==◌,
}
use missionforge.Text.{Text, codes, text_eq, rstrip}
use missionforge.Outcome.{
  Outcome, ok, raise, kernel_refuse, kernel_refuse_if, bad_value, missing, ◌>>=◌, ◌>>◌,
}
use missionforge.Platform.{Platform}
use missionforge.Value.{Value, text}
use missionforge.Contracts.{validate_ref}
use missionforge.Kernel.Contracts.{Step, Projection, safe_id, unique_refs}
use missionforge.Kernel.Declaration.{Flow, validate_flow}
use missionforge.Kernel.Route.{dedupe_refs}
use missionforge.Kernel.Ledger.{
  FlowLedgerEvent, started, step_started, interaction_recorded, projections_recorded, stopped,
  blank, UserEvent, interaction_stop_decision,
}
use missionforge.Kernel.Snapshot.{step_with_snapshot, prepare}
use missionforge.Kernel.Flow.{
  Port, Env, Context, Trace, FlowRunResult, Next, halt, go, next_id, append_event, step_name,
  perform,
}

abbrev pub first_step : List Step → Outcome Step
first_step [] = kernel_refuse missing
first_step (s ∷ ss) = ok s

abbrev pub limit_of : Option ℕ → Flow → ℕ
limit_of (some n) flow = n
limit_of none flow = if ltb (length flow.steps * 2) 1 then 1 else length flow.steps * 2

-- `FlowResult.validate`, less the identifiers that the flow and the context were checked for.
unfoldable pub validate_flow_result : FlowRunResult → Outcome (Unit {0})
validate_flow_result r = do
  safe_id (text r.status)
  unique_refs r.step_record_refs
  unique_refs r.final_artifact_refs
  unique_refs r.decision_refs
  unique_refs r.ledger_refs
  ok tt

module _ {W : Type 0} (env : Env W) where
  abbrev pub interaction_event : Step → Text → Text → Trace → FlowLedgerEvent
  interaction_event current status snapshot t =
      record (blank (next_id t (codes "interaction")) interaction_recorded) {
        step_id = some current.id;
        status = some status;
        refs = if is_empty snapshot then [] else snapshot ∷ [];
      }

  abbrev pub note_snapshot : Step → Text → Trace → W → Outcome (Trace × W)
  note_snapshot current [] t w = ok (t, w)
  note_snapshot current (c ∷ s) t w =
      append_event env (interaction_event current (codes "running") (c ∷ s) t) t w

  -- The step that the user did not stop.
  unfoldable pub start_step :
      Context → Flow → Step → ℕ → Text → List UserEvent → Trace → W → Outcome (Next × W)
  start_step ctx flow current index snapshot events t w = do
    (t1, w1) ←
        append_event env
          (record (blank (next_id t (codes "step-started")) step_started) {
            step_id = some current.id;
            status = some (codes "running");
            refs = current.inputs ++ current.outputs;
          })
          t w
    executable ← step_with_snapshot current snapshot
    (t2, w2) ← note_snapshot current snapshot t1 w1
    perform env ctx flow current executable index snapshot events t2 w2

  abbrev pub stop_or_start :
      Option Text
      → Context
      → Flow
      → Step
      → ℕ
      → Text
      → List UserEvent
      → Trace
      → W
      → Outcome (Next × W)
  stop_or_start (some reason) ctx flow current index snapshot events t w = do
    (t', w') ← append_event env (interaction_event current (codes "blocked") snapshot t) t w
    ok (halt (codes "blocked") reason t', w')
  stop_or_start none ctx flow current index snapshot events t w =
      start_step ctx flow current index snapshot events t w

  -- One round of `for index in range(1, limit + 1)`.
  unfoldable pub round : Context → Flow → Text → Step → ℕ → Trace → W → Outcome (Next × W)
  round ctx flow prefix current index t w = do
    (snapshot, events, w') ←
        prepare env.port (prefix ++ codes "/interaction/safe_points") (step_name env index current)
          current w
    stop_or_start (interaction_stop_decision events) ctx flow current index snapshot events t w'

  -- A `break` leaves the loop; else the next round starts.
  abbrev pub proceed :
      Next
      → W
      → (Step → Trace → Outcome (Text × Text × Trace × W))
      → Outcome (Text × Text × Trace × W)
  proceed (halt status reason t) w rest = ok (status, reason, t, w)
  proceed (go step t) w rest = rest step t

  -- The loop with its `else`: the rounds that are left, the step and the index of the next one.
  unfoldable pub loop :
      Context → Flow → Text → ℕ → Step → ℕ → Trace → W → Outcome (Text × Text × Trace × W)
  loop ctx flow prefix zero current index t w =
      ok (codes "blocked", codes "max_steps_exhausted", t, w)
  loop ctx flow prefix (suc k) current index t w = do
    (next, w') ← round ctx flow prefix current index t w
    proceed next w' (λ step t'. loop ctx flow prefix k step (suc index) t' w')

  abbrev pub unprojected : Text → Bool
  unprojected status = text_eq status (codes "failed") || text_eq status (codes "blocked")

  -- Running the projections and recording them.
  unfoldable pub project_all : Flow → Text → Trace → W → Outcome (Trace × List Text × W)
  project_all flow prefix t w = do
    (results, w1) ← env.run_projections flow.projections (prefix ++ codes "/projections") w
    let records = map (λ (p : Text × Text). p.0) results
    let targets = map (λ (p : Text × Text). p.1) results
    let t1 : Trace = record t { artifact_refs = t.artifact_refs ++ targets }
    (t2, w2) ←
        append_event env
          (record (blank (next_id t1 (codes "projections")) projections_recorded) {
            status = some (codes "completed");
            refs = records;
          })
          t1 w1
    ok (t2, records, w2)

  -- Only a run that neither failed nor is blocked is projected.
  unfoldable pub project : Flow → Text → Text → Trace → W → Outcome (Trace × List Text × W)
  project flow prefix status t w =
      if is_empty flow.projections || unprojected status
      then ok (t, [], w)
      else project_all flow prefix t w

  -- What follows the loop: projections, the last event, the ledger and the result.
  unfoldable pub finish : Flow → Text → Text → Text → Trace → W → Outcome (FlowRunResult × W)
  finish flow prefix status reason t w = do
    (t1, records, w1) ← project flow prefix status t w
    (t2, w2) ←
        append_event env
          (record (blank (next_id t1 (codes "stopped")) stopped) {
            status = some status;
            stop_reason = some reason;
            refs = (prefix ++ codes "/flow_result.json") ∷ t1.step_record_refs ++ t1.decision_refs;
          })
          t1 w1
    w3 ← env.write_ledger (prefix ++ codes "/flow_ledger.jsonl") t2.ledger w2
    artifacts ← dedupe_refs t2.artifact_refs
    decisions ← dedupe_refs t2.decision_refs
    ledgers ← dedupe_refs ((prefix ++ codes "/flow_ledger.jsonl") ∷ records)
    let result : FlowRunResult = record {
      status = status;
      stop_reason = reason;
      ledger = t2.ledger;
      step_record_refs = t2.step_record_refs;
      final_artifact_refs = artifacts;
      decision_refs = decisions;
      ledger_refs = ledgers;
      executed_steps = length t2.step_record_refs;
    }
    validate_flow_result result
    w4 ← env.write_result (prefix ++ codes "/flow_result.json") w3
    ok (result, w4)

  -- `run_flow`; the context is taken as validated, and the last `result.validate()`, which checks the
  -- flow and the results of its steps again, is left out.
  unfoldable pub run_flow : Platform → Context → Flow → Option ℕ → W → Outcome (FlowRunResult × W)
  run_flow py ctx flow max_steps w = do
    validate_flow py flow
    kernel_refuse_if (ltb (limit_of max_steps flow) 1) bad_value
    current ← first_step flow.steps
    execution ← env.execution_id w
    let prefix =
        codes "kernel/"
        ++ ctx.flow_id
        ++ codes "/runs/"
        ++ ctx.flow_id
        ++ codes "/executions/"
        ++ execution
    let empty : Trace = record {
      ledger = [];
      step_record_refs = [];
      decision_refs = [];
      artifact_refs = [];
    }
    (t, w1) ←
        append_event env
          (record (blank (codes "001-started") started) {
            status = some (codes "running");
            refs = ctx.contract_ref ∷ [];
          })
          empty w
    (status, reason, t1, w2) ← loop ctx flow prefix (limit_of max_steps flow) current 1 t w1
    finish flow prefix status reason t1 w2
