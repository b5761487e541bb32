-- ===== src/Kernel/Run/Ends.antt =====
-- What a whole run of `run_flow` leaves: how many steps it ran, and what its ledger starts and ends
-- with.
use mathlib.Core.List.{append_assoc}
use missionforge.Common.{
  ℕ, zero, suc, ◌+◌, ◌≤◌, ◌≡◌, refl, sym, ap, ◌∙◌, subst, ◌||◌, is_empty, ltb, Option, none, some,
  List, [], ◌∷◌, ◌++◌, length, arith, if-post,
}
use missionforge.Text.{Text, codes}
use missionforge.Outcome.{Outcome, ok, >>=-eq-ok, ok_injective, kernel_refuse_if, bad_value}
use missionforge.Platform.{Platform}
use missionforge.Kernel.Contracts.{Step}
use missionforge.Kernel.Declaration.{Flow, validate_flow}
use missionforge.Kernel.Route.{dedupe_refs}
use missionforge.Kernel.Ledger.{
  FlowLedgerEvent, started, stopped, UserEvent, interaction_stop_decision,
}
use missionforge.Kernel.Flow.{Env, Context, Trace, Next, halt, go, append_event, FlowRunResult}
use missionforge.Kernel.Snapshot.{step_with_snapshot, prepare}
use missionforge.Kernel.Run.{
  note_snapshot, start_step, stop_or_start, round, proceed, loop, unprojected, project_all, project,
  validate_flow_result, finish, run_flow, limit_of, first_step,
}
use missionforge.Kernel.Run.Grows.{
  Grew, Grew-refl, Grew-trans, Grew-weaken, trace_of, append_lem, append-Grew, append_then,
  perform-Grew,
}

module _ {W : Type 0} (env : Env W) where
  note_snapshot-Grew :
      (current : Step) (snapshot : Text) (t : Trace) (w : W) (t' : Trace) (w' : W)
      → note_snapshot env current snapshot t w ≡ ok (t', w')
      → Grew 0 t t'
  note_snapshot-Grew current [] t w t' w' h =
      subst (Grew 0 t) (ap (λ (p : Trace × W). p.0) (ok_injective h)) (Grew-refl 0 t)
  note_snapshot-Grew current (c ∷ s) t w t' w' h = append-Grew env _ t t' w w' h

  start_step-Grew :
      (ctx : Context) (flow : Flow) (current : Step) (index : ℕ) (snapshot : Text)
      (events : List UserEvent) (t : Trace) (w : W) (n : Next) (w' : W)
      → start_step env ctx flow current index snapshot events t w ≡ ok (n, w')
      → Grew 1 t (trace_of n)
  unfolding start_step
  start_step-Grew ctx flow current index snapshot events t w n w' h =
      let ((t1, w1), a, f) = >>=-eq-ok (append_event env _ t w) _ h in
      let (executable, b, g) = >>=-eq-ok (step_with_snapshot current snapshot) _ f in
      let ((t2, w2), c, k) = >>=-eq-ok (note_snapshot env current snapshot t1 w1) _ g in
      Grew-trans 0 1 t t1 (trace_of n) (append-Grew env _ t t1 w w1 a) (
        Grew-trans 0 1 t1 t2 (trace_of n) (note_snapshot-Grew current snapshot t1 w1 t2 w2 c)
          (perform-Grew env ctx flow current executable index snapshot events t2 w2 n w' k))

  stop_or_start-Grew :
      (stop : Option Text) (ctx : Context) (flow : Flow) (current : Step) (index : ℕ)
      (snapshot : Text) (events : List UserEvent) (t : Trace) (w : W) (n : Next) (w' : W)
      → stop_or_start env stop ctx flow current index snapshot events t w ≡ ok (n, w')
      → Grew 1 t (trace_of n)
  stop_or_start-Grew (some reason) ctx flow current index snapshot events t w n w' h =
      Grew-weaken 0 1 t (trace_of n) (omega arith)
        (append_then env _ (halt (codes "blocked") reason) t w n w' (λ u. refl) h)
  stop_or_start-Grew none ctx flow current index snapshot events t w n w' h =
      start_step-Grew ctx flow current index snapshot events t w n w' h

  pub round-Grew :
      (ctx : Context) (flow : Flow) (prefix : Text) (current : Step) (index : ℕ) (t : Trace) (w : W)
      (n : Next) (w' : W)
      → round env ctx flow prefix current index t w ≡ ok (n, w')
      → Grew 1 t (trace_of n)
  unfolding round
  round-Grew ctx flow prefix current index t w n w' h =
      let ((snapshot, events, w1), a, f) = >>=-eq-ok (prepare env.port _ _ current w) _ h in
      stop_or_start-Grew (interaction_stop_decision events) ctx flow current index snapshot events t
        w1 n w' f

  proceed-Grew :
      (k : ℕ) (t : Trace) (next : Next) (w : W)
      (rest : Step → Trace → Outcome (Text × Text × Trace × W)) (status reason : Text) (t' : Trace)
      (w' : W)
      → Grew 1 t (trace_of next)
      → ((step : Step) (u : Trace) → rest step u ≡ ok (status, reason, t', w') → Grew k u t')
      → proceed env next w rest ≡ ok (status, reason, t', w')
      → Grew (suc k) t t'
  proceed-Grew k t (halt s r u) w rest status reason t' w' g more h =
      subst (Grew (suc k) t) (ap (λ (p : Text × Text × Trace × W). p.2) (ok_injective h))
        (Grew-weaken 1 (suc k) t u (omega arith) g)
  proceed-Grew k t (go step u) w rest status reason t' w' g more h =
      Grew-weaken (1 + k) (suc k) t t' (omega arith) (Grew-trans 1 k t u t' g (more step u h))

  pub loop-Grew :
      (k : ℕ) (ctx : Context) (flow : Flow) (prefix : Text) (current : Step) (index : ℕ) (t : Trace)
      (w : W) (status reason : Text) (t' : Trace) (w' : W)
      → loop env ctx flow prefix k current index t w ≡ ok (status, reason, t', w')
      → Grew k t t'
  unfolding loop
  loop-Grew zero ctx flow prefix current index t w status reason t' w' h =
      subst (Grew 0 t) (ap (λ (p : Text × Text × Trace × W). p.2) (ok_injective h)) (Grew-refl 0 t)
  loop-Grew (suc k) ctx flow prefix current index t w status reason t' w' h =
      let ((next, w1), a, f) = >>=-eq-ok (round env ctx flow prefix current index t w) _ h in
      proceed-Grew k t next w1 _ status reason t' w'
        (round-Grew ctx flow prefix current index t w next w1 a)
        (λ step u e. loop-Grew k ctx flow prefix step (suc index) u w1 status reason t' w' e) f

  project_all-Grew :
      (flow : Flow) (prefix : Text) (t : Trace) (w : W) (t' : Trace) (rs : List Text) (w' : W)
      → project_all env flow prefix t w ≡ ok (t', rs, w')
      → Grew 0 t t'
  unfolding project_all
  project_all-Grew flow prefix t w t' rs w' h =
      let ((results, w1), a, f) = >>=-eq-ok (env.run_projections flow.projections _ w) _ h in
      let ((t2, w2), b, g) = >>=-eq-ok (append_event env _ _ w1) _ f in
      let grew = append-Grew env _ _ t2 w1 w2 b in
      subst (Grew 0 t) (ap (λ (p : Trace × List Text × W). p.0) (ok_injective g))
        (record { records = grew.records; ledger = grew.ledger })

  project-Grew :
      (flow : Flow) (prefix status : Text) (t : Trace) (w : W) (t' : Trace) (rs : List Text)
      (w' : W)
      → project env flow prefix status t w ≡ ok (t', rs, w')
      → Grew 0 t t'
  unfolding project
  project-Grew flow prefix status t w t' rs w' h =
      if-post (is_empty flow.projections || unprojected env status) (ok (t, [], w))
        (project_all env flow prefix t w) _ h
        (λ skip.
          subst (Grew 0 t) (ap (λ (p : Trace × List Text × W). p.0) (ok_injective skip))
            (Grew-refl 0 t))
        (λ all. project_all-Grew flow prefix t w t' rs w' all)

-- How the ledger of a run ends, and what the run counted, from the trace `t` on.
pub record Finished (t : Trace) (result : FlowRunResult) : Type 0 where
  pub events :
      (es : List FlowLedgerEvent) × (last : FlowLedgerEvent) × (result.ledger
        ≡ t.ledger ++ (es ++ last ∷ []))
      × (last.kind ≡ stopped)
      × (last.status ≡ some result.status)
      × (last.stop_reason ≡ some result.stop_reason)
  pub counted : result.executed_steps ≤ length t.step_record_refs

joined :
    (a b c : List FlowLedgerEvent) (first last : FlowLedgerEvent) (ms es : List FlowLedgerEvent)
    → a ≡ first ∷ []
    → b ≡ a ++ ms
    → c ≡ b ++ (es ++ last ∷ [])
    → c ≡ first ∷ (ms ++ es ++ last ∷ [])
joined a b c first last ms es h k l =
    l
    ∙ ap (λ x. x ++ (es ++ last ∷ [])) (k ∙ ap (λ x. x ++ ms) h)
    ∙ sym (ap (λ x. first ∷ x) (append_assoc ms es (last ∷ [])))

module _ {W : Type 0} (env : Env W) where
  append_last :
      (e : FlowLedgerEvent) (t t1 t2 : Trace) (w w' : W)
      → Grew 0 t t1
      → append_event env e t1 w ≡ ok (t2, w')
      → (es : List FlowLedgerEvent) × (refs : List Text) × (t2.ledger
          ≡ t.ledger ++ (es ++ record e { refs = refs } ∷ []))
  append_last e t t1 t2 w w' g h =
      let (refs, same) = append_lem env e t1 t2 w w' h in
      let (es, more) = g.ledger in
      let last : FlowLedgerEvent = record e { refs = refs } in
      (
        es,
        refs,
        ap (λ (u : Trace). u.ledger) same
            ∙ ap (λ l. l ++ last ∷ []) more
            ∙ append_assoc t.ledger es (last ∷ []),
      )

  finish-Finished :
      (flow : Flow) (prefix status reason : Text) (t : Trace) (w : W) (result : FlowRunResult)
      (w' : W)
      → finish env flow prefix status reason t w ≡ ok (result, w')
      → Finished t result
  unfolding finish
  finish-Finished flow prefix status reason t w result w' h =
      let ((t1, rs, w1), a, f) = >>=-eq-ok (project env flow prefix status t w) _ h in
      let ((t2, w2), b, g) = >>=-eq-ok (append_event env _ t1 w1) _ f in
      let (w3, c, g1) = >>=-eq-ok (env.write_ledger _ t2.ledger w2) _ g in
      let (fs, d, g2) = >>=-eq-ok (dedupe_refs t2.artifact_refs) _ g1 in
      let (ds, e, g3) = >>=-eq-ok (dedupe_refs t2.decision_refs) _ g2 in
      let (ls, i, g4) = >>=-eq-ok (dedupe_refs _) _ g3 in
      let (u, i', g4') = >>=-eq-ok (validate_flow_result _) _ g4 in
      let (w4, j, g5) = >>=-eq-ok (env.write_result _ w3) _ g4' in
      let grew = project-Grew env flow prefix status t w t1 rs w1 a in
      let counted = append-Grew env _ t1 t2 w1 w2 b in
      let (es, refs, ledger) = append_last _ t t1 t2 w1 w2 grew b in
      subst (Finished t) (ap (λ (p : FlowRunResult × W). p.0) (ok_injective g5)) (record {
        events = (es, _, ledger, refl, refl, refl);
        counted = omega (arith, grew.records, counted.records);
      })

  -- When `run_flow` returns a result, it ran at most `max_steps` steps, or twice the number of the
  -- flow's steps where no limit is given, and the ledger it wrote is an event `started`, then events
  -- of any kind, then an event `stopped` that carries the status and the stop reason of the result.
  pub run_flow_ledger :
      (py : Platform) (ctx : Context) (flow : Flow) (max_steps : Option ℕ) (w : W)
      (result : FlowRunResult) (w' : W)
      → run_flow env py ctx flow max_steps w ≡ ok (result, w')
      → (result.executed_steps ≤ limit_of max_steps flow)
        × (first : FlowLedgerEvent) × (middle : List FlowLedgerEvent) × (last : FlowLedgerEvent)
        × (result.ledger ≡ first ∷ (middle ++ last ∷ []))
        × (first.kind ≡ started)
        × (last.kind ≡ stopped)
        × (last.status ≡ some result.status)
        × (last.stop_reason ≡ some result.stop_reason)
  unfolding run_flow
  run_flow_ledger py ctx flow max_steps w result w' h =
      let (u, a, h1) = >>=-eq-ok (validate_flow py flow) _ h in
      let (v, b, h2) =
        >>=-eq-ok (kernel_refuse_if (ltb (limit_of max_steps flow) 1) bad_value) _ h1 in
      let (current, c, h3) = >>=-eq-ok (first_step flow.steps) _ h2 in
      let (execution, d, h4) = >>=-eq-ok (env.execution_id w) _ h3 in
      let ((t, w1), e, h5) = >>=-eq-ok (append_event env _ _ w) _ h4 in
      let ((status, reason, t1, w2), f, h6) =
        >>=-eq-ok (loop env ctx flow _ (limit_of max_steps flow) current 1 t w1) _ h5 in
      let (refs, same) = append_lem env _ _ t w w1 e in
      let grew =
        loop-Grew env (limit_of max_steps flow) ctx flow _ current 1 t w1 status reason t1 w2 f in
      let end = finish-Finished flow _ status reason t1 w2 result w' h6 in
      let (ms, more) = grew.ledger in
      let (es, last, ledger, kind, statuses, reasons) = end.events in
      let none_yet : t.step_record_refs ≡ [] = ap (λ (u : Trace). u.step_record_refs) same in
      (
        omega (arith, grew.records, end.counted, ap length none_yet),
        _,
        ms ++ es,
        last,
        joined t.ledger t1.ledger result.ledger _ last ms es (ap (λ (u : Trace). u.ledger) same)
            more ledger,
        refl,
        kind,
        statuses,
        reasons,
      )
