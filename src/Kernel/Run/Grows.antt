-- ===== src/Kernel/Run/Grows.antt =====
-- The trace of a flow only grows: events are added behind the others, and a round runs at most one
-- step.
use mathlib.Core.List.{append-nil, append_assoc}
use missionforge.Common.{
  ℕ, ◌+◌, ◌≤◌, ◌≡◌, refl, sym, ap, ◌∙◌, subst, Option, none, some, List, [], ◌∷◌, ◌++◌, length,
  length-append, arith, if-post,
}
use missionforge.Text.{Text, codes}
use missionforge.Outcome.{
  Outcome, ok, raise, ◌>>=◌, >>=-eq-ok, ok_injective, key_error, type_error, contract_validation,
  kernel_validation, os_error, json_decode_error,
}
use missionforge.Kernel.Contracts.{Step}
use missionforge.Kernel.Declaration.{Flow, Target, to_step, flow_stop, find_step}
use missionforge.Kernel.Route.{dedupe_refs}
use missionforge.Kernel.Ledger.{FlowLedgerEvent, validate_event, UserEvent}
use missionforge.Kernel.Flow.{
  Env, Context, Trace, Next, halt, go, StepReport, append_event, routed_event, enter, follow,
  route_on_value, route, acknowledge, finished, record_step, perform,
}

-- `t'` has the events of `t` and more, and the records of at most `n` more steps.
pub record Grew (n : ℕ) (t t' : Trace) : Type 0 where
  pub records : length t'.step_record_refs ≤ length t.step_record_refs + n
  pub ledger : (es : List FlowLedgerEvent) × (t'.ledger ≡ t.ledger ++ es)

pub Grew-refl : (n : ℕ) (t : Trace) → Grew n t t
Grew-refl n t = record { records = omega arith; ledger = ([], sym (append-nil t.ledger)) }

pub Grew-trans : (n m : ℕ) (t u v : Trace) → Grew n t u → Grew m u v → Grew (n + m) t v
Grew-trans n m t u v g h =
    let (es, e) = g.ledger in
    let (fs, f) = h.ledger in
    record {
      records = omega (arith, g.records, h.records);
      ledger = (es ++ fs, f ∙ ap (λ l. l ++ fs) e ∙ append_assoc t.ledger es fs);
    }

pub Grew-weaken : (n m : ℕ) (t u : Trace) → n ≤ m → Grew n t u → Grew m t u
Grew-weaken n m t u h g = record { records = omega (arith, g.records); ledger = g.ledger }

abbrev pub trace_of : Next → Trace
trace_of (halt status reason t) = t
trace_of (go step t) = t

module _ {W : Type 0} (env : Env W) where
  -- What `append_event` adds: the event with its refs deduplicated.
  pub append_lem :
      (e : FlowLedgerEvent) (t t' : Trace) (w w' : W)
      → append_event env e t w ≡ ok (t', w')
      → (refs : List Text) × (t' ≡ record t { ledger = t.ledger ++ record e { refs = refs } ∷ [] })
  unfolding append_event
  append_lem e t t' w w' h =
      let (refs, a, h1) = >>=-eq-ok (dedupe_refs e.refs) _ h in
      let (u, b, h2) = >>=-eq-ok (validate_event (record e { refs = refs })) _ h1 in
      (refs, sym (ap (λ (p : Trace × W). p.0) (ok_injective h2)))

  pub append-Grew :
      (e : FlowLedgerEvent) (t t' : Trace) (w w' : W)
      → append_event env e t w ≡ ok (t', w')
      → Grew 0 t t'
  append-Grew e t t' w w' h =
      let (refs, same) = append_lem e t t' w w' h in
      subst (Grew 0 t) (sym same)
        (record { records = omega arith; ledger = (record e { refs = refs } ∷ [], refl) })

  -- A round that ends with an event on the trace.
  pub append_then :
      (e : FlowLedgerEvent) (next : Trace → Next) (t : Trace) (w : W) (n : Next) (w' : W)
      → ((u : Trace) → trace_of (next u) ≡ u)
      → (append_event env e t w >>= λ (p : Trace × W). let r : Next × W = (next p.0, p.1) in ok r)
        ≡ ok (n, w')
      → Grew 0 t (trace_of n)
  append_then e next t w n w' same h =
      let ((t1, w1), a, f) = >>=-eq-ok (append_event env e t w) _ h in
      subst (Grew 0 t) (sym (same t1) ∙ ap (λ (p : Next × W). trace_of p.0) (ok_injective f))
        (append-Grew e t t1 w w1 a)

  enter-Grew :
      (s : Option Step) (t : Trace) (w : W) (n : Next) (w' : W)
      → enter env s t w ≡ ok (n, w')
      → trace_of n ≡ t
  enter-Grew none t w n w' h = cc
  enter-Grew (some s) t w n w' h = sym (ap (λ (p : Next × W). trace_of p.0) (ok_injective h))

  follow-Grew :
      (flow : Flow) (current : Step) (on value : Text) (target : Option Target) (t : Trace) (w : W)
      (n : Next) (w' : W)
      → follow env flow current on value target t w ≡ ok (n, w')
      → Grew 0 t (trace_of n)
  unfolding routed_event
  follow-Grew flow current on value none t w n w' h =
      append_then _ (halt (codes "blocked") (codes "unrouted_decision")) t w n w' (λ u. refl) h
  follow-Grew flow current on value (some (flow_stop status)) t w n w' h =
      append_then _ (halt status (codes "terminal_route")) t w n w' (λ u. refl) h
  follow-Grew flow current on value (some (to_step target)) t w n w' h =
      let ((t1, w1), a, f) =
        >>=-eq-ok (routed_event env current on (codes "running") value target t w) _ h in
      subst (Grew 0 t) (sym (enter-Grew (find_step target flow.steps) t1 w1 n w' f))
        (append-Grew _ t t1 w w1 a)

  route_on_value-Grew :
      (flow : Flow) (current : Step) (on : Text) (v : Outcome Text) (t : Trace) (w : W) (n : Next)
      (w' : W)
      → route_on_value env flow current on v t w ≡ ok (n, w')
      → Grew 0 t (trace_of n)
  unfolding routed_event
  route_on_value-Grew flow current on (ok value) t w n w' h =
      follow-Grew flow current on value _ t w n w' h
  route_on_value-Grew flow current on (raise key_error) t w n w' h = absurd (cc)
  route_on_value-Grew flow current on (raise type_error) t w n w' h = absurd (cc)
  route_on_value-Grew flow current on (raise (contract_validation x)) t w n w' h =
      append_then _ (halt (codes "blocked") (codes "invalid_decision_artifact")) t w n w'
        (λ u. refl) h
  route_on_value-Grew flow current on (raise (kernel_validation x)) t w n w' h =
      append_then _ (halt (codes "blocked") (codes "invalid_decision_artifact")) t w n w'
        (λ u. refl) h
  route_on_value-Grew flow current on (raise os_error) t w n w' h =
      append_then _ (halt (codes "blocked") (codes "invalid_decision_artifact")) t w n w'
        (λ u. refl) h
  route_on_value-Grew flow current on (raise json_decode_error) t w n w' h =
      append_then _ (halt (codes "blocked") (codes "invalid_decision_artifact")) t w n w'
        (λ u. refl) h

  route-Grew :
      (flow : Flow) (current : Step) (on : Option Text) (t : Trace) (w : W) (n : Next) (w' : W)
      → route env flow current on t w ≡ ok (n, w')
      → Grew 0 t (trace_of n)
  route-Grew flow current none t w n w' h =
      subst (Grew 0 t) (ap (λ (p : Next × W). trace_of p.0) (ok_injective h)) (Grew-refl 0 t)
  route-Grew flow current (some on) t w n w' h =
      let g = route_on_value-Grew flow current on _ _ w n w' h in
      record { records = g.records; ledger = g.ledger }

  record_step-Grew :
      (ctx : Context) (current executable : Step) (index : ℕ) (t : Trace) (w : W) (r : StepReport)
      (t' : Trace) (w' : W)
      → record_step env ctx current executable index t w ≡ ok (r, t', w')
      → Grew 1 t t'
  unfolding record_step
  record_step-Grew ctx current executable index t w r t' w' h =
      let ((report, w1), a, f) = >>=-eq-ok (env.run_step executable _ _ w) _ h in
      let ((t2, w2), b, g) = >>=-eq-ok (append_event env _ _ w1) _ f in
      let grew = append-Grew _ _ t2 w1 w2 b in
      subst (Grew 1 t) (ap (λ (p : StepReport × Trace × W). p.1) (ok_injective g)) (record {
        records =
            omega
              (arith, grew.records, length-append t.step_record_refs (report.step_record_ref ∷ []));
        ledger = grew.ledger;
      })

  pub perform-Grew :
      (ctx : Context) (flow : Flow) (current executable : Step) (index : ℕ) (snapshot : Text)
      (events : List UserEvent) (t : Trace) (w : W) (n : Next) (w' : W)
      → perform env ctx flow current executable index snapshot events t w ≡ ok (n, w')
      → Grew 1 t (trace_of n)
  unfolding perform
  perform-Grew ctx flow current executable index snapshot events t w n w' h =
      let ((report, t1, w1), a, f) =
        >>=-eq-ok (record_step env ctx current executable index t w) _ h in
      let grew = record_step-Grew ctx current executable index t w report t1 w1 a in
      if-post (finished env report.status) _ _ _ f
        (λ done.
          let (w2, b, g) =
            >>=-eq-ok (acknowledge env env.port events _ snapshot report.step_record_ref w1) _
              done in
          Grew-trans 1 0 t t1 (trace_of n) grew
            (route-Grew flow current current.route_on t1 w2 n w' g))
        (λ over. subst (Grew 1 t) (ap (λ (p : Next × W). trace_of p.0) (ok_injective over)) grew)
