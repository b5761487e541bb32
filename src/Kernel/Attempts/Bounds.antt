-- ===== src/Kernel/Attempts/Bounds.antt =====
-- How often `_run_piworker_with_failure_policy` of src/missionforge/kernel/runner.py tries, and why it
-- stops.
use missionforge.Common.{
  ℕ, zero, suc, ◌+◌, ◌≤◌, ◌<◌, ◌≡◌, refl, sym, ap, subst, ◌∙◌, ◌⊎◌, inl, inr, arith, true, false,
  Bool-cases, none, some, List, [], ◌∷◌, ◌++◌, length,
}
use mathlib.Core.List.{append_assoc}
use missionforge.Text.{Text, codes, text_eq}
use missionforge.Text.Equality.{text_eq_sound}
use missionforge.Outcome.{Outcome, ok, ◌>>=◌, >>=-eq-ok, ok_injective}
use missionforge.Platform.{Platform}
use missionforge.PiWorker.Call.{PiWorkerCall}
use missionforge.PiWorker.Result.{PiWorkerCallResult, validate_against_call}
use missionforge.Kernel.Compile.{StepCompileContext}
use missionforge.Kernel.Compile.Compiled.{CompiledStep}
use missionforge.Kernel.Attempts.{
  Host, attempt, attempt_ref, AttemptResult, Attempted, is_last, attempts, normalize_attempt_result,
  renamed_result, required_result, run_piworker_with_failure_policy,
}

-- The refs of `count` attempts from `index` on.
abbrev pub refs_from : (ℕ → Text) → ℕ → ℕ → List Text
refs_from ref index zero = []
refs_from ref index (suc count) = ref index ∷ refs_from ref (suc index) count

module _ (py : Platform) {W : Type 0} (try : ℕ → W → Outcome (PiWorkerCallResult × W)) where
  -- Attempts that were made one after the other from `index` on, each in the workspace that the one
  -- before left, with their results; none but the last one ended the loop.
  pub data Tried : ℕ → W → List PiWorkerCallResult → PiWorkerCallResult → W → Type 0 where
    last_try :
        (index : ℕ) (w : W) (r : PiWorkerCallResult) (w' : W)
        → try index w ≡ ok (r, w')
        → Tried index w (r ∷ []) r w'
    then_try :
        (index : ℕ) (w : W) (r final : PiWorkerCallResult) (w' after : W)
        (rs : List PiWorkerCallResult)
        → try index w ≡ ok (r, w')
        → is_last py r ≡ false
        → Tried (suc index) w' rs final after
        → Tried index w (r ∷ rs) final after

module _ (py : Platform) {W : Type 0} (try : ℕ → W → Outcome (PiWorkerCallResult × W))
    (call_ref result_ref : ℕ → Text) where
  -- The loop made at most `allowed` attempts; it used them all, or the last result ends it.
  pub record Ran (allowed index : ℕ) (before after : Attempted W) : Type 0 where
    pub made : List PiWorkerCallResult
    pub final : PiWorkerCallResult
    pub tried : Tried py try index before.workspace made final after.workspace
    pub some_made : 1 ≤ length made
    pub most : length made ≤ allowed
    pub calls : after.call_refs ≡ before.call_refs ++ refs_from call_ref index (length made)
    pub results : after.result_refs ≡ before.result_refs ++ refs_from result_ref index (length made)
    pub is_final : after.final_result ≡ some final
    pub why : (length made ≡ allowed) ⊎ (is_last py final ≡ true)

  abbrev next_of : ℕ → Attempted W → PiWorkerCallResult × W → Attempted W
  next_of index t done = record {
    final_result = some done.0;
    call_refs = t.call_refs ++ call_ref index ∷ [];
    result_refs = t.result_refs ++ result_ref index ∷ [];
    workspace = done.1;
  }

  once :
      (allowed index : ℕ) (t : Attempted W) (done : PiWorkerCallResult × W)
      → try index t.workspace ≡ ok done
      → 1 ≤ allowed
      → (1 ≡ allowed) ⊎ (is_last py done.0 ≡ true)
      → Ran allowed index t (next_of index t done)
  once allowed index t (r, w) tried h why = record {
    made = r ∷ [];
    final = r;
    tried = last_try index t.workspace r w tried;
    some_made = omega arith;
    most = h;
    calls = refl;
    results = refl;
    is_final = refl;
    why = why;
  }

  again :
      (allowed index : ℕ) (t after : Attempted W) (done : PiWorkerCallResult × W)
      → try index t.workspace ≡ ok done
      → is_last py done.0 ≡ false
      → Ran allowed (suc index) (next_of index t done) after
      → Ran (suc allowed) index t after
  again allowed index t after (r, w) tried goes_on ran = record {
    made = r ∷ ran.made;
    final = ran.final;
    tried =
        then_try index t.workspace r ran.final w after.workspace ran.made tried goes_on ran.tried;
    some_made = omega arith;
    most = omega (arith, ran.most);
    calls = ran.calls ∙ append_assoc t.call_refs (call_ref index ∷ []) _;
    results = ran.results ∙ append_assoc t.result_refs (result_ref index ∷ []) _;
    is_final = ran.is_final;
    why = elim ran.why [ inl e ↦ inl (ap suc e) | inr l ↦ inr l ];
  }

  ended-Ran :
      (left index : ℕ) (t after : Attempted W) (done : PiWorkerCallResult × W)
      → try index t.workspace ≡ ok done
      → is_last py done.0 ≡ true
      → ok (next_of index t done) ≡ ok after
      → Ran (suc left) index t after
  ended-Ran left index t after done e y h =
      subst (λ a. Ran (suc left) index t a) (ok_injective h)
        (once (suc left) index t done e (omega arith) (inr y))

  -- However the attempts go, the loop makes between one and `suc left` of them, and stops early only
  -- after a result that ends it.
  pub attempts-Ran :
      (left index : ℕ) (t after : Attempted W)
      → attempts py try call_ref result_ref (suc left) index t ≡ ok after
      → Ran (suc left) index t after
  unfolding attempts
  attempts-Ran zero index t after h =
      let (done, e, f) = >>=-eq-ok (try index t.workspace) _ h in
      elim (Bool-cases (is_last py done.0)) [
        | inl y ↦ ended-Ran zero index t after done e y (rw y at f)
        | inr n ↦
            subst (λ a. Ran 1 index t a) (ok_injective (rw n at f))
              (once 1 index t done e (omega arith) (inl refl))
      ]
  attempts-Ran (suc left) index t after h =
      let (done, e, f) = >>=-eq-ok (try index t.workspace) _ h in
      elim (Bool-cases (is_last py done.0)) [
        | inl y ↦ ended-Ran (suc left) index t after done e y (rw y at f)
        | inr n ↦
            again (suc left) index t after done e n
              (attempts-Ran left (suc index) (next_of index t done) after (rw n at f))
      ]

  -- If every attempt returns, the loop does.
  pub attempts_total :
      (left index : ℕ) (t : Attempted W)
      → ((i : ℕ) (w : W) → (done : PiWorkerCallResult × W) × (try i w ≡ ok done))
      → (after : Attempted W) × (attempts py try call_ref result_ref left index t ≡ ok after)
  unfolding attempts
  attempts_total zero index t total = (t, refl)
  attempts_total (suc left) index t total =
      let (done, e) = total index t.workspace in
      let (after, f) = attempts_total left (suc index) (next_of index t done) total in
      elim (Bool-cases (is_last py done.0)) [
        | inl y ↦ (next_of index t done, rw (e, y) refl)
        | inr n ↦ (after, rw (e, n) f)
      ]

normalize-call_id :
    (py : Platform) (r out : PiWorkerCallResult) (call : PiWorkerCall) (refs : List Text)
    → normalize_attempt_result py r call refs ≡ ok out
    → (out.call_id ≡ call.call_id) × (out.status ≡ r.status)
unfolding normalize_attempt_result
normalize-call_id py r out call refs h = elim (Bool-cases (text_eq r.call_id call.call_id)) [
  | inl y ↦
      let g : ok r ≡ ok out = rw y at h in
      let same : r ≡ out = ok_injective g in
      (
        ap (λ (x : PiWorkerCallResult). x.call_id) (sym same)
            ∙ text_eq_sound r.call_id call.call_id y,
        ap (λ (x : PiWorkerCallResult). x.status) (sym same),
      )
  | inr n ↦
      let g : (validate_against_call py (renamed_result r call refs) call >>= λ _.
      ok (renamed_result r call refs))
          ≡ ok out =
        rw n at h in
      let (u, e, f) =
        >>=-eq-ok (validate_against_call py (renamed_result r call refs) call)
          (λ _. ok (renamed_result r call refs)) g in
      let same : renamed_result r call refs ≡ out = ok_injective f in
      (
        ap (λ (x : PiWorkerCallResult). x.call_id) (sym same),
        ap (λ (x : PiWorkerCallResult). x.status) (sym same),
      )
]

-- One attempt at a step, and its refs.
abbrev pub attempt_at :
    Platform
    → (host : Host) → CompiledStep
    → StepCompileContext
    → Text
    → Text
    → ℕ
    → host.Workspace
    → Outcome (PiWorkerCallResult × host.Workspace)
attempt_at py host compiled c prefix record_ref index w =
    attempt py host compiled c prefix record_ref index (suc compiled.step.failure.retries) w

abbrev pub call_ref_of : Text → ℕ → Text
call_ref_of prefix index = attempt_ref prefix index (codes "/piworker_call.json")

abbrev pub result_ref_of : Text → ℕ → Text
result_ref_of prefix index = attempt_ref prefix index (codes "/piworker_call_result.json")

-- The attempts at a step: their results, their refs, what is returned, and why they ended.
pub record Kept (py : Platform) (host : Host) (compiled : CompiledStep) (c : StepCompileContext)
    (prefix record_ref : Text) (w w' : host.Workspace) (out : AttemptResult) : Type 0 where
  pub made : List PiWorkerCallResult
  pub final : PiWorkerCallResult
  pub tried : Tried py (attempt_at py host compiled c prefix record_ref) 1 w made final w'
  pub most : length made ≤ suc compiled.step.failure.retries
  pub calls : out.attempt_call_refs ≡ refs_from (call_ref_of prefix) 1 (length made)
  pub results : out.attempt_result_refs ≡ refs_from (result_ref_of prefix) 1 (length made)
  pub returned :
      normalize_attempt_result py final compiled.piworker_call out.attempt_result_refs
      ≡ ok out.call_result
  pub own_call : out.call_result.call_id ≡ compiled.piworker_call.call_id
  pub same_status : out.call_result.status ≡ final.status
  pub why : (length made ≡ suc compiled.step.failure.retries) ⊎ (is_last py final ≡ true)

-- What the failure policy returns is the last of the attempts that it made, under the name of the
-- step's own call: attempts numbered from 1, each in the workspace that the one before left, at most
-- one more than the retries, with a call ref and a result ref each; after every attempt but the last
-- one it had to go on, and it stopped before the limit only on a result that was completed or not worth
-- another attempt.
pub policy-Kept :
    (py : Platform) (host : Host) (compiled : CompiledStep) (c : StepCompileContext)
    (prefix record_ref : Text) (w w' : host.Workspace) (out : AttemptResult)
    → run_piworker_with_failure_policy py host compiled c prefix record_ref w ≡ ok (out, w')
    → Kept py host compiled c prefix record_ref w w' out
unfolding run_piworker_with_failure_policy
policy-Kept py host compiled c prefix record_ref w w' out h =
    let retries : ℕ = compiled.step.failure.retries in
    let start : Attempted host.Workspace = record {
      final_result = none;
      call_refs = [];
      result_refs = [];
      workspace = w;
    } in
    let try = attempt_at py host compiled c prefix record_ref in
    let (t, e1, h1) =
      >>=-eq-ok (attempts py try (call_ref_of prefix) (result_ref_of prefix) (suc retries) 1 start)
        _ h in
    let (final, e2, h2) = >>=-eq-ok (required_result t.final_result) _ h1 in
    let (result, e3, h3) =
      >>=-eq-ok (normalize_attempt_result py final compiled.piworker_call t.result_refs) _ h2 in
    let ran =
      attempts-Ran py try (call_ref_of prefix) (result_ref_of prefix) retries 1 start t e1 in
    let same : final ≡ ran.final = ok_injective (sym e2 ∙ ap required_result ran.is_final) in
    let (own, status) = normalize-call_id py final result compiled.piworker_call t.result_refs e3 in
    let built : AttemptResult × host.Workspace = (
      record {
        call_result = result;
        attempt_call_refs = t.call_refs;
        attempt_result_refs = t.result_refs;
      },
      t.workspace,
    ) in
    let made : Kept py host compiled c prefix record_ref w built.1 built.0 = record {
      made = ran.made;
      final = ran.final;
      tried = ran.tried;
      most = ran.most;
      calls = ran.calls;
      results = ran.results;
      returned =
          subst
            (λ r. normalize_attempt_result py r compiled.piworker_call t.result_refs ≡ ok result)
            same e3;
      own_call = own;
      same_status = status ∙ ap (λ (r : PiWorkerCallResult). r.status) same;
      why = ran.why;
    } in
    subst
      (λ (x : AttemptResult × host.Workspace). Kept py host compiled c prefix record_ref w x.1 x.0)
      (ok_injective h3) made

-- If every attempt returns and one of those allowed is known to end the loop when it is reached, then
-- the loop returns, and it ends on a result after which no attempt follows.
pub attempts_complete :
    (py : Platform) {W : Type 0} (try : ℕ → W → Outcome (PiWorkerCallResult × W))
    (call_ref result_ref : ℕ → Text) (left k index : ℕ) (t : Attempted W)
    → k < left
    → ((i : ℕ) (w : W) → (done : PiWorkerCallResult × W) × (try i w ≡ ok done))
    → ((w : W) (done : PiWorkerCallResult × W)
        → try (k + index) w ≡ ok done
        → is_last py done.0 ≡ true)
    → (after : Attempted W) × (r : PiWorkerCallResult) × (attempts py try call_ref result_ref left
          index t
        ≡ ok after)
      × (after.final_result ≡ some r)
      × (is_last py r ≡ true)
unfolding attempts
attempts_complete py try call_ref result_ref zero k index t h total ends = elim h [ ]
attempts_complete py try call_ref result_ref (suc left) zero index t h total ends =
    let (done, e) = total index t.workspace in
    let last = ends t.workspace done (subst (λ i. try i t.workspace ≡ ok done) (omega arith) e) in
    (next_of py try call_ref result_ref index t done, done.0, rw (e, last) refl, refl, last)
attempts_complete py try call_ref result_ref (suc left) (suc k) index t h total ends =
    let (done, e) = total index t.workspace in
    let next = next_of py try call_ref result_ref index t done in
    let (after, r, f, g, l) =
      attempts_complete py try call_ref result_ref left k (suc index) next (omega arith) total
        (λ w d q. ends w d (subst (λ i. try i w ≡ ok d) (omega arith) q)) in
    elim (Bool-cases (is_last py done.0)) [
      | inl y ↦ (next, done.0, rw (e, y) refl, refl, y)
      | inr n ↦ (after, r, rw (e, n) f, g, l)
    ]
