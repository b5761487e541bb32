-- ===== src/DecisionLedger/Sequence.antt =====
-- The ledgers that `_validate_ledger_sequence` of src/missionforge/decision_ledger.py accepts, as the
-- paths of a transition system whose state is the contract hash in force.
use missionforge.Common.{
  ◌≡◌, ◌≢◌, refl, sym, subst, ◌↔◌, Bool, true, false, not, inl, inr, Bool-cases, List, [], ◌∷◌,
  ◌++◌,
}
use missionforge.Text.{Text, codes, text_eq}
use missionforge.Text.Equality.{text_eq_iff, text_eq_sound}
use missionforge.Outcome.{ok, refuse_if, mismatch, >>=-eq-ok, refuse_if-eq-ok, ok_injective}
use missionforge.DecisionLedger.{TaskContractDecisionLedgerEntry, required_ref}
use missionforge.DecisionLedger.Replay.{
  is_revision, check_revision, check_same, check_entry, check_entries, validate_ledger_sequence,
  last_of,
}

abbrev Entry : Type 0
Entry = TaskContractDecisionLedgerEntry

abbrev pub HasRef : Entry → Text → Type 0
HasRef e key = (ref : Text) × (required_ref e.ref_map key ≡ ok ref)

-- An entry of the run and the contract of `first`, when the contract hash `current` is in force: only
-- an applied revision changes the hash, and it says which one it is.
pub data Step (first : Entry) (current : Text) (e : Entry) : Text → Type 0 where
  keeps :
      e.run_id ≡ first.run_id
      → e.contract_id ≡ first.contract_id
      → e.contract_hash ≡ current
      → is_revision e.event_kind ≡ false
      → Step first current e current
  revises :
      e.run_id ≡ first.run_id
      → e.contract_id ≡ first.contract_id
      → e.contract_hash ≢ current
      → is_revision e.event_kind ≡ true
      → HasRef e (codes "revision_applied_ref")
      → HasRef e (codes "task_contract_revision_ref")
      → Step first current e e.contract_hash

pub data Steps (first : Entry) : Text → List Entry → Text → Type 0 where
  done : (current : Text) → Steps first current [] current
  step_on :
      {current next final : Text} {e : Entry} {es : List Entry}
      → Step first current e next
      → Steps first next es final
      → Steps first current (e ∷ es) final

not-false : (b : Bool) → not b ≡ false → b ≡ true
not-false true h = refl
not-false false h = cc

revision-Step :
    (first : Entry) (current : Text) (e : Entry) (next : Text)
    → e.run_id ≡ first.run_id
    → e.contract_id ≡ first.contract_id
    → text_eq e.contract_hash current ≡ false
    → check_revision e ≡ ok next
    → Step first current e next
unfolding check_revision
revision-Step first current e next r c n h =
    let (u, e1, h1) = >>=-eq-ok (refuse_if (not (is_revision e.event_kind)) mismatch) _ h in
    let (x, e2, h2) = >>=-eq-ok (required_ref e.ref_map (codes "revision_applied_ref")) _ h1 in
    let (y, e3, h3) =
      >>=-eq-ok (required_ref e.ref_map (codes "task_contract_revision_ref")) _ h2 in
    let differs : e.contract_hash ≢ current = λ q.
      let t : text_eq e.contract_hash current ≡ true = (text_eq_iff e.contract_hash current).1 q in
      cc in
    subst (λ t. Step first current e t) (ok_injective h3)
      (revises r c differs
        (not-false (is_revision e.event_kind)
          (refuse_if-eq-ok (not (is_revision e.event_kind)) mismatch e1))
        (x, e2) (y, e3))

same-Step :
    (first : Entry) (current : Text) (e : Entry) (next : Text)
    → e.run_id ≡ first.run_id
    → e.contract_id ≡ first.contract_id
    → text_eq e.contract_hash current ≡ true
    → check_same e current ≡ ok next
    → Step first current e next
same-Step first current e next r c y h =
    let (u, e1, h1) = >>=-eq-ok (refuse_if (is_revision e.event_kind) mismatch) _ h in
    subst (λ t. Step first current e t) (ok_injective h1)
      (keeps r c (text_eq_sound e.contract_hash current y)
        (refuse_if-eq-ok (is_revision e.event_kind) mismatch e1))

check_entry-Step :
    (first : Entry) (current : Text) (e : Entry) (next : Text)
    → check_entry first current e ≡ ok next
    → Step first current e next
unfolding check_entry
check_entry-Step first current e next h =
    let (u, e1, h1) = >>=-eq-ok (refuse_if (not (text_eq e.run_id first.run_id)) mismatch) _ h in
    let (v, e2, h2) =
      >>=-eq-ok (refuse_if (not (text_eq e.contract_id first.contract_id)) mismatch) _ h1 in
    let r : e.run_id ≡ first.run_id = text_eq_sound e.run_id first.run_id (
      not-false (text_eq e.run_id first.run_id)
        (refuse_if-eq-ok (not (text_eq e.run_id first.run_id)) mismatch e1)) in
    let c : e.contract_id ≡ first.contract_id = text_eq_sound e.contract_id first.contract_id (
      not-false (text_eq e.contract_id first.contract_id)
        (refuse_if-eq-ok (not (text_eq e.contract_id first.contract_id)) mismatch e2)) in
    elim (Bool-cases (text_eq e.contract_hash current)) [
      | inl y ↦ same-Step first current e next r c y (rw y at h2)
      | inr n ↦ revision-Step first current e next r c n (rw n at h2)
    ]

refuse_if-false : (b : Bool) → b ≡ true → refuse_if (not b) mismatch ≡ ok tt
refuse_if-false true h = refl
refuse_if-false false h = cc

differs-false : (s t : Text) → s ≢ t → text_eq s t ≡ false
differs-false s t n = elim (Bool-cases (text_eq s t)) [
  | inl y ↦ absurd (n (text_eq_sound s t y))
  | inr f ↦ f
]

Step-check_entry :
    (first : Entry) (current : Text) (e : Entry) (next : Text)
    → Step first current e next
    → check_entry first current e ≡ ok next
unfolding check_entry check_revision
Step-check_entry first current e next (keeps r c h k) =
    rw
      (
        (text_eq_iff e.run_id first.run_id).1 r,
        (text_eq_iff e.contract_id first.contract_id).1 c,
        (text_eq_iff e.contract_hash current).1 h,
        k,
      )
      refl
Step-check_entry first current e next (revises r c n k (x, p) (y, q)) =
    rw
      (
        (text_eq_iff e.run_id first.run_id).1 r,
        (text_eq_iff e.contract_id first.contract_id).1 c,
        differs-false e.contract_hash current n,
        k,
        p,
        q,
      )
      refl

Steps-of_check :
    (first : Entry) (current : Text) (es : List Entry)
    → check_entries first current es ≡ ok tt
    → (final : Text) × Steps first current es final
unfolding check_entries
Steps-of_check first current [] h = (current, done current)
Steps-of_check first current (e ∷ es) h =
    let (next, step, h1) =
      >>=-eq-ok (check_entry first current e) (λ n. check_entries first n es) h in
    let (final, steps) = Steps-of_check first next es h1 in
    (final, step_on (check_entry-Step first current e next step) steps)

check_of_Steps :
    (first : Entry) (current final : Text) (es : List Entry)
    → Steps first current es final
    → check_entries first current es ≡ ok tt
unfolding check_entries
check_of_Steps first current final [] steps = refl
check_of_Steps first current final (e ∷ es) (step_on {next = next} step steps) =
    rw (Step-check_entry first current e next step) (check_of_Steps first next final es steps)

-- `_validate_ledger_sequence` accepts exactly the entries that are steps of one run under one contract,
-- from the contract hash of the first entry on.
pub validate_sequence_iff :
    (first : Entry) (rest : List Entry)
    → (validate_ledger_sequence first rest ≡ ok tt)
      ↔ ((final : Text) × Steps first first.contract_hash (first ∷ rest) final)
unfolding validate_ledger_sequence
validate_sequence_iff first rest = (
  Steps-of_check first first.contract_hash (first ∷ rest),
  λ s. check_of_Steps first first.contract_hash s.0 (first ∷ rest) s.1,
)

Step-hash :
    (first : Entry) (current : Text) (e : Entry) (next : Text)
    → Step first current e next
    → next ≡ e.contract_hash
Step-hash first current e next (keeps r c h k) = sym h
Step-hash first current e next (revises r c n k x y) = refl

pub Steps-last :
    (first : Entry) (current final : Text) (e : Entry) (es : List Entry)
    → Steps first current (e ∷ es) final
    → final ≡ (last_of e es).contract_hash
Steps-last first current final e [] (step_on {next = next} step (done _)) =
    Step-hash first current e next step
Steps-last first current final e (f ∷ es) (step_on {next = next} step steps) =
    Steps-last first next final f es steps

Steps-snoc :
    (first : Entry) (current middle final : Text) (es : List Entry) (e : Entry)
    → Steps first current es middle
    → Step first middle e final
    → Steps first current (es ++ e ∷ []) final
Steps-snoc first current middle final [] e (done _) step = step_on step (done final)
Steps-snoc first current middle final (f ∷ es) e (step_on {next = next} s steps) step =
    step_on s (Steps-snoc first next middle final es e steps step)

Steps-unsnoc :
    (first : Entry) (current final : Text) (es : List Entry) (e : Entry)
    → Steps first current (es ++ e ∷ []) final
    → (middle : Text) × Steps first current es middle × Step first middle e final
Steps-unsnoc first current final [] e (step_on step (done _)) = (current, done current, step)
Steps-unsnoc first current final (f ∷ es) e (step_on {next = next} s steps) =
    let (middle, before, step) = Steps-unsnoc first next final es e steps in
    (middle, step_on s before, step)

-- A ledger with one more entry is accepted exactly when it was accepted before and the new entry is a
-- step from the contract hash of the last one.
pub validate_sequence-snoc :
    (first : Entry) (rest : List Entry) (e : Entry)
    → (validate_ledger_sequence first (rest ++ e ∷ []) ≡ ok tt) ↔ (
        (validate_ledger_sequence first rest ≡ ok tt)
        × ((next : Text) × Step first (last_of first rest).contract_hash e next))
validate_sequence-snoc first rest e = (
  λ h.
      let (final, steps) = (validate_sequence_iff first (rest ++ e ∷ [])).0 h in
      let (middle, before, step) =
        Steps-unsnoc first first.contract_hash final (first ∷ rest) e steps in
      (
        (validate_sequence_iff first rest).1 (middle, before),
        (
          final,
          subst (λ m. Step first m e final)
              (Steps-last first first.contract_hash middle first rest before) step,
        ),
      ),
  λ p.
      let (valid, (next, step)) = p in
      let (middle, before) = (validate_sequence_iff first rest).0 valid in
      let here =
        subst (λ m. Step first m e next)
          (sym (Steps-last first first.contract_hash middle first rest before)) step in
      (validate_sequence_iff first (rest ++ e ∷ [])).1
        (next, Steps-snoc first first.contract_hash middle next (first ∷ rest) e before here),
)

Step-same :
    (first : Entry) (current : Text) (e : Entry) (next : Text)
    → Step first current e next
    → (e.run_id ≡ first.run_id) × (e.contract_id ≡ first.contract_id)
Step-same first current e next (keeps r c h k) = (r, c)
Step-same first current e next (revises r c n k x y) = (r, c)

pub Steps-same :
    (first : Entry) (current final : Text) (e : Entry) (es : List Entry)
    → Steps first current (e ∷ es) final
    → ((last_of e es).run_id ≡ first.run_id) × ((last_of e es).contract_id ≡ first.contract_id)
Steps-same first current final e [] (step_on {next = next} step (done _)) =
    Step-same first current e next step
Steps-same first current final e (f ∷ es) (step_on {next = next} step steps) =
    Steps-same first next final f es steps
