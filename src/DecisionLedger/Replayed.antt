-- ===== src/DecisionLedger/Replayed.antt =====
-- What a summary of `replay_decision_ledger` of src/missionforge/decision_ledger.py says is what the
-- ledger's entries say.
use missionforge.Common.{
  arith, ◌≡◌, refl, sym, ap, subst, ◌∙◌, ◌⊎◌, inl, inr, true, Bool-cases, Option, none, some, List,
  [], ◌∷◌,
}
use missionforge.Text.{Text, codes, text_eq, strip}
use missionforge.Text.Equality.{text_eq_sound}
use missionforge.Outcome.{ok, ◌>>=◌, >>=-eq-ok, ok_injective}
use missionforge.Platform.{Platform}
use missionforge.Value.{text}
use missionforge.Contracts.{validate_ref}
use missionforge.Contracts.Refs.{validate_ref_iff, validate_ref_idem}
use missionforge.Jsonl.{Codec, Root, resolve_ref}
use missionforge.Jsonl.Paths.{resolve_ref-same}
use missionforge.DecisionLedger.{
  TaskContractDecisionLedgerEntry, required_ref, optional_ref_from_map, DecisionLedgerEventKind,
  contract_frozen, projection_written, execution_packet_issued, execution_report_recorded,
  hard_checks_recorded, judge_packet_issued, judge_report_recorded, repair_requested,
  repair_execution_recorded, revision_requested, revision_draft_recorded, revision_applied,
  revision_judge_report_recorded, final_package_emitted,
}
use missionforge.DecisionLedger.Package.{FinalPackage}
use missionforge.DecisionLedger.Summary.{
  RunReplayStatus, accepted, repair, revision_required, rejected, blocked, RunReplaySummary,
}
use missionforge.DecisionLedger.Replay.{
  validate_ledger_sequence, status_of_verdict, status_from_tail, read_ledger_entries, is_final,
  read_package, read_tail, last_of, summary_of, summarize_latest, summarize, replay_decision_ledger,
}
use missionforge.DecisionLedger.Sequence.{Steps, validate_sequence_iff, Steps-last, Steps-same}

abbrev pub Entry : Type 0
Entry = TaskContractDecisionLedgerEntry

-- The entry and the parts of the summary that were read from it.
abbrev pub IsSummary : Platform → Codec → Root → Text → Entry → RunReplaySummary → Type 0
IsSummary py json root ref latest s =
    (tail : Option Text × List Text × RunReplayStatus) × (judge repair revision : Option Text)
    × (read_tail py json root latest ≡ ok tail)
    × (s ≡ summary_of latest ref tail judge repair revision)

summarize_latest-IsSummary :
    (py : Platform) (json : Codec) (root : Root) (ref : Text) (latest : Entry)
    (s : RunReplaySummary)
    → summarize_latest py json root ref latest ≡ ok s
    → IsSummary py json root ref latest s
unfolding summarize_latest
summarize_latest-IsSummary py json root ref latest s h =
    let (tail, e1, h1) = >>=-eq-ok (read_tail py json root latest) _ h in
    let (judge, e2, h2) =
      >>=-eq-ok (optional_ref_from_map latest.ref_map (codes "judge_report_ref")) _ h1 in
    let (repair_ref, e3, h3) =
      >>=-eq-ok (optional_ref_from_map latest.ref_map (codes "repair_brief_ref")) _ h2 in
    let (revision, e4, h4) =
      >>=-eq-ok (optional_ref_from_map latest.ref_map (codes "revision_request_ref")) _ h3 in
    let (u, e5, h5) =
      >>=-eq-ok
        (missionforge.DecisionLedger.Summary.validate py
          (summary_of latest ref tail judge repair_ref revision))
        _ h4 in
    (tail, judge, repair_ref, revision, e1, sym (ok_injective h5))

-- What a replay of the file `ref` found: its entries, whose steps lead to the reported contract hash.
abbrev pub Replayed : Platform → Codec → Root → Text → RunReplaySummary → Type 0
Replayed py json root ref s =
    (first : Entry) × (rest : List Entry) × (read_ledger_entries py json root ref
      ≡ ok (first ∷ rest))
    × Steps first first.contract_hash (first ∷ rest) s.contract_hash
    × (s.run_id ≡ first.run_id)
    × (s.contract_id ≡ first.contract_id)
    × IsSummary py json root ref (last_of first rest) s

summarize-Replayed :
    (py : Platform) (json : Codec) (root : Root) (ref : Text) (es : List Entry)
    (s : RunReplaySummary)
    → read_ledger_entries py json root ref ≡ ok es
    → summarize py json root ref es ≡ ok s
    → Replayed py json root ref s
unfolding summarize
summarize-Replayed py json root ref [] s read h = cc
summarize-Replayed py json root ref (first ∷ rest) s read h =
    let (u, valid, h1) = >>=-eq-ok (validate_ledger_sequence first rest) _ h in
    let (tail, judge, repair_ref, revision, e, is) =
      summarize_latest-IsSummary py json root ref (last_of first rest) s h1 in
    let (final, steps) = (validate_sequence_iff first rest).0 valid in
    let (same_run, same_contract) = Steps-same first first.contract_hash final first rest steps in
    let hash : final ≡ s.contract_hash =
      Steps-last first first.contract_hash final first rest steps
      ∙ sym (ap (λ (x : RunReplaySummary). x.contract_hash) is) in
    (
      first,
      rest,
      read,
      subst (λ m. Steps first first.contract_hash (first ∷ rest) m) hash steps,
      ap (λ (x : RunReplaySummary). x.run_id) is ∙ same_run,
      ap (λ (x : RunReplaySummary). x.contract_id) is ∙ same_contract,
      (tail, judge, repair_ref, revision, e, is),
    )

-- A replay that returns read the file that its ref names, stripped: the entries there are steps of one
-- run under one contract, from the contract hash of the first one to the one of the summary, and run,
-- contract and ledger ref of the summary are theirs.
pub replay-Replayed :
    (py : Platform) (json : Codec) (root : Root) (ref : Text) (s : RunReplaySummary)
    → replay_decision_ledger py json root ref ≡ ok s
    → Replayed py json root (strip ref) s
unfolding replay_decision_ledger
replay-Replayed py json root ref s h =
    let (safe, e1, h1) = >>=-eq-ok (validate_ref (text ref)) _ h in
    let (path, e2, h2) = >>=-eq-ok (resolve_ref root safe) _ h1 in
    let (es, e3, h3) = >>=-eq-ok (read_ledger_entries py json root path) _ h2 in
    let stripped : safe ≡ strip ref = ((validate_ref_iff ref safe).0 e1).0 in
    let same : path ≡ safe = resolve_ref-same root safe path (validate_ref_idem ref safe e1) e2 in
    subst (λ r. Replayed py json root r s) stripped
      (summarize-Replayed py json root safe es s
        (subst (λ p. read_ledger_entries py json root p ≡ ok es) same e3) h3)

-- The last entry of an accepted run: it names a valid final package, or it is a judge's acceptance.
pub data IsAcceptance (py : Platform) (json : Codec) (root : Root) (latest : Entry) : Type 0 where
  by_package :
      latest.event_kind ≡ final_package_emitted
      → (package_ref : Text) (found : FinalPackage)
      → read_package py json root latest.ref_map ≡ ok (package_ref, found)
      → IsAcceptance py json root latest
  by_judge :
      (latest.event_kind ≡ judge_report_recorded)
        ⊎ (latest.event_kind ≡ revision_judge_report_recorded)
      → latest.status ≡ some (codes "accepted")
      → IsAcceptance py json root latest

verdict-accepted :
    (status : Option Text) → status_of_verdict status ≡ accepted → status ≡ some (codes "accepted")
verdict-accepted none h = cc
verdict-accepted (some s) h = elim (Bool-cases (text_eq s (codes "accepted"))) [
  | inl y ↦ ap some (text_eq_sound s (codes "accepted") y)
  | inr n ↦ ground (arith, h, n)
]

status-accepted :
    (kind : DecisionLedgerEventKind) (status : Option Text)
    → status_from_tail kind status ≡ accepted
    → ((kind ≡ judge_report_recorded) ⊎ (kind ≡ revision_judge_report_recorded))
      × (status ≡ some (codes "accepted"))
unfolding status_from_tail
status-accepted judge_report_recorded status h = (inl refl, verdict-accepted status h)
status-accepted revision_judge_report_recorded status h = (inr refl, verdict-accepted status h)
status-accepted contract_frozen status h = cc
status-accepted projection_written status h = cc
status-accepted execution_packet_issued status h = cc
status-accepted execution_report_recorded status h = cc
status-accepted hard_checks_recorded status h = cc
status-accepted judge_packet_issued status h = cc
status-accepted repair_requested status h = cc
status-accepted repair_execution_recorded status h = ground (arith, h)
status-accepted revision_requested status h = cc
status-accepted revision_draft_recorded status h = ground (arith, h)
status-accepted revision_applied status h = cc
status-accepted final_package_emitted status h = cc

is_final-eq : (kind : DecisionLedgerEventKind) → is_final kind ≡ true → kind ≡ final_package_emitted
is_final-eq final_package_emitted h = refl
is_final-eq contract_frozen h = cc
is_final-eq projection_written h = cc
is_final-eq execution_packet_issued h = cc
is_final-eq execution_report_recorded h = cc
is_final-eq hard_checks_recorded h = cc
is_final-eq judge_packet_issued h = cc
is_final-eq judge_report_recorded h = cc
is_final-eq repair_requested h = cc
is_final-eq repair_execution_recorded h = cc
is_final-eq revision_requested h = cc
is_final-eq revision_draft_recorded h = cc
is_final-eq revision_applied h = cc
is_final-eq revision_judge_report_recorded h = cc

tail-IsAcceptance :
    (py : Platform) (json : Codec) (root : Root) (latest : Entry)
    (tail : Option Text × List Text × RunReplayStatus)
    → read_tail py json root latest ≡ ok tail
    → tail.2 ≡ accepted
    → IsAcceptance py json root latest
unfolding read_tail
tail-IsAcceptance py json root latest tail h a = elim (Bool-cases (is_final latest.event_kind)) [
  | inl y ↦
      let g : (read_package py json root latest.ref_map >>= λ found.
      ok (some found.0, found.1.accepted_artifact_refs, accepted))
          ≡ ok tail =
        rw y at h in
      let ((package_ref, found), e, g1) =
        >>=-eq-ok (read_package py json root latest.ref_map)
          (λ found. ok (some found.0, found.1.accepted_artifact_refs, accepted)) g in
      by_package (is_final-eq latest.event_kind y) package_ref found e
  | inr n ↦
      let g : ok (none, [], status_from_tail latest.event_kind latest.status) ≡ ok tail =
        rw n at h in
      let same : status_from_tail latest.event_kind latest.status ≡ tail.2 =
        ap (λ (t : Option Text × List Text × RunReplayStatus). t.2) (ok_injective g) in
      let (kind, status) = status-accepted latest.event_kind latest.status (same ∙ a) in
      by_judge kind status
]

-- A replay that reports `accepted` read the file that its ref names, stripped, and its last entry names
-- a valid final package or is a judge's report with the verdict accepted.
pub replay-IsAcceptance :
    (py : Platform) (json : Codec) (root : Root) (ref : Text) (s : RunReplaySummary)
    → replay_decision_ledger py json root ref ≡ ok s
    → s.status ≡ accepted
    → (first : Entry) × (rest : List Entry) × (read_ledger_entries py json root (strip ref)
        ≡ ok (first ∷ rest))
      × IsAcceptance py json root (last_of first rest)
replay-IsAcceptance py json root ref s h a =
    let (
      first,
      rest,
      read,
      steps,
      same_run,
      same_contract,
      (tail, judge, repair_ref, revision, e, is),
    ) =
      replay-Replayed py json root ref s h in
    (
      first,
      rest,
      read,
      tail-IsAcceptance py json root (last_of first rest) tail e
          (sym (ap (λ (x : RunReplaySummary). x.status) is) ∙ a),
    )
