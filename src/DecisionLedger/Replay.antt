-- ===== src/DecisionLedger/Replay.antt =====
-- Reading, appending and replaying a decision ledger, src/missionforge/decision_ledger.py.
use missionforge.Common.{
  Bool, true, false, not, Option, none, some, List, [], ◌∷◌, ◌++◌, length, suc, if◌then◌else◌,
}
use missionforge.Text.{Text, codes, text_eq}
use missionforge.Text.Decimal.{decimal}
use missionforge.Outcome.{
  Outcome, ok, refuse, refuse_if, missing, mismatch, not_json, contract_validation, ◌>>=◌, ◌>>◌,
}
use missionforge.Platform.{Platform}
use missionforge.Value.{text, dict, Fields}
use missionforge.Contracts.{validate_ref, require_mapping}
use missionforge.Jsonl.{Codec, Root, resolve_ref, splitlines, parse_lines, append_text}
use missionforge.DecisionLedger.{
  TaskContractDecisionLedgerEntry, DecisionLedgerEventKind, judge_report_recorded,
  revision_judge_report_recorded, repair_requested, repair_execution_recorded, revision_requested,
  revision_draft_recorded, revision_applied, final_package_emitted, Map, required_ref,
  optional_ref_from_map, from_dict, to_dict, validate,
}
use missionforge.DecisionLedger.Package.{FinalPackage}
use missionforge.DecisionLedger.Summary.{
  RunReplayStatus, accepted, repair, revision_required, rejected, blocked, RunReplaySummary,
  summary_schema,
}

abbrev pub is_revision : DecisionLedgerEventKind → Bool
is_revision revision_applied = true
is_revision _ = false

-- The contract hash after an entry that brings a new one, and after one that does not.
unfoldable pub check_revision : TaskContractDecisionLedgerEntry → Outcome Text
check_revision e = do
  refuse_if (not (is_revision e.event_kind)) mismatch
  required_ref e.ref_map (codes "revision_applied_ref")
  required_ref e.ref_map (codes "task_contract_revision_ref")
  ok e.contract_hash

abbrev pub check_same : TaskContractDecisionLedgerEntry → Text → Outcome Text
check_same e current = refuse_if (is_revision e.event_kind) mismatch >> ok current

-- One round of the loop of `_validate_ledger_sequence`: the contract hash after it.
unfoldable pub check_entry :
    TaskContractDecisionLedgerEntry → Text → TaskContractDecisionLedgerEntry → Outcome Text
unfolding check_revision
check_entry first current e = do
  refuse_if (not (text_eq e.run_id first.run_id)) mismatch
  refuse_if (not (text_eq e.contract_id first.contract_id)) mismatch
  if not (text_eq e.contract_hash current) then check_revision e else check_same e current

unfoldable pub check_entries :
    TaskContractDecisionLedgerEntry
    → Text
    → List TaskContractDecisionLedgerEntry
    → Outcome (Unit {0})
unfolding check_entry
check_entries first current [] = ok tt
check_entries first current (e ∷ es) =
    check_entry first current e >>= λ next. check_entries first next es

-- `_validate_ledger_sequence(entries)` of entries that are `first` and `rest`
unfoldable pub validate_ledger_sequence :
    TaskContractDecisionLedgerEntry → List TaskContractDecisionLedgerEntry → Outcome (Unit {0})
unfolding check_entries
validate_ledger_sequence first rest = check_entries first first.contract_hash (first ∷ rest)

-- The status after a judge's report, if its verdict is known.
abbrev pub status_of_verdict : Option Text → RunReplayStatus
status_of_verdict none = blocked
status_of_verdict (some s) =
    if text_eq s (codes "accepted")
    then accepted
    else (if text_eq s (codes "repair")
        then repair
        else (if text_eq s (codes "revision_required")
            then revision_required
            else (if text_eq s (codes "rejected") then rejected else blocked)))

abbrev pub is_completed : Option Text → Bool
is_completed none = false
is_completed (some s) = text_eq s (codes "completed")

-- `_status_from_tail`; the source writes the verdicts and the values of the statuses, which agree
unfoldable pub status_from_tail : DecisionLedgerEventKind → Option Text → RunReplayStatus
status_from_tail judge_report_recorded status = status_of_verdict status
status_from_tail revision_judge_report_recorded status = status_of_verdict status
status_from_tail repair_requested status = repair
status_from_tail repair_execution_recorded status = if is_completed status then repair else blocked
status_from_tail revision_requested status = revision_required
status_from_tail revision_draft_recorded status =
    if is_completed status then revision_required else blocked
status_from_tail revision_applied status = revision_required
status_from_tail _ status = blocked

-- `_read_ledger_entries`
unfoldable pub read_ledger_entries :
    Platform → Codec → Root → Text → Outcome (List TaskContractDecisionLedgerEntry)
read_ledger_entries py json root path = elim (root.file path) [
  | none ↦ refuse missing
  | some s ↦
      parse_lines json (contract_validation not_json) (λ fs. from_dict py (dict fs)) (splitlines s)
]

unfoldable pub read_decision_ledger :
    Platform → Codec → Root → Text → Outcome (List TaskContractDecisionLedgerEntry)
unfolding read_ledger_entries
read_decision_ledger py json root ref = do
  safe_ref ← validate_ref (text ref)
  path ← resolve_ref root safe_ref
  read_ledger_entries py json root path

-- `_read_json_ref`
unfoldable pub read_json_ref : Codec → Root → Text → Outcome Fields
read_json_ref json root ref = do
  safe_ref ← validate_ref (text ref)
  path ← resolve_ref root safe_ref
  elim (root.file path) [
    | none ↦ refuse missing
    | some s ↦ elim (json.loads s) [ none ↦ refuse not_json | some v ↦ require_mapping v ]
  ]

-- The package that a ledger's last entry names.
unfoldable pub read_package : Platform → Codec → Root → Map → Outcome (Text × FinalPackage)
unfolding read_json_ref
read_package py json root refs = do
  package_ref ← required_ref refs (codes "final_package_ref")
  payload ← read_json_ref json root package_ref
  final ← missionforge.DecisionLedger.Package.from_dict py (dict payload)
  ok (package_ref, final)

abbrev pub is_final : DecisionLedgerEventKind → Bool
is_final final_package_emitted = true
is_final _ = false

-- The final package ref, the accepted artifacts and the status that the last entry gives.
unfoldable pub read_tail :
    Platform
    → Codec
    → Root
    → TaskContractDecisionLedgerEntry
    → Outcome (Option Text × List Text × RunReplayStatus)
unfolding read_package status_from_tail
read_tail py json root latest =
    if is_final latest.event_kind
    then (read_package py json root latest.ref_map >>= λ found.
        ok (some found.0, found.1.accepted_artifact_refs, accepted))
    else ok (none, [], status_from_tail latest.event_kind latest.status)

-- `entries[-1]`
abbrev pub last_of :
    TaskContractDecisionLedgerEntry
    → List TaskContractDecisionLedgerEntry
    → TaskContractDecisionLedgerEntry
last_of e [] = e
last_of e (f ∷ es) = last_of f es

-- `RunReplaySummary(...)`
abbrev pub summary_of :
    TaskContractDecisionLedgerEntry
    → Text
    → Option Text × List Text × RunReplayStatus
    → Option Text
    → Option Text
    → Option Text
    → RunReplaySummary
summary_of latest ledger_ref tail judge_ref repair_ref revision_ref = record {
  run_id = latest.run_id;
  contract_id = latest.contract_id;
  contract_hash = latest.contract_hash;
  status = tail.2;
  decision_ledger_ref = ledger_ref;
  ledger_tail_ref = ledger_ref;
  final_package_ref = tail.0;
  judge_report_ref = judge_ref;
  repair_brief_ref = repair_ref;
  revision_request_ref = revision_ref;
  accepted_artifact_refs = tail.1;
  schema_version = summary_schema;
}

unfoldable pub summarize_latest :
    Platform → Codec → Root → Text → TaskContractDecisionLedgerEntry → Outcome RunReplaySummary
unfolding read_tail
summarize_latest py json root ledger_ref latest = do
  tail ← read_tail py json root latest
  judge_ref ← optional_ref_from_map latest.ref_map (codes "judge_report_ref")
  repair_ref ← optional_ref_from_map latest.ref_map (codes "repair_brief_ref")
  revision_ref ← optional_ref_from_map latest.ref_map (codes "revision_request_ref")
  missionforge.DecisionLedger.Summary.validate py
      (summary_of latest ledger_ref tail judge_ref repair_ref revision_ref)
  ok (summary_of latest ledger_ref tail judge_ref repair_ref revision_ref)

unfoldable pub summarize :
    Platform → Codec → Root → Text → List TaskContractDecisionLedgerEntry → Outcome RunReplaySummary
unfolding validate_ledger_sequence summarize_latest
summarize py json root ledger_ref [] = refuse missing
summarize py json root ledger_ref (first ∷ rest) = do
  validate_ledger_sequence first rest
  summarize_latest py json root ledger_ref (last_of first rest)

unfoldable pub replay_decision_ledger : Platform → Codec → Root → Text → Outcome RunReplaySummary
unfolding summarize
replay_decision_ledger py json root ref = do
  ledger_ref ← validate_ref (text ref)
  path ← resolve_ref root ledger_ref
  entries ← read_ledger_entries py json root path
  summarize py json root ledger_ref entries

-- `append_decision_ledger_entry`: the ref, and the files after it
unfoldable pub append_decision_ledger_entry :
    Platform → Codec → Root → Text → TaskContractDecisionLedgerEntry → Outcome (Text × Root)
append_decision_ledger_entry py json root ledger_ref e = do
  validate py e
  safe_ref ← validate_ref (text ledger_ref)
  path ← resolve_ref root safe_ref
  payload ← to_dict py e
  ok (safe_ref, append_text root path (json.dumps (dict payload) ++ 10 ∷ []))

-- `next_ledger_entry_id`
unfoldable pub next_ledger_entry_id : List TaskContractDecisionLedgerEntry → Text
next_ledger_entry_id entries = codes "ledger-entry-" ++ decimal 6 (suc (length entries))
