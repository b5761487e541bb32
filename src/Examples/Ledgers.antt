-- ===== src/Examples/Ledgers.antt =====
-- The theorems on the decision ledger at a run with one revision.
use missionforge.Common.{◌≡◌, refl, ◌↔◌, none, some, List, [], ◌∷◌, ◌++◌, if◌then◌else◌, true}
use missionforge.Text.{Text, codes, strip, text_eq}
use missionforge.Text.Maps.{put, lookup}
use missionforge.Outcome.{ok}
use missionforge.Value.{dict}
use missionforge.Jsonl.{Codec, Root, append_text}
use missionforge.DecisionLedger.{
  TaskContractDecisionLedgerEntry, DecisionLedgerEventKind, contract_frozen, revision_applied,
  judge_report_recorded, content, from_dict, to_dict, validate, ref_mapping, ref_entries,
  hash_mapping, hash_entries, optional_str, required_ref, optional_ref_from_map, parse,
}
use missionforge.DecisionLedger.Replay.{
  validate_ledger_sequence, read_decision_ledger, replay_decision_ledger, read_ledger_entries,
  last_of,
}
use missionforge.DecisionLedger.Summary.{RunReplaySummary, accepted, summary_schema}
use missionforge.DecisionLedger.Sequence.{
  Steps, Step, validate_sequence_iff, validate_sequence-snoc,
}
use missionforge.DecisionLedger.Replayed.{
  Replayed, IsAcceptance, replay-Replayed, replay-IsAcceptance,
}
use missionforge.Examples.Running.{computing, python}

abbrev hash_of : Text → Text
hash_of c = codes "sha256:" ++ (c ++ (c ++ (c ++ c)))

abbrev frozen_hash : Text
frozen_hash = hash_of (codes "0123456789abcdef")

abbrev revised_hash : Text
revised_hash = hash_of (codes "fedcba9876543210")

abbrev entry_of :
    DecisionLedgerEventKind → Text → List (Text × Text) → TaskContractDecisionLedgerEntry
entry_of kind hash refs = record {
  entry_id = codes "e";
  run_id = codes "run";
  event_kind = kind;
  contract_id = codes "c";
  contract_hash = hash;
  ref_map = refs;
  created_at = [];
  status = if text_eq hash revised_hash then some (codes "accepted") else none;
  content_hashes = [];
  schema_version = codes "decision_ledger_entry.v1";
}

abbrev frozen : TaskContractDecisionLedgerEntry
frozen = entry_of contract_frozen frozen_hash []

abbrev revised : TaskContractDecisionLedgerEntry
revised = entry_of revision_applied revised_hash (
    (codes "revision_applied_ref", codes "r/applied.json")
    ∷ (codes "task_contract_revision_ref", codes "r/revision.json")
    ∷ [])

abbrev judged : TaskContractDecisionLedgerEntry
judged = entry_of judge_report_recorded revised_hash []

sequence_valid : validate_ledger_sequence frozen (revised ∷ judged ∷ []) ≡ ok tt
unfolding validate_ledger_sequence required_ref lookup computing
sequence_valid = refl

validate_sequence_iff_example :
    (validate_ledger_sequence frozen (revised ∷ judged ∷ []) ≡ ok tt)
    ↔ ((final : Text) × Steps frozen frozen_hash (frozen ∷ revised ∷ judged ∷ []) final)
validate_sequence_iff_example = validate_sequence_iff frozen (revised ∷ judged ∷ [])

-- Each entry is written as one letter, which reads as the entry.
abbrev letter : Codec
letter = record {
  dumps = λ v. codes "j";
  loads = λ s. some (
      dict (
        content (
          if text_eq s (codes "f")
          then frozen
          else (if text_eq s (codes "r") then revised else judged))));
}

abbrev ledger_ref : Text
ledger_ref = codes "ledger.jsonl"

abbrev file_before : Text
file_before = codes "f" ++ 10 ∷ (codes "r" ++ 10 ∷ [])

abbrev before : Root
before = record {
  inside = λ p. true;
  file = λ p. if text_eq p ledger_ref then some file_before else none;
}

abbrev after : Root
after = append_text before ledger_ref (codes "j" ++ 10 ∷ [])

ledger_read : read_decision_ledger python letter before ledger_ref ≡ ok (frozen ∷ revised ∷ [])
unfolding read_decision_ledger from_dict computing content validate ref_mapping hash_mapping put
    optional_str
ledger_read = refl

abbrev summary : RunReplaySummary
summary = record {
  run_id = codes "run";
  contract_id = codes "c";
  contract_hash = revised_hash;
  status = accepted;
  decision_ledger_ref = ledger_ref;
  ledger_tail_ref = ledger_ref;
  final_package_ref = none;
  judge_report_ref = none;
  repair_brief_ref = none;
  revision_request_ref = none;
  accepted_artifact_refs = [];
  schema_version = summary_schema;
}

replayed : replay_decision_ledger python letter after ledger_ref ≡ ok summary
unfolding replay_decision_ledger from_dict computing content validate ref_mapping hash_mapping put
    optional_str required_ref optional_ref_from_map lookup read_ledger_entries
    missionforge.DecisionLedger.Summary.validate missionforge.DecisionLedger.ref_list
replayed = refl

replay-Replayed_example : Replayed python letter after (strip ledger_ref) summary
replay-Replayed_example = replay-Replayed python letter after ledger_ref summary replayed

replay-IsAcceptance_example :
    (first : TaskContractDecisionLedgerEntry) × (rest : List TaskContractDecisionLedgerEntry)
    × (read_ledger_entries python letter after (strip ledger_ref) ≡ ok (first ∷ rest))
    × IsAcceptance python letter after (last_of first rest)
replay-IsAcceptance_example =
    replay-IsAcceptance python letter after ledger_ref summary replayed refl

sequence-snoc_example : (validate_ledger_sequence frozen (revised ∷ judged ∷ []) ≡ ok tt) ↔ (
    (validate_ledger_sequence frozen (revised ∷ []) ≡ ok tt)
    × ((next : Text) × Step frozen revised_hash judged next))
sequence-snoc_example = validate_sequence-snoc frozen (revised ∷ []) judged
