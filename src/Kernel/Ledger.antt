-- ===== src/Kernel/Ledger.antt =====
-- The ledger events of a flow run (`FlowLedgerEvent` of src/missionforge/kernel/contracts.py) and the
-- user's events that may stop one (src/missionforge/interaction.py, kernel/runner.py). Metadata is
-- left out, and so are the identifiers that all events of a run share.
use missionforge.Common.{Bool, true, false, Option, none, some, List, [], ◌∷◌, if◌then◌else◌}
use missionforge.Text.{Text, codes}
use missionforge.Outcome.{Outcome, ok, ◌>>◌}
use missionforge.Value.{text}
use missionforge.Kernel.Contracts.{safe_id, optional_safe_id, optional_kernel_ref, unique_refs}

pub data FlowLedgerEventKind : Type 0 where
  started step_started step_recorded interaction_recorded routed : FlowLedgerEventKind
  projections_recorded stopped : FlowLedgerEventKind

pub record FlowLedgerEvent : Type 0 where
  pub event_id : Text
  pub kind : FlowLedgerEventKind
  pub step_id : Option Text
  pub status : Option Text
  pub step_record_ref : Option Text
  pub decision_ref : Option Text
  pub route_value : Option Text
  pub route_target : Option Text
  pub stop_reason : Option Text
  pub refs : List Text

-- The defaults of `_flow_ledger_event`.
abbrev pub blank : Text → FlowLedgerEventKind → FlowLedgerEvent
blank event_id kind = record {
  event_id = event_id;
  kind = kind;
  step_id = none;
  status = none;
  step_record_ref = none;
  decision_ref = none;
  route_value = none;
  route_target = none;
  stop_reason = none;
  refs = [];
}

unfoldable pub validate_event : FlowLedgerEvent → Outcome (Unit {0})
validate_event e = do
  safe_id (text e.event_id)
  optional_safe_id e.step_id
  optional_safe_id e.status
  optional_kernel_ref e.step_record_ref
  optional_kernel_ref e.decision_ref
  optional_safe_id e.route_value
  optional_safe_id e.route_target
  optional_safe_id e.stop_reason
  unique_refs e.refs
  ok tt

-- interaction.py
pub data UserEventKind : Type 0 where
  message clarification pause_request cancel_request approval_decision correction : UserEventKind
  contract_revision_request : UserEventKind

pub data InteractionDelivery : Type 0 where
  after_current_turn next_safe_point immediate_cancel queue_for_reviewer : InteractionDelivery

pub record UserEvent : Type 0 where
  pub event_id : Text
  pub kind : UserEventKind
  pub delivery : InteractionDelivery

abbrev cancels : InteractionDelivery → Bool
cancels queue_for_reviewer = false
cancels _ = true

abbrev stop_of : UserEventKind → InteractionDelivery → Option Text
stop_of cancel_request delivery =
    if cancels delivery then some (codes "user_cancel_requested") else none
stop_of pause_request delivery = some (codes "user_pause_requested")
stop_of contract_revision_request delivery = some (codes "user_contract_revision_requested")
stop_of _ delivery = none

-- `_interaction_stop_decision`: the reason; the status is "blocked".
unfoldable pub interaction_stop_decision : List UserEvent → Option Text
interaction_stop_decision [] = none
interaction_stop_decision (e ∷ es) = elim (stop_of e.kind e.delivery) [
  | some reason ↦ some reason
  | none ↦ interaction_stop_decision es
]
