-- ===== src/Interaction.antt =====
-- The user's events and their acknowledgements, src/missionforge/interaction.py.
pub mod Port
pub mod Acknowledged
pub mod Broken
use missionforge.Common.{
  Bool, true, false, not, ◌||◌, Option, none, some, List, [], ◌∷◌, if◌then◌else◌,
}
use missionforge.Text.{Text, codes, text_eq, starts_with}
use missionforge.Outcome.{
  Outcome, ok, refuse, refuse_if, not_text, not_enum, bad_value, bad_schema, bad_segment, ◌>>=◌,
  ◌>>◌,
}
use missionforge.Platform.{Platform, str}
use missionforge.Value.{Value, null, text, dict, Fields, end, item, item_or, entry}
use missionforge.Contracts.{require_non_empty_str, require_mapping, validate_ref}
use missionforge.Checks.{find_name, read_name, require_schema, safe_mapping}
use missionforge.RuntimeControl.Runner.{truthy}
use missionforge.Kernel.Contracts.{is_no_segment}
use missionforge.Kernel.Ledger.{
  UserEventKind, message, clarification, pause_request, cancel_request, approval_decision,
  correction, contract_revision_request, InteractionDelivery, after_current_turn, next_safe_point,
  immediate_cancel, queue_for_reviewer,
}

-- The values of the enums.
abbrev pub kind_value : UserEventKind → Text
kind_value message = codes "message"
kind_value clarification = codes "clarification"
kind_value pause_request = codes "pause_request"
kind_value cancel_request = codes "cancel_request"
kind_value approval_decision = codes "approval_decision"
kind_value correction = codes "correction"
kind_value contract_revision_request = codes "contract_revision_request"

abbrev kind_row : UserEventKind → Text × UserEventKind
kind_row kind = (kind_value kind, kind)

abbrev pub kind_of : Text → Option UserEventKind
kind_of = find_name (
    kind_row message
    ∷ kind_row clarification
    ∷ kind_row pause_request
    ∷ kind_row cancel_request
    ∷ kind_row approval_decision
    ∷ kind_row correction
    ∷ kind_row contract_revision_request
    ∷ [])

abbrev pub delivery_value : InteractionDelivery → Text
delivery_value after_current_turn = codes "after_current_turn"
delivery_value next_safe_point = codes "next_safe_point"
delivery_value immediate_cancel = codes "immediate_cancel"
delivery_value queue_for_reviewer = codes "queue_for_reviewer"

abbrev delivery_row : InteractionDelivery → Text × InteractionDelivery
delivery_row delivery = (delivery_value delivery, delivery)

abbrev pub delivery_of : Text → Option InteractionDelivery
delivery_of = find_name (
    delivery_row after_current_turn
    ∷ delivery_row next_safe_point
    ∷ delivery_row immediate_cancel
    ∷ delivery_row queue_for_reviewer
    ∷ [])

-- `_event_id`
unfoldable pub check_event_id : Value → Outcome Text
check_event_id value = do
  t ← require_non_empty_str value
  refuse_if (not (starts_with (codes "UE-") t || starts_with (codes "AE-") t)) bad_value
  ok t

-- `_safe_token`
unfoldable pub safe_token : Value → Outcome Text
safe_token value = do
  t ← require_non_empty_str value
  validate_ref (text t)
  refuse_if (is_no_segment t) bad_segment
  ok t

-- `_safe_target`
unfoldable pub safe_target : Value → Outcome Text
safe_target value = do t ← require_non_empty_str value; validate_ref (text t); ok t

-- `_text`
unfoldable pub plain_text : Value → Outcome Text
plain_text null = ok []
plain_text (text t) = ok t
plain_text _ = refuse not_text

-- `validate_ref(value) if value else ""`
unfoldable pub ref_or_blank : Value → Outcome Text
ref_or_blank v = let ref = validate_ref v in if truthy v then ref else ok []

-- `_user_event_kind` and `_interaction_delivery` of a wire value
unfoldable pub user_event_kind : Platform → Value → Outcome UserEventKind
user_event_kind py v = read_name (kind_of (str py v))

unfoldable pub interaction_delivery : Platform → Value → Outcome InteractionDelivery
interaction_delivery py v = read_name (delivery_of (str py v))

abbrev pub event_schema : Text
event_schema = codes "missionforge.interaction.user_event.v1"

pub record UserEvent : Type 0 where
  pub event_id : Text
  pub run_id : Text
  pub target : Text
  pub kind : UserEventKind
  pub delivery : InteractionDelivery
  pub body : Text
  pub payload_ref : Text
  pub actor : Text
  pub created_at : Text
  pub metadata : Value
  pub schema_version : Text

unfoldable pub validate_event : Platform → UserEvent → Outcome (Unit {0})
unfolding ref_or_blank
validate_event py e = do
  require_schema e.schema_version event_schema
  check_event_id (text e.event_id)
  safe_token (text e.run_id)
  safe_target (text e.target)
  ref_or_blank (text e.payload_ref)
  safe_target (text e.actor)
  safe_mapping py e.metadata
  ok tt

unfoldable pub parse_event : Platform → Fields → Outcome UserEvent
unfolding ref_or_blank
parse_event py fs = do
  event_id ← check_event_id (item "event_id" fs)
  run_id ← safe_token (item "run_id" fs)
  target ← safe_target (item "target" fs)
  kind ← user_event_kind py (item "kind" fs)
  delivery ← interaction_delivery py (item_or "delivery" (text (codes "next_safe_point")) fs)
  body ← plain_text (item_or "text" (text []) fs)
  payload_ref ← ref_or_blank (item "payload_ref" fs)
  actor ← safe_target (item_or "actor" (text (codes "user")) fs)
  created_at ← plain_text (item_or "created_at" (text []) fs)
  metadata ← safe_mapping py (item_or "metadata" (dict end) fs)
  schema ← require_non_empty_str (item_or "schema_version" (text event_schema) fs)
  ok (record {
    event_id = event_id;
    run_id = run_id;
    target = target;
    kind = kind;
    delivery = delivery;
    body = body;
    payload_ref = payload_ref;
    actor = actor;
    created_at = created_at;
    metadata = metadata;
    schema_version = schema;
  })

unfoldable pub event_from_dict : Platform → Fields → Outcome UserEvent
unfolding parse_event
event_from_dict py fs = do e ← parse_event py fs; validate_event py e; ok e

unfoldable pub event_to_dict : Platform → UserEvent → Outcome Fields
event_to_dict py e = do
  validate_event py e
  ok (
      entry "schema_version" (text e.schema_version) (
        entry "event_id" (text e.event_id) (
          entry "run_id" (text e.run_id) (
            entry "target" (text e.target) (
              entry "kind" (text (kind_value e.kind)) (
                entry "delivery" (text (delivery_value e.delivery)) (
                  entry "text" (text e.body) (
                    entry "payload_ref" (text e.payload_ref) (
                      entry "actor" (text e.actor) (
                        entry "created_at" (text e.created_at)
                          (entry "metadata" e.metadata end)))))))))))

abbrev pub ack_schema : Text
ack_schema = codes "missionforge.interaction.user_event_ack.v1"

pub record UserEventAck : Type 0 where
  pub event_id : Text
  pub run_id : Text
  pub consumed_by : Text
  pub consumed_at : Text
  pub snapshot_ref : Text
  pub step_record_ref : Text
  pub schema_version : Text

unfoldable pub validate_ack : UserEventAck → Outcome (Unit {0})
unfolding ref_or_blank
validate_ack a = do
  require_schema a.schema_version ack_schema
  check_event_id (text a.event_id)
  safe_token (text a.run_id)
  safe_target (text a.consumed_by)
  ref_or_blank (text a.snapshot_ref)
  ref_or_blank (text a.step_record_ref)
  ok tt

unfoldable pub parse_ack : Fields → Outcome UserEventAck
unfolding ref_or_blank
parse_ack fs = do
  event_id ← check_event_id (item "event_id" fs)
  run_id ← safe_token (item "run_id" fs)
  consumed_by ← safe_target (item "consumed_by" fs)
  consumed_at ← plain_text (item_or "consumed_at" (text []) fs)
  snapshot_ref ← ref_or_blank (item "snapshot_ref" fs)
  step_record_ref ← ref_or_blank (item "step_record_ref" fs)
  schema ← require_non_empty_str (item_or "schema_version" (text ack_schema) fs)
  ok (record {
    event_id = event_id;
    run_id = run_id;
    consumed_by = consumed_by;
    consumed_at = consumed_at;
    snapshot_ref = snapshot_ref;
    step_record_ref = step_record_ref;
    schema_version = schema;
  })

unfoldable pub ack_from_dict : Fields → Outcome UserEventAck
unfolding parse_ack
ack_from_dict fs = do a ← parse_ack fs; validate_ack a; ok a

abbrev pub ack_content : UserEventAck → Fields
ack_content a = entry "schema_version" (text a.schema_version) (
    entry "event_id" (text a.event_id) (
      entry "run_id" (text a.run_id) (
        entry "consumed_by" (text a.consumed_by) (
          entry "consumed_at" (text a.consumed_at) (
            entry "snapshot_ref" (text a.snapshot_ref)
              (entry "step_record_ref" (text a.step_record_ref) end))))))

unfoldable pub ack_to_dict : UserEventAck → Outcome Fields
ack_to_dict a = do validate_ack a; ok (ack_content a)
