-- ===== src/Interaction/Port.antt =====
-- `FileInteractionPort` of src/missionforge/interaction.py over a directory: events and acknowledgements
-- are lines of two files, and what is pending is computed from both. What a call that raises has
-- written before is not followed.
use missionforge.Common.{
  Bool, true, not, ◌||◌, any, Option, none, some, List, [], ◌∷◌, if◌then◌else◌,
}
use missionforge.Text.{Text, codes, text_eq}
use missionforge.Outcome.{Outcome, ok, ◌>>=◌, ◌>>◌}
use missionforge.Platform.{Platform}
use missionforge.Value.{text, Fields}
use missionforge.Jsonl.{Codec, Root, append_jsonl, read_jsonl}
use missionforge.Interaction.{
  UserEvent, UserEventAck, safe_token, safe_target, ref_or_blank, validate_event, event_from_dict,
  event_to_dict, ack_from_dict, ack_to_dict, ack_schema,
}

abbrev pub user_events_ref : Text
user_events_ref = codes "interaction/user_events.jsonl"

abbrev pub acks_ref : Text
acks_ref = codes "interaction/user_event_acks.jsonl"

-- `submit_user_event`
unfoldable pub submit_user_event : Platform → Codec → Root → UserEvent → Outcome Root
submit_user_event py json root e = do
  validate_event py e
  payload ← event_to_dict py e
  append_jsonl json root user_events_ref payload

-- `[parse(item) for item in items]`
unfoldable pub parse_all {ℓ} : {A : Type ℓ} → (Fields → Outcome A) → List Fields → Outcome (List A)
parse_all parse [] = ok []
parse_all parse (fs ∷ items) = do x ← parse fs; xs ← parse_all parse items; ok (x ∷ xs)

unfoldable pub events_of_run : Text → List UserEvent → List UserEvent
events_of_run run_id [] = []
events_of_run run_id (e ∷ es) =
    let rest = events_of_run run_id es in if text_eq e.run_id run_id then e ∷ rest else rest

-- `read_user_events(run_id=run_id)` of a run id that is not empty
unfoldable pub read_user_events : Platform → Codec → Root → Text → Outcome (List UserEvent)
unfolding parse_all events_of_run
read_user_events py json root run_id = do
  safe_run_id ← safe_token (text run_id)
  items ← read_jsonl json root user_events_ref
  events ← parse_all (event_from_dict py) items
  ok (events_of_run safe_run_id events)

unfoldable pub acks_of_run : Text → List UserEventAck → List UserEventAck
acks_of_run run_id [] = []
acks_of_run run_id (a ∷ acks) =
    let rest = acks_of_run run_id acks in if text_eq a.run_id run_id then a ∷ rest else rest

-- `read_acks(run_id=run_id)` of a run id that is not empty
unfoldable pub read_acks : Codec → Root → Text → Outcome (List UserEventAck)
unfolding parse_all acks_of_run
read_acks json root run_id = do
  safe_run_id ← safe_token (text run_id)
  items ← read_jsonl json root acks_ref
  acks ← parse_all ack_from_dict items
  ok (acks_of_run safe_run_id acks)

-- `event_id in {ack.event_id for ack in acks}`
unfoldable pub acknowledged : Text → List UserEventAck → Bool
acknowledged event_id acks = any (λ (a : UserEventAck). text_eq a.event_id event_id) acks

-- The event is for the target; `flow` and `all` are for every one.
abbrev pub is_for : Option Text → Text → Bool
is_for none target = true
is_for (some t) target =
    text_eq target t || text_eq target (codes "flow") || text_eq target (codes "all")

-- The loop of `pending_user_events`.
unfoldable pub pending : List UserEventAck → Option Text → List UserEvent → List UserEvent
unfolding acknowledged
pending acks target [] = []
pending acks target (e ∷ es) =
    let rest = pending acks target es in
    if acknowledged e.event_id acks || not (is_for target e.target) then rest else e ∷ rest

-- `_safe_target(target) if target else None`
abbrev pub optional_target : Option Text → Outcome (Option Text)
optional_target none = ok none
optional_target (some []) = ok none
optional_target (some (c ∷ t)) = safe_target (text (c ∷ t)) >>= λ s. ok (some s)

-- `pending_user_events`
unfoldable pub pending_user_events :
    Platform → Codec → Root → Text → Option Text → Outcome (List UserEvent)
unfolding pending read_user_events read_acks
pending_user_events py json root run_id target = do
  safe_run_id ← safe_token (text run_id)
  wanted ← optional_target target
  acks ← read_acks json root safe_run_id
  events ← read_user_events py json root safe_run_id
  ok (pending acks wanted events)

-- The acknowledgement of an event.
abbrev pub ack_of : Text → Text → Text → Text → UserEvent → UserEventAck
ack_of consumed_by consumed_at snapshot_ref step_record_ref e = record {
  event_id = e.event_id;
  run_id = e.run_id;
  consumed_by = consumed_by;
  consumed_at = consumed_at;
  snapshot_ref = snapshot_ref;
  step_record_ref = step_record_ref;
  schema_version = ack_schema;
}

-- The loop of `acknowledge`; `ack` makes the acknowledgement of an event.
unfoldable pub acknowledge_each :
    Platform → Codec → (UserEvent → UserEventAck) → List UserEvent → Root → Outcome Root
acknowledge_each py json ack [] root = ok root
acknowledge_each py json ack (e ∷ es) root = do
  validate_event py e
  payload ← ack_to_dict (ack e)
  next ← append_jsonl json root acks_ref payload
  acknowledge_each py json ack es next

-- `acknowledge`
unfoldable pub acknowledge :
    Platform → Codec → Root → List UserEvent → Text → Text → Text → Text → Outcome Root
unfolding acknowledge_each
acknowledge py json root events consumed_by consumed_at snapshot_ref step_record_ref = do
  safe_consumed_by ← safe_target (text consumed_by)
  safe_snapshot_ref ← ref_or_blank (text snapshot_ref)
  safe_step_record_ref ← ref_or_blank (text step_record_ref)
  acknowledge_each py json
      (ack_of safe_consumed_by consumed_at safe_snapshot_ref safe_step_record_ref) events root
