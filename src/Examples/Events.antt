-- ===== src/Examples/Events.antt =====
-- The theorems on the interaction port at one event of a run, and on the attempts at a step.
use missionforge.Common.{◌≡◌, ◌≢◌, refl, true, none, some, [], ◌∷◌, ◌++◌, if◌then◌else◌}
use missionforge.Text.{codes, strip, text_eq}
use missionforge.Outcome.{Outcome, ok, raise, json_decode_error}
use missionforge.Value.{text, dict, Fields, end, get}
use missionforge.Jsonl.{Codec, Root}
use missionforge.Jsonl.Records.{Log}
use missionforge.Jsonl.Broken.{Broken}
use missionforge.Kernel.Ledger.{message, next_safe_point}
use missionforge.Kernel.Compile.Grants.{mapping_of}
use missionforge.Interaction.{
  UserEvent, UserEventAck, event_schema, safe_token, ack_content, event_to_dict,
}
use missionforge.Interaction.Port.{
  user_events_ref, acks_ref, ack_of, acknowledge, submit_user_event, read_user_events,
  pending_user_events,
}
use missionforge.Interaction.Acknowledged.{Reads, IsAbsent, acknowledge-IsAbsent}
use missionforge.Interaction.Broken.{submit-Broken}
use missionforge.Examples.Running.{computing, python}

interacting : Unit {0}
unfolding computing missionforge.RuntimeControl.Runner.truthy
    missionforge.Kernel.Contracts.is_no_segment missionforge.Interaction.check_event_id
    missionforge.Interaction.safe_token missionforge.Interaction.safe_target
    missionforge.Interaction.plain_text missionforge.Interaction.ref_or_blank
    missionforge.Interaction.user_event_kind missionforge.Interaction.interaction_delivery
    missionforge.Interaction.validate_event missionforge.Interaction.parse_event
    missionforge.Interaction.event_from_dict missionforge.Interaction.event_to_dict
    missionforge.Interaction.validate_ack missionforge.Interaction.parse_ack
    missionforge.Interaction.ack_from_dict missionforge.Interaction.ack_to_dict
    missionforge.Interaction.Port.submit_user_event missionforge.Interaction.Port.parse_all
    missionforge.Interaction.Port.events_of_run missionforge.Interaction.Port.read_user_events
    missionforge.Interaction.Port.acks_of_run missionforge.Interaction.Port.read_acks
    missionforge.Interaction.Port.acknowledged missionforge.Interaction.Port.pending
    missionforge.Interaction.Port.pending_user_events missionforge.Interaction.Port.acknowledge_each
    missionforge.Interaction.Port.acknowledge
interacting = tt

abbrev event : UserEvent
event = record {
  event_id = codes "UE-1";
  run_id = codes "run";
  target = codes "flow";
  kind = message;
  delivery = next_safe_point;
  body = codes "Please add a title.";
  payload_ref = [];
  actor = codes "user";
  created_at = [];
  metadata = dict end;
  schema_version = event_schema;
}

abbrev fields_or_end : Outcome Fields → Fields
fields_or_end (ok fs) = fs
fields_or_end _ = end

abbrev event_fields : Fields
event_fields = fields_or_end (event_to_dict python event)

abbrev other : UserEvent
other = record event { event_id = codes "UE-2" }

abbrev other_fields : Fields
other_fields = fields_or_end (event_to_dict python other)

abbrev ack : UserEventAck
ack = ack_of (codes "writer") [] [] [] event

-- The first event is written as the letter `e`, the other one as `f`, an acknowledgement as `a`.
abbrev letters : Codec
letters = record {
  dumps = λ v. elim (get (codes "consumed_by") (mapping_of v)) [
    | none ↦ codes "e"
    | some x ↦ codes "a"
  ];
  loads = λ s. some (
      dict (
        if text_eq s (codes "e")
        then event_fields
        else (if text_eq s (codes "f") then other_fields else ack_content ack)));
}

abbrev start : Root
start = record {
  inside = λ p. true;
  file = λ p.
      if text_eq p user_events_ref then some (codes "e" ++ 10 ∷ codes "f" ++ 10 ∷ []) else none;
}

abbrev root_of : Outcome Root → Root
root_of (ok r) = r
root_of _ = start

abbrev done : Root
done = root_of (acknowledge python letters start (event ∷ []) (codes "writer") [] [] [])

event_pending :
    pending_user_events python letters start (codes "run") none ≡ ok (event ∷ other ∷ [])
unfolding interacting
event_pending = refl

acknowledged_once :
    acknowledge python letters start (event ∷ []) (codes "writer") [] [] [] ≡ ok done
unfolding interacting
acknowledged_once = refl

other_pending : pending_user_events python letters done (codes "run") none ≡ ok (other ∷ [])
unfolding interacting
other_pending = refl

no_acks : Log letters start acks_ref []
unfolding interacting
no_acks = record { path = acks_ref; resolved = refl; whole = tt; read = refl }

ack-Reads : Reads letters (ack_of (strip (codes "writer")) [] (strip []) (strip []) event)
unfolding interacting
ack-Reads = record {
  fields = ack_content ack;
  line = record { unbroken = refl; filled = refl; loaded = refl };
  same = λ key. refl;
}

acknowledge-IsAbsent_example : IsAbsent (strip event.event_id) (other ∷ [])
acknowledge-IsAbsent_example =
    acknowledge-IsAbsent python letters start done [] [] [] (other ∷ []) event (codes "writer") []
      [] [] (codes "run") none no_acks (ack-Reads, tt) acknowledged_once other_pending refl

-- An event whose text holds U+2028, which `json.dumps` writes as it is.
abbrev separated : UserEvent
separated = record event { body = codes "a" ++ 8232 ∷ codes "b" }

abbrev separated_fields : Fields
separated_fields = fields_or_end (event_to_dict python separated)

abbrev raw : Codec
raw = record { dumps = λ v. codes "{a" ++ 8232 ∷ codes "b}"; loads = λ s. none }

abbrev empty : Root
empty = record { inside = λ p. true; file = λ p. none }

abbrev stuck : Root
stuck = root_of (submit_user_event python raw empty separated)

no_events : Log raw empty user_events_ref []
unfolding interacting
no_events = record { path = user_events_ref; resolved = refl; whole = tt; read = refl }

separated_written : event_to_dict python separated ≡ ok separated_fields
unfolding interacting
separated_written = refl

separated-Broken : Broken raw separated_fields
unfolding interacting
separated-Broken = record {
  head = codes "{a";
  rest = codes "b}";
  at = 8232;
  splits = record { breaks = refl; no_return = refl };
  line = refl;
  unbroken = refl;
  filled = refl;
  invalid = refl;
}

separated_submitted : submit_user_event python raw empty separated ≡ ok stuck
unfolding interacting
separated_submitted = refl

run_token : safe_token (text (codes "run")) ≡ ok (codes "run")
unfolding interacting
run_token = refl

submit-Broken_example :
    (read_user_events python raw stuck (codes "run") ≡ raise json_decode_error)
    × (pending_user_events python raw stuck (codes "run") none ≢ ok [])
submit-Broken_example =
    submit-Broken python raw empty stuck separated separated_fields [] (codes "run") (codes "run")
      none [] no_events separated_written separated-Broken separated_submitted run_token
