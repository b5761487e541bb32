-- ===== src/Interaction/Broken.antt =====
-- A submitted event whose text holds a line separator (src/missionforge/interaction.py).
use missionforge.Common.{◌≡◌, ◌≢◌, refl, sym, subst, ◌∙◌, Option, List}
use missionforge.Text.{Text}
use missionforge.Outcome.{ok, raise, json_decode_error, >>=-eq-ok, ok_injective}
use missionforge.Platform.{Platform}
use missionforge.Value.{text, Fields}
use missionforge.Jsonl.{Codec, Root, append_jsonl, read_jsonl}
use missionforge.Jsonl.Records.{Log}
use missionforge.Jsonl.Broken.{Broken, append_jsonl-Broken}
use missionforge.Interaction.{UserEvent, safe_token, validate_event, event_to_dict}
use missionforge.Interaction.Port.{
  user_events_ref, submit_user_event, read_user_events, read_acks, optional_target,
  pending_user_events,
}

submit-append :
    (py : Platform) (json : Codec) (root after : Root) (e : UserEvent) (payload : Fields)
    → event_to_dict py e ≡ ok payload
    → submit_user_event py json root e ≡ ok after
    → append_jsonl json root user_events_ref payload ≡ ok after
unfolding submit_user_event
submit-append py json root after e payload d h =
    let (u, e1, h1) = >>=-eq-ok (validate_event py e) _ h in
    let (fs, e2, h2) = >>=-eq-ok (event_to_dict py e) _ h1 in
    subst (λ p. append_jsonl json root user_events_ref p ≡ ok after) (ok_injective (sym e2 ∙ d)) h2

module _ (py : Platform) (json : Codec) (root : Root)
    (unreadable : read_jsonl json root user_events_ref ≡ raise json_decode_error) where
  read-raises :
      (run r : Text)
      → safe_token (text run) ≡ ok r
      → read_user_events py json root run ≡ raise json_decode_error
  unfolding read_user_events
  read-raises run r h = rw (h, unreadable) refl

  no_pending :
      (run : Text) (target : Option Text) (ps : List UserEvent)
      → pending_user_events py json root run target ≢ ok ps
  unfolding pending_user_events read_user_events
  no_pending run target ps h =
      let (r1, e1, h1) = >>=-eq-ok (safe_token (text run)) _ h in
      let (wanted, e2, h2) = >>=-eq-ok (optional_target target) _ h1 in
      let (acks, e3, h3) = >>=-eq-ok (read_acks json root r1) _ h2 in
      let (events, e4, h4) = >>=-eq-ok (read_user_events py json root r1) _ h3 in
      let (r2, f1, g1) = >>=-eq-ok (safe_token (text r1)) _ e4 in
      let (items, f2, g2) = >>=-eq-ok (read_jsonl json root user_events_ref) _ g1 in
      let k : raise json_decode_error ≡ ok items = sym unreadable ∙ f2 in cc

-- After an event was submitted whose line is broken by its text, reading the events of any run raises,
-- and no pending events are found for any run and target.
pub submit-Broken :
    (py : Platform) (json : Codec) (root after : Root) (e : UserEvent) (payload : Fields)
    (items : List Fields) (run r : Text) (target : Option Text) (ps : List UserEvent)
    → Log json root user_events_ref items
    → event_to_dict py e ≡ ok payload
    → Broken json payload
    → submit_user_event py json root e ≡ ok after
    → safe_token (text run) ≡ ok r
    → (read_user_events py json after run ≡ raise json_decode_error)
      × (pending_user_events py json after run target ≢ ok ps)
submit-Broken py json root after e payload items run r target ps log d broken h k =
    let gone =
      append_jsonl-Broken json root after user_events_ref payload items log broken
        (submit-append py json root after e payload d h) in
    (read-raises py json after gone run r k, no_pending py json after gone run target ps)
