-- ===== src/Interaction/Acknowledged.antt =====
-- An acknowledged event is no longer pending (src/missionforge/interaction.py).
use missionforge.Common.{
  ◌≡◌, refl, sym, ap, subst, ◌∙◌, true, false, not, ◌||◌, Bool-cases, inl, inr, arith, Option, none,
  some, List, [], ◌∷◌, ◌++◌, All,
}
use mathlib.Core.List.{append_assoc, append-nil}
use missionforge.Text.{Text, codes, starts_with, text_eq, strip, lstrip, rstrip}
use missionforge.Text.Strip.{strip_idem}
use missionforge.Contracts.{require_non_empty_str, validate_ref}
use missionforge.Permissions.Decisions.{valid_strip}
use missionforge.Text.Equality.{text_eq_sound, text_eq_iff}
use missionforge.Kernel.Contracts.{is_no_segment}
use missionforge.RuntimeControl.Runner.{truthy}
use missionforge.Outcome.{ok, refuse_if, bad_segment, bad_value, >>=-eq-ok, ok_injective}
use missionforge.Platform.{Platform}
use missionforge.Value.{Value, null, text, Fields, get, get_or, item, item_or}
use missionforge.Jsonl.{Codec, Root, append_jsonl, read_jsonl}
use missionforge.Jsonl.Records.{Line, Log, append_jsonl-Log}
use missionforge.Interaction.{
  UserEvent, UserEventAck, check_event_id, plain_text, parse_ack, ack_schema, safe_token,
  safe_target, ref_or_blank, validate_event, validate_ack, ack_from_dict, ack_to_dict, ack_content,
}
use missionforge.Interaction.Port.{
  acks_ref, parse_all, acks_of_run, read_acks, read_user_events, acknowledged, is_for, pending,
  optional_target, pending_user_events, ack_of, acknowledge_each, acknowledge,
}

-- The line of an acknowledgement is read by `json.loads` as a dict with the same entries.
pub record Reads (json : Codec) (a : UserEventAck) : Type 0 where
  pub fields : Fields
  pub line : Line json (ack_content a) fields
  pub same : (key : Text) → get key fields ≡ get key (ack_content a)

ack_to_dict-content : (a : UserEventAck) (fs : Fields) → ack_to_dict a ≡ ok fs → ack_content a ≡ fs
unfolding ack_to_dict
ack_to_dict-content a fs h =
    let (u, v, g) = >>=-eq-ok (validate_ack a) (λ _. ok (ack_content a)) h in ok_injective g

append_ack-Log :
    (py : Platform) (json : Codec) (root next : Root) (a : UserEventAck) (items : List Fields)
    (payload : Fields)
    → Log json root acks_ref items
    → (w : Reads json a) → ack_to_dict a ≡ ok payload
    → append_jsonl json root acks_ref payload ≡ ok next
    → Log json next acks_ref (items ++ w.fields ∷ [])
append_ack-Log py json root next a items payload log w e h =
    append_jsonl-Log json root next acks_ref (ack_content a) w.fields items log w.line (
      subst (λ fs. append_jsonl json root acks_ref fs ≡ ok next)
        (sym (ack_to_dict-content a payload e)) h)

module _ (py : Platform) (json : Codec) (ack : UserEvent → UserEventAck) where
  -- Acknowledging adds to the log.
  acknowledge_each-Log :
      (es : List UserEvent) (root after : Root) (items : List Fields)
      → Log json root acks_ref items
      → All (λ e. Reads json (ack e)) es
      → acknowledge_each py json ack es root ≡ ok after
      → (more : List Fields) × Log json after acks_ref (items ++ more)
  unfolding acknowledge_each
  acknowledge_each-Log [] root after items log written h = (
    [],
    subst (λ r. Log json r acks_ref (items ++ [])) (ok_injective h)
        (subst (Log json root acks_ref) (sym (append-nil items)) log),
  )
  acknowledge_each-Log (e ∷ es) root after items log (w, ws) h =
      let (u, e1, h1) = >>=-eq-ok (validate_event py e) _ h in
      let (payload, e2, h2) = >>=-eq-ok (ack_to_dict (ack e)) _ h1 in
      let (next, e3, h3) = >>=-eq-ok (append_jsonl json root acks_ref payload) _ h2 in
      let one = append_ack-Log py json root next (ack e) items payload log w e2 e3 in
      let (more, all) = acknowledge_each-Log es next after (items ++ w.fields ∷ []) one ws h3 in
      (
        w.fields ∷ more,
        subst (Log json after acks_ref) (append_assoc items (w.fields ∷ []) more) all,
      )

  -- The log has an item with the entries of each acknowledgement.
  acknowledge_each-logged :
      (before rest : List UserEvent) (e : UserEvent) (root after : Root) (items : List Fields)
      → Log json root acks_ref items
      → All (λ e. Reads json (ack e)) (before ++ e ∷ rest)
      → acknowledge_each py json ack (before ++ e ∷ rest) root ≡ ok after
      → (w : Reads json (ack e)) × (old more : List Fields) × Log json after acks_ref
          (old ++ w.fields ∷ more)
  unfolding acknowledge_each
  acknowledge_each-logged [] rest e root after items log (w, ws) h =
      let (u, e1, h1) = >>=-eq-ok (validate_event py e) _ h in
      let (payload, e2, h2) = >>=-eq-ok (ack_to_dict (ack e)) _ h1 in
      let (next, e3, h3) = >>=-eq-ok (append_jsonl json root acks_ref payload) _ h2 in
      let one = append_ack-Log py json root next (ack e) items payload log w e2 e3 in
      let (more, all) = acknowledge_each-Log rest next after (items ++ w.fields ∷ []) one ws h3 in
      (
        w,
        items,
        more,
        subst (Log json after acks_ref) (append_assoc items (w.fields ∷ []) more) all,
      )
  acknowledge_each-logged (d ∷ before) rest e root after items log (w, ws) h =
      let (u, e1, h1) = >>=-eq-ok (validate_event py d) _ h in
      let (payload, e2, h2) = >>=-eq-ok (ack_to_dict (ack d)) _ h1 in
      let (next, e3, h3) = >>=-eq-ok (append_jsonl json root acks_ref payload) _ h2 in
      let one = append_ack-Log py json root next (ack d) items payload log w e2 e3 in
      acknowledge_each-logged before rest e next after (items ++ w.fields ∷ []) one ws h3

abbrev pub IsAbsent : Text → List UserEvent → Type 0
IsAbsent id es = All (λ (e : UserEvent). text_eq e.event_id id ≡ false) es

pending-IsAbsent :
    (acks : List UserEventAck) (target : Option Text) (es : List UserEvent) (id : Text)
    → acknowledged id acks ≡ true
    → IsAbsent id (pending acks target es)
unfolding pending
pending-IsAbsent acks target [] id h = tt
pending-IsAbsent acks target (e ∷ es) id h =
    let rest = pending-IsAbsent acks target es id h in
    elim (Bool-cases (acknowledged e.event_id acks || not (is_for target e.target))) [
      | inl y ↦ rw y rest
      | inr n ↦ rw n (elim (Bool-cases (text_eq e.event_id id)) [
        | inl same ↦
            let k : acknowledged e.event_id acks ≡ true =
              subst (λ i. acknowledged i acks ≡ true) (sym (text_eq_sound e.event_id id same)) h in
            absurd (ground (arith, k, n))
        | inr differs ↦ (differs, rest)
      ])
    ]

acknowledged_cons :
    (run id : Text) (a : UserEventAck) (acks : List UserEventAck)
    → acknowledged id (acks_of_run run acks) ≡ true
    → acknowledged id (acks_of_run run (a ∷ acks)) ≡ true
unfolding acks_of_run acknowledged
acknowledged_cons run id a acks h = elim (Bool-cases (text_eq a.run_id run)) [
  | inl y ↦ rw y (ground (arith, h))
  | inr n ↦ rw n h
]

non_empty-strip : (t s : Text) → require_non_empty_str (text t) ≡ ok s → s ≡ strip t
unfolding require_non_empty_str
non_empty-strip t s h = ground arith

safe_target-strip : (t s : Text) → safe_target (text t) ≡ ok s → s ≡ strip t
unfolding safe_target
safe_target-strip t s h =
    let (u, e1, h1) = >>=-eq-ok (require_non_empty_str (text t)) _ h in
    let (v, e2, h2) = >>=-eq-ok (validate_ref (text u)) _ h1 in
    sym (ok_injective h2) ∙ non_empty-strip t u e1

safe_token-strip : (t s : Text) → safe_token (text t) ≡ ok s → s ≡ strip t
unfolding safe_token
safe_token-strip t s h =
    let (u, e1, h1) = >>=-eq-ok (require_non_empty_str (text t)) _ h in
    let (v, e2, h2) = >>=-eq-ok (validate_ref (text u)) _ h1 in
    let (w, e3, h3) = >>=-eq-ok (refuse_if (is_no_segment u) bad_segment) _ h2 in
    sym (ok_injective h3) ∙ non_empty-strip t u e1

ref_or_blank-strip : (t s : Text) → ref_or_blank (text t) ≡ ok s → s ≡ strip t
unfolding ref_or_blank truthy strip lstrip rstrip
ref_or_blank-strip [] s h = sym (ok_injective h)
ref_or_blank-strip (c ∷ t) s h = valid_strip (c ∷ t) s h

-- What `pending_user_events` computes its answer from.
record Asked (py : Platform) (json : Codec) (root : Root) (run : Text) (target : Option Text)
    (ps : List UserEvent) : Type 0 where
  wanted : Option Text
  events : List UserEvent
  items : List Fields
  acks : List UserEventAck
  read : read_jsonl json root acks_ref ≡ ok items
  parsed : parse_all ack_from_dict items ≡ ok acks
  answer : ps ≡ pending (acks_of_run (strip run) acks) wanted events

pending-Asked :
    (py : Platform) (json : Codec) (root : Root) (run : Text) (target : Option Text)
    (ps : List UserEvent)
    → pending_user_events py json root run target ≡ ok ps
    → Asked py json root run target ps
unfolding pending_user_events read_acks
pending-Asked py json root run target ps h =
    let (r1, e1, h1) = >>=-eq-ok (safe_token (text run)) _ h in
    let (wanted, e2, h2) = >>=-eq-ok (optional_target target) _ h1 in
    let (shown, e3, h3) = >>=-eq-ok (read_acks json root r1) _ h2 in
    let (events, e4, h4) = >>=-eq-ok (read_user_events py json root r1) _ h3 in
    let (r2, f1, g1) = >>=-eq-ok (safe_token (text r1)) _ e3 in
    let (items, f2, g2) = >>=-eq-ok (read_jsonl json root acks_ref) _ g1 in
    let (acks, f3, g3) = >>=-eq-ok (parse_all ack_from_dict items) _ g2 in
    let same : r2 ≡ strip run =
      safe_token-strip r1 r2 f1 ∙ ap strip (safe_token-strip run r1 e1) ∙ strip_idem run in
    record {
      wanted = wanted;
      events = events;
      items = items;
      acks = acks;
      read = f2;
      parsed = f3;
      answer =
          sym (ok_injective h4)
          ∙ ap (λ a. pending a wanted events)
              (sym (ok_injective g3) ∙ ap (λ r. acks_of_run r acks) same);
    }

check_event_id-strip : (t s : Text) → check_event_id (text t) ≡ ok s → s ≡ strip t
unfolding check_event_id
check_event_id-strip t s h =
    let (u, e1, h1) = >>=-eq-ok (require_non_empty_str (text t)) _ h in
    let (v, e2, h2) =
      >>=-eq-ok
        (refuse_if (not (starts_with (codes "UE-") u || starts_with (codes "AE-") u)) bad_value) _
        h1 in
    sym (ok_injective h2) ∙ non_empty-strip t u e1

-- An acknowledgement read from a dict is that of the event and the run that the dict names.
ack_from_dict-names :
    (fs : Fields) (a : UserEventAck) (id run : Text)
    → item "event_id" fs ≡ text id
    → item "run_id" fs ≡ text run
    → ack_from_dict fs ≡ ok a
    → (a.event_id ≡ strip id) × (a.run_id ≡ strip run)
unfolding ack_from_dict parse_ack
ack_from_dict-names fs a id run i r h =
    let (b, p, h0) = >>=-eq-ok (parse_ack fs) _ h in
    let (u, v, h1) = >>=-eq-ok (validate_ack b) _ h0 in
    let (id', e1, g1) = >>=-eq-ok (check_event_id (item "event_id" fs)) _ p in
    let (run', e2, g2) = >>=-eq-ok (safe_token (item "run_id" fs)) _ g1 in
    let (by, e3, g3) = >>=-eq-ok (safe_target (item "consumed_by" fs)) _ g2 in
    let (at, e4, g4) = >>=-eq-ok (plain_text (item_or "consumed_at" (text []) fs)) _ g3 in
    let (snap, e5, g5) = >>=-eq-ok (ref_or_blank (item "snapshot_ref" fs)) _ g4 in
    let (step, e6, g6) = >>=-eq-ok (ref_or_blank (item "step_record_ref" fs)) _ g5 in
    let (schema, e7, g7) =
      >>=-eq-ok (require_non_empty_str (item_or "schema_version" (text ack_schema) fs)) _ g6 in
    let same = ok_injective g7 ∙ ok_injective h1 in
    let own_id = check_event_id-strip id id' (subst (λ x. check_event_id x ≡ ok id') i e1) in
    let own_run = safe_token-strip run run' (subst (λ x. safe_token x ≡ ok run') r e2) in
    (
      sym (ap (λ (x : UserEventAck). x.event_id) same) ∙ own_id,
      sym (ap (λ (x : UserEventAck). x.run_id) same) ∙ own_run,
    )

item_same : (k : Text) (fs gs : Fields) → get k fs ≡ get k gs → get_or k null fs ≡ get_or k null gs
unfolding get_or
item_same k fs gs h = ap (λ (o : Option Value). elim o [ none ↦ null | some v ↦ v ]) h

content_names :
    (a : UserEventAck)
    → (item "event_id" (ack_content a) ≡ text a.event_id)
      × (item "run_id" (ack_content a) ≡ text a.run_id)
unfolding get_or get text_eq
content_names a = (refl, refl)

-- An acknowledgement in the log acknowledges its event for the run.
parse_all-acknowledged :
    (json : Codec) (old more : List Fields) (made : UserEventAck) (w : Reads json made)
    (acks : List UserEventAck) (run : Text)
    → parse_all ack_from_dict (old ++ w.fields ∷ more) ≡ ok acks
    → strip made.run_id ≡ run
    → acknowledged (strip made.event_id) (acks_of_run run acks) ≡ true
unfolding parse_all acks_of_run acknowledged
parse_all-acknowledged json [] more made w acks run h own =
    let (a, e, f) = >>=-eq-ok (ack_from_dict w.fields) _ h in
    let (later, e', f') = >>=-eq-ok (parse_all ack_from_dict more) _ f in
    let names = content_names made in
    let (id, of_run) =
      ack_from_dict-names w.fields a made.event_id made.run_id
        (item_same (codes "event_id") w.fields (ack_content made) (w.same (codes "event_id"))
          ∙ names.0)
        (item_same (codes "run_id") w.fields (ack_content made) (w.same (codes "run_id")) ∙ names.1)
        e in
    let here : text_eq a.run_id run ≡ true = (text_eq_iff a.run_id run).1 (of_run ∙ own) in
    let same : text_eq a.event_id (strip made.event_id) ≡ true =
      (text_eq_iff a.event_id (strip made.event_id)).1 id in
    subst (λ x. acknowledged (strip made.event_id) (acks_of_run run x) ≡ true) (ok_injective f')
      (rw (here, same) refl)
parse_all-acknowledged json (fs ∷ old) more made w acks run h own =
    let (a, e, f) = >>=-eq-ok (ack_from_dict fs) _ h in
    let (later, e', f') = >>=-eq-ok (parse_all ack_from_dict (old ++ w.fields ∷ more)) _ f in
    subst (λ x. acknowledged (strip made.event_id) (acks_of_run run x) ≡ true) (ok_injective f')
      (acknowledged_cons run (strip made.event_id) a later
        (parse_all-acknowledged json old more made w later run e' own))

-- When events are acknowledged on a readable log, none of those of a run is pending for it any more:
-- `pending_user_events`, when it returns, has no event with the stripped id of one of them. This takes
-- it that the line written of each acknowledgement has no line break, is not blank, and is read by
-- `json.loads` as a dict with the same entries.
pub acknowledge-IsAbsent :
    (py : Platform) (json : Codec) (root after : Root) (items : List Fields)
    (before rest ps : List UserEvent) (e : UserEvent) (by at snapshot step_record run : Text)
    (target : Option Text)
    → Log json root acks_ref items
    → All
        (λ (e : UserEvent).
          Reads json (ack_of (strip by) at (strip snapshot) (strip step_record) e))
        (before ++ e ∷ rest)
    → acknowledge py json root (before ++ e ∷ rest) by at snapshot step_record ≡ ok after
    → pending_user_events py json after run target ≡ ok ps
    → strip e.run_id ≡ strip run
    → IsAbsent (strip e.event_id) ps
unfolding acknowledge
acknowledge-IsAbsent py json root after items before rest ps e by at snapshot step_record run target
      log written h p own =
    let (by', e1, h1) = >>=-eq-ok (safe_target (text by)) _ h in
    let (snapshot', e2, h2) = >>=-eq-ok (ref_or_blank (text snapshot)) _ h1 in
    let (step', e3, h3) = >>=-eq-ok (ref_or_blank (text step_record)) _ h2 in
    let ack = ack_of (strip by) at (strip snapshot) (strip step_record) in
    let done : acknowledge_each py json ack (before ++ e ∷ rest) root ≡ ok after =
      rw
        (
          sym (safe_target-strip by by' e1),
          sym (ref_or_blank-strip snapshot snapshot' e2),
          sym (ref_or_blank-strip step_record step' e3),
        )
        h3 in
    let (w, old, more, new) =
      acknowledge_each-logged py json ack before rest e root after items log written done in
    let asked = pending-Asked py json after run target ps p in
    let same_items : asked.items ≡ old ++ w.fields ∷ more =
      ok_injective (sym asked.read ∙ new.read) in
    let parsed : parse_all ack_from_dict (old ++ w.fields ∷ more) ≡ ok asked.acks =
      sym (ap (parse_all ack_from_dict) same_items) ∙ asked.parsed in
    subst (IsAbsent (strip e.event_id)) (sym asked.answer) (
      pending-IsAbsent (acks_of_run (strip run) asked.acks) asked.wanted asked.events
        (strip e.event_id)
        (parse_all-acknowledged json old more (ack e) w asked.acks (strip run) parsed own))
