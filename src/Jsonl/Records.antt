-- ===== src/Jsonl/Records.antt =====
-- What `_append_jsonl` of src/missionforge/interaction.py adds, `_read_jsonl` reads at the end.
use missionforge.Common.{
  ◌≡◌, refl, sym, ap, subst, ◌∙◌, false, Option, none, some, inl, inr, List, [], ◌∷◌, ◌++◌, any,
  is_empty,
}
use missionforge.Text.{Text, strip}
use missionforge.Text.Equality.{text_eq_refl}
use missionforge.Outcome.{Outcome, ok, json_decode_error, >>=-eq-ok, ok_injective}
use missionforge.Value.{dict, Fields}
use missionforge.Contracts.Json.{ensure_json_value, IsJson-sound}
use missionforge.Jsonl.{
  Codec, Root, resolve_ref, is_break, splitlines, parse_lines, read_jsonl, appended, append_text,
  append_jsonl,
}
use missionforge.Jsonl.Append.{IsLog, IsLog-appended, parse_lines-appended}

abbrev pub LogAt : Option Text → Type 0
LogAt none = Unit {0}
LogAt (some s) = IsLog s

-- The line of a record does not break, is not blank, and reads as the fields `fs`.
pub record Line (json : Codec) (payload fs : Fields) : Type 0 where
  pub unbroken : any is_break (json.dumps (dict payload)) ≡ false
  pub filled : is_empty (strip (json.dumps (dict payload))) ≡ false
  pub loaded : json.loads (json.dumps (dict payload)) ≡ some (dict fs)

-- What stands in the file of a log and what is read from it.
pub record Log (json : Codec) (root : Root) (ref : Text) (items : List Fields) : Type 0 where
  pub path : Text
  pub resolved : resolve_ref root ref ≡ ok path
  pub whole : LogAt (root.file path)
  pub read : read_jsonl json root ref ≡ ok items

abbrev pub parse : Codec → Text → Outcome (List Fields)
parse json s = parse_lines json json_decode_error (λ fs. ok fs) (splitlines s)

pub file_read :
    (json : Codec) (root : Root) (ref path s : Text)
    → resolve_ref root ref ≡ ok path
    → root.file path ≡ some s
    → read_jsonl json root ref ≡ parse json s
unfolding read_jsonl
file_read json root ref path s r f = rw (r, f) refl

parse-appended :
    (json : Codec) (file : Option Text) (payload fs : Fields) (items : List Fields)
    → Line json payload fs
    → LogAt file
    → (elim file [ none ↦ ok [] | some s ↦ parse json s ]) ≡ ok items
    → parse json (appended file (json.dumps (dict payload) ++ 10 ∷ [])) ≡ ok (items ++ fs ∷ [])
unfolding parse_lines splitlines
parse-appended json none payload fs items line log h =
    subst (λ is. parse json (json.dumps (dict payload) ++ 10 ∷ []) ≡ ok (is ++ fs ∷ []))
      (ok_injective h)
      (parse_lines-appended json json_decode_error (λ gs. ok gs) [] (json.dumps (dict payload)) fs
        fs [] (inl refl) refl line.unbroken line.filled line.loaded refl)
parse-appended json (some s) payload fs items line log h =
    parse_lines-appended json json_decode_error (λ gs. ok gs) s (json.dumps (dict payload)) fs fs
      items log h line.unbroken line.filled line.loaded refl

LogAt-appended : (file : Option Text) (l : Text) → LogAt (some (appended file (l ++ 10 ∷ [])))
LogAt-appended none l = inr (l, refl)
LogAt-appended (some s) l = IsLog-appended s l

pub file-appended :
    (root : Root) (path l : Text)
    → (append_text root path l).file path ≡ some (appended (root.file path) l)
unfolding append_text
file-appended root path l = rw (text_eq_refl path) refl

pub elim_read :
    (json : Codec) (root : Root) (ref path : Text)
    → resolve_ref root ref ≡ ok path
    → read_jsonl json root ref ≡ (elim (root.file path) [ none ↦ ok [] | some s ↦ parse json s ])
unfolding read_jsonl
elim_read json root ref path r = rw r refl

-- The files after a record was appended to the file at a path.
pub append_jsonl-out :
    (json : Codec) (root after : Root) (ref path : Text) (payload : Fields)
    → resolve_ref root ref ≡ ok path
    → append_jsonl json root ref payload ≡ ok after
    → append_text root path (json.dumps (dict payload) ++ 10 ∷ []) ≡ after
unfolding append_jsonl
append_jsonl-out json root after ref path payload r h =
    let (found, e1, h1) = >>=-eq-ok (resolve_ref root ref) _ h in
    let (normal, e2, h2) = >>=-eq-ok (ensure_json_value (dict payload)) _ h1 in
    let same : found ≡ path = ok_injective (sym e1 ∙ r) in
    let plain : normal ≡ dict payload = (IsJson-sound (dict payload) normal e2).0 in
    ap (λ p. append_text root p (json.dumps (dict payload) ++ 10 ∷ [])) (sym same)
    ∙ ap (λ v. append_text root found (json.dumps v ++ 10 ∷ [])) (sym plain)
    ∙ ok_injective h2

-- A record appended to a log is read behind the records that were there, and the log stays one.
pub append_jsonl-Log :
    (json : Codec) (root after : Root) (ref : Text) (payload fs : Fields) (items : List Fields)
    → Log json root ref items
    → Line json payload fs
    → append_jsonl json root ref payload ≡ ok after
    → Log json after ref (items ++ fs ∷ [])
unfolding append_text resolve_ref
append_jsonl-Log json root after ref payload fs items log line h =
    let out = append_jsonl-out json root after ref log.path payload log.resolved h in
    let new : Root = append_text root log.path (json.dumps (dict payload) ++ 10 ∷ []) in
    let found : new.file log.path
        ≡ some (appended (root.file log.path) (json.dumps (dict payload) ++ 10 ∷ [])) =
      file-appended root log.path (json.dumps (dict payload) ++ 10 ∷ []) in
    let dir : resolve_ref new ref ≡ ok log.path = log.resolved in
    let before = sym (elim_read json root ref log.path log.resolved) ∙ log.read in
    subst (λ r. Log json r ref (items ++ fs ∷ [])) out
      (record {
        path = log.path;
        resolved = dir;
        whole =
            subst LogAt (sym found)
              (LogAt-appended (root.file log.path) (json.dumps (dict payload)));
        read =
            file_read json new ref log.path
              (appended (root.file log.path) (json.dumps (dict payload) ++ 10 ∷ [])) dir found
            ∙ parse-appended json (root.file log.path) payload fs items line log.whole before;
      })
