-- ===== src/Jsonl.antt =====
-- Append-only files of JSON objects, one on a line: `_read_ledger_entries` of
-- src/missionforge/decision_ledger.py and `_append_jsonl`, `_read_jsonl` of
-- src/missionforge/interaction.py. `json` and the file system are parameters.
pub mod Append
pub mod Paths
pub mod Records
pub mod Broken
use missionforge.Common.{
  ℕ, Bool, true, false, ◌||◌, ◌&&◌, Option, none, some, List, [], ◌∷◌, ◌++◌, leb, ◌==◌, is_empty,
  if◌then◌else◌,
}
use missionforge.Text.{Text, codes, text_eq, starts_with, cons_head, strip}
use missionforge.Outcome.{
  Outcome, ok, raise, refuse, refuse_if, Error, json_decode_error, not_mapping, unsafe_ref, ◌>>=◌,
  ◌>>◌,
}
use missionforge.Value.{Value, text, dict, Fields}
use missionforge.Contracts.{validate_ref}
use missionforge.Contracts.Json.{ensure_json_value}

-- `json.dumps` with the options of the caller, and `json.loads`, which may fail.
pub record Codec : Type 0 where
  pub dumps : Value → Text
  pub loads : Text → Option Value

-- A directory with its files: whether a path stays inside when its links are followed, and what a file
-- holds.
pub record Root : Type 0 where
  pub inside : Text → Bool
  pub file : Text → Option Text

-- `_resolve_ref`: the path of a ref in the directory.
unfoldable pub resolve_ref : Root → Text → Outcome Text
resolve_ref root ref = do
  safe_ref ← validate_ref (text ref)
  if root.inside safe_ref then ok safe_ref else refuse unsafe_ref

-- The code points at which `str.splitlines` breaks.
unfoldable pub is_break : ℕ → Bool
is_break c = (leb 10 c && leb c 13) || (leb 28 c && leb c 30) || c == 133 || c == 8232 || c == 8233

-- `str.splitlines`: a carriage return before a line feed breaks once.
unfoldable pub splitlines : Text → List Text
unfolding is_break starts_with
splitlines [] = []
splitlines (c ∷ s) =
    let rest = splitlines s in
    if is_break c
    then (if c == 13 && starts_with (10 ∷ []) s then rest else [] ∷ rest)
    else cons_head c rest

abbrev pub as_object : Option Value → Error → Outcome Fields
as_object none bad = raise bad
as_object (some (dict fs)) bad = ok fs
as_object (some _) bad = refuse not_mapping

-- What the lines that are not blank hold, read by `parse`; `bad` is what an invalid line raises.
unfoldable pub parse_lines {ℓ} :
    {A : Type ℓ} → Codec → Error → (Fields → Outcome A) → List Text → Outcome (List A)
parse_lines json bad parse [] = ok []
parse_lines json bad parse (l ∷ ls) =
    let rest = parse_lines json bad parse ls in
    let here =
      as_object (json.loads l) bad >>= λ fs. parse fs >>= λ x. rest >>= λ more. ok (x ∷ more) in
    if is_empty (strip l) then rest else here

-- The file after a write in append mode.
abbrev pub appended : Option Text → Text → Text
appended none s = s
appended (some old) s = old ++ s

unfoldable pub append_text : Root → Text → Text → Root
unfolding text_eq
append_text root path s = record root {
  file = λ r. if text_eq r path then some (appended (root.file path) s) else root.file r;
}

-- `json.dumps(payload) + "\n"`
abbrev pub line_of : Codec → Fields → Text
line_of json fs = json.dumps (dict fs) ++ 10 ∷ []

unfoldable pub append_jsonl : Codec → Root → Text → Fields → Outcome Root
append_jsonl json root ref payload = do
  path ← resolve_ref root ref
  normal ← ensure_json_value (dict payload)
  ok (append_text root path (json.dumps normal ++ 10 ∷ []))

-- `_read_jsonl`: a missing file has no records; an invalid line raises what `json.loads` does.
unfoldable pub read_jsonl : Codec → Root → Text → Outcome (List Fields)
unfolding parse_lines
read_jsonl json root ref = do
  path ← resolve_ref root ref
  elim (root.file path) [
    | none ↦ ok []
    | some s ↦ parse_lines json json_decode_error (λ fs. ok fs) (splitlines s)
  ]
