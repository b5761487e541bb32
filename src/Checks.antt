-- ===== src/Checks.antt =====
-- The checks that each module of src/missionforge builds from the primitives in the same words:
-- lists of refs, duplicates, enums, safe mappings, schema names and hashes.
pub mod Fixed
pub mod Valid
pub mod Hash
pub mod Distinct
use missionforge.Common.{
  ℕ, Bool, true, false, not, ◌||◌, Option, none, some, List, [], ◌∷◌, ◌++◌, length, any, ◌==◌,
  if◌then◌else◌,
}
use missionforge.Text.{Text, codes, text_eq}
use missionforge.Outcome.{
  Outcome, ok, refuse, refuse_if, not_enum, duplicate, bad_schema, ◌>>=◌, ◌>>◌,
}
use missionforge.Platform.{Platform}
use missionforge.Value.{Value, null, text, list, dict, Fields, texts}
use missionforge.Contracts.{require_str_list, require_mapping, require_non_empty_str, validate_ref}
use missionforge.Contracts.Json.{ensure_json_value}
use missionforge.Contracts.Payload.{assert_refs_only_payload}

-- `[validate_ref(item) for item in items]`
unfoldable pub validate_refs : List Text → Outcome (List Text)
validate_refs [] = ok []
validate_refs (r ∷ rs) = do s ← validate_ref (text r); ss ← validate_refs rs; ok (s ∷ ss)

unfoldable pub ref_list : Value → Outcome (List Text)
unfolding validate_refs
ref_list value = do items ← require_str_list value; validate_refs items

unfoldable pub member : Text → List Text → Bool
member t ts = any (λ u. text_eq u t) ts

-- `set(items)`, in some order
unfoldable pub set_of : List Text → List Text
unfolding member
set_of [] = []
set_of (t ∷ ts) = let rest = set_of ts in if member t ts then rest else t ∷ rest

-- `len(items) != len(set(items))`
unfoldable pub has_duplicates : List Text → Bool
unfolding set_of
has_duplicates ts = not (length ts == length (set_of ts))

unfoldable pub validate_unique_refs : List Text → Outcome (List Text)
validate_unique_refs values = do
  refs ← ref_list (list (texts values))
  refuse_if (has_duplicates refs) duplicate
  ok refs

unfoldable pub validate_unique_strings : List Text → Outcome (List Text)
validate_unique_strings values = do
  items ← require_str_list (list (texts values))
  refuse_if (has_duplicates items) duplicate
  ok items

-- An optional ref: None or absent stays None.
unfoldable pub optional_ref : Value → Outcome (Option Text)
optional_ref null = ok none
optional_ref v = do r ← validate_ref v; ok (some r)

abbrev pub from_option : Option Text → Value
from_option none = null
from_option (some t) = text t

-- `value or default` on an optional string
abbrev pub or_default : Option Text → Text → Text
or_default none d = d
or_default (some []) d = d
or_default (some (c ∷ t)) d = c ∷ t

-- `enum_type(value)`: the first row whose name is the string
abbrev pub find_name {ℓ} : {E : Type ℓ} → List (Text × E) → Text → Option E
find_name [] t = none
find_name ((n, e) ∷ rows) t = if text_eq n t then some e else find_name rows t

abbrev pub read_name {ℓ} : {E : Type ℓ} → Option E → Outcome E
read_name none = refuse not_enum
read_name (some e) = ok e

-- `require_enum(value, enum_type)` on a wire string; `from_name` is the table of the enum's values.
unfoldable pub require_enum {ℓ} : {E : Type ℓ} → (Text → Option E) → Value → Outcome E
require_enum from_name (text t) = read_name (from_name t)
require_enum from_name _ = refuse not_enum

unfoldable pub safe_mapping : Platform → Value → Outcome Value
safe_mapping py value = do fs ← require_mapping value; assert_refs_only_payload py.lower (dict fs)

unfoldable pub require_schema : Text → Text → Outcome (Unit {0})
require_schema actual expected = refuse_if (not (text_eq actual expected)) bad_schema

unfoldable pub stable_json_hash : Platform → Value → Outcome Text
stable_json_hash py value = do
  normalized ← ensure_json_value value
  ok (codes "sha256:" ++ py.sha256 normalized)
