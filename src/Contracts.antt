-- ===== src/Contracts.antt =====
-- src/missionforge/contracts.py: the `require_*` primitives and `validate_ref`.
pub mod Refs
pub mod Json
pub mod Payload
use missionforge.Common.{
  ℕ, ◌≡◌, refl, Bool, true, false, not, ◌&&◌, ◌||◌, List, [], ◌∷◌, ltb, ◌==◌, if◌then◌else◌, any,
  is_empty,
}
use missionforge.Text.{Text, codes, text_eq, has_code, starts_with, has_text, split, strip}
use missionforge.Outcome.{
  Outcome, ok, refuse, refuse_if, not_text, empty_text, not_text_list, not_mapping, not_integer,
  not_boolean, unsafe_ref, control_character, bad_segment, drive_prefix, ◌>>=◌, ◌>>◌,
}
use missionforge.Value.{
  ℤ, pos, negsuc, Value, boolean, integer, text, list, dict, Items, nil, cons, Fields,
}

unfoldable pub require_non_empty_str : Value → Outcome Text
require_non_empty_str (text t) = if is_empty (strip t) then refuse empty_text else ok (strip t)
require_non_empty_str _ = refuse empty_text

unfoldable pub require_str : Value → Outcome Text
require_str (text t) = ok t
require_str _ = refuse not_text

-- The items of a list of non-empty strings, stripped.
unfoldable pub strip_items : Items → Outcome (List Text)
strip_items nil = ok []
strip_items (cons (text t) vs) = do
  rest ← strip_items vs
  if is_empty (strip t) then refuse not_text_list else ok (strip t ∷ rest)
strip_items (cons _ vs) = refuse not_text_list

unfoldable pub require_str_list : Value → Outcome (List Text)
unfolding strip_items
require_str_list (list vs) = strip_items vs
require_str_list _ = refuse not_text_list

unfoldable pub require_mapping : Value → Outcome Fields
require_mapping (dict fs) = ok fs
require_mapping _ = refuse not_mapping

-- A minimum is a literal of the program, 0 or 1.
unfoldable pub require_int_at_least : Value → ℕ → Outcome ℕ
require_int_at_least (integer (pos n)) minimum = if ltb n minimum then refuse not_integer else ok n
require_int_at_least (integer (negsuc n)) minimum = refuse not_integer
require_int_at_least _ minimum = refuse not_integer

unfoldable pub require_bool : Value → Outcome Bool
require_bool (boolean b) = ok b
require_bool _ = refuse not_boolean

-- `ord(char) < 32 or ord(char) == 127`
unfoldable pub is_control : ℕ → Bool
is_control c = ltb c 32 || c == 127

-- `part in {"", ".", ".."}`
unfoldable pub is_dot_segment : Text → Bool
is_dot_segment w = is_empty w || text_eq w (codes ".") || text_eq w (codes "..")

-- `":" in parts[0]`
unfoldable pub has_drive : List Text → Bool
has_drive [] = false
has_drive (w ∷ ws) = has_code b':' w

unfoldable pub is_unsafe_start : Text → Bool
is_unsafe_start ref =
    starts_with (codes "/") ref
    || starts_with (codes "~") ref
    || has_code 92 ref
    || has_text (codes "://") ref

-- The checks on a stripped, non-empty string, in the order of the source.
unfoldable pub check_ref : Text → Outcome Text
check_ref ref = do
  refuse_if (is_unsafe_start ref) unsafe_ref
  refuse_if (any is_control ref) control_character
  refuse_if (any is_dot_segment (split b'/' ref)) bad_segment
  refuse_if (has_drive (split b'/' ref)) drive_prefix
  ok ref

unfoldable pub validate_ref : Value → Outcome Text
validate_ref value = do ref ← require_non_empty_str value; check_ref ref

unfoldable pub optional_ref : Value → Outcome Text
optional_ref (text []) = ok []
optional_ref v = validate_ref v
