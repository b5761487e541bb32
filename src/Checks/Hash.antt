-- ===== src/Checks/Hash.antt =====
-- Hashes and strict mappings, as src/missionforge/task_contract.py, decision_ledger.py and
-- piworker_call.py write them in the same words.
use missionforge.Common.{
  ℕ, Bool, not, ◌||◌, ◌&&◌, List, [], ◌∷◌, any, length, leb, ◌==◌, zero, suc, Option, none, some,
}
use missionforge.Text.{Text, codes, starts_with}
use missionforge.Outcome.{Outcome, ok, refuse, refuse_if, bad_value, ◌>>=◌, ◌>>◌}
use missionforge.Value.{Value, text, null, Fields, end, field, name, other_key}
use missionforge.Contracts.{require_non_empty_str, require_mapping}
use missionforge.Checks.{member}

-- `char in "0123456789abcdef"`
unfoldable pub is_hex : ℕ → Bool
is_hex c = (leb b'0' c && leb c b'9') || (leb b'a' c && leb c b'f')

-- `text[n:]`
abbrev pub drop : ℕ → Text → Text
drop zero s = s
drop (suc n) [] = []
drop (suc n) (c ∷ s) = drop n s

-- `_validate_hash`; the prefix has seven characters
unfoldable pub validate_hash : Value → Outcome Text
unfolding is_hex
validate_hash value = do
  hash ← require_non_empty_str value
  refuse_if (not (starts_with (codes "sha256:") hash)) bad_value
  refuse_if (not (length (drop 7 hash) == 64) || any (λ c. not (is_hex c)) (drop 7 hash)) bad_value
  ok hash

unfoldable pub optional_hash : Option Text → Outcome (Unit {0})
optional_hash none = ok tt
optional_hash (some t) = do validate_hash (text t); ok tt

-- The keys of a mapping all stand on the list.
unfoldable pub reject_unknown : List Text → Fields → Outcome (Unit {0})
reject_unknown allowed end = ok tt
reject_unknown allowed (field (name k) v fs) = do
  refuse_if (not (member k allowed)) bad_value
  reject_unknown allowed fs
reject_unknown allowed (field (other_key k) v fs) = refuse bad_value

-- `_strict_mapping`
unfoldable pub strict_mapping : List Text → Value → Outcome Fields
strict_mapping allowed value = do fs ← require_mapping value; reject_unknown allowed fs; ok fs

-- `_optional_hash` of a value that may be None
unfoldable pub hash_or_none : Value → Outcome (Option Text)
hash_or_none null = ok none
hash_or_none v = do h ← validate_hash v; ok (some h)
