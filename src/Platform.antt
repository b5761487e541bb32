-- ===== src/Platform.antt =====
-- What the program takes from Python and its standard library and does not implement: Unicode tables,
-- SHA-256 over serialised JSON, ISO-8601 dates.
use missionforge.Common.{ℕ, Bool, Option}
use missionforge.Text.{Text}
use missionforge.Value.{Value, text}

-- `datetime.fromisoformat`: microseconds on the wall clock, without a zone, or in UTC.
pub data DateTime : Type 0 where
  naive : ℕ → DateTime
  aware : ℕ → DateTime

pub record Platform : Type 0 where
  pub lower : Text → Text  -- `str.lower`
  pub is_alpha : ℕ → Bool  -- `str.isalpha` of one character
  pub is_alnum : ℕ → Bool  -- `str.isalnum` of one character
  pub sha256 : Value → Text  -- the hex digest of `json.dumps(value, sort_keys=True, ...)`
  pub to_str : Value → Text  -- `str(value)` of a value that is no string
  pub from_iso : Text → Option DateTime

-- `str(value)`
unfoldable pub str : Platform → Value → Text
str py (text t) = t
str py v = py.to_str v
