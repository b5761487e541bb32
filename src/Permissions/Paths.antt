-- ===== src/Permissions/Paths.antt =====
-- The string test of `ref_is_under` is containment of paths.
use missionforge.Common.{true, ◌≡◌, ap, ◌↔◌, List, ◌++◌}
use missionforge.Text.{Text, split}
use missionforge.Text.Split.{under_iff}
use missionforge.Outcome.{ok, ok_injective}
use missionforge.Value.{text}
use missionforge.Contracts.{validate_ref}
use missionforge.Permissions.{ref_is_under}

-- The components of `root` begin those of `ref`: the entry `ref` is `root` or lies below it.
abbrev pub Below : Text → Text → Type 0
Below root ref = (rest : List Text) × (split b'/' ref ≡ split b'/' root ++ rest)

-- For refs that are accepted as they are, the answer is yes exactly when the one path lies in the
-- other, component by component; a name that only begins alike is not below.
pub ref_is_under_iff :
    (ref root : Text)
    → validate_ref (text ref) ≡ ok ref
    → validate_ref (text root) ≡ ok root
    → (ref_is_under ref root ≡ ok true) ↔ Below root ref
unfolding ref_is_under
ref_is_under_iff ref root h k = (
  λ e. (under_iff b'/' root ref).0 (ok_injective (rw (h, k) at e)),
  λ below. rw (h, k) (ap ok ((under_iff b'/' root ref).1 below)),
)
