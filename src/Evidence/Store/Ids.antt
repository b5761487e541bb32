-- ===== src/Evidence/Store/Ids.antt =====
-- The ids that src/missionforge/evidence_store.py gives its records have no white space.
use missionforge.Common.{ℕ, ◌≡◌, refl, Option, none, some, [], ◌∷◌}
use missionforge.Text.{Text, strip, is_space}
use missionforge.Text.Solid.{IsSolid, strip_plain, decimal-IsSolid}
use missionforge.Evidence.Store.{generated_id, next_id}

-- The id that a caller gives is not padded with white space.
abbrev pub IsStripped : Option Text → Type 0
IsStripped none = Unit {0}
IsStripped (some t) = strip t ≡ t

generated_id-IsSolid : (n : ℕ) → IsSolid (generated_id n)
unfolding generated_id is_space
generated_id-IsSolid n = (refl, (refl, decimal-IsSolid 6 n))

pub next_id-strip : (id : Option Text) (n : ℕ) → IsStripped id → strip (next_id id n) ≡ next_id id n
unfolding next_id
next_id-strip none n h = strip_plain (generated_id n) (generated_id-IsSolid n)
next_id-strip (some []) n h = strip_plain (generated_id n) (generated_id-IsSolid n)
next_id-strip (some (c ∷ t)) n h = h
