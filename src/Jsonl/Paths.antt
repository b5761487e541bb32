-- ===== src/Jsonl/Paths.antt =====
-- The path that a ref resolves to (`_resolve_ref` of src/missionforge/interaction.py).
use missionforge.Common.{◌≡◌, inl, inr, Bool-cases}
use missionforge.Text.{Text}
use missionforge.Outcome.{ok, refuse, unsafe_ref, >>=-eq-ok}
use missionforge.Value.{text}
use missionforge.Contracts.{validate_ref}
use missionforge.Jsonl.{Root, resolve_ref}

-- A valid ref is its own path.
pub resolve_ref-same :
    (root : Root) (s p : Text) → validate_ref (text s) ≡ ok s → resolve_ref root s ≡ ok p → p ≡ s
unfolding resolve_ref
resolve_ref-same root s p v h =
    let (t, e, h1) = >>=-eq-ok (validate_ref (text s)) _ h in
    elim (Bool-cases (root.inside t)) [
      | inl y ↦ let g : ok t ≡ ok p = rw y at h1 in cc
      | inr n ↦ let g : refuse unsafe_ref ≡ ok p = rw n at h1 in cc
    ]
