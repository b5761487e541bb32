-- ===== src/Text/Strip.antt =====
-- `strip` is idempotent.
use missionforge.Common.{ℕ, ◌≡◌, refl, false, [], ◌∷◌, arith, inl, inr, Bool-cases}
use missionforge.Text.{Text, is_space, lstrip, rcons, rstrip, strip}

rstrip-rcons : (c : ℕ) (r : Text) → rstrip r ≡ r → rstrip (rcons c r) ≡ rcons c r
unfolding rstrip
rstrip-rcons c [] h = ground arith
rstrip-rcons c (d ∷ t) h = rw h

rstrip_idem : (s : Text) → rstrip (rstrip s) ≡ rstrip s
unfolding rstrip
rstrip_idem [] = refl
rstrip_idem (c ∷ s) = rstrip-rcons c (rstrip s) (rstrip_idem s)

lstrip-rcons : (c : ℕ) (r : Text) → is_space c ≡ false → lstrip (rcons c r) ≡ rcons c r
unfolding lstrip
lstrip-rcons c [] h = ground arith
lstrip-rcons c (d ∷ t) h = rw h

pub lstrip-rstrip : (s : Text) → lstrip (rstrip (lstrip s)) ≡ rstrip (lstrip s)
unfolding lstrip rstrip
lstrip-rstrip [] = refl
lstrip-rstrip (c ∷ s) = elim (Bool-cases (is_space c)) [
  | inl y ↦ rw y (lstrip-rstrip s)
  | inr n ↦ rw n (lstrip-rcons c (rstrip s) n)
]

pub strip_idem : (s : Text) → strip (strip s) ≡ strip s
unfolding strip
strip_idem s = rw (lstrip-rstrip s) (rstrip_idem (lstrip s))
