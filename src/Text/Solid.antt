-- ===== src/Text/Solid.antt =====
-- Texts without white space: numbers in decimal, which `strip` leaves as they are.
use missionforge.Common.{
  ℕ, zero, suc, ◌+◌, ◌-◌, ltb, ◌/◌, ◌%◌, ◌<◌, ◌≡◌, refl, inl, inr, arith, false, Bool-cases, [],
  ◌∷◌, length, All, All-append,
}
use missionforge.Text.{Text, strip, lstrip, rstrip, is_space}
use missionforge.Text.Decimal.{decimal, digits, zeros}

-- No character is white space.
abbrev pub IsSolid : Text → Type 0
IsSolid t = All (λ c. is_space c ≡ false) t

rstrip_plain : (t : Text) → All (λ c. is_space c ≡ false) t → rstrip t ≡ t
unfolding rstrip
rstrip_plain [] h = refl
rstrip_plain (c ∷ []) h = rw (h.0) refl
rstrip_plain (c ∷ d ∷ t) h = rw (rstrip_plain (d ∷ t) h.1) refl

pub strip_plain : (t : Text) → All (λ c. is_space c ≡ false) t → strip t ≡ t
unfolding strip lstrip
strip_plain [] h = rstrip_plain [] h
strip_plain (c ∷ t) h = rw (h.0) (rstrip_plain (c ∷ t) h)

digit-plain : (d : ℕ) → d < 10 → is_space (48 + d) ≡ false
unfolding is_space
digit-plain d h = ground arith

digits-IsSolid : (f n : ℕ) → IsSolid (digits f n)
unfolding digits
digits-IsSolid zero n = tt
digits-IsSolid (suc f) n = elim (Bool-cases (ltb n 10)) [
  | inl y ↦ rw y (digit-plain n (ground arith), tt)
  | inr m ↦ rw m (
      All-append (λ c. is_space c ≡ false) (digits f (n / 10)) ((48 + n % 10) ∷ [])
        (digits-IsSolid f (n / 10)) (digit-plain (n % 10) (omega arith), tt))
]

zeros-IsSolid : (k : ℕ) → IsSolid (zeros k)
unfolding zeros
zeros-IsSolid zero = tt
zeros-IsSolid (suc k) = (digit-plain 0 (omega arith), zeros-IsSolid k)

pub decimal-IsSolid : (k n : ℕ) → IsSolid (decimal k n)
unfolding decimal
decimal-IsSolid k n =
    All-append (λ c. is_space c ≡ false) (zeros (k - length (digits (suc n) n))) (digits (suc n) n)
      (zeros-IsSolid (k - length (digits (suc n) n))) (digits-IsSolid (suc n) n)
