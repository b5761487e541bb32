-- ===== src/Text/Decimal.antt =====
-- Numbers in format strings, `f"{n:03d}"`: decimal digits with zeros in front up to a width.
use missionforge.Common.{
  ℕ, zero, suc, ◌+◌, ◌-◌, ◌*◌, ◌/◌, ◌%◌, ◌<◌, ◌≡◌, refl, ◌∙◌, [], ◌∷◌, ◌++◌, ltb, if◌then◌else◌,
  length, Bool-cases, inl, inr, arith,
}
use missionforge.Text.{Text}

-- The digits of a number; a fuel above the number is enough.
unfoldable pub digits : ℕ → ℕ → Text
digits zero n = []
digits (suc f) n =
    let rest = digits f (n / 10) ++ (48 + n % 10) ∷ [] in if ltb n 10 then (48 + n) ∷ [] else rest

unfoldable pub zeros : ℕ → Text
zeros zero = []
zeros (suc n) = b'0' ∷ zeros n

unfoldable pub decimal : ℕ → ℕ → Text
unfolding digits zeros
decimal width n = let t = digits (suc n) n in zeros (width - length t) ++ t

-- The number that a text of digits stands for, after `acc`.
unfoldable pub read_from : ℕ → Text → ℕ
read_from acc [] = acc
read_from acc (c ∷ s) = read_from (acc * 10 + (c - 48)) s

read_from-append : (acc : ℕ) (s t : Text) → read_from acc (s ++ t) ≡ read_from (read_from acc s) t
unfolding read_from
read_from-append acc [] t = refl
read_from-append acc (c ∷ s) t = read_from-append (acc * 10 + (c - 48)) s t

read-digits : (f n : ℕ) → n < f → read_from 0 (digits f n) ≡ n
unfolding digits read_from
read-digits zero n h = elim h [ ]
read-digits (suc f) n h = elim (Bool-cases (ltb n 10)) [
  | inl y ↦ rw y (omega arith)
  | inr m ↦ rw m (
      read_from-append 0 (digits f (n / 10)) ((48 + n % 10) ∷ [])
      ∙ (rw (read-digits f (n / 10) (ground arith)) (omega arith)))
]

read-zeros : (k : ℕ) (t : Text) → read_from 0 (zeros k ++ t) ≡ read_from 0 t
unfolding zeros read_from
read-zeros zero t = refl
read-zeros (suc k) t = read-zeros k t

-- A formatted number reads back as itself, at every width: no two numbers are written alike.
pub read-decimal : (width n : ℕ) → read_from 0 (decimal width n) ≡ n
unfolding decimal
read-decimal width n =
    read-zeros (width - length (digits (suc n) n)) (digits (suc n) n)
    ∙ read-digits (suc n) n (omega arith)
