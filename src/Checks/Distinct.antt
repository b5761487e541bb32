-- ===== src/Checks/Distinct.antt =====
-- Lists of texts without a repetition.
use missionforge.Common.{◌≡◌, refl, true, false, List, [], ◌∷◌, arith}
use missionforge.Text.{Text, text_eq}
use missionforge.Text.Equality.{text_eq_refl}
use missionforge.Checks.{member}

-- No text of the list comes again behind itself.
abbrev pub IsDistinct : List Text → Type 0
IsDistinct [] = Unit
IsDistinct (r ∷ rs) = (member r rs ≡ false) × IsDistinct rs

pub member-first : (r : Text) (rs : List Text) → member r (r ∷ rs) ≡ true
unfolding member
member-first r rs = rw (text_eq_refl r) refl

pub member-more : (r s : Text) (rs : List Text) → member r rs ≡ true → member r (s ∷ rs) ≡ true
unfolding member
member-more r s rs h = ground (arith, h)

-- Of a list that starts with `s`, a text that is not `s` is a member if it is one of the rest.
pub member-rest :
    (r s : Text) (rs : List Text)
    → member r rs ≡ false
    → text_eq s r ≡ false
    → member r (s ∷ rs) ≡ false
unfolding member
member-rest r s rs h n = ground (arith, h, n)
