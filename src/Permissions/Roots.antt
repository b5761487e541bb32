-- ===== src/Permissions/Roots.antt =====
-- Refs below some root of a list: `any(ref_is_under(ref, root) for root in roots)`, which
-- src/missionforge/piworker_call.py and kernel/compiler.py write.
use missionforge.Common.{
  map, ◌≡◌, sym, subst, Bool, true, false, inl, inr, Bool-cases, List, [], ◌∷◌, All, if◌then◌else◌,
}
use missionforge.Text.{Text, strip, text_eq}
use missionforge.Text.Equality.{text_eq_sound}
use missionforge.Text.Strip.{strip_idem}
use missionforge.Checks.{member}
use missionforge.Outcome.{Outcome, ok, ◌>>=◌, >>=-eq-ok}
use missionforge.Value.{text}
use missionforge.Contracts.{validate_ref}
use missionforge.Contracts.Refs.{validate_ref_idem}
use missionforge.Permissions.{ref_is_under}
use missionforge.Permissions.Paths.{Below, ref_is_under_iff}
use missionforge.Permissions.Decisions.{InRoots, valid_strip, InRoots-of_strip}

unfoldable pub under_any : Text → List Text → Outcome Bool
under_any ref [] = ok false
under_any ref (root ∷ roots) = do
  found ← ref_is_under ref root
  let rest = under_any ref roots
  if found then ok true else rest

-- The test reads both refs without the white space around them.
pub Below-of_under :
    (ref root : Text) → ref_is_under ref root ≡ ok true → Below (strip root) (strip ref)
unfolding ref_is_under
Below-of_under ref root h =
    let (r, v, h1) = >>=-eq-ok (validate_ref (text ref)) _ h in
    let (s, w, h2) = >>=-eq-ok (validate_ref (text root)) _ h1 in
    let normal : ref_is_under r s ≡ ok true =
      rw (validate_ref_idem ref r v, validate_ref_idem root s w) h2 in
    let below : Below s r =
      (ref_is_under_iff r s (validate_ref_idem ref r v) (validate_ref_idem root s w)).0 normal in
    subst (λ x. Below (strip root) x) (valid_strip ref r v)
      (subst (λ x. Below x r) (valid_strip root s w) below)

pub InRoots-of_any :
    (ref : Text) (roots : List Text) → under_any ref roots ≡ ok true → InRoots (strip ref) roots
unfolding under_any
InRoots-of_any ref [] h = cc
InRoots-of_any ref (root ∷ roots) h =
    let (b, e, f) = >>=-eq-ok (ref_is_under ref root) _ h in
    elim (Bool-cases b) [
      | inl y ↦ inl (Below-of_under ref root (subst (λ c. ref_is_under ref root ≡ ok c) y e))
      | inr n ↦ inr (InRoots-of_any ref roots (rw n at f))
    ]

-- A no of the test is a no: the ref does not lie below the root.
pub not_Below-of_under :
    (ref root : Text) → ref_is_under ref root ≡ ok false → ¬ Below (strip root) (strip ref)
unfolding ref_is_under
not_Below-of_under ref root h below =
    let (r, v, h1) = >>=-eq-ok (validate_ref (text ref)) _ h in
    let (s, w, h2) = >>=-eq-ok (validate_ref (text root)) _ h1 in
    let idem = validate_ref_idem ref r v in
    let idem' = validate_ref_idem root s w in
    let normal : ref_is_under r s ≡ ok false = rw (idem, idem') h2 in
    let here : Below s r =
      subst (λ x. Below x r) (sym (valid_strip root s w))
        (subst (λ x. Below (strip root) x) (sym (valid_strip ref r v)) below) in
    let k = (ref_is_under_iff r s idem idem').1 here in cc

pub InRoots-member :
    (r w : Text) (rs : List Text) → Below (strip w) r → member w rs ≡ true → InRoots r rs
unfolding member
InRoots-member r w [] b h = cc
InRoots-member r w (s ∷ rs) b h = elim (Bool-cases (text_eq s w)) [
  | inl y ↦ inl (subst (λ x. Below (strip x) r) (sym (text_eq_sound s w y)) b)
  | inr n ↦ inr (InRoots-member r w rs b (rw n at h))
]

-- What lies in some roots lies in the roots kept of them, and back.
pub InRoots-kept :
    (r : Text) (vs rs : List Text)
    → All (λ v. member (strip v) rs ≡ true) vs
    → InRoots r vs
    → InRoots r rs
InRoots-kept r [] rs h i = absurd i
InRoots-kept r (v ∷ vs) rs (h, hs) (inl b) =
    InRoots-member r (strip v) rs (subst (λ x. Below x r) (sym (strip_idem v)) b) h
InRoots-kept r (v ∷ vs) rs (h, hs) (inr i) = InRoots-kept r vs rs hs i

pub InRoots-from :
    (r : Text) (vs rs : List Text)
    → All (λ s. member s (map strip vs) ≡ true) rs
    → InRoots r rs
    → InRoots r vs
InRoots-from r vs [] h i = absurd i
InRoots-from r vs (s ∷ rs) (h, hs) (inl b) =
    InRoots-of_strip r vs (InRoots-member r s (map strip vs) b h)
InRoots-from r vs (s ∷ rs) (h, hs) (inr i) = InRoots-from r vs rs hs i
