-- ===== src/Kernel/Route/Distinct.antt =====
-- What `_dedupe_refs` of src/missionforge/kernel/runner.py keeps.
use missionforge.Common.{
  ◌≡◌, refl, sym, subst, ◌⊎◌, inl, inr, true, false, List, [], ◌∷◌, map, All, All-map, Bool-cases,
}
use missionforge.Text.{Text, text_eq, strip}
use missionforge.Text.Equality.{text_eq_sound}
use missionforge.Outcome.{ok, ◌>>=◌, >>=-eq-ok, ok_injective}
use missionforge.Value.{text}
use missionforge.Contracts.{validate_ref}
use missionforge.Contracts.Refs.{validate_ref_iff}
use missionforge.Checks.{member}
use missionforge.Checks.Distinct.{IsDistinct, member-first, member-more, member-rest}
use missionforge.Kernel.Route.{dedupe, dedupe_refs}

-- What holds of the texts kept, `seen` being the ones kept before.
record Kept (seen vs rs : List Text) : Type 0 where
  distinct : IsDistinct rs
  fresh : (r : Text) → member r seen ≡ true → member r rs ≡ false
  all : All (λ v. (member (strip v) seen ≡ true) ⊎ (member (strip v) rs ≡ true)) vs
  from : All (λ r. member r (map strip vs) ≡ true) rs

Kept-dropped :
    (seen vs rs : List Text) (v r : Text)
    → r ≡ strip v
    → member r seen ≡ true
    → Kept seen vs rs
    → Kept seen (v ∷ vs) rs
Kept-dropped seen vs rs v r same old k = record {
  distinct = k.distinct;
  fresh = k.fresh;
  all = (inl (subst (λ t. member t seen ≡ true) same old), k.all);
  from =
      All-map (λ t. member t (map strip vs) ≡ true) (λ t. member t (map strip (v ∷ vs)) ≡ true) rs
        (λ t h. member-more t (strip v) (map strip vs) h) k.from;
}

-- A text that was kept before, the newest one included, is kept before or is kept now.
moved :
    (t r : Text) (seen rs : List Text)
    → (member t (r ∷ seen) ≡ true) ⊎ (member t rs ≡ true)
    → (member t seen ≡ true) ⊎ (member t (r ∷ rs) ≡ true)
unfolding member
moved t r seen rs (inr h) = inr (member-more t r rs h)
moved t r seen rs (inl h) = elim (Bool-cases (text_eq r t)) [
  | inl y ↦ inr (rw y refl)
  | inr n ↦ inl (rw n at h)
]

Kept-first :
    (seen vs rs : List Text) (v r : Text)
    → r ≡ strip v
    → member r seen ≡ false
    → Kept (r ∷ seen) vs rs
    → Kept seen (v ∷ vs) (r ∷ rs)
unfolding member
Kept-first seen vs rs v r same new k = record {
  distinct = (k.fresh r (member-first r seen), k.distinct);
  fresh = λ s h. elim (Bool-cases (text_eq r s)) [
    | inl y ↦
        let one : member r seen ≡ true =
          subst (λ t. member t seen ≡ true) (sym (text_eq_sound r s y)) h in
        absurd (cc (one, new))
    | inr n ↦ member-rest s r rs (k.fresh s (member-more s r seen h)) n
  ];
  all = (
    inr (subst (λ t. member t (r ∷ rs) ≡ true) same (member-first r rs)),
    All-map (λ w. (member (strip w) (r ∷ seen) ≡ true) ⊎ (member (strip w) rs ≡ true))
        (λ w. (member (strip w) seen ≡ true) ⊎ (member (strip w) (r ∷ rs) ≡ true)) vs
        (λ w h. moved (strip w) r seen rs h) k.all,
  );
  from = (
    subst (λ t. member t (strip v ∷ map strip vs) ≡ true) (sym same)
        (member-first (strip v) (map strip vs)),
    All-map (λ t. member t (map strip vs) ≡ true) (λ t. member t (map strip (v ∷ vs)) ≡ true) rs
        (λ t h. member-more t (strip v) (map strip vs) h) k.from,
  );
}

dedupe-Kept : (seen vs rs : List Text) → dedupe seen vs ≡ ok rs → Kept seen vs rs
unfolding dedupe member
dedupe-Kept seen [] rs h =
    subst (Kept seen []) (ok_injective h)
      (record { distinct = tt; fresh = λ r e. refl; all = tt; from = tt })
dedupe-Kept seen (v ∷ vs) rs h =
    let (r, a, f) = >>=-eq-ok (validate_ref (text v)) _ h in
    let same = ((validate_ref_iff v r).0 a).0 in
    elim (Bool-cases (member r seen)) [
      | inl y ↦ Kept-dropped seen vs rs v r same y (dedupe-Kept seen vs rs (rw y at f))
      | inr n ↦
          let g : (dedupe (r ∷ seen) vs >>= λ rest. ok (r ∷ rest)) ≡ ok rs = rw n at f in
          let (rest, b, e) = >>=-eq-ok (dedupe (r ∷ seen) vs) _ g in
          subst (Kept seen (v ∷ vs)) (ok_injective e)
            (Kept-first seen vs rest v r same n (dedupe-Kept (r ∷ seen) vs rest b))
    ]

-- What `_dedupe_refs` returns has no ref twice, holds every ref of its argument, without the white
-- space around it, and holds nothing else.
pub dedupe_refs-IsDistinct :
    (vs rs : List Text)
    → dedupe_refs vs ≡ ok rs
    → IsDistinct rs
      × All (λ v. member (strip v) rs ≡ true) vs
      × All (λ r. member r (map strip vs) ≡ true) rs
unfolding dedupe_refs member
dedupe_refs-IsDistinct vs rs h =
    let kept = dedupe-Kept [] vs rs h in
    (
      kept.distinct,
      All-map (λ v. (member (strip v) [] ≡ true) ⊎ (member (strip v) rs ≡ true))
          (λ v. member (strip v) rs ≡ true) vs (λ v k. held (strip v) k) kept.all,
      kept.from,
    )
  where
    held : (t : Text) → (member t [] ≡ true) ⊎ (member t rs ≡ true) → member t rs ≡ true
    held t (inl k) = absurd (cc)
    held t (inr k) = k
