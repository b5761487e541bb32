-- ===== src/Text/Maps.antt =====
-- Python's `dict` with string keys, in insertion order, each key once.
use missionforge.Common.{
  ◌≡◌, refl, sym, subst, false, Bool-cases, inl, inr, Option, none, some, List, [], ◌∷◌,
  if◌then◌else◌,
}
use missionforge.Text.{Text, text_eq}
use missionforge.Text.Equality.{text_eq_sound, text_eq_refl}

-- `mapping[key] = value`
unfoldable pub put {ℓ} : {A : Type ℓ} → Text → A → List (Text × A) → List (Text × A)
put k v [] = (k, v) ∷ []
put k v ((j, w) ∷ m) = let rest = put k v m in if text_eq j k then (j, v) ∷ m else (j, w) ∷ rest

-- `mapping.get(key)`
unfoldable pub lookup {ℓ} : {A : Type ℓ} → Text → List (Text × A) → Option A
lookup k [] = none
lookup k ((j, v) ∷ m) = let rest = lookup k m in if text_eq j k then some v else rest

module _ {ℓ} {A : Type ℓ} where
  -- The entry of a key that was not written is the one before.
  pub lookup-put_other :
      (k j : Text) (v : A) (m : List (Text × A))
      → text_eq k j ≡ false
      → lookup j (put k v m) ≡ lookup j m
  unfolding put lookup
  lookup-put_other k j v [] h = rw h refl
  lookup-put_other k j v ((i, w) ∷ m) h = elim (Bool-cases (text_eq i k)) [
    | inl y ↦
        let n : text_eq i j ≡ false =
          subst (λ u. text_eq u j ≡ false) (sym (text_eq_sound i k y)) h in
        rw (y, n) refl
    | inr n ↦ elim (Bool-cases (text_eq i j)) [
      | inl z ↦ rw (n, z) refl
      | inr o ↦ rw (n, o) (lookup-put_other k j v m h)
    ]
  ]

  pub lookup-put_self : (k : Text) (v : A) (m : List (Text × A)) → lookup k (put k v m) ≡ some v
  unfolding put lookup
  lookup-put_self k v [] = rw (text_eq_refl k) refl
  lookup-put_self k v ((i, w) ∷ m) = elim (Bool-cases (text_eq i k)) [
    | inl y ↦ rw (y, y) refl
    | inr n ↦ rw (n, n) (lookup-put_self k v m)
  ]
