-- ===== src/Text/Split.antt =====
-- `split` and joining are inverse, and `split` takes a separator in the middle apart.
use missionforge.Common.{
  ℕ, ◌≡◌, refl, sym, ap, ◌∙◌, inl, inr, true, Bool, List, [], ◌∷◌, ◌++◌, ◌||◌, ◌↔◌, arith, ==_iff,
  ◌==◌, Bool-cases,
}
use mathlib.Core.List.{append-nil, append_assoc}
use missionforge.Text.{Text, cons_head, split, text_eq, starts_with}
use missionforge.Text.Equality.{text_eq_iff, starts_with_append, starts_with_rest}

abbrev pub join : ℕ → List Text → Text
join sep [] = []
join sep (w ∷ []) = w
join sep (w ∷ v ∷ ws) = w ++ sep ∷ join sep (v ∷ ws)

-- `split` never returns the empty list.
pub split_cons : (sep : ℕ) (s : Text) → (w : Text) × (ws : List Text) × (split sep s ≡ w ∷ ws)
unfolding split
split_cons sep [] = ([], [], refl)
split_cons sep (c ∷ s) =
    let (w, ws, e) = split_cons sep s in
    elim (Bool-cases (c == sep)) [
      | inl y ↦ ([], split sep s, rw y refl)
      | inr n ↦ (c ∷ w, ws, rw (n, e) refl)
    ]

join-cons_head :
    (sep c : ℕ) (w : Text) (ws : List Text)
    → join sep (cons_head c (w ∷ ws)) ≡ c ∷ join sep (w ∷ ws)
join-cons_head sep c w [] = refl
join-cons_head sep c w (v ∷ ws) = refl

pub join-split : (sep : ℕ) (s : Text) → join sep (split sep s) ≡ s
unfolding split
join-split sep [] = refl
join-split sep (c ∷ s) =
    let (w, ws, e) = split_cons sep s in
    elim (Bool-cases (c == sep)) [
      | inl y ↦ rw y (rw e (cc ((==_iff c sep).0 y, e, join-split sep s)))
      | inr n ↦
          rw n (rw e (join-cons_head sep c w ws ∙ ap (λ r. c ∷ r) (rw e at (join-split sep s))))
    ]

pub split-append : (sep : ℕ) (s t : Text) → split sep (s ++ sep ∷ t) ≡ split sep s ++ split sep t
unfolding split
split-append sep [] t = ground arith
split-append sep (c ∷ s) t =
    let (w, ws, e) = split_cons sep s in
    elim (Bool-cases (c == sep)) [
      | inl y ↦ rw y (rw (split-append sep s t))
      | inr n ↦ rw n (rw (split-append sep s t) (rw e))
    ]

join-append :
    (sep : ℕ) (w : Text) (ws : List Text) (v : Text) (vs : List Text)
    → join sep ((w ∷ ws) ++ (v ∷ vs)) ≡ join sep (w ∷ ws) ++ sep ∷ join sep (v ∷ vs)
join-append sep w [] v vs = refl
join-append sep w (u ∷ ws) v vs =
    rw (join-append sep u ws v vs) (sym (append_assoc w (sep ∷ join sep (u ∷ ws)) _))

-- `ref == root or ref.startswith(f"{root}/")`, at the separator `sep`
abbrev pub under : ℕ → Text → Text → Bool
under sep root ref = text_eq ref root || starts_with (root ++ sep ∷ []) ref

under_of_split :
    (sep : ℕ) (root ref : Text) (ws : List Text)
    → split sep ref ≡ split sep root ++ ws
    → under sep root ref ≡ true
under_of_split sep root ref [] h =
    let e : ref ≡ root =
      sym (join-split sep ref) ∙ ap (join sep) (h ∙ append-nil _) ∙ join-split sep root in
    ground (arith, text_eq_iff ref root)
under_of_split sep root ref (v ∷ vs) h =
    let (w, us, e) = split_cons sep root in
    let back : join sep (w ∷ us) ≡ root = rw e at (join-split sep root) in
    let whole : ref ≡ root ++ sep ∷ join sep (v ∷ vs) =
      sym (join-split sep ref)
      ∙ ap (join sep) (h ∙ ap (λ r. r ++ v ∷ vs) e)
      ∙ join-append sep w us v vs
      ∙ ap (λ r. r ++ sep ∷ join sep (v ∷ vs)) back in
    let whole' : ref ≡ (root ++ sep ∷ []) ++ join sep (v ∷ vs) =
      whole ∙ sym (append_assoc root (sep ∷ []) _) in
    rw whole' (ground (arith, starts_with_append (root ++ sep ∷ []) (join sep (v ∷ vs))))

-- The string test holds exactly when the segments of the root begin the segments of the other.
pub under_iff :
    (sep : ℕ) (root ref : Text)
    → (under sep root ref ≡ true) ↔ ((ws : List Text) × (split sep ref ≡ split sep root ++ ws))
under_iff sep root ref = (forward, λ (ws, h). under_of_split sep root ref ws h)
  where
    forward : under sep root ref ≡ true → (ws : List Text) × (split sep ref ≡ split sep root ++ ws)
    forward h = elim (Bool-cases (text_eq ref root)) [
      | inl y ↦ ([], ap (split sep) ((text_eq_iff ref root).0 y) ∙ sym (append-nil _))
      | inr n ↦
          let (r, e) = starts_with_rest (root ++ sep ∷ []) ref (ground arith) in
          (
            split sep r,
            ap (split sep) (e ∙ append_assoc root (sep ∷ []) r) ∙ split-append sep root r,
          )
    ]
