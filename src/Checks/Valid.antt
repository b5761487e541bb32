-- ===== src/Checks/Valid.antt =====
-- A list that `validate_unique_refs` accepts has only refs that `validate_ref` accepts.
use missionforge.Common.{
  ◌≡◌, refl, sym, ap, map, ◌∙◌, List, [], ◌∷◌, All, Bool-cases, inl, inr, is_empty, subst,
}
use missionforge.Text.{Text, strip}
use missionforge.Text.Strip.{strip_idem}
use missionforge.Outcome.{ok, refuse, >>=-eq-ok, ok_injective, not_text_list}
use missionforge.Value.{text, texts, strings}
use missionforge.Contracts.{validate_ref, strip_items, require_str_list}
use missionforge.Contracts.Refs.{validate_ref_iff}
use missionforge.Checks.{validate_refs, ref_list, validate_unique_refs}

abbrev pub Accepted : Text → Type 0
Accepted t = (r : Text) × (validate_ref (text t) ≡ ok r)

Accepted-of_strip : (t : Text) → Accepted (strip t) → Accepted t
Accepted-of_strip t (r, h) =
    let (e, safe) = (validate_ref_iff (strip t) r).0 h in
    (r, (validate_ref_iff t r).1 (e ∙ strip_idem t, safe))

strip_items_shape :
    (t : Text) (ts rs : List Text)
    → strip_items (texts (t ∷ ts)) ≡ ok rs
    → (us : List Text) × (strip_items (texts ts) ≡ ok us) × (strip t ∷ us ≡ rs)
unfolding strip_items texts
strip_items_shape t ts rs h =
    let (us, e, f) = >>=-eq-ok (strip_items (texts ts)) _ h in
    elim (Bool-cases (is_empty (strip t))) [
      | inl y ↦ let g : refuse not_text_list ≡ ok rs = rw y at f in cc
      | inr n ↦ (us, e, ok_injective (rw n at f))
    ]

Accepted-items :
    (ts rs ss : List Text)
    → strip_items (texts ts) ≡ ok rs
    → validate_refs rs ≡ ok ss
    → All Accepted ts
unfolding validate_refs
Accepted-items [] rs ss h k = tt
Accepted-items (t ∷ ts) rs ss h k =
    let (us, e, shape) = strip_items_shape t ts rs h in
    let k' : validate_refs (strip t ∷ us) ≡ ok ss =
      subst (λ v. validate_refs v ≡ ok ss) (sym shape) k in
    let (s, g, l) = >>=-eq-ok (validate_ref (text (strip t))) _ k' in
    let (vs, m, n) = >>=-eq-ok (validate_refs us) _ l in
    (Accepted-of_strip t (s, g), Accepted-items ts us vs e m)

pub unique_refs-Accepted : (ts ss : List Text) → validate_unique_refs ts ≡ ok ss → All Accepted ts
unfolding validate_unique_refs ref_list require_str_list
unique_refs-Accepted ts ss h =
    let (us, e, f) = >>=-eq-ok (ref_list (strings ts)) _ h in
    let (rs, g, k) = >>=-eq-ok (strip_items (texts ts)) _ e in Accepted-items ts rs us g k

validate_refs-map : (rs ss : List Text) → validate_refs rs ≡ ok ss → ss ≡ map strip rs
unfolding validate_refs
validate_refs-map [] ss h = sym (ok_injective h)
validate_refs-map (r ∷ rs) ss h =
    let (s, e, f) = >>=-eq-ok (validate_ref (text r)) _ h in
    let (us, g, k) = >>=-eq-ok (validate_refs rs) _ f in
    cc (k, ((validate_ref_iff r s).0 e).0, validate_refs-map rs us g)

strip_items-map : (ts rs : List Text) → strip_items (texts ts) ≡ ok rs → rs ≡ map strip ts
unfolding strip_items texts
strip_items-map [] rs h = sym (ok_injective h)
strip_items-map (t ∷ ts) rs h =
    let (us, e, shape) = strip_items_shape t ts rs h in cc (shape, strip_items-map ts us e)

map-strip_idem : (ts : List Text) → map strip (map strip ts) ≡ map strip ts
map-strip_idem [] = refl
map-strip_idem (t ∷ ts) = cc (strip_idem t, map-strip_idem ts)

-- A parsed list of refs is the list without the white space around each.
pub ref_list-map : (ts ss : List Text) → ref_list (strings ts) ≡ ok ss → ss ≡ map strip ts
unfolding ref_list require_str_list
ref_list-map ts ss h =
    let (rs, e, f) = >>=-eq-ok (strip_items (texts ts)) _ h in
    validate_refs-map rs ss f ∙ ap (map strip) (strip_items-map ts rs e) ∙ map-strip_idem ts
