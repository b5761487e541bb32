-- ===== src/Checks/Fixed.antt =====
-- The checks return what they accept unchanged, when they are given their own results.
use missionforge.Common.{
  ◌≡◌, refl, sym, ◌∙◌, ap, List, [], ◌∷◌, Bool-cases, inl, inr, is_empty, subst, false, All,
}
use missionforge.Text.{Text, strip}
use missionforge.Text.Strip.{strip_idem}
use missionforge.Outcome.{ok, refuse, >>=-eq-ok, not_text_list, empty_text, ok_injective}
use missionforge.Value.{Value, text, list, dict, Items, nil, cons, texts}
use missionforge.Platform.{Platform}
use missionforge.Contracts.{
  require_non_empty_str, strip_items, require_str_list, validate_ref, require_mapping,
}
use missionforge.Contracts.Json.{ensure_json_value, ensure_json_value_iff}
use missionforge.Contracts.Payload.{
  assert_refs_only_payload, reject_forbidden, validate_payload_refs,
}
use missionforge.Contracts.Refs.{validate_ref_iff, validate_ref_idem, safe_not_empty}
use missionforge.Checks.{validate_refs, ref_list, safe_mapping}

-- A string that the checks return: stripped and not empty.
abbrev pub IsFixed : Text → Type 0
IsFixed t = (strip t ≡ t) × (is_empty t ≡ false)

pub non_empty-IsFixed : (v : Value) (t : Text) → require_non_empty_str v ≡ ok t → IsFixed t
unfolding require_non_empty_str
non_empty-IsFixed (text s) t h = elim (Bool-cases (is_empty (strip s))) [
  | inl y ↦ let e : refuse empty_text ≡ ok t = rw y at h in cc
  | inr n ↦ let e : strip s ≡ t = ok_injective (rw n at h) in subst IsFixed e (strip_idem s, n)
]
non_empty-IsFixed _ t h = cc

IsFixed-non_empty : (t : Text) → IsFixed t → require_non_empty_str (text t) ≡ ok t
unfolding require_non_empty_str
IsFixed-non_empty t h = rw h.0 (rw h.1 refl)

pub non_empty_fixed :
    (v : Value) (t : Text) → require_non_empty_str v ≡ ok t → require_non_empty_str (text t) ≡ ok t
non_empty_fixed v t h = IsFixed-non_empty t (non_empty-IsFixed v t h)

pub ref_fixed : (v : Value) (r : Text) → validate_ref v ≡ ok r → validate_ref (text r) ≡ ok r
unfolding validate_ref require_non_empty_str
ref_fixed (text t) r h = validate_ref_idem t r h
ref_fixed _ r h = cc

ref-IsFixed : (t r : Text) → validate_ref (text t) ≡ ok r → IsFixed r
ref-IsFixed t r h =
    let (e, safe) = (validate_ref_iff t r).0 h in
    (ap strip e ∙ strip_idem t ∙ sym e, safe_not_empty r safe)

strip_items-texts : (rs : List Text) → All IsFixed rs → strip_items (texts rs) ≡ ok rs
unfolding strip_items texts
strip_items-texts [] h = refl
strip_items-texts (r ∷ rs) h = rw (strip_items-texts rs h.1) (rw h.0.0 (rw h.0.1 refl))

pub str_list_fixed : (rs : List Text) → All IsFixed rs → require_str_list (list (texts rs)) ≡ ok rs
unfolding require_str_list
str_list_fixed rs h = strip_items-texts rs h

strip_items-IsFixed : (vs : Items) (rs : List Text) → strip_items vs ≡ ok rs → All IsFixed rs
unfolding strip_items
strip_items-IsFixed nil rs h = subst (All IsFixed) (ok_injective h) tt
strip_items-IsFixed (cons (text t) vs) rs h =
    let (ss, e, f) = >>=-eq-ok (strip_items vs) _ h in
    elim (Bool-cases (is_empty (strip t))) [
      | inl y ↦ let g : refuse not_text_list ≡ ok rs = rw y at f in cc
      | inr n ↦
          let g : (strip t ∷ ss) ≡ rs = ok_injective (rw n at f) in
          subst (All IsFixed) g ((strip_idem t, n), strip_items-IsFixed vs ss e)
    ]
strip_items-IsFixed (cons _ vs) rs h = cc

pub str_list-IsFixed : (v : Value) (rs : List Text) → require_str_list v ≡ ok rs → All IsFixed rs
unfolding require_str_list
str_list-IsFixed (list vs) rs h = strip_items-IsFixed vs rs h
str_list-IsFixed _ rs h = cc

-- What `validate_refs` returns is accepted again, and stripped.
record RefsFixed (ss : List Text) : Type 0 where
  again : validate_refs ss ≡ ok ss
  stripped : All IsFixed ss

validate_refs-RefsFixed : (rs ss : List Text) → validate_refs rs ≡ ok ss → RefsFixed ss
unfolding validate_refs
validate_refs-RefsFixed [] ss h =
    subst RefsFixed (ok_injective h) (record { again = refl; stripped = tt })
validate_refs-RefsFixed (r ∷ rs) ss h =
    let (s, e, f) = >>=-eq-ok (validate_ref (text r)) _ h in
    let (us, e', f') = >>=-eq-ok (validate_refs rs) _ f in
    let rest = validate_refs-RefsFixed rs us e' in
    subst RefsFixed (ok_injective f') (record {
      again = rw (ref_fixed (text r) s e) (rw rest.again refl);
      stripped = (ref-IsFixed r s e, rest.stripped);
    })

-- A parsed list of refs is parsed again as itself.
pub ref_list_fixed :
    (v : Value) (ss : List Text) → ref_list v ≡ ok ss → ref_list (list (texts ss)) ≡ ok ss
unfolding ref_list
ref_list_fixed v ss h =
    let (rs, e, f) = >>=-eq-ok (require_str_list v) _ h in
    let fixed = validate_refs-RefsFixed rs ss f in rw (str_list_fixed ss fixed.stripped) fixed.again

-- A safe mapping is returned as it is.
pub safe_mapping-same : (py : Platform) (v m : Value) → safe_mapping py v ≡ ok m → m ≡ v
unfolding safe_mapping require_mapping assert_refs_only_payload
safe_mapping-same py (dict fs) m h =
    let (n, e, h1) = >>=-eq-ok (ensure_json_value (dict fs)) _ h in
    let (u, e2, h2) = >>=-eq-ok (reject_forbidden py.lower n) _ h1 in
    let (w, e3, h3) = >>=-eq-ok (validate_payload_refs py.lower n) _ h2 in
    sym (ok_injective h3) ∙ ((ensure_json_value_iff (dict fs) n).0 e).0
safe_mapping-same py _ m h = absurd (cc)

pub mapping_fixed :
    (py : Platform) (v m : Value) → safe_mapping py v ≡ ok m → safe_mapping py m ≡ ok m
mapping_fixed py v m h = subst (λ u. safe_mapping py u ≡ ok m) (sym (safe_mapping-same py v m h)) h
