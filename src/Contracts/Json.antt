-- ===== src/Contracts/Json.antt =====
-- `ensure_json_value` of src/missionforge/contracts.py: which values are JSON.
use missionforge.Common.{
  ◌≡◌, refl, ◌↔◌, Bool, true, inl, inr, [], ◌∷◌, Bool-cases, subst, sym, if◌then◌else◌, arith,
}
use missionforge.Outcome.{Outcome, ok, refuse, not_finite, bad_key, not_json, ◌>>=◌, >>=-eq-ok}
use missionforge.Value.{
  ℤ, Value, null, boolean, integer, float, text, list, dict, object, Items, nil, cons, Fields, end,
  field, name, other_key, is_finite,
}

unfoldable mutual
  pub ensure_json_value : Value → Outcome Value
  ensure_json_value null = ok null
  ensure_json_value (boolean b) = ok (boolean b)
  ensure_json_value (text t) = ok (text t)
  ensure_json_value (integer n) = ok (integer n)
  ensure_json_value (float bits) = if is_finite bits then ok (float bits) else refuse not_finite
  ensure_json_value (list vs) = ensure_json_items vs >>= λ ws. ok (list ws)
  ensure_json_value (dict fs) = ensure_json_fields fs >>= λ gs. ok (dict gs)
  ensure_json_value (object n) = refuse not_json

  pub ensure_json_items : Items → Outcome Items
  ensure_json_items nil = ok nil
  ensure_json_items (cons v vs) =
      ensure_json_value v >>= λ w. ensure_json_items vs >>= λ ws. ok (cons w ws)

  pub ensure_json_fields : Fields → Outcome Fields
  ensure_json_fields end = ok end
  ensure_json_fields (field (other_key k) v fs) = refuse bad_key
  ensure_json_fields (field (name []) v fs) = refuse bad_key
  ensure_json_fields (field (name (c ∷ k)) v fs) =
      ensure_json_value v >>= λ w. ensure_json_fields fs >>= λ gs. ok (field (name (c ∷ k)) w gs)

-- A JSON value: finite numbers, and mappings whose keys are non-empty strings.
mutual
  pub data IsJson : Value → Type 0 where
    json_null : IsJson null
    json_boolean : (b : Bool) → IsJson (boolean b)
    json_text : (t : missionforge.Text.Text) → IsJson (text t)
    json_integer : (n : ℤ) → IsJson (integer n)
    json_float : (bits : missionforge.Common.ℕ) → is_finite bits ≡ true → IsJson (float bits)
    json_list : (vs : Items) → AreJson vs → IsJson (list vs)
    json_dict : (fs : Fields) → HasJson fs → IsJson (dict fs)

  pub data AreJson : Items → Type 0 where
    no_items : AreJson nil
    more_items : (v : Value) (vs : Items) → IsJson v → AreJson vs → AreJson (cons v vs)

  pub data HasJson : Fields → Type 0 where
    no_fields : HasJson end
    more_fields :
        (c : missionforge.Common.ℕ) (k : missionforge.Text.Text) (v : Value) (fs : Fields)
        → IsJson v
        → HasJson fs
        → HasJson (field (name (c ∷ k)) v fs)

mutual
  unfolding ensure_json_value

  json_complete : (v : Value) → IsJson v → ensure_json_value v ≡ ok v
  json_complete null h = refl
  json_complete (boolean b) h = refl
  json_complete (text t) h = refl
  json_complete (integer n) h = refl
  json_complete (float bits) (json_float _ f) = rw f
  json_complete (list vs) (json_list _ h) = rw (items_complete vs h)
  json_complete (dict fs) (json_dict _ h) = rw (fields_complete fs h)
  json_complete (object n) h = elim h [ ]

  items_complete : (vs : Items) → AreJson vs → ensure_json_items vs ≡ ok vs
  items_complete nil h = refl
  items_complete (cons v vs) (more_items _ _ h k) =
      rw (json_complete v h) (rw (items_complete vs k))

  fields_complete : (fs : Fields) → HasJson fs → ensure_json_fields fs ≡ ok fs
  fields_complete end h = refl
  fields_complete (field (other_key k) v fs) h = elim h [ ]
  fields_complete (field (name []) v fs) h = elim h [ ]
  fields_complete (field (name (c ∷ k)) v fs) (more_fields _ _ _ _ h g) =
      rw (json_complete v h) (rw (fields_complete fs g))

mutual
  unfolding ensure_json_value

  pub IsJson-sound : (v w : Value) → ensure_json_value v ≡ ok w → (w ≡ v) × IsJson v
  IsJson-sound null w h = (cc, json_null)
  IsJson-sound (boolean b) w h = (cc, json_boolean b)
  IsJson-sound (text t) w h = (cc, json_text t)
  IsJson-sound (integer n) w h = (cc, json_integer n)
  IsJson-sound (float bits) w h = elim (Bool-cases (is_finite bits)) [
    | inl y ↦ let k = rw y at h in (cc, json_float bits y)
    | inr n ↦ let k = rw n at h in cc
  ]
  IsJson-sound (list vs) w h =
      let (ws, e, f) = >>=-eq-ok (ensure_json_items vs) _ h in
      let (same, js) = items_sound vs ws e in (cc, json_list vs js)
  IsJson-sound (dict fs) w h =
      let (gs, e, f) = >>=-eq-ok (ensure_json_fields fs) _ h in
      let (same, js) = fields_sound fs gs e in (cc, json_dict fs js)
  IsJson-sound (object n) w h = cc

  items_sound : (vs ws : Items) → ensure_json_items vs ≡ ok ws → (ws ≡ vs) × AreJson vs
  items_sound nil ws h = (cc, no_items)
  items_sound (cons v vs) ws h =
      let (x, e, f) = >>=-eq-ok (ensure_json_value v) _ h in
      let (xs, e', f') = >>=-eq-ok (ensure_json_items vs) _ f in
      let (p, j) = IsJson-sound v x e in
      let (q, js) = items_sound vs xs e' in (cc, more_items v vs j js)

  fields_sound : (fs gs : Fields) → ensure_json_fields fs ≡ ok gs → (gs ≡ fs) × HasJson fs
  fields_sound end gs h = (cc, no_fields)
  fields_sound (field (other_key k) v fs) gs h = cc
  fields_sound (field (name []) v fs) gs h = cc
  fields_sound (field (name (c ∷ k)) v fs) gs h =
      let (x, e, f) = >>=-eq-ok (ensure_json_value v) _ h in
      let (xs, e', f') = >>=-eq-ok (ensure_json_fields fs) _ f in
      let (p, j) = IsJson-sound v x e in
      let (q, js) = fields_sound fs xs e' in (cc, more_fields c k v fs j js)

-- `ensure_json_value` accepts exactly the JSON values, and returns them as they are.
pub ensure_json_value_iff : (v w : Value) → (ensure_json_value v ≡ ok w) ↔ ((w ≡ v) × IsJson v)
ensure_json_value_iff v w = (
  IsJson-sound v w,
  λ (e, h). subst (λ u. ensure_json_value v ≡ ok u) (sym e) (json_complete v h),
)
