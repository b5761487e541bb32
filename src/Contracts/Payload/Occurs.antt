-- ===== src/Contracts/Payload/Occurs.antt =====
-- What an accepted payload holds, at any depth.
use missionforge.Common.{
  ◌≡◌, refl, true, false, List, [], ◌∷◌, ◌⊎◌, Bool-cases, All, inl, inr, sym, subst,
}
use missionforge.Text.{Text, strip}
use missionforge.Outcome.{Outcome, ok, raise, ◌>>◌, >>=-eq-ok}
use missionforge.Value.{
  Value, null, text, list, dict, Items, nil, cons, Fields, end, field, name, other_key, Key,
}
use missionforge.Contracts.{require_str_list, strip_items, validate_ref, require_non_empty_str}
use missionforge.Contracts.Refs.{IsSafeRef, validate_ref_iff}
use missionforge.Contracts.Json.{ensure_json_value, ensure_json_value_iff}
use missionforge.Contracts.Payload.{
  is_forbidden_key, is_refs_key, is_ref_key, validate_all, check_refs_item, check_ref_item,
  check_field, reject_forbidden, reject_forbidden_items, reject_forbidden_fields,
  validate_payload_refs, validate_payload_refs_items, validate_payload_refs_fields,
  assert_refs_only_payload,
}

-- The key `k` stands with the value `v` in a mapping somewhere inside.
mutual
  pub data Occurs (k : Text) (v : Value) : Value → Type 0 where
    in_list : (vs : Items) → OccursItem k v vs → Occurs k v (list vs)
    in_dict : (fs : Fields) → OccursField k v fs → Occurs k v (dict fs)

  pub data OccursItem (k : Text) (v : Value) : Items → Type 0 where
    in_item : (x : Value) (xs : Items) → Occurs k v x → OccursItem k v (cons x xs)
    in_items : (x : Value) (xs : Items) → OccursItem k v xs → OccursItem k v (cons x xs)

  pub data OccursField (k : Text) (v : Value) : Fields → Type 0 where
    at_field : (fs : Fields) → OccursField k v (field (name k) v fs)
    in_value : (j : Key) (x : Value) (fs : Fields) → Occurs k v x → OccursField k v (field j x fs)
    in_fields :
        (j : Key) (x : Value) (fs : Fields) → OccursField k v fs → OccursField k v (field j x fs)

-- Inversion of `m >> n`.
then_ok : (m n : Outcome (Unit {0})) → (m >> n) ≡ ok tt → (m ≡ ok tt) × (n ≡ ok tt)
then_ok (ok u) n h = (refl, h)
then_ok (raise e) n h = cc

fields_parts :
    (lower : Text → Text) (j : Key) (x : Value) (fs : Fields)
    → reject_forbidden_fields lower (field j x fs) ≡ ok tt
    → (reject_forbidden lower x ≡ ok tt) × (reject_forbidden_fields lower fs ≡ ok tt)
unfolding reject_forbidden
fields_parts lower (other_key n) x fs h = then_ok _ _ h
fields_parts lower (name j) x fs h = elim (Bool-cases (is_forbidden_key (lower j))) [
  | inl y ↦ let e = rw y at h in cc
  | inr n ↦ then_ok _ _ (rw n at h)
]

key_allowed :
    (lower : Text → Text) (j : Text) (x : Value) (fs : Fields)
    → reject_forbidden_fields lower (field (name j) x fs) ≡ ok tt
    → is_forbidden_key (lower j) ≡ false
unfolding reject_forbidden
key_allowed lower j x fs h = elim (Bool-cases (is_forbidden_key (lower j))) [
  | inl y ↦ let e = rw y at h in cc
  | inr n ↦ n
]

-- A list of strings, or a single string, holds no mapping.
no_occurs_texts :
    (k : Text) (v : Value) (vs : Items) (rs : List Text)
    → strip_items vs ≡ ok rs
    → ¬ OccursItem k v vs
unfolding strip_items
no_occurs_texts k v nil rs h o = elim o [ ]
no_occurs_texts k v (cons (text t) vs) rs h (in_item _ _ o) = elim o [ ]
no_occurs_texts k v (cons (text t) vs) rs h (in_items _ _ o) =
    let (ss, e, f) = >>=-eq-ok (strip_items vs) _ h in no_occurs_texts k v vs ss e o
no_occurs_texts k v (cons _ vs) rs h o = cc

no-Occurs_refs : (k : Text) (v x : Value) → check_refs_item x ≡ ok tt → ¬ Occurs k v x
unfolding check_refs_item require_str_list
no-Occurs_refs k v (list vs) h (in_list _ o) =
    let (rs, e, f) = >>=-eq-ok (strip_items vs) _ h in no_occurs_texts k v vs rs e o
no-Occurs_refs k v (dict fs) h o = cc
no-Occurs_refs k v _ h o = elim o [ ]

no-Occurs_ref : (k : Text) (v x : Value) → check_ref_item x ≡ ok tt → ¬ Occurs k v x
unfolding check_ref_item validate_ref require_non_empty_str
no-Occurs_ref k v (list vs) h o = cc
no-Occurs_ref k v (dict fs) h o = cc
no-Occurs_ref k v _ h o = elim o [ ]

-- What the loop over the refs checks of a field's value.
record Checked (lower : Text → Text) (j : Text) (x : Value) : Type 0 where
  refs : is_refs_key (lower j) ≡ true → check_refs_item x ≡ ok tt
  ref : is_refs_key (lower j) ≡ false → is_ref_key (lower j) ≡ true → check_ref_item x ≡ ok tt

field-Checked :
    (lower : Text → Text) (j : Text) (x : Value) (fs : Fields)
    → validate_payload_refs_fields lower (field (name j) x fs) ≡ ok tt
    → Checked lower j x × (validate_payload_refs_fields lower fs ≡ ok tt)
unfolding validate_payload_refs
field-Checked lower j x fs h =
    let below = validate_payload_refs lower x in
    let (a, b) =
      then_ok (check_field (lower j) x below) (validate_payload_refs_fields lower fs) h in
    (record { refs = λ y. rw y at a; ref = λ n y. rw (n, y) at a }, b)

-- A field whose value holds a mapping is no ref field, so the loop goes below it.
field_below :
    (lower : Text → Text) (k : Text) (v : Value) (j : Text) (x : Value) (fs : Fields)
    → Occurs k v x
    → validate_payload_refs_fields lower (field (name j) x fs) ≡ ok tt
    → validate_payload_refs lower x ≡ ok tt
unfolding validate_payload_refs
field_below lower k v j x fs o h =
    let a =
      (then_ok (check_field (lower j) x (validate_payload_refs lower x))
        (validate_payload_refs_fields lower fs) h).0 in
    elim (Bool-cases (is_refs_key (lower j))) [
      | inl y ↦ absurd (no-Occurs_refs k v x (rw y at a) o)
      | inr n ↦ elim (Bool-cases (is_ref_key (lower j))) [
        | inl y ↦ absurd (no-Occurs_ref k v x (rw (n, y) at a) o)
        | inr m ↦ rw (n, m) at a
      ]
    ]

module _ (lower : Text → Text) (k : Text) (v : Value) where
  mutual
    unfolding reject_forbidden

    clean :
        (p : Value)
        → Occurs k v p
        → reject_forbidden lower p ≡ ok tt
        → is_forbidden_key (lower k) ≡ false
    clean (list vs) (in_list _ o) h = clean_items vs o h
    clean (dict fs) (in_dict _ o) h = clean_fields fs o h
    clean _ o h = elim o [ ]

    clean_items :
        (vs : Items)
        → OccursItem k v vs
        → reject_forbidden_items lower vs ≡ ok tt
        → is_forbidden_key (lower k) ≡ false
    clean_items nil o h = elim o [ ]
    clean_items (cons x xs) (in_item _ _ o) h = clean x o (then_ok _ _ h).0
    clean_items (cons x xs) (in_items _ _ o) h = clean_items xs o (then_ok _ _ h).1

    clean_fields :
        (fs : Fields)
        → OccursField k v fs
        → reject_forbidden_fields lower fs ≡ ok tt
        → is_forbidden_key (lower k) ≡ false
    clean_fields end o h = elim o [ ]
    clean_fields (field _ x fs) (at_field _) h = key_allowed lower k x fs h
    clean_fields (field j x fs) (in_value _ _ _ o) h = clean x o (fields_parts lower j x fs h).0
    clean_fields (field j x fs) (in_fields _ _ _ o) h =
        clean_fields fs o (fields_parts lower j x fs h).1

  mutual
    unfolding validate_payload_refs

    checked : (p : Value) → Occurs k v p → validate_payload_refs lower p ≡ ok tt → Checked lower k v
    checked (list vs) (in_list _ o) h = Checked-items vs o h
    checked (dict fs) (in_dict _ o) h = Checked-fields fs o h
    checked _ o h = elim o [ ]

    Checked-items :
        (vs : Items)
        → OccursItem k v vs
        → validate_payload_refs_items lower vs ≡ ok tt
        → Checked lower k v
    Checked-items nil o h = elim o [ ]
    Checked-items (cons x xs) (in_item _ _ o) h = checked x o (then_ok _ _ h).0
    Checked-items (cons x xs) (in_items _ _ o) h = Checked-items xs o (then_ok _ _ h).1

    Checked-fields :
        (fs : Fields)
        → OccursField k v fs
        → validate_payload_refs_fields lower fs ≡ ok tt
        → Checked lower k v
    Checked-fields end o h = elim o [ ]
    Checked-fields (field _ x fs) (at_field _) h = (field-Checked lower k x fs h).0
    Checked-fields (field (name j) x fs) (in_value _ _ _ o) h =
        checked x o (field_below lower k v j x fs o h)
    Checked-fields (field (other_key j) x fs) (in_value _ _ _ o) h = checked x o (then_ok _ _ h).0
    Checked-fields (field (name j) x fs) (in_fields _ _ _ o) h =
        Checked-fields fs o (field-Checked lower j x fs h).1
    Checked-fields (field (other_key j) x fs) (in_fields _ _ _ o) h =
        Checked-fields fs o (then_ok _ _ h).1

-- A list of strings that are safe refs, once stripped.
abbrev pub IsRefsItem : Value → Type 0
IsRefsItem v = (rs : List Text) × (require_str_list v ≡ ok rs) × All (λ r. IsSafeRef (strip r)) rs

-- None, the empty string, or a string that is a safe ref, once stripped.
abbrev pub IsRefItem : Value → Type 0
IsRefItem v = (v ≡ null) ⊎ ((v ≡ text []) ⊎ ((t : Text) × (v ≡ text t) × IsSafeRef (strip t)))

-- What an accepted payload says of a key, in lower case, and its value.
pub record IsClean (lowered : Text) (v : Value) : Type 0 where
  pub allowed : is_forbidden_key lowered ≡ false
  pub refs : is_refs_key lowered ≡ true → IsRefsItem v
  pub ref : is_refs_key lowered ≡ false → is_ref_key lowered ≡ true → IsRefItem v

safe_of_valid : (t r : Text) → validate_ref (text t) ≡ ok r → IsSafeRef (strip t)
safe_of_valid t r h = let (e, safe) = (validate_ref_iff t r).0 h in subst IsSafeRef e safe

All-safe : (rs : List Text) → validate_all rs ≡ ok tt → All (λ r. IsSafeRef (strip r)) rs
unfolding validate_all
All-safe [] h = tt
All-safe (r ∷ rs) h =
    let (s, e, f) = >>=-eq-ok (validate_ref (text r)) _ h in (safe_of_valid r s e, All-safe rs f)

refs_item : (v : Value) → check_refs_item v ≡ ok tt → IsRefsItem v
unfolding check_refs_item
refs_item v h =
    let (rs, e, f) = >>=-eq-ok (require_str_list v) validate_all h in (rs, e, All-safe rs f)

ref_item : (v : Value) → check_ref_item v ≡ ok tt → IsRefItem v
unfolding check_ref_item validate_ref require_non_empty_str
ref_item null h = inl refl
ref_item (text []) h = inr (inl refl)
ref_item (text (c ∷ t)) h =
    let (r, e, f) = >>=-eq-ok (validate_ref (text (c ∷ t))) _ h in
    inr (inr (c ∷ t, refl, safe_of_valid (c ∷ t) r e))
ref_item _ h = cc

-- In an accepted payload, at any depth, no key is forbidden, and the value of a key for refs is what
-- that key promises: a list of safe refs, or one safe ref or none.
pub payload-IsClean :
    (lower : Text → Text) (p w : Value) (k : Text) (v : Value)
    → assert_refs_only_payload lower p ≡ ok w
    → Occurs k v p
    → IsClean (lower k) v
unfolding assert_refs_only_payload
payload-IsClean lower p w k v h o =
    let (n, e, f) = >>=-eq-ok (ensure_json_value p) _ h in
    let same = ((ensure_json_value_iff p n).0 e).0 in
    let (u, rejected, g) = >>=-eq-ok (reject_forbidden lower n) _ f in
    let (x, validated, _) = >>=-eq-ok (validate_payload_refs lower n) _ g in
    let there : Occurs k v n = subst (Occurs k v) (sym same) o in
    let fields = checked lower k v n there validated in
    record {
      allowed = clean lower k v n there rejected;
      refs = λ y. refs_item v (fields.refs y);
      ref = λ a y. ref_item v (fields.ref a y);
    }
