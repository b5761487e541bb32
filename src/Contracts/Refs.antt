-- ===== src/Contracts/Refs.antt =====
-- What `validate_ref` of src/missionforge/contracts.py accepts, said without its tests.

use missionforge.Common.{
  ℕ, ◌≤◌, ◌≡◌, refl, sym, ap, ◌∙◌, ◌≢◌, ◌↔◌, inl, inr, Bool, true, false, List, [], ◌∷◌, arith,
  Bool-cases, any, is_empty, All, All-of_none, none_of_All, ◌==◌, ==_iff, subst,
}
use missionforge.Text.{Text, codes, has_code, starts_with, has_text, split, strip}
use missionforge.Text.Equality.{text_eq_iff, starts_with_rest}
use missionforge.Text.Split.{split_cons}
use missionforge.Text.Strip.{strip_idem}
use missionforge.Outcome.{ok}
use missionforge.Value.{text}
use missionforge.Contracts.{
  is_control, is_dot_segment, is_unsafe_start, has_drive, check_ref, require_non_empty_str,
  validate_ref,
}

-- A path component that names an entry: not empty, not the directory itself, not its parent.
abbrev pub IsSegment : Text → Type 0
IsSegment w = (w ≢ []) × (w ≢ codes ".") × (w ≢ codes "..")

abbrev pub IsPlain : ℕ → Type 0
IsPlain c = (32 ≤ c) × (c ≢ 127) × (c ≢ 92)

abbrev pub head_segment : List Text → Text
head_segment [] = []
head_segment (w ∷ ws) = w

-- A ref is a relative path: components that name entries, of plain characters, with no home
-- directory and no drive in front.
pub record IsSafeRef (r : Text) : Type 0 where
  pub segments : All IsSegment (split b'/' r)
  pub characters : All IsPlain r
  pub no_home : starts_with (codes "~") r ≡ false
  pub no_drive : All (λ c. c ≢ b':') (head_segment (split b'/' r))

-- An empty piece that is not the first.
abbrev tail_has_empty : List Text → Bool
tail_has_empty [] = false
tail_has_empty (w ∷ ws) = any is_empty ws

tail_empty_cons :
    (c : ℕ) (s : Text)
    → tail_has_empty (split b'/' s) ≡ true
    → tail_has_empty (split b'/' (c ∷ s)) ≡ true
unfolding split
tail_empty_cons c s h =
    let (w, ws, e) = split_cons b'/' s in
    elim (Bool-cases (c == b'/')) [
      | inl y ↦ rw y (ground (arith, e))
      | inr n ↦ rw (n, e) (rw e at h)
    ]

scheme_head : (r : Text) → tail_has_empty (split b'/' (58 ∷ 47 ∷ 47 ∷ r)) ≡ true
unfolding split
scheme_head r = refl

scheme_splits : (s : Text) → has_text (codes "://") s ≡ true → tail_has_empty (split b'/' s) ≡ true
unfolding has_text
scheme_splits [] h = cc
scheme_splits (c ∷ s) h = elim (Bool-cases (has_text (codes "://") s)) [
  | inl y ↦ tail_empty_cons c s (scheme_splits s y)
  | inr n ↦
      let (r, e) = starts_with_rest (codes "://") (c ∷ s) (ground arith) in rw e (scheme_head r)
]

-- The tests of a component, one at a time.
IsSegment-of_test : (w : Text) → is_dot_segment w ≡ false → IsSegment w
unfolding is_dot_segment
IsSegment-of_test [] h = cc
IsSegment-of_test (c ∷ w) h = (
  λ e. cc,
  λ e. ground (arith, text_eq_iff (c ∷ w) (codes ".")),
  λ e. ground (arith, text_eq_iff (c ∷ w) (codes "..")),
)

test_of_IsSegment : (w : Text) → IsSegment w → is_dot_segment w ≡ false
unfolding is_dot_segment
test_of_IsSegment [] h = absurd (h.0 refl)
test_of_IsSegment (c ∷ w) h =
    ground (arith, text_eq_iff (c ∷ w) (codes "."), text_eq_iff (c ∷ w) (codes ".."), h.1, h.2)

no_empty_segment : (ws : List Text) → All IsSegment ws → any is_empty ws ≡ false
no_empty_segment [] h = refl
no_empty_segment ([] ∷ ws) h = absurd (h.0.0 refl)
no_empty_segment ((c ∷ w) ∷ ws) h = no_empty_segment ws h.1

no_tail_empty : (ws : List Text) → All IsSegment ws → tail_has_empty ws ≡ false
no_tail_empty [] h = refl
no_tail_empty (w ∷ ws) h = no_empty_segment ws h.1

no_slash : (r : Text) → All IsSegment (split b'/' r) → starts_with (codes "/") r ≡ false
unfolding starts_with split
no_slash [] h = refl
no_slash (c ∷ r) h = elim (Bool-cases (47 == c)) [
  | inl y ↦
      let e : c ≡ 47 = sym ((==_iff 47 c).0 y) in
      let h' : All IsSegment (split b'/' (47 ∷ r)) =
        subst (λ d. All IsSegment (split b'/' (d ∷ r))) e h in
      absurd (h'.0.0 refl)
  | inr n ↦ rw n
]

no_scheme : (r : Text) → All IsSegment (split b'/' r) → has_text (codes "://") r ≡ false
no_scheme r h = elim (Bool-cases (has_text (codes "://") r)) [
  | inl y ↦ cc (scheme_splits r y, no_tail_empty (split b'/' r) h)
  | inr n ↦ n
]

no_backslash : (r : Text) → All IsPlain r → has_code 92 r ≡ false
unfolding has_code
no_backslash r h = none_of_All IsPlain (λ d. d == 92) r (λ c p. ground (arith, p.2)) h

IsPlain-of_tests : (r : Text) → any is_control r ≡ false → has_code 92 r ≡ false → All IsPlain r
unfolding has_code is_control
IsPlain-of_tests [] h k = tt
IsPlain-of_tests (c ∷ r) h k =
    ((ground arith, ground arith, ground arith), IsPlain-of_tests r (ground arith) (ground arith))

no_control : (r : Text) → All IsPlain r → any is_control r ≡ false
unfolding is_control
no_control r h = none_of_All IsPlain is_control r (λ c p. ground arith) h

drive_of_IsSafeRef : (ws : List Text) → All (λ c. c ≢ b':') (head_segment ws) → has_drive ws ≡ false
unfolding has_drive has_code
drive_of_IsSafeRef [] h = refl
drive_of_IsSafeRef (w ∷ ws) h =
    none_of_All (λ c. c ≢ b':') (λ d. d == b':') w (λ c p. ground (arith, p)) h

no_drive_of_test : (ws : List Text) → has_drive ws ≡ false → All (λ c. c ≢ b':') (head_segment ws)
unfolding has_drive has_code
no_drive_of_test [] h = tt
no_drive_of_test (w ∷ ws) h =
    All-of_none (λ c. c ≢ b':') (λ d. d == b':') w (λ c p. ground (arith, p)) h

is_unsafe_start_of_parts :
    (r : Text)
    → starts_with (codes "/") r ≡ false
    → starts_with (codes "~") r ≡ false
    → has_code 92 r ≡ false
    → has_text (codes "://") r ≡ false
    → is_unsafe_start r ≡ false
unfolding is_unsafe_start
is_unsafe_start_of_parts r a b c d = rw a (rw b (rw c d))

is_unsafe_start_parts :
    (r : Text)
    → is_unsafe_start r ≡ false
    → (starts_with (codes "~") r ≡ false) × (has_code 92 r ≡ false)
unfolding is_unsafe_start
is_unsafe_start_parts r h = ground arith

-- The four tests pass on a safe ref.
check_ref_complete : (r : Text) → IsSafeRef r → check_ref r ≡ ok r
unfolding check_ref
check_ref_complete r h =
    let start =
      is_unsafe_start_of_parts r (no_slash r h.segments) h.no_home (no_backslash r h.characters)
        (no_scheme r h.segments) in
    let dots = none_of_All IsSegment is_dot_segment (split b'/' r) test_of_IsSegment h.segments in
    rw start
      (rw (no_control r h.characters) (rw dots (rw (drive_of_IsSafeRef (split b'/' r) h.no_drive))))

record Tests (r s : Text) : Type 0 where
  start : is_unsafe_start r ≡ false
  control : any is_control r ≡ false
  dots : any is_dot_segment (split b'/' r) ≡ false
  drive : has_drive (split b'/' r) ≡ false
  same : s ≡ r

check_ref-Tests : (r s : Text) → check_ref r ≡ ok s → Tests r s
unfolding check_ref
check_ref-Tests r s h = ground arith

check_ref_sound : (r s : Text) → check_ref r ≡ ok s → (s ≡ r) × IsSafeRef r
check_ref_sound r s h =
    let t = check_ref-Tests r s h in
    let (home, back) = is_unsafe_start_parts r t.start in
    (
      t.same,
      record {
        segments = All-of_none IsSegment is_dot_segment (split b'/' r) IsSegment-of_test t.dots;
        characters = IsPlain-of_tests r t.control back;
        no_home = home;
        no_drive = no_drive_of_test (split b'/' r) t.drive;
      },
    )

pub safe_not_empty : (r : Text) → IsSafeRef r → is_empty r ≡ false
unfolding split
safe_not_empty [] h = absurd (h.segments.0.0 refl)
safe_not_empty (c ∷ r) h = refl

validate_ref_tests :
    (t r : Text)
    → validate_ref (text t) ≡ ok r
    → (is_empty (strip t) ≡ false) × (check_ref (strip t) ≡ ok r)
unfolding validate_ref require_non_empty_str
validate_ref_tests t r h = ground arith

validate_ref_sound : (t r : Text) → validate_ref (text t) ≡ ok r → (r ≡ strip t) × IsSafeRef r
validate_ref_sound t r h =
    let (e, safe) = check_ref_sound (strip t) r (validate_ref_tests t r h).1 in
    (e, subst IsSafeRef (sym e) safe)

validate_ref_complete : (t : Text) → IsSafeRef (strip t) → validate_ref (text t) ≡ ok (strip t)
unfolding validate_ref require_non_empty_str
validate_ref_complete t h = rw (safe_not_empty (strip t) h) (check_ref_complete (strip t) h)

-- `validate_ref` accepts a string, with result r, exactly when r is the string without the white
-- space around it and is a safe ref.
pub validate_ref_iff : (t r : Text) → (validate_ref (text t) ≡ ok r) ↔ ((r ≡ strip t) × IsSafeRef r)
validate_ref_iff t r = (
  validate_ref_sound t r,
  λ (e, h).
      subst (λ u. validate_ref (text t) ≡ ok u) (sym e)
        (validate_ref_complete t (subst IsSafeRef e h)),
)

-- An accepted ref is accepted again, as it is.
pub validate_ref_idem : (t r : Text) → validate_ref (text t) ≡ ok r → validate_ref (text r) ≡ ok r
validate_ref_idem t r h =
    let (e, safe) = (validate_ref_iff t r).0 h in
    (validate_ref_iff r r).1 (e ∙ sym (strip_idem t) ∙ ap strip (sym e), safe)
