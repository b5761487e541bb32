-- ===== src/Permissions/Decisions.antt =====
-- What a decision on a ref means, and that a valid manifest always gives one.
use missionforge.Common.{
  Bool, true, All, map, ◌≡◌, refl, sym, ◌∙◌, ◌↔◌, ◌⊎◌, List, [], ◌∷◌, subst, Option, none, some,
  Bool-cases, inl, inr,
}
use missionforge.Text.{Text, strip}
use missionforge.Text.Split.{under}
use missionforge.Outcome.{Outcome, ok, >>=-eq-ok, ok_injective, >>=-total}
use missionforge.Value.{text, strings}
use missionforge.Text.Strip.{strip_idem}
use missionforge.Contracts.{validate_ref, require_non_empty_str}
use missionforge.Checks.{require_schema, optional_ref, validate_unique_refs, ref_list}
use missionforge.Contracts.Refs.{validate_ref_iff, validate_ref_idem}
use missionforge.Checks.Valid.{Accepted, unique_refs-Accepted, ref_list-map}
use missionforge.Platform.{Platform}
use missionforge.TaskContract.Manifest
use missionforge.TaskContract.Manifest.{PermissionManifest}
use missionforge.Permissions.{
  PermissionOperation, PermissionDecision, ref_is_under, match_roots, first_matching_root,
  check_ref, from_match, denied_at, allowed_at, outside, check_read, check_write,
}
use missionforge.Permissions.Paths.{Below, ref_is_under_iff}

-- The path lies in one of the roots; roots are read without the white space around them.
abbrev pub InRoots : Text → List Text → Type 0
InRoots r [] = ⊥
InRoots r (root ∷ roots) = Below (strip root) r ⊎ InRoots r roots

pub valid_strip : (t r : Text) → validate_ref (text t) ≡ ok r → r ≡ strip t
valid_strip t r h = ((validate_ref_iff t r).0 h).0

module _ (r : Text) (valid : validate_ref (text r) ≡ ok r) where
  -- One round of the loop, with the test's meaning.
  root_test :
      (root s : Text) (b : Bool)
      → validate_ref (text root) ≡ ok s
      → ref_is_under r s ≡ ok b
      → (b ≡ true) ↔ Below (strip root) r
  root_test root s b h e =
      let test = ref_is_under_iff r s valid (validate_ref_idem root s h) in
      let same = valid_strip root s h in
      (
        λ y. subst (λ u. Below u r) same (test.0 (subst (λ c. ref_is_under r s ≡ ok c) y e)),
        λ below. ok_injective (sym e ∙ test.1 (subst (λ u. Below u r) (sym same) below)),
      )

  match_roots-some :
      (roots : List Text) (x : Text) → match_roots r roots ≡ ok (some x) → InRoots r roots
  unfolding match_roots
  match_roots-some [] x h = cc
  match_roots-some (root ∷ roots) x h =
      let (s, e, f) = >>=-eq-ok (validate_ref (text root)) _ h in
      let (b, g, k) = >>=-eq-ok (ref_is_under r s) _ f in
      elim (Bool-cases b) [
        | inl y ↦ inl ((root_test root s b e g).0 y)
        | inr n ↦ inr (match_roots-some roots x (rw n at k))
      ]

  match_roots-none : (roots : List Text) → match_roots r roots ≡ ok none → ¬ InRoots r roots
  unfolding match_roots
  match_roots-none [] h i = i
  match_roots-none (root ∷ roots) h i =
      let (s, e, f) = >>=-eq-ok (validate_ref (text root)) _ h in
      let (b, g, k) = >>=-eq-ok (ref_is_under r s) _ f in
      elim (Bool-cases b) [
        | inl y ↦ let bad : ok (some s) ≡ ok none = rw y at k in cc
        | inr n ↦ elim i [
          | inl below ↦ cc (n, (root_test root s b e g).1 below)
          | inr later ↦ match_roots-none roots (rw n at k) later
        ]
      ]

  first_some :
      (roots : List Text) (x : Text) → first_matching_root r roots ≡ ok (some x) → InRoots r roots
  unfolding first_matching_root
  first_some roots x h = match_roots-some roots x (rw valid at h)

  first_none : (roots : List Text) → first_matching_root r roots ≡ ok none → ¬ InRoots r roots
  unfolding first_matching_root
  first_none roots h = match_roots-none roots (rw valid at h)

  -- The meaning of the result, by the outcome of the two searches.
  after_allowed :
      (op : PermissionOperation) (denied roots : List Text) (found : Option Text)
      (d : PermissionDecision)
      → ¬ InRoots r denied
      → first_matching_root r roots ≡ ok found
      → from_match op r none (ok found) ≡ ok d
      → (d.allowed ≡ true) ↔ (InRoots r roots × (¬ InRoots r denied))
  after_allowed op denied roots none d clear e h =
      (λ y. cc, λ (i, _). absurd (first_none roots e i))
  after_allowed op denied roots (some x) d clear e h = (λ y. (first_some roots x e, clear), λ _. cc)

  after_denied :
      (op : PermissionOperation) (denied roots : List Text) (found : Option Text)
      (d : PermissionDecision)
      → first_matching_root r denied ≡ ok found
      → from_match op r found (first_matching_root r roots) ≡ ok d
      → (d.allowed ≡ true) ↔ (InRoots r roots × (¬ InRoots r denied))
  after_denied op denied roots (some x) d e h =
      (λ y. cc, λ (_, clear). absurd (clear (first_some denied x e)))
  after_denied op denied roots none d e h =
      let (found, g, k) = >>=-eq-ok (first_matching_root r roots) _ h in
      after_allowed op denied roots found d (first_none denied e) g k

-- A decision on a ref allows it exactly when the ref lies in one of the operation's roots and in none
-- of the denied ones: a denied root wins over every allowed one.
pub check_ref_iff :
    (m : PermissionManifest) (op : PermissionOperation) (t : Text) (roots : List Text)
    (d : PermissionDecision)
    → check_ref m op t roots ≡ ok d
    → (d.allowed ≡ true) ↔ (InRoots (strip t) roots × (¬ InRoots (strip t) m.denied_refs))
unfolding check_ref
check_ref_iff m op t roots d h =
    let (r, e, f) = >>=-eq-ok (validate_ref (text t)) _ h in
    let (found, g, k) = >>=-eq-ok (first_matching_root r m.denied_refs) _ f in
    subst (λ u. (d.allowed ≡ true) ↔ (InRoots u roots × (¬ InRoots u m.denied_refs)))
      (valid_strip t r e)
      (after_denied r (validate_ref_idem t r e) op m.denied_refs roots found d g k)

ref_is_under_total :
    (r s : Text)
    → validate_ref (text r) ≡ ok r
    → validate_ref (text s) ≡ ok s
    → (b : Bool) × (ref_is_under r s ≡ ok b)
unfolding ref_is_under
ref_is_under_total r s h k = (under b'/' s r, rw (h, k) refl)

match_roots_total :
    (r : Text) (roots : List Text)
    → validate_ref (text r) ≡ ok r
    → All Accepted roots
    → (found : Option Text) × (match_roots r roots ≡ ok found)
unfolding match_roots
match_roots_total r [] h a = (none, refl)
match_roots_total r (root ∷ roots) h ((s, e), a) =
    let (b, g) = ref_is_under_total r s h (validate_ref_idem root s e) in
    let (found, k) = match_roots_total r roots h a in
    elim (Bool-cases b) [
      | inl y ↦ (some s, rw e (rw g (rw y refl)))
      | inr n ↦ (found, rw e (rw g (rw n k)))
    ]

first_total :
    (r : Text) (roots : List Text)
    → validate_ref (text r) ≡ ok r
    → All Accepted roots
    → (found : Option Text) × (first_matching_root r roots ≡ ok found)
unfolding first_matching_root
first_total r roots h a = let (found, e) = match_roots_total r roots h a in (found, rw h e)

from_match_total :
    (op : PermissionOperation) (r : Text) (found : Option Text) (m : Outcome (Option Text))
    (x : Option Text)
    → m ≡ ok x
    → (d : PermissionDecision) × (from_match op r found m ≡ ok d)
from_match_total op r (some root) m x h = (denied_at op r root, refl)
from_match_total op r none m none h = >>=-total m _ none h (outside op r, refl)
from_match_total op r none m (some root) h =
    >>=-total m _ (some root) h (allowed_at op r root, refl)

check_ref_total :
    (m : PermissionManifest) (op : PermissionOperation) (t r : Text) (roots : List Text)
    → validate_ref (text t) ≡ ok r
    → All Accepted m.denied_refs
    → All Accepted roots
    → (d : PermissionDecision) × (check_ref m op t roots ≡ ok d)
unfolding check_ref
check_ref_total m op t r roots h denied a =
    let valid = validate_ref_idem t r h in
    let (found, e) = first_total r m.denied_refs valid denied in
    let (x, f) = first_total r roots valid a in
    let (d, g) = from_match_total op r found (first_matching_root r roots) x f in (d, rw h (rw e g))

-- The roots of a valid manifest are refs.
record Accepts (m : PermissionManifest) : Type 0 where
  readable : All Accepted m.readable_refs
  writable : All Accepted m.writable_refs
  denied : All Accepted m.denied_refs

accepted_roots :
    (py : Platform) (m : PermissionManifest) → Manifest.validate py m ≡ ok tt → Accepts m
unfolding Manifest.validate
accepted_roots py m h0 =
    let (a, ea, h1) = >>=-eq-ok (require_schema _ _) _ h0 in
    let (b, eb, h2) = >>=-eq-ok (require_non_empty_str _) _ h1 in
    let (c, ec, h3) = >>=-eq-ok (optional_ref _) _ h2 in
    let (d, ed, h4) = >>=-eq-ok (validate_unique_refs _) _ h3 in
    let (e, ee, h5) = >>=-eq-ok (validate_unique_refs _) _ h4 in
    let (f, ef, h6) = >>=-eq-ok (validate_unique_refs _) _ h5 in
    record {
      readable = unique_refs-Accepted m.readable_refs d ed;
      writable = unique_refs-Accepted m.writable_refs e ee;
      denied = unique_refs-Accepted m.denied_refs f ef;
    }

-- On a manifest that passes its validation and a ref that is accepted, a read or a write always gets
-- a decision, and it allows the ref exactly when that lies in a readable or writable root, as the
-- operation is, and in no denied root.
pub check_decides :
    (py : Platform) (m : PermissionManifest) (t r : Text)
    → Manifest.validate py m ≡ ok tt
    → validate_ref (text t) ≡ ok r
    → ((d : PermissionDecision) × (check_read m t ≡ ok d)
        × ((d.allowed ≡ true) ↔ (InRoots r m.readable_refs × (¬ InRoots r m.denied_refs))))
      × ((d : PermissionDecision) × (check_write m t ≡ ok d)
          × ((d.allowed ≡ true) ↔ (InRoots r m.writable_refs × (¬ InRoots r m.denied_refs))))
unfolding check_read check_write
check_decides py m t r h v =
    let a = accepted_roots py m h in
    let e = valid_strip t r v in
    let (d, g) =
      check_ref_total m PermissionOperation.read t r m.readable_refs v a.denied a.readable in
    let (x, k) =
      check_ref_total m PermissionOperation.write t r m.writable_refs v a.denied a.writable in
    (
      (
        d,
        g,
        subst (λ u. (d.allowed ≡ true) ↔ (InRoots u m.readable_refs × (¬ InRoots u m.denied_refs)))
            (sym e) (check_ref_iff m _ t m.readable_refs d g),
      ),
      (
        x,
        k,
        subst (λ u. (x.allowed ≡ true) ↔ (InRoots u m.writable_refs × (¬ InRoots u m.denied_refs)))
            (sym e) (check_ref_iff m _ t m.writable_refs x k),
      ),
    )

InRoots-strip : (r : Text) (ts : List Text) → InRoots r ts → InRoots r (map strip ts)
InRoots-strip r [] i = i
InRoots-strip r (t ∷ ts) (inl b) = inl (subst (λ u. Below u r) (sym (strip_idem t)) b)
InRoots-strip r (t ∷ ts) (inr i) = inr (InRoots-strip r ts i)

pub InRoots-of_strip : (r : Text) (ts : List Text) → InRoots r (map strip ts) → InRoots r ts
InRoots-of_strip r [] i = i
InRoots-of_strip r (t ∷ ts) (inl b) = inl (subst (λ u. Below u r) (strip_idem t) b)
InRoots-of_strip r (t ∷ ts) (inr i) = inr (InRoots-of_strip r ts i)

-- Parsing a list of roots keeps what lies in them.
pub InRoots-parsed :
    (r : Text) (ts ss : List Text) → ref_list (strings ts) ≡ ok ss → InRoots r ts → InRoots r ss
InRoots-parsed r ts ss h i = subst (InRoots r) (sym (ref_list-map ts ss h)) (InRoots-strip r ts i)

pub InRoots-of_parsed :
    (r : Text) (ts ss : List Text) → ref_list (strings ts) ≡ ok ss → InRoots r ss → InRoots r ts
InRoots-of_parsed r ts ss h i = InRoots-of_strip r ts (subst (InRoots r) (ref_list-map ts ss h) i)
