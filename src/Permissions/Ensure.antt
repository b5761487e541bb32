-- ===== src/Permissions/Ensure.antt =====
-- What `ensure_read` and `ensure_write` of src/missionforge/permissions.py give back.
use missionforge.Common.{
  ◌≡◌, sym, ap, subst, true, Option, none, some, List, Bool-cases, Option-cases, inl, inr,
}
use missionforge.Text.{Text, strip}
use missionforge.Outcome.{Outcome, ok, refuse, denied, ◌>>=◌, >>=-eq-ok, ok_injective}
use missionforge.Value.{text}
use missionforge.Contracts.{validate_ref}
use missionforge.TaskContract.Manifest.{PermissionManifest}
use missionforge.Permissions
use missionforge.Permissions.{
  PermissionOperation, read, write, PermissionDecision, first_matching_root, check_ref, from_match,
  denied_at, allowed_at, outside, check_read, check_write, ensure_allowed, ref_of_decision,
  ensure_read, ensure_write,
}
use missionforge.Permissions.Decisions.{InRoots, valid_strip, check_ref_iff}

from_match-ref :
    (op : PermissionOperation) (s : Text) (found : Option Text) (search : Outcome (Option Text))
    (d : PermissionDecision)
    → from_match op s found search ≡ ok d
    → d.ref ≡ some s
from_match-ref op s (some root) search d h =
    ap (λ (e : PermissionDecision). e.ref) (sym (ok_injective h))
from_match-ref op s none search d h =
    let (found, a, f) = >>=-eq-ok search _ h in
    elim (Option-cases found) [
      | inl e ↦
          let g : ok (outside op s) ≡ ok d = rw e at f in
          ap (λ (c : PermissionDecision). c.ref) (sym (ok_injective g))
      | inr (root, e) ↦
          let g : ok (allowed_at op s root) ≡ ok d = rw e at f in
          ap (λ (c : PermissionDecision). c.ref) (sym (ok_injective g))
    ]

-- A decision on a ref names it.
check_ref-ref :
    (m : PermissionManifest) (op : PermissionOperation) (t : Text) (roots : List Text)
    (d : PermissionDecision)
    → check_ref m op t roots ≡ ok d
    → d.ref ≡ some (strip t)
unfolding check_ref
check_ref-ref m op t roots d h =
    let (s, e, f) = >>=-eq-ok (validate_ref (text t)) _ h in
    let (found, g, k) = >>=-eq-ok (first_matching_root s m.denied_refs) _ f in
    subst (λ u. d.ref ≡ some u) (valid_strip t s e)
      (from_match-ref op s found (first_matching_root s roots) d k)

allowed_ref :
    (d : PermissionDecision) (r t : Text)
    → d.ref ≡ some t
    → ensure_allowed d ≡ ok r
    → (d.allowed ≡ true) × (r ≡ t)
unfolding ensure_allowed
allowed_ref d r t named h =
    let (u, e, f) = >>=-eq-ok (Permissions.validate d) _ h in
    elim (Bool-cases d.allowed) [
      | inl y ↦
          let g : ref_of_decision d.ref ≡ ok r = rw y at f in
          let k : ok t ≡ ok r = rw named at g in (y, sym (ok_injective k))
      | inr n ↦ let g : refuse denied ≡ ok r = rw n at f in absurd (cc)
    ]

ensured :
    (m : PermissionManifest) (op : PermissionOperation) (t : Text) (roots : List Text) (r : Text)
    → (check_ref m op t roots >>= λ d. ensure_allowed d) ≡ ok r
    → (r ≡ strip t) × InRoots r roots × (¬ InRoots r m.denied_refs)
ensured m op t roots r h =
    let (d, e, f) = >>=-eq-ok (check_ref m op t roots) _ h in
    let (y, same) = allowed_ref d r (strip t) (check_ref-ref m op t roots d e) f in
    let (inside, apart) = (check_ref_iff m op t roots d e).0 y in
    (
      same,
      subst (λ u. InRoots u roots) (sym same) inside,
      subst (λ u. ¬ InRoots u m.denied_refs) (sym same) apart,
    )

-- A ref that `ensure_read` gives back is the one asked for, without the white space around it, and
-- lies in a readable root and in no denied root.
pub ensure_read-InRoots :
    (m : PermissionManifest) (t r : Text)
    → ensure_read m t ≡ ok r
    → (r ≡ strip t) × InRoots r m.readable_refs × (¬ InRoots r m.denied_refs)
unfolding ensure_read check_read
ensure_read-InRoots m t r h = ensured m read t m.readable_refs r h

-- A ref that `ensure_write` gives back is the one asked for, without the white space around it, and
-- lies in a writable root and in no denied root.
pub ensure_write-InRoots :
    (m : PermissionManifest) (t r : Text)
    → ensure_write m t ≡ ok r
    → (r ≡ strip t) × InRoots r m.writable_refs × (¬ InRoots r m.denied_refs)
unfolding ensure_write check_write
ensure_write-InRoots m t r h = ensured m write t m.writable_refs r h
