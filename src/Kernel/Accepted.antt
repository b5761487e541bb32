-- ===== src/Kernel/Accepted.antt =====
-- Which routes of a validated flow end it as accepted (`Flow.validate` and `_route_key` of
-- src/missionforge/kernel/contracts.py, and the lookup of a route in kernel/runner.py).
use mathlib.Core.List.{append_assoc}
use missionforge.Common.{
  ℕ, ◌≤◌, ◌≡◌, refl, sym, ap, ◌∙◌, subst, Bool, true, false, not, some, List, [], ◌∷◌, ◌++◌, length,
  map, arith, Bool-cases, if-post, Option-cases, inl, inr, ◌==◌, is_empty,
}
use missionforge.Text.{Text, codes, text_eq, has_code, is_space, lstrip, rcons, rstrip, strip}
use missionforge.Text.Equality.{text_eq_sound}
use missionforge.Text.Strip.{lstrip-rstrip}
use missionforge.Outcome.{
  ok, refuse, kernel_refuse_if, >>=-eq-ok, ok_injective, empty_text, bad_segment, not_found,
  mismatch, missing,
}
use missionforge.Platform.{Platform}
use missionforge.Value.{text}
use missionforge.Contracts.{require_non_empty_str, validate_ref}
use missionforge.Checks.{member}
use missionforge.Kernel.Contracts.{Step, is_judge, safe_id, is_no_segment, unique_ids, unique_refs}
use missionforge.Kernel.Declaration.{
  Flow, Target, flow_stop, find_step, find_route, split_dot, key_parts, route_key,
  judge_accepts_prior, check_target, check_source, check_route_on, validate_routes, validate_steps,
  validate_projections, validate_flow,
}

length-lstrip : (s : Text) → length (lstrip s) ≤ length s
unfolding lstrip
length-lstrip [] = omega arith
length-lstrip (c ∷ s) = elim (Bool-cases (is_space c)) [
  | inl y ↦ rw y (omega (arith, length-lstrip s))
  | inr n ↦ rw n (omega arith)
]

head_of_lstrip : (c : ℕ) (s : Text) → lstrip (c ∷ s) ≡ c ∷ s → is_space c ≡ false
unfolding lstrip
head_of_lstrip c s h = elim (Bool-cases (is_space c)) [
  | inl y ↦
      let e : lstrip s ≡ c ∷ s = rw y at h in absurd (omega (arith, length-lstrip s, ap length e))
  | inr n ↦ n
]

lstrip-key : (id v : Text) → lstrip id ≡ id → lstrip (id ++ b'.' ∷ v) ≡ id ++ b'.' ∷ v
unfolding lstrip is_space
lstrip-key [] v h = refl
lstrip-key (c ∷ s) v h = rw (head_of_lstrip c s h) refl

rcons-append : (c d : ℕ) (s t : Text) → rcons c (s ++ d ∷ t) ≡ c ∷ s ++ d ∷ t
rcons-append c d [] t = refl
rcons-append c d (e ∷ s) t = refl

rcons-dot : (t : Text) → rcons b'.' t ≡ b'.' ∷ t
unfolding is_space
rcons-dot [] = refl
rcons-dot (c ∷ t) = refl

rstrip-key : (id v : Text) → rstrip (id ++ b'.' ∷ v) ≡ id ++ b'.' ∷ rstrip v
unfolding rstrip
rstrip-key [] v = rcons-dot (rstrip v)
rstrip-key (c ∷ s) v = rw (rstrip-key s v) (rcons-append c b'.' s (rstrip v))

split_dot-key : (id v : Text) → has_code b'.' id ≡ false → split_dot (id ++ b'.' ∷ v) ≡ some (id, v)
unfolding split_dot has_code
split_dot-key [] v h = elim (Option-cases (split_dot v)) [
  | inl e ↦ rw e refl
  | inr (p, e) ↦ rw e refl
]
split_dot-key (c ∷ s) v h =
    let (other, rest) : (c == b'.' ≡ false) × (has_code b'.' s ≡ false) = ground arith in
    rw (split_dot-key s v rest) (rw other refl)

require_strip : (t u : Text) → require_non_empty_str (text t) ≡ ok u → u ≡ strip t
unfolding require_non_empty_str
require_strip t u h =
    if-post (is_empty (strip t)) (refuse empty_text) (ok (strip t)) (ok u) h (λ r. absurd (cc))
      (λ e. sym (ok_injective e))

safe_id-strip : (t u : Text) → safe_id (text t) ≡ ok u → u ≡ strip t
unfolding safe_id
safe_id-strip t u h =
    let (s, a, f) = >>=-eq-ok (require_non_empty_str (text t)) _ h in
    let (v, b, g) = >>=-eq-ok (kernel_refuse_if (is_no_segment s) bad_segment) _ f in
    let (r, c, k) = >>=-eq-ok (validate_ref (text s)) _ g in
    sym (ok_injective k) ∙ require_strip t s a

-- The key that the runner forms for a step without a dot names that step.
route_key-step :
    (id v source value : Text)
    → strip id ≡ id
    → has_code b'.' id ≡ false
    → route_key (id ++ b'.' ∷ v) ≡ ok (source, value)
    → source ≡ id
unfolding route_key strip
route_key-step id v source value h d k =
    let (key, a, f) = >>=-eq-ok (require_non_empty_str (text (id ++ b'.' ∷ v))) _ k in
    let left : lstrip id ≡ id = subst (λ s. lstrip s ≡ s) h (lstrip-rstrip id) in
    let same : key ≡ id ++ b'.' ∷ rstrip v =
      require_strip _ key a ∙ ap rstrip (lstrip-key id v left) ∙ rstrip-key id v in
    let parts : split_dot key ≡ some (id, rstrip v) =
      ap split_dot same ∙ split_dot-key id (rstrip v) d in
    let named : key_parts (some (id, rstrip v)) ≡ ok (source, value) =
      subst (λ p. key_parts p ≡ ok (source, value)) parts f in
    let (s, b, g) = >>=-eq-ok (safe_id (text id)) _ named in
    let (u, c, e) = >>=-eq-ok (safe_id (text (rstrip v))) _ g in
    sym (ap (λ (p : Text × Text). p.0) (ok_injective e)) ∙ safe_id-strip id s b ∙ h

-- Every route that the lookup finds was checked.
found_checked :
    (flow : Flow) (ids : List Text) (key : Text) (target : Target) (routes : List (Text × Target))
    → validate_routes flow ids routes ≡ ok tt
    → find_route key routes ≡ some target
    → (source : Text) × (value : Text) × (route_key key ≡ ok (source, value))
      × (check_source flow ids target (find_step source flow.steps) ≡ ok tt)
unfolding validate_routes find_route
found_checked flow ids key target [] h e = absurd (cc)
found_checked flow ids key target ((k, to) ∷ routes) h e =
    let ((source, value), a, f) = >>=-eq-ok (route_key k) _ h in
    let (u, b, g) = >>=-eq-ok (kernel_refuse_if (not (member source ids)) not_found) _ f in
    let (v, c, r) = >>=-eq-ok (check_source flow ids to (find_step source flow.steps)) _ g in
    elim (Bool-cases (text_eq k key)) [
      | inl y ↦
          let same : some to ≡ some target = rw y at e in
          let target' : to ≡ target = cc in
          (
            source,
            value,
            subst (λ x. route_key x ≡ ok (source, value)) (text_eq_sound k key y) a,
            subst (λ x. check_source flow ids x (find_step source flow.steps) ≡ ok tt) target' c,
          )
      | inr n ↦ found_checked flow ids key target routes r (rw n at e)
    ]

accepted_target :
    (flow : Flow) (source : Step) (ids : List Text) (u : Unit {0})
    → check_target flow source ids (flow_stop (codes "accepted")) ≡ ok u
    → (is_judge source.role ≡ true) × (judge_accepts_prior source flow.steps ≡ true)
unfolding text_eq
accepted_target flow source ids u h =
    let (s, a, f) = >>=-eq-ok (safe_id (text (codes "accepted"))) _ h in
    let (v, b, g) = >>=-eq-ok (kernel_refuse_if (not (is_judge source.role)) mismatch) _ f in
    (allowed (is_judge source.role) v b, allowed (judge_accepts_prior source flow.steps) u g)
  where
    allowed : (b : Bool) (v : Unit {0}) → kernel_refuse_if (not b) mismatch ≡ ok v → b ≡ true
    allowed true v e = refl
    allowed false v e = absurd (cc)

judged :
    (flow : Flow) (source : Step) (ids : List Text)
    → check_source flow ids (flow_stop (codes "accepted")) (some source) ≡ ok tt
    → (is_judge source.role ≡ true) × (judge_accepts_prior source flow.steps ≡ true)
judged flow source ids h =
    let (u, a, f) = >>=-eq-ok (check_route_on flow source.route_fields source.route_on) _ h in
    accepted_target flow source ids tt f

-- In a flow that `Flow.validate` accepts, for a step that the flow's index finds under its own id,
-- where that id is stripped and has no dot: if the runner's key `<id>.<value>` finds a route that
-- stops the flow as `accepted`, the step is a judge, and one of its inputs is an output of a step
-- before it that is no judge.
pub accepted_by_judge :
    (py : Platform) (flow : Flow) (current : Step) (value : Text)
    → validate_flow py flow ≡ ok tt
    → find_step current.id flow.steps ≡ some current
    → strip current.id ≡ current.id
    → has_code b'.' current.id ≡ false
    → find_route (current.id ++ codes "." ++ value) flow.routes
      ≡ some (flow_stop (codes "accepted"))
    → (is_judge current.role ≡ true) × (judge_accepts_prior current flow.steps ≡ true)
unfolding validate_flow
accepted_by_judge py flow current value valid found stripped plain h =
    let (i, a0, f0) = >>=-eq-ok (safe_id (text flow.id)) _ valid in
    let (u1, a1, f1) = >>=-eq-ok (kernel_refuse_if (is_empty flow.steps) missing) _ f0 in
    let (ids, a2, f2) = >>=-eq-ok (unique_ids (map (λ s. s.id) flow.steps)) _ f1 in
    let (u3, a3, f3) = >>=-eq-ok (unique_ids flow.toolset_ids) _ f2 in
    let (u4, a4, f4) = >>=-eq-ok (unique_refs (map (λ a. a.ref) flow.artifacts)) _ f3 in
    let (u5, a5, f5) = >>=-eq-ok (unique_refs (map (λ p. p.target) flow.projections)) _ f4 in
    let (u6, a6, f6) = >>=-eq-ok (validate_steps py flow.steps) _ f5 in
    let (u7, a7, f7) = >>=-eq-ok (validate_projections py flow flow.projections) _ f6 in
    let (u8, a8, f8) = >>=-eq-ok (validate_routes flow ids flow.routes) _ f7 in
    let (source, parsed, key, checked) =
      found_checked flow ids _ (flow_stop (codes "accepted")) flow.routes a8 h in
    let same : source ≡ current.id = route_key-step current.id value source parsed stripped plain (
      subst (λ k. route_key k ≡ ok (source, parsed)) (append_assoc current.id (codes ".") value)
        key) in
    let step : find_step source flow.steps ≡ some current =
      ap (λ x. find_step x flow.steps) same ∙ found in
    judged flow current ids
      (subst (λ o. check_source flow ids (flow_stop (codes "accepted")) o ≡ ok tt) step checked)
