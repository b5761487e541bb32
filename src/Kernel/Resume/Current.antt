-- ===== src/Kernel/Resume/Current.antt =====
-- A step that is skipped on a record (src/missionforge/kernel/runner.py) has the outputs that the record
-- speaks of.
use missionforge.Common.{
  Bool, ◌≡◌, refl, sym, ap, subst, ◌∙◌, true, false, not, Bool-cases, inl, inr, arith, Option, none,
  some, List, [], ◌∷◌, ◌++◌, All, All-of_none, if◌then◌else◌,
}
use missionforge.Text.{Text, codes, text_eq, strip}
use missionforge.Text.Strip.{strip_idem}
use missionforge.Text.Equality.{text_eq_sound}
use missionforge.Text.Maps.{put, lookup, lookup-put_self, lookup-put_other}
use missionforge.Outcome.{Outcome, ok, refuse, unsafe_ref, >>=-eq-ok, ok_injective}
use missionforge.Platform.{Platform}
use missionforge.Value.{text}
use missionforge.Contracts.{validate_ref}
use missionforge.Contracts.Refs.{validate_ref_iff}
use missionforge.Checks.{member}
use missionforge.Jsonl.{Root}
use missionforge.Kernel.Toolset.{spec_hash}
use missionforge.Kernel.Compile.Compiled.{CompiledStep}
use missionforge.Kernel.Resume.{
  StepRecord, Boundary, resolve_workspace_ref, has_file, ref_exists, hash_safe, hash_ref,
  hash_refs_from, hash_refs, is_same, includes, same_dict, same_boundary, all_exist,
  can_skip_from_record,
}

-- The file of a ref is there, and a list of hashes has its hash.
pub record IsCurrent (b : Boundary) (hashes : List (Text × Text)) (ref : Text) : Type 0 where
  pub contents : Text
  pub found : b.root.file (strip ref) ≡ some contents
  pub hashed : lookup (strip ref) hashes ≡ some (codes "sha256:" ++ b.digest contents)

is_same-some : (v : Text) (o : Option Text) → is_same (some v) o ≡ true → o ≡ some v
is_same-some v none h = absurd (cc)
is_same-some v (some w) h = rw (text_eq_sound v w h) refl

-- What a dict has, one that includes it has.
includes-lookup :
    (m other : List (Text × Text)) (k v : Text)
    → includes m other ≡ true
    → lookup k m ≡ some v
    → lookup k other ≡ some v
unfolding includes lookup
includes-lookup [] other k v h e = absurd (cc)
includes-lookup ((j, w) ∷ m) other k v h e = elim (Bool-cases (text_eq j k)) [
  | inl y ↦
      let same : lookup j other ≡ some w = is_same-some w (lookup j other) (ground (arith, h)) in
      let equal : some w ≡ some v = rw y at e in
      subst (λ s. lookup s other ≡ some v) (text_eq_sound j k y) (same ∙ equal)
  | inr n ↦ includes-lookup m other k v (ground (arith, h)) (rw n at e)
]

module _ (py : Platform) (digest : Text → Text) (root : Root) where
  -- The hash of a ref stays when refs are hashed after it.
  kept :
      (hashes after : List (Text × Text)) (refs : List Text) (k h : Text)
      → lookup k hashes ≡ some h
      → hash_safe py digest root k ≡ ok h
      → hash_refs_from py digest root hashes refs ≡ ok after
      → lookup k after ≡ some h
  unfolding hash_refs_from hash_ref
  kept hashes after [] k h found value run =
      subst (λ m. lookup k m ≡ some h) (ok_injective run) found
  kept hashes after (ref ∷ refs) k h found value run =
      let (key, e1, h1) = >>=-eq-ok (validate_ref (text ref)) _ run in
      let (hash, e2, h2) = >>=-eq-ok (hash_ref py digest root ref) _ h1 in
      let (safe, f1, g1) = >>=-eq-ok (validate_ref (text ref)) _ e2 in
      let same : safe ≡ key = ok_injective (sym f1 ∙ e1) in
      let own : hash_safe py digest root key ≡ ok hash =
        subst (λ s. hash_safe py digest root s ≡ ok hash) same g1 in
      kept (put key hash hashes) after refs k h
        (elim (Bool-cases (text_eq key k)) [
          | inl y ↦
              let equal : key ≡ k = text_eq_sound key k y in
              let hash' : hash ≡ h =
                ok_injective
                  (sym own ∙ subst (λ s. hash_safe py digest root s ≡ ok h) (sym equal) value) in
              subst (λ s. lookup s (put key hash hashes) ≡ some h) equal
                (lookup-put_self key hash hashes ∙ ap some hash')
          | inr n ↦ lookup-put_other key k hash hashes n ∙ found
        ])
        value h2

  -- Every ref of the list has its hash in the dict.
  hashed_member :
      (hashes after : List (Text × Text)) (refs : List Text) (ref : Text)
      → member ref refs ≡ true
      → hash_refs_from py digest root hashes refs ≡ ok after
      → (h : Text) × (hash_safe py digest root (strip ref) ≡ ok h)
        × (lookup (strip ref) after ≡ some h)
  unfolding hash_refs_from hash_ref member
  hashed_member hashes after [] ref m run = absurd (cc)
  hashed_member hashes after (r ∷ refs) ref m run =
      let (key, e1, h1) = >>=-eq-ok (validate_ref (text r)) _ run in
      let (hash, e2, h2) = >>=-eq-ok (hash_ref py digest root r) _ h1 in
      let (safe, f1, g1) = >>=-eq-ok (validate_ref (text r)) _ e2 in
      let same : safe ≡ key = ok_injective (sym f1 ∙ e1) in
      let own : hash_safe py digest root key ≡ ok hash =
        subst (λ s. hash_safe py digest root s ≡ ok hash) same g1 in
      elim (Bool-cases (text_eq r ref)) [
        | inl y ↦
            let stripped : key ≡ strip ref =
              ((validate_ref_iff r key).0 e1).0 ∙ ap strip (text_eq_sound r ref y) in
            subst
              (λ s. (h : Text) × (hash_safe py digest root s ≡ ok h) × (lookup s after ≡ some h))
              stripped
              (
                hash,
                own,
                kept (put key hash hashes) after refs key hash (lookup-put_self key hash hashes) own
                    h2,
              )
        | inr n ↦ hashed_member (put key hash hashes) after refs ref (ground (arith, m, n)) h2
      ]

resolve-strip :
    (root : Root) (ref path : Text) → resolve_workspace_ref root ref ≡ ok path → path ≡ strip ref
unfolding resolve_workspace_ref
resolve-strip root ref path h =
    let (safe, e, g) = >>=-eq-ok (validate_ref (text ref)) _ h in
    elim (Bool-cases (root.inside safe)) [
      | inl y ↦
          let same : safe ≡ path = ok_injective (rw y at g) in
          sym same ∙ ((validate_ref_iff ref safe).0 e).0
      | inr n ↦ let k : refuse unsafe_ref ≡ ok path = rw n at g in cc
    ]

some_file : (o : Option Text) → has_file o ≡ true → (t : Text) × (o ≡ some t)
some_file none h = absurd (cc)
some_file (some t) h = (t, refl)

abbrev HasFile : Root → Text → Type 0
HasFile root ref = (t : Text) × (root.file (strip ref) ≡ some t)

ref_exists-HasFile : (root : Root) (ref : Text) → ref_exists root ref ≡ ok true → HasFile root ref
unfolding ref_exists
ref_exists-HasFile root ref h =
    let (path, e, g) = >>=-eq-ok (resolve_workspace_ref root ref) _ h in
    let (t, found) = some_file (root.file path) (ok_injective g) in
    (t, ap root.file (sym (resolve-strip root ref path e)) ∙ found)

-- Each ref of a list that exists is a file.
all_exist-HasFile :
    (root : Root) (refs : List Text) → all_exist root refs ≡ ok true → All (HasFile root) refs
unfolding all_exist
all_exist-HasFile root [] h = tt
all_exist-HasFile root (ref ∷ refs) h =
    let (exists, e, g) = >>=-eq-ok (ref_exists root ref) _ h in
    elim (Bool-cases exists) [
      | inl y ↦ (ref_exists-HasFile root ref (e ∙ ap ok y), all_exist-HasFile root refs (rw y at g))
      | inr n ↦ let k : ok false ≡ ok true = rw n at g in absurd (cc)
    ]

-- The hash of a ref with a file is the digest of the file.
hash_safe-file :
    (py : Platform) (digest : Text → Text) (root : Root) (ref t h : Text)
    → root.file (strip ref) ≡ some t
    → hash_safe py digest root (strip ref) ≡ ok h
    → h ≡ codes "sha256:" ++ digest t
unfolding hash_safe
hash_safe-file py digest root ref t h found value =
    let (path, e, g) = >>=-eq-ok (resolve_workspace_ref root (strip ref)) _ value in
    let same : path ≡ strip ref = resolve-strip root (strip ref) path e ∙ strip_idem ref in
    let there : root.file path ≡ some t = ap root.file same ∙ found in
    sym (ok_injective (rw there at g))

-- A test that was passed on the way to `true`.
passes :
    (test : Bool) (rest : Outcome Bool)
    → (if not test then ok false else rest) ≡ ok true
    → (test ≡ true) × (rest ≡ ok true)
passes true rest h = (refl, h)
passes false rest h = absurd (cc)

-- What the comparisons before the files mean.
record SameBoundary (r : StepRecord) (compiled : CompiledStep) (step_hash : Text) (b : Boundary)
    : Type 0 where
  spec : r.step_spec_hash ≡ step_hash
  contract : r.contract_hash ≡ compiled.piworker_call.contract_hash
  manifest : r.permission_manifest_hash ≡ some b.permission_manifest_hash
  outputs : All (λ ref. member ref r.output_refs ≡ true) compiled.step.outputs

is_same-eq : (o p : Option Text) → is_same o p ≡ true → o ≡ p
is_same-eq none none h = refl
is_same-eq none (some t) h = absurd (cc)
is_same-eq (some s) p h = sym (is_same-some s p h)

same_boundary-SameBoundary :
    (r : StepRecord) (compiled : CompiledStep) (step_hash : Text) (b : Boundary)
    → same_boundary r compiled step_hash b ≡ true
    → SameBoundary r compiled step_hash b
unfolding same_boundary
same_boundary-SameBoundary r compiled step_hash b h = record {
  spec = text_eq_sound r.step_spec_hash step_hash (ground (arith, h));
  contract = text_eq_sound r.contract_hash compiled.piworker_call.contract_hash (ground (arith, h));
  manifest =
      is_same-eq r.permission_manifest_hash (some b.permission_manifest_hash) (ground (arith, h));
  outputs =
      All-of_none (λ ref. member ref r.output_refs ≡ true) (λ u. not (member u r.output_refs))
        compiled.step.outputs (λ u k. ground (arith, k)) (ground (arith, h));
}

All-both :
    (P Q R : Text → Type 0) (ts : List Text)
    → ((t : Text) → P t → Q t → R t)
    → All P ts
    → All Q ts
    → All R ts
All-both P Q R [] f p q = tt
All-both P Q R (t ∷ ts) f p q = (f t p.0 q.0, All-both P Q R ts f p.1 q.1)

output-IsCurrent :
    (py : Platform) (b : Boundary) (recorded hashes : List (Text × Text)) (refs : List Text)
    (ref : Text)
    → hash_refs py b.digest b.root refs ≡ ok hashes
    → includes hashes recorded ≡ true
    → HasFile b.root ref
    → member ref refs ≡ true
    → IsCurrent b recorded ref
output-IsCurrent py b recorded hashes refs ref run included (t, found) m =
    let (h, value, entry) = hashed_member py b.digest b.root [] hashes refs ref m run in
    record {
      contents = t;
      found = found;
      hashed =
          includes-lookup hashes recorded (strip ref) h included entry
          ∙ ap some (hash_safe-file py b.digest b.root ref t h found value);
    }

-- When a record lets a step be skipped, it is a record of this step and contract, and every output that
-- the step expects is a file whose hash the record has.
pub can_skip-IsCurrent :
    (py : Platform) (r : StepRecord) (compiled : CompiledStep) (b : Boundary)
    → can_skip_from_record py r compiled b ≡ ok true
    → (r.step_id ≡ compiled.step.id)
      × (spec_hash py compiled.step ≡ ok r.step_spec_hash)
      × (r.contract_hash ≡ compiled.piworker_call.contract_hash)
      × (r.permission_manifest_hash ≡ some b.permission_manifest_hash)
      × All (IsCurrent b r.output_hashes) compiled.step.outputs
unfolding can_skip_from_record
can_skip-IsCurrent py r compiled b h =
    let (own, h0) = passes (text_eq r.step_id compiled.step.id) _ h in
    let (hash, e1, h1) = >>=-eq-ok (spec_hash py compiled.step) _ h0 in
    let (same, h2) = passes (same_boundary r compiled hash b) _ h1 in
    let (exist, e3, h3) = >>=-eq-ok (all_exist b.root compiled.step.outputs) _ h2 in
    let (all, h4) = passes exist _ h3 in
    let (hashes, e5, h5) = >>=-eq-ok (hash_refs py b.digest b.root r.output_refs) _ h4 in
    let (equal, h6) = passes (same_dict r.output_hashes hashes) _ h5 in
    let boundary = same_boundary-SameBoundary r compiled hash b same in
    let files = all_exist-HasFile b.root compiled.step.outputs (e3 ∙ ap ok all) in
    (
      text_eq_sound r.step_id compiled.step.id own,
      e1 ∙ ap ok (sym boundary.spec),
      boundary.contract,
      boundary.manifest,
      All-both (HasFile b.root) (λ ref. member ref r.output_refs ≡ true)
          (IsCurrent b r.output_hashes) compiled.step.outputs
          (λ ref f m.
            output-IsCurrent py b r.output_hashes hashes r.output_refs ref e5
              (ground (arith, equal)) f m)
          files boundary.outputs,
    )
