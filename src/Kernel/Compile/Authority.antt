-- ===== src/Kernel/Compile/Authority.antt =====
-- What the manifest of a compiled step (src/missionforge/kernel/compiler.py) lets the worker do, as
-- the permission enforcer reads it.
use missionforge.Common.{
  All-map, ◌++◌, ◌≡◌, sym, subst, ap, ◌∙◌, ◌↔◌, inl, inr, true, false, not, ◌&&◌, Bool-cases,
  is_empty, List, [], ◌∷◌, All,
}
use missionforge.Text.{Text, codes, strip}
use missionforge.Outcome.{ok, kernel_refuse_if, denied, missing, >>=-eq-ok, ok_injective}
use missionforge.Platform.{Platform}
use missionforge.Value.{text}
use missionforge.Contracts.{validate_ref}
use missionforge.Checks.{member}
use missionforge.TaskContract.Manifest.{PermissionManifest}
use missionforge.Permissions.{ref_is_under, PermissionDecision, check_write}
use missionforge.Permissions.Decisions.{InRoots, valid_strip, check_decides}
use missionforge.Permissions.Roots.{
  under_any, InRoots-of_any, not_Below-of_under, InRoots-kept, InRoots-from,
}
use missionforge.Kernel.Contracts.{Step, Artifact, validate_step}
use missionforge.Kernel.Toolset.{Toolset}
use missionforge.Kernel.Route.{dedupe_refs}
use missionforge.Kernel.Route.Distinct.{dedupe_refs-IsDistinct}
use missionforge.Kernel.Compile.{
  safe_id, non_empty, hash, dedupe_strings, StepCompileContext, validate_context, spare_roots,
  validate_contract_write_boundary, validate_visible, validate_ref_authority,
}
use missionforge.Text.Strip.{strip_idem}
use missionforge.TaskContract.Extension.{ExtensionGrant}
use missionforge.Kernel.Compile.Grants.{extension_grants, required_envs}
use missionforge.Kernel.Compile.Compiled.{
  validate_toolsets, validate_artifacts, validate_compiled, call_for, manifest_ref_of, CompiledStep,
  check_step, compile_step, manifest_for,
}

spare_roots-InRoots :
    (contract : Text) (roots : List Text)
    → spare_roots contract roots ≡ ok tt
    → ¬ InRoots (strip contract) roots
unfolding spare_roots
spare_roots-InRoots contract [] h i = i
spare_roots-InRoots contract (root ∷ roots) h i =
    let (b, e, f) = >>=-eq-ok (ref_is_under contract root) _ h in
    let (u, g, k) = >>=-eq-ok (kernel_refuse_if b denied) _ f in
    elim (Bool-cases b) [
      | inl y ↦ let z : kernel_refuse_if true denied ≡ ok u = rw y at g in cc
      | inr n ↦ elim i [
        | inl below ↦ not_Below-of_under contract root (rw n at e) below
        | inr more ↦ spare_roots-InRoots contract roots k more
      ]
    ]

authority-InRoots :
    (refs roots : List Text)
    → validate_ref_authority refs roots ≡ ok tt
    → All (λ ref. InRoots (strip ref) roots) refs
unfolding validate_ref_authority
authority-InRoots [] roots h = tt
authority-InRoots (ref ∷ refs) roots h =
    let (r, v, h1) = >>=-eq-ok (validate_ref (text ref)) _ h in
    let (b, e, f) = >>=-eq-ok (under_any r roots) _ h1 in
    let (u, g, k) = >>=-eq-ok (kernel_refuse_if (not b) denied) _ f in
    elim (Bool-cases b) [
      | inl y ↦ (
        subst (λ x. InRoots x roots) (ap strip (valid_strip ref r v) ∙ strip_idem ref)
            (InRoots-of_any r roots (rw y at e)),
        authority-InRoots refs roots k,
      )
      | inr n ↦ let z : kernel_refuse_if true denied ≡ ok u = rw n at g in cc
    ]

-- What the checks before the manifest say of the step.
record Checked (s : Step) (c : StepCompileContext) : Type 0 where
  contract : validate_ref (text c.contract_ref) ≡ ok (strip c.contract_ref)
  spared : ¬ InRoots (strip c.contract_ref) s.writable
  inputs : All (λ ref. InRoots (strip ref) s.readable) s.inputs
  outputs : All (λ ref. InRoots (strip ref) s.writable) s.outputs

context-contract :
    (c : StepCompileContext)
    → validate_context c ≡ ok tt
    → validate_ref (text c.contract_ref) ≡ ok (strip c.contract_ref)
unfolding validate_context
context-contract c h =
    let (t1, e1, h1) = >>=-eq-ok (safe_id c.flow_id) _ h in
    let (t2, e2, h2) = >>=-eq-ok (non_empty c.contract_id) _ h1 in
    let (t3, e3, h3) = >>=-eq-ok (hash c.contract_hash) _ h2 in
    let (r, e4, h4) = >>=-eq-ok (validate_ref (text c.contract_ref)) _ h3 in
    e4 ∙ ap ok (valid_strip c.contract_ref r e4)

check_step-Checked :
    (py : Platform) (s : Step) (c : StepCompileContext) (toolsets : List (Text × Toolset))
    (artifacts : List (Text × Artifact))
    → check_step py s c toolsets artifacts ≡ ok tt
    → Checked s c
unfolding check_step validate_contract_write_boundary
check_step-Checked py s c toolsets artifacts h =
    let (u1, e1, h1) = >>=-eq-ok (validate_step py s) _ h in
    let (u2, e2, h2) = >>=-eq-ok (validate_context c) _ h1 in
    let (u3, e3, h3) = >>=-eq-ok (validate_toolsets py toolsets) _ h2 in
    let (u4, e4, h4) = >>=-eq-ok (validate_artifacts py artifacts) _ h3 in
    let (u5, e5, h5) = >>=-eq-ok (validate_ref_authority s.inputs s.readable) _ h4 in
    let (u6, e6, h6) = >>=-eq-ok (validate_ref_authority s.outputs s.writable) _ h5 in
    let (u7, e7, h7) = >>=-eq-ok (validate_contract_write_boundary s c) _ h6 in
    let (u8, e8, h8) = >>=-eq-ok (spare_roots c.contract_ref s.writable) _ e7 in
    record {
      contract = context-contract c e2;
      spared = spare_roots-InRoots c.contract_ref s.writable e8;
      inputs = authority-InRoots s.inputs s.readable e5;
      outputs = authority-InRoots s.outputs s.writable e6;
    }

-- How the manifest was made, and that it passes its validation.
record Made (py : Platform) (s : Step) (c : StepCompileContext) (m : PermissionManifest)
    : Type 0 where
  grants : List ExtensionGrant
  made : manifest_for c s grants ≡ ok m
  valid : missionforge.TaskContract.Manifest.validate py m ≡ ok tt

compile_step-Compiled :
    (py : Platform) (s : Step) (c : StepCompileContext) (toolsets : List (Text × Toolset))
    (artifacts : List (Text × Artifact)) (k : CompiledStep)
    → compile_step py s c toolsets artifacts ≡ ok k
    → Checked s c × Made py s c k.permission_manifest
unfolding compile_step
compile_step-Compiled py s c toolsets artifacts k h =
    let (u1, e1, h1) = >>=-eq-ok (check_step py s c toolsets artifacts) _ h in
    let (grants, e2, h2) = >>=-eq-ok (extension_grants c.flow_id s.id toolsets s.tools) _ h1 in
    let (u3, e3, h3) =
      >>=-eq-ok
        (kernel_refuse_if (member (codes "bash") s.tools && is_empty s.command_allowlist) missing) _
        h2 in
    let (manifest, e4, h4) = >>=-eq-ok (manifest_for c s grants) _ h3 in
    let (u5, e5, h5) = >>=-eq-ok (missionforge.TaskContract.Manifest.validate py manifest) _ h4 in
    let (visible, e6, h6) = >>=-eq-ok (dedupe_refs (c.contract_ref ∷ s.inputs)) _ h5 in
    let (u7, e7, h7) = >>=-eq-ok (validate_visible visible manifest.readable_refs) _ h6 in
    let (call, e8, h8) = >>=-eq-ok (call_for py c s visible) _ h7 in
    let (u9, e9, h9) = >>=-eq-ok (missionforge.PiWorker.Call.validate py call) _ h8 in
    let compiled : CompiledStep = record {
      step = s;
      piworker_call = call;
      permission_manifest = manifest;
      permission_manifest_ref = manifest_ref_of c s;
    } in
    let (u10, e10, h10) = >>=-eq-ok (validate_compiled py compiled) _ h9 in
    let same : manifest ≡ k.permission_manifest =
      ap (λ (x : CompiledStep). x.permission_manifest) (ok_injective h10) in
    (
      check_step-Checked py s c toolsets artifacts e1,
      subst (Made py s c) same (record { grants = grants; made = e4; valid = e5 }),
    )

-- The roots of the manifest have what the roots of the step have.
record SameRoots (s : Step) (m : PermissionManifest) : Type 0 where
  readable : (r : Text) → InRoots r s.readable → InRoots r m.readable_refs
  writable : (r : Text) → InRoots r s.writable ↔ InRoots r m.writable_refs

manifest-SameRoots :
    (s : Step) (c : StepCompileContext) (grants : List ExtensionGrant) (m : PermissionManifest)
    → manifest_for c s grants ≡ ok m
    → SameRoots s m
unfolding manifest_for
manifest-SameRoots s c grants m h =
    let (rs, e1, h1) = >>=-eq-ok (dedupe_refs (c.contract_ref ∷ s.readable)) _ h in
    let (ws, e2, h2) = >>=-eq-ok (dedupe_refs s.writable) _ h1 in
    let (ds, e3, h3) = >>=-eq-ok (dedupe_refs c.denied_refs) _ h2 in
    let (env, e4, h4) = >>=-eq-ok (dedupe_strings (s.env_allowlist ++ required_envs grants)) _ h3 in
    let same_r : rs ≡ m.readable_refs =
      ap (λ (x : PermissionManifest). x.readable_refs) (ok_injective h4) in
    let same_w : ws ≡ m.writable_refs =
      ap (λ (x : PermissionManifest). x.writable_refs) (ok_injective h4) in
    let (d1, kept, from) = dedupe_refs-IsDistinct (c.contract_ref ∷ s.readable) rs e1 in
    let (d2, kept', from') = dedupe_refs-IsDistinct s.writable ws e2 in
    record {
      readable = λ r i.
          subst (InRoots r) same_r (InRoots-kept r (c.contract_ref ∷ s.readable) rs kept (inr i));
      writable = λ r. (
        λ i. subst (InRoots r) same_w (InRoots-kept r s.writable ws kept' i),
        λ i. InRoots-from r s.writable ws from' (subst (InRoots r) (sym same_w) i),
      );
    }

-- When a step compiles, the permission enforcer on its manifest answers a write to the contract ref,
-- and the answer is no.
pub compile_step-DeniesContract :
    (py : Platform) (s : Step) (c : StepCompileContext) (toolsets : List (Text × Toolset))
    (artifacts : List (Text × Artifact)) (k : CompiledStep)
    → compile_step py s c toolsets artifacts ≡ ok k
    → (d : PermissionDecision) × (check_write k.permission_manifest c.contract_ref ≡ ok d)
      × (d.allowed ≡ false)
compile_step-DeniesContract py s c toolsets artifacts k h =
    let (checked, made) = compile_step-Compiled py s c toolsets artifacts k h in
    let roots = manifest-SameRoots s c made.grants k.permission_manifest made.made in
    let (d, e, iff) =
      (check_decides py k.permission_manifest c.contract_ref (strip c.contract_ref) made.valid
        checked.contract).1 in
    (
      d,
      e,
      elim (Bool-cases d.allowed) [
        | inl y ↦ absurd (checked.spared ((roots.writable (strip c.contract_ref)).1 (iff.0 y).0))
        | inr n ↦ n
      ],
    )

-- When a step compiles, its outputs lie below the writable roots of its manifest and its inputs below
-- the readable ones.
pub compile_step-InRoots :
    (py : Platform) (s : Step) (c : StepCompileContext) (toolsets : List (Text × Toolset))
    (artifacts : List (Text × Artifact)) (k : CompiledStep)
    → compile_step py s c toolsets artifacts ≡ ok k
    → All (λ ref. InRoots (strip ref) k.permission_manifest.writable_refs) s.outputs
      × All (λ ref. InRoots (strip ref) k.permission_manifest.readable_refs) s.inputs
compile_step-InRoots py s c toolsets artifacts k h =
    let (checked, made) = compile_step-Compiled py s c toolsets artifacts k h in
    let roots = manifest-SameRoots s c made.grants k.permission_manifest made.made in
    (
      All-map (λ ref. InRoots (strip ref) s.writable)
          (λ ref. InRoots (strip ref) k.permission_manifest.writable_refs) s.outputs
          (λ ref. (roots.writable (strip ref)).0) checked.outputs,
      All-map (λ ref. InRoots (strip ref) s.readable)
          (λ ref. InRoots (strip ref) k.permission_manifest.readable_refs) s.inputs
          (λ ref. roots.readable (strip ref)) checked.inputs,
    )
