-- ===== src/RuntimeControl/Allowed.antt =====
-- What a request that the runner allows has passed.
use missionforge.Common.{
  ◌≡◌, refl, sym, ap, ◌∙◌, subst, Bool, true, false, Option, none, some, List, [], ◌∷◌, All, inl,
  inr, Bool-cases, if◌then◌else◌,
}
use missionforge.Text.{Text, codes, text_eq, strip}
use missionforge.Outcome.{Outcome, ok, >>=-eq-ok, >>=-post, ok_injective}
use missionforge.Platform.{Platform}
use missionforge.Value.{text, dict, Fields, get_or, strings}
use missionforge.Contracts.{require_non_empty_str, require_str_list, require_mapping}
use missionforge.Checks
use missionforge.Checks.{optional_ref, require_enum, member}
use missionforge.TaskContract.Extension.{grants_from_dicts}
use missionforge.TaskContract.ProgressStream.{streams_from_dicts}
use missionforge.TaskContract.Manifest
use missionforge.TaskContract.Manifest.{PermissionManifest, NetworkPolicy, enabled, disabled}
use missionforge.RuntimeControl.{SandboxProfile, ToolGatewayRequest}
use missionforge.RuntimeControl.Runner.{
  manifest_fields, enforcer, ToolGatewayResult, Verdict, read_denied, write_denied, check_all,
  after_refs, run_read, run_write,
}
use missionforge.Permissions.{PermissionDecision, check_read, check_write}
use missionforge.Permissions.Decisions.{InRoots, check_ref_iff, InRoots-parsed, InRoots-of_parsed}

-- The manifest of the enforcer holds what the profile declares.
pub record IsFor (m : PermissionManifest) (profile : SandboxProfile) : Type 0 where
  pub readable : Checks.ref_list (strings profile.readable_refs) ≡ ok m.readable_refs
  pub writable : Checks.ref_list (strings profile.writable_refs) ≡ ok m.writable_refs
  pub denied : Checks.ref_list (strings profile.denied_refs) ≡ ok m.denied_refs
  pub commands : require_str_list (strings profile.command_allowlist) ≡ ok m.allowed_commands
  pub network : m.network_policy ≡ (if profile.network_enabled then enabled else disabled)

network_name :
    (b : Bool) (n : NetworkPolicy)
    → require_enum Manifest.network_policy_of
        (text (if b then codes "enabled" else codes "disabled"))
      ≡ ok n
    → n ≡ (if b then enabled else disabled)
unfolding require_enum text_eq
network_name true n h = sym (ok_injective h)
network_name false n h = sym (ok_injective h)

parsed-IsFor :
    (py : Platform) (request : ToolGatewayRequest) (profile : SandboxProfile)
    (m : PermissionManifest)
    → Manifest.parse py (manifest_fields request profile) ≡ ok m
    → IsFor m profile
unfolding Manifest.parse manifest_fields get_or text_eq
parsed-IsFor py request profile m h0 =
    let P : PermissionManifest → Type 0 = λ q. IsFor q profile in
    >>=-post P (optional_ref _) _ h0 λ a ea h1. >>=-post P (require_non_empty_str _) _ h1 λ b eb h2.
      >>=-post P (optional_ref _) _ h2 λ c ec h3.
        >>=-post P (Checks.ref_list _) _ h3 λ readable er h4.
          >>=-post P (Checks.ref_list _) _ h4 λ writable ew h5.
            >>=-post P (Checks.ref_list _) _ h5 λ denied ed h6.
              >>=-post P (require_str_list _) _ h6 λ commands em h7.
                >>=-post P (require_enum _ _) _ h7 λ network en h8.
                  >>=-post P (require_str_list _) _ h8 λ d x1 h9.
                    >>=-post P (require_str_list _) _ h9 λ e x2 h10.
                      >>=-post P (grants_from_dicts py _) _ h10 λ f x3 h11.
                        >>=-post P (streams_from_dicts _) _ h11 λ g x4 h12.
                          >>=-post P (require_non_empty_str _) _ h12 λ i x5 h.
                            subst P (ok_injective h) (record {
                              readable = er;
                              writable = ew;
                              denied = ed;
                              commands = em;
                              network = network_name profile.network_enabled network en;
                            })

from_dict-parse :
    (py : Platform) (fs : Fields) (m : PermissionManifest)
    → Manifest.from_dict py (dict fs) ≡ ok m
    → Manifest.parse py fs ≡ ok m
unfolding Manifest.from_dict require_mapping
from_dict-parse py fs m h =
    let (r, g, k) = >>=-eq-ok (Manifest.parse py fs) _ h in
    let (x, v, e) = >>=-eq-ok (Manifest.validate py r) _ k in g ∙ e

pub enforcer-IsFor :
    (py : Platform) (request : ToolGatewayRequest) (profile : SandboxProfile)
    (m : PermissionManifest)
    → enforcer py request profile ≡ ok m
    → IsFor m profile
unfolding enforcer
enforcer-IsFor py request profile m h =
    let fields = manifest_fields request profile in
    let (q, e, k) = >>=-eq-ok (Manifest.from_dict py (dict fields)) _ h in
    let (u, v, same) = >>=-eq-ok (Manifest.validate py q) _ k in
    parsed-IsFor py request profile m (from_dict-parse py fields q e ∙ same)

-- The ref lies in one of the roots, and in none of the denied ones.
abbrev pub Confined : List Text → List Text → Text → Type 0
Confined roots denied r = InRoots (strip r) roots × (¬ InRoots (strip r) denied)

confined :
    (m : PermissionManifest) (profile : SandboxProfile) (roots parsed : List Text) (r : Text)
    → IsFor m profile
    → Checks.ref_list (strings roots) ≡ ok parsed
    → Confined parsed m.denied_refs r
    → Confined roots profile.denied_refs r
confined m profile roots parsed r is_for h (inside, clear) = (
  InRoots-of_parsed (strip r) roots parsed h inside,
  λ i. clear (InRoots-parsed (strip r) profile.denied_refs m.denied_refs is_for.denied i),
)

allowed_refs :
    (check : Text → Outcome PermissionDecision) (P : Text → Type 0)
    → ((r : Text) (d : PermissionDecision) → check r ≡ ok d → d.allowed ≡ true → P r)
    → (refs : List Text) → check_all check refs ≡ ok none
    → All P refs
unfolding check_all
allowed_refs check P k [] h = tt
allowed_refs check P k (r ∷ refs) h =
    let (d, e, f) = >>=-eq-ok (check r) _ h in
    elim (Bool-cases d.allowed) [
      | inl y ↦ (k r d e y, allowed_refs check P k refs (rw y at f))
      | inr n ↦ let bad : ok (some d) ≡ ok none = rw n at f in cc
    ]

-- A loop's result that allows the request means that no ref was refused.
after_allowed :
    (request : ToolGatewayRequest) (v : Verdict) (found : Option PermissionDecision)
    → (after_refs request v found).allowed ≡ true
    → found ≡ none
after_allowed request v none h = refl
after_allowed request v (some d) h = cc

module _ (m : PermissionManifest) (profile : SandboxProfile) (is_for : IsFor m profile)
    (request : ToolGatewayRequest) (res : ToolGatewayResult) (yes_res : res.allowed ≡ true) where
  pub read_allowed :
      run_read m request ≡ ok res
      → All (Confined profile.readable_refs profile.denied_refs) request.input_refs
  unfolding run_read check_read
  read_allowed h =
      let (found, e, f) = >>=-eq-ok (check_all (check_read m) request.input_refs) _ h in
      let none_found =
        after_allowed request read_denied found
          (ap (λ (t : ToolGatewayResult). t.allowed) (ok_injective f) ∙ yes_res) in
      allowed_refs (check_read m) (Confined profile.readable_refs profile.denied_refs)
        (λ r d k y.
          confined m profile profile.readable_refs m.readable_refs r is_for is_for.readable
            ((check_ref_iff m _ r m.readable_refs d k).0 y))
        request.input_refs (e ∙ ap ok none_found)

  pub write_allowed :
      run_write m request ≡ ok res
      → All (Confined profile.writable_refs profile.denied_refs) request.output_refs
  unfolding run_write check_write
  write_allowed h =
      let (found, e, f) = >>=-eq-ok (check_all (check_write m) request.output_refs) _ h in
      let none_found =
        after_allowed request write_denied found
          (ap (λ (t : ToolGatewayResult). t.allowed) (ok_injective f) ∙ yes_res) in
      allowed_refs (check_write m) (Confined profile.writable_refs profile.denied_refs)
        (λ r d k y.
          confined m profile profile.writable_refs m.writable_refs r is_for is_for.writable
            ((check_ref_iff m _ r m.writable_refs d k).0 y))
        request.output_refs (e ∙ ap ok none_found)
