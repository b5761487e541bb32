-- ===== src/RuntimeControl/Gateway.antt =====
-- `ToolGateway.dispatch` over the host runner of src/missionforge/runtime_control.py.
use missionforge.Common.{ℕ, ◌≡◌, refl, sym, subst, Bool, true, false, not}
use missionforge.Text.{text_eq}
use missionforge.Text.Equality.{text_eq_sound}
use missionforge.Outcome.{ok, refuse_if, mismatch, >>=-eq-ok, ok_injective, refuse_if-eq-ok}
use missionforge.Platform.{Platform}
use missionforge.RuntimeControl.{
  SandboxProfile, ToolGatewayRequest, validate_profile, validate_request,
}
use missionforge.RuntimeControl.Runner.{ToolGatewayResult, validate_result, run, dispatch}
use missionforge.RuntimeControl.Permitted.{IsPermitted, run-IsPermitted}

of_not : (b : Bool) → not b ≡ false → b ≡ true
of_not true h = refl
of_not false h = absurd (cc)

-- A request that the gateway allows over the host runner is for the workspace view that the grant
-- names, is permitted as by the runner, and comes with a valid result.
pub dispatch-IsPermitted :
    (py : Platform) (now : ℕ) (request : ToolGatewayRequest) (profile : SandboxProfile)
    (res : ToolGatewayResult)
    → dispatch py (run py now) request profile ≡ ok res
    → res.allowed ≡ true
    → (request.grant.workspace_view_ref ≡ profile.workspace_root_ref)
      × IsPermitted py now request profile
      × (validate_result res ≡ ok tt)
unfolding dispatch
dispatch-IsPermitted py now request profile res h y =
    let (u, a, h1) = >>=-eq-ok (validate_request py request) _ h in
    let (v, b, h2) = >>=-eq-ok (validate_profile profile) _ h1 in
    let same = text_eq request.grant.workspace_view_ref profile.workspace_root_ref in
    let (w, c, h3) = >>=-eq-ok (refuse_if (not same) mismatch) _ h2 in
    let (result, d, h4) = >>=-eq-ok (run py now request profile) _ h3 in
    let (x, e, h5) = >>=-eq-ok (validate_result result) _ h4 in
    let is_res : result ≡ res = ok_injective h5 in
    (
      text_eq_sound request.grant.workspace_view_ref profile.workspace_root_ref
          (of_not same (refuse_if-eq-ok (not same) mismatch c)),
      run-IsPermitted py now request profile result d
          (subst (λ (r : ToolGatewayResult). r.allowed ≡ true) (sym is_res) y),
      subst (λ r. validate_result r ≡ ok tt) is_res e,
    )
