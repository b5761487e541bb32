-- ===== src/RuntimeControl/Permitted.antt =====
-- The runner's answer as a whole: what holds of every request that it allows.
use missionforge.Common.{
  ℕ, ◌<◌, ◌≡◌, refl, ap, ◌∙◌, subst, Bool, true, false, not, Option, none, some, List, All, inl,
  inr, Bool-cases, arith, if◌then◌else◌,
}
use missionforge.Text.{Text, codes, text_eq, strip}
use missionforge.Text.Split.{under, under_iff}
use missionforge.Contracts.Refs.{validate_ref_iff}
use missionforge.Outcome.{ok, ◌>>=◌, >>=-eq-ok, ok_injective}
use missionforge.Platform.{Platform}
use missionforge.Value.{text, strings}
use missionforge.Contracts.{require_non_empty_str, require_str_list, validate_ref}
use missionforge.Checks.{member}
use missionforge.TaskContract.Manifest.{PermissionManifest}
use missionforge.Permissions.{PermissionDecision, check_command, check_network}
use missionforge.Permissions.Paths.{Below}
use missionforge.RuntimeControl.{
  SandboxProfile, ToolGatewayRequest, parse_timestamp, is_active, is_under, validate_request,
  validate_profile, active_until,
}
use missionforge.RuntimeControl.Runner.{
  ToolGatewayResult, ResultReason, grant_inactive, grant_expired_or_revoked, cwd_denied,
  cwd_outside_root, permission, tool_not_supported, command_denied, unsupported_tool, deny,
  after_network, read_tools, write_tools, command_of, network_requested, run_bash, run_tool,
  enforcer, run, cwd_outside,
}
use missionforge.RuntimeControl.Allowed.{
  IsFor, Confined, enforcer-IsFor, read_allowed, write_allowed,
}

-- The command is on the profile's list, both without white space around them, and the network is
-- asked for only where the profile enables it.
pub record IsCommandPermitted (py : Platform) (request : ToolGatewayRequest)
    (profile : SandboxProfile) : Type 0 where
  pub listed :
      (cs : List Text) × (require_str_list (strings profile.command_allowlist) ≡ ok cs)
      × (member (strip (command_of py request)) cs ≡ true)
  pub network : network_requested request ≡ true → profile.network_enabled ≡ true

-- What the tool of the request may do: read below the readable roots, write below the writable ones,
-- run a listed command.
pub record IsToolPermitted (py : Platform) (request : ToolGatewayRequest) (profile : SandboxProfile)
    : Type 0 where
  pub reads :
      member request.tool_name read_tools ≡ true
      → All (Confined profile.readable_refs profile.denied_refs) request.input_refs
  pub writes :
      member request.tool_name read_tools ≡ false
      → member request.tool_name write_tools ≡ true
      → All (Confined profile.writable_refs profile.denied_refs) request.output_refs
  pub commands :
      member request.tool_name read_tools ≡ false
      → member request.tool_name write_tools ≡ false
      → (text_eq request.tool_name (codes "bash") ≡ true) × IsCommandPermitted py request profile

command_listed :
    (m : PermissionManifest) (line : Text) (d : PermissionDecision)
    → check_command m line ≡ ok d
    → d.allowed ≡ true
    → member (strip line) m.allowed_commands ≡ true
unfolding check_command require_non_empty_str
command_listed m line d h y = ground arith

-- A result that allows a command means that both of its decisions did.
bash_parts :
    (request : ToolGatewayRequest) (d n : PermissionDecision) (reason : ResultReason)
    → (if not d.allowed
        then deny request command_denied reason
        else after_network request n).allowed
      ≡ true
    → (d.allowed ≡ true) × (n.allowed ≡ true)
bash_parts request d n reason h = ground arith

module _ (py : Platform) (m : PermissionManifest) (profile : SandboxProfile)
    (is_for : IsFor m profile) (request : ToolGatewayRequest) (res : ToolGatewayResult)
    (yes_res : res.allowed ≡ true) where
  network_allowed :
      (requested : Bool)
      → (check_network m requested).allowed ≡ true
      → requested ≡ true
      → profile.network_enabled ≡ true
  unfolding check_network
  network_allowed requested h y = ground (arith, is_for.network)

  bash_allowed : run_bash py m request ≡ ok res → IsCommandPermitted py request profile
  unfolding run_bash
  bash_allowed h =
      let (d, e, f) = >>=-eq-ok (check_command m (command_of py request)) _ h in
      let n = check_network m (network_requested request) in
      let (y, z) =
        bash_parts request d n (permission d.reason)
          (ap (λ (t : ToolGatewayResult). t.allowed) (ok_injective f) ∙ yes_res) in
      record {
        listed =
            (m.allowed_commands, is_for.commands, command_listed m (command_of py request) d e y);
        network = network_allowed (network_requested request) z;
      }

  tool_allowed : run_tool py m request ≡ ok res → IsToolPermitted py request profile
  unfolding run_tool
  tool_allowed h = record {
    reads = λ r. read_allowed m profile is_for request res yes_res (rw r at h);
    writes = λ r w. write_allowed m profile is_for request res yes_res (rw (r, w) at h);
    commands = λ r w. commands (rw (r, w) at h);
  }
    where
      commands :
          (if text_eq request.tool_name (codes "bash")
              then run_bash py m request
              else ok (deny request unsupported_tool tool_not_supported))
            ≡ ok res
          → (text_eq request.tool_name (codes "bash") ≡ true)
            × IsCommandPermitted py request profile
      commands k = elim (Bool-cases (text_eq request.tool_name (codes "bash"))) [
        | inl y ↦ (y, bash_allowed (rw y at k))
        | inr n ↦
            let e : ok (deny request unsupported_tool tool_not_supported) ≡ ok res = rw n at k in
            cc (e, yes_res)
      ]

-- What holds of a request that the runner allows.
pub record IsPermitted (py : Platform) (now : ℕ) (request : ToolGatewayRequest)
    (profile : SandboxProfile) : Type 0 where
  pub unrevoked : request.grant.revoked_at ≡ none
  pub unexpired : (t : ℕ) × (parse_timestamp py request.grant.expires_at ≡ ok t) × (now < t)
  pub directory :
      (cwd : Text)
      → request.cwd_ref ≡ some cwd
      → Below (strip profile.workspace_root_ref) (strip cwd)
  pub tool : IsToolPermitted py request profile

grant_lives :
    (py : Platform) (now : ℕ) (expires : Text) (revoked : Option Text)
    → active_until py now expires revoked ≡ ok true
    → (revoked ≡ none) × ((t : ℕ) × (parse_timestamp py expires ≡ ok t) × (now < t))
grant_lives py now expires (some r) h = cc
grant_lives py now expires none h =
    let (t, e, f) = >>=-eq-ok (parse_timestamp py expires) _ h in
    (refl, (t, e, ground (arith, ok_injective f)))

true_of_not : (b : Bool) → not b ≡ false → b ≡ true
true_of_not b h = ground arith

cwd_inside :
    (cwd root : Text) → cwd_outside (some cwd) root ≡ ok false → Below (strip root) (strip cwd)
unfolding is_under
cwd_inside cwd root h =
    let (inside, e, f) = >>=-eq-ok (is_under cwd root) _ h in
    let (r, g, k) = >>=-eq-ok (validate_ref (text cwd)) _ e in
    let (s, l, o) = >>=-eq-ok (validate_ref (text root)) _ k in
    let y : under b'/' s r ≡ true = ok_injective o ∙ true_of_not inside (ok_injective f) in
    subst (λ u. Below u (strip cwd)) ((validate_ref_iff root s).0 l).0
      (subst (Below s) ((validate_ref_iff cwd r).0 g).0 ((under_iff b'/' s r).0 y))

-- Every request that the runner allows has a grant that is neither revoked nor expired, a working
-- directory inside the sandbox root, and a tool that stays within what the profile declares: reads
-- below the readable roots, writes below the writable ones, both outside the denied roots, and
-- commands on the list, with the network only where it is enabled.
pub run-IsPermitted :
    (py : Platform) (now : ℕ) (request : ToolGatewayRequest) (profile : SandboxProfile)
    (res : ToolGatewayResult)
    → run py now request profile ≡ ok res
    → res.allowed ≡ true
    → IsPermitted py now request profile
unfolding run is_active
run-IsPermitted py now request profile res h0 y =
    let (u, valid, h1) = >>=-eq-ok (validate_request py request) _ h0 in
    let (v, fine, h2) = >>=-eq-ok (validate_profile profile) _ h1 in
    let (active, e, h3) =
      >>=-eq-ok (active_until py now request.grant.expires_at request.grant.revoked_at) _ h2 in
    elim (Bool-cases active) [
      | inr n ↦
          let k : ok (deny request grant_inactive grant_expired_or_revoked) ≡ ok res = rw n at h3 in
          cc (k, y)
      | inl a ↦ active_permitted (e ∙ ap ok a) (rw a at h3)
    ]
  where
    active_permitted :
        active_until py now request.grant.expires_at request.grant.revoked_at ≡ ok true
        → (cwd_outside request.cwd_ref profile.workspace_root_ref >>= λ outside.
            if outside
            then ok (deny request cwd_denied cwd_outside_root)
            else (enforcer py request profile >>= λ m. run_tool py m request))
          ≡ ok res
        → IsPermitted py now request profile
    active_permitted live h =
        let (outside, e, h') =
          >>=-eq-ok (cwd_outside request.cwd_ref profile.workspace_root_ref) _ h in
        elim (Bool-cases outside) [
          | inl o ↦
              let k : ok (deny request cwd_denied cwd_outside_root) ≡ ok res = rw o at h' in
              cc (k, y)
          | inr i ↦
              let (m, is, k) = >>=-eq-ok (enforcer py request profile) _ (rw i at h') in
              let (unrevoked, unexpired) = grant_lives py now _ request.grant.revoked_at live in
              record {
                unrevoked = unrevoked;
                unexpired = unexpired;
                directory = λ cwd c. cwd_inside cwd profile.workspace_root_ref (
                    subst (λ o. cwd_outside o profile.workspace_root_ref ≡ ok false) c
                      (e ∙ ap ok i));
                tool =
                    tool_allowed py m profile (enforcer-IsFor py request profile m is) request res y
                      k;
              }
        ]
