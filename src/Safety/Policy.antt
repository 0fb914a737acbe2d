-- ===== src/Safety/Policy.antt =====
-- src/desktop_worker/safety/policy.py: risk levels, the approval of risky requests, and the lists of
-- applications; and src/desktop_worker/safety/profiles.py. An approval callback is a function of the
-- request alone: a person who answers the same request differently later is not modelled.
pub mod Laws
use desktop_worker.Prelude.{
  ℕ, String, Bool, true, false, List, [], ◌∷◌, map, ◌==◌, string_eq, contains, is_nil, leb,
  if◌then◌else◌, Option, none, some, not,
}
use desktop_worker.Prelude.Text.{lower, strip}
use desktop_worker.Value.{Dict}
use desktop_worker.Errors.{Error, value_error, Result, ok, err}

pub data RiskLevel : Type 0 where
  low medium high : RiskLevel

-- `RiskLevel.value`
abbrev pub value : RiskLevel → String
value low = "low"
value medium = "medium"
value high = "high"

-- `RiskLevel(text)`, or none where it raises a `ValueError`.
unfoldable pub risk_level : String → Option RiskLevel
risk_level s =
    if s == "low"
    then some low
    else if s == "medium"
    then some medium
    else if s == "high"
    then some high
    else none

abbrev pub order : RiskLevel → ℕ
order low = 0
order medium = 1
order high = 2

abbrev pub at_least : RiskLevel → RiskLevel → Bool
at_least a b = leb (order b) (order a)

pub record ApprovalRequest : Type 0 where
  pub kind : String
  pub summary : String
  pub risk : RiskLevel
  pub detail : Dict

abbrev pub ApprovalCallback : Type 0
ApprovalCallback = ApprovalRequest → Bool

abbrev pub deny_all : ApprovalCallback
deny_all request = false

abbrev pub auto_approve : ApprovalCallback
auto_approve request = true

pub record PermissionPolicy : Type 0 where
  pub approval_callback : ApprovalCallback
  pub approval_threshold : RiskLevel
  pub app_allowlist : List String
  pub app_denylist : List String

abbrev high_risk_action_types : List String
high_risk_action_types = []

abbrev medium_risk_action_types : List String
medium_risk_action_types = "window.focus" ∷ []

-- The classifier reads the type of an action alone.
unfoldable pub classify_action : String → RiskLevel
classify_action type =
    if contains high_risk_action_types type
    then high
    else if contains medium_risk_action_types type
    then medium
    else low

abbrev pub requires_approval : PermissionPolicy → RiskLevel → Bool
requires_approval p risk = at_least risk p.approval_threshold

unfoldable pub authorize : PermissionPolicy → ApprovalRequest → Bool
authorize p request =
    if not (requires_approval p request.risk) then true else p.approval_callback request

-- `(app or "").strip().lower()` against the lists in lower case.
unfoldable pub authorize_app : PermissionPolicy → String → Bool
authorize_app p app =
    let name = lower (strip app) in
    if contains (map lower p.app_denylist) name
    then false
    else if is_nil p.app_allowlist
    then true
    else contains (map lower p.app_allowlist) name

-- `authorize_action`: the summary is `str(action)`, the detail `to_dict`.
unfoldable pub authorize_action : PermissionPolicy → String → String → Dict → Bool × RiskLevel
unfolding classify_action
authorize_action p type summary detail =
    let risk = classify_action type in
    (
      authorize p (record { kind = "action"; summary = summary; risk = risk; detail = detail }),
      risk,
    )

-- `(profile or "standard").lower()`
unfoldable pub profile_name : String → String
profile_name profile = lower (if profile == "" then "standard" else profile)

abbrev pub settings : List String → List String → ApprovalCallback → RiskLevel → PermissionPolicy
settings allow deny callback threshold = record {
  approval_callback = callback;
  approval_threshold = threshold;
  app_allowlist = allow;
  app_denylist = deny;
}

unfoldable pub build_policy :
    String → ApprovalCallback → List String → List String → Result PermissionPolicy
build_policy profile callback allow deny =
    let name = profile_name profile in
    if name == "headless"
    then ok (settings allow deny deny_all high)
    else if name == "strict"
    then ok (settings allow deny callback medium)
    else if name == "standard"
    then ok (settings allow deny callback high)
    else err (value_error "unknown permission profile")
