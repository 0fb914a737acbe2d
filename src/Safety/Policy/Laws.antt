-- ===== src/Safety/Policy/Laws.antt =====
-- src/desktop_worker/safety/policy.py and profiles.py: what a policy lets run.
use desktop_worker.Prelude.{String, ◌≡◌, ◌≢◌, ◌↔◌, ◌⊎◌, true, List, ◌∷◌, arith, string_eq, eq_iff}
use desktop_worker.Prelude.Text.{lower, strip}
use desktop_worker.Errors.{ok}
use desktop_worker.Safety.Policy.{
  low, medium, high, ApprovalRequest, ApprovalCallback, PermissionPolicy, settings, deny_all,
  profile_name, authorize, authorize_app, build_policy,
}

-- What each profile lets run. `headless` never asks and refuses high risk alone; `strict` runs low
-- risk and asks for the rest; `standard` asks for high risk alone.
pub build_policy-authorize :
    (profile : String) (callback : ApprovalCallback) (allow deny : List String)
    {p : PermissionPolicy} (r : ApprovalRequest)
    → build_policy profile callback allow deny ≡ ok p
    → (profile_name profile ≡ "headless" → (authorize p r ≡ true) ↔ (r.risk ≢ high))
      × (profile_name profile ≡ "strict"
          → (authorize p r ≡ true) ↔ ((r.risk ≡ low) ⊎ (callback r ≡ true)))
      × (profile_name profile ≡ "standard"
          → (authorize p r ≡ true) ↔ ((r.risk ≢ high) ⊎ (callback r ≡ true)))
unfolding build_policy authorize
build_policy-authorize profile callback allow deny {p} r h = (
  λ name.
      let made : p ≡ settings allow deny deny_all high = cc (rw name at h) in
      rw made (λ a. ground arith, λ a. ground arith),
  λ name.
      let made : p ≡ settings allow deny callback medium = cc (rw name at h) in
      rw made (λ a. ground arith, λ a. ground arith),
  λ name.
      let made : p ≡ settings allow deny callback high = cc (rw name at h) in
      rw made (λ a. ground arith, λ a. ground arith),
)

-- With the other settings alike, one more denied application lets nothing more launch, and an
-- application that launches differs from it in more than case and white space.
pub authorize_app_denied :
    (p : PermissionPolicy) (denied app : String)
    → authorize_app (record p { app_denylist = denied ∷ p.app_denylist }) app ≡ true
    → (authorize_app p app ≡ true) × (lower (strip app) ≢ lower denied)
unfolding authorize_app
authorize_app_denied p denied app h =
    (ground arith, λ e. ground (arith, eq_iff (lower (strip app)) (lower denied)))
