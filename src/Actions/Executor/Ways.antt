-- ===== src/Actions/Executor/Ways.antt =====
-- src/desktop_worker/actions/executor.py: the ways in which `execute` ends, one for each path
-- through its guards.
use desktop_worker.Prelude.{◌<>◌, ◌≡◌, refl, inl, inr, Bool, true, false, if◌then◌else◌}
use desktop_worker.Errors.{Error, message, ok, err, Result-cases}
use desktop_worker.Value.{Dict, bool, end, field}
use desktop_worker.Schema.Results.{ActionResult}
use desktop_worker.Schema.Actions.Parse.{Action}
use desktop_worker.Safety.Policy.{RiskLevel}
use desktop_worker.Actions.Executor.Dispatch.{Executor, dispatch}
use desktop_worker.Actions.Executor.Execute.{
  execute, proceed, perform, approve, fail, refuse, succeed, on_error, return,
}
use desktop_worker.Session.Laws.{Outcome-cases}
use desktop_worker.Session.{World, Outcome, done, raised, hang, check_estop}

module _ (x : Executor) (a : Action) where
  -- The world behind the emergency-stop guard.
  abbrev pub guarded : World → World
  guarded w = (check_estop w).1

  abbrev pub Passed : World → Type 0
  Passed w = (check_estop w).0 ≡ done tt

  abbrev pub dispatched : World → Outcome Dict × World
  dispatched w = dispatch x a.type a.params (guarded w)

  pub data Ending (w : World) : Outcome ActionResult × World → Type 0 where
    -- a pause that nobody lifts
    paused : (check_estop w).0 ≡ hang → Ending w (hang, guarded w)
    halted :
        (e : Error)
        → (check_estop w).0 ≡ raised e
        → Ending w (return x (fail x a ("halted: " <> message e) "action.halted" (guarded w)))
    -- a tool's name that has no hash
    unnamed : (e : Error) → Passed w → approve x a ≡ err e → Ending w (raised e, guarded w)
    denied :
        (risk : RiskLevel)
        → Passed w
        → approve x a ≡ ok (false, risk)
        → Ending w (return x (refuse x a risk (guarded w)))
    dry :
        (risk : RiskLevel)
        → Passed w
        → approve x a ≡ ok (true, risk)
        → x.dry_run ≡ true
        → Ending w
            (return x (succeed x a (field "dryRun" (bool true) end) "action.dryrun" (guarded w)))
    executed :
        (risk : RiskLevel) (detail : Dict)
        → Passed w
        → approve x a ≡ ok (true, risk)
        → x.dry_run ≡ false
        → (dispatched w).0 ≡ done detail
        → Ending w (return x (succeed x a detail "action.executed" (dispatched w).1))
    failed :
        (risk : RiskLevel) (e : Error)
        → Passed w
        → approve x a ≡ ok (true, risk)
        → x.dry_run ≡ false
        → (dispatched w).0 ≡ raised e
        → Ending w (return x (on_error x a e (dispatched w).1))
    -- a pause within the dispatch
    stuck :
        (risk : RiskLevel)
        → Passed w
        → approve x a ≡ ok (true, risk)
        → x.dry_run ≡ false
        → (dispatched w).0 ≡ hang
        → Ending w (hang, (dispatched w).1)

  perform-Ending :
      (w : World) (risk : RiskLevel)
      → Passed w
      → approve x a ≡ ok (true, risk)
      → x.dry_run ≡ false
      → Ending w (perform x a (guarded w))
  unfolding perform
  perform-Ending w risk p g live = elim (Outcome-cases (dispatched w).0) [
    | inl (detail, e) ↦ rw (e, perform) (executed risk detail p g live e)
    | inr (inl (e, r)) ↦ rw (r, perform) (failed risk e p g live r)
    | inr (inr h) ↦ rw (h, perform) (stuck risk p g live h)
  ]

  run_or_dry-Ending :
      (w : World) (risk : RiskLevel)
      → Passed w
      → approve x a ≡ ok (true, risk)
      → (b : Bool) → x.dry_run ≡ b
      → Ending w (
          if b
          then return x (succeed x a (field "dryRun" (bool true) end) "action.dryrun" (guarded w))
          else perform x a (guarded w))
  run_or_dry-Ending w risk p g true d = dry risk p g d
  run_or_dry-Ending w risk p g false live = perform-Ending w risk p g live

  proceed-Ending : (w : World) → Passed w → Ending w (proceed x a (guarded w))
  unfolding proceed
  proceed-Ending w p = elim (Result-cases (approve x a)) [
    | inl (e, refused) ↦ rw (refused, proceed) (unnamed e p refused)
    | inr ((false, risk), g) ↦ rw (g, proceed) (denied risk p g)
    | inr ((true, risk), g) ↦ rw (g, proceed) (run_or_dry-Ending w risk p g x.dry_run refl)
  ]

  -- Every execution ends in one of these ways, with the result, the world and the entry of this
  -- way. So `execute` raises only for a tool's name that has no hash.
  pub execute-Ending : (w : World) → Ending w (execute x a w)
  unfolding execute
  execute-Ending w = elim (Outcome-cases (check_estop w).0) [
    | inl (u, p) ↦ rw (p, execute) (proceed-Ending w p)
    | inr (inl (e, r)) ↦ rw (r, execute) (halted e r)
    | inr (inr h) ↦ rw (h, execute) (paused h)
  ]
