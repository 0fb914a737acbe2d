-- ===== src/Actions/Executor/Ending.antt =====
-- src/desktop_worker/actions/executor.py: the entry that `execute` writes, for each way in which it
-- ends.
use desktop_worker.Prelude.{
  String, ◌≡◌, refl, sym, ap, subst, ◌∙◌, Bool, true, false, some, [], ◌∷◌, ◌++◌, if◌then◌else◌,
}
use desktop_worker.Errors.{Error, ok, emergency_stop}
use desktop_worker.Value.{Dict}
use desktop_worker.Schema.Results.{ActionResult}
use desktop_worker.Schema.Actions.Parse.{Action, to_dict}
use desktop_worker.Audit.Redact.{redact_dict}
use desktop_worker.Audit.Log.{AuditLog, from, make_entry, write}
use desktop_worker.Safety.Policy.{RiskLevel}
use desktop_worker.Actions.Executor.Dispatch.{Executor}
use desktop_worker.Actions.Executor.Execute.{
  execute, approve, fail, refuse, succeed, on_error, log_result, result_to_dict,
}
use desktop_worker.Session.{World, Outcome, done, raised, check_estop}
use desktop_worker.Actions.Executor.Ways.{
  Ending, paused, halted, unnamed, denied, dry, executed, failed, stuck, Passed, dispatched,
  execute-Ending,
}

abbrev pub is_stop : Error → Bool
is_stop (emergency_stop reason) = true
is_stop _ = false

-- The event of an execution that starts in `w`, from what its guards and its dispatch do there, and
-- the success that goes with it.
pub data EventOf (x : Executor) (a : Action) (w : World) : Bool → String → Type 0 where
  -- the emergency-stop guard raises
  halts : (e : Error) → (check_estop w).0 ≡ raised e → EventOf x a w false "action.halted"
  -- the guard passes, and the policy does not grant the action
  blocks :
      (risk : RiskLevel)
      → Passed x a w
      → approve x a ≡ ok (false, risk)
      → EventOf x a w false "action.blocked"
  -- it is granted, on an executor that runs dry
  runs_dry :
      (risk : RiskLevel)
      → Passed x a w
      → approve x a ≡ ok (true, risk)
      → x.dry_run ≡ true
      → EventOf x a w true "action.dryrun"
  -- it is granted, and the dispatch returns
  executes :
      (risk : RiskLevel) (detail : Dict)
      → Passed x a w
      → approve x a ≡ ok (true, risk)
      → x.dry_run ≡ false
      → (dispatched x a w).0 ≡ done detail
      → EventOf x a w true "action.executed"
  -- it is granted, and an emergency stop ends the dispatch
  interrupts :
      (risk : RiskLevel) (e : Error)
      → Passed x a w
      → approve x a ≡ ok (true, risk)
      → x.dry_run ≡ false
      → (dispatched x a w).0 ≡ raised e
      → is_stop e ≡ true
      → EventOf x a w false "action.halted"
  -- it is granted, and the dispatch raises anything else
  fails :
      (risk : RiskLevel) (e : Error)
      → Passed x a w
      → approve x a ≡ ok (true, risk)
      → x.dry_run ≡ false
      → (dispatched x a w).0 ≡ raised e
      → is_stop e ≡ false
      → EventOf x a w false "action.failed"

-- The line of the log that has the event, the action and a result.
abbrev pub line_of : Executor → Action → String → ActionResult → AuditLog → Dict
line_of x a event r log =
    let line =
      make_entry event
        (record (from x.agent x.role) {
          action = some (to_dict a);
          result = some (result_to_dict r);
        })
        log in
    if log.redact_secrets then redact_dict line else line

-- `after` is the session behind the entry for the action that an execution from `w` writes.
pub record Logged (x : Executor) (a : Action) (w : World) (success : Bool) (after : World)
    : Type 0 where
  pub event : String
  pub written : ActionResult
  pub before : World
  pub last : after ≡ record before {
    audit = record before.audit {
      entries = before.audit.entries ++ (line_of x a event written before.audit ∷ []);
    };
  }
  pub agrees : written.success ≡ success
  pub of_action : written.action_type ≡ a.type
  pub kind : EventOf x a w success event

module _ (x : Executor) (a : Action) where
  -- The entry of a result that is returned as it is written.
  entry :
      {w : World} (before : World) (event : String) (written : ActionResult)
      → written.action_type ≡ a.type
      → EventOf x a w written.success event
      → Logged x a w written.success (log_result x event a written before).1
  unfolding log_result write
  entry before event written same kind = record {
    event = event;
    written = written;
    before = before;
    last = refl;
    agrees = refl;
    of_action = same;
    kind = kind;
  }

  pub on_error_fails : (e : Error) (w : World) → (on_error x a e w).0.success ≡ false
  unfolding on_error fail
  on_error_fails (emergency_stop reason) w = refl
  on_error_fails _ w = refl

  -- An error of the dispatch, by whether it is an emergency stop.
  on_error-Logged :
      (w : World) (risk : RiskLevel) (e : Error) (w' : World)
      → Passed x a w
      → approve x a ≡ ok (true, risk)
      → x.dry_run ≡ false
      → (dispatched x a w).0 ≡ raised e
      → Logged x a w false (on_error x a e w').1
  unfolding on_error fail
  on_error-Logged w risk (emergency_stop reason) w' p g l d =
      entry w' _ _ refl (interrupts risk _ p g l d refl)
  on_error-Logged w risk _ w' p g l d = entry w' _ _ refl (fails risk _ p g l d refl)

  abbrev pub success_of : Outcome ActionResult → Bool
  success_of (done r) = r.success
  success_of _ = false

  logged :
      {w after : World} {success : Bool} {out : Outcome ActionResult} (r : ActionResult)
      → success_of out ≡ success
      → out ≡ done r
      → Logged x a w success after
      → Logged x a w r.success after
  logged {w} {after} r s h l = subst (λ b. Logged x a w b after) (sym s ∙ ap success_of h) l

  Ending-Logged :
      (w : World) (out : Outcome ActionResult × World) (r : ActionResult)
      → Ending x a w out
      → out.0 ≡ done r
      → Logged x a w r.success out.1
  unfolding fail succeed refuse
  Ending-Logged w out r (paused p) h = absurd (cc)
  Ending-Logged w out r (halted e p) h = logged r refl h (entry _ _ _ refl (halts e p))
  Ending-Logged w out r (unnamed e p g) h = absurd (cc)
  Ending-Logged w out r (denied risk p g) h = logged r refl h (entry _ _ _ refl (blocks risk p g))
  Ending-Logged w out r (dry risk p g d) h =
      logged r refl h (entry _ _ _ refl (runs_dry risk p g d))
  Ending-Logged w out r (executed risk detail p g l d) h =
      logged r refl h (entry _ _ _ refl (executes risk detail p g l d))
  Ending-Logged w out r (failed risk e p g l d) h =
      let after = (dispatched x a w).1 in
      logged r (on_error_fails e after) h (on_error-Logged w risk e after p g l d)
  Ending-Logged w out r (stuck risk p g l d) h = absurd (cc)

  -- Every result of `execute` is in the audit log: the last entry is the one that this execution
  -- wrote, for this action, with the result's own success. Its event is "action.halted" where the
  -- guard or an emergency stop within the dispatch ends it, "action.blocked" where the policy does not
  -- grant it, "action.dryrun" where it is granted to an executor that runs dry, "action.executed"
  -- where the dispatch returns, and "action.failed" where it raises anything else.
  pub execute-Logged :
      (w : World) (r : ActionResult)
      → (execute x a w).0 ≡ done r
      → Logged x a w r.success (execute x a w).1
  execute-Logged w r h = Ending-Logged w (execute x a w) r (execute-Ending x a w) h
