-- ===== src/Loop/Recovery.antt =====
-- src/desktop_worker/loop/task_loop.py: the inner loop of `run`: act, verify, and recover by
-- retries and by revised plans. Both counts run down from `max_retries`, so the two loops end.
pub mod Bounds
pub mod Once
use desktop_worker.Prelude.{
  ℕ, zero, suc, ◌+◌, ◌*◌, String, Bool, true, false, not, ◌&&◌, Option, none, some, List, [], ◌∷◌,
  leb, contains, if◌then◌else◌,
}
use desktop_worker.Prelude.Int.{pos}
use desktop_worker.Errors.{Error, ok, err}
use desktop_worker.Value.{Value, Dict, int, str, dict, end, field}
use desktop_worker.Schema.Results.{ActionResult}
use desktop_worker.Schema.Actions.Parse.{Action, to_dict}
use desktop_worker.Audit.Log.{Details, from, write}
use desktop_worker.Actions.Executor.Execute.{execute, result_to_dict}
use desktop_worker.Session.{World, Outcome, done, raised, hang}
use desktop_worker.Loop.Observation.{Observation}
use desktop_worker.Loop.Step.{TaskLoop, Scene, PlannedStep, Planner}
use desktop_worker.Loop.Verify.{VerificationResult, verify, verification_to_dict}

-- `_RETRYABLE`
abbrev pub retryable_types : List String
retryable_types =
    "mouse.move" ∷ "mouse.moveRelative" ∷ "mouse.click" ∷ "mouse.doubleClick" ∷ "mouse.rightClick"
    ∷ "mouse.scroll" ∷ "keyboard.press" ∷ "keyboard.hotkey" ∷ "clipboard.set" ∷ "clipboard.get"
    ∷ "wait" ∷ []

unfoldable pub is_retryable : Action → Bool
is_retryable a = contains retryable_types a.type

-- What an attempt left, and how the inner loop was left.
pub record Tried : Type 0 where
  pub step : PlannedStep
  pub attempts : ℕ
  pub result : ActionResult
  pub after : Observation
  pub verification : Option VerificationResult
  pub ok : Bool
  pub time_exceeded : Bool

abbrev pub opt_verification : Option VerificationResult → Option Dict
opt_verification none = none
opt_verification (some v) = some (verification_to_dict v)

-- `verification is None or verification.passed`
abbrev pub passes : Option VerificationResult → Bool
passes none = true
passes (some v) = v.passed

-- The step as the entries `step.planned` and `step.replanned` show it.
abbrev pub planned : PlannedStep → Dict
planned step =
    field "description" (str step.description)
      (field "action" (dict (to_dict step.action)) (field "expected" (dict step.expected) end))

abbrev pub by_system : Details
by_system = from "system" "system"

abbrev pub Out : Type 0 → Type 0
Out S = Outcome Tried × Scene S

module _ {S : Type 0} where
  -- `self.audit.record(event, …)`
  abbrev pub note : String → Details → Scene S → Scene S
  note event details s = record s {
    world = record s.world { audit = write event details s.world.audit };
  }

module _ {S : Type 0} (loop : TaskLoop S) where
  abbrev pub read_clock : Scene S → ℕ × Scene S
  read_clock s = (loop.now s.reads, record s { reads = s.reads + 1 })

  -- `_observe`
  abbrev pub look : Scene S → Observation × Scene S
  look s = (loop.observe s.world s.looks, record s { looks = s.looks + 1 })

  abbrev pub is_expired : ℕ → ℕ → Bool
  is_expired start time = leb (start + 1000 * loop.limits.max_task_seconds) time

  -- Execute the action, look again, and verify.
  unfoldable pub act : PlannedStep → ℕ → Scene S → Out S
  act step attempts s =
      let (r, w) = execute loop.executor step.action s.world in
      let (after, s') = look (record s { world = w }) in
      elim r [
        | raised e ↦ (raised e, record s { world = w })
        | hang ↦ (hang, record s { world = w })
        | done result ↦ elim (verify loop step after result s') [
          | err e ↦ (raised e, s')
          | ok verification ↦ (
            done (record {
              step = step;
              attempts = attempts;
              result = result;
              after = after;
              verification = verification;
              ok = result.success && passes verification;
              time_exceeded = false;
            }),
            s',
          )
        ]
      ]

  -- One round of the inner loop: a good attempt and the time limit leave it, and `recover` says how
  -- a failed attempt goes on.
  unfoldable pub attempt : (Tried → Scene S → Out S) → ℕ → PlannedStep → ℕ → Scene S → Out S
  attempt recover start step attempts s =
      let (r, s') = act step attempts s in
      elim r [
        | raised e ↦ (raised e, s')
        | hang ↦ (hang, s')
        | done t ↦
            let (time, s'') = read_clock s' in
            if t.ok
            then (done t, s')
            else if is_expired start time
            then (done (record t { time_exceeded = true }), s'')
            else recover t s''
      ]

  abbrev retry_details : ℕ → Tried → Details
  retry_details attempts t = record by_system {
    result = some (result_to_dict t.result);
    verification = opt_verification t.verification;
    extra =
        field "retry"
          (dict (
            field "attempt" (int (pos attempts))
              (field "max" (int (pos loop.limits.max_retries)) end)))
          end;
  }

  -- `left` retries of the same step are left, after `attempts` that were made.
  unfoldable pub retry_loop : (Tried → Scene S → Out S) → ℕ → ℕ → PlannedStep → ℕ → Scene S → Out S
  retry_loop recover start zero step attempts s = attempt recover start step attempts s
  retry_loop recover start (suc left) step attempts s =
      attempt
        (λ t s'.
          if is_retryable step.action
          then retry_loop recover start left step (attempts + 1)
              (note "step.retry" (retry_details (attempts + 1) t) s')
          else recover t s')
        start step attempts s

  abbrev pub give_up : Tried → Scene S → Out S
  give_up t s = (done t, s)

  -- `_try_replan`
  unfoldable pub try_replan :
      PlannedStep → Observation → List ActionResult → Scene S → Option PlannedStep × Scene S
  try_replan failed obs history s = elim loop.planner.replan [
    | none ↦ (none, s)
    | some replan ↦
        let (revised, mind) = replan s.mind failed obs history in
        (revised, record s { mind = mind })
  ]

  -- Retries are exhausted, or not safe: go on with a revised plan, if the planner has one.
  unfoldable pub or_revise :
      (PlannedStep → Scene S → Out S) → List ActionResult → Tried → Scene S → Out S
  unfolding try_replan
  or_revise again history t s =
      let (revised, s') = try_replan t.step t.after history s in
      elim revised [
        | none ↦ give_up t s'
        | some step ↦
            let details = record by_system { extra = field "planned" (dict (planned step)) end } in
            again step (note "step.replanned" details s')
      ]

  -- `left` revised plans may still be asked for.
  unfoldable pub replan_loop : List ActionResult → ℕ → ℕ → PlannedStep → Scene S → Out S
  replan_loop history start zero step s = retry_loop give_up start loop.limits.max_retries step 0 s
  replan_loop history start (suc left) step s =
      retry_loop (or_revise (λ step'. replan_loop history start left step') history) start
        loop.limits.max_retries step 0 s

  abbrev pub recover_loop : List ActionResult → ℕ → PlannedStep → Scene S → Out S
  recover_loop history start = replan_loop history start loop.limits.max_retries
