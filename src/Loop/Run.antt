-- ===== src/Loop/Run.antt =====
-- src/desktop_worker/loop/task_loop.py: `run`. One round of its outer loop is a turn, and each turn
-- that goes on appends a record, so the loop runs down from `max_actions_per_task`. The settle delay
-- and the `on_step` callback, whose exceptions are dropped, are not modelled; neither are observers
-- and planners that raise.
pub mod Report
pub mod Halt
use desktop_worker.Prelude.{
  ℕ, zero, suc, ◌+◌, String, ◌<>◌, Bool, true, false, not, ◌&&◌, ◌||◌, Option, none, some, List, [],
  ◌∷◌, ◌++◌, leb, contains, length, ◌==◌, string_eq, is_nil, if◌then◌else◌,
}
use desktop_worker.Prelude.Int.{pos}
use desktop_worker.Prelude.Decimal.{decimal}
use desktop_worker.Errors.{Error, message}
use desktop_worker.Value.{Value, Dict, null, bool, int, str, list, dict, end, field}
use desktop_worker.Dict.{lookup, get_or, put}
use desktop_worker.Schema.Results.{ActionResult}
use desktop_worker.Schema.Actions.Parse.{Action}
use desktop_worker.Audit.Log.{Details}
use desktop_worker.Actions.Executor.Execute.{action_text, result_to_dict}
use desktop_worker.Session.{World, Outcome, done, raised, hang, check_estop}
use desktop_worker.Loop.Observation.{Observation, obs_signature, elements_to_items}
use desktop_worker.Loop.Step.{
  TaskLoop, Scene, PlannedStep, Planner, StepRecord, TaskReport, report_to_dict,
}
use desktop_worker.Loop.Recovery.{
  Tried, Out, note, by_system, planned, opt_verification, read_clock, look, is_expired,
  recover_loop,
}
use desktop_worker.Loop.Verify.{VerificationResult}
use desktop_worker.Loop.Progress.{
  Progress, at_start, Stop, stopped, Turn, goes_on, leaves, drew_last, count_stale, retries_text,
  error_text, remember, advance,
}

module _ {S : Type 0} (loop : TaskLoop S) where
  abbrev max_time : String
  max_time = "reached max task time (" <> decimal loop.limits.max_task_seconds <> "s)"

  abbrev retry_details : ℕ → String → Details
  retry_details attempt error = record by_system {
    extra = field "attempt" (int (pos attempt)) (field "error" (str error) end);
  }

  -- The planner's answer; an invalid one is asked for again, `left` more times.
  unfoldable pub ask :
      ℕ → ℕ → Observation → List ActionResult → Scene S → Option PlannedStep × Scene S
  ask zero tries obs history s =
      let (step, mind) = loop.planner.next_step s.mind obs history in
      (step, record s { mind = mind })
  ask (suc left) tries obs history s =
      let (step, mind) = loop.planner.next_step s.mind obs history in
      let s' = record s { mind = mind } in
      let details = retry_details (tries + 1) (loop.planner.last_error mind) in
      elim step [
        | some p ↦ (some p, s')
        | none ↦
            if contains ("invalid" ∷ "error" ∷ []) (loop.planner.last_outcome mind)
            then ask left (tries + 1) obs history (note "planner.retry" details s')
            else (none, s')
      ]

  abbrev reason_details : String → Details
  reason_details reason = record by_system { extra = field "reason" (str reason) end }

  abbrev leave_noted : String → String → Progress → Scene S → Outcome Turn × Scene S
  leave_noted event reason p s =
      (done (leaves (stopped reason) p), note event (reason_details reason) s)

  abbrev suffix : String → String
  suffix detail = if detail == "" then "" else ": " <> detail

  -- No step: the task is done, or the planner failed.
  unfoldable pub without_step : Progress → Scene S → Outcome Turn × Scene S
  without_step p s =
      let outcome = loop.planner.last_outcome s.mind in
      if outcome == "done"
      then (done (leaves (record { completed = true; halted = false; stop_reason = "" }) p), s)
      else leave_noted "task.planner_failed"
          ("AI could not decide (" <> outcome <> ")" <> suffix (loop.planner.last_error s.mind)) p s

  -- Why a failed step ends the task.
  unfoldable pub fail_step : Tried → Progress → Scene S → Outcome Turn × Scene S
  fail_step t p s =
      if t.time_exceeded
      then leave_noted "task.timeout" (max_time <> " during step") p s
      else if not t.result.success
      then (
        done (
            leaves
              (stopped (
                "step failed after "
                <> retries_text t.attempts
                <> ": "
                <> error_text t.result.error))
              p),
        s,
      )
      else (done (leaves (stopped ("verification failed after " <> retries_text t.attempts)) p), s)

  abbrev completed_details : Tried → ActionResult → Details
  completed_details t result = record by_system {
    result = some (result_to_dict result);
    verification = opt_verification t.verification;
    after_ref = t.after.screenshot_ref;
  }

  -- Record what the inner loop left.
  unfoldable pub finish : String → Progress → Tried → Scene S → Outcome Turn × Scene S
  finish before_sig p t s =
      let changed = not (obs_signature t.after == before_sig) in
      let result = remember loop.executor.repr t changed in
      let p' = advance loop.executor.repr t result p in
      let s' = note "step.completed" (completed_details t result) s in
      if t.ok then (done (goes_on p'), s') else fail_step t p' s'

  abbrev planned_details : PlannedStep → Observation → Details
  planned_details step before = record by_system {
    before_ref = before.screenshot_ref;
    extra =
        field "planned" (dict (planned step))
          (field "elements" (list (elements_to_items before.elements)) end);
  }

  -- A planned step: act, recover, record.
  unfoldable pub perform_step :
      ℕ → Observation → Progress → PlannedStep → Scene S → Outcome Turn × Scene S
  perform_step start before p step s =
      let s' = note "step.planned" (planned_details step before) s in
      let (r, s'') = recover_loop loop p.history start step s' in
      elim r [
        | done t ↦ finish (obs_signature before) p t s''
        | raised e ↦ (raised e, s'')
        | hang ↦ (hang, s'')
      ]

  -- Ask for the next step, and perform it.
  unfoldable pub plan : ℕ → Observation → Progress → Scene S → Outcome Turn × Scene S
  plan start before p s =
      let (step, s') = ask 2 0 before p.history s in
      elim step [ none ↦ without_step p s' | some step ↦ perform_step start before p step s' ]

  -- Look at the desktop; where nothing changed for too long, leave.
  unfoldable pub observe_and_plan : ℕ → Progress → Scene S → Outcome Turn × Scene S
  observe_and_plan start p s =
      let (before, s') = look loop s in
      let p' = count_stale loop.stall_guard (obs_signature before) p in
      if loop.stall_guard && leb 6 p'.stale_count
      then leave_noted "task.stalled" "no progress: desktop state unchanged across 6 actions" p' s'
      else plan start before p' s'

  abbrev halt_reason : Error → String
  halt_reason e = "emergency stop: " <> message e

  -- One turn of the outer loop, behind the limit on actions.
  unfoldable pub turn : ℕ → Progress → Scene S → Outcome Turn × Scene S
  turn start p s =
      let (time, s') = read_clock loop s in
      let (r, w) = check_estop s'.world in
      let s'' = record s' { world = w } in
      if is_expired loop start time then leave_noted "task.timeout" max_time p s' else elim r [
        | done u ↦ observe_and_plan start p s''
        | raised e ↦ (
          done
              (leaves (record { completed = false; halted = true; stop_reason = halt_reason e }) p),
          note "task.halted" (reason_details (halt_reason e)) s'',
        )
        | hang ↦ (hang, s'')
      ]

  abbrev max_actions : String
  max_actions = "reached max actions (" <> decimal loop.limits.max_actions_per_task <> ")"

  -- `left` more actions are allowed.
  unfoldable pub turns : ℕ → ℕ → Progress → Scene S → Outcome (Stop × Progress) × Scene S
  turns start zero p s = (done (stopped max_actions, p), s)
  turns start (suc left) p s =
      let (r, s') = turn start p s in
      elim r [
        | done (goes_on p') ↦ turns start left p' s'
        | done (leaves stop p') ↦ (done (stop, p'), s')
        | raised e ↦ (raised e, s')
        | hang ↦ (hang, s')
      ]

  unfoldable pub report_of : Stop → Progress → TaskReport
  report_of stop p = record {
    task_id = loop.task_id;
    completed = stop.completed;
    halted = stop.halted;
    steps_run = length p.records;
    successes = p.successes;
    failures = p.failures;
    stop_reason = stop.stop_reason;
    step_records = p.records;
  }

  abbrev pub started_details : Details
  started_details = record by_system { extra = field "event_task" (str loop.task_id) end }

  unfoldable pub run : Scene S → Outcome TaskReport × Scene S
  unfolding report_of
  run s =
      let (start, s') = read_clock loop (note "task.started" started_details s) in
      let (r, s'') = turns start loop.limits.max_actions_per_task at_start s' in
      elim r [
        | done (stop, p) ↦
            let report = report_of stop p in
            (
              done report,
              note "task.finished" (record by_system { result = some (report_to_dict report) }) s'',
            )
        | raised e ↦ (raised e, s'')
        | hang ↦ (hang, s'')
      ]
