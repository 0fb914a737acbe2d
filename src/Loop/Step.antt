-- ===== src/Loop/Step.antt =====
-- src/desktop_worker/loop/task_loop.py: the planner's steps, the loop's parts, and the report.
use desktop_worker.Prelude.{ℕ, String, Bool, Option, none, some, List, [], ◌∷◌}
use desktop_worker.Prelude.Int.{pos}
use desktop_worker.Value.{
  Value, Items, Dict, nil, cons, null, bool, int, str, list, dict, end, field,
}
use desktop_worker.Schema.Actions.Parse.{Action}
use desktop_worker.Schema.Results.{ActionResult}
use desktop_worker.Broker.Cli.{opt_text}
use desktop_worker.Actions.Executor.Dispatch.{Executor}
use desktop_worker.Loop.Observation.{Observation}
use desktop_worker.Session.{World}

pub record PlannedStep : Type 0 where
  pub action : Action
  pub description : String
  pub expected : Dict
  pub reasoning : String

-- The `Planner` protocol over the planner's own state `S`. A planner without `replan` has none; one
-- without `last_outcome` says "done", and one without `last_error` says "".
pub record Planner (S : Type 0) : Type 0 where
  pub next_step : S → Observation → List ActionResult → Option PlannedStep × S
  pub replan : Option (S → PlannedStep → Observation → List ActionResult → Option PlannedStep × S)
  pub last_outcome : S → String
  pub last_error : S → String

-- `ScriptedPlanner`, whose state is the list of the steps to come.
abbrev pub scripted_next :
    List PlannedStep → Observation → List ActionResult → Option PlannedStep × List PlannedStep
scripted_next [] obs history = (none, [])
scripted_next (step ∷ steps) obs history = (some step, steps)

abbrev pub scripted : Planner (List PlannedStep)
scripted = record {
  next_step = scripted_next;
  replan = none;
  last_outcome = λ steps. "done";
  last_error = λ steps. "";
}

-- src/desktop_worker/config.py: the limits the loop reads.
pub record Limits : Type 0 where
  pub max_retries : ℕ
  pub max_actions_per_task : ℕ
  pub max_task_seconds : ℕ

abbrev pub default_limits : Limits
default_limits = record { max_retries = 3; max_actions_per_task = 200; max_task_seconds = 1800 }

-- What the loop is wired with. The clock counts milliseconds and is read for the `n`-th time; the
-- desktop is looked at for the `n`-th time, with the perceiver's elements where there is one.
pub record TaskLoop (S : Type 0) : Type 0 where
  pub task_id : String
  pub planner : Planner S
  pub executor : Executor
  pub limits : Limits
  pub stall_guard : Bool
  pub now : ℕ → ℕ
  pub observe : World → ℕ → Observation
  -- `os.path.isfile`, `str.lower`-independent equality of values, and `str` of a value
  pub is_file : World → ℕ → String → Bool
  pub same_value : Value → Value → Bool
  pub str_of : Value → String

-- The session, what was read of the clock and of the desktop so far, and the planner's state.
pub record Scene (S : Type 0) : Type 0 where
  pub world : World
  pub reads : ℕ
  pub looks : ℕ
  pub mind : S

-- One entry of `step_records`.
pub record StepRecord : Type 0 where
  pub description : String
  pub action : String
  pub success : Bool
  pub retries : ℕ
  pub error : Option String
  pub verification_passed : Option Bool

abbrev pub opt_bool : Option Bool → Value
opt_bool none = null
opt_bool (some b) = bool b

abbrev pub record_to_dict : StepRecord → Dict
record_to_dict r = field "description" (str r.description) (
    field "action" (str r.action) (
      field "success" (bool r.success) (
        field "retries" (int (pos r.retries)) (
          field "error" (opt_text r.error)
            (field "verificationPassed" (opt_bool r.verification_passed) end)))))

abbrev pub records_to_items : List StepRecord → Items
records_to_items [] = nil
records_to_items (r ∷ rs) = cons (dict (record_to_dict r)) (records_to_items rs)

-- The report, without its two time stamps.
pub record TaskReport : Type 0 where
  pub task_id : String
  pub completed : Bool
  pub halted : Bool
  pub steps_run : ℕ
  pub successes : ℕ
  pub failures : ℕ
  pub stop_reason : String
  pub step_records : List StepRecord

unfoldable pub report_to_dict : TaskReport → Dict
report_to_dict r = field "taskId" (str r.task_id) (
    field "completed" (bool r.completed) (
      field "halted" (bool r.halted) (
        field "stepsRun" (int (pos r.steps_run)) (
          field "successes" (int (pos r.successes)) (
            field "failures" (int (pos r.failures)) (
              field "stopReason" (str r.stop_reason)
                (field "steps" (list (records_to_items r.step_records)) end)))))))
