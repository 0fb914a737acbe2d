-- ===== src/Eval/Suite.antt =====
-- src/desktop_worker/eval/runner.py and src/desktop_worker/eval/spec.py: the trials of a suite and
-- their summaries. The rates, their intervals and the times are not modelled.
pub mod Counts
use desktop_worker.Prelude.{
  ℕ, zero, suc, ◌+◌, String, ◌<>◌, Bool, true, false, not, ◌&&◌, Option, none, some, List, [], ◌∷◌,
  ◌++◌, ltb, contains, if◌then◌else◌,
}
use desktop_worker.Prelude.Int.{ℤ}
use desktop_worker.Errors.{Error, value_error, Result}
use desktop_worker.Value.{Value}
use desktop_worker.Safety.EmergencyStop.{is_stopped}
use desktop_worker.Actions.Executor.Dispatch.{Executor}
use desktop_worker.Session.{World, Outcome, done, raised, hang}
use desktop_worker.Eval.Trial.{Bench, Act, EvalTask, EvalResult, run_trial}

pub record TaskSummary : Type 0 where
  pub task_id : String
  pub tier : String
  pub app : String
  pub feasible : Bool
  pub trials : ℕ
  pub passes : ℕ
  pub reasons : List String
  pub steps : List ℤ
  pub round_trips : List ℕ

-- `flaky`
abbrev pub is_flaky : TaskSummary → Bool
is_flaky s = ltb 0 s.passes && ltb s.passes s.trials

pub record SuiteResult : Type 0 where
  pub label : String
  pub tier : String
  pub trials : ℕ
  pub summaries : List TaskSummary
  pub results : List EvalResult
  -- `notes["halted"]`
  pub halted : Option String

abbrev pub empty_summary : EvalTask → TaskSummary
empty_summary task = record {
  task_id = task.id;
  tier = task.tier;
  app = task.app;
  feasible = task.feasible;
  trials = 0;
  passes = 0;
  reasons = [];
  steps = [];
  round_trips = [];
}

abbrev passes_of : Bool → ℕ
passes_of true = 1
passes_of false = 0

-- One more trial in a summary.
unfoldable pub add_trial : EvalResult → TaskSummary → TaskSummary
add_trial r s = record s {
  trials = s.trials + 1;
  passes = s.passes + passes_of r.passed;
  steps = s.steps ++ (r.steps ∷ []);
  round_trips = s.round_trips ++ (r.round_trips ∷ []);
  reasons =
      if not r.passed && not (contains s.reasons r.reason)
      then s.reasons ++ (r.reason ∷ [])
      else s.reasons;
}

-- What the trials of one task leave: their summary and results, and why they were halted.
pub record Tally : Type 0 where
  pub summary : TaskSummary
  pub results : List EvalResult
  pub halted : Option String

abbrev pub start_tally : EvalTask → SuiteResult → Tally
start_tally task suite = record {
  summary = empty_summary task;
  results = suite.results;
  halted = suite.halted;
}

-- A task counts when a trial of it ran.
unfoldable pub add_task : Tally → SuiteResult → SuiteResult
add_task t suite = record suite {
  summaries =
      if ltb 0 t.summary.trials then suite.summaries ++ (t.summary ∷ []) else suite.summaries;
  results = t.results;
  halted = t.halted;
}

module _ (x : Executor) (to_int : Value → Result ℤ) where
  -- `_stopped`, by the status of the bridge
  abbrev pub stopped : Bench → Bool × Bench
  stopped b =
      let (flag, estop) = is_stopped b.world.estop in
      (flag, record b { world = record b.world { estop = estop } })

  abbrev halted_in : EvalTask → String
  halted_in task = "emergency stop engaged during task " <> task.id

  -- The trials of a task from the number `trial` on; `left` of them are to come.
  unfoldable pub run_trials : EvalTask → ℕ → ℕ → Tally → Act Tally
  run_trials task trial zero t b = (done t, b)
  run_trials task trial (suc left) t b =
      let (flag, b') = stopped b in
      let (r, b'') = run_trial x to_int task trial b' in
      if flag then (done (record t { halted = some (halted_in task) }), b') else elim r [
        | raised e ↦ (raised e, b'')
        | hang ↦ (hang, b'')
        | done result ↦
            run_trials task (trial + 1) left
              (record t {
                summary = add_trial result t.summary;
                results = t.results ++ (result ∷ []);
              })
              b''
      ]

  unfoldable pub run_tasks : List EvalTask → ℕ → SuiteResult → Act SuiteResult
  unfolding add_task
  run_tasks [] trials suite b = (done suite, b)
  run_tasks (task ∷ tasks) trials suite b =
      let (flag, b') = stopped b in
      let (r, b'') = run_trials task 1 trials (start_tally task suite) b' in
      if flag
      then (
        done (record suite { halted = some ("emergency stop engaged before task " <> task.id) }),
        b',
      )
      else elim r [
        | raised e ↦ (raised e, b'')
        | hang ↦ (hang, b'')
        | done t ↦ run_tasks tasks trials (add_task t suite) b''
      ]

  abbrev empty_suite : String → String → ℕ → SuiteResult
  empty_suite label tier trials = record {
    label = label;
    tier = tier;
    trials = trials;
    summaries = [];
    results = [];
    halted = none;
  }

  -- `run_suite`
  unfoldable pub run_suite : List EvalTask → ℕ → String → String → Act SuiteResult
  unfolding run_tasks
  run_suite tasks trials label tier b =
      if ltb trials 1
      then (raised (value_error "trials must be >= 1"), b)
      else run_tasks tasks trials (empty_suite label tier trials) b
