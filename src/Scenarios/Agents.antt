-- ===== src/Scenarios/Agents.antt =====
-- The bridge, the roles and the runner on concrete inputs.
use desktop_worker.Prelude.{
  length, ◌≡◌, ◌⊎◌, refl, true, false, none, [], ◌∷◌, String, string_eq, ℕ, some,
}
use desktop_worker.Prelude.Int.{ℤ, pos}
use desktop_worker.Errors.{Result, ok, err, runtime}
use desktop_worker.Value.{Value, Dict, Items, nil, cons, list, dict, str, int, end, field}
use desktop_worker.Dict.{lookup, without, keys}
use desktop_worker.Session.{World, Outcome, done, check_estop}
use desktop_worker.Safety.EmergencyStop.{check, happen_all, is_stopped, wait_loop}
use desktop_worker.Safety.Policy.{authorize, authorize_action, classify_action}
use desktop_worker.Schema.Actions.Specs.{find_spec}
use desktop_worker.Schema.Actions.Parse.{
  parse_action, parse_typed, parse_params, check_fields, check_field, unexpected_keys,
}
use desktop_worker.Actions.Executor.Dispatch.{dispatch}
use desktop_worker.Actions.Executor.Execute.{execute, proceed, perform, approve, succeed}
use desktop_worker.Bridge.{
  ManyAnswer, act_once, run_parsed, act_many, batch, settle, count_ok, many_answer,
}
use desktop_worker.Bridge.Calls
use desktop_worker.Bridge.Calls.Runs.{Runs, Refuses, call-Runs}
use desktop_worker.Bridge.Ran.{ran}
use desktop_worker.Bridge.Batch.{Tells, act_many-Tells}
use desktop_worker.Orchestration.Schema.{AgentTask, AgentReport, parse_finding, parse_agent_report}
use desktop_worker.Orchestration.Roles.{Ai, Office, review, implement}
use desktop_worker.Orchestration.Roles.Closed.{Answered, roles-Answered}
use desktop_worker.Eval.Trial.{
  Bench, EvalTask, run_trial, attempt, run_setup, measure, run_actions, safe_reset, close,
  result_of,
}
use desktop_worker.Eval.Trial.Isolation.{Settles, run_trial-Settles, reset_bench}
use desktop_worker.Eval.Suite.{SuiteResult, run_suite, run_tasks, run_trials, add_trial, add_task}
use desktop_worker.Eval.Suite.Counts.{Sums, run_suite-Sums}
use desktop_worker.Scenarios.Data.{start, plain}

abbrev raw : Dict
raw = field "type" (str "mouse.click") end

signed : ℕ → World → String
signed n w = "window"

abbrev right_at : Calls.Call
right_at = Calls.click (some (pos 10)) none "right" 250 true

call-Runs_example :
    (Calls.fits plain right_at ≡ true → Runs plain signed "C:/work" right_at)
    × (Calls.fits plain right_at ≡ false → Refuses plain signed "C:/work" right_at)
call-Runs_example = call-Runs plain signed "C:/work" right_at

abbrev bad : Dict
bad = field "type" (str "mouse.clik") end

abbrev answer_in : Outcome ManyAnswer → ManyAnswer
answer_in (done m) = m
answer_in _ = record {
  ok = false;
  completed = 0;
  requested = 0;
  failed_at = none;
  error = none;
  results = [];
}

abbrev actions : Items
actions = cons (dict bad) (cons (dict raw) nil)

abbrev many : Outcome ManyAnswer
many = (act_many plain (list (cons (dict raw) actions)) true 0 start).0

many_done : many ≡ done (answer_in many)
unfolding act_many batch settle act_once run_parsed parse_action parse_typed parse_params
    check_fields check_field unexpected_keys lookup without keys find_spec execute proceed perform
    approve authorize_action authorize classify_action check_estop check is_stopped wait_loop
    happen_all dispatch succeed count_ok many_answer
many_done = refl

act_many-Tells_example :
    Tells 3 (answer_in many)
    × ((act_many plain (list (cons (dict raw) actions)) true 0 start).1
        ≡ ran plain 0 (length (answer_in many).results) (cons (dict raw) actions) start)
act_many-Tells_example = act_many-Tells plain 0 (dict raw) actions start (answer_in many) many_done

abbrev ai : Ai (Unit {0})
ai = record {
  call = λ s prompt.
      (ok (dict (field "severity" (str "info") (field "verdict" (str "approve") end))), s);
  plan_prompt = λ goal. goal;
  implement_prompt = λ task. "";
  review_prompt = λ agent task report. "";
}

abbrev office : Office (Unit {0})
office = record { state = tt; last_error = ""; entries = [] }

abbrev task : AgentTask
task = record { id = "t1"; goal = ""; acceptance = []; constraints = []; forbidden_files = [] }

abbrev report : AgentReport
report = record { task_id = "t1"; status = "done"; summary = ""; changes = []; evidence = [] }

roles-Answered_example :
    (((review ai "Codex" task report office).0.verdict ≡ "block")
      ⊎ Answered ai office "" parse_finding (review ai "Codex" task report office).0)
    × (((implement ai none task office).0.status ≡ "failed")
        ⊎ Answered ai office "" parse_agent_report (implement ai none task office).0)
roles-Answered_example = roles-Answered ai "Codex" task report office

abbrev eval_task : EvalTask
eval_task = record {
  id = "click";
  tier = "a1";
  app = "none";
  feasible = true;
  actions = raw ∷ [];
  probe = none;
  oracle = λ b payload. ok (record { passed = true; reason = "clicked"; detail = end });
  setup = [];
  reset = [];
  max_steps = 20;
}

abbrev bench : Bench
bench = record { world = start; calls = 0 }

abbrev to_int : Value → Result ℤ
to_int (int n) = ok n
to_int _ = err (runtime "no int")

run_trial-Settles_example :
    Settles plain to_int eval_task
      (reset_bench plain to_int eval_task bench)
      (run_trial plain to_int eval_task 1 bench).0
run_trial-Settles_example = run_trial-Settles plain to_int eval_task 1 bench

abbrev suite_in : Outcome SuiteResult → SuiteResult
suite_in (done s) = s
suite_in _ = record {
  label = "";
  tier = "";
  trials = 0;
  summaries = [];
  results = [];
  halted = none;
}

abbrev suite : Outcome SuiteResult
suite = (run_suite plain to_int (eval_task ∷ []) 2 "run" "a1" bench).0

suite_done : suite ≡ done (suite_in suite)
unfolding run_suite run_tasks run_trials add_trial add_task run_trial attempt run_setup measure
    run_actions safe_reset close result_of act_once run_parsed parse_action parse_typed parse_params
    check_fields check_field unexpected_keys lookup without keys find_spec execute proceed perform
    approve authorize_action authorize classify_action check_estop check is_stopped wait_loop
    happen_all dispatch succeed
suite_done = refl

run_suite-Sums_example : Sums 2 (suite_in suite)
run_suite-Sums_example =
    run_suite-Sums plain to_int 2 (eval_task ∷ []) "run" "a1" bench (suite_in suite) suite_done
