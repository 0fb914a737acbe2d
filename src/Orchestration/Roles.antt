-- ===== src/Orchestration/Roles.antt =====
-- src/desktop_worker/orchestration/roles.py: the roles that ask an AI and read its answer. `call` is
-- `_call`: the answer to a prompt, read as JSON, or what asking and reading raise; what was asked
-- before stands in the state `S`. The texts of the prompts are parameters; `last_raw` is left out.
pub mod Closed
use desktop_worker.Prelude.{ℕ, String, ◌<>◌, Bool, Option, none, some, List, [], ◌∷◌, ◌++◌, length}
use desktop_worker.Prelude.Int.{pos}
use desktop_worker.Errors.{Error, orchestration_validation, message, Result, ok, err, ◌>>=◌}
use desktop_worker.Value.{Value, Items, Dict, nil, cons, list, str, int, end, field}
use desktop_worker.Orchestration.Schema.{
  AgentTask, AgentReport, AuditorFinding, parse_agent_task, parse_agent_report, parse_finding,
}

-- What the roles share: the AI's state, the error of the last call, and the entries of the log.
pub record Office (S : Type 0) : Type 0 where
  pub state : S
  pub last_error : String
  pub entries : List (String × Dict)

pub record Ai (S : Type 0) : Type 0 where
  pub call : S → String → Result Value × S
  pub plan_prompt : String → String
  pub implement_prompt : AgentTask → String
  pub review_prompt : String → AgentTask → AgentReport → String

module _ {S : Type 0} where
  -- `_log`
  abbrev pub log : String → Dict → Office S → Office S
  log event fields o = record o { entries = o.entries ++ ((event, fields) ∷ []) }

  abbrev pub fail_with : String → Office S → Office S
  fail_with text o = record o { last_error = text }

module _ {S : Type 0} (ai : Ai S) where
  -- `_call`
  abbrev pub call_ai : String → Office S → Result Value × Office S
  call_ai prompt o =
      let (answer, state) = ai.call o.state prompt in
      (answer, record o { state = state; last_error = "" })

  -- The tasks that can be read; a bad one is skipped, and leaves its error.
  unfoldable pub read_tasks : Items → Office S → Result (List AgentTask) × Office S
  read_tasks nil o = (ok [], o)
  read_tasks (cons v vs) o = elim (parse_agent_task v) [
    | ok task ↦ let (rest, o') = read_tasks vs o in (rest >>= λ tasks. ok (task ∷ tasks), o')
    | err (orchestration_validation text) ↦ read_tasks vs (fail_with text o)
    | err e ↦ (err e, o)
  ]

  unfoldable pub plan_failed : String → Office S → List AgentTask × Office S
  plan_failed text o =
      ([], log "orch.strategist_failed" (field "error" (str text) end) (fail_with text o))

  -- What `plan` makes of the answer.
  unfoldable pub plan_from : Result Value → Office S → Result (List AgentTask) × Office S
  unfolding plan_failed read_tasks
  plan_from (err e) o = let (tasks, o') = plan_failed (message e) o in (ok tasks, o')
  plan_from (ok (list items)) o =
      let (r, o') = read_tasks items o in
      elim r [
        | ok tasks ↦
            (ok tasks, log "orch.planned" (field "taskCount" (int (pos (length tasks))) end) o')
        | err e ↦ (err e, o')
      ]
  plan_from (ok _) o =
      let (tasks, o') = plan_failed "strategist output was not a JSON array" o in (ok tasks, o')

  -- `Strategist.plan`
  unfoldable pub plan : String → Office S → Result (List AgentTask) × Office S
  unfolding plan_from
  plan goal o = let (answer, o') = call_ai (ai.plan_prompt goal) o in plan_from answer o'

  abbrev failed_report : AgentTask → String → AgentReport
  failed_report task text = record {
    task_id = task.id;
    status = "failed";
    summary = text;
    changes = [];
    evidence = [];
  }

  unfoldable pub implement_from : AgentTask → Result AgentReport → Office S → AgentReport × Office S
  implement_from task (ok report) o = (
    report,
    log "orch.implemented" (field "taskId" (str task.id) (field "status" (str report.status) end))
        o,
  )
  implement_from task (err e) o = (
    failed_report task ("implementer output invalid: " <> message e),
    log "orch.implementer_failed"
        (field "taskId" (str task.id) (field "error" (str (message e)) end))
        (fail_with (message e) o),
  )

  -- `Implementer.implement`, with the function that executes a task, if there is one.
  unfoldable pub implement :
      Option (AgentTask → Result AgentReport) → AgentTask → Office S → AgentReport × Office S
  unfolding implement_from
  implement none task o =
      let (answer, o') = call_ai (ai.implement_prompt task) o in
      implement_from task (answer >>= parse_agent_report) o'
  implement (some execute) task o = elim (execute task) [
    | ok report ↦ (report, o)
    | err e ↦ (failed_report task ("execution error: " <> message e), fail_with (message e) o)
  ]

  unfoldable pub review_from :
      String → AgentTask → Result AuditorFinding → Office S → AuditorFinding × Office S
  review_from agent task (ok finding) o = (
    finding,
    log "orch.reviewed"
        (field "taskId" (str task.id)
          (field "verdict" (str finding.verdict) (field "severity" (str finding.severity) end)))
        o,
  )
  review_from agent task (err e) o = (
    record {
      severity = "high";
      verdict = "block";
      message = agent <> " output unparseable: " <> message e;
      location = task.id;
    },
    log "orch.auditor_failed" (field "taskId" (str task.id) (field "error" (str (message e)) end))
        (fail_with (message e) o),
  )

  -- `_Auditor.review` of the auditor `agent`
  unfoldable pub review : String → AgentTask → AgentReport → Office S → AuditorFinding × Office S
  unfolding review_from
  review agent task report o =
      let (answer, o') = call_ai (ai.review_prompt agent task report) o in
      review_from agent task (answer >>= parse_finding) o'
