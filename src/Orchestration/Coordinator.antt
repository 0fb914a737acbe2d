-- ===== src/Orchestration/Coordinator.antt =====
-- src/desktop_worker/orchestration/coordinator.py: the state machine over the four roles. A role
-- keeps a state `S` that the four share. The audit log of the coordinator is optional, and what
-- writing to it raises is dropped; the model keeps its entries in the order they are written.
pub mod Laws
use desktop_worker.Prelude.{
  ℕ, suc, String, ◌<>◌, Bool, true, false, not, ◌&&◌, ◌||◌, Option, none, some, List, [], ◌∷◌, ◌++◌,
  contains, length, is_nil, ◌==◌, string_eq, if◌then◌else◌,
}
use desktop_worker.Prelude.Int.{pos}
use desktop_worker.Value.{Value, Dict, int, str, end, field}
use desktop_worker.Orchestration.Schema.{AgentTask, AgentReport, AuditorFinding}

pub record TaskOutcome : Type 0 where
  pub task : AgentTask
  pub report : AgentReport
  pub codex : AuditorFinding
  pub northstar : AuditorFinding
  pub outcome : String

pub record CoordinationResult : Type 0 where
  pub goal : String
  pub outcomes : List TaskOutcome
  pub error : String

-- How many tasks ended in an outcome: `accepted` and `blocked`.
unfoldable pub count_outcome : String → List TaskOutcome → ℕ
count_outcome name [] = 0
count_outcome name (o ∷ os) =
    let rest = count_outcome name os in if o.outcome == name then suc rest else rest

abbrev pub accepted : CoordinationResult → ℕ
accepted r = count_outcome "accepted" r.outcomes

abbrev pub blocked : CoordinationResult → ℕ
blocked r = count_outcome "blocked" r.outcomes

-- `"block" in verdicts or report.status in ("failed", "blocked", "skipped")`
abbrev pub is_blocked : AgentReport → AuditorFinding → AuditorFinding → Bool
is_blocked report codex northstar =
    contains (codex.verdict ∷ northstar.verdict ∷ []) "block"
    || contains ("failed" ∷ "blocked" ∷ "skipped" ∷ []) report.status

abbrev pub is_approved : AgentReport → AuditorFinding → AuditorFinding → Bool
is_approved report codex northstar =
    report.status == "done" && (codex.verdict == "approve" && northstar.verdict == "approve")

-- `_classify`
unfoldable pub classify : AgentReport → AuditorFinding → AuditorFinding → String
classify report codex northstar =
    if is_blocked report codex northstar
    then "blocked"
    else if is_approved report codex northstar
    then "accepted"
    else "revise"

pub record Roles (S : Type 0) : Type 0 where
  pub plan : S → String → List AgentTask × S
  pub last_error : S → String
  pub implement : S → AgentTask → AgentReport × S
  pub codex_review : S → AgentTask → AgentReport → AuditorFinding × S
  pub northstar_review : S → AgentTask → AgentReport → AuditorFinding × S

-- The roles' state, and the entries of the coordinator: an event and its fields.
pub record Desk (S : Type 0) : Type 0 where
  pub state : S
  pub entries : List (String × Dict)

module _ {S : Type 0} where
  -- `_log`
  abbrev pub log : String → Dict → Desk S → Desk S
  log event fields d = record d { entries = d.entries ++ ((event, fields) ∷ []) }

module _ {S : Type 0} (roles : Roles S) where
  abbrev outcome_fields : TaskOutcome → Dict
  outcome_fields o = field "taskId" (str o.task.id) (
      field "outcome" (str o.outcome) (
        field "implStatus" (str o.report.status)
          (field "codex" (str o.codex.verdict) (field "northstar" (str o.northstar.verdict) end))))

  -- One task: implement, have it reviewed twice, classify, log.
  unfoldable pub coordinate : AgentTask → Desk S → TaskOutcome × Desk S
  coordinate task d =
      let (report, s₁) = roles.implement d.state task in
      let (codex, s₂) = roles.codex_review s₁ task report in
      let (northstar, s₃) = roles.northstar_review s₂ task report in
      let o : TaskOutcome = record {
        task = task;
        report = report;
        codex = codex;
        northstar = northstar;
        outcome = classify report codex northstar;
      } in
      (o, log "orch.task_outcome" (outcome_fields o) (record d { state = s₃ }))

  unfoldable pub coordinate_all : List AgentTask → Desk S → List TaskOutcome × Desk S
  coordinate_all [] d = ([], d)
  coordinate_all (task ∷ tasks) d =
      let (o, d') = coordinate task d in let (os, d'') = coordinate_all tasks d' in (o ∷ os, d'')

  abbrev error_or : String → String
  error_or e = if e == "" then "no tasks produced" else e

  abbrev pub done_fields : String → List TaskOutcome → Dict
  done_fields goal outcomes = field "goal" (str goal) (
      field "taskCount" (int (pos (length outcomes))) (
        field "accepted" (int (pos (count_outcome "accepted" outcomes)))
          (field "blocked" (int (pos (count_outcome "blocked" outcomes))) end)))

  abbrev error_fields : String → String → Dict
  error_fields goal error =
      field "goal" (str goal) (field "taskCount" (int (pos 0)) (field "error" (str error) end))

  unfoldable pub run : String → Desk S → CoordinationResult × Desk S
  run goal d =
      let d' = log "orch.coordinator_start" (field "goal" (str goal) end) d in
      let (tasks, state) = roles.plan d'.state goal in
      let planned = record d' { state = state } in
      let error = error_or (roles.last_error state) in
      let (outcomes, d'') = coordinate_all tasks planned in
      if is_nil tasks
      then (
        record { goal = goal; outcomes = []; error = error },
        log "orch.coordinator_done" (error_fields goal error) planned,
      )
      else (
        record { goal = goal; outcomes = outcomes; error = "" },
        log "orch.coordinator_done" (done_fields goal outcomes) d'',
      )
