-- ===== src/Orchestration/Schema.antt =====
-- src/desktop_worker/orchestration/schema.py: the three handoffs between the roles, their wire form
-- and their validators. The sets of Python are lists here.
pub mod Roundtrip
use desktop_worker.Prelude.{
  String, Bool, true, false, not, ◌&&◌, Option, none, some, List, [], ◌∷◌, contains, is_nil,
  if◌then◌else◌,
}
use desktop_worker.Errors.{Error, orchestration_validation, Result, ok, err, ◌>>=◌, ◌>>◌, guard}
use desktop_worker.Value.{Value, Items, Dict, nil, cons, str, list, dict, end, field}
use desktop_worker.Dict.{lookup, keys}
use desktop_worker.Schema.Actions.Parse.{unexpected_keys}

-- `_require_dict`
unfoldable pub require_dict : Value → Result Dict
require_dict (dict d) = ok d
require_dict _ = err (orchestration_validation "must be an object")

-- `_str`; a field that is not required is empty by default.
unfoldable pub str_field : Dict → String → Bool → Result String
str_field d key required = elim (lookup key d) [
  | none ↦ if required then err (orchestration_validation "missing required field") else ok ""
  | some (str s) ↦ ok s
  | some _ ↦ err (orchestration_validation "must be a string")
]

unfoldable pub strings_of : Items → Option (List String)
strings_of nil = some []
strings_of (cons (str s) vs) = elim (strings_of vs) [ none ↦ none | some ss ↦ some (s ∷ ss) ]
strings_of (cons _ vs) = none

-- `_str_list`
unfoldable pub str_list_field : Dict → String → Result (List String)
unfolding strings_of
str_list_field d key = elim (lookup key d) [
  | none ↦ ok []
  | some (list vs) ↦ elim (strings_of vs) [
    | none ↦ err (orchestration_validation "must be a list of strings")
    | some ss ↦ ok ss
  ]
  | some _ ↦ err (orchestration_validation "must be a list of strings")
]

-- `_reject_unexpected`
unfoldable pub reject_unexpected : Dict → List String → Result (Unit {0})
reject_unexpected d allowed =
    guard (is_nil (unexpected_keys allowed (keys d)))
      (orchestration_validation "unexpected field(s)")

-- `_enum`
unfoldable pub enum : String → List String → Result String
enum value allowed =
    if contains allowed value then ok value else err (orchestration_validation "must be one of")

abbrev pub statuses : List String
statuses = "done" ∷ "blocked" ∷ "failed" ∷ "skipped" ∷ []

abbrev pub verdicts : List String
verdicts = "approve" ∷ "revise" ∷ "block" ∷ []

abbrev pub severities : List String
severities = "info" ∷ "low" ∷ "medium" ∷ "high" ∷ "critical" ∷ []

abbrev pub items_of : List String → Items
items_of [] = nil
items_of (s ∷ ss) = cons (str s) (items_of ss)

pub record AgentTask : Type 0 where
  pub id : String
  pub goal : String
  pub acceptance : List String
  pub constraints : List String
  pub forbidden_files : List String

unfoldable pub task_to_dict : AgentTask → Dict
task_to_dict t = field "id" (str t.id) (
    field "goal" (str t.goal) (
      field "acceptance" (list (items_of t.acceptance)) (
        field "constraints" (list (items_of t.constraints))
          (field "forbiddenFiles" (list (items_of t.forbidden_files)) end))))

unfoldable pub parse_agent_task : Value → Result AgentTask
unfolding require_dict reject_unexpected str_field str_list_field
parse_agent_task raw = do
  d ← require_dict raw
  reject_unexpected d ("id" ∷ "goal" ∷ "acceptance" ∷ "constraints" ∷ "forbiddenFiles" ∷ [])
  id ← str_field d "id" true
  goal ← str_field d "goal" true
  acceptance ← str_list_field d "acceptance"
  constraints ← str_list_field d "constraints"
  forbidden ← str_list_field d "forbiddenFiles"
  ok (record {
    id = id;
    goal = goal;
    acceptance = acceptance;
    constraints = constraints;
    forbidden_files = forbidden;
  })

pub record AgentReport : Type 0 where
  pub task_id : String
  pub status : String
  pub summary : String
  pub changes : List String
  pub evidence : List String

unfoldable pub agent_report_to_dict : AgentReport → Dict
agent_report_to_dict r = field "taskId" (str r.task_id) (
    field "status" (str r.status) (
      field "summary" (str r.summary) (
        field "changes" (list (items_of r.changes))
          (field "evidence" (list (items_of r.evidence)) end))))

unfoldable pub parse_agent_report : Value → Result AgentReport
unfolding require_dict reject_unexpected str_field str_list_field enum
parse_agent_report raw = do
  d ← require_dict raw
  reject_unexpected d ("taskId" ∷ "status" ∷ "summary" ∷ "changes" ∷ "evidence" ∷ [])
  task_id ← str_field d "taskId" true
  text ← str_field d "status" true
  status ← enum text statuses
  summary ← str_field d "summary" false
  changes ← str_list_field d "changes"
  evidence ← str_list_field d "evidence"
  ok (record {
    task_id = task_id;
    status = status;
    summary = summary;
    changes = changes;
    evidence = evidence;
  })

pub record AuditorFinding : Type 0 where
  pub severity : String
  pub verdict : String
  pub message : String
  pub location : String

unfoldable pub finding_to_dict : AuditorFinding → Dict
finding_to_dict f = field "severity" (str f.severity) (
    field "verdict" (str f.verdict)
      (field "message" (str f.message) (field "location" (str f.location) end)))

unfoldable pub parse_finding : Value → Result AuditorFinding
unfolding require_dict reject_unexpected str_field enum
parse_finding raw = do
  d ← require_dict raw
  reject_unexpected d ("severity" ∷ "verdict" ∷ "message" ∷ "location" ∷ [])
  severity_text ← str_field d "severity" true
  severity ← enum severity_text severities
  verdict_text ← str_field d "verdict" true
  verdict ← enum verdict_text verdicts
  message ← str_field d "message" false
  location ← str_field d "location" false
  ok (record { severity = severity; verdict = verdict; message = message; location = location })
