-- ===== src/Orchestration/Schema/Roundtrip.antt =====
-- src/desktop_worker/orchestration/schema.py: what a handoff writes, its validator reads back.
use desktop_worker.Prelude.{String, ◌≡◌, refl, true, some, List, [], ◌∷◌, contains, arith, ◌↔◌}
use desktop_worker.Errors.{ok}
use desktop_worker.Value.{Dict, list, dict}
use desktop_worker.Orchestration.Schema.{
  AgentTask, AgentReport, AuditorFinding, items_of, strings_of, task_to_dict, agent_report_to_dict,
  finding_to_dict, parse_agent_task, parse_agent_report, parse_finding, statuses, verdicts,
  severities, str_list_field, reject_unexpected, str_field, enum, require_dict,
}
use desktop_worker.Schema.Actions.Parse.{unexpected_keys}
use desktop_worker.Dict.{lookup, keys}

strings_of-items_of : (ss : List String) → strings_of (items_of ss) ≡ some ss
unfolding strings_of
strings_of-items_of [] = refl
strings_of-items_of (s ∷ ss) = rw (strings_of-items_of ss) refl

str_list_field-items_of :
    (d : Dict) (key : String) (ss : List String)
    → lookup key d ≡ some (list (items_of ss))
    → str_list_field d key ≡ ok ss
unfolding str_list_field
str_list_field-items_of d key ss h = rw (h, strings_of-items_of ss, str_list_field) refl

parse_agent_task-to_dict : (t : AgentTask) → parse_agent_task (dict (task_to_dict t)) ≡ ok t
unfolding parse_agent_task task_to_dict reject_unexpected str_field require_dict unexpected_keys
    lookup keys
parse_agent_task-to_dict t =
    rw
      (
        str_list_field-items_of (task_to_dict t) "acceptance" t.acceptance refl,
        str_list_field-items_of (task_to_dict t) "constraints" t.constraints refl,
        str_list_field-items_of (task_to_dict t) "forbiddenFiles" t.forbidden_files refl,
      )
      refl

parse_agent_report-to_dict :
    (r : AgentReport)
    → (parse_agent_report (dict (agent_report_to_dict r)) ≡ ok r)
      ↔ (contains statuses r.status ≡ true)
unfolding parse_agent_report agent_report_to_dict reject_unexpected str_field require_dict
    unexpected_keys lookup keys enum
parse_agent_report-to_dict r =
    rw
      (
        str_list_field-items_of (agent_report_to_dict r) "changes" r.changes refl,
        str_list_field-items_of (agent_report_to_dict r) "evidence" r.evidence refl,
      )
      (λ h. ground arith, λ h. ground arith)

parse_finding-to_dict :
    (f : AuditorFinding)
    → (parse_finding (dict (finding_to_dict f)) ≡ ok f)
      ↔ ((contains severities f.severity ≡ true) × (contains verdicts f.verdict ≡ true))
unfolding parse_finding finding_to_dict reject_unexpected str_field require_dict unexpected_keys
    lookup keys enum
parse_finding-to_dict f = ground arith

-- What a handoff writes, its validator reads back: a task always, a report exactly when its status is
-- one of the four, and a finding exactly when its severity and its verdict are known.
pub handoffs_read_back :
    (t : AgentTask) (r : AgentReport) (f : AuditorFinding)
    → (parse_agent_task (dict (task_to_dict t)) ≡ ok t)
      × ((parse_agent_report (dict (agent_report_to_dict r)) ≡ ok r)
          ↔ (contains statuses r.status ≡ true))
      × ((parse_finding (dict (finding_to_dict f)) ≡ ok f)
          ↔ ((contains severities f.severity ≡ true) × (contains verdicts f.verdict ≡ true)))
handoffs_read_back t r f =
    (parse_agent_task-to_dict t, parse_agent_report-to_dict r, parse_finding-to_dict f)
