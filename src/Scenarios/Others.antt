-- ===== src/Scenarios/Others.antt =====
-- Parsing, the registry, the coordinator and the pruning on concrete inputs.
use desktop_worker.Prelude.{
  ◌≡◌, ◌↔◌, ◌≤◌, ◌+◌, refl, true, none, some, List, [], ◌∷◌, length, string_eq, contains,
}
use desktop_worker.Prelude.Int.{pos}
use desktop_worker.Errors.{ok}
use desktop_worker.Value.{Dict, dict, str, int, end, field}
use desktop_worker.Dict.{lookup, without, keys, IsUnique}
use desktop_worker.Schema.Actions.Specs.{find_spec}
use desktop_worker.Schema.Actions.Parse.{
  parse_action, parse_typed, parse_params, check_fields, check_field, unexpected_keys, to_dict,
}
use desktop_worker.Schema.Actions.Sound.{Says, IsValid, parse_action_iff}
use desktop_worker.Schema.Actions.Roundtrip.{parse_action-to_dict}
use desktop_worker.Orchestration.Schema.{
  AgentTask, AgentReport, AuditorFinding, task_to_dict, agent_report_to_dict, finding_to_dict,
  parse_agent_task, parse_agent_report, parse_finding, statuses, severities, verdicts,
}
use desktop_worker.Orchestration.Schema.Roundtrip.{handoffs_read_back}
use desktop_worker.Orchestration.Coordinator.{Roles, Desk, run, accepted, blocked}
use desktop_worker.Orchestration.Coordinator.Laws.{run-Covers, Worked, times}
use desktop_worker.Audit.Retention.{Entry, prune_artifacts}
use desktop_worker.Audit.Retention.Bounds.{prune_artifacts-bound}
use desktop_worker.Scenarios.Data.{click}

abbrev raw : Dict
raw = field "x" (int (pos 3)) (field "type" (str "mouse.click") (field "y" (int (pos 4)) end))

parse_action_iff_example : (parse_action (dict raw) ≡ ok click) ↔ (Says raw click × IsValid click)
parse_action_iff_example = parse_action_iff raw click

is_once : IsUnique raw
unfolding lookup
is_once = (refl, (refl, (refl, tt)))

parses : parse_action (dict raw) ≡ ok click
unfolding parse_action parse_typed parse_params check_fields check_field unexpected_keys lookup
    without keys find_spec
parses = refl

parse_action-to_dict_example : parse_action (dict (to_dict click)) ≡ ok click
parse_action-to_dict_example = parse_action-to_dict raw click is_once parses

abbrev task : AgentTask
task = record {
  id = "t1";
  goal = "open";
  acceptance = "opened" ∷ [];
  constraints = [];
  forbidden_files = [];
}

abbrev report : AgentReport
report = record {
  task_id = "t1";
  status = "done";
  summary = "";
  changes = [];
  evidence = "log" ∷ [];
}

abbrev approval : AuditorFinding
approval = record { severity = "info"; verdict = "approve"; message = ""; location = "" }

handoffs_read_back_example :
    (parse_agent_task (dict (task_to_dict task)) ≡ ok task)
    × ((parse_agent_report (dict (agent_report_to_dict report)) ≡ ok report)
        ↔ (contains statuses "done" ≡ true))
    × ((parse_finding (dict (finding_to_dict approval)) ≡ ok approval)
        ↔ ((contains severities "info" ≡ true) × (contains verdicts "approve" ≡ true)))
handoffs_read_back_example = handoffs_read_back task report approval

abbrev roles : Roles (Unit {0})
roles = record {
  plan = λ s goal. (task ∷ [], s);
  last_error = λ s. "";
  implement = λ s t. (report, s);
  codex_review = λ s t r. (approval, s);
  northstar_review = λ s t r. (approval, s);
}

abbrev clean_desk : Desk (Unit {0})
clean_desk = record { state = tt; entries = [] }

run-Covers_example :
    let (r, d) = run roles "open" clean_desk in
    Worked roles tt d.state (task ∷ []) r.outcomes
    × (accepted r ≡ times "accepted" r.outcomes)
    × (blocked r ≡ times "blocked" r.outcomes)
    × (length d.entries ≡ 0 + 1 + 2)
run-Covers_example = run-Covers roles "open" clean_desk

abbrev artifacts : List Entry
artifacts = ("a", 10) ∷ ("b", 30) ∷ ("c", 20) ∷ []

prune_artifacts-bound_example : 3 ≤ length (prune_artifacts none (some 2) 100 artifacts) + 2
prune_artifacts-bound_example = prune_artifacts-bound none 2 100 artifacts
