-- ===== src/Scenarios/Data.antt =====
-- The wiring of the concrete sessions, as src/desktop_worker/app.py wires a session.
use desktop_worker.Prelude.{true, false, none, some, List, [], ◌∷◌}
use desktop_worker.Prelude.Int.{pos}
use desktop_worker.Errors.{ok}
use desktop_worker.Value.{null, bool, int, str, dict, end, field}
use desktop_worker.Safety.EmergencyStop.{EmergencyStop, absent}
use desktop_worker.Safety.Policy.{PermissionPolicy, high, deny_all}
use desktop_worker.Audit.Log.{AuditLog}
use desktop_worker.Broker.Cli.{Os, Broker, Driver, completed}
use desktop_worker.Tools.Registry.{Tool, Registry}
use desktop_worker.Schema.Results.{ActionResult}
use desktop_worker.Schema.Actions.Parse.{Action}
use desktop_worker.Actions.Executor.Dispatch.{Executor}
use desktop_worker.Session.{World, Books, InputBackend, Outcome, done}
use desktop_worker.Loop.Observation.{Observation}
use desktop_worker.Loop.Step.{TaskLoop, Scene, PlannedStep, scripted, Limits, TaskReport}
use desktop_worker.Loop.Recovery.{Tried}

abbrev pub clear_stop : EmergencyStop
clear_stop = record { stopped = false; paused = false; reason = ""; file = absent }

abbrev pub empty_log : AuditLog
empty_log = record {
  session_id = "session-001";
  task_id = "task-001";
  redact_secrets = false;
  stamp = λ n. "now";
  entries = [];
}

abbrev pub no_books : Books
no_books = record { counter = 0; history = []; session_allow = [] }

abbrev pub start : World
start = record {
  audit = empty_log;
  estop = clear_stop;
  schedule = [];
  calls = [];
  books = no_books;
  in_tool = false;
}

-- As `NullInputBackend`: every call succeeds.
abbrev pub null_input : InputBackend
null_input calls c = ok null

abbrev pub standard : PermissionPolicy
standard = record {
  approval_callback = deny_all;
  approval_threshold = high;
  app_allowlist = [];
  app_denylist = [];
}

abbrev pub quiet_os : Os
quiet_os = record {
  is_dir = λ h path. true;
  str_path = λ path. path;
  is_process_elevated = λ h. true;
  run = λ h command cwd limit. completed (pos 0) "done" "";
  popen = λ h command cwd. none;
  timeout_note = λ limit. "";
}

abbrev pub plain_broker : Broker
plain_broker = record {
  policy = standard;
  cli_dir = "cli";
  guarded = true;
  default_timeout_ms = pos 120000;
  elevator = none;
}

abbrev pub driver : Driver
driver = record { agent = "system"; role = "system" }

abbrev pub echo_tool : Tool
echo_tool = record {
  name = "echo";
  description = "";
  args_help = "";
  risk = "low";
  run = λ d w. (done (dict (field "success" (bool true) end)), w);
}

abbrev pub tools : Registry
tools = ("echo", echo_tool) ∷ []

abbrev pub plain : Executor
plain = record {
  policy = standard;
  input = null_input;
  broker = some plain_broker;
  os = quiet_os;
  dry_run = false;
  agent = "system";
  role = "system";
  tools = some tools;
  str_of = λ v. "v";
  repr = λ v. "v";
}

abbrev pub click : Action
click = record {
  type = "mouse.click";
  params = field "x" (int (pos 3)) (field "y" (int (pos 4)) end);
}

abbrev pub echo : Action
echo = record { type = "tool.run"; params = field "tool" (str "echo") end }

abbrev nothing : ActionResult
nothing = record { action_type = ""; success = false; error = none; detail = end; retries = 0 }

abbrev pub result_of : Outcome ActionResult → ActionResult
result_of (done r) = r
result_of _ = nothing

abbrev pub desk : Observation
desk = record { active_window = some "Notepad"; screenshot_ref = none; elements = [] }

abbrev pub step_of : Action → PlannedStep
step_of a = record { action = a; description = "step"; expected = end; reasoning = "" }

abbrev pub small_limits : Limits
small_limits = record { max_retries = 1; max_actions_per_task = 2; max_task_seconds = 60 }

abbrev pub loop : TaskLoop (List PlannedStep)
loop = record {
  task_id = "task-001";
  planner = scripted;
  executor = plain;
  limits = small_limits;
  stall_guard = false;
  now = λ n. n;
  observe = λ w n. desk;
  is_file = λ w n path. false;
  same_value = λ a b. false;
  str_of = λ v. "v";
}

abbrev pub scene : Scene (List PlannedStep)
scene = record { world = start; reads = 0; looks = 0; mind = step_of click ∷ [] }

abbrev pub stopped_scene : Scene (List PlannedStep)
stopped_scene = record scene {
  world = record start { estop = record clear_stop { stopped = true } };
}

abbrev no_report : TaskReport
no_report = record {
  task_id = "";
  completed = false;
  halted = false;
  steps_run = 0;
  successes = 0;
  failures = 0;
  stop_reason = "";
  step_records = [];
}

abbrev pub report_in : Outcome TaskReport → TaskReport
report_in (done r) = r
report_in _ = no_report

abbrev pub tried_in : Outcome Tried → Tried
tried_in (done t) = t
tried_in _ = record {
  step = step_of click;
  attempts = 0;
  result = nothing;
  after = desk;
  verification = none;
  ok = false;
  time_exceeded = false;
}
