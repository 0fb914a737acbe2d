-- ===== src/Lib.antt =====
-- Desktop-Worker: the core of an agent that drives a desktop, under src/desktop_worker/ of the
-- repository. A planner proposes structured actions; an action is parsed and validated, guarded by
-- an emergency stop and a permission policy, dispatched to the mouse, the keyboard, a command
-- broker or a named tool, verified, and written to an audit log.
--
-- The files and the code that they model:
--   * Schema/Actions (schema/actions.py): the validators, the registry of the action types, and
--     parse_action. Schema/Results (schema/results.py): the results of an action and of a command.
--   * Safety/EmergencyStop (safety/emergency_stop.py): the flags, the sentinel file and the guard.
--     What other threads and processes do is a list of happenings before a guard and in each round
--     of its wait. Safety/Policy (safety/policy.py, safety/profiles.py): risks, approval, profiles.
--   * Broker/Risk (broker/risk.py) classifies commands by regular expressions, for which Regex has
--     an executable matcher. Broker/Cli and Broker/Run (broker/cli_broker.py) are the books and the
--     operations of the broker; the operating system is the record Os.
--   * Audit/Redact and Audit/Log (audit/log.py) write entries; Audit/Retention
--     (audit/retention.py) decides which artifacts are pruned.
--   * Session is the state that one session shares (app.py): the log, the emergency stop, the calls
--     that reached the input backend, the books of the broker, and the flag of a running tool. An
--     operation takes this state to an outcome: a value, an exception, or a pause that nobody lifts.
--   * Tools/Registry (tools/registry.py) and Actions/Executor (actions/executor.py): Dispatch is
--     _dispatch, Execute is execute with its guards and its error paths, and Ways is the family of
--     the ways in which execute ends.
--   * Loop (loop/task_loop.py, schema/observations.py): Recovery is the inner loop of TaskLoop.run,
--     Run the outer one, Verify is _verify, and Progress the local variables.
--   * Orchestration (orchestration/coordinator.py, orchestration/schema.py, orchestration/roles.py):
--     the coordinator, the three handoffs between the roles, and the roles over an AI.
--   * Bridge (mcp_server/bridge.py): act and act_many, the calls of an external agent; Bridge/Calls
--     has the named ones, each of which hands one document to act; Bridge/Perceive has perceive with
--     its filters, and click_element, which looks again before it clicks.
--   * Perception/Rank (perception/uia_backend.py) ranks and caps the elements of a walk;
--     Perception/Perceiver (perception/perceiver.py) merges them with those of OCR.
--     Perception/Ocr (perception/backends.py) merges two passes of text recognition; Elements makes
--     words and lines of them, Passes is TesseractOcrBackend, and Status is ocr_status and the choice
--     of the backend.
--   * Planner (loop/claude_cli_planner.py): Answer finds the JSON answer in the output of the CLI, and
--     Plan is ClaudeCliPlanner, which makes a step of it.
--   * Ui/Approvals (ui/controller.py): the queue between the threads that ask for approval and those
--     that answer, as a step relation, where each access to the shared state is one move.
--   * Tools/Arguments and Tools/Builtin (tools/builtin.py): the tools that start something, and what
--     they accept; Tools/Hands (tools/builtin.py, geometry/paint_setup.py, geometry/canvas.py): the
--     tools that drag, focus a window and draw.
--   * Workflows (workflows/): Steps is what the workflows share, and the scripts that they are compared
--     with; Browser (browser.py, window.py), Dialog (file_dialog.py), DesktopFile (desktop_file.py) and
--     Downloads (downloads.py) are the workflows. A pause changes no state and is left out.
--   * Eval (eval/oracles.py, eval/runner.py, eval/spec.py): the composite oracles, a trial, a suite.
--   * Prelude, Errors, Value and Dict are shared: texts and numbers, the exceptions, the values of
--     Python as far as actions carry them, and dictionaries in their order of insertion.
--   * Scenarios wires a session, and runs the theorems on it.
--
-- Loops end by structure. The outer loop of a task runs down from max_actions_per_task, since each
-- turn that goes on appends a record; the two inner loops run down from max_retries; the wait of the
-- emergency stop runs over its rounds. The wait for a download runs on fuel, one for each round, and
-- the rounds that the timeout has room for are enough.
--
-- Parameters: the input backend, the tools, the planner of a task, the observer with its perceiver,
-- the answers of the AI, its prompt and the JSON library, the libraries for images and for the
-- recognition of text, the printed form of a mean of confidences, the probes and the oracles of a trial, the
-- clock, the listings of a folder, the controls on the screen, the strokes of a figure, the operating
-- system, and the texts str and repr of a value.
--
-- Not modelled: time stamps, the JSON text of files, the Windows backends, the AI prompts, the widgets,
-- the drawing package but for the preparation of Paint, and the rates of an evaluation. Texts are
-- ASCII where case or white space matters. Times of the loop and of a download are whole
-- milliseconds, and of the artifacts whole seconds. The text of an error is kept where the code reads
-- it again.
pub mod Prelude
pub mod Errors
pub mod Value
pub mod Dict
pub mod Schema
pub mod Safety
pub mod Regex
pub mod Broker
pub mod Audit
pub mod Session
pub mod Tools
pub mod Actions
pub mod Loop
pub mod Orchestration
pub mod Bridge
pub mod Eval
pub mod Ui
pub mod Workflows
pub mod Perception
pub mod Planner
pub mod Scenarios
