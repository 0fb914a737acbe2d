-- ===== src/Loop/Progress.antt =====
-- src/desktop_worker/loop/task_loop.py: the local variables of `run`, and how a step changes them.
use desktop_worker.Prelude.{
  ℕ, ◌+◌, String, ◌<>◌, Bool, true, false, not, ◌&&◌, ◌||◌, Option, none, some, List, [], ◌∷◌, ◌++◌,
  contains, ◌==◌, string_eq, nat_eq, if◌then◌else◌,
}
use desktop_worker.Prelude.Decimal.{decimal}
use desktop_worker.Value.{Value, null, bool, str}
use desktop_worker.Dict.{lookup, get_or, put}
use desktop_worker.Schema.Results.{ActionResult}
use desktop_worker.Actions.Executor.Execute.{action_text}
use desktop_worker.Loop.Step.{StepRecord}
use desktop_worker.Loop.Recovery.{Tried}
use desktop_worker.Loop.Verify.{VerificationResult}

-- The local variables of `run`.
pub record Progress : Type 0 where
  pub history : List ActionResult
  pub records : List StepRecord
  pub successes : ℕ
  pub failures : ℕ
  pub last_sig : Option String
  pub stale_count : ℕ
  pub last_action_type : String

abbrev pub at_start : Progress
at_start = record {
  history = [];
  records = [];
  successes = 0;
  failures = 0;
  last_sig = none;
  stale_count = 0;
  last_action_type = "";
}

-- How `run` leaves its loop.
pub record Stop : Type 0 where
  pub completed : Bool
  pub halted : Bool
  pub stop_reason : String

abbrev pub stopped : String → Stop
stopped reason = record { completed = false; halted = false; stop_reason = reason }

pub data Turn : Type 0 where
  goes_on : Progress → Turn
  leaves : Stop → Progress → Turn

-- `history[-1].detail.get("tool") == "sketch"`, for a history that is not empty
last_sketched : List ActionResult → Bool
last_sketched [] = false
last_sketched (r ∷ []) = elim (get_or (lookup "tool" r.detail) null) [
  | str tool ↦ tool == "sketch"
  | _ ↦ false
]
last_sketched (r ∷ rs) = last_sketched rs

unfoldable pub drew_last : Progress → Bool
unfolding last_sketched
drew_last p =
    contains ("mouse.stroke" ∷ "mouse.drag" ∷ []) p.last_action_type
    || (p.last_action_type == "tool.run" && last_sketched p.history)

abbrev pub same_sig : String → Option String → Bool
same_sig sig none = false
same_sig sig (some last) = sig == last

-- The count of turns that saw the desktop unchanged.
unfoldable pub count_stale : Bool → String → Progress → Progress
unfolding drew_last
count_stale guard sig p =
    if not guard
    then p
    else if same_sig sig p.last_sig && not (drew_last p)
    then record p { stale_count = p.stale_count + 1 }
    else record p { stale_count = 0; last_sig = some sig }

abbrev pub opt_passed : Option VerificationResult → Option Bool
opt_passed none = none
opt_passed (some v) = some v.passed

abbrev pub retries_text : ℕ → String
retries_text n = decimal n <> (if n == 1 then " retry" else " retries")

abbrev pub error_text : Option String → String
error_text none = "None"
error_text (some e) = e

-- `result.detail[…] = …`: what the planner is told of the action later.
unfoldable pub remember : (Value → String) → Tried → Bool → ActionResult
remember repr t changed =
    let detail = put "actionStr" (str (action_text repr t.step.action)) t.result.detail in
    let detail = put "screenChanged" (bool changed) detail in
    let detail =
      if t.step.reasoning == "" then detail else put "reasoning" (str t.step.reasoning) detail in
    record t.result { retries = t.attempts; detail = detail }

abbrev count_of : Bool → ℕ
count_of true = 1
count_of false = 0

unfoldable pub advance : (Value → String) → Tried → ActionResult → Progress → Progress
advance repr t result p = record p {
  history = p.history ++ (result ∷ []);
  records =
      p.records
      ++ (record {
        description = t.step.description;
        action = action_text repr t.step.action;
        success = t.ok;
        retries = t.attempts;
        error = result.error;
        verification_passed = opt_passed t.verification;
      }
          ∷ []);
  successes = p.successes + count_of t.ok;
  failures = p.failures + count_of (not t.ok);
  last_action_type = t.step.action.type;
}
