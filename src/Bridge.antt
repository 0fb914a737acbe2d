-- ===== src/Bridge.antt =====
-- src/desktop_worker/mcp_server/bridge.py: the calls of an external agent. An answer is the
-- dictionary that the bridge returns, with its keys as fields; the `mcp-client` that drives is the
-- executor's `agent`. `signature` is `_state_signature` before (0) and after (1) an action.
pub mod Ran
pub mod Batch
pub mod Calls
pub mod Perceive
pub mod Gate
use desktop_worker.Prelude.{
  ℕ, zero, suc, ◌+◌, String, ◌<>◌, Bool, true, false, not, ◌&&◌, Option, none, some, List, [], ◌∷◌,
  length, ltb, ◌==◌, string_eq, if◌then◌else◌,
}
use desktop_worker.Prelude.Int.{pos}
use desktop_worker.Prelude.Decimal.{decimal}
use desktop_worker.Errors.{Error, action_validation, message, Result, ok, err}
use desktop_worker.Value.{
  Value, Items, Dict, nil, cons, list, dict, int, str, end, field, count_items,
}
use desktop_worker.Schema.Results.{ActionResult}
use desktop_worker.Schema.Actions.Parse.{Action, parse_action}
use desktop_worker.Actions.Executor.Dispatch.{Executor}
use desktop_worker.Actions.Executor.Execute.{execute}
use desktop_worker.Session.{World, Exec, Outcome, done, raised, hang}

pub record Change : Type 0 where
  pub before : String
  pub after : String
  pub changed : Bool
  pub silent_no_op : Bool

pub record Answer : Type 0 where
  pub ok : Bool
  pub error : Option String
  -- `actionType` and `detail`, of an action that was executed
  pub executed : Option (String × Dict)
  pub change : Option Change

abbrev pub refusal : String → Answer
refusal text = record { ok = false; error = some text; executed = none; change = none }

-- `_result`
abbrev pub answer_of : ActionResult → Answer
answer_of r = record {
  ok = r.success;
  error = r.error;
  executed = some (r.action_type, r.detail);
  change = none;
}

-- An action that was parsed, or not: only a validation error becomes an answer.
unfoldable pub run_parsed : Executor → Result Action → Exec Answer
run_parsed x (err (action_validation i)) w =
    (done (refusal ("invalid action: " <> message (action_validation i))), w)
run_parsed x (err e) w = (raised e, w)
run_parsed x (ok a) w =
    let (r, w') = execute x a w in
    elim r [
      | done result ↦ (done (answer_of result), w')
      | raised e ↦ (raised e, w')
      | hang ↦ (hang, w')
    ]

-- `act` with its default arguments: no wait, no report of the change.
unfoldable pub act_once : Executor → Value → Exec Answer
unfolding run_parsed
act_once x raw = run_parsed x (parse_action raw)

-- `wait`
unfoldable pub wait : Executor → ℕ → Exec Answer
unfolding act_once
wait x ms = act_once x (dict (field "type" (str "wait") (field "durationMs" (int (pos ms)) end)))

-- The wait behind an action, where one is asked for; its answer is dropped.
unfoldable pub settle : Executor → ℕ → Answer → Exec Answer
unfolding wait
settle x zero a w = (done a, w)
settle x (suc ms) a w =
    let (r, w') = wait x (suc ms) w in
    elim r [ done b ↦ (done a, w') | raised e ↦ (raised e, w') | hang ↦ (hang, w') ]

abbrev pub with_change : String → String → Answer → Answer
with_change before after a = record a {
  change = some (record {
    before = before;
    after = after;
    changed = not (before == after);
    silent_no_op = a.ok && (before == after);
  });
}

-- What `act` does with an action that was parsed.
unfoldable pub act_parsed : Executor → (ℕ → World → String) → Action → ℕ → Bool → Exec Answer
unfolding settle
act_parsed x signature a settle_ms report_change w =
    let before = signature 0 w in
    let (r, w') = execute x a w in
    elim r [
      | raised e ↦ (raised e, w')
      | hang ↦ (hang, w')
      | done result ↦
          let (s, w'') = settle x settle_ms (answer_of result) w' in
          elim s [
            | raised e ↦ (raised e, w'')
            | hang ↦ (hang, w'')
            | done b ↦
                if report_change
                then (done (with_change before (signature 1 w'') b), w'')
                else (done b, w'')
          ]
    ]

-- `act`
unfoldable pub act : Executor → (ℕ → World → String) → Value → ℕ → Bool → Exec Answer
unfolding act_parsed
act x signature raw settle_ms report_change w = elim (parse_action raw) [
  | ok a ↦ act_parsed x signature a settle_ms report_change w
  | err e ↦ run_parsed x (err e) w
]

-- The results of a batch, and the index of its last failure.
abbrev pub Batched : Type 0
Batched = List Answer × Option ℕ

abbrev pub later : Option ℕ → Option ℕ → Option ℕ
later none first = first
later (some i) first = some i

abbrev pub failure_at : ℕ → Answer → Option ℕ
failure_at i a = if a.ok then none else some i

-- The loop of `act_many` from the index `i` on.
unfoldable pub batch : Executor → Bool → ℕ → ℕ → Items → Exec Batched
batch x stop settle_ms i nil w = (done ([], none), w)
batch x stop settle_ms i (cons (dict d) rest) w =
    let (r, w') = act_once x (dict d) w in
    elim r [
      | raised e ↦ (raised e, w')
      | hang ↦ (hang, w')
      | done a ↦
          let (s, w'') = settle x settle_ms a w' in
          let (t, w''') = batch x stop settle_ms (i + 1) rest w'' in
          if not a.ok && stop then (done (a ∷ [], some i), w') else elim s [
            | raised e ↦ (raised e, w'')
            | hang ↦ (hang, w'')
            | done b ↦ elim t [
              | raised e ↦ (raised e, w''')
              | hang ↦ (hang, w''')
              | done (results, failed_at) ↦
                  (done (a ∷ results, later failed_at (failure_at i a)), w''')
            ]
          ]
    ]
batch x stop settle_ms i (cons v rest) w =
    (done (refusal ("action " <> decimal i <> " is not an object") ∷ [], some i), w)

pub record ManyAnswer : Type 0 where
  pub ok : Bool
  pub completed : ℕ
  pub requested : ℕ
  pub failed_at : Option ℕ
  pub error : Option String
  pub results : List Answer

unfoldable pub count_ok : List Answer → ℕ
count_ok [] = 0
count_ok (a ∷ results) = if a.ok then suc (count_ok results) else count_ok results

abbrev no_list : ManyAnswer
no_list = record {
  ok = false;
  completed = 0;
  requested = 0;
  failed_at = none;
  error = some "act_many needs a non-empty list of actions";
  results = [];
}

abbrev error_at : List Answer → ℕ → Option String
error_at [] i = none
error_at (a ∷ results) zero = a.error
error_at (a ∷ results) (suc i) = error_at results i

abbrev text_or_none : Option String → String
text_or_none none = "None"
text_or_none (some s) = s

unfoldable pub many_answer : ℕ → Batched → ManyAnswer
unfolding count_ok
many_answer requested (results, none) = record {
  ok = true;
  completed = count_ok results;
  requested = requested;
  failed_at = none;
  error = none;
  results = results;
}
many_answer requested (results, some i) = record {
  ok = false;
  completed = count_ok results;
  requested = requested;
  failed_at = some i;
  error = some ("action " <> decimal i <> " failed: " <> text_or_none (error_at results i));
  results = results;
}

-- `act_many`
unfoldable pub act_many : Executor → Value → Bool → ℕ → Exec ManyAnswer
unfolding batch many_answer
act_many x (list (cons v rest)) stop settle_ms w =
    let (r, w') = batch x stop settle_ms 0 (cons v rest) w in
    elim r [
      | done b ↦ (done (many_answer (count_items (cons v rest)) b), w')
      | raised e ↦ (raised e, w')
      | hang ↦ (hang, w')
    ]
act_many x actions stop settle_ms w = (done no_list, w)
