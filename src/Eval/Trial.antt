-- ===== src/Eval/Trial.antt =====
-- src/desktop_worker/eval/runner.py and src/desktop_worker/eval/spec.py: one trial of a task. A
-- probe and an oracle are functions on the bench. The wall clock, the traceback and the events for
-- the caller are left out; `to_int` is Python's `int` of a value.
pub mod Judged
pub mod Isolation
use desktop_worker.Prelude.{
  ℕ, ◌+◌, String, ◌<>◌, Bool, true, false, not, ◌&&◌, Option, none, some, List, [], ◌∷◌, ◌++◌,
  length, take, ◌==◌, string_eq, is_nil, if◌then◌else◌,
}
use desktop_worker.Prelude.Int.{ℤ, pos}
use desktop_worker.Prelude.Text.{take_text}
use desktop_worker.Errors.{Error, runtime, class_name, message, Result, ok, err}
use desktop_worker.Value.{Value, Items, Dict, nil, cons, null, bool, str, dict, end, field, list}
use desktop_worker.Dict.{lookup, get_or, put}
use desktop_worker.Actions.Executor.Dispatch.{Executor}
use desktop_worker.Session.{World, Outcome, done, raised, hang}
use desktop_worker.Bridge.{Answer, act_once}
use desktop_worker.Eval.Oracles.{Verdict}

-- The session, and how many calls the counting bridge has passed on.
pub record Bench : Type 0 where
  pub world : World
  pub calls : ℕ

abbrev pub Act : Type 0 → Type 0
Act A = Bench → Outcome A × Bench

-- What an oracle is given: the probe's answer, or those of the actions.
pub data Payload : Type 0 where
  probed : Dict → Payload
  acted : Bool → List Answer → Payload

pub record EvalTask : Type 0 where
  pub id : String
  pub tier : String
  pub app : String
  pub feasible : Bool
  pub actions : List Dict
  pub probe : Option (Act Dict)
  pub oracle : Bench → Payload → Result Verdict
  pub setup : List Dict
  pub reset : List Dict
  pub max_steps : ℕ

pub record EvalResult : Type 0 where
  pub task_id : String
  pub trial : ℕ
  pub passed : Bool
  pub reason : String
  pub steps : ℤ
  pub round_trips : ℕ
  pub feasible : Bool
  pub error : Option String
  pub detail : Dict

abbrev pub all_ok : List Answer → Bool
all_ok [] = true
all_ok (a ∷ answers) = a.ok && all_ok answers

abbrev error_value : Option String → Value
error_value none = null
error_value (some text) = str text

abbrev executed_fields : Option (String × Dict) → Dict
executed_fields none = end
executed_fields (some (type, detail)) =
    field "actionType" (str type) (field "detail" (dict detail) end)

-- The dictionary that the bridge returned.
abbrev answer_dict : Answer → Dict
answer_dict a =
    field "ok" (bool a.ok) (field "error" (error_value a.error) (executed_fields a.executed))

-- `str(r.get("error") or r)[:160]`
unfoldable pub failed_text : Executor → Answer → String
unfolding take_text
failed_text x a =
    let text = x.str_of (dict (answer_dict a)) in
    take_text 160 (elim a.error [ none ↦ text | some e ↦ if e == "" then text else e ])

unfoldable pub failed_texts : Executor → List Answer → List String
unfolding failed_text
failed_texts x [] = []
failed_texts x (a ∷ answers) =
    let rest = failed_texts x answers in if a.ok then rest else failed_text x a ∷ rest

abbrev join_texts : List String → String
join_texts [] = ""
join_texts (s ∷ []) = s
join_texts (s ∷ ss) = s <> "; " <> join_texts ss

-- What a trial measured: its steps, and the verdict or what the oracle raised.
abbrev pub Measured : Type 0
Measured = ℤ × Result Verdict

module _ (x : Executor) (to_int : Value → Result ℤ) where
  -- `_run_actions`
  unfoldable pub run_actions : List Dict → Act (List Answer)
  run_actions [] b = (done [], b)
  run_actions (d ∷ ds) b =
      let (r, w) = act_once x (dict d) b.world in
      let b' = record b { world = w; calls = b.calls + 1 } in
      let (s, b'') = run_actions ds b' in
      elim r [
        | raised e ↦ (raised e, b')
        | hang ↦ (hang, b')
        | done a ↦ elim s [
          | raised e ↦ (raised e, b'')
          | hang ↦ (hang, b'')
          | done answers ↦ (done (a ∷ answers), b'')
        ]
      ]

  -- `_safe_reset`: an error of the reset is a note.
  unfoldable pub safe_reset : List Dict → String → Act (List String)
  unfolding run_actions
  safe_reset [] phase b = (done [], b)
  safe_reset (d ∷ ds) phase b =
      let (r, b') = run_actions (d ∷ ds) b in
      elim r [
        | done answers ↦ (done [], b')
        | raised e ↦ (done ((phase <> "-reset failed: " <> message e) ∷ []), b')
        | hang ↦ (hang, b')
      ]

  -- A setup with an answer that is not ok ends the trial.
  unfoldable pub run_setup : List Dict → Act (Unit {0})
  unfolding run_actions failed_texts
  run_setup ds b =
      let (r, b') = run_actions ds b in
      elim r [
        | done answers ↦
            if all_ok answers
            then (done tt, b')
            else (raised (runtime ("setup failed: " <> join_texts (failed_texts x answers))), b')
        | raised e ↦ (raised e, b')
        | hang ↦ (hang, b')
      ]

  abbrev judge : EvalTask → ℤ → Payload → Act Measured
  judge task steps payload b = (done (steps, task.oracle b payload), b)

  -- `payload.get("steps", 0)`
  abbrev steps_of : Dict → Result ℤ
  steps_of d = elim (lookup "steps" d) [ none ↦ ok (pos 0) | some v ↦ to_int v ]

  -- The probe or the actions, and the oracle on what they give.
  unfoldable pub measure : EvalTask → Option (Act Dict) → Act Measured
  unfolding run_actions
  measure task (some probe) b =
      let (r, b') = probe b in
      elim r [
        | done d ↦ elim (steps_of d) [ ok n ↦ judge task n (probed d) b' | err e ↦ (raised e, b') ]
        | raised e ↦ (raised e, b')
        | hang ↦ (hang, b')
      ]
  measure task none b =
      let (r, b') = run_actions (take task.max_steps task.actions) b in
      elim r [
        | done answers ↦
            judge task (pos (length answers))
              (acted (not (is_nil answers) && all_ok answers) answers) b'
        | raised e ↦ (raised e, b')
        | hang ↦ (hang, b')
      ]

  -- The body of the `try`.
  unfoldable pub attempt : EvalTask → Act Measured
  unfolding run_setup measure
  attempt task b =
      let (r, b') = run_setup task.setup b in
      elim r [ done u ↦ measure task task.probe b' | raised e ↦ (raised e, b') | hang ↦ (hang, b') ]

  abbrev note_items : List String → Items
  note_items [] = nil
  note_items (s ∷ ss) = cons (str s) (note_items ss)

  abbrev with_notes : List String → Dict → Dict
  with_notes [] detail = detail
  with_notes notes detail = put "resetNotes" (list (note_items notes)) detail

  -- The result of a trial, from how its body ended.
  unfoldable pub result_of : EvalTask → ℕ → List String → Measured → ℕ → EvalResult
  result_of task trial notes (steps, ok v) calls = record {
    task_id = task.id;
    trial = trial;
    passed = v.passed;
    reason = v.reason;
    steps = steps;
    round_trips = calls;
    feasible = task.feasible;
    error = none;
    detail = with_notes notes v.detail;
  }
  result_of task trial notes (steps, err e) calls = record {
    task_id = task.id;
    trial = trial;
    passed = false;
    reason = "trial raised " <> class_name e <> ": " <> message e;
    steps = steps;
    round_trips = calls;
    feasible = task.feasible;
    error = some (message e);
    detail = with_notes notes end;
  }

  -- The `finally`, and the result.
  unfoldable pub close : EvalTask → ℕ → List String → Measured → Act EvalResult
  unfolding safe_reset result_of
  close task trial notes m b =
      let (post, b') = safe_reset task.reset "post" b in
      elim post [
        | done more ↦ (done (result_of task trial (notes ++ more) m b'.calls), b')
        | raised e ↦ (raised e, b')
        | hang ↦ (hang, b')
      ]

  -- `run_trial`
  unfoldable pub run_trial : EvalTask → ℕ → Act EvalResult
  unfolding safe_reset attempt close
  run_trial task trial b =
      let (pre, b₁) = safe_reset task.reset "pre" (record b { calls = 0 }) in
      elim pre [
        | raised e ↦ (raised e, b₁)
        | hang ↦ (hang, b₁)
        | done notes ↦
            let (r, b₂) = attempt task b₁ in
            elim r [
              | done m ↦ close task trial notes m b₂
              | raised e ↦ close task trial notes (pos 0, err e) b₂
              | hang ↦ (hang, b₂)
            ]
      ]
