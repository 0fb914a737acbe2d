-- ===== src/Planner/Plan.antt =====
-- src/desktop_worker/loop/claude_cli_planner.py: `ClaudeCliPlanner`. The function that asks the AI keeps
-- a state of its own; the prompt and the crop of a screenshot are functions on what they read. An
-- observation is read by its elements and its screenshot.
pub mod Valid
pub mod Budget
use desktop_worker.Prelude.{
  ℕ, suc, ◌+◌, String, ◌<>◌, Bool, true, false, not, ◌&&◌, ◌||◌, Option, none, some, List, [], ◌∷◌,
  ◌++◌, length, leb, contains, ◌==◌, string_eq, if◌then◌else◌,
}
use desktop_worker.Prelude.Int.{ℤ, ◌+ℤ◌, half_down}
use desktop_worker.Prelude.Text.{strip, lower}
use desktop_worker.Errors.{
  Error, action_validation, value_error, type_error, Result, ok, err, message,
}
use desktop_worker.Value.{Value, Dict, int, str, bool, dict, end, field, truthy, hashable}
use desktop_worker.Dict.{lookup, get_or, put, is_some}
use desktop_worker.Schema.Results.{ActionResult}
use desktop_worker.Schema.Actions.Specs.{action_specs, find_spec}
use desktop_worker.Schema.Actions.Parse.{Action, parse_action}
use desktop_worker.Loop.Observation.{Element, Observation}
use desktop_worker.Loop.Step.{PlannedStep}
use desktop_worker.Planner.Answer.{Python, parse_planner_output}

-- What a planner is made with.
pub record Settings (M : Type 0) : Type 0 where
  pub py : Python
  pub ask : M → String → Result String × M
  pub prompt : Observation → List ActionResult → String → String → String
  -- whether a screenshot is an image file that exists, and `_crop_for_sketch`
  pub is_image : String → Bool
  pub crop_for_sketch : String → List ActionResult → String
  -- `str` of an action and its description, for a new plan
  pub note_of : PlannedStep → String
  pub vision : Bool
  pub vision_threshold : ℕ
  pub max_vision_steps : ℕ

pub record ClaudeCliPlanner (M : Type 0) : Type 0 where
  pub asked : M
  pub vision_steps_used : ℕ
  pub vision_active : Bool
  pub last_reasoning : String
  pub last_done_reason : String
  pub last_infeasible : Bool
  pub last_outcome : String
  pub last_error : String
  -- the entries of the audit log: the event, and what it is about
  pub logged : List (String × String)

abbrev coord_actions : List String
coord_actions = "mouse.move" ∷ "mouse.click" ∷ "mouse.doubleClick" ∷ "mouse.rightClick" ∷ []

-- The action with the centre of the element in it; `none` for an unknown element.
unfoldable pub at_element : Value → Dict → List Element → Option Dict
at_element id action [] = none
at_element (str id) action (e ∷ es) =
    let rest = at_element (str id) action es in
    let (l, t, r, b) = e.bounds in
    if e.id == id
    then some (put "y" (int (half_down (t +ℤ b))) (put "x" (int (half_down (l +ℤ r))) action))
    else rest
at_element id action (e ∷ es) = none

-- `atype not in _COORD_ACTIONS`, which raises for a type without a hash.
abbrev pub takes_coords : Value → Result Bool
takes_coords (str type) = ok (contains coord_actions type)
takes_coords v = if hashable v then ok false else err (type_error "unhashable type")

-- `_resolve_element`
unfoldable pub resolve_element : Dict → Dict → List Element → Result (Option Dict)
unfolding at_element
resolve_element obj action elements =
    let id = get_or (lookup "elementId" obj) Value.null in
    if not (truthy id)
    then ok (some action)
    else elim (takes_coords (get_or (lookup "type" action) Value.null)) [
      | err e ↦ err e
      | ok takes ↦
          if not takes || is_some (lookup "x" action)
          then ok (some action)
          else ok (at_element id action elements)
    ]

abbrev summary_of : Action → String
summary_of a = elim (find_spec a.type action_specs) [ none ↦ "" | some spec ↦ spec.summary ]

abbrev dict_or_empty : Option Value → Dict
dict_or_empty (some (dict d)) = d
dict_or_empty _ = end

module _ {M : Type 0} (cfg : Settings M) where
  -- A plan that fails, and why.
  abbrev pub failing :
      String
      → String
      → String
      → String
      → ClaudeCliPlanner M
      → Option PlannedStep × ClaudeCliPlanner M
  failing outcome error event entry p = (
    none,
    record p {
      last_outcome = outcome;
      last_error = error;
      logged = p.logged ++ (event, entry) ∷ [];
    },
  )

  abbrev invalid : String → String → ClaudeCliPlanner M → Option PlannedStep × ClaudeCliPlanner M
  invalid error entry p = failing "invalid" error "planner.invalid" entry p

  -- `str(obj.get("description", action.summary))`
  abbrev text_or : Option Value → String → String
  text_or none text = text
  text_or (some v) text = cfg.py.str_of v

  abbrev step_of : Dict → Action → String → PlannedStep
  step_of obj a reasoning = record {
    action = a;
    description = text_or (lookup "description" obj) (summary_of a);
    expected = dict_or_empty (lookup "expectedResult" obj);
    reasoning = reasoning;
  }

  -- An action that was parsed becomes a step; one that the schema rejects does not.
  unfoldable pub accept :
      Dict → Result Action → ClaudeCliPlanner M → Result (Option PlannedStep × ClaudeCliPlanner M)
  accept obj (err (action_validation i)) p = ok (
      invalid ("AI proposed an invalid action: " <> message (action_validation i))
        ("action rejected: " <> message (action_validation i)) p)
  accept obj (err e) p = err e
  accept obj (ok a) p = ok (
    some (step_of obj a p.last_reasoning),
    record p {
      last_outcome = "step";
      last_error = "";
      logged = p.logged ++ ("planner.step", a.type) ∷ [];
    },
  )

  -- An element that is unknown ends the plan: a click must not miss.
  unfoldable pub go_on :
      Dict
      → Result (Option Dict)
      → ClaudeCliPlanner M
      → Result (Option PlannedStep × ClaudeCliPlanner M)
  unfolding accept
  go_on obj (err e) p = err e
  go_on obj (ok none) p =
      let id = cfg.py.repr (get_or (lookup "elementId" obj) Value.null) in
      ok (invalid ("AI targeted an unknown element (" <> id <> ")") ("unknown elementId: " <> id) p)
  go_on obj (ok (some resolved)) p = accept obj (parse_action (dict resolved)) p

  -- The `action` of an answer.
  unfoldable pub plan_action :
      Dict
      → Option Value
      → Observation
      → ClaudeCliPlanner M
      → Result (Option PlannedStep × ClaudeCliPlanner M)
  unfolding resolve_element go_on
  plan_action obj (some (dict action)) obs p = go_on obj (resolve_element obj action obs.elements) p
  plan_action obj _ obs p = ok (invalid "AI returned no action" "missing 'action' object" p)

  abbrev pub is_done : Dict → Bool
  is_done obj = elim (lookup "done" obj) [
    | some v ↦ elim v [ bool b ↦ b | _ ↦ false ]
    | none ↦ false
  ]

  abbrev reasoning_of : Dict → String
  reasoning_of obj = strip (text_or (lookup "reasoning" obj) "")

  -- What the planner makes of an answer.
  unfoldable pub plan_answer :
      Dict → Observation → ClaudeCliPlanner M → Result (Option PlannedStep × ClaudeCliPlanner M)
  unfolding plan_action
  plan_answer obj obs p =
      let q = record p { last_reasoning = reasoning_of obj } in
      if is_done obj
      then ok (
        none,
        record q {
          last_outcome = "done";
          last_error = "";
          last_done_reason = reasoning_of obj;
          last_infeasible = truthy (get_or (lookup "infeasible" obj) Value.null);
          logged = p.logged ++ ("planner.done", reasoning_of obj) ∷ [];
        },
      )
      else plan_action obj (lookup "action" obj) obs q

  -- `_plan`. Whatever asking raises, and a ValueError of the answer, is a failed plan.
  unfoldable pub plan_output :
      Result Dict
      → Observation
      → ClaudeCliPlanner M
      → Result (Option PlannedStep × ClaudeCliPlanner M)
  unfolding plan_answer
  plan_output (err (value_error m)) obs p = ok (invalid m m p)
  plan_output (err e) obs p = err e
  plan_output (ok obj) obs p = plan_answer obj obs p

  unfoldable pub plan :
      String → Observation → ClaudeCliPlanner M → Result (Option PlannedStep × ClaudeCliPlanner M)
  unfolding plan_output
  plan prompt obs p =
      let (reply, asked) = cfg.ask p.asked prompt in
      let q = record p { asked = asked; last_reasoning = "" } in
      elim reply [
        | err e ↦
            let error = "AI call failed: " <> message e in
            ok (failing "error" error "planner.error" error q)
        | ok raw ↦ plan_output (parse_planner_output cfg.py raw) obs q
      ]

  -- `_vision_path`: the screenshot to send, or the empty text.
  unfoldable pub vision_path : Observation → Bool → ClaudeCliPlanner M → String
  vision_path obs force p =
      if not cfg.vision || leb cfg.max_vision_steps p.vision_steps_used
      then ""
      else if not force && leb cfg.vision_threshold (length obs.elements)
      then ""
      else elim obs.screenshot_ref [ none ↦ "" | some ref ↦ if cfg.is_image ref then ref else "" ]

  -- `_activate_vision`
  unfoldable pub activate_vision :
      Observation → Bool → ClaudeCliPlanner M → String × ClaudeCliPlanner M
  activate_vision obs force p =
      let shot = vision_path obs force p in
      if shot == ""
      then (shot, record p { vision_active = false })
      else (shot, record p { vision_active = true; vision_steps_used = p.vision_steps_used + 1 })

  -- `_drew_last`, on the last result
  unfoldable pub drew : ActionResult → Bool
  drew r =
      (r.action_type == "mouse.stroke" || r.action_type == "mouse.drag")
      || (r.action_type == "tool.run" && elim (lookup "tool" r.detail) [
        | none ↦ false
        | some v ↦ elim v [ str tool ↦ tool == "sketch" | _ ↦ false ]
      ])

  abbrev pub drew_last : List ActionResult → Bool
  drew_last [] = false
  drew_last (r ∷ []) = drew r
  drew_last (r ∷ rs) = drew_last rs

  abbrev pub ask_for :
      String
      → Observation
      → List ActionResult
      → ClaudeCliPlanner M
      → Result (Option PlannedStep × ClaudeCliPlanner M)
  ask_for note obs history p =
      let (shot, q) = activate_vision obs (drew_last history) p in
      plan (cfg.prompt obs history note (cfg.crop_for_sketch shot history)) obs q

  unfoldable pub next_step :
      Observation
      → List ActionResult
      → ClaudeCliPlanner M
      → Result (Option PlannedStep × ClaudeCliPlanner M)
  next_step obs history p = ask_for "" obs history p

  unfoldable pub replan :
      PlannedStep
      → Observation
      → List ActionResult
      → ClaudeCliPlanner M
      → Result (Option PlannedStep × ClaudeCliPlanner M)
  replan failed obs history p = ask_for (cfg.note_of failed) obs history p
