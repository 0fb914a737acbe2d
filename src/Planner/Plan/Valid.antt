-- ===== src/Planner/Plan/Valid.antt =====
-- src/desktop_worker/loop/claude_cli_planner.py: what comes out of a plan, whatever the AI answers.
use desktop_worker.Schema.Results.{ActionResult}
use desktop_worker.Planner.Answer.Unreadable.{IsUnreadable, parse_planner_output-IsUnreadable}
use mathlib.Core.List.{Mem, mem-cons_self, mem-cons_of_mem}
use desktop_worker.Prelude.{
  String, true, not, ◌||◌, ◌≡◌, refl, ap, subst, ◌⊎◌, inl, inr, Option, none, some, List, [], ◌∷◌,
  Bool-cases, Option-cases, ◌==◌, string_eq, arith, ◌∙◌, sym,
}
use desktop_worker.Prelude.Int.{◌+ℤ◌, half_down}
use desktop_worker.Errors.{
  Error, action_validation, type_error, value_error, Result, ok, err, Result-cases, ◌>>=◌,
}
use desktop_worker.Value.{Value, Dict, int, str, dict, truthy}
use desktop_worker.Dict.{lookup, put, get_or, is_some}
use desktop_worker.Schema.Actions.Parse.{Action, parse_action}
use desktop_worker.Schema.Actions.Rejects.{Rejects, Rejects-parse_action}
use desktop_worker.Loop.Observation.{Element, Observation}
use desktop_worker.Loop.Step.{PlannedStep}
use desktop_worker.Planner.Answer.{parse_planner_output}
use desktop_worker.Planner.Plan.{
  Settings, ClaudeCliPlanner, resolve_element, at_element, accept, plan_action, plan_answer,
  plan_output, plan, takes_coords, go_on, is_done, next_step, replan, activate_vision, drew_last,
}

-- The document of an action, with the centre of an element that is on the screen in it or not.
abbrev pub Aimed : Observation → Dict → Dict → Type 0
Aimed obs action doc =
    (doc ≡ action)
    ⊎ ((e : Element) × Mem e obs.elements
        × (let (l, t, r, b) = e.bounds in
            doc ≡ put "y" (int (half_down (t +ℤ b))) (put "x" (int (half_down (l +ℤ r))) action)))

at_element-Aimed :
    (id : Value) (action : Dict) (es : List Element) {doc : Dict}
    → at_element id action es ≡ some doc
    → (e : Element) × Mem e es
      × (let (l, t, r, b) = e.bounds in
          doc ≡ put "y" (int (half_down (t +ℤ b))) (put "x" (int (half_down (l +ℤ r))) action))
unfolding at_element
at_element-Aimed (str id) action (e ∷ es) h = elim (Bool-cases (e.id == id)) [
  | inl same ↦ (e, mem-cons_self, ground arith)
  | inr other ↦
      let (d, there, eq) = at_element-Aimed (str id) action es (ground arith) in
      (d, mem-cons_of_mem e there, eq)
]
at_element-Aimed id action [] h = cc
at_element-Aimed id action (e ∷ es) h = cc

takes_coords-error :
    (v : Value) (e : Error)
    → takes_coords v ≡ err e
    → takes_coords v ≡ err (type_error "unhashable type")
takes_coords-error (str t) e h = cc
takes_coords-error v e h = ground arith

-- The three ways in which an element is resolved.
resolve_cases :
    (obj action : Dict) (es : List Element)
    → let r = resolve_element obj action es in
      (r ≡ ok (some action))
      ⊎ ((id : Value) × (r ≡ ok (at_element id action es)))
      ⊎ ((m : String) × (r ≡ err (type_error m)))
unfolding resolve_element
resolve_cases obj action es = elim (Bool-cases (truthy id)) [
  | inr absent ↦ inl (rw absent refl)
  | inl given ↦ elim (Result-cases (takes_coords type)) [
    | inl (e, raises) ↦
        inr (inr ("unhashable type", rw (given, takes_coords-error type e raises) refl))
    | inr (takes, known) ↦ elim (Bool-cases (not takes || is_some (lookup "x" action))) [
      | inl kept ↦ inl (rw (given, known, kept) refl)
      | inr aims ↦ inr (inl (id, rw (given, known, aims) refl))
    ]
  ]
]
  where
    id : Value
    id = get_or (lookup "elementId" obj) Value.null

    type : Value
    type = get_or (lookup "type" action) Value.null

module _ {M : Type 0} (cfg : Settings M) where
  -- How a plan ends, for the answer of the AI as it was read: with a step whose action the schema
  -- accepts, made of the action in the answer; without one, because the answer says that the task is
  -- done, or with the reason why; or in a TypeError.
  abbrev pub Planned :
      Result Dict → Observation → Result (Option PlannedStep × ClaudeCliPlanner M) → Type 0
  Planned answer obs (ok (some step, p)) =
      (p.last_outcome ≡ "step")
      × ((obj : Dict) × (action : Dict) × (doc : Dict) × (answer ≡ ok obj)
          × (lookup "action" obj ≡ some (dict action))
          × Aimed obs action doc
          × (parse_action (dict doc) ≡ ok step.action))
  Planned answer obs (ok (none, p)) =
      ((p.last_outcome ≡ "done") × ((obj : Dict) × (answer ≡ ok obj) × (is_done cfg obj ≡ true)))
      ⊎ (p.last_outcome ≡ "error")
      ⊎ (p.last_outcome ≡ "invalid")
  Planned answer obs (err (type_error m)) = Unit
  Planned answer obs (err e) = ⊥

  module _ {answer : Result Dict} {obj : Dict} (read : answer ≡ ok obj) (obs : Observation) where
    module _ {action : Dict} (offered : lookup "action" obj ≡ some (dict action)) where
      accept-Planned :
          (doc : Dict) (r : Result Action) (p : ClaudeCliPlanner M)
          → parse_action (dict doc) ≡ r
          → Aimed obs action doc
          → Rejects r
          → Planned answer obs (accept cfg obj r p)
      unfolding accept
      accept-Planned doc (ok a) p e aimed fine = (refl, (obj, action, doc, read, offered, aimed, e))
      accept-Planned doc (err (action_validation i)) p e aimed fine = inr (inr refl)
      accept-Planned doc (err (type_error m)) p e aimed fine = tt
      accept-Planned doc (err _) p e aimed fine = fine

      go_on-Planned :
          (p : ClaudeCliPlanner M)
          → Planned answer obs (go_on cfg obj (resolve_element obj action obs.elements) p)
      unfolding go_on
      go_on-Planned p = elim (resolve_cases obj action obs.elements) [
        | inl as_is ↦ back (ok (some action)) as_is (accepted action (inl refl))
        | inr (inl (id, aims)) ↦ elim (Option-cases (at_element id action obs.elements)) [
          | inl unknown ↦ back (ok none) (aims ∙ ap ok unknown) (inr (inr refl))
          | inr (doc, found) ↦
              back (ok (some doc)) (aims ∙ ap ok found)
                (accepted doc (inr (at_element-Aimed id action obs.elements found)))
        ]
        | inr (inr (m, raises)) ↦ back (err (type_error m)) raises tt
      ]
        where
          accepted :
              (doc : Dict)
              → Aimed obs action doc
              → Planned answer obs (accept cfg obj (parse_action (dict doc)) p)
          accepted doc aimed =
              accept-Planned doc (parse_action (dict doc)) p refl aimed
                (Rejects-parse_action (dict doc))

          back :
              (r : Result (Option Dict))
              → resolve_element obj action obs.elements ≡ r
              → Planned answer obs (go_on cfg obj r p)
              → Planned answer obs (go_on cfg obj (resolve_element obj action obs.elements) p)
          back r e planned = subst (λ r'. Planned answer obs (go_on cfg obj r' p)) (sym e) planned

    plan_action-Planned :
        (o : Option Value) (p : ClaudeCliPlanner M)
        → lookup "action" obj ≡ o
        → Planned answer obs (plan_action cfg obj o obs p)
    unfolding plan_action
    plan_action-Planned (some (dict action)) p e = go_on-Planned e p
    plan_action-Planned _ p e = inr (inr refl)

    plan_answer-Planned : (p : ClaudeCliPlanner M) → Planned answer obs (plan_answer cfg obj obs p)
    unfolding plan_answer
    plan_answer-Planned p = elim (Bool-cases (is_done cfg obj)) [
      | inl done ↦ rw (done, Planned) (inl (refl, (obj, read, done)))
      | inr more ↦ rw (more, Planned) (plan_action-Planned (lookup "action" obj) _ refl)
    ]

  plan_output-Planned :
      {answer : Result Dict} (r : Result Dict) (obs : Observation) (p : ClaudeCliPlanner M)
      → answer ≡ r
      → IsUnreadable r
      → Planned answer obs (plan_output cfg r obs p)
  unfolding plan_output
  plan_output-Planned (ok obj) obs p read only = plan_answer-Planned read obs p
  plan_output-Planned (err (value_error m)) obs p read only = inr (inr refl)
  plan_output-Planned (err _) obs p read only = absurd only

  plan-Planned :
      (prompt : String) (obs : Observation) (p : ClaudeCliPlanner M)
      → Planned
          ((cfg.ask p.asked prompt).0 >>= parse_planner_output cfg.py)
          obs
          (plan cfg prompt obs p)
  unfolding plan
  plan-Planned prompt obs p = elim (Result-cases (cfg.ask p.asked prompt).0) [
    | inl (e, failed) ↦ rw (failed, Planned) (inr (inl refl))
    | inr (raw, replied) ↦
        rw (replied, Planned)
          (plan_output-Planned (parse_planner_output cfg.py raw) obs _
            (ap (λ reply. reply >>= parse_planner_output cfg.py) replied)
            (parse_planner_output-IsUnreadable cfg.py raw))
  ]

  -- What the AI answers to the prompt for an observation, as the planner reads it.
  abbrev pub answer_to : String → Observation → List ActionResult → ClaudeCliPlanner M → Result Dict
  answer_to note obs history p =
      let (shot, q) = activate_vision cfg obs (drew_last cfg history) p in
      (cfg.ask q.asked (cfg.prompt obs history note (cfg.crop_for_sketch shot history))).0
      >>= parse_planner_output cfg.py

  -- Whatever the AI answers, a plan is a step whose action is the one in the answer, at most with the
  -- centre of an element that is on the screen, and accepted by the schema; or it is no step, because
  -- the answer says that the task is done, or with the reason why; or a TypeError.
  pub planner-Planned :
      (obs : Observation) (history : List ActionResult) (failed : PlannedStep)
      (p : ClaudeCliPlanner M)
      → Planned (answer_to "" obs history p) obs (next_step cfg obs history p)
        × Planned
            (answer_to (cfg.note_of failed) obs history p)
            obs
            (replan cfg failed obs history p)
  unfolding next_step replan
  planner-Planned obs history failed p = (plan-Planned _ obs _, plan-Planned _ obs _)
