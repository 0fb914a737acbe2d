-- ===== src/Planner/Plan/Budget.antt =====
-- src/desktop_worker/loop/claude_cli_planner.py: how often a screenshot is sent to the AI.
use desktop_worker.Prelude.{
  ℕ, ◌+◌, ◌≤◌, ◌<◌, length, String, Bool, true, false, not, ◌||◌, ◌≡◌, refl, ap, sym, subst, ◌∙◌,
  ◌&&◌, inl, inr, Option, none, some, List, Bool-cases, leb, ◌==◌, string_eq, if◌then◌else◌, arith,
}
use desktop_worker.Errors.{action_validation, value_error, Result, ok, err, Result-cases}
use desktop_worker.Value.{Value, Dict, dict}
use desktop_worker.Dict.{lookup}
use desktop_worker.Schema.Results.{ActionResult}
use desktop_worker.Schema.Actions.Parse.{Action, parse_action}
use desktop_worker.Loop.Observation.{Observation}
use desktop_worker.Loop.Step.{PlannedStep}
use desktop_worker.Planner.Answer.{parse_planner_output}
use desktop_worker.Planner.Plan.{
  Settings, ClaudeCliPlanner, accept, go_on, plan_action, plan_answer, plan_output, plan,
  vision_path, activate_vision, drew_last, ask_for, next_step, replan, is_done,
}

-- What a plan leaves of the counts of `p`.
abbrev Keeps :
    {M : Type 0} → ClaudeCliPlanner M → Result (Option PlannedStep × ClaudeCliPlanner M) → Type 0
Keeps p (err e) = Unit
Keeps p (ok (step, q)) =
    (q.vision_steps_used ≡ p.vision_steps_used) × (q.vision_active ≡ p.vision_active)

module _ {M : Type 0} (cfg : Settings M) where
  accept-Keeps :
      (obj : Dict) (r : Result Action) (p : ClaudeCliPlanner M) → Keeps p (accept cfg obj r p)
  unfolding accept
  accept-Keeps obj (ok a) p = (refl, refl)
  accept-Keeps obj (err (action_validation i)) p = (refl, refl)
  accept-Keeps obj (err _) p = tt

  go_on-Keeps :
      (obj : Dict) (r : Result (Option Dict)) (p : ClaudeCliPlanner M) → Keeps p (go_on cfg obj r p)
  unfolding go_on
  go_on-Keeps obj (err e) p = tt
  go_on-Keeps obj (ok none) p = (refl, refl)
  go_on-Keeps obj (ok (some doc)) p = accept-Keeps obj (parse_action (dict doc)) p

  plan_action-Keeps :
      (obj : Dict) (o : Option Value) (obs : Observation) (p : ClaudeCliPlanner M)
      → Keeps p (plan_action cfg obj o obs p)
  unfolding plan_action
  plan_action-Keeps obj (some (dict action)) obs p = go_on-Keeps obj _ p
  plan_action-Keeps obj _ obs p = (refl, refl)

  plan_output-Keeps :
      (r : Result Dict) (obs : Observation) (p : ClaudeCliPlanner M)
      → Keeps p (plan_output cfg r obs p)
  unfolding plan_output plan_answer
  plan_output-Keeps (err (value_error m)) obs p = (refl, refl)
  plan_output-Keeps (err _) obs p = tt
  plan_output-Keeps (ok obj) obs p = elim (Bool-cases (is_done cfg obj)) [
    | inl done ↦ rw (done, Keeps) (refl, refl)
    | inr more ↦ rw (more, Keeps) (plan_action-Keeps obj (lookup "action" obj) obs _)
  ]

  plan-Keeps :
      (prompt : String) (obs : Observation) (p : ClaudeCliPlanner M)
      → Keeps p (plan cfg prompt obs p)
  unfolding plan
  plan-Keeps prompt obs p = elim (Result-cases (cfg.ask p.asked prompt).0) [
    | inl (e, failed) ↦ rw (failed, Keeps) (refl, refl)
    | inr (raw, replied) ↦
        rw (replied, Keeps) (plan_output-Keeps (parse_planner_output cfg.py raw) obs _)
  ]

  -- The planner behind the decision to send `shot`, or nothing where it is empty.
  abbrev pub charged : String → ClaudeCliPlanner M → ClaudeCliPlanner M
  charged shot p =
      if shot == ""
      then record p { vision_active = false }
      else record p { vision_active = true; vision_steps_used = p.vision_steps_used + 1 }

  -- When a screenshot may be sent.
  abbrev pub MaySend : Observation → Bool → ClaudeCliPlanner M → String → Type 0
  MaySend obs drew_before p shot =
      (cfg.vision ≡ true)
      × (p.vision_steps_used + 1 ≤ cfg.max_vision_steps)
      × (obs.screenshot_ref ≡ some shot)
      × (cfg.is_image shot ≡ true)
      × (drew_before ≡ false → length obs.elements < cfg.vision_threshold)

  -- The counts in the planner that an answer leaves, if it leaves one.
  abbrev pub CountsAre : ℕ → Bool → Result (Option PlannedStep × ClaudeCliPlanner M) → Type 0
  CountsAre used active (err e) = Unit
  CountsAre used active (ok (step, q)) = (q.vision_steps_used ≡ used) × (q.vision_active ≡ active)

  -- How the AI was asked for the step `out`: with the prompt that has `shot` in it.
  pub record Asked (note : String) (obs : Observation) (history : List ActionResult)
      (p : ClaudeCliPlanner M) (out : Result (Option PlannedStep × ClaudeCliPlanner M))
      : Type 0 where
    pub shot : String
    pub asked_with :
        out
        ≡ plan cfg
            (cfg.prompt obs history note (cfg.crop_for_sketch shot history))
            obs
            (charged shot p)
    pub allowed : (shot == "") ≡ false → MaySend obs (drew_last cfg history) p shot
    pub counted :
        CountsAre (p.vision_steps_used + (if shot == "" then 0 else 1)) (not (shot == "")) out

  abbrev picked : Bool → Bool → Option String → String
  picked closed dense o =
      if closed
      then ""
      else if dense
      then ""
      else elim o [ none ↦ "" | some ref ↦ if cfg.is_image ref then ref else "" ]

  picked_sent :
      (closed dense : Bool) (o : Option String)
      → (picked closed dense o == "") ≡ false
      → (closed ≡ false)
        × (dense ≡ false)
        × (o ≡ some (picked closed dense o))
        × (cfg.is_image (picked closed dense o) ≡ true)
  picked_sent true dense o h = absurd (cc)
  picked_sent false true o h = absurd (cc)
  picked_sent false false none h = absurd (cc)
  picked_sent false false (some ref) h = elim (Bool-cases (cfg.is_image ref)) [
    | inl e ↦ rw e (refl, refl, refl, e)
    | inr e ↦ absurd (no_image e h)
  ]
    where
      no_image : cfg.is_image ref ≡ false → (picked false false (some ref) == "") ≡ false → ⊥
      no_image e = rw e (λ h. cc)

  vision_path-MaySend :
      (obs : Observation) (force : Bool) (p : ClaudeCliPlanner M)
      → (vision_path cfg obs force p == "") ≡ false
      → MaySend obs force p (vision_path cfg obs force p)
  unfolding vision_path
  vision_path-MaySend obs force p sent =
      let (open_now, thin, there, image) =
        picked_sent (not cfg.vision || leb cfg.max_vision_steps p.vision_steps_used)
          (not force && leb cfg.vision_threshold (length obs.elements)) obs.screenshot_ref sent in
      (ground arith, ground arith, there, image, λ calm. ground arith)

  activate_vision-charged :
      (obs : Observation) (force : Bool) (p : ClaudeCliPlanner M)
      → activate_vision cfg obs force p
        ≡ (vision_path cfg obs force p, charged (vision_path cfg obs force p) p)
  unfolding activate_vision
  activate_vision-charged obs force p = elim (Bool-cases (vision_path cfg obs force p == "")) [
    | inl e ↦ rw e refl
    | inr e ↦ rw e refl
  ]

  charged_counts :
      (shot : String) (p : ClaudeCliPlanner M)
      → ((charged shot p).vision_steps_used ≡ p.vision_steps_used + (if shot == "" then 0 else 1))
        × ((charged shot p).vision_active ≡ not (shot == ""))
  charged_counts shot p = elim (Bool-cases (shot == "")) [
    | inl e ↦ rw e (omega arith, refl)
    | inr e ↦ rw e (refl, refl)
  ]

  charged-CountsAre :
      (shot : String) (p : ClaudeCliPlanner M)
      (r : Result (Option PlannedStep × ClaudeCliPlanner M))
      → Keeps (charged shot p) r
      → CountsAre (p.vision_steps_used + (if shot == "" then 0 else 1)) (not (shot == "")) r
  charged-CountsAre shot p (err e) k = tt
  charged-CountsAre shot p (ok (step, q)) (used, active) =
      let (one, on) = charged_counts shot p in (used ∙ one, active ∙ on)

  ask_for-Asked :
      (note : String) (obs : Observation) (history : List ActionResult) (p : ClaudeCliPlanner M)
      → Asked note obs history p (ask_for cfg note obs history p)
  ask_for-Asked note obs history p = record {
    shot = vision_path cfg obs (drew_last cfg history) p;
    asked_with = same;
    allowed = vision_path-MaySend obs (drew_last cfg history) p;
    counted = charged-CountsAre (vision_path cfg obs (drew_last cfg history) p) p _ (
        subst (Keeps (charged (vision_path cfg obs (drew_last cfg history) p) p)) (sym same)
          (plan-Keeps _ obs (charged _ p)));
  }
    where
      same : ask_for cfg note obs history p ≡ (
          let shot = vision_path cfg obs (drew_last cfg history) p in
          plan cfg
            (cfg.prompt obs history note (cfg.crop_for_sketch shot history))
            obs
            (charged shot p))
      same =
          ap
            (λ (o : String × ClaudeCliPlanner M).
              plan cfg (cfg.prompt obs history note (cfg.crop_for_sketch o.0 history)) obs o.1)
            (activate_vision-charged obs (drew_last cfg history) p)

  -- The AI is asked with a prompt made of the texts of the step and of one screenshot, or of none (an
  -- empty path). A screenshot is only in it with vision on and within the limit of `max_vision_steps`;
  -- it is then the one of the observation, an image file, and the elements are fewer than the
  -- threshold unless the last action drew. It counts as one vision step, and no screenshot as none.
  pub planner-Counted :
      (obs : Observation) (history : List ActionResult) (failed : PlannedStep)
      (p : ClaudeCliPlanner M)
      → Asked "" obs history p (next_step cfg obs history p)
        × Asked (cfg.note_of failed) obs history p (replan cfg failed obs history p)
  unfolding next_step replan
  planner-Counted obs history failed p =
      (ask_for-Asked "" obs history p, ask_for-Asked (cfg.note_of failed) obs history p)
