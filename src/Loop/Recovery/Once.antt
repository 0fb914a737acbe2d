-- ===== src/Loop/Recovery/Once.antt =====
-- src/desktop_worker/loop/task_loop.py: an action that is not safe to repeat.
use mathlib.Core.Path.{fun_ext}
use desktop_worker.Prelude.{ℕ, zero, suc, ◌≡◌, refl, ap, ◌∙◌, false, none, List}
use desktop_worker.Schema.Results.{ActionResult}
use desktop_worker.Loop.Step.{TaskLoop, Scene, PlannedStep}
use desktop_worker.Loop.Recovery.{
  Tried, Out, attempt, retry_loop, replan_loop, recover_loop, give_up, is_retryable, or_revise,
}

module _ {S : Type 0} (loop : TaskLoop S) where
  attempt_ext :
      (f g : Tried → Scene S → Out S) (start : ℕ) (step : PlannedStep) (attempts : ℕ) (s : Scene S)
      → ((t : Tried) (s : Scene S) → f t s ≡ g t s)
      → attempt loop f start step attempts s ≡ attempt loop g start step attempts s
  attempt_ext f g start step attempts s h =
      ap (λ r. attempt loop r start step attempts s) (fun_ext λ t. fun_ext λ s'. h t s')

  retry_loop_once :
      (recover : Tried → Scene S → Out S) (start left : ℕ) (step : PlannedStep) (s : Scene S)
      → is_retryable step.action ≡ false
      → retry_loop loop recover start left step 0 s ≡ attempt loop recover start step 0 s
  unfolding retry_loop
  retry_loop_once recover start zero step s h = refl
  retry_loop_once recover start (suc left) step s h =
      attempt_ext _ _ start step 0 s λ t s'. rw h refl

  replan_loop_once :
      (history : List ActionResult) (start left : ℕ) (step : PlannedStep) (s : Scene S)
      → is_retryable step.action ≡ false
      → loop.planner.replan ≡ none
      → replan_loop loop history start left step s ≡ attempt loop (give_up loop) start step 0 s
  unfolding replan_loop
  replan_loop_once history start zero step s h p = retry_loop_once _ start _ step s h
  replan_loop_once history start (suc left) step s h p =
      retry_loop_once _ start _ step s h
      ∙ attempt_ext (or_revise loop (replan_loop loop history start left) history) (give_up loop)
          start step 0 s λ t s'. unfold or_revise in rw p refl

  -- An action that is not safe to repeat is executed once, for a planner that does not revise its
  -- plans: the inner loop is then one attempt, after which it gives up.
  pub recover_loop_once :
      (history : List ActionResult) (start : ℕ) (step : PlannedStep) (s : Scene S)
      → is_retryable step.action ≡ false
      → loop.planner.replan ≡ none
      → recover_loop loop history start step s ≡ attempt loop (give_up loop) start step 0 s
  recover_loop_once history start step s =
      replan_loop_once history start loop.limits.max_retries step s
