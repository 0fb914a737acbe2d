-- ===== src/Loop/Recovery/Bounds.antt =====
-- src/desktop_worker/loop/task_loop.py: what the inner loop of `run` leaves.
use desktop_worker.Prelude.{
  ℕ, zero, suc, ◌+◌, ◌≤◌, ◌≡◌, ◌⊎◌, inl, inr, refl, subst, Bool, true, false, ◌&&◌, Option, none,
  some, List, arith, if◌then◌else◌,
}
use desktop_worker.Errors.{Result, ok, err}
use desktop_worker.Schema.Results.{ActionResult}
use desktop_worker.Session.{Outcome, done, raised, hang}
use desktop_worker.Actions.Executor.Execute.{execute}
use desktop_worker.Loop.Step.{TaskLoop, Scene, PlannedStep}
use desktop_worker.Loop.Verify.{verify}
use desktop_worker.Loop.Recovery.{
  Tried, Out, act, attempt, retry_loop, replan_loop, recover_loop, give_up, is_retryable, passes,
  is_expired, try_replan, or_revise,
}

-- What the inner loop says of its last attempt.
pub record Sensible (limit : ℕ) (t : Tried) : Type 0 where
  -- retries are within the limit, and only of an action that is safe to repeat
  pub bounded : t.attempts ≤ limit
  pub retried : (t.attempts ≡ 0) ⊎ (is_retryable t.step.action ≡ true)
  -- a step is good when its action succeeded and its expected outcome, if any, was seen
  pub judged : t.ok ≡ (t.result.success && passes t.verification)
  pub timely : t.ok ≡ true → t.time_exceeded ≡ false

abbrev In : ℕ → Outcome Tried → Type 0
In limit (done t) = Sensible limit t
In limit _ = Unit

record Lands {S : Type 0} (limit : ℕ) (out : Out S) : Type 0 where
  pub at : In limit out.0

-- A way to go on that keeps what the last attempt says.
abbrev Keeps : {S : Type 0} → ℕ → (Tried → Scene S → Out S) → Type 0
Keeps limit recover = (t : Tried) (s : Scene _) → Sensible limit t → Lands limit (recover t s)

module _ {S : Type 0} (limit : ℕ) where
  Lands-if :
      (b : Bool) (x y : Out S)
      → (b ≡ true → Lands limit x)
      → (b ≡ false → Lands limit y)
      → Lands limit (if b then x else y)
  Lands-if true x y h k = h refl
  Lands-if false x y h k = k refl

  Lands-outcome :
      {A : Type 0} (r : Outcome A) (s : Scene S) (f : A → Out S)
      → ((a : A) → Lands limit (f a))
      → Lands {S = S} limit (elim r [ done a ↦ f a | raised e ↦ (raised e, s) | hang ↦ (hang, s) ])
  Lands-outcome (done a) s f h = h a
  Lands-outcome (raised e) s f h = record { at = tt }
  Lands-outcome hang s f h = record { at = tt }

  Lands-result :
      {A : Type 0} (r : Result A) (s : Scene S) (f : A → Out S)
      → ((a : A) → Lands limit (f a))
      → Lands {S = S} limit (elim r [ ok a ↦ f a | err e ↦ (raised e, s) ])
  Lands-result (ok a) s f h = h a
  Lands-result (err e) s f h = record { at = tt }

  Lands-option :
      {A : Type 0} (r : Option A) (x : Out S) (f : A → Out S)
      → Lands limit x
      → ((a : A) → Lands limit (f a))
      → Lands {S = S} limit (elim r [ none ↦ x | some a ↦ f a ])
  Lands-option none x f h k = h
  Lands-option (some a) x f h k = k a

  Lands-tried :
      (r : Outcome Tried) (s : Scene S) (f : Tried → Out S)
      → In limit r
      → ((t : Tried) → Sensible limit t → Lands limit (f t))
      → Lands {S = S} limit (elim r [ done t ↦ f t | raised e ↦ (raised e, s) | hang ↦ (hang, s) ])
  Lands-tried (done t) s f a h = h t a
  Lands-tried (raised e) s f a h = record { at = tt }
  Lands-tried hang s f a h = record { at = tt }

module _ {S : Type 0} (loop : TaskLoop S) (limit : ℕ) where
  Lands-act :
      (step : PlannedStep) (attempts : ℕ) (s : Scene S)
      → attempts ≤ limit
      → (attempts ≡ 0) ⊎ (is_retryable step.action ≡ true)
      → Lands limit (act loop step attempts s)
  unfolding act
  Lands-act step attempts s b r =
      Lands-outcome limit (execute loop.executor step.action s.world).0 _ _ λ result.
        Lands-result limit (verify loop step _ result _) _ _ λ verification. record {
          at = record { bounded = b; retried = r; judged = refl; timely = λ h. refl };
        }

  Lands-attempt :
      (recover : Tried → Scene S → Out S) (start : ℕ) (step : PlannedStep) (attempts : ℕ)
      (s : Scene S)
      → attempts ≤ limit
      → (attempts ≡ 0) ⊎ (is_retryable step.action ≡ true)
      → Keeps limit recover
      → Lands limit (attempt loop recover start step attempts s)
  unfolding attempt
  Lands-attempt recover start step attempts s b r k =
      Lands-tried limit _ _ _ (Lands-act step attempts s b r).at λ t fine.
        Lands-if limit t.ok _ _ (λ h. record { at = fine })
          λ bad.
            Lands-if limit (is_expired loop start _) _ _ (λ h. late t fine bad) (λ h. k t _ fine)
    where
      late :
          (t : Tried) {s : Scene S}
          → Sensible limit t
          → t.ok ≡ false
          → Lands limit (done (record t { time_exceeded = true }), s)
      late t fine bad = record {
        at = record {
          bounded = fine.bounded;
          retried = fine.retried;
          judged = fine.judged;
          timely = λ h. absurd (cc (bad, h));
        };
      }

  Lands-retry_loop :
      (recover : Tried → Scene S → Out S) (start left : ℕ) (step : PlannedStep) (attempts : ℕ)
      (s : Scene S)
      → attempts + left ≤ limit
      → (attempts ≡ 0) ⊎ (is_retryable step.action ≡ true)
      → Keeps limit recover
      → Lands limit (retry_loop loop recover start left step attempts s)
  unfolding retry_loop
  Lands-retry_loop recover start zero step attempts s b r k =
      Lands-attempt recover start step attempts s (omega (arith, b)) r k
  Lands-retry_loop recover start (suc left) step attempts s b r k =
      Lands-attempt _ start step attempts s (omega (arith, b)) r λ t s' fine.
        Lands-if limit (is_retryable step.action) _ _
          (λ h.
            Lands-retry_loop recover start left step (attempts + 1) _ (omega (arith, b)) (inr h) k)
          (λ h. k t s' fine)

  Lands-replan_loop :
      (history : List ActionResult) (start left : ℕ) (step : PlannedStep) (s : Scene S)
      → loop.limits.max_retries ≤ limit
      → Lands limit (replan_loop loop history start left step s)
  unfolding replan_loop or_revise
  Lands-replan_loop history start zero step s b =
      Lands-retry_loop (give_up loop) start loop.limits.max_retries step 0 s (omega (arith, b))
        (inl refl) λ t s' fine. record { at = fine }
  Lands-replan_loop history start (suc left) step s b =
      Lands-retry_loop _ start loop.limits.max_retries step 0 s (omega (arith, b)) (inl refl)
        λ t s' fine.
          Lands-option limit (try_replan loop t.step t.after history s').0 _ _
            (record { at = fine }) λ step'. Lands-replan_loop history start left step' _ b

module _ {S : Type 0} (loop : TaskLoop S) where
  -- What the recovery of a step leaves: its retries are within the limit, and only of an action that
  -- is safe to repeat; the step is good exactly when its last action succeeded and its expected
  -- outcome was seen; and a good step is not one that ran out of time.
  pub recover_loop-Sensible :
      (history : List ActionResult) (start : ℕ) (step : PlannedStep) (s : Scene S) (t : Tried)
      → (recover_loop loop history start step s).0 ≡ done t
      → Sensible loop.limits.max_retries t
  recover_loop-Sensible history start step s t h =
      subst (In loop.limits.max_retries) h
        (Lands-replan_loop loop loop.limits.max_retries history start loop.limits.max_retries step s
          (omega arith)).at
