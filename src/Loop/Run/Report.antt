-- ===== src/Loop/Run/Report.antt =====
-- src/desktop_worker/loop/task_loop.py: what the report of `run` counts.
use desktop_worker.Prelude.{
  ℕ, zero, suc, ◌+◌, ◌≤◌, String, ◌≡◌, ◌⊎◌, inl, inr, refl, subst, Bool, true, false, not, Option,
  none, some, List, [], ◌∷◌, ◌++◌, length, length-append, arith, if◌then◌else◌, ◌==◌, string_eq,
  ◌&&◌, leb,
}
use desktop_worker.Errors.{Error}
use desktop_worker.Schema.Results.{ActionResult}
use desktop_worker.Session.{Outcome, done, raised, hang, check_estop}
use desktop_worker.Loop.Observation.{Observation, obs_signature}
use desktop_worker.Loop.Step.{TaskLoop, Scene, PlannedStep, StepRecord, TaskReport}
use desktop_worker.Loop.Recovery.{Tried, recover_loop, is_expired}
use desktop_worker.Loop.Progress.{
  Progress, Stop, stopped, Turn, goes_on, leaves, count_stale, advance, at_start,
}
use desktop_worker.Loop.Run.{
  turn, turns, run, observe_and_plan, plan, perform_step, finish, fail_step, without_step, ask,
  report_of,
}
use desktop_worker.Value.{Value}

abbrev pub count_ok : List StepRecord → ℕ
count_ok [] = 0
count_ok (r ∷ rs) = if r.success then suc (count_ok rs) else count_ok rs

count_ok-append :
    (rs : List StepRecord) (r : StepRecord)
    → count_ok (rs ++ (r ∷ [])) ≡ count_ok rs + count_ok (r ∷ [])
count_ok-append [] r = omega arith
count_ok-append (q ∷ rs) r = grind (arith, count_ok-append rs r)

-- After `n` good steps.
record Going (n : ℕ) (p : Progress) : Type 0 where
  pub steps : length p.records ≡ n
  pub good : count_ok p.records ≡ n
  pub successes : p.successes ≡ n
  pub failures : p.failures ≡ 0

-- After `n` good steps and a bad one.
record Failed (n : ℕ) (stop : Stop) (p : Progress) : Type 0 where
  pub steps : length p.records ≡ n + 1
  pub good : count_ok p.records ≡ n
  pub successes : p.successes ≡ n
  pub failures : p.failures ≡ 1
  pub completed : stop.completed ≡ false
  pub halted : stop.halted ≡ false

-- A turn after `n` good steps.
abbrev After : ℕ → Outcome Turn → Type 0
After n (done (goes_on p)) = Going (n + 1) p
After n (done (leaves stop p)) = Going n p ⊎ Failed n stop p
After n _ = Unit

Going-advance :
    (n : ℕ) (repr : Value → String) (t : Tried) (r : ActionResult) (p : Progress)
    → Going n p
    → t.ok ≡ true
    → Going (n + 1) (advance repr t r p)
unfolding advance
Going-advance n repr t r p g e = record {
  steps = grind (arith, length-append, g.steps);
  good = grind (arith, count_ok-append, g.good, e);
  successes = grind (arith, g.successes, e);
  failures = grind (arith, g.failures, e);
}

Failed-advance :
    (n : ℕ) (repr : Value → String) (t : Tried) (r : ActionResult) (reason : String) (p : Progress)
    → Going n p
    → t.ok ≡ false
    → Failed n (stopped reason) (advance repr t r p)
unfolding advance
Failed-advance n repr t r reason p g e = record {
  steps = grind (arith, length-append, g.steps);
  good = grind (arith, count_ok-append, g.good, e);
  successes = grind (arith, g.successes, e);
  failures = grind (arith, g.failures, e);
  completed = refl;
  halted = refl;
}

record Ends {S : Type 0} (n : ℕ) (out : Outcome Turn × Scene S) : Type 0 where
  pub at : After n out.0

module _ {S : Type 0} (n : ℕ) where
  Ends-if :
      (b : Bool) (x y : Outcome Turn × Scene S)
      → (b ≡ true → Ends n x)
      → (b ≡ false → Ends n y)
      → Ends n (if b then x else y)
  Ends-if true x y h k = h refl
  Ends-if false x y h k = k refl

  Ends-bind :
      {A : Type 0} (r : Outcome A) (s : Scene S) (f : A → Outcome Turn × Scene S)
      → ((a : A) → Ends n (f a))
      → Ends {S = S} n (elim r [ done a ↦ f a | raised e ↦ (raised e, s) | hang ↦ (hang, s) ])
  Ends-bind (done a) s f h = h a
  Ends-bind (raised e) s f h = record { at = tt }
  Ends-bind hang s f h = record { at = tt }

  Ends-option :
      {A : Type 0} (r : Option A) (x : Outcome Turn × Scene S) (f : A → Outcome Turn × Scene S)
      → Ends n x
      → ((a : A) → Ends n (f a))
      → Ends {S = S} n (elim r [ none ↦ x | some a ↦ f a ])
  Ends-option none x f h k = h
  Ends-option (some a) x f h k = k a

  left_at :
      {stop : Stop} {p : Progress} {s : Scene S} → Going n p → Ends n (done (leaves stop p), s)
  left_at g = record { at = inl g }

Going-count_stale :
    (n : ℕ) (guard : Bool) (sig : String) (p : Progress)
    → Going n p
    → Going n (count_stale guard sig p)
unfolding count_stale
Going-count_stale n guard sig p g = record {
  steps = ground (arith, g.steps);
  good = ground (arith, g.good);
  successes = ground (arith, g.successes);
  failures = ground (arith, g.failures);
}

module _ {S : Type 0} (loop : TaskLoop S) (n : ℕ) where
  Ends-fail_step :
      (t : Tried) (r : ActionResult) (p : Progress) (s : Scene S)
      → Going n p
      → t.ok ≡ false
      → Ends n (fail_step loop t (advance loop.executor.repr t r p) s)
  unfolding fail_step
  Ends-fail_step t r p s g e =
      Ends-if n t.time_exceeded _ _ (λ h. failed _)
        λ h. Ends-if n (not t.result.success) _ _ (λ k. failed _) (λ k. failed _)
    where
      failed :
          (reason : String) {s : Scene S}
          → Ends n (done (leaves (stopped reason) (advance loop.executor.repr t r p)), s)
      failed reason = record { at = inr (Failed-advance n loop.executor.repr t r reason p g e) }

  Ends-finish :
      (sig : String) (p : Progress) (t : Tried) (s : Scene S)
      → Going n p
      → Ends n (finish loop sig p t s)
  unfolding finish
  Ends-finish sig p t s g =
      Ends-if n t.ok _ _ (λ e. record { at = Going-advance n loop.executor.repr t _ p g e })
        λ e. Ends-fail_step t _ p _ g e

  Ends-perform_step :
      (start : ℕ) (before : Observation) (p : Progress) (step : PlannedStep) (s : Scene S)
      → Going n p
      → Ends n (perform_step loop start before p step s)
  unfolding perform_step
  Ends-perform_step start before p step s g =
      Ends-bind n (recover_loop loop p.history start step _).0 _ _
        λ t. Ends-finish (obs_signature before) p t _ g

  Ends-without_step : (p : Progress) (s : Scene S) → Going n p → Ends n (without_step loop p s)
  unfolding without_step
  Ends-without_step p s g =
      Ends-if n (loop.planner.last_outcome s.mind == "done") _ _ (λ h. left_at n g) λ h. left_at n g

  Ends-plan :
      (start : ℕ) (before : Observation) (p : Progress) (s : Scene S)
      → Going n p
      → Ends n (plan loop start before p s)
  unfolding plan
  Ends-plan start before p s g =
      Ends-option n (ask loop 2 0 before p.history s).0 _ _ (Ends-without_step p _ g)
        λ step. Ends-perform_step start before p step _ g

  Ends-observe_and_plan :
      (start : ℕ) (p : Progress) (s : Scene S)
      → Going n p
      → Ends n (observe_and_plan loop start p s)
  unfolding observe_and_plan
  Ends-observe_and_plan start p s g =
      Ends-if n (loop.stall_guard && leb 6 _) _ _ (λ h. left_at n (Going-count_stale n _ _ p g))
        λ h. Ends-plan start _ _ _ (Going-count_stale n _ _ p g)

  Ends-guard :
      (r : Outcome (Unit {0})) (s : Scene S) (f : Unit {0} → Outcome Turn × Scene S)
      (stop : Error → Stop) (p : Progress) (noted : Error → Scene S)
      → Going n p
      → ((u : Unit {0}) → Ends n (f u))
      → Ends {S = S} n (elim r [
        | done u ↦ f u
        | raised e ↦ (done (leaves (stop e) p), noted e)
        | hang ↦ (hang, s)
      ])
  Ends-guard (done u) s f stop p noted g h = h u
  Ends-guard (raised e) s f stop p noted g h = left_at n g
  Ends-guard hang s f stop p noted g h = record { at = tt }

  Ends-turn : (start : ℕ) (p : Progress) (s : Scene S) → Going n p → Ends n (turn loop start p s)
  unfolding turn
  Ends-turn start p s g =
      Ends-if n (is_expired loop start (loop.now s.reads)) _ _ (λ h. left_at n g)
        λ h. Ends-guard (check_estop s.world).0 _ _ _ p _ g λ u. Ends-observe_and_plan start p _ g

-- The counts of a report.
record Counted (limit : ℕ) (stop : Stop) (p : Progress) : Type 0 where
  pub bounded : length p.records ≤ limit
  pub successes : p.successes ≡ count_ok p.records
  pub total : p.successes + p.failures ≡ length p.records
  pub failures : p.failures ≤ 1
  pub clean : (stop.completed ≡ true) ⊎ (stop.halted ≡ true) → p.failures ≡ 0

Going-Counted :
    (n limit : ℕ) (stop : Stop) (p : Progress) → n ≤ limit → Going n p → Counted limit stop p
Going-Counted n limit stop p b g = record {
  bounded = omega (arith, g.steps, b);
  successes = omega (arith, g.good, g.successes);
  total = omega (arith, g.steps, g.successes, g.failures);
  failures = omega (arith, g.failures);
  clean = λ h. g.failures;
}

After-Counted :
    (n limit : ℕ) (stop : Stop) (p : Progress)
    → n + 1 ≤ limit
    → Going n p ⊎ Failed n stop p
    → Counted limit stop p
After-Counted n limit stop p b (inl g) = Going-Counted n limit stop p (omega (arith, b)) g
After-Counted n limit stop p b (inr g) = record {
  bounded = omega (arith, g.steps, b);
  successes = omega (arith, g.good, g.successes);
  total = omega (arith, g.steps, g.successes, g.failures);
  failures = omega (arith, g.failures);
  clean = λ h. elim h [ inl c ↦ absurd (cc (g.completed)) | inr c ↦ absurd (cc (g.halted)) ];
}

module _ {S : Type 0} (loop : TaskLoop S) where
  abbrev CountedIn : ℕ → Outcome (Stop × Progress) → Type 0
  CountedIn limit (done (stop, p)) = Counted limit stop p
  CountedIn limit _ = Unit

  next_turn :
      (start n left limit : ℕ) (r : Outcome Turn) (s : Scene S)
      → n + suc left ≤ limit
      → After n r
      → ((p : Progress) → Going (n + 1) p → CountedIn limit (turns loop start left p s).0)
      → let out : Outcome (Stop × Progress) × Scene S = elim r [
        | done (goes_on p') ↦ turns loop start left p' s
        | done (leaves stop p') ↦ (done (stop, p'), s)
        | raised e ↦ (raised e, s)
        | hang ↦ (hang, s)
      ] in
        CountedIn limit out.0
  next_turn start n left limit (done (goes_on p)) s b a h = h p a
  next_turn start n left limit (done (leaves stop p)) s b a h =
      After-Counted n limit stop p (omega (arith, b)) a
  next_turn start n left limit (raised e) s b a h = tt
  next_turn start n left limit hang s b a h = tt

  turns-Counted :
      (start n left limit : ℕ) (p : Progress) (s : Scene S)
      → n + left ≤ limit
      → Going n p
      → CountedIn limit (turns loop start left p s).0
  unfolding turns
  turns-Counted start n zero limit p s b g = Going-Counted n limit _ p (omega (arith, b)) g
  turns-Counted start n (suc left) limit p s b g =
      next_turn start n left limit (turn loop start p s).0 (turn loop start p s).1 b
        (Ends-turn loop n start p s g).at
        λ p' g'. turns-Counted start (n + 1) left limit p' _ (omega (arith, b)) g'

-- What the report of a run says of its steps.
pub record Adds (limit : ℕ) (r : TaskReport) : Type 0 where
  pub steps : r.steps_run ≡ length r.step_records
  pub bounded : r.steps_run ≤ limit
  pub successes : r.successes ≡ count_ok r.step_records
  pub total : r.successes + r.failures ≡ r.steps_run
  pub failures : r.failures ≤ 1
  pub clean : (r.completed ≡ true) ⊎ (r.halted ≡ true) → r.failures ≡ 0

abbrev AddsIn : ℕ → Outcome TaskReport → Type 0
AddsIn limit (done r) = Adds limit r
AddsIn limit _ = Unit

module _ {S : Type 0} (loop : TaskLoop S) where
  report :
      (limit : ℕ) (out : Outcome (Stop × Progress)) (s : Scene S) (r : TaskReport)
      (noted : Stop → Progress → Scene S)
      → CountedIn loop limit out
      → let end : Outcome TaskReport × Scene S = elim out [
        | done (stop, p) ↦ (done (report_of loop stop p), noted stop p)
        | raised e ↦ (raised e, s)
        | hang ↦ (hang, s)
      ] in
        end.0 ≡ done r → Adds limit r
  unfolding report_of
  report limit (done (stop, p)) s r noted c h = subst (AddsIn limit) h (record {
    steps = refl;
    bounded = c.bounded;
    successes = c.successes;
    total = c.total;
    failures = c.failures;
    clean = c.clean;
  })
  report limit (raised e) s r noted c h = absurd (cc)
  report limit hang s r noted c h = absurd (cc)

  -- The report of a task counts its steps: their number is within the limit on actions, the two
  -- counters are those of the good and of the bad steps, at most one step is bad, and none is when
  -- the task is completed or halted.
  pub run-Adds :
      (s : Scene S) (r : TaskReport)
      → (run loop s).0 ≡ done r
      → Adds loop.limits.max_actions_per_task r
  unfolding run
  run-Adds s r h =
      report loop.limits.max_actions_per_task _ _ r _
        (turns-Counted loop _ 0 loop.limits.max_actions_per_task _ at_start _ (omega arith)
          (record { steps = refl; good = refl; successes = refl; failures = refl }))
        h
