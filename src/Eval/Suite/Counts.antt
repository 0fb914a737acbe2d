-- ===== src/Eval/Suite/Counts.antt =====
-- src/desktop_worker/eval/runner.py: what the summaries of a suite count.
use desktop_worker.Prelude.{
  String, Bool-cases, inl, inr, ℕ, zero, suc, ◌+◌, ◌≤◌, ◌≡◌, refl, subst, Bool, true, false, List,
  [], ◌∷◌, ◌++◌, length, length-append, All, arith, if◌then◌else◌, ltb,
}
use desktop_worker.Prelude.Int.{ℤ}
use desktop_worker.Errors.{Result}
use desktop_worker.Value.{Value}
use desktop_worker.Actions.Executor.Dispatch.{Executor}
use desktop_worker.Session.{Outcome, done, raised, hang}
use desktop_worker.Eval.Trial.{Bench, EvalTask, EvalResult, run_trial}
use desktop_worker.Eval.Suite.{
  TaskSummary, SuiteResult, Tally, add_trial, add_task, run_trials, run_tasks, run_suite, stopped,
  start_tally,
}

-- `sum(s.trials for s in summaries)` and `sum(s.passes for s in summaries)`
abbrev pub all_trials : List TaskSummary → ℕ
all_trials [] = 0
all_trials (s ∷ ss) = s.trials + all_trials ss

abbrev pub all_passes : List TaskSummary → ℕ
all_passes [] = 0
all_passes (s ∷ ss) = s.passes + all_passes ss

abbrev pub passed_results : List EvalResult → ℕ
passed_results [] = 0
passed_results (r ∷ rs) = if r.passed then suc (passed_results rs) else passed_results rs

passed_results-append :
    (rs : List EvalResult) (r : EvalResult)
    → passed_results (rs ++ (r ∷ [])) ≡ passed_results rs + passed_results (r ∷ [])
passed_results-append [] r = omega arith
passed_results-append (q ∷ rs) r = grind (arith, passed_results-append rs r)

all_trials-append :
    (ss : List TaskSummary) (s : TaskSummary)
    → all_trials (ss ++ (s ∷ [])) ≡ all_trials ss + s.trials
all_trials-append [] s = omega arith
all_trials-append (q ∷ ss) s = omega (arith, all_trials-append ss s)

all_passes-append :
    (ss : List TaskSummary) (s : TaskSummary)
    → all_passes (ss ++ (s ∷ [])) ≡ all_passes ss + s.passes
all_passes-append [] s = omega arith
all_passes-append (q ∷ ss) s = omega (arith, all_passes-append ss s)

-- The trials of one task, of which at most `limit` run, after `n` results with `p` passes.
record Tallied (limit n p : ℕ) (t : Tally) : Type 0 where
  pub results : length t.results ≡ n + t.summary.trials
  pub passes : passed_results t.results ≡ p + t.summary.passes
  pub fewer : t.summary.passes ≤ t.summary.trials
  pub bounded : t.summary.trials ≤ limit

Tallied-add :
    (limit n p : ℕ) (r : EvalResult) (t : Tally)
    → t.summary.trials + 1 ≤ limit
    → Tallied limit n p t
    → Tallied limit n p
        (record t { summary = add_trial r t.summary; results = t.results ++ (r ∷ []) })
unfolding add_trial
Tallied-add limit n p r t b h = record {
  results = grind (arith, length-append t.results (r ∷ []), h.results);
  passes = grind (arith, passed_results-append t.results r, h.passes);
  fewer = grind (arith, h.fewer);
  bounded = b;
}

-- A summary of a task that ran at least once.
pub record Fair (limit : ℕ) (s : TaskSummary) : Type 0 where
  pub ran : 1 ≤ s.trials
  pub bounded : s.trials ≤ limit
  pub fewer : s.passes ≤ s.trials

-- What the summaries of a suite add up to.
pub record Sums (limit : ℕ) (suite : SuiteResult) : Type 0 where
  pub trials : all_trials suite.summaries ≡ length suite.results
  pub passes : all_passes suite.summaries ≡ passed_results suite.results
  pub fair : All (Fair limit) suite.summaries

All-append :
    {A : Type 0} (P : A → Type 0) (xs : List A) (x : A) → All P xs → P x → All P (xs ++ (x ∷ []))
All-append P [] x h p = (p, tt)
All-append P (y ∷ xs) x h p = (h.0, All-append P xs x h.1 p)

Sums-add_task :
    (limit : ℕ) (t : Tally) (suite : SuiteResult)
    → Sums limit suite
    → Tallied limit (length suite.results) (passed_results suite.results) t
    → Sums limit (add_task t suite)
unfolding add_task
Sums-add_task limit t suite s h = elim (Bool-cases (ltb 0 t.summary.trials)) [
  | inl ran ↦ simp ran (record {
    trials = omega (arith, all_trials-append suite.summaries t.summary, h.results, s.trials);
    passes = omega (arith, all_passes-append suite.summaries t.summary, h.passes, s.passes);
    fair =
        All-append (Fair limit) suite.summaries t.summary s.fair
          (record { ran = ground (arith, ran); bounded = h.bounded; fewer = h.fewer });
  })
  | inr not_run ↦ simp not_run (record {
    trials = ground (arith, not_run, h.results, s.trials);
    passes = ground (arith, not_run, h.passes, h.fewer, s.passes);
    fair = s.fair;
  })
]

abbrev TalliedIn : ℕ → ℕ → ℕ → Outcome Tally → Type 0
TalliedIn limit n p (done t) = Tallied limit n p t
TalliedIn limit n p _ = Unit

record Tallies (limit n p : ℕ) (out : Outcome Tally × Bench) : Type 0 where
  pub at : TalliedIn limit n p out.0

module _ (limit n p : ℕ) where
  Tallies-if :
      (b : Bool) (u v : Outcome Tally × Bench)
      → Tallies limit n p u
      → Tallies limit n p v
      → Tallies limit n p (if b then u else v)
  Tallies-if true u v h k = h
  Tallies-if false u v h k = k

  Tallies-outcome :
      {A : Type 0} (r : Outcome A) (b : Bench) (f : A → Outcome Tally × Bench)
      → ((a : A) → Tallies limit n p (f a))
      → Tallies limit n p (elim r [ raised e ↦ (raised e, b) | hang ↦ (hang, b) | done a ↦ f a ])
  Tallies-outcome (done a) b f h = h a
  Tallies-outcome (raised e) b f h = record { at = tt }
  Tallies-outcome hang b f h = record { at = tt }

abbrev SumsIn : ℕ → Outcome SuiteResult → Type 0
SumsIn limit (done suite) = Sums limit suite
SumsIn limit _ = Unit

record Totals (limit : ℕ) (out : Outcome SuiteResult × Bench) : Type 0 where
  pub at : SumsIn limit out.0

module _ (limit : ℕ) where
  Totals-if :
      (b : Bool) (u v : Outcome SuiteResult × Bench)
      → Totals limit u
      → Totals limit v
      → Totals limit (if b then u else v)
  Totals-if true u v h k = h
  Totals-if false u v h k = k

  Totals-tally :
      (n p : ℕ) (r : Outcome Tally) (b : Bench) (f : Tally → Outcome SuiteResult × Bench)
      → TalliedIn limit n p r
      → ((t : Tally) → Tallied limit n p t → Totals limit (f t))
      → Totals limit (elim r [ raised e ↦ (raised e, b) | hang ↦ (hang, b) | done t ↦ f t ])
  Totals-tally n p (done t) b f a h = h t a
  Totals-tally n p (raised e) b f a h = record { at = tt }
  Totals-tally n p hang b f a h = record { at = tt }

module _ (x : Executor) (to_int : Value → Result ℤ) (limit : ℕ) where
  Tallies-run_trials :
      (n p : ℕ) (task : EvalTask) (trial left : ℕ) (t : Tally) (b : Bench)
      → t.summary.trials + left ≤ limit
      → Tallied limit n p t
      → Tallies limit n p (run_trials x to_int task trial left t b)
  unfolding run_trials add_trial
  Tallies-run_trials n p task trial zero t b bound h = record { at = h }
  Tallies-run_trials n p task trial (suc left) t b bound h =
      Tallies-if limit n p (stopped x to_int b).0 _ _
        (record {
          at = record {
            results = h.results;
            passes = h.passes;
            fewer = h.fewer;
            bounded = h.bounded;
          };
        })
        (Tallies-outcome limit n p (run_trial x to_int task trial _).0 _ _ λ r.
          Tallies-run_trials n p task (trial + 1) left _ _ (omega (arith, bound))
            (Tallied-add limit n p r t (omega (arith, bound)) h))

  Totals-run_tasks :
      (tasks : List EvalTask) (suite : SuiteResult) (b : Bench)
      → Sums limit suite
      → Totals limit (run_tasks x to_int tasks limit suite b)
  unfolding run_tasks
  Totals-run_tasks [] suite b s = record { at = s }
  Totals-run_tasks (task ∷ tasks) suite b s =
      Totals-if limit (stopped x to_int b).0 _ _
        (record { at = record { trials = s.trials; passes = s.passes; fair = s.fair } })
        (Totals-tally limit _ _ (run_trials x to_int task 1 limit _ _).0 _ _
          (Tallies-run_trials (length suite.results) (passed_results suite.results) task 1 limit
            (start_tally task suite) _ (omega arith)
            (record {
              results = omega arith;
              passes = omega arith;
              fewer = omega arith;
              bounded = omega arith;
            })).at
          λ t h. Totals-run_tasks tasks _ _ (Sums-add_task limit t suite s h))

  -- The summaries of a suite add up to its results: each result is counted once, as a trial and, if
  -- it passed, as a pass; each summary is of a task that ran, at most as often as was asked for.
  pub run_suite-Sums :
      (tasks : List EvalTask) (label tier : String) (b : Bench) (suite : SuiteResult)
      → (run_suite x to_int tasks limit label tier b).0 ≡ done suite
      → Sums limit suite
  unfolding run_suite
  run_suite-Sums tasks label tier b suite h =
      subst (SumsIn limit) h
        (Totals-if limit (ltb limit 1) _ _ (record { at = tt })
          (Totals-run_tasks tasks _ b (record { trials = refl; passes = refl; fair = tt }))).at
