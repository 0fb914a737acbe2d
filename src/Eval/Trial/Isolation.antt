-- ===== src/Eval/Trial/Isolation.antt =====
-- src/desktop_worker/eval/runner.py: a trial does not end the suite, and what a pass says.
use desktop_worker.Prelude.{
  ℕ, String, ◌<>◌, ◌≡◌, refl, ap, true, List, [], ◌∷◌, ◌++◌, Bool-cases, inl, inr, false,
}
use desktop_worker.Prelude.Int.{ℤ, pos}
use desktop_worker.Errors.{Result, ok, err, message}
use desktop_worker.Value.{Value, Dict}
use desktop_worker.Actions.Executor.Dispatch.{Executor}
use desktop_worker.Session.{Outcome, done, raised, hang}
use desktop_worker.Bridge.{Answer}
use desktop_worker.Eval.Oracles.{Verdict}
use desktop_worker.Eval.Trial.Judged.{Judges, attempt-Judges}
use desktop_worker.Eval.Trial.{
  Bench, EvalTask, EvalResult, Measured, run_actions, safe_reset, attempt, close, run_trial,
  result_of,
}

-- What an ended trial is: no exception, and a pass only of a verdict that passed.
abbrev Settled : Outcome Measured → Outcome EvalResult → Type 0
Settled m (done r) =
    r.passed ≡ true → (steps : ℤ) × (v : Verdict) × (m ≡ done (steps, ok v)) × (v.passed ≡ true)
Settled m (raised e) = ⊥
Settled m hang = Unit

abbrev Quiet : {A : Type 0} → Outcome A → Type 0
Quiet (raised e) = ⊥
Quiet _ = Unit

module _ (x : Executor) (to_int : Value → Result ℤ) where
  reset-Quiet :
      (phase : String) (r : Outcome (List Answer)) (b : Bench)
      → let out : Outcome (List String) × Bench = elim r [
        | done answers ↦ (done [], b)
        | raised e ↦ (done ((phase <> "-reset failed: " <> message e) ∷ []), b)
        | hang ↦ (hang, b)
      ] in
        Quiet out.0
  reset-Quiet phase (done answers) b = tt
  reset-Quiet phase (raised e) b = tt
  reset-Quiet phase hang b = tt

  Quiet-safe_reset :
      (ds : List Dict) (phase : String) (b : Bench) → Quiet (safe_reset x to_int ds phase b).0
  unfolding safe_reset
  Quiet-safe_reset [] phase b = tt
  Quiet-safe_reset (d ∷ ds) phase b = reset-Quiet phase (run_actions x to_int (d ∷ ds) b).0 _

  passed_result :
      (task : EvalTask) (trial : ℕ) (notes : List String) (m : Measured) (calls : ℕ)
      → (result_of x to_int task trial notes m calls).passed ≡ true
      → (v : Verdict) × (m.1 ≡ ok v) × (v.passed ≡ true)
  unfolding result_of
  passed_result task trial notes (steps, ok v) calls h = (v, refl, h)
  passed_result task trial notes (steps, err e) calls h = absurd (cc)

  closed :
      (task : EvalTask) (trial : ℕ) (notes : List String) (r : Outcome Measured) (m : Measured)
      (post : Outcome (List String)) (b : Bench)
      → Quiet post
      → ((v : Verdict) → m.1 ≡ ok v → r ≡ done (m.0, ok v))
      → let out : Outcome EvalResult × Bench = elim post [
        | done more ↦ (done (result_of x to_int task trial (notes ++ more) m b.calls), b)
        | raised e ↦ (raised e, b)
        | hang ↦ (hang, b)
      ] in
        Settled r out.0
  closed task trial notes r m (done more) b q h = λ p.
      let (v, same, good) = passed_result task trial (notes ++ more) m b.calls p in
      (m.0, v, h v same, good)
  closed task trial notes r m (raised e) b q h = q
  closed task trial notes r m hang b q h = tt

  Settled-close :
      (task : EvalTask) (trial : ℕ) (notes : List String) (r : Outcome Measured) (m : Measured)
      (b : Bench)
      → ((v : Verdict) → m.1 ≡ ok v → r ≡ done (m.0, ok v))
      → Settled r (close x to_int task trial notes m b).0
  unfolding close
  Settled-close task trial notes r m b h =
      closed task trial notes r m (safe_reset x to_int task.reset "post" b).0 _
        (Quiet-safe_reset task.reset "post" b) h

  tried :
      (task : EvalTask) (trial : ℕ) (notes : List String) (r : Outcome Measured) (b : Bench)
      → let out : Outcome EvalResult × Bench = elim r [
        | done m ↦ close x to_int task trial notes m b
        | raised e ↦ close x to_int task trial notes (pos 0, err e) b
        | hang ↦ (hang, b)
      ] in
        Settled r out.0
  tried task trial notes (done m) b =
      Settled-close task trial notes (done m) m b λ v e. ap (λ u. done (m.0, u)) e
  tried task trial notes (raised e) b =
      Settled-close task trial notes (raised e) (pos 0, err e) b λ v h. absurd (cc)
  tried task trial notes hang b = tt

  -- The bench behind the reset before the trial.
  abbrev pub reset_bench : EvalTask → Bench → Bench
  reset_bench task b = (safe_reset x to_int task.reset "pre" (record b { calls = 0 })).1

  opened :
      (task : EvalTask) (trial : ℕ) (pre : Outcome (List String)) (b : Bench)
      → Quiet pre
      → let out : Outcome EvalResult × Bench = elim pre [
        | raised e ↦ (raised e, b)
        | hang ↦ (hang, b)
        | done notes ↦
            let (r, b₂) = attempt x to_int task b in
            elim r [
              | done m ↦ close x to_int task trial notes m b₂
              | raised e ↦ close x to_int task trial notes (pos 0, err e) b₂
              | hang ↦ (hang, b₂)
            ]
      ] in
        Settled (attempt x to_int task b).0 out.0
  opened task trial (done notes) b q = tried task trial notes (attempt x to_int task b).0 _
  opened task trial (raised e) b q = q
  opened task trial hang b q = tt

  Settled-run_trial :
      (task : EvalTask) (trial : ℕ) (b : Bench)
      → Settled (attempt x to_int task (reset_bench task b)).0 (run_trial x to_int task trial b).0
  unfolding run_trial
  Settled-run_trial task trial b =
      opened task trial (safe_reset x to_int task.reset "pre" (record b { calls = 0 })).0 _
        (Quiet-safe_reset task.reset "pre" (record b { calls = 0 }))

  -- How a trial that starts its body on the bench `b` ends: it hangs with one of its calls, or it
  -- returns, with a pass only of a verdict that passed.
  pub data Settles (task : EvalTask) (b : Bench) : Outcome EvalResult → Type 0 where
    hung : Settles task b hang
    no_pass : {r : EvalResult} → r.passed ≡ false → Settles task b (done r)
    pass :
        {r : EvalResult} (v : Verdict)
        → r.passed ≡ true
        → Judges x to_int task b v
        → v.passed ≡ true
        → Settles task b (done r)

  settles :
      (task : EvalTask) (b : Bench) (o : Outcome EvalResult)
      → Settled (attempt x to_int task b).0 o
      → Settles task b o
  settles task b (done r) s = elim (Bool-cases r.passed) [
    | inl p ↦
        let (steps, v, same, good) = s p in
        pass v p (attempt-Judges x to_int task b steps v same) good
    | inr p ↦ no_pass p
  ]
  settles task b (raised e) s = absurd s
  settles task b hang s = hung

  -- A trial raises nothing, whatever its setup, its probe, its oracle and its resets raise. One that
  -- passes had a setup that returned with good answers only, then a probe (or, without one, actions)
  -- that returned, and an oracle that was given what was measured and answered with a verdict that
  -- passed.
  pub run_trial-Settles :
      (task : EvalTask) (trial : ℕ) (b : Bench)
      → Settles task (reset_bench task b) (run_trial x to_int task trial b).0
  run_trial-Settles task trial b =
      settles task (reset_bench task b) _ (Settled-run_trial task trial b)
