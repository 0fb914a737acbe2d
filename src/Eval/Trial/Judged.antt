-- ===== src/Eval/Trial/Judged.antt =====
-- src/desktop_worker/eval/runner.py: what a verdict of a trial rests on.
use desktop_worker.Prelude.{
  Bool, ◌∙◌, if◌then◌else◌, arith, length, ◌<>◌, ◌≡◌, refl, ap, not, ◌&&◌, is_nil, take, true,
  Option, none, some, List, [], ◌∷◌, false,
}
use desktop_worker.Prelude.Int.{ℤ, pos}
use desktop_worker.Errors.{Error, runtime, Result, ok, err}
use desktop_worker.Value.{Value, Dict}
use desktop_worker.Actions.Executor.Dispatch.{Executor}
use desktop_worker.Session.{Outcome, done, raised, hang}
use desktop_worker.Bridge.{Answer}
use desktop_worker.Eval.Oracles.{Verdict}
use desktop_worker.Eval.Trial.{
  Bench, EvalTask, Measured, Act, probed, acted, all_ok, run_setup, measure, judge, steps_of,
  failed_texts, join_texts, run_actions, attempt,
}

module _ (x : Executor) (to_int : Value → Result ℤ) where
  -- Each answer is good.
  abbrev pub Good : List Answer → Type 0
  Good [] = Unit
  Good (a ∷ answers) = (a.ok ≡ true) × Good answers

  -- The bench behind the setup.
  abbrev pub set_up : EvalTask → Bench → Bench
  set_up task b = (run_actions x to_int task.setup b).1

  -- The bench behind the actions of a task without a probe.
  abbrev pub carried_out : EvalTask → Bench → Outcome (List Answer) × Bench
  carried_out task b = run_actions x to_int (take task.max_steps task.actions) (set_up task b)

  -- The oracle of a task, on what was measured from the bench `b` on, gives the verdict `v`: the setup
  -- returned with good answers only, and then the probe, or the actions where there is none, returned.
  pub data Judges (task : EvalTask) (b : Bench) (v : Verdict) : Type 0 where
    by_probe :
        (probe : Act Dict) (set : List Answer) (d : Dict)
        → (run_actions x to_int task.setup b).0 ≡ done set
        → Good set
        → task.probe ≡ some probe
        → (probe (set_up task b)).0 ≡ done d
        → task.oracle (probe (set_up task b)).1 (probed d) ≡ ok v
        → Judges task b v
    by_actions :
        (set answers : List Answer)
        → (run_actions x to_int task.setup b).0 ≡ done set
        → Good set
        → task.probe ≡ none
        → (carried_out task b).0 ≡ done answers
        → task.oracle
            (carried_out task b).1
            (acted (not (is_nil answers) && all_ok answers) answers)
          ≡ ok v
        → Judges task b v

  all_ok-Good : (answers : List Answer) → all_ok answers ≡ true → Good answers
  all_ok-Good [] h = tt
  all_ok-Good (a ∷ answers) h = (ground arith, all_ok-Good answers (ground arith))

  -- What is left of a measurement that gives a verdict.
  abbrev Measures : EvalTask → Option (Act Dict) → Bench → Verdict → Type 0
  Measures task (some probe) b v =
      (d : Dict) × ((probe b).0 ≡ done d) × (task.oracle (probe b).1 (probed d) ≡ ok v)
  Measures task none b v =
      let out = run_actions x to_int (take task.max_steps task.actions) b in
      (answers : List Answer) × (out.0 ≡ done answers)
      × (task.oracle out.1 (acted (not (is_nil answers) && all_ok answers) answers) ≡ ok v)

  verdict_of :
      {steps n : ℤ} {r : Result Verdict} {v : Verdict}
      → Path (Outcome Measured) (done (n, r)) (done (steps, ok v))
      → r ≡ ok v
  verdict_of h = cc h

  module _ (task : EvalTask) (b : Bench) (steps : ℤ) (v : Verdict) where
    stepped :
        (d : Dict) (s : Result ℤ)
        → (let out : Outcome Measured × Bench = elim s [
          | ok n ↦ judge x to_int task n (probed d) b
          | err e ↦ (raised e, b)
        ] in
            out.0 ≡ done (steps, ok v))
        → task.oracle b (probed d) ≡ ok v
    stepped d (ok n) h = verdict_of h
    stepped d (err e) h = absurd (cc)

    probed_with :
        (r : Outcome Dict)
        → (let out : Outcome Measured × Bench = elim r [
          | done d ↦ elim (steps_of x to_int d) [
            | ok n ↦ judge x to_int task n (probed d) b
            | err e ↦ (raised e, b)
          ]
          | raised e ↦ (raised e, b)
          | hang ↦ (hang, b)
        ] in
            out.0 ≡ done (steps, ok v))
        → (d : Dict) × (r ≡ done d) × (task.oracle b (probed d) ≡ ok v)
    probed_with (done d) h = (d, refl, stepped d (steps_of x to_int d) h)
    probed_with (raised e) h = absurd (cc)
    probed_with hang h = absurd (cc)

    acted_with :
        (r : Outcome (List Answer))
        → (let out : Outcome Measured × Bench = elim r [
          | done answers ↦
              judge x to_int task
                (pos (length answers))
                (acted (not (is_nil answers) && all_ok answers) answers)
                b
          | raised e ↦ (raised e, b)
          | hang ↦ (hang, b)
        ] in
            out.0 ≡ done (steps, ok v))
        → (answers : List Answer) × (r ≡ done answers)
          × (task.oracle b (acted (not (is_nil answers) && all_ok answers) answers) ≡ ok v)
    acted_with (done answers) h = (answers, refl, verdict_of h)
    acted_with (raised e) h = absurd (cc)
    acted_with hang h = absurd (cc)

  measure-Measures :
      (task : EvalTask) (o : Option (Act Dict)) (b : Bench) (steps : ℤ) (v : Verdict)
      → (measure x to_int task o b).0 ≡ done (steps, ok v)
      → Measures task o b v
  unfolding measure
  measure-Measures task (some probe) b steps v h =
      probed_with task (probe b).1 steps v (probe b).0 h
  measure-Measures task none b steps v h =
      let out = run_actions x to_int (take task.max_steps task.actions) b in
      acted_with task out.1 steps v out.0 h

  module _ (task : EvalTask) (b : Bench) (steps : ℤ) (v : Verdict) where
    measured_after :
        (o : Option (Act Dict))
        → task.probe ≡ o
        → (set : List Answer) → (run_actions x to_int task.setup b).0 ≡ done set
        → Good set
        → Measures task o (set_up task b) v
        → Judges task b v
    measured_after (some probe) has set ran good (d, probes, judges) =
        by_probe probe set d ran good has probes judges
    measured_after none has set ran good (answers, acts, judges) =
        by_actions set answers ran good has acts judges

    -- What the body of a trial makes of a setup that ended like `s`.
    abbrev goes_on : Outcome (Unit {0}) × Bench → Outcome Measured × Bench
    goes_on (done u, b') = measure x to_int task task.probe b'
    goes_on (raised e, b') = (raised e, b')
    goes_on (hang, b') = (hang, b')

    by_flag :
        (good : Bool) (b' : Bench) (e : Error)
        → (goes_on (if good then (done tt, b') else (raised e, b'))).0 ≡ done (steps, ok v)
        → (good ≡ true) × ((measure x to_int task task.probe b').0 ≡ done (steps, ok v))
    by_flag true b' e h = (refl, h)
    by_flag false b' e h = absurd (cc)

    set_with :
        (r : Outcome (List Answer)) (b' : Bench)
        → (let s : Outcome (Unit {0}) × Bench = elim r [
          | done answers ↦
              if all_ok answers
              then (done tt, b')
              else (raised (runtime ("setup failed: " <> join_texts (failed_texts x answers))), b')
          | raised e ↦ (raised e, b')
          | hang ↦ (hang, b')
        ] in
            (goes_on s).0 ≡ done (steps, ok v))
        → (set : List Answer) × (r ≡ done set)
          × Good set
          × ((measure x to_int task task.probe b').0 ≡ done (steps, ok v))
    set_with (done set) b' h =
        let (good, measured) = by_flag (all_ok set) b' _ h in
        (set, refl, all_ok-Good set good, measured)
    set_with (raised e) b' h = absurd (cc)
    set_with hang b' h = absurd (cc)

    went_on :
        (s : Outcome (Unit {0}) × Bench)
        → goes_on s ≡ (elim s.0 [
          | done u ↦ measure x to_int task task.probe s.1
          | raised e ↦ (raised e, s.1)
          | hang ↦ (hang, s.1)
        ])
    went_on (done u, b') = refl
    went_on (raised e, b') = refl
    went_on (hang, b') = refl

    pub attempt-Judges : (attempt x to_int task b).0 ≡ done (steps, ok v) → Judges task b v
    unfolding attempt run_setup
    attempt-Judges h =
        let (set, ran, good, measured) =
          set_with (run_actions x to_int task.setup b).0 (set_up task b) (
            ap (λ (o : Outcome Measured × Bench). o.0) (went_on (run_setup x to_int task.setup b))
            ∙ h) in
        measured_after task.probe refl set ran good
          (measure-Measures task task.probe (set_up task b) steps v measured)
