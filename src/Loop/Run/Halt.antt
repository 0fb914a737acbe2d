-- ===== src/Loop/Run/Halt.antt =====
-- src/desktop_worker/loop/task_loop.py: a task under an emergency stop.
use desktop_worker.Prelude.{ℕ, zero, suc, ◌≡◌, refl, Bool-cases, inl, inr, true, false, [], All}
use desktop_worker.Errors.{emergency_stop}
use desktop_worker.Safety.EmergencyStop.{EmergencyStop, check, happen_all, halted}
use desktop_worker.Safety.EmergencyStop.Laws.{KeepsStop, check_of_stopped, happen_all-stopped}
use desktop_worker.Session.{World, Outcome, done, raised, check_estop, next_visit}
use desktop_worker.Actions.Executor.Gate.{Untouched, check_estop-Untouched}
use desktop_worker.Loop.Step.{TaskLoop, Scene, TaskReport}
use desktop_worker.Loop.Progress.{Progress, Stop, Turn, leaves, at_start}
use desktop_worker.Loop.Recovery.{is_expired, read_clock, note}
use desktop_worker.Loop.Run.{turn, turns, run, report_of, started_details}

-- The emergency stop is set, and what others do before the next guard does not clear it.
abbrev pub IsStopped : World → Type 0
IsStopped w = (w.estop.stopped ≡ true) × All KeepsStop (next_visit w.schedule).0.before

check_estop-stopped :
    (w : World) → IsStopped w → (reason : _) × ((check_estop w).0 ≡ raised (emergency_stop reason))
unfolding check_estop
check_estop-stopped w (h, k) = let (visit, e) = stopped_visit in rw (e, check_estop) (_, refl)
  where
    stopped_visit :
        (s : EmergencyStop) × (check
            (next_visit w.schedule).0.rounds
            (happen_all (next_visit w.schedule).0.before w.estop)
          ≡ (halted s, s))
    stopped_visit = (
      _,
      check_of_stopped (next_visit w.schedule).0.rounds _
          (happen_all-stopped (next_visit w.schedule).0.before w.estop k h),
    )

-- A turn or a task that ends before its first step, without a touch of the desktop.
record Idle {S : Type 0} {A : Type 0} (of : Stop → A) (s : Scene S) (out : Outcome A × Scene S)
    : Type 0 where
  pub stop : Stop
  pub ends : out.0 ≡ done (of stop)
  pub incomplete : stop.completed ≡ false
  pub untouched : Untouched s.world out.1.world

abbrev leaves_at_start : Stop → Turn
leaves_at_start stop = leaves stop at_start

abbrev ends_at_start : Stop → Stop × Progress
ends_at_start stop = (stop, at_start)

module _ {S : Type 0} (loop : TaskLoop S) where
  Idle-turn :
      (start : ℕ) (s : Scene S)
      → IsStopped s.world
      → Idle leaves_at_start s (turn loop start at_start s)
  unfolding turn
  Idle-turn start s h =
      let (reason, halts) = check_estop-stopped s.world h in
      elim (Bool-cases (is_expired loop start (loop.now s.reads))) [
        | inl late ↦
            rw (late, turn)
              (record {
                stop = _;
                ends = refl;
                incomplete = refl;
                untouched = record { calls = refl; books = refl };
              })
        | inr early ↦
            rw (early, halts, turn)
              (record {
                stop = _;
                ends = refl;
                incomplete = refl;
                untouched = record {
                  calls = (check_estop-Untouched s.world).calls;
                  books = (check_estop-Untouched s.world).books;
                };
              })
      ]

  Idle-turns :
      (start left : ℕ) (s : Scene S)
      → IsStopped s.world
      → Idle ends_at_start s (turns loop start left at_start s)
  unfolding turns
  Idle-turns start zero s h = record {
    stop = _;
    ends = refl;
    incomplete = refl;
    untouched = record { calls = refl; books = refl };
  }
  Idle-turns start (suc left) s h =
      let idle = Idle-turn start s h in
      rw (idle.ends, turns)
        (record { stop = _; ends = refl; incomplete = idle.incomplete; untouched = idle.untouched })

  abbrev started : Scene S → Scene S
  started s = (read_clock loop (note "task.started" (started_details loop) s)).1

  -- A task that starts under an emergency stop that nobody clears runs no step, is not completed, and
  -- no call reaches the input backend or the broker.
  pub run_stopped :
      (s : Scene S)
      → IsStopped s.world
      → (r : TaskReport) × ((run loop s).0 ≡ done r)
        × (r.step_records ≡ [])
        × (r.completed ≡ false)
        × Untouched s.world (run loop s).1.world
  unfolding run report_of
  run_stopped s h =
      let idle = Idle-turns (loop.now s.reads) loop.limits.max_actions_per_task (started s) h in
      rw (idle.ends, run)
        (
          _,
          refl,
          refl,
          idle.incomplete,
          record { calls = idle.untouched.calls; books = idle.untouched.books },
        )
