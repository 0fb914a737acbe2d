-- ===== src/Scenarios/Loops.antt =====
-- The loop on a script of one click.
use desktop_worker.Prelude.{◌≡◌, refl, false, []}
use desktop_worker.Session.{done, check_estop}
use desktop_worker.Actions.Executor.Gate.{Untouched}
use desktop_worker.Loop.Step.{TaskReport, PlannedStep}
use desktop_worker.Loop.Recovery.{recover_loop, attempt, give_up, is_retryable}
use desktop_worker.Loop.Recovery.Bounds.{Sensible, recover_loop-Sensible}
use desktop_worker.Loop.Recovery.Once.{recover_loop_once}
use desktop_worker.Loop.Verify.{verify}
use desktop_worker.Loop.Recovery.{replan_loop, retry_loop, act}
use desktop_worker.Loop.Progress.{count_stale, advance, remember}
use desktop_worker.Loop.Run.{
  run, turns, turn, observe_and_plan, plan, ask, perform_step, finish, fail_step, without_step,
}
use desktop_worker.Safety.EmergencyStop.{check, happen_all, is_stopped, wait_loop}
use desktop_worker.Safety.Policy.{authorize, authorize_action, classify_action}
use desktop_worker.Actions.Executor.Dispatch.{dispatch}
use desktop_worker.Actions.Executor.Execute.{execute, proceed, perform, approve, succeed}
use desktop_worker.Loop.Run.Report.{Adds, run-Adds}
use desktop_worker.Loop.Run.Halt.{run_stopped}
use desktop_worker.Value.{str, end, field}
use desktop_worker.Scenarios.Data.{loop, scene, stopped_scene, step_of, click, report_in, tried_in}

abbrev typing : PlannedStep
typing = step_of (record { type = "keyboard.type"; params = field "text" (str "a") end })

is_unsafe : is_retryable typing.action ≡ false
unfolding is_retryable
is_unsafe = refl

recover_loop_once_example :
    recover_loop loop [] 0 typing scene ≡ attempt loop (give_up loop) 0 typing 0 scene
recover_loop_once_example = recover_loop_once loop [] 0 typing scene is_unsafe refl

report_done : (run loop scene).0 ≡ done (report_in (run loop scene).0)
unfolding run turns turn observe_and_plan plan ask perform_step finish fail_step without_step
    count_stale advance remember replan_loop retry_loop act attempt verify execute proceed perform
    approve authorize_action authorize classify_action check_estop check is_stopped wait_loop
    happen_all dispatch succeed
report_done = refl

run-Adds_example : Adds 2 (report_in (run loop scene).0)
run-Adds_example = run-Adds loop scene (report_in (run loop scene).0) report_done

tried_done :
    (recover_loop loop [] 0 (step_of click) scene).0
    ≡ done (tried_in (recover_loop loop [] 0 (step_of click) scene).0)
unfolding replan_loop retry_loop act attempt verify execute proceed perform approve authorize_action
    authorize classify_action check_estop check is_stopped wait_loop happen_all dispatch succeed
tried_done = refl

recover_loop-Sensible_example :
    Sensible 1 (tried_in (recover_loop loop [] 0 (step_of click) scene).0)
recover_loop-Sensible_example =
    recover_loop-Sensible loop [] 0 (step_of click) scene
      (tried_in (recover_loop loop [] 0 (step_of click) scene).0) tried_done

run_stopped_example :
    (r : TaskReport) × ((run loop stopped_scene).0 ≡ done r)
    × (r.step_records ≡ [])
    × (r.completed ≡ false)
    × Untouched stopped_scene.world (run loop stopped_scene).1.world
run_stopped_example = run_stopped loop stopped_scene (refl, tt)
