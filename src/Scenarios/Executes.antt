-- ===== src/Scenarios/Executes.antt =====
-- The executor on concrete actions.
use desktop_worker.Prelude.{inl, ◌≡◌, ◌≢◌, ◌⊎◌, refl, true, false}
use desktop_worker.Session.{World, Outcome, done, hang, check_estop}
use desktop_worker.Safety.EmergencyStop.{check, happen_all, is_stopped, wait_loop}
use desktop_worker.Safety.Policy.{authorize, authorize_action, classify_action, risk_level}
use desktop_worker.Tools.Registry.{run_tool, risk_of, get, get_value}
use desktop_worker.Dict.{lookup}
use desktop_worker.Actions.Executor.Dispatch.{
  dispatch, run_named, run_unnested, run_registered, propagate_stop, item,
}
use desktop_worker.Actions.Executor.Execute.{
  execute, proceed, perform, approve, authorize_tool, succeed, fail, on_error,
}
use desktop_worker.Actions.Executor.Ending.{Logged, execute-Logged}
use desktop_worker.Actions.Executor.Gate.{
  Untouched, Admitted, execute-Untouched, execute_nested, execute_unhandled,
}
use desktop_worker.Actions.Executor.Nesting.{in_tool-execute}
use desktop_worker.Value.{str, end, field}
use desktop_worker.Safety.Policy.{auto_approve}
use desktop_worker.Schema.Actions.Parse.{Action}
use desktop_worker.Actions.Executor.Dispatch.{Executor}
use desktop_worker.Scenarios.Data.{start, plain, click, echo, result_of}

abbrev inside : World
inside = record start { in_tool = true }

-- A click is performed and reaches the backend.
execute-Untouched_example :
    Untouched start (execute plain click start).1 ⊎ Admitted plain click start
execute-Untouched_example = execute-Untouched plain click start

click_done : (execute plain click start).0 ≡ done (result_of (execute plain click start).0)
unfolding execute proceed perform approve authorize_action authorize classify_action check_estop
    check is_stopped wait_loop happen_all dispatch succeed
click_done = refl

execute-Logged_example :
    Logged plain click start
      (result_of (execute plain click start).0).success
      (execute plain click start).1
execute-Logged_example =
    execute-Logged plain click start (result_of (execute plain click start).0) click_done

nested_done : (execute plain echo inside).0 ≡ done (result_of (execute plain echo inside).0)
unfolding execute proceed perform approve authorize_tool authorize check_estop check is_stopped
    wait_loop happen_all dispatch run_named on_error fail risk_of get get_value risk_level lookup
nested_done = refl

-- A tool that calls a tool.
execute_nested_example :
    ((result_of (execute plain echo inside).0).success ≡ false)
    × Untouched inside (execute plain echo inside).1
execute_nested_example =
    execute_nested plain echo inside (result_of (execute plain echo inside).0) refl refl refl
      nested_done

echo_done : (execute plain echo start).0 ≡ done (result_of (execute plain echo start).0)
unfolding execute proceed perform approve authorize_tool authorize check_estop check is_stopped
    wait_loop happen_all dispatch run_named run_unnested run_registered propagate_stop item run_tool
    succeed on_error fail risk_of get get_value risk_level lookup
echo_done = refl

ends : {A : Type 0} {r : Outcome A} {a : A} → r ≡ done a → r ≢ hang
ends h k = absurd (cc)

-- A tool that runs leaves the flag as it was.
in_tool-execute_example : (execute plain echo start).1.in_tool ≡ false
in_tool-execute_example = in_tool-execute plain echo start (ends echo_done)

abbrev focus : Action
focus = record { type = "window.focus"; params = field "title" (str "Notepad") end }

abbrev free : Executor
free = record plain { policy = record plain.policy { approval_callback = auto_approve } }

focus_done : (execute free focus start).0 ≡ done (result_of (execute free focus start).0)
unfolding execute proceed perform approve authorize_action authorize classify_action check_estop
    check is_stopped wait_loop happen_all dispatch on_error fail
focus_done = refl

-- The window cannot be focused.
execute_unhandled_example :
    ((result_of (execute free focus start).0).success ≡ false)
    × Untouched start (execute free focus start).1
execute_unhandled_example =
    execute_unhandled free focus start (result_of (execute free focus start).0) refl (inl refl)
      focus_done
