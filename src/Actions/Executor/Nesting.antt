-- ===== src/Actions/Executor/Nesting.antt =====
-- src/desktop_worker/actions/executor.py: a tool runs no tool, and the flag that forbids it is reset.
use desktop_worker.Prelude.{
  String, ◌≡◌, ◌≢◌, refl, ◌∙◌, Bool, true, false, Option, none, some, arith, string_eq,
}
use desktop_worker.Prelude.Int.{ℤ}
use desktop_worker.Errors.{Error, emergency_stop}
use desktop_worker.Value.{Value, Dict, int}
use desktop_worker.Schema.Results.{CliResult}
use desktop_worker.Broker.Cli.{Os, Broker, Driver, blocked}
use desktop_worker.Broker.Run.{run, run_guarded, execute_command, guard_estop, return}
use desktop_worker.Tools.Registry.{Registry}
use desktop_worker.Schema.Actions.Parse.{Action}
use desktop_worker.Schema.Results.{ActionResult}
use desktop_worker.Actions.Executor.Dispatch.{
  Executor, dispatch, run_cli, run_broker, run_named, run_unnested, item, propagate_stop,
  cli_detail, sleep_ms,
}
use desktop_worker.Actions.Executor.Execute.{execute, fail, refuse, succeed, on_error}
use desktop_worker.Session.Preserves.{
  Preserves, IsPreorder, Preserves-pure, Preserves-raise, Preserves-lift, Preserves-if,
  Preserves-bind,
}
use desktop_worker.Actions.Executor.Gate.{check_estop-in_tool}
use desktop_worker.Actions.Executor.Ways.{
  Ending, paused, halted, unnamed, denied, dry, executed, failed, stuck, guarded, dispatched,
  execute-Ending,
}
use desktop_worker.Session.{World, Outcome, hang, check_estop, call, Call, InputBackend}

abbrev Steady : World → World → Type 0
Steady w w' = w'.in_tool ≡ w.in_tool

steady : IsPreorder Steady
steady = record { same = λ w. refl; trans = λ u v w h k. k ∙ h }

Steady-item : (k : String) (p : Dict) → Preserves Steady (item k p)
unfolding item
Steady-item k p = record { at = λ w h. ground arith }

Steady-call : (b : InputBackend) (c : Call) → Preserves Steady (call b c)
Steady-call b c = record { at = λ w h. ground arith }

Steady-sleep_ms : (v : Value) → Preserves Steady (sleep_ms v)
unfolding sleep_ms
Steady-sleep_ms (int n) = record { at = λ w h. ground arith }
Steady-sleep_ms _ = record { at = λ w h. refl }

Steady-check_estop : Preserves Steady check_estop
unfolding check_estop
Steady-check_estop = record { at = λ w h. ground arith }

Steady-guard_estop : (b : Bool) → Preserves Steady (guard_estop b)
unfolding guard_estop
Steady-guard_estop true = Steady-check_estop
Steady-guard_estop false = record { at = λ w h. refl }

ruleset steady_rules = (
  steady, Preserves-pure, Preserves-raise, Preserves-lift, Preserves-if, Preserves-bind,
  Steady-item, Steady-call, Steady-sleep_ms, Steady-guard_estop,
)

Steady-run :
    (os : Os) (b : Broker) (raw cwd : String) (limit : Option ℤ) (elevated : Bool) (d : Driver)
    → Preserves Steady (run os b raw cwd limit elevated d)
unfolding run
Steady-run os b raw cwd limit elevated d =
    Preserves-bind steady (guard_estop b.guarded)
      (λ u w. return os b (run_guarded os b raw cwd limit elevated d w))
      (Steady-guard_estop b.guarded)
      λ u. record { at = λ w h. unfold run_guarded blocked execute_command in ground arith }

Steady-cli_detail : (x : Executor) (r : CliResult) → Preserves Steady (cli_detail x r)
unfolding cli_detail
Steady-cli_detail x r = record { at = λ w h. ground arith }

module _ (x : Executor) where
  Steady-run_broker : (b : Broker) (p : Dict) → Preserves Steady (run_broker x b p)
  unfolding run_broker
  Steady-run_broker b p = search (steady_rules, Steady-run, Steady-cli_detail) depth 12

  Steady-run_cli : (b : Option Broker) (p : Dict) → Preserves Steady (run_cli x b p)
  unfolding run_cli
  Steady-run_cli none p = record { at = λ w h. refl }
  Steady-run_cli (some b) p = record { at = λ w h. (Steady-run_broker b p).at w h }

  Steady-run_named : (t : Option Registry) (p : Dict) → Preserves Steady (run_named x t p)
  unfolding run_named run_unnested item propagate_stop
  Steady-run_named none p = record { at = λ w h. refl }
  Steady-run_named (some t) p = record { at = λ w h. ground (arith) }

  Steady-dispatch : (t : String) (p : Dict) → Preserves Steady (dispatch x t p)
  unfolding dispatch
  Steady-dispatch t p = search (steady_rules, Steady-run_cli, Steady-run_named) depth 40 fits 20000

Steady-on_error :
    (x : Executor) (a : Action) (e : Error) (w : World) → Steady w (on_error x a e w).1
unfolding on_error
Steady-on_error x a (emergency_stop reason) w = refl
Steady-on_error x a _ w = refl

module _ (x : Executor) (a : Action) where
  Steady-dispatched : (w : World) → (dispatched x a w).0 ≢ hang → Steady w (dispatched x a w).1
  Steady-dispatched w h =
      (Steady-dispatch x a.type a.params).at (guarded x a w) h ∙ check_estop-in_tool w

  Steady-Ending :
      (w : World) (out : Outcome ActionResult × World)
      → Ending x a w out
      → out.0 ≢ hang
      → Steady w out.1
  unfolding fail refuse succeed
  Steady-Ending w out (paused p) n = check_estop-in_tool w
  Steady-Ending w out (halted e p) n = check_estop-in_tool w
  Steady-Ending w out (unnamed e p g) n = check_estop-in_tool w
  Steady-Ending w out (denied risk p g) n = check_estop-in_tool w
  Steady-Ending w out (dry risk p g d) n = check_estop-in_tool w
  Steady-Ending w out (executed risk detail p g l d) n = Steady-dispatched w (λ h. cc)
  Steady-Ending w out (failed risk e p g l d) n =
      Steady-on_error x a e (dispatched x a w).1 ∙ Steady-dispatched w (λ h. cc)
  Steady-Ending w out (stuck risk p g l d) n = absurd (n refl)

  -- An execution that comes back leaves the flag that forbids tools within tools as it found it,
  -- also where the tool raises or is stopped.
  pub in_tool-execute :
      (w : World) → (execute x a w).0 ≢ hang → (execute x a w).1.in_tool ≡ w.in_tool
  in_tool-execute w n = Steady-Ending w (execute x a w) (execute-Ending x a w) n
