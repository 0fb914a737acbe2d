-- ===== src/Bridge/Gate.antt =====
-- src/desktop_worker/mcp_server/bridge.py: the bridge is no way round the executor's gates.
use desktop_worker.Prelude.{◌≡◌, ◌⊎◌, inl, inr, refl}
use desktop_worker.Errors.{action_validation, Result, ok, err}
use desktop_worker.Value.{Value}
use desktop_worker.Schema.Results.{ActionResult}
use desktop_worker.Schema.Actions.Parse.{Action, parse_action}
use desktop_worker.Actions.Executor.Dispatch.{Executor}
use desktop_worker.Actions.Executor.Execute.{execute}
use desktop_worker.Actions.Executor.Gate.{Untouched, Admitted, execute-Untouched}
use desktop_worker.Session.{World, Outcome, done, raised, hang}
use desktop_worker.Bridge.{Answer, act_once, run_parsed, answer_of}

answered :
    {w : World} (r : Outcome ActionResult) (w' : World)
    → Untouched w w'
    → let out : Outcome Answer × World = elim r [
      | done result ↦ (done (answer_of result), w')
      | raised e ↦ (raised e, w')
      | hang ↦ (hang, w')
    ] in
      Untouched w out.1
answered (done result) w' u = u
answered (raised e) w' u = u
answered hang w' u = u

run_parsed-Untouched :
    (x : Executor) (r : Result Action) (w : World)
    → Untouched w (run_parsed x r w).1 ⊎ ((a : Action) × (r ≡ ok a) × Admitted x a w)
unfolding run_parsed
run_parsed-Untouched x (err (action_validation i)) w = inl (record { calls = refl; books = refl })
run_parsed-Untouched x (err _) w = inl (record { calls = refl; books = refl })
run_parsed-Untouched x (ok a) w = elim (execute-Untouched x a w) [
  | inl u ↦ inl (answered (execute x a w).0 (execute x a w).1 u)
  | inr admitted ↦ inr (a, refl, admitted)
]

-- An agent's document reaches the desktop only as a valid action that passes the executor's gates.
act_once-Untouched :
    (x : Executor) (raw : Value) (w : World)
    → Untouched w (act_once x raw w).1 ⊎ ((a : Action) × (parse_action raw ≡ ok a) × Admitted x a w)
unfolding act_once
act_once-Untouched x raw w = run_parsed-Untouched x (parse_action raw) w
