-- ===== src/Actions/Executor/Execute.antt =====
-- src/desktop_worker/actions/executor.py: `execute`.
use desktop_worker.Prelude.{
  String, ◌<>◌, Bool, true, false, not, Option, none, some, ◌==◌, string_eq, if◌then◌else◌,
}
use desktop_worker.Errors.{Error, emergency_stop, Result, ok, err, ◌>>=◌, class_name, message}
use desktop_worker.Value.{Value, Dict, bool, int, str, dict, end, field}
use desktop_worker.Prelude.Int.{pos}
use desktop_worker.Dict.{put}
use desktop_worker.Schema.Results.{ActionResult}
use desktop_worker.Schema.Actions.Parse.{Action, to_dict}
use desktop_worker.Safety.Policy.{
  RiskLevel, low, high, value, risk_level, ApprovalRequest, authorize, authorize_action,
}
use desktop_worker.Audit.Log.{from, write}
use desktop_worker.Broker.Cli.{opt_text}
use desktop_worker.Tools.Registry.{risk_of}
use desktop_worker.Actions.Executor.Dispatch.{Executor, get, empty, dispatch}
use desktop_worker.Session.{World, Exec, Outcome, done, raised, hang, check_estop}

-- `ActionResult.to_dict`, without the time stamps
unfoldable pub result_to_dict : ActionResult → Dict
result_to_dict r = field "actionType" (str r.action_type) (
    field "success" (bool r.success) (
      field "error" (opt_text r.error)
        (field "detail" (dict r.detail) (field "retries" (int (pos r.retries)) end))))

param_texts : (Value → String) → Dict → String
param_texts repr end = ""
param_texts repr (field k v d) = ", " <> k <> "=" <> repr v <> param_texts repr d

-- `str(action)`
unfoldable pub action_text : (Value → String) → Action → String
unfolding param_texts
action_text repr a = elim a.params [
  | end ↦ a.type <> "()"
  | field k v d ↦ a.type <> "(" <> k <> "=" <> repr v <> param_texts repr d <> ")"
]

module _ (x : Executor) where
  -- The entry that every outcome of `execute` writes.
  unfoldable pub log_result : String → Action → ActionResult → World → ActionResult × World
  log_result event a r w =
      let details = record (from x.agent x.role) {
        action = some (to_dict a);
        result = some (result_to_dict r);
      } in
      (r, record w { audit = write event details w.audit })

  -- `_fail`
  unfoldable pub fail : Action → String → String → World → ActionResult × World
  unfolding log_result
  fail a error event = log_result event a (record {
    action_type = a.type;
    success = false;
    error = some error;
    detail = empty;
    retries = 0;
  })

  unfoldable pub succeed : Action → Dict → String → World → ActionResult × World
  unfolding log_result
  succeed a detail event =
      log_result event a (record {
        action_type = a.type;
        success = true;
        error = none;
        detail = detail;
        retries = 0;
      })

  abbrev risk_or_high : Option RiskLevel → RiskLevel
  risk_or_high none = high
  risk_or_high (some r) = r

  abbrev tool_risk : Value → Result String
  tool_risk name = elim x.tools [ none ↦ ok "high" | some tools ↦ risk_of name tools ]

  -- The request that `_authorize_tool` puts to the policy.
  abbrev pub tool_request : Action → RiskLevel → ApprovalRequest
  tool_request a risk = record {
    kind = "tool";
    summary =
        "tool "
        <> x.str_of (get "tool" (str "") a.params)
        <> "("
        <> x.str_of (get "args" (dict empty) a.params)
        <> ")";
    risk = risk;
    detail = to_dict a;
  }

  -- `_authorize_tool`
  unfoldable pub authorize_tool : Action → Result (Bool × RiskLevel)
  authorize_tool a = tool_risk (get "tool" (str "") a.params) >>= λ text.
      let risk = risk_or_high (risk_level text) in
      ok (authorize x.policy (tool_request a risk), risk)

  -- What the approval gate decides: whether to go on, at which risk. A command's risk is the
  -- broker's to judge.
  unfoldable pub approve : Action → Result (Bool × RiskLevel)
  approve a =
      if a.type == "tool.run"
      then authorize_tool a
      else if a.type == "cli.run"
      then ok (true, low)
      else ok (authorize_action x.policy a.type (action_text x.repr a) (to_dict a))

  abbrev kind_of : Action → String
  kind_of a = if a.type == "tool.run" then "tool" else "action"

  unfoldable pub refuse : Action → RiskLevel → World → ActionResult × World
  unfolding fail
  refuse a risk w =
      let message = kind_of a <> " not approved (risk=" <> value risk <> ")" in
      let (r, w') = fail a message "action.blocked" w in
      (record r { detail = put "riskLevel" (str (value risk)) r.detail }, w')

  -- The two `except` clauses round `_dispatch`.
  unfoldable pub on_error : Action → Error → World → ActionResult × World
  unfolding fail
  on_error a (emergency_stop reason) = fail a ("halted: " <> reason) "action.halted"
  on_error a e = fail a (class_name e <> ": " <> message e) "action.failed"

  abbrev pub return : ActionResult × World → Outcome ActionResult × World
  return (r, w) = (done r, w)

  unfoldable pub perform : Action → Exec ActionResult
  unfolding succeed on_error
  perform a w =
      let (r, w') = dispatch x a.type a.params w in
      elim r [
        | done detail ↦ return (succeed a detail "action.executed" w')
        | raised e ↦ return (on_error a e w')
        | hang ↦ (hang, w')
      ]

  -- What follows the emergency-stop guard.
  unfoldable pub proceed : Action → Exec ActionResult
  unfolding refuse succeed
  proceed a w = elim (approve a) [
    | err e ↦ (raised e, w)
    | ok (granted, risk) ↦
        if not granted
        then return (refuse a risk w)
        else if x.dry_run
        then return (succeed a (field "dryRun" (bool true) end) "action.dryrun" w)
        else perform a w
  ]

  unfoldable pub execute : Action → Exec ActionResult
  unfolding fail
  execute a w =
      let (r, w') = check_estop w in
      elim r [
        | done u ↦ proceed a w'
        | raised e ↦ return (fail a ("halted: " <> message e) "action.halted" w')
        | hang ↦ (hang, w')
      ]
