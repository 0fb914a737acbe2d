-- ===== src/Actions/Executor/Dispatch.antt =====
-- src/desktop_worker/actions/executor.py: `_dispatch`, the table from an action's type to the calls
-- of the input backend, the broker and the tools.
use desktop_worker.Prelude.{
  String, ◌<>◌, Bool, true, false, Option, none, some, [], ◌∷◌, ◌==◌, string_eq, if◌then◌else◌,
  ◌++◌,
}
use desktop_worker.Prelude.Int.{ℤ, pos, is_negative}
use desktop_worker.Errors.{
  key_error, type_error, value_error, runtime, not_implemented, emergency_stop, Result, ok, err,
}
use desktop_worker.Value.{
  Value, Items, Dict, null, bool, int, str, list, tuple, dict, nil, cons, end, field, truthy,
}
use desktop_worker.Dict.{lookup, get_or}
use desktop_worker.Schema.Results.{CliResult}
use desktop_worker.Safety.Policy.{PermissionPolicy}
use desktop_worker.Safety.EmergencyStop.{is_stopped, get_reason, or_text}
use desktop_worker.Broker.Cli.{Os, Broker, cli_to_dict}
use desktop_worker.Broker.Run.{run}
use desktop_worker.Tools.Registry.{Registry, run_tool}
use desktop_worker.Session.{
  Call, InputBackend, Exec, done, raised, pure, raise, lift, finally, ◌>>=◌, ◌>>◌, call, move,
  move_relative, scroll, click, double_click, mouse_down, mouse_up, drag, stroke, type_text,
  press_key, hotkey, clipboard_set, clipboard_get, sleep,
}

-- The components that an executor is wired with, and Python's `str` and `repr` of a value.
pub record Executor : Type 0 where
  pub policy : PermissionPolicy
  pub input : InputBackend
  pub broker : Option Broker
  pub os : Os
  pub dry_run : Bool
  pub agent : String
  pub role : String
  pub tools : Option Registry
  pub str_of : Value → String
  pub repr : Value → String

-- `p[k]`
unfoldable pub item : String → Dict → Exec Value
item k p w = elim (lookup k p) [ none ↦ (raised (key_error k), w) | some v ↦ (done v, w) ]

-- `p.get(k, d)`
abbrev pub get : String → Value → Dict → Value
get k d p = get_or (lookup k p) d

-- `x, y = v`, for a list or a tuple. (Other iterables do not pass `parse_action`.)
pair_items : Items → Result (Value × Value)
pair_items (cons x (cons y nil)) = ok (x, y)
pair_items _ = err (value_error "wrong number of values to unpack")

unfoldable pub pair : Value → Result (Value × Value)
unfolding pair_items
pair (list vs) = pair_items vs
pair (tuple vs) = pair_items vs
pair v = err (type_error "cannot unpack")

-- `list(v)`, for a list or a tuple. (Other iterables do not pass `parse_action`.)
unfoldable pub as_list : Value → Result Value
as_list (list vs) = ok (list vs)
as_list (tuple vs) = ok (list vs)
as_list v = err (type_error "not iterable")

-- `time.sleep(v / 1000.0)`, for an int. (Other values do not pass `parse_action`.)
unfoldable pub sleep_ms : Value → Exec (Unit {0})
sleep_ms (int n) w =
    if is_negative n
    then (raised (value_error "sleep length must be non-negative"), w)
    else (done tt, record w { calls = w.calls ++ (sleep (int n) ∷ []) })
sleep_ms v w = (raised (type_error "unsupported operand"), w)

-- A text argument of the broker, which strips the command and makes a path of the folder.
unfoldable pub text_arg : Value → Result String
text_arg (str s) = ok s
text_arg v = err (type_error "expected a string")

-- The optional arguments of `broker.run`: the timeout in milliseconds, and whether to elevate.
abbrev pub timeout_of : Value → Option ℤ
timeout_of (int n) = some n
timeout_of _ = none

abbrev pub opt_or : Option String → String → String
opt_or none d = d
opt_or (some s) d = s

abbrev pub empty : Dict
empty = end

module _ (x : Executor) where
  abbrev input : Call → Exec Dict
  input c = do _ ← call x.input c; pure empty

  abbrev read_clipboard : Exec Dict
  read_clipboard = do text ← call x.input clipboard_get; pure (field "text" text end)

  -- The answer of the broker: a blocked command is an error.
  unfoldable pub cli_detail : CliResult → Exec Dict
  cli_detail result w =
      if result.blocked
      then (raised (runtime ("cli blocked: " <> opt_or result.blocked_reason "None")), w)
      else (done (field "cli" (dict (cli_to_dict result)) end), w)

  unfoldable pub run_broker : Broker → Dict → Exec Dict
  unfolding item cli_detail
  run_broker broker p = do
    command ← item "command" p
    cwd ← item "cwd" p
    command_text ← lift (text_arg command)
    cwd_text ← lift (text_arg cwd)
    result ←
        run x.os broker command_text cwd_text (timeout_of (get "timeoutMs" null p))
          (truthy (get "elevated" (bool true) p)) (record { agent = x.agent; role = x.role })
    cli_detail result

  unfoldable pub run_cli : Option Broker → Dict → Exec Dict
  run_cli none p w = (raised (runtime "cli.run requires a CLI broker; none configured"), w)
  run_cli (some broker) p w = run_broker broker p w

  -- A sub-action of the tool may have met the emergency stop: then the halt is passed on.
  unfoldable pub propagate_stop : Exec (Unit {0})
  unfolding is_stopped get_reason
  propagate_stop w =
      let (stopped, estop) = is_stopped w.estop in
      let w' = record w { estop = estop } in
      if stopped
      then (raised (emergency_stop (or_text (get_reason true estop) "emergency stop active")), w')
      else (done tt, w')

  -- `try: self.tools.run(name, args) finally: self._in_tool = False`
  unfoldable pub run_registered : Value → Value → Registry → Exec Value
  run_registered name args tools w =
      finally (run_tool name args tools) (λ w. record w { in_tool = false })
        (record w { in_tool = true })

  unfoldable pub run_unnested : Registry → Dict → Exec Dict
  unfolding item run_registered propagate_stop
  run_unnested tools p = do
    name ← item "tool" p
    let args = get "args" (dict end) p
    result ← run_registered name args tools
    propagate_stop
    pure (field "tool" name (field "args" args (field "result" result end)))

  unfoldable pub run_named : Option Registry → Dict → Exec Dict
  run_named none p w = (raised (runtime "tool.run requires a tools registry; none configured"), w)
  run_named (some tools) p w =
      if w.in_tool
      then (raised (runtime "a tool may not call tool.run (no nesting)"), w)
      else run_unnested tools p w

  left : Value
  left = str "left"

  unfoldable pub dispatch : String → Dict → Exec Dict
  unfolding left item
  dispatch t p =
      if t == "mouse.move"
      then (do px ← item "x" p; py ← item "y" p; input (move px py))
      else if t == "mouse.moveRelative"
      then (do dx ← item "dx" p; dy ← item "dy" p; input (move_relative dx dy))
      else if t == "mouse.click"
      then input (click (get "button" left p) (get "x" null p) (get "y" null p))
      else if t == "mouse.doubleClick"
      then input (double_click (get "button" left p) (get "x" null p) (get "y" null p))
      else if t == "mouse.rightClick"
      then input (click (str "right") (get "x" null p) (get "y" null p))
      else if t == "mouse.down"
      then input (mouse_down (get "button" left p))
      else if t == "mouse.up"
      then input (mouse_up (get "button" left p))
      else if t == "mouse.scroll"
      then input (scroll (get "dx" (int (pos 0)) p) (get "dy" (int (pos 0)) p))
      else if t == "mouse.drag"
      then (do
        from ← item "from" p
        f ← lift (pair from)
        to ← item "to" p
        g ← lift (pair to)
        input (drag f.0 f.1 g.0 g.1 (get "durationMs" (int (pos 600)) p)))
      else if t == "mouse.stroke"
      then (do
        points ← item "points" p
        ps ← lift (as_list points)
        input (stroke ps (get "durationMs" (int (pos 800)) p)))
      else if t == "keyboard.type"
      then (do text ← item "text" p; input (type_text text))
      else if t == "keyboard.press"
      then (do key ← item "key" p; input (press_key key))
      else if t == "keyboard.hotkey"
      then (do keys ← item "keys" p; ks ← lift (as_list keys); input (hotkey ks))
      else if t == "clipboard.set"
      then (do text ← item "text" p; input (clipboard_set text))
      else if t == "clipboard.get"
      then read_clipboard
      else if t == "wait"
      then (do ms ← item "durationMs" p; sleep_ms ms; pure empty)
      else if t == "cli.run"
      then run_cli x.broker p
      else if t == "tool.run"
      then run_named x.tools p
      else raise (not_implemented ("action type not handled by executor: " <> t))
