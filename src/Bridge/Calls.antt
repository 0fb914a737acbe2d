-- ===== src/Bridge/Calls.antt =====
-- src/desktop_worker/mcp_server/bridge.py: the named calls of the bridge (move, click, type_text,
-- run_cli and the others), each of which hands `act` a document. The settings for the wait and the
-- report of the change are arguments of move and click alone. The folder `default_cwd` is the one of
-- the bridge, and its tools are those of the executor.
pub mod Sound
pub mod Runs
use desktop_worker.Prelude.{
  ℕ, String, Bool, true, false, ◌&&◌, Option, none, some, ◌==◌, string_eq, if◌then◌else◌,
}
use desktop_worker.Prelude.Int.{ℤ}
use desktop_worker.Value.{Value, Items, Dict, bool, int, str, list, dict, end, field}
use desktop_worker.Dict.{put, without}
use desktop_worker.Schema.Actions.Checks.{is_point, is_button, is_str_list}
use desktop_worker.Schema.Actions.Parse.{Action}
use desktop_worker.Actions.Executor.Dispatch.{Executor}
use desktop_worker.Session.{World, Exec, done}
use desktop_worker.Bridge.{Answer, refusal, act}

-- A call, with its arguments.
pub data Call : Type 0 where
  move : ℤ → ℤ → ℕ → Call
  click : Option ℤ → Option ℤ → String → ℕ → Bool → Call
  double_click : Option ℤ → Option ℤ → String → Call
  right_click : Option ℤ → Option ℤ → Call
  scroll : ℤ → ℤ → Call
  drag : Items → Items → ℤ → Call
  type_text : String → Call
  press_key : String → Call
  hotkey : Items → Call
  clipboard_set : String → Call
  clipboard_get : Call
  wait_for : ℤ → Call
  run_tool : String → Option Dict → Call
  run_cli : String → Option String → Bool → Option ℤ → Call

abbrev pub put_some : String → Option ℤ → Dict → Dict
put_some k none d = d
put_some k (some n) d = put k (int n) d

-- `_xy`
unfoldable pub xy : Dict → Option ℤ → Option ℤ → Dict
xy action x y = put_some "y" y (put_some "x" x action)

-- `cwd or self.default_cwd`
abbrev cwd_or : String → Option String → String
cwd_or folder none = folder
cwd_or folder (some cwd) = if cwd == "" then folder else cwd

-- `args or {}`
abbrev args_or : Option Dict → Dict
args_or none = end
args_or (some args) = args

abbrev typed : String → Dict → Dict
typed type fields = field "type" (str type) fields

-- The document that a call hands to `act`.
unfoldable pub document : String → Call → Dict
unfolding xy
document folder (move x y ms) = typed "mouse.move" (field "x" (int x) (field "y" (int y) end))
document folder (click x y button ms report) =
    xy (typed "mouse.click" (field "button" (str button) end)) x y
document folder (double_click x y button) =
    xy (typed "mouse.doubleClick" (field "button" (str button) end)) x y
document folder (right_click x y) = xy (typed "mouse.rightClick" end) x y
document folder (scroll dx dy) =
    typed "mouse.scroll" (field "dx" (int dx) (field "dy" (int dy) end))
document folder (drag start stop ms) =
    typed "mouse.drag"
      (field "from" (list start) (field "to" (list stop) (field "durationMs" (int ms) end)))
document folder (type_text text) = typed "keyboard.type" (field "text" (str text) end)
document folder (press_key key) = typed "keyboard.press" (field "key" (str key) end)
document folder (hotkey keys) = typed "keyboard.hotkey" (field "keys" (list keys) end)
document folder (clipboard_set text) = typed "clipboard.set" (field "text" (str text) end)
document folder clipboard_get = typed "clipboard.get" end
document folder (wait_for ms) = typed "wait" (field "durationMs" (int ms) end)
document folder (run_tool name args) =
    typed "tool.run" (field "tool" (str name) (field "args" (dict (args_or args)) end))
document folder (run_cli command cwd elevated timeout) = put_some "timeoutMs" timeout (
    typed "cli.run" (
      field "command" (str command)
        (field "cwd" (str (cwd_or folder cwd)) (field "elevated" (bool elevated) end))))

-- The wait and the report that a call asks for.
abbrev pub settle_of : Call → ℕ
settle_of (move x y ms) = ms
settle_of (click x y button ms report) = ms
settle_of c = 0

abbrev pub report_of : Call → Bool
report_of (click x y button ms report) = report
report_of c = false

abbrev pub hand_over : Executor → (ℕ → World → String) → String → Call → Exec Answer
hand_over x signature folder c w =
    act x signature (dict (document folder c)) (settle_of c) (report_of c) w

-- The call itself.
unfoldable pub call : Executor → (ℕ → World → String) → String → Call → Exec Answer
unfolding document
call x signature folder (run_tool name args) w = elim x.tools [
  | none ↦ (done (refusal "no tools registry configured"), w)
  | some tools ↦ hand_over x signature folder (run_tool name args) w
]
call x signature folder c w = hand_over x signature folder c w

abbrev is_some : {A : Type 0} → Option A → Bool
is_some none = false
is_some (some a) = true

-- What a call must be given: a known button, two points, a key at least, tools.
unfoldable pub fits : Executor → Call → Bool
fits x (click _ _ button ms report) = is_button (str button)
fits x (double_click _ _ button) = is_button (str button)
fits x (drag start stop ms) = is_point (list start) && is_point (list stop)
fits x (hotkey keys) = is_str_list (list keys)
fits x (run_tool name args) = is_some x.tools
fits x c = true

-- The action that a call stands for.
unfoldable pub action_of : String → Call → Action
unfolding document
action_of folder c = record {
  type = elim c [
    | move _ _ _ ↦ "mouse.move"
    | click _ _ _ _ _ ↦ "mouse.click"
    | double_click _ _ _ ↦ "mouse.doubleClick"
    | right_click _ _ ↦ "mouse.rightClick"
    | scroll _ _ ↦ "mouse.scroll"
    | drag _ _ _ ↦ "mouse.drag"
    | type_text _ ↦ "keyboard.type"
    | press_key _ ↦ "keyboard.press"
    | hotkey _ ↦ "keyboard.hotkey"
    | clipboard_set _ ↦ "clipboard.set"
    | clipboard_get ↦ "clipboard.get"
    | wait_for _ ↦ "wait"
    | run_tool _ _ ↦ "tool.run"
    | run_cli _ _ _ _ ↦ "cli.run"
  ];
  params = without "type" (document folder c);
}
