-- ===== src/Tools/Builtin.antt =====
-- src/desktop_worker/tools/builtin.py: the tools that create a file, open an application or a page, drag,
-- and focus a window. The texts of their errors leave out the arguments. The disk is known by what
-- writing a text does, and by what reading it back gives; `int` of a value is a parameter.
pub mod Launches
use desktop_worker.Prelude.{
  ℕ, String, ◌<>◌, Bool, true, false, not, ◌&&◌, Option, none, some, List, [], ◌∷◌, ◌==◌, string_eq,
  ltb, if◌then◌else◌,
}
use Prim.Native.String.{count}
use desktop_worker.Prelude.Int.{ℤ, pos, leb_ℤ}
use desktop_worker.Prelude.Text.{lower, strip, occurs_in}
use desktop_worker.Errors.{
  Error, tool, type_error, value_error, emergency_stop, message, Result, ok, err,
}
use desktop_worker.Value.{
  Value, Items, Dict, null, nil, cons, bool, int, str, list, tuple, dict, end, field,
}
use desktop_worker.Dict.{lookup, get_or}
use desktop_worker.Schema.Results.{CliResult}
use desktop_worker.Safety.Policy.{PermissionPolicy, authorize_app}
use desktop_worker.Broker.Cli.{Os, Broker, Driver, opt_text}
use desktop_worker.Broker.Run.{launch, guard_estop}
use desktop_worker.Session.{
  World, InputBackend, Exec, Outcome, done, raised, hang, pure, raise, lift, catch, call, Call,
  ◌>>=◌, ◌>>◌,
}
use desktop_worker.Tools.Arguments.{
  text_of, sanitize_filename, sanitize_url, app_allowlist, token_of,
}

-- The file system, as the tool that creates a file uses it.
pub record Disk : Type 0 where
  -- `str(Path(folder) / name)`
  pub join : String → String → String
  -- the message of the OSError of making the folder and writing a text, if there is one
  pub write : String → String → Option String
  -- what is read from the path after a text was written there; `none` is an OSError
  pub read_back : String → String → Option String

-- What a tool is made with.
pub record Kit : Type 0 where
  pub os : Os
  pub broker : Option Broker
  pub desktop_dir : String
  pub policy : Option PermissionPolicy
  pub str_of : Value → String
  pub to_int : Value → Result ℤ
  pub disk : Disk
  pub input : InputBackend
  -- whether an emergency stop is wired in
  pub guarded : Bool

-- `args.get(key)`
abbrev pub arg : String → Dict → Value
arg key args = get_or (lookup key args) null

abbrev pub answer : Bool → String → Value → Value → Value
answer success key v error =
    dict (field "success" (bool success) (field key v (field "error" error end)))

abbrev driver_of : String → Driver
driver_of agent = record { agent = agent; role = "tool" }

module _ (kit : Kit) where
  -- `broker.launch`, from the desktop's folder
  abbrev pub launch_as : Broker → String → String → Exec CliResult
  launch_as broker agent command = launch kit.os broker command kit.desktop_dir (driver_of agent)

  -- `not res.blocked`, or `False` for whatever the launch raised.
  abbrev pub opened_by : Exec CliResult → Exec Bool
  opened_by m = catch (m >>= λ res. pure (not res.blocked)) λ e. pure false

  abbrev pub notepad_command : String → String
  notepad_command path = "start \"\" notepad \"" <> path <> "\""

  -- The file is shown in Notepad where there is a broker; it exists either way.
  unfoldable pub show_file : String → Exec Bool
  show_file path w = elim kit.broker [
    | none ↦ (done false, w)
    | some broker ↦ opened_by (launch_as broker "create_text_file" (notepad_command path)) w
  ]

  -- `path.read_text() == content`
  abbrev pub is_written : String → String → Bool
  is_written path content = elim (kit.disk.read_back path content) [
    | none ↦ false
    | some text ↦ text == content
  ]

  -- The part of `CreateTextFileTool.run` behind the checks of the arguments.
  unfoldable pub write_file : String → String → Exec Value
  unfolding show_file
  write_file path content w = elim (kit.disk.write path content) [
    | some e ↦ (done (answer false "path" (str path) (str ("write failed: " <> e))), w)
    | none ↦
        if not (is_written path content)
        then (done (answer false "path" (str path) (str "content verification failed")), w)
        else (show_file path >>= λ opened. pure (
              dict (
                field "success" (bool true) (
                  field "path" (str path)
                    (field "opened" (bool opened) (field "error" null end))))))
            w
  ]

  unfoldable pub create_text_file : Dict → Exec Value
  unfolding write_file
  create_text_file args w = elim (sanitize_filename kit.str_of (arg "filename" args)) [
    | err e ↦ (raised e, w)
    | ok name ↦
        let content = text_of kit.str_of (get_or (lookup "content" args) (str "")) in
        if ltb 20000 (count content)
        then (raised (tool "content too long"), w)
        else write_file (kit.disk.join kit.desktop_dir (name <> ".txt")) content w
  ]

  abbrev pub app_command : String → String
  app_command token = "start \"\" " <> token

  -- What a launch answers for an application or a page.
  abbrev pub launched : String → String → Value → String → CliResult → Value
  launched key text shown prefix res =
      if res.blocked
      then answer false key (str text)
          (str (prefix <> text_of kit.str_of (opt_text res.blocked_reason)))
      else shown

  abbrev pub denied : Option PermissionPolicy → String → Bool
  denied none app = false
  denied (some policy) app = not (authorize_app policy app)

  unfoldable pub open_token : String → String → Exec Value
  open_token app token w =
      if denied kit.policy app
      then (done (answer false "app" (str app) (str "app launch denied by permission policy")), w)
      else elim kit.broker [
        | none ↦ (done (answer false "app" (str app) (str "no broker to launch the app")), w)
        | some broker ↦
            (launch_as broker "open_app" (app_command token) >>= λ res. pure (
                launched "app" app
                  (dict (
                    field "success" (bool true) (
                      field "app" (str app)
                        (field "launched" (str token) (field "error" null end)))))
                  "launch blocked: " res))
              w
      ]

  -- `OpenAppTool.run`
  unfoldable pub open_app : Dict → Exec Value
  unfolding open_token lower strip
  open_app args w =
      let app = lower (strip (text_of kit.str_of (get_or (lookup "app" args) (str "")))) in
      elim (token_of app_allowlist app) [
        | none ↦ (raised (tool "app not allowed"), w)
        | some token ↦ open_token app token w
      ]

  abbrev pub url_command : String → String
  url_command url = "start \"\" \"" <> url <> "\""

  -- `OpenUrlTool.run`
  unfoldable pub open_url : Dict → Exec Value
  open_url args w = elim (sanitize_url kit.str_of (arg "url" args)) [
    | err e ↦ (raised e, w)
    | ok url ↦ elim kit.broker [
      | none ↦ (done (answer false "url" (str url) (str "no broker to open the url")), w)
      | some broker ↦
          (launch_as broker "open_url" (url_command url) >>= λ res.
          pure (launched "url" url (answer true "url" (str url) null) "open blocked: " res))
            w
    ]
  ]
