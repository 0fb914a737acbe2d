-- ===== src/Broker/Cli.antt =====
-- src/desktop_worker/broker/cli_broker.py: the one boundary that runs commands. What the operating
-- system answers is the record `Os`; each answer may depend on the results that the broker has given
-- before. Writing the two output files is not modelled, and neither is the text of time stamps.
use Prim.Native.Nat.{◌-◌}
use Prim.Native.String.{count}
use desktop_worker.Prelude.{
  ℕ, zero, suc, String, Bool, true, false, Option, none, some, List, [], ◌∷◌, ◌++◌, string_eq,
}
use desktop_worker.Prelude.Int.{ℤ}
use desktop_worker.Prelude.Text.{strip}
use desktop_worker.Value.{Value, Dict, null, bool, int, str, end, field}
use desktop_worker.Schema.Results.{CliResult}
use desktop_worker.Safety.Policy.{PermissionPolicy}
use desktop_worker.Audit.Log.{from, write}
use desktop_worker.Session.{World}

-- How `subprocess.run` ends: by itself, by its time limit, or with an `OSError`.
pub data Completion : Type 0 where
  completed : ℤ → String → String → Completion
  expired : String → String → Completion
  failed : String → Completion

-- src/desktop_worker/broker/elevation.py: `ElevatedRun`, with the two files that it left.
pub record ElevatedRun : Type 0 where
  pub exit_code : Option ℤ
  pub timed_out : Bool
  pub launched : Bool
  pub error : String
  pub stdout_text : String
  pub stderr_text : String

abbrev pub History : Type 0
History = List CliResult

pub record Os : Type 0 where
  pub is_dir : History → String → Bool
  pub str_path : String → String
  pub is_process_elevated : History → Bool
  -- `subprocess.run` on a command, a folder and a limit in milliseconds
  pub run : History → String → String → ℤ → Completion
  -- `subprocess.Popen`: the message of an `OSError`, if there is one
  pub popen : History → String → String → Option String
  -- the note on a command that ran out of its time
  pub timeout_note : ℤ → String

pub record Broker : Type 0 where
  pub policy : PermissionPolicy
  pub cli_dir : String
  -- whether an emergency stop is wired in
  pub guarded : Bool
  pub default_timeout_ms : ℤ
  pub elevator : Option (History → String → String → ℤ → ElevatedRun)

-- `text[-_TAIL_CHARS:]`
drop_chars : ℕ → String → String
drop_chars zero s = s
drop_chars (suc n) String.[] = ""
drop_chars (suc n) (String.◌∷◌ c s) = drop_chars n s

unfoldable pub tail : String → String
unfolding drop_chars
tail s = drop_chars (count s - 2000) s

abbrev pub opt_int : Option ℤ → Value
opt_int none = null
opt_int (some n) = int n

abbrev pub opt_text : Option String → Value
opt_text none = null
opt_text (some s) = str s

-- `CliResult.to_dict`, without the time stamps
unfoldable pub cli_to_dict : CliResult → Dict
cli_to_dict r = field "command" (str r.command) (
    field "cwd" (str r.cwd) (
      field "exitCode" (opt_int r.exit_code) (
        field "stdoutRef" (opt_text r.stdout_ref) (
          field "stderrRef" (opt_text r.stderr_ref) (
            field "elevated" (bool r.elevated) (
              field "riskLevel" (str r.risk_level) (
                field "approvedByUser" (bool r.approved_by_user) (
                  field "timedOut" (bool r.timed_out) (
                    field "blocked" (bool r.blocked)
                      (field "blockedReason" (opt_text r.blocked_reason) end))))))))))

abbrev pub append_history : CliResult → World → World
append_history r w = record w { books = record w.books { history = w.books.history ++ (r ∷ []) } }

-- `allow_for_session`
unfoldable pub allow_for_session : String → World → World
allow_for_session command w = record w {
  books = record w.books { session_allow = strip command ∷ w.books.session_allow };
}

-- Who drives: the keywords `agent` and `role`.
pub record Driver : Type 0 where
  pub agent : String
  pub role : String

abbrev pub approval : Bool → Bool → Dict
approval required approved = field "required" (bool required) (field "approved" (bool approved) end)

-- A result is appended to the history, and its entry to the log.
unfoldable pub note : String → CliResult → Dict → Driver → World → CliResult × World
unfolding cli_to_dict
note event result approval d w =
    let details = record (from d.agent d.role) {
      cli = some (cli_to_dict result);
      approval = some approval;
    } in
    (result, record (append_history result w) { audit = write event details w.audit })

-- `_blocked`
unfoldable pub blocked : String → String → String → String → Driver → World → CliResult × World
unfolding note
blocked command cwd risk reason d w =
    let result : CliResult = record {
      command = command;
      cwd = cwd;
      exit_code = none;
      stdout_ref = none;
      stderr_ref = none;
      elevated = false;
      risk_level = risk;
      approved_by_user = false;
      timed_out = false;
      blocked = true;
      blocked_reason = some reason;
      stdout_tail = "";
      stderr_tail = "";
    } in
    let approval =
      field "required" (bool true)
        (field "approved" (bool false) (field "reason" (str reason) end)) in
    note "cli.blocked" result approval d w
