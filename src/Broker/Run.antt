-- ===== src/Broker/Run.antt =====
-- src/desktop_worker/broker/cli_broker.py: `run` and `launch`, each guard in the order of the source.
pub mod Gate
use desktop_worker.Prelude.{
  ℕ, ◌+◌, String, ◌<>◌, Bool, true, false, not, ◌&&◌, Option, none, some, List, [], ◌∷◌, contains,
  if◌then◌else◌,
}
use desktop_worker.Prelude.Int.{ℤ, pos, is_zero}
use desktop_worker.Prelude.Text.{strip}
use desktop_worker.Prelude.Decimal.{padded}
use desktop_worker.Value.{Dict, bool, str, end, field}
use desktop_worker.Dict.{is_some}
use desktop_worker.Schema.Results.{CliResult}
use desktop_worker.Safety.Policy.{RiskLevel, value, ApprovalRequest, authorize, requires_approval}
use desktop_worker.Audit.Log.{from}
use desktop_worker.Broker.Risk.{classify_command}
use desktop_worker.Broker.Cli.{
  Completion, completed, expired, failed, ElevatedRun, History, Os, Broker, Driver, tail, note,
  approval, blocked,
}
use desktop_worker.Session.{World, Exec, Outcome, done, ◌>>=◌, check_estop}

-- What a command left: its exit code, whether its time ran out, its two texts, and whether it ran
-- elevated.
pub record Ran : Type 0 where
  pub exit_code : Option ℤ
  pub timed_out : Bool
  pub out : String
  pub err : String
  pub elevated : Bool

-- `self.estop.check()`, where an emergency stop is wired in.
unfoldable pub guard_estop : Bool → Exec (Unit {0})
guard_estop true w = check_estop w
guard_estop false w = (done tt, w)

module _ (os : Os) (broker : Broker) where
  unfoldable pub run_inline : History → String → String → ℤ → Ran
  run_inline h command cwd limit = elim (os.run h command cwd limit) [
    | completed code out err ↦ record {
      exit_code = some code;
      timed_out = false;
      out = out;
      err = err;
      elevated = false;
    }
    | expired out err ↦ record {
      exit_code = none;
      timed_out = true;
      out = out;
      err = err <> os.timeout_note limit;
      elevated = false;
    }
    | failed message ↦ record {
      exit_code = none;
      timed_out = false;
      out = "";
      err = "[broker] failed to launch command: " <> message;
      elevated = false;
    }
  ]

  -- A strategy that did not start falls back to a run that is not elevated, and says so.
  unfoldable pub run_elevated :
      (History → String → String → ℤ → ElevatedRun) → History → String → String → ℤ → Ran
  unfolding run_inline
  run_elevated elevate h command cwd limit =
      let run = elevate h command cwd limit in
      let plain = run_inline h command cwd limit in
      let note = "[broker] elevation failed (" <> run.error <> "); ran without elevation" in
      if run.launched
      then record {
        exit_code = run.exit_code;
        timed_out = run.timed_out;
        out = run.stdout_text;
        err = run.stderr_text;
        elevated = true;
      }
      else record plain { err = strip (plain.err <> "\n" <> note); elevated = false }

  -- The elevator is used only when elevation is asked for and the process is not elevated yet.
  unfoldable pub perform_with :
      Option (History → String → String → ℤ → ElevatedRun)
      → Bool
      → History
      → String
      → String
      → ℤ
      → Ran
  perform_with elevator elevated h command cwd limit =
      let admin = os.is_process_elevated h in
      let inline = run_inline h command cwd limit in
      let plain = record inline { elevated = elevated && admin } in
      elim elevator [
        | none ↦ plain
        | some elevate ↦
            if elevated && not admin then run_elevated elevate h command cwd limit else plain
      ]

  abbrev pub perform : Bool → History → String → String → ℤ → Ran
  perform = perform_with broker.elevator

  -- Whether the command may go on, and whether a person approved it. A command that was allowed for
  -- the session is not asked about again.
  unfoldable pub gate : String → String → RiskLevel → Dict → World → Bool × Bool
  gate kind command risk detail w =
      let request : ApprovalRequest = record {
        kind = kind;
        summary = command;
        risk = risk;
        detail = detail;
      } in
      let approved =
        if contains w.books.session_allow command then true else authorize broker.policy request in
      if requires_approval broker.policy risk then (approved, approved) else (true, false)

  abbrev missing_dir : String → String
  missing_dir cwd = "working directory does not exist: " <> cwd

  -- The timeout argument counts as missing when it is 0.
  abbrev pub limit_ms : Option ℤ → ℤ
  limit_ms none = broker.default_timeout_ms
  limit_ms (some n) = if is_zero n then broker.default_timeout_ms else n

  -- The part of `run` behind the two guards: number the run, perform it, note it.
  unfoldable pub execute_command :
      String → String → RiskLevel → Bool → Option ℤ → Bool → Driver → World → CliResult × World
  unfolding note
  execute_command command cwd risk approved timeout_ms elevated d w =
      let n = w.books.counter + 1 in
      let ran = perform elevated w.books.history command (os.str_path cwd) (limit_ms timeout_ms) in
      let result : CliResult = record {
        command = command;
        cwd = os.str_path cwd;
        exit_code = ran.exit_code;
        stdout_ref = some (broker.cli_dir <> "/" <> padded n <> ".stdout.txt");
        stderr_ref = some (broker.cli_dir <> "/" <> padded n <> ".stderr.txt");
        elevated = ran.elevated;
        risk_level = value risk;
        approved_by_user = approved;
        timed_out = ran.timed_out;
        blocked = false;
        blocked_reason = none;
        stdout_tail = tail ran.out;
        stderr_tail = tail ran.err;
      } in
      note "cli.executed" result (approval (requires_approval broker.policy risk) approved) d
        (record w { books = record w.books { counter = n } })

  -- `run` behind the emergency-stop guard.
  unfoldable pub run_guarded :
      String → String → Option ℤ → Bool → Driver → World → CliResult × World
  run_guarded raw cwd timeout_ms elevated d w =
      let command = strip raw in
      let risk = classify_command command in
      let detail = field "cwd" (str cwd) (field "elevated" (bool elevated) end) in
      let (go, approved) = gate "cli" command risk detail w in
      if not go
      then blocked command cwd (value risk) "high-risk command not approved by user" d w
      else if not (os.is_dir w.books.history cwd)
      then blocked command cwd (value risk) (missing_dir cwd) d w
      else execute_command command cwd risk approved timeout_ms elevated d w

  abbrev pub return : CliResult × World → Outcome CliResult × World
  return (r, w) = (done r, w)

  unfoldable pub run : String → String → Option ℤ → Bool → Driver → Exec CliResult
  run raw cwd timeout_ms elevated d =
      guard_estop broker.guarded >>= λ u w. return (run_guarded raw cwd timeout_ms elevated d w)

  -- The part of `launch` behind the two guards.
  unfoldable pub launch_detached :
      String → String → RiskLevel → Bool → Driver → World → CliResult × World
  unfolding note
  launch_detached command cwd risk approved d w =
      let result : CliResult = record {
        command = command;
        cwd = os.str_path cwd;
        exit_code = some (pos 0);
        stdout_ref = none;
        stderr_ref = none;
        elevated = false;
        risk_level = value risk;
        approved_by_user = approved;
        timed_out = false;
        blocked = false;
        blocked_reason = none;
        stdout_tail = "(launched detached)";
        stderr_tail = "";
      } in
      elim (os.popen w.books.history command (os.str_path cwd)) [
        | some message ↦ blocked command cwd (value risk) ("failed to launch: " <> message) d w
        | none ↦
            note "cli.launched" result (approval (requires_approval broker.policy risk) approved) d
              w
      ]

  -- `launch` behind the emergency-stop guard.
  unfoldable pub launch_guarded : String → String → Driver → World → CliResult × World
  launch_guarded raw cwd d w =
      let command = strip raw in
      let risk = classify_command command in
      let (go, approved) = gate "launch" command risk (field "cwd" (str cwd) end) w in
      if not go
      then blocked command cwd (value risk) "launch not approved by user" d w
      else if not (os.is_dir w.books.history cwd)
      then blocked command cwd (value risk) (missing_dir cwd) d w
      else launch_detached command cwd risk approved d w

  unfoldable pub launch : String → String → Driver → Exec CliResult
  launch raw cwd d = guard_estop broker.guarded >>= λ u w. return (launch_guarded raw cwd d w)
