-- ===== src/Broker/Run/Gate.antt =====
-- src/desktop_worker/broker/cli_broker.py: what passes the gate of the broker, and what a run leaves.
use desktop_worker.Prelude.{
  ◌+◌, String, ◌≡◌, ◌⊎◌, Bool, true, false, [], ◌∷◌, ◌++◌, Option, none, some, arith, contains,
  length, if◌then◌else◌, Bool-cases, inl, inr,
}
use desktop_worker.Prelude.Int.{ℤ}
use desktop_worker.Prelude.Text.{strip}
use desktop_worker.Value.{Dict, bool, str, end, field}
use desktop_worker.Safety.Policy.{authorize, requires_approval}
use desktop_worker.Audit.Log.Laws.{length-write}
use desktop_worker.Broker.Risk.{classify_command}
use desktop_worker.Broker.Cli.{Os, Broker, Driver, History, ElevatedRun, blocked}
use desktop_worker.Broker.Run.{
  run_guarded, launch_guarded, launch_detached, gate, execute_command, perform_with, run_elevated,
  limit_ms,
}
use desktop_worker.Session.{World}

-- There is a strategy of elevation, and it starts the command.
abbrev pub Launched :
    Os
    → Option (History → String → String → ℤ → ElevatedRun)
    → History
    → String
    → String
    → ℤ
    → Type 0
Launched os none h command cwd limit = ⊥
Launched os (some elevate) h command cwd limit = (elevate h command cwd limit).launched ≡ true

perform_with-honest :
    (os : Os) (b : Broker) (elevator : Option (History → String → String → ℤ → ElevatedRun))
    (elevated : Bool) (h : History) (command cwd : String) (limit : ℤ)
    → (perform_with os b elevator elevated h command cwd limit).elevated ≡ true
    → (elevated ≡ true)
      × ((os.is_process_elevated h ≡ true) ⊎ Launched os elevator h command cwd limit)
unfolding perform_with run_elevated
perform_with-honest os b none elevated h command cwd limit e = ground arith
perform_with-honest os b (some elevate) elevated h command cwd limit e = ground arith

module _ (os : Os) (b : Broker) (raw cwd : String) (d : Driver) (w : World) where
  abbrev command : String
  command = strip raw

  -- What lets a command run: its risk needs no approval, it was allowed for the session, or the
  -- policy authorizes the request.
  abbrev pub MayRun : String → Dict → Type 0
  MayRun kind detail =
      (requires_approval b.policy (classify_command command) ≡ false)
      ⊎ ((contains w.books.session_allow command ≡ true)
          ⊎ (authorize b.policy (record {
            kind = kind;
            summary = command;
            risk = classify_command command;
            detail = detail;
          })
              ≡ true))

  module _ (limit : Option ℤ) (elevated : Bool) where
    run_guarded-MayRun :
        (run_guarded os b raw cwd limit elevated d w).0.blocked ≡ false
        → MayRun "cli" (field "cwd" (str cwd) (field "elevated" (bool elevated) end))
          × (os.is_dir w.books.history cwd ≡ true)
    unfolding run_guarded gate blocked
    run_guarded-MayRun h = ground arith

    counter-run_guarded :
        let (r, w') = run_guarded os b raw cwd limit elevated d w in
        w'.books.counter ≡ (if r.blocked then w.books.counter else w.books.counter + 1)
    unfolding run_guarded blocked execute_command
    counter-run_guarded = ground arith

    history-run_guarded :
        let (r, w') = run_guarded os b raw cwd limit elevated d w in
        (w'.books.history ≡ w.books.history ++ (r ∷ []))
        × (length w'.audit.entries ≡ length w.audit.entries + 1)
    unfolding run_guarded blocked execute_command
    history-run_guarded = (ground arith, grind (arith, length-write))

    -- On every branch the result is what the history gains, the log gains one entry, and the next
    -- number is taken exactly when the command is not blocked.
    pub books-run_guarded :
        let (r, w') = run_guarded os b raw cwd limit elevated d w in
        (w'.books.history ≡ w.books.history ++ (r ∷ []))
        × (length w'.audit.entries ≡ length w.audit.entries + 1)
        × (w'.books.counter ≡ (if r.blocked then w.books.counter else w.books.counter + 1))
    books-run_guarded = (history-run_guarded.0, history-run_guarded.1, counter-run_guarded)

    elevated-run_guarded :
        (run_guarded os b raw cwd limit elevated d w).0.elevated ≡ true
        → (elevated ≡ true)
          × ((os.is_process_elevated w.books.history ≡ true)
              ⊎ Launched os b.elevator w.books.history command
                  (os.str_path cwd)
                  (limit_ms os b limit))
    unfolding run_guarded blocked execute_command
    elevated-run_guarded h = ground (
      arith,
      perform_with-honest os b b.elevator elevated w.books.history command (os.str_path cwd)
          (limit_ms os b limit),
    )

  launch_guarded-MayRun :
      (launch_guarded os b raw cwd d w).0.blocked ≡ false
      → MayRun "launch" (field "cwd" (str cwd) end)
        × (os.is_dir w.books.history cwd ≡ true)
        × (os.popen w.books.history command (os.str_path cwd) ≡ none)
  unfolding launch_guarded launch_detached gate blocked
  launch_guarded-MayRun h = ground arith

  -- What `run` and `launch` return is blocked, or of a command that may run, in a folder that is there;
  -- for `launch` the process was started; and a result of `run` never claims more privilege than was
  -- asked for and had: the process was elevated, or the strategy did start the command.
  pub guarded-MayRun :
      (limit : Option ℤ) (elevated : Bool)
      → (((run_guarded os b raw cwd limit elevated d w).0.blocked ≡ true)
          ⊎ (MayRun "cli" (field "cwd" (str cwd) (field "elevated" (bool elevated) end))
              × (os.is_dir w.books.history cwd ≡ true)))
        × (((launch_guarded os b raw cwd d w).0.blocked ≡ true)
            ⊎ (MayRun "launch" (field "cwd" (str cwd) end)
                × (os.is_dir w.books.history cwd ≡ true)
                × (os.popen w.books.history command (os.str_path cwd) ≡ none)))
        × (((run_guarded os b raw cwd limit elevated d w).0.elevated ≡ false)
            ⊎ ((elevated ≡ true)
                × ((os.is_process_elevated w.books.history ≡ true)
                    ⊎ Launched os b.elevator w.books.history command
                        (os.str_path cwd)
                        (limit_ms os b limit))))
  guarded-MayRun limit elevated = (
    elim (Bool-cases (run_guarded os b raw cwd limit elevated d w).0.blocked) [
      | inl refused ↦ inl refused
      | inr ran ↦ inr (run_guarded-MayRun limit elevated ran)
    ],
    elim (Bool-cases (launch_guarded os b raw cwd d w).0.blocked) [
      | inl refused ↦ inl refused
      | inr ran ↦ inr (launch_guarded-MayRun ran)
    ],
    elim (Bool-cases (run_guarded os b raw cwd limit elevated d w).0.elevated) [
      | inr plain ↦ inl plain
      | inl raised ↦ inr (elevated-run_guarded limit elevated raised)
    ],
  )
