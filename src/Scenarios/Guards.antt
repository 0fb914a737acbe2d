-- ===== src/Scenarios/Guards.antt =====
-- The emergency stop, the policy and the broker on concrete inputs.
use desktop_worker.Prelude.{
  ◌≡◌, ◌≢◌, ◌↔◌, ◌⊎◌, refl, true, false, none, [], ◌∷◌, ◌+◌, ◌++◌, length, List, if◌then◌else◌,
}
use desktop_worker.Prelude.Text.{lower, strip}
use desktop_worker.Errors.{ok}
use desktop_worker.Value.{str, bool, end, field}
use desktop_worker.Safety.EmergencyStop.{
  EmergencyStop, Happening, pauses, resumes, stops, stop, check, happen_all, halted, pass,
}
use desktop_worker.Safety.EmergencyStop.Laws.{stop-check}
use desktop_worker.Safety.EmergencyStop.Guard.{check_misses_stop}
use desktop_worker.Safety.Policy.{
  low, high, ApprovalRequest, authorize, build_policy, deny_all, auto_approve, settings,
  profile_name,
}
use desktop_worker.Safety.Policy.Laws.{build_policy-authorize}
use desktop_worker.Broker.Run.{run_guarded, launch_guarded, limit_ms}
use desktop_worker.Broker.Run.Gate.{MayRun, Launched, guarded-MayRun, books-run_guarded}
use desktop_worker.Scenarios.Data.{clear_stop, start, quiet_os, plain_broker, driver}

abbrev busy : List Happening
busy = pauses ∷ resumes ∷ []

stop-check_example :
    let s = happen_all busy (stop true "user" clear_stop) in check [] s ≡ (halted s, s)
stop-check_example = stop-check true "user" clear_stop busy [] (tt, (tt, tt))

abbrev on_pause : EmergencyStop
on_pause = record clear_stop { paused = true }

check_misses_stop_example :
    let out = check ((stops true "user" ∷ resumes ∷ []) ∷ []) on_pause in
    (out.0 ≡ pass) × (out.1.stopped ≡ true)
check_misses_stop_example = check_misses_stop true "user" [] on_pause refl refl refl

abbrev request : ApprovalRequest
request = record { kind = "action"; summary = "mouse.click"; risk = low; detail = end }

headless : build_policy "Headless" auto_approve [] [] ≡ ok (settings [] [] deny_all high)
unfolding build_policy profile_name lower
headless = refl

build_policy-authorize_example :
    (profile_name "Headless" ≡ "headless"
      → (authorize (settings [] [] deny_all high) request ≡ true) ↔ (low ≢ high))
    × (profile_name "Headless" ≡ "strict"
        → (authorize (settings [] [] deny_all high) request ≡ true)
          ↔ ((low ≡ low) ⊎ (auto_approve request ≡ true)))
    × (profile_name "Headless" ≡ "standard"
        → (authorize (settings [] [] deny_all high) request ≡ true)
          ↔ ((low ≢ high) ⊎ (auto_approve request ≡ true)))
build_policy-authorize_example =
    build_policy-authorize "Headless" auto_approve [] [] request headless

books-run_guarded_example :
    let (r, w') = run_guarded quiet_os plain_broker "echo hi" "work" none true driver start in
    (w'.books.history ≡ [] ++ (r ∷ []))
    × (length w'.audit.entries ≡ 0 + 1)
    × (w'.books.counter ≡ (if r.blocked then 0 else 0 + 1))
books-run_guarded_example =
    books-run_guarded quiet_os plain_broker "echo hi" "work" driver start none true

guarded-MayRun_example :
    (((run_guarded quiet_os plain_broker "notepad" "work" none true driver start).0.blocked ≡ true)
      ⊎ (MayRun quiet_os plain_broker "notepad" "work" driver start "cli"
            (field "cwd" (str "work") (field "elevated" (bool true) end))
          × (quiet_os.is_dir [] "work" ≡ true)))
    × (((launch_guarded quiet_os plain_broker "notepad" "work" driver start).0.blocked ≡ true)
        ⊎ (MayRun quiet_os plain_broker "notepad" "work" driver start "launch"
              (field "cwd" (str "work") end)
            × (quiet_os.is_dir [] "work" ≡ true)
            × (quiet_os.popen [] (strip "notepad") "work" ≡ none)))
    × (((run_guarded quiet_os plain_broker "notepad" "work" none true driver start).0.elevated
          ≡ false)
        ⊎ ((true ≡ true)
            × ((quiet_os.is_process_elevated [] ≡ true)
                ⊎ Launched quiet_os none []
                    (strip "notepad")
                    "work"
                    (limit_ms quiet_os plain_broker none))))
guarded-MayRun_example =
    guarded-MayRun quiet_os plain_broker "notepad" "work" driver start none true
