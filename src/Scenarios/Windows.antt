-- ===== src/Scenarios/Windows.antt =====
-- The approvals of the user and the wait for a download on concrete inputs.
use desktop_worker.Prelude.{
  ℕ, zero, suc, ◌+◌, ◌*◌, ◌≤◌, ◌≡◌, false, String, ◌<>◌, Option, none, some, List, [], ◌∷◌, arith,
}
use desktop_worker.Ui.Approvals
use desktop_worker.Ui.Approvals.{Event, System, Run}
use desktop_worker.Ui.Approvals.Orderly.{IsOrderly}
use desktop_worker.Ui.Approvals.Safety.{Run-IsOrderly}
use desktop_worker.Ui.Approvals.Late.{crossed, late_decision}
use desktop_worker.Workflows.Downloads.{Watch, after_snapshot, before_of, wait_for_download}
use desktop_worker.Workflows.Downloads.Ends.{Ended, wait_for_download-Ended}

Run-IsOrderly_example : IsOrderly {A = String} (crossed "first" "second")
Run-IsOrderly_example = Run-IsOrderly (late_decision "first" "second" false).1

late_decision_example : (s : System String) × Run (crossed "delete" "list") s
late_decision_example = late_decision "delete" "list" false

-- Thread 0 asks without a timeout, is alone, and waits.
abbrev asked : List (Event String)
asked = Event.opened 0 "delete" ∷ Event.silent ∷ Event.silent ∷ []

-- A folder in which a download is ready at its third listing, and a clock that gains 500 each time.
abbrev listings : ℕ → List String
listings zero = []
listings (suc zero) = "a.part" ∷ []
listings (suc (suc k)) = "a.txt" ∷ []

abbrev slow : Watch
slow = record {
  listing = λ k. some (listings k);
  clock = λ k. k * 500;
  path_of = λ name. "C:/" <> name;
}

gains : (k : ℕ) → slow.clock k + 500 ≤ slow.clock (suc k)
gains k = omega arith

wait_for_download-Ended_example :
    (r : Option String) × (wait_for_download 4 slow none 2000 ≡ some r)
    × Ended (after_snapshot slow none) (before_of slow none) 2000 0 r
wait_for_download-Ended_example =
    wait_for_download-Ended slow none 2000 4 500 (omega arith) gains (omega arith) (omega arith)
