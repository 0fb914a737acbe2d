-- ===== src/Ui/Approvals/Late.antt =====
-- src/desktop_worker/ui/controller.py: a decision does not say which request it is for.
use desktop_worker.Prelude.{Bool, true, false, refl, some, List, [], ◌∷◌}
use native.Mathlib.Decide.{ℕ_discrete}
use desktop_worker.Ui.Approvals
use desktop_worker.Ui.Approvals.{Event, System, Run, start, later, Move}

-- Thread 0 asks for `first`, with a timeout, and thread 1 for `second`; thread 2 sees `first` and decides for it, but
-- `first` has timed out when the decision comes.
abbrev pub crossed : {A : Type 0} → A → A → List (Event A)
crossed first second =
    Event.closed 1 second true
    ∷ Event.silent
    ∷ Event.silent
    ∷ Event.decided 2 true
    ∷ Event.opened 1 second
    ∷ Event.silent
    ∷ Event.silent
    ∷ Event.closed 0 first false
    ∷ Event.silent
    ∷ Event.silent
    ∷ Event.seen 2 (some first)
    ∷ Event.silent
    ∷ Event.opened 0 first
    ∷ Event.silent
    ∷ Event.silent
    ∷ []

pub late_decision :
    {A : Type 0} (first second : A) (timed : Bool) → (s : System A) × Run (crossed first second) s
unfolding Approvals.open_request Approvals.close_request Approvals.pending ℕ_discrete
late_decision first second timed =
    let asked = later start 0 (Move.ask first true) in
    let took = later asked 0 (Move.acquire refl) in
    let opened = later took 0 Move.begin in
    let queued = later opened 1 (Move.ask second timed) in
    let seen = later queued 2 Move.look in
    let answering = later seen 2 (Move.resolve true) in
    let gone = later answering 0 (Move.time_out refl) in
    let shut = later gone 0 Move.close in
    let left = later shut 0 Move.release in
    let entered = later left 1 (Move.acquire refl) in
    let next = later entered 1 Move.begin in
    let decided = later next 2 Move.decide in
    let set = later decided 2 Move.signal in
    let woke = later set 1 (Move.wake refl) in (_, later woke 1 Move.close)
