-- ===== src/Ui/Approvals.antt =====
-- src/desktop_worker/ui/controller.py: `ApprovalQueue`, the handshake between the threads that ask for
-- approval and the threads that answer. A move is one access to the shared state that no other thread
-- can divide: what happens under the lock is one move, and the event is set outside of it.
pub mod Orderly
pub mod Safety
pub mod Progress
pub mod Late
use desktop_worker.Prelude.{
  ℕ, Bool, true, false, ◌≡◌, Option, none, some, List, [], ◌∷◌, if◌then◌else◌,
}
use mathlib.Core.Logic.{ite}
use native.Mathlib.Decide.{ℕ_discrete}

-- The fields of the queue. `is_free` is the semaphore of one slot, `event` the flag of the event.
pub record ApprovalQueue (A : Type 0) : Type 0 where
  pub is_free : Bool
  pub event : Bool
  pub request : Option A
  pub is_pending : Bool
  pub decision : Bool

-- Where a thread stands: in `request`, in `resolve`, or in neither. In front of its waits a request
-- has whether it was given a timeout; `None`, the default, is `false`.
pub data Place (A : Type 0) : Type 0 where
  idle : Place A
  asking : A → Bool → Place A
  owning : A → Bool → Place A
  waiting : A → Bool → Place A
  woken : A → Bool → Place A
  leaving : Bool → Place A
  answered : Bool → Place A
  resolving : Bool → Place A
  signalling : Place A

-- What the threads do that others can tell, with the number of the thread.
pub data Event (A : Type 0) : Type 0 where
  refused : ℕ → A → Event A
  opened : ℕ → A → Event A
  closed : ℕ → A → Bool → Event A
  seen : ℕ → Option A → Event A
  decided : ℕ → Bool → Event A
  silent : Event A

-- The slot is taken, and a request stands in it.
unfoldable pub open_request : {A : Type 0} → A → ApprovalQueue A → ApprovalQueue A
open_request r q = record q { request = some r; is_pending = true; decision = false; event = false }

unfoldable pub close_request : {A : Type 0} → ApprovalQueue A → ApprovalQueue A
close_request q = record q { request = none; is_pending = false }

-- `self._decision if got else False`
abbrev pub outcome : {A : Type 0} → Bool → ApprovalQueue A → Bool
outcome got q = if got then q.decision else false

-- `pending`
unfoldable pub pending : {A : Type 0} → ApprovalQueue A → Option A
pending q = if q.is_pending then q.request else none

-- One move of thread `i`: from its place, to the queue and the place that it leaves, with what it
-- did. A wait ends because the event is set, or, where there is a timeout, by it while it is not.
pub data Move {A : Type 0} (i : ℕ) (q : ApprovalQueue A)
    : Place A → ApprovalQueue A → Place A → Event A → Type 0 where
  ask : (r : A) (timed : Bool) → Move i q idle q (asking r timed) silent
  acquire :
      {r : A} {timed : Bool}
      → q.is_free ≡ true
      → Move i q (asking r timed) (record q { is_free = false }) (owning r timed) silent
  give_up : {r : A} → q.is_free ≡ false → Move i q (asking r true) q (answered false) (refused i r)
  begin :
      {r : A} {timed : Bool}
      → Move i q (owning r timed) (open_request r q) (waiting r timed) (opened i r)
  wake :
      {r : A} {timed : Bool} → q.event ≡ true → Move i q (waiting r timed) q (woken r true) silent
  time_out : {r : A} → q.event ≡ false → Move i q (waiting r true) q (woken r false) silent
  close :
      {r : A} {got : Bool}
      → Move i q
          (woken r got)
          (close_request q)
          (leaving (outcome got q))
          (closed i r (outcome got q))
  release : {g : Bool} → Move i q (leaving g) (record q { is_free = true }) (answered g) silent
  look : Move i q idle q idle (seen i (pending q))
  resolve : (b : Bool) → Move i q idle q (resolving b) silent
  decide : {b : Bool} → Move i q (resolving b) (record q { decision = b }) signalling (decided i b)
  signal : Move i q signalling (record q { event = true }) idle silent

abbrev pub update : {A : Type 0} → (ℕ → A) → ℕ → A → ℕ → A
update f i a j = ite (ℕ_discrete i j) a (f j)

pub record System (A : Type 0) : Type 0 where
  pub queue : ApprovalQueue A
  pub place : ℕ → Place A

-- `__init__`
abbrev pub init : {A : Type 0} → System A
init = record {
  queue = record {
    is_free = true;
    event = false;
    request = none;
    is_pending = false;
    decision = false;
  };
  place = λ i. idle;
}

abbrev pub moved : {A : Type 0} → System A → ℕ → ApprovalQueue A → Place A → System A
moved s i q p = record { queue = q; place = update s.place i p }

-- The systems that threads can reach, with what was done, the latest first.
pub data Run {A : Type 0} : List (Event A) → System A → Type 0 where
  start : Run [] init
  later :
      {log : List (Event A)} {s : System A} {q : ApprovalQueue A} {p : Place A} {e : Event A}
      → Run log s
      → (i : ℕ) → Move i s.queue (s.place i) q p e
      → Run (e ∷ log) (moved s i q p)
