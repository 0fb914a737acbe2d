-- ===== src/Session.antt =====
-- The state that one session shares (src/desktop_worker/app.py): the audit log, the emergency stop,
-- the calls that reached the input backend, and the broker's books; and the actions on this state,
-- which may raise, or hang in a pause that nobody lifts.
pub mod Laws
pub mod Preserves
use desktop_worker.Prelude.{
  ℕ, String, Bool, true, false, Option, none, some, List, [], ◌∷◌, ◌++◌, if◌then◌else◌,
}
use desktop_worker.Errors.{Error, emergency_stop, Result, ok, err}
use desktop_worker.Value.{Value}
use desktop_worker.Schema.Results.{CliResult}
use desktop_worker.Safety.EmergencyStop.{
  EmergencyStop, Happening, happen_all, check, pass, halt, waiting,
}
use desktop_worker.Audit.Log.{AuditLog, Details, write}

-- A call of the `InputBackend` protocol (src/desktop_worker/actions/backends.py), with its arguments
-- as the executor hands them over; and `time.sleep`, in milliseconds.
pub data Call : Type 0 where
  move move_relative scroll : Value → Value → Call
  click double_click : Value → Value → Value → Call
  mouse_down mouse_up : Value → Call
  drag : Value → Value → Value → Value → Value → Call
  stroke : Value → Value → Call
  type_text press_key hotkey clipboard_set : Value → Call
  clipboard_get : Call
  sleep : Value → Call

-- A backend answers a call, or raises, as it likes, given the calls before it.
abbrev pub InputBackend : Type 0
InputBackend = List Call → Call → Result Value

-- What others do to the emergency stop before one guard, and in each of its waits.
pub record Visit : Type 0 where
  pub before : List Happening
  pub rounds : List (List Happening)

-- The books of the broker: `_counter`, `history` and `_session_allow`.
pub record Books : Type 0 where
  pub counter : ℕ
  pub history : List CliResult
  pub session_allow : List String

pub record World : Type 0 where
  pub audit : AuditLog
  pub estop : EmergencyStop
  pub schedule : List Visit
  pub calls : List Call
  pub books : Books
  -- the executor's `_in_tool`
  pub in_tool : Bool

pub data Outcome {ℓ} (A : Type ℓ) : Type ℓ where
  done : A → Outcome A
  raised : Error → Outcome A
  hang : Outcome A

abbrev pub Exec : Type 0 → Type 0
Exec A = World → Outcome A × World

module _ {A : Type 0} where
  abbrev pub pure : A → Exec A
  pure a w = (done a, w)

  abbrev pub raise : Error → Exec A
  raise e w = (raised e, w)

  abbrev pub lift : Result A → Exec A
  lift (ok a) w = (done a, w)
  lift (err e) w = (raised e, w)

  -- `try: m except Exception as e: handler(e)`
  abbrev pub catch : Exec A → (Error → Exec A) → Exec A
  catch m handler w =
      let (r, w') = m w in
      elim r [ done a ↦ (done a, w') | raised e ↦ handler e w' | hang ↦ (hang, w') ]

  -- `try: m finally: last`
  abbrev pub finally : Exec A → (World → World) → Exec A
  finally m last w =
      let (r, w') = m w in
      elim r [ done a ↦ (done a, last w') | raised e ↦ (raised e, last w') | hang ↦ (hang, w') ]

infixl 5 ◌>>=◌ ◌>>◌
abbrev pub ◌>>=◌ : {A B : Type 0} → Exec A → (A → Exec B) → Exec B
◌>>=◌ m f w =
    let (r, w') = m w in elim r [ done a ↦ f a w' | raised e ↦ (raised e, w') | hang ↦ (hang, w') ]

abbrev pub ◌>>◌ : {B : Type 0} → Exec (Unit {0}) → Exec B → Exec B
m >> k = m >>= λ _. k

-- The visit of the next guard, and the schedule behind it.
abbrev pub next_visit : List Visit → Visit × List Visit
next_visit [] = (record { before = []; rounds = [] }, [])
next_visit (v ∷ vs) = (v, vs)

-- `self.estop.check()`
unfoldable pub check_estop : Exec (Unit {0})
check_estop w =
    let (visit, rest) = next_visit w.schedule in
    let (verdict, estop) = check visit.rounds (happen_all visit.before w.estop) in
    let w' = record w { estop = estop; schedule = rest } in
    elim verdict [
      | pass ↦ (done tt, w')
      | halt reason ↦ (raised (emergency_stop reason), w')
      | waiting ↦ (hang, w')
    ]

-- A call of the input backend: it is noted whether it returns or raises.
abbrev pub call : InputBackend → Call → Exec Value
call backend c w = lift (backend w.calls c) (record w { calls = w.calls ++ (c ∷ []) })
