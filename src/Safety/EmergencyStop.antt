-- ===== src/Safety/EmergencyStop.antt =====
-- src/desktop_worker/safety/emergency_stop.py: the stop and pause flags, the sentinel file, and the
-- guard before each action. Other threads and processes act while the guard loops: what they do in
-- each round is a list of happenings, and a guard that is still paused when the rounds end is
-- `waiting`. Whether a file operation fails with an `OSError` is an argument or a happening's part.
pub mod Laws
pub mod Guard
use desktop_worker.Prelude.{
  String, Bool, true, false, List, [], ◌∷◌, ◌==◌, string_eq, if◌then◌else◌,
}

-- The sentinel file: none configured, or one that is there (with its text) or not.
pub data Sentinel : Type 0 where
  unset absent : Sentinel
  present : String → Sentinel

pub record EmergencyStop : Type 0 where
  pub stopped : Bool
  pub paused : Bool
  pub reason : String
  pub file : Sentinel

-- `self._estop_file is not None and self._estop_file.exists()`
abbrev pub exists : Sentinel → Bool
exists (present text) = true
exists _ = false

-- The write of `stop`; it makes the parent folders, and an `OSError` leaves the file alone.
abbrev pub write : Bool → String → Sentinel → Sentinel
write writable text unset = unset
write writable text file = if writable then present text else file

abbrev pub unlink : Bool → Sentinel → Sentinel
unlink removable (present text) = if removable then absent else present text
unlink removable file = file

unfoldable pub stop : Bool → String → EmergencyStop → EmergencyStop
stop writable reason s = record s {
  stopped = true;
  reason = reason;
  file = write writable reason s.file;
}

unfoldable pub clear : Bool → EmergencyStop → EmergencyStop
clear removable s = record s {
  stopped = false;
  paused = false;
  reason = "";
  file = unlink removable s.file;
}

-- The test latches a stop that it finds in the file.
unfoldable pub is_stopped : EmergencyStop → Bool × EmergencyStop
is_stopped s =
    if s.stopped
    then (true, s)
    else if exists s.file
    then (true, record s { stopped = true })
    else (false, s)

abbrev pub or_text : String → String → String
or_text s d = if s == "" then d else s

-- The text of the sentinel file; a read that fails counts as an empty file.
abbrev pub read_reason : Bool → Sentinel → String
read_reason readable (present text) =
    if readable then or_text text "estop file present" else "estop file present"
read_reason readable _ = ""

unfoldable pub get_reason : Bool → EmergencyStop → String
get_reason readable s = if s.reason == "" then read_reason readable s.file else s.reason

unfoldable pub pause : EmergencyStop → EmergencyStop
pause s = record s { paused = true }

unfoldable pub resume : EmergencyStop → EmergencyStop
resume s = record s { paused = false }

abbrev pub is_paused : EmergencyStop → Bool
is_paused s = s.paused

-- What others do: calls of the methods, and another process that creates or removes the file.
pub data Happening : Type 0 where
  stops : Bool → String → Happening
  clears : Bool → Happening
  pauses resumes : Happening
  creates : String → Happening
  removes : Happening

abbrev pub create : String → Sentinel → Sentinel
create text unset = unset
create text _ = present text

unfoldable pub happen : Happening → EmergencyStop → EmergencyStop
unfolding stop clear pause resume
happen (stops writable reason) s = stop writable reason s
happen (clears removable) s = clear removable s
happen pauses s = pause s
happen resumes s = resume s
happen (creates text) s = record s { file = create text s.file }
happen removes s = record s { file = unlink true s.file }

unfoldable pub happen_all : List Happening → EmergencyStop → EmergencyStop
unfolding happen
happen_all [] s = s
happen_all (h ∷ hs) s = happen_all hs (happen h s)

pub data Verdict : Type 0 where
  pass : Verdict
  halt : String → Verdict
  waiting : Verdict

abbrev pub halted : EmergencyStop → Verdict
halted s = halt (or_text (get_reason true s) "emergency stop active")

-- The `while` loop of `check`, one list of happenings for each wait of 0.1 s. The reason is read
-- with no error here.
unfoldable pub wait_loop : List (List Happening) → EmergencyStop → Verdict × EmergencyStop
unfolding is_stopped get_reason happen_all
wait_loop [] s =
    let (stopped, s') = is_stopped s in
    if s.paused then (if stopped then (halted s', s') else (waiting, s')) else (pass, s)
wait_loop (hs ∷ rounds) s =
    let (stopped, s') = is_stopped s in
    let again = wait_loop rounds (happen_all hs s') in
    if s.paused then (if stopped then (halted s', s') else again) else (pass, s)

unfoldable pub check : List (List Happening) → EmergencyStop → Verdict × EmergencyStop
unfolding is_stopped
check rounds s =
    let (stopped, s') = is_stopped s in if stopped then (halted s', s') else wait_loop rounds s'
