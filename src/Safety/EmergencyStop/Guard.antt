-- ===== src/Safety/EmergencyStop/Guard.antt =====
-- src/desktop_worker/safety/emergency_stop.py: what the guard lets through.
use desktop_worker.Prelude.{◌≡◌, Bool, true, false, List, [], ◌∷◌, arith, String}
use desktop_worker.Safety.EmergencyStop.{
  EmergencyStop, Happening, stops, resumes, exists, is_stopped, happen_all, pass, check, wait_loop,
}

wait_loop_pass :
    (rounds : List (List Happening)) (s : EmergencyStop)
    → (wait_loop rounds s).0 ≡ pass
    → (wait_loop rounds s).1.paused ≡ false
unfolding wait_loop
wait_loop_pass [] s h = ground arith
wait_loop_pass (hs ∷ rounds) s h =
    ground (arith, wait_loop_pass rounds (happen_all hs (is_stopped s).1))

wait_loop_calm :
    (rounds : List (List Happening)) (s : EmergencyStop)
    → s.paused ≡ false
    → wait_loop rounds s ≡ (pass, s)
unfolding wait_loop
wait_loop_calm [] s p = ground arith
wait_loop_calm (hs ∷ rounds) s p = ground arith

-- A guard that lets an action through leaves the session not paused, whatever others did while it
-- waited; and with no pause at the start it changes nothing, and neither flag nor file was set.
check_pass :
    (rounds : List (List Happening)) (s : EmergencyStop)
    → (check rounds s).0 ≡ pass
    → ((check rounds s).1.paused ≡ false)
      × (s.stopped ≡ false)
      × (exists s.file ≡ false)
      × (s.paused ≡ false → (check rounds s).1 ≡ s)
unfolding check
check_pass rounds s h = ground (arith, wait_loop_pass rounds s, wait_loop_calm rounds s)

-- A stop that comes in one wait with a later resume is missed: the guard of a paused session passes
-- with the stop flag set.
pub check_misses_stop :
    (writable : Bool) (reason : String) (rounds : List (List Happening)) (s : EmergencyStop)
    → s.paused ≡ true
    → s.stopped ≡ false
    → exists s.file ≡ false
    → let out = check ((stops writable reason ∷ resumes ∷ []) ∷ rounds) s in
      (out.0 ≡ pass) × (out.1.stopped ≡ true)
unfolding check wait_loop
check_misses_stop writable reason [] s p st f = (ground arith, ground arith)
check_misses_stop writable reason (hs ∷ rounds) s p st f = (ground arith, ground arith)
