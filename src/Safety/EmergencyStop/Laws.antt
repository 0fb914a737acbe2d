-- ===== src/Safety/EmergencyStop/Laws.antt =====
-- src/desktop_worker/safety/emergency_stop.py: a stop lasts until it is cleared.
use desktop_worker.Prelude.{
  String, ◌≡◌, ◌≢◌, ◌↔◌, refl, Bool, true, false, List, [], ◌∷◌, arith, All, string_eq,
}
use desktop_worker.Safety.EmergencyStop.{
  EmergencyStop, Happening, clears, exists, stop, clear, happen, happen_all, pass, halted, check,
  wait_loop, unlink,
}

-- The happening is no `clear`.
abbrev pub KeepsStop : Happening → Type 0
KeepsStop (clears removable) = ⊥
KeepsStop _ = Unit

happen-stopped :
    (h : Happening) (s : EmergencyStop)
    → KeepsStop h
    → s.stopped ≡ true
    → (happen h s).stopped ≡ true
unfolding happen
happen-stopped (clears removable) s k e = absurd k
happen-stopped _ s k e = ground arith

pub happen_all-stopped :
    (hs : List Happening) (s : EmergencyStop)
    → All KeepsStop hs
    → s.stopped ≡ true
    → (happen_all hs s).stopped ≡ true
unfolding happen_all
happen_all-stopped [] s k e = e
happen_all-stopped (h ∷ hs) s k e =
    happen_all-stopped hs (happen h s) k.1 (happen-stopped h s k.0 e)

pub check_of_stopped :
    (rounds : List (List Happening)) (s : EmergencyStop)
    → s.stopped ≡ true
    → check rounds s ≡ (halted s, s)
unfolding check
check_of_stopped rounds s e = ground arith

-- After `stop`, whatever others do short of `clear` (resuming and removing the file included), the
-- next guard raises at once, and the stop is still there.
pub stop-check :
    (writable : Bool) (reason : String) (s : EmergencyStop) (hs : List Happening)
    (rounds : List (List Happening))
    → All KeepsStop hs
    → let s' = happen_all hs (stop writable reason s) in check rounds s' ≡ (halted s', s')
stop-check writable reason s hs rounds k =
    check_of_stopped rounds _ (happen_all-stopped hs (stop writable reason s) k stop-stopped)
  where
    stop-stopped : (stop writable reason s).stopped ≡ true
    stop-stopped = unfold stop in refl

check_of_present :
    (rounds : List (List Happening)) (s : EmergencyStop)
    → exists s.file ≡ true
    → ((check rounds s).0 ≢ pass) × ((check rounds s).1.stopped ≡ true)
unfolding check
check_of_present rounds s e = ground arith

-- A sentinel file halts the next guard and latches: the halt stands after the file is removed.
pub sentinel-check :
    (s : EmergencyStop) (rounds again : List (List Happening)) (hs : List Happening)
    → exists s.file ≡ true
    → All KeepsStop hs
    → let after = happen_all hs (check rounds s).1 in
      ((check rounds s).0 ≢ pass) × (check again after ≡ (halted after, after))
sentinel-check s rounds again hs e k =
    let (halts, latched) = check_of_present rounds s e in
    (halts, check_of_stopped again _ (happen_all-stopped hs (check rounds s).1 k latched))

-- After `clear` the guard passes, unless the sentinel file could not be removed: then it raises.
pub clear-check :
    (removable : Bool) (s : EmergencyStop) (rounds : List (List Happening))
    → ((check rounds (clear removable s)).0 ≡ pass) ↔ (exists (unlink removable s.file) ≡ false)
unfolding check clear wait_loop
clear-check removable s [] = (λ h. ground arith, λ h. ground arith)
clear-check removable s (hs ∷ rounds) = (λ h. ground arith, λ h. ground arith)
