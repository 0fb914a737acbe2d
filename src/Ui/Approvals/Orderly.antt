-- ===== src/Ui/Approvals/Orderly.antt =====
-- src/desktop_worker/ui/controller.py: what the queue promises to those who look at it from outside.
use desktop_worker.Prelude.{ℕ, Bool, true, false, ◌≡◌, Option, none, some, List, [], ◌∷◌}
use desktop_worker.Ui.Approvals.{Event, Place}

module _ {A : Type 0} where
  -- The request that is open, and whose it is.
  abbrev pub current : List (Event A) → Option (ℕ × A)
  current [] = none
  current (Event.opened i r ∷ log) = some (i, r)
  current (Event.closed i r g ∷ log) = none
  current (e ∷ log) = current log

  -- The last decision since the last request was opened; there is none at first.
  abbrev pub verdict : List (Event A) → Bool
  verdict [] = false
  verdict (Event.opened i r ∷ log) = false
  verdict (Event.decided k b ∷ log) = b
  verdict (e ∷ log) = verdict log

  abbrev pub request_of : Option (ℕ × A) → Option A
  request_of none = none
  request_of (some (i, r)) = some r

  -- One request is open at a time; it is closed by the thread that opened it, as granted only after
  -- a decision for it, and `pending` shows it.
  abbrev pub IsOrderly : List (Event A) → Type 0
  IsOrderly [] = Unit
  IsOrderly (Event.opened i r ∷ log) = (current log ≡ none) × IsOrderly log
  IsOrderly (Event.closed i r g ∷ log) =
      (current log ≡ some (i, r)) × (g ≡ true → verdict log ≡ true) × IsOrderly log
  IsOrderly (Event.seen k o ∷ log) = (o ≡ request_of (current log)) × IsOrderly log
  IsOrderly (e ∷ log) = IsOrderly log

  -- The threads that have the slot, and what they ask for.
  abbrev pub holds : Place A → Bool
  holds (Place.owning r timed) = true
  holds (Place.waiting r timed) = true
  holds (Place.woken r got) = true
  holds (Place.leaving g) = true
  holds _ = false

  abbrev pub asks : Place A → Option A
  asks (Place.waiting r timed) = some r
  asks (Place.woken r got) = some r
  asks _ = none
