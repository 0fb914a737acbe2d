-- ===== src/Ui/Approvals/Progress.antt =====
-- src/desktop_worker/ui/controller.py: a request that is open gets its answer.
use desktop_worker.Prelude.{
  ℕ, Bool, true, false, ◌≡◌, ◌∙◌, ◌||◌, refl, List, ◌∷◌, sym, ap, subst, if◌then◌else◌, arith,
}
use desktop_worker.Ui.Approvals
use desktop_worker.Ui.Approvals.{
  ApprovalQueue, Place, Event, Move, System, Run, later, update, moved,
}
use desktop_worker.Ui.Approvals.Orderly.{verdict}
use desktop_worker.Ui.Approvals.Safety.{Run-Inv}

update_self : {A : Type 0} (f : ℕ → A) (i : ℕ) (a : A) → update f i a i ≡ a
update_self f i a = ground arith

update_other : {A : Type 0} (f : ℕ → A) (i j : ℕ) (a : A) → (i ≡ j → ⊥) → update f i a j ≡ f j
update_other f i j a apart = ground arith

-- A move of a thread whose place is known.
go :
    {A : Type 0} {log : List (Event A)} {s : System A} {q : ApprovalQueue A} {p p' : Place A}
    {e : Event A}
    → Run log s
    → (j : ℕ) → s.place j ≡ p
    → Move j s.queue p q p' e
    → Run (e ∷ log) (moved s j q p') × ((moved s j q p').place j ≡ p')
go {s} {q} {p'} {e} run j here mv =
    (later run j (subst (λ x. Move j s.queue x q p' e) (sym here) mv), update_self s.place j p')

-- A wait that may end: there is a timeout, or the event is set.
abbrev pub may_end : {A : Type 0} → Bool → ApprovalQueue A → Bool
may_end timed q = timed || q.event

wakes :
    {A : Type 0} (j : ℕ) (q : ApprovalQueue A) (r : A) (timed got : Bool)
    → q.event ≡ got
    → may_end timed q ≡ true
    → Move j q (Place.waiting r timed) q (Place.woken r got) Event.silent
wakes j q r timed true e may = Move.wake e
wakes j q r true false e may = Move.time_out e
wakes j q r false false e may = absurd (ground arith)

-- A wait without a timeout does not end while the event is not set.
blocked :
    {A : Type 0} (j : ℕ) (q q' : ApprovalQueue A) (r : A) {p p' : Place A} {e : Event A}
    → Move j q p q' p' e
    → p ≡ Place.waiting r false
    → q.event ≡ false
    → ⊥
blocked j q q' r (Move.wake set) here off = cc
blocked j q q' r mv here off = cc

module _ {A : Type 0} {log : List (Event A)} {s : System A} (run : Run log s) (j : ℕ) (r : A) where
  -- What an open request is answered if its thread goes on now.
  abbrev pub due : Bool
  due = if s.queue.event then verdict log else false

  -- The thread has got the answer `g`, behind what was done since, the latest first.
  abbrev pub Answered : List (Event A) → Bool → Type 0
  Answered since g =
      (t : System A) × Run (Event.silent ∷ Event.closed j r g ∷ Event.silent ∷ since) t
      × (t.place j ≡ Place.answered g)

  -- The last three moves of a request.
  finishes :
      (timed : Bool)
      → s.place j ≡ Place.waiting r timed
      → may_end timed s.queue ≡ true
      → Answered log (Approvals.outcome s.queue.event s.queue)
  finishes timed here may =
      let (woke, at_woken) = go run j here (wakes j s.queue r timed s.queue.event refl may) in
      let (shut, at_leaving) = go woke j at_woken Move.close in
      let (left, at_answered) = go shut j at_leaving Move.release in (_, left, at_answered)

module _ {A : Type 0} {log : List (Event A)} {s : System A} (run : Run log s) (j : ℕ) (r : A) where
  -- With the decision `b` of the thread `k`, in three moves of its own, the thread `j` gets it.
  abbrev pub AnsweredBy : ℕ → Bool → Type 0
  AnsweredBy k b = Answered run j r (Event.silent ∷ Event.decided k b ∷ Event.silent ∷ log) b

  decided_by :
      (timed : Bool) (k : ℕ) (b : Bool)
      → s.place j ≡ Place.waiting r timed
      → s.place k ≡ Place.idle
      → AnsweredBy k b
  decided_by timed k b here free =
      let (asked, at_resolving) = go run k free (Move.resolve b) in
      let (said, at_signalling) = go asked k at_resolving Move.decide in
      let (told, at_idle) = go said k at_signalling Move.signal in
      finishes told j r timed (still_waits ∙ here) (set timed)
    where
      apart : k ≡ j → ⊥
      apart same = let both = sym (ap s.place same) ∙ free in cc (both, here)

      first : ℕ → Place A
      first = update s.place k (Place.resolving b)

      second : ℕ → Place A
      second = update first k Place.signalling

      still_waits : update second k Place.idle j ≡ s.place j
      still_waits =
          update_other second k j Place.idle apart
          ∙ update_other first k j Place.signalling apart
          ∙ update_other s.place k j (Place.resolving b) apart

      set : (t : Bool) → (t || true) ≡ true
      set true = refl
      set false = refl

  pub answer :
      (timed : Bool)
      → s.place j ≡ Place.waiting r timed
      → (may_end timed s.queue ≡ true → Answered run j r log (due run j r))
        × (may_end timed s.queue ≡ false
            → (q : ApprovalQueue A) (p : Place A) (e : Event A) → Move j s.queue (s.place j) q p e
            → ⊥)
        × ((k : ℕ) (b : Bool) → s.place k ≡ Place.idle → AnsweredBy k b)
  answer timed here = (
    λ may. subst (Answered run j r log) given (finishes run j r timed here may),
    λ stuck q p e mv. still timed here stuck mv,
    λ k b free. decided_by timed k b here free,
  )
    where
      given : Approvals.outcome s.queue.event s.queue ≡ due run j r
      given = ap (λ b. if s.queue.event then b else false) (Run-Inv run).decided

      still :
          (t : Bool) {q : ApprovalQueue A} {p : Place A} {e : Event A}
          → s.place j ≡ Place.waiting r t
          → may_end t s.queue ≡ false
          → Move j s.queue (s.place j) q p e
          → ⊥
      still true at stuck mv = cc
      still false at stuck mv = blocked j s.queue _ r mv at stuck

module _ {A : Type 0} {log : List (Event A)} {s : System A} (run : Run log s) (j : ℕ) (r : A) where
  pub event_stays :
      (timed : Bool) (i : ℕ) {q : ApprovalQueue A} {p p' : Place A} {e : Event A}
      → Move i s.queue p q p' e
      → s.place i ≡ p
      → s.place j ≡ Place.waiting r timed
      → s.queue.event ≡ true
      → update s.place i p' j ≡ Place.waiting r timed
      → q.event ≡ true
  unfolding Approvals.open_request Approvals.close_request
  event_stays timed i Move.signal e here set still = refl
  event_stays timed i mv e here set still = ground (arith, (Run-Inv run).one i j)
