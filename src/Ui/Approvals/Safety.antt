-- ===== src/Ui/Approvals/Safety.antt =====
-- src/desktop_worker/ui/controller.py: every run of the threads is orderly.
use desktop_worker.Prelude.{
  ℕ, true, false, ◌≡◌, refl, Option-cases, inl, inr, none, some, List, [], ◌∷◌, arith,
}
use desktop_worker.Ui.Approvals.{
  ApprovalQueue, Place, Event, Move, System, Run, start, later, init, update, pending, open_request,
  close_request,
}
use desktop_worker.Ui.Approvals.Orderly.{current, verdict, request_of, IsOrderly, holds, asks}

pub record Inv {A : Type 0} (log : List (Event A)) (q : ApprovalQueue A) (place : ℕ → Place A)
    : Type 0 where
  pub slot : (j : ℕ) → q.is_free ≡ true → holds (place j) ≡ false
  pub one : (a b : ℕ) → holds (place a) ≡ true → holds (place b) ≡ true → a ≡ b
  pub open_at : (j : ℕ) (r : A) → asks (place j) ≡ some r → current log ≡ some (j, r)
  pub asked : (j : ℕ) (r : A) → current log ≡ some (j, r) → asks (place j) ≡ some r
  pub decided : q.decision ≡ verdict log
  pub shown : pending q ≡ request_of (current log)

-- The premise of a move, for the catch-all clauses below.
abbrev Guard :
    {A : Type 0} {i : ℕ} {q q' : ApprovalQueue A} {p p' : Place A} {e : Event A}
    → Move i q p q' p' e
    → Type 0
Guard {q = q} (Move.acquire _) = q.is_free ≡ true
Guard _ = Unit

guard :
    {A : Type 0} {i : ℕ} {q q' : ApprovalQueue A} {p p' : Place A} {e : Event A}
    (mv : Move i q p q' p' e)
    → Guard mv
guard (Move.acquire g) = g
guard _ = tt

module _ {A : Type 0} {log : List (Event A)} {q : ApprovalQueue A} {place : ℕ → Place A}
    (inv : Inv log q place) (i : ℕ) where
  open inv use {slot, one, open_at, asked, decided, shown}

  Move-slot :
      {p p' : Place A} {q' : ApprovalQueue A} {e : Event A}
      → Move i q p q' p' e
      → place i ≡ p
      → (j : ℕ) → q'.is_free ≡ true
      → holds (update place i p' j) ≡ false
  unfolding open_request close_request
  Move-slot Move.signal here j free = ground (arith, slot j)
  Move-slot mv here j free = ground (arith, guard mv, slot j, one i j)

  Move-one :
      {p p' : Place A} {q' : ApprovalQueue A} {e : Event A}
      → Move i q p q' p' e
      → place i ≡ p
      → (a b : ℕ) → holds (update place i p' a) ≡ true
      → holds (update place i p' b) ≡ true
      → a ≡ b
  Move-one Move.signal here a b = ground (arith, slot a, slot b, one a b, one i a, one i b)
  Move-one mv here a b = ground (arith, guard mv, slot a, slot b, one a b, one i a, one i b)

  Move-open :
      {p p' : Place A} {q' : ApprovalQueue A} {e : Event A}
      → Move i q p q' p' e
      → place i ≡ p
      → (j : ℕ) (r : A) → asks (update place i p' j) ≡ some r
      → current (e ∷ log) ≡ some (j, r)
  Move-open Move.signal here j r = ground (arith, open_at j r, one i j)
  Move-open mv here j r = ground (arith, open_at j r, one i j)

  Move-asked :
      {p p' : Place A} {q' : ApprovalQueue A} {e : Event A}
      → Move i q p q' p' e
      → place i ≡ p
      → (j : ℕ) (r : A) → current (e ∷ log) ≡ some (j, r)
      → asks (update place i p' j) ≡ some r
  Move-asked Move.signal here j r = ground (arith, asked j r, one i j)
  Move-asked mv here j r = ground (arith, asked j r, one i j)

  Move-decided :
      {p p' : Place A} {q' : ApprovalQueue A} {e : Event A}
      → Move i q p q' p' e
      → q'.decision ≡ verdict (e ∷ log)
  unfolding open_request close_request
  Move-decided Move.signal = ground (arith)
  Move-decided mv = ground (arith)

  Move-shown :
      {p p' : Place A} {q' : ApprovalQueue A} {e : Event A}
      → Move i q p q' p' e
      → pending q' ≡ request_of (current (e ∷ log))
  unfolding open_request close_request pending
  Move-shown Move.signal = ground (arith)
  Move-shown mv = ground (arith)

  Move-IsOrderly :
      {p p' : Place A} {q' : ApprovalQueue A} {e : Event A}
      → Move i q p q' p' e
      → place i ≡ p
      → IsOrderly log
      → IsOrderly (e ∷ log)
  unfolding open_request close_request
  Move-IsOrderly Move.begin here ok = (nothing_open, ok)
    where
      nothing_open : current log ≡ none
      nothing_open = elim (Option-cases (current log)) [
        | inl e ↦ e
        | inr ((j, r), e) ↦ absurd (ground (arith, asked j r e, one i j))
      ]
  Move-IsOrderly (Move.close {r} {got}) here ok = (open_at i r (ground arith), ground arith, ok)
  Move-IsOrderly Move.look here ok = (shown, ok)
  Move-IsOrderly Move.signal here ok = ok
  Move-IsOrderly mv here ok = ground arith

Inv-init : {A : Type 0} → Inv {A = A} [] init.queue init.place
unfolding pending
Inv-init = record {
  slot = λ j h. refl;
  one = λ a b. cc;
  open_at = λ j r. cc;
  asked = λ j r. cc;
  decided = refl;
  shown = refl;
}

-- Every run keeps the invariant, and does what an outsider may expect.
pub Run-Inv :
    {A : Type 0} {log : List (Event A)} {s : System A} → Run log s → Inv log s.queue s.place
Run-Inv start = Inv-init
Run-Inv (later r i mv) =
    let inv = Run-Inv r in
    record {
      slot = Move-slot inv i mv refl;
      one = Move-one inv i mv refl;
      open_at = Move-open inv i mv refl;
      asked = Move-asked inv i mv refl;
      decided = Move-decided inv i mv;
      shown = Move-shown inv i mv;
    }

pub Run-IsOrderly : {A : Type 0} {log : List (Event A)} {s : System A} → Run log s → IsOrderly log
Run-IsOrderly start = tt
Run-IsOrderly (later r i mv) = Move-IsOrderly (Run-Inv r) i mv refl (Run-IsOrderly r)
