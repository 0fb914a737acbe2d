-- ===== src/Session/Laws.antt =====
-- How an action on the session can end.
use desktop_worker.Prelude.{◌≡◌, ◌⊎◌, refl, inl, inr}
use desktop_worker.Errors.{Error}
use desktop_worker.Session.{Outcome, done, raised, hang}

pub Outcome-cases {ℓ} :
    {A : Type ℓ} (r : Outcome A)
    → ((a : A) × (r ≡ done a)) ⊎ (((e : Error) × (r ≡ raised e)) ⊎ (r ≡ hang))
Outcome-cases (done a) = inl (a, refl)
Outcome-cases (raised e) = inr (inl (e, refl))
Outcome-cases hang = inr (inr refl)
