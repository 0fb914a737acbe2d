-- ===== src/Session/Preserves.antt =====
-- Relations between the session before and after an action, one rule for each way to build an
-- action. An action that hangs is not asked about.
use desktop_worker.Prelude.{◌≢◌, refl, Bool, true, false, if◌then◌else◌}
use desktop_worker.Errors.{Error, Result, ok, err}
use desktop_worker.Session.{World, Exec, Outcome, done, raised, hang, pure, raise, lift, ◌>>=◌}

pub record Preserves {A : Type 0} (R : World → World → Type 0) (m : Exec A) : Type 0 where
  pub at : (w : World) → (m w).0 ≢ hang → R w (m w).1

pub record IsPreorder (R : World → World → Type 0) : Type 0 where
  pub same : (w : World) → R w w
  pub trans : (u v w : World) → R u v → R v w → R u w

module _ {R : World → World → Type 0} (o : IsPreorder R) {A : Type 0} where
  pub Preserves-pure : (a : A) → Preserves R (pure a)
  Preserves-pure a = record { at = λ w h. o.same w }

  pub Preserves-raise : (e : Error) → Preserves {A = A} R (raise e)
  Preserves-raise e = record { at = λ w h. o.same w }

  pub Preserves-lift : (r : Result A) → Preserves R (lift r)
  Preserves-lift (ok a) = record { at = λ w h. o.same w }
  Preserves-lift (err e) = record { at = λ w h. o.same w }

  pub Preserves-if :
      (b : Bool) (m n : Exec A) → Preserves R m → Preserves R n → Preserves R (if b then m else n)
  Preserves-if true m n km kn = km
  Preserves-if false m n km kn = kn

module _ {R : World → World → Type 0} (o : IsPreorder R) {A B : Type 0} where
  bind_at :
      (r : Outcome A) (u w : World) (f : A → Exec B)
      → (r ≢ hang → R u w)
      → ((a : A) → Preserves R (f a))
      → let out : Outcome B × World = elim r [
        | done a ↦ f a w
        | raised e ↦ (raised e, w)
        | hang ↦ (hang, w)
      ] in
        out.0 ≢ hang → R u out.1
  bind_at (done a) u w f k kf h = o.trans u w _ (k (λ e. cc)) ((kf a).at w h)
  bind_at (raised e) u w f k kf h = k (λ e. cc)
  bind_at hang u w f k kf h = absurd (h refl)

  pub Preserves-bind :
      (m : Exec A) (f : A → Exec B)
      → Preserves R m
      → ((a : A) → Preserves R (f a))
      → Preserves R (m >>= f)
  Preserves-bind m f km kf = record { at = λ w h. bind_at (m w).0 w (m w).1 f (km.at w) kf h }
