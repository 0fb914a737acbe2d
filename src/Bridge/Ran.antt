-- ===== src/Bridge/Ran.antt =====
-- src/desktop_worker/mcp_server/bridge.py: the session that a batch of actions leaves.
use desktop_worker.Prelude.{
  ℕ, zero, suc, ◌+◌, ◌≡◌, refl, ap, sym, ◌∙◌, Bool, true, false, not, ◌&&◌, some, [], ◌∷◌, length,
  if◌then◌else◌,
}
use desktop_worker.Value.{Items, nil, cons, dict}
use desktop_worker.Actions.Executor.Dispatch.{Executor}
use desktop_worker.Session.{World, Outcome, done, raised, hang}
use desktop_worker.Bridge.{Answer, Batched, batch, act_once, settle, later, failure_at}

module _ (x : Executor) (settle_ms : ℕ) where
  -- The session that an action of a batch leaves: behind a good answer follows the wait.
  abbrev pub settled : Outcome Answer × World → World
  settled (done a, w) = if a.ok then (settle x settle_ms a w).1 else w
  settled (_, w) = w

  -- The session behind the first `k` entries of a list, each run where the one before it ended.
  abbrev pub ran : ℕ → Items → World → World
  ran zero vs w = w
  ran (suc k) (cons (dict d) rest) w = ran k rest (settled (act_once x (dict d) w))
  ran (suc k) _ w = w

  -- A batch that returns leaves what `f` tells of the number of its results.
  abbrev pub Leaves : (ℕ → World) → Outcome Batched × World → Type 0
  Leaves f (done b, w) = w ≡ f (length b.0)
  Leaves f _ = Unit

  module _ (i : ℕ) (rest : Items) (w : World) where
    -- The session behind the first `k` results, when the first action ends like this.
    abbrev ran_from : Outcome Answer × World → ℕ → World
    ran_from o zero = w
    ran_from o (suc k) = ran k rest (settled o)

    went_on :
        (a : Answer) (s : Outcome Answer) (w' w'' : World) (t : Outcome Batched × World)
        → Leaves (λ k. ran k rest w'') t
        → settled (done a, w') ≡ w''
        → Leaves (ran_from (done a, w')) (elim s [
          | raised e ↦ (raised e, w'')
          | hang ↦ (hang, w'')
          | done b ↦ elim t.0 [
            | raised e ↦ (raised e, t.1)
            | hang ↦ (hang, t.1)
            | done (results, failed_at) ↦
                (done (a ∷ results, later failed_at (failure_at i a)), t.1)
          ]
        ])
    went_on a (raised e) w' w'' t h wait = tt
    went_on a hang w' w'' t h wait = tt
    went_on a (done b) w' w'' (raised e, v) h wait = tt
    went_on a (done b) w' w'' (hang, v) h wait = tt
    went_on a (done b) w' w'' (done (results, failed_at), v) h wait =
        h ∙ ap (ran (length results) rest) (sym wait)

    acted :
        (o : Outcome Answer × World)
        → ((v : World) → Leaves (λ k. ran k rest v) (batch x true settle_ms (i + 1) rest v))
        → let out : Outcome Batched × World = elim o.0 [
          | raised e ↦ (raised e, o.1)
          | hang ↦ (hang, o.1)
          | done a ↦
              let (s, w'') = settle x settle_ms a o.1 in
              let (t, v) = batch x true settle_ms (i + 1) rest w'' in
              if not a.ok && true then (done (a ∷ [], some i), o.1) else elim s [
                | raised e ↦ (raised e, w'')
                | hang ↦ (hang, w'')
                | done b ↦ elim t [
                  | raised e ↦ (raised e, v)
                  | hang ↦ (hang, v)
                  | done (results, failed_at) ↦
                      (done (a ∷ results, later failed_at (failure_at i a)), v)
                ]
              ]
        ] in
          Leaves (ran_from o) out
    acted (raised e, w') h = tt
    acted (hang, w') h = tt
    acted (done a, w') h =
        let w'' = (settle x settle_ms a w').1 in
        by_ok a.ok refl _ (
          went_on a (settle x settle_ms a w').0 w' w'' (batch x true settle_ms (i + 1) rest w'')
            (h w''))
      where
        by_ok :
            (b : Bool)
            → a.ok ≡ b
            → (go : Outcome Batched × World)
            → (settled (done a, w') ≡ (settle x settle_ms a w').1
                → Leaves (ran_from (done a, w')) go)
            → Leaves
                (ran_from (done a, w'))
                (if not b && true then (done (a ∷ [], some i), w') else go)
        by_ok true good go k = k (rw good refl)
        by_ok false bad go k = rw bad refl

  Leaves-ext :
      (f g : ℕ → World) (out : Outcome Batched × World)
      → ((k : ℕ) → f k ≡ g k)
      → Leaves f out
      → Leaves g out
  Leaves-ext f g (done b, w) same h = h ∙ same (length b.0)
  Leaves-ext f g (raised e, w) same h = tt
  Leaves-ext f g (hang, w) same h = tt

  pub batch-Leaves :
      (i : ℕ) (vs : Items) (w : World) → Leaves (λ k. ran k vs w) (batch x true settle_ms i vs w)
  unfolding batch
  batch-Leaves i nil w = refl
  batch-Leaves i (cons (dict d) rest) w =
      Leaves-ext (ran_from i rest w (act_once x (dict d) w)) (λ k. ran k (cons (dict d) rest) w) _
        same (acted i rest w (act_once x (dict d) w) (batch-Leaves (i + 1) rest))
    where
      same : (k : ℕ) → ran_from i rest w (act_once x (dict d) w) k ≡ ran k (cons (dict d) rest) w
      same zero = refl
      same (suc k) = refl
  batch-Leaves i (cons _ rest) w = refl
