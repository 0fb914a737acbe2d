-- ===== src/Tools/Hands/Strokes.antt =====
-- src/desktop_worker/tools/builtin.py: which strokes reach the mouse when a figure is drawn.
use desktop_worker.Prelude.{
  ℕ, zero, suc, ◌+◌, ◌≤◌, ◌<◌, Bool, true, false, ◌≡◌, refl, ap, sym, ◌∙◌, List, [], ◌∷◌, ◌++◌, map,
  take, length, arith,
}
use mathlib.Core.List.{append_assoc, append-nil}
use desktop_worker.Errors.{Error, emergency_stop, Result, ok, err}
use desktop_worker.Value.{Value, Items, count_items}
use desktop_worker.Session.{
  World, InputBackend, Exec, Outcome, done, raised, hang, check_estop, lift, call, ◌>>=◌,
}
use desktop_worker.Broker.Run.{guard_estop}
use desktop_worker.Tools.Hands.{Drawn, finished, stopped, draw, stroke_of, guarded}

pub calls-guard_estop : (wired : Bool) (w : World) → (guard_estop wired w).1.calls ≡ w.calls
unfolding guard_estop check_estop
calls-guard_estop true w = ground arith
calls-guard_estop false w = refl

-- What the end of the drawing says of the number of strokes that were drawn.
abbrev pub Says : List Items → ℕ → ℕ → Outcome Drawn → Type 0
Says rest drawn k (done (finished d total)) = (k ≡ length rest) × (d ≡ drawn + k)
Says rest drawn k (done (stopped m d)) = (k < length rest) × (d ≡ drawn + k)
Says rest drawn k (raised e) = Unit
Says rest drawn k hang = Unit

Says-suc :
    (points : Items) (rest : List Items) (drawn k : ℕ) (out : Outcome Drawn)
    → Says rest (suc drawn) k out
    → Says (points ∷ rest) drawn (suc k) out
Says-suc points rest drawn k (done (finished d total)) (a, b) = (omega arith, omega arith)
Says-suc points rest drawn k (done (stopped m d)) (a, b) = (omega arith, omega arith)
Says-suc points rest drawn k (raised e) s = tt
Says-suc points rest drawn k hang s = tt

-- The emergency-stop guard in front of a stroke lets go on, where one is wired in.
abbrev pub Passes : Bool → World → Type 0
Passes true w = (check_estop w).0 ≡ done tt
Passes false w = Unit

-- The session behind the guard, and behind the stroke that follows it.
abbrev pub past : Bool → World → World
past true w = (check_estop w).1
past false w = w

abbrev pub stroked : Bool → Items → World → World
stroked wired points w = record (past wired w) {
  calls = (past wired w).calls ++ (stroke_of points ∷ []);
}

-- An end that says "stopped" comes of a guard that raised an emergency stop in `w`.
abbrev pub Halts : Bool → World → Outcome Drawn → Type 0
Halts true w (done (stopped m d)) = (check_estop w).0 ≡ raised (emergency_stop m)
Halts false w (done (stopped m d)) = ⊥
Halts wired w _ = Unit

-- The first `k` strokes from `w` on are each behind a guard that passes, in the session that the
-- strokes before it leave; and the end that follows them agrees with the next guard.
abbrev pub Behind : Bool → ℕ → List Items → World → Outcome Drawn → Type 0
Behind wired zero rest w out = Halts wired w out
Behind wired (suc k) [] w out = Unit
Behind wired (suc k) (points ∷ rest) w out =
    Passes wired w × Behind wired k rest (stroked wired points w) out

-- The first `count` strokes, in order, each behind a guard that passes, and nothing else, reached the
-- backend after the calls of `w`.
pub record Draws (wired : Bool) (rest : List Items) (drawn : ℕ) (w : World)
    (out : Outcome Drawn × World) : Type 0 where
  pub count : ℕ
  pub within : count ≤ length rest
  pub added : out.1.calls ≡ w.calls ++ map stroke_of (take count rest)
  pub behind : Behind wired count rest w out.0
  pub says : Says rest drawn count out.0

module _ (wired : Bool) (points : Items) (rest : List Items) (drawn : ℕ) (w : World) where
  none_drawn :
      (out : Outcome Drawn) (w' : World)
      → w'.calls ≡ w.calls
      → Halts wired w out
      → Says (points ∷ rest) drawn 0 out
      → Draws wired (points ∷ rest) drawn w (out, w')
  none_drawn out w' same halts says = record {
    count = 0;
    within = omega arith;
    added = same ∙ sym (append-nil w.calls);
    behind = halts;
    says = says;
  }

  one_more :
      (out : Outcome Drawn × World)
      → Passes wired w
      → (past wired w).calls ≡ w.calls
      → Draws wired rest (suc drawn) (stroked wired points w) out
      → Draws wired (points ∷ rest) drawn w out
  one_more out pass same d = record {
    count = suc d.count;
    within = omega (arith, d.within);
    added =
        d.added
        ∙ ap (λ cs. (cs ++ (stroke_of points ∷ [])) ++ map stroke_of (take d.count rest)) same
        ∙ append_assoc w.calls (stroke_of points ∷ []) (map stroke_of (take d.count rest));
    behind = (pass, d.behind);
    says = Says-suc points rest drawn d.count out.0 d.says;
  }

  Halts-raised : (b : Bool) (w' : World) (e : Error) → Halts b w' (raised e)
  Halts-raised true w' e = tt
  Halts-raised false w' e = tt

  Halts-hang : (b : Bool) (w' : World) → Halts b w' hang
  Halts-hang true w' = tt
  Halts-hang false w' = tt

  after_call :
      (r : Result Value) (more : Exec Drawn)
      → Passes wired w
      → (past wired w).calls ≡ w.calls
      → Draws wired rest (suc drawn) (stroked wired points w) (more (stroked wired points w))
      → let (a, w') = lift r (stroked wired points w) in
        Draws wired
          (points ∷ rest)
          drawn
          w
          (elim a [ done v ↦ more w' | raised e ↦ (raised e, w') | hang ↦ (hang, w') ])
  after_call (ok v) more pass same d = one_more (more (stroked wired points w)) pass same d
  after_call (err e) more pass same d = record {
    count = 1;
    within = omega arith;
    added = ap (λ cs. cs ++ (stroke_of points ∷ [])) same;
    behind = (pass, Halts-raised wired (stroked wired points w) e);
    says = tt;
  }

module _ (points : Items) (rest : List Items) (drawn : ℕ) (w : World) where
  after_guard :
      (g : Outcome (Unit {0})) (go : Exec Drawn)
      → (check_estop w).0 ≡ g
      → (past true w).calls ≡ w.calls
      → (Passes true w → Draws true (points ∷ rest) drawn w (go (past true w)))
      → let w' = past true w in
        let out : Outcome Drawn × World = elim g [
          | done u ↦ go w'
          | raised e ↦ elim e [
            | emergency_stop m ↦ (done (stopped m drawn), w')
            | e ↦ (raised e, w')
          ]
          | hang ↦ (hang, w')
        ] in
        Draws true (points ∷ rest) drawn w out
  after_guard (done u) go here same d = d here
  after_guard (raised (emergency_stop m)) go here same d =
      none_drawn true points rest drawn w (done (stopped m drawn)) (past true w) same here
        (omega arith, omega arith)
  after_guard (raised e) go here same d =
      none_drawn true points rest drawn w _ (past true w) same tt tt
  after_guard hang go here same d =
      none_drawn true points rest drawn w hang (past true w) same tt tt

-- The strokes that reach the backend are the first ones of the figure, in order, and nothing else.
-- Where an emergency stop is wired in, each is behind a guard that passes in the session that the
-- strokes before it leave. All of them are drawn where the drawing is finished; where it is stopped,
-- as many as it says and fewer than all, and the next guard raised that stop.
pub draw-Draws :
    (input : InputBackend) (wired : Bool) (strokes : List Items) (drawn total : ℕ) (w : World)
    → Draws wired strokes drawn w (draw input wired strokes drawn total w)
unfolding draw guarded guard_estop
draw-Draws input true [] drawn total w = record {
  count = 0;
  within = omega arith;
  added = sym (append-nil w.calls);
  behind = tt;
  says = (refl, omega arith);
}
draw-Draws input false [] drawn total w = record {
  count = 0;
  within = omega arith;
  added = sym (append-nil w.calls);
  behind = tt;
  says = (refl, omega arith);
}
draw-Draws input true (points ∷ rest) drawn total w =
    let more = draw input true rest (suc drawn) (total + count_items points) in
    after_guard points rest drawn w (check_estop w).0 (call input (stroke_of points) >>= λ v. more)
      refl (calls-guard_estop true w)
      λ pass.
        after_call true points rest drawn w (input (past true w).calls (stroke_of points)) more pass
          (calls-guard_estop true w)
          (draw-Draws input true rest (suc drawn) (total + count_items points)
            (stroked true points w))
draw-Draws input false (points ∷ rest) drawn total w =
    let more = draw input false rest (suc drawn) (total + count_items points) in
    after_call false points rest drawn w (input w.calls (stroke_of points)) more tt refl (
      draw-Draws input false rest (suc drawn) (total + count_items points) (stroked false points w))
