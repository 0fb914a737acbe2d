-- ===== src/Tools/Hands/Blind.antt =====
-- src/desktop_worker/tools/builtin.py, src/desktop_worker/geometry/paint_setup.py: the canvas is cleared
-- before it is known to be there.
use desktop_worker.Prelude.{
  Bool, true, false, ◌≡◌, ap, ◌∙◌, none, List, [], ◌∷◌, ◌++◌, if◌then◌else◌,
}
use mathlib.Core.List.{append_assoc}
use desktop_worker.Errors.{ok}
use desktop_worker.Value.{null, str, Items}
use desktop_worker.Safety.EmergencyStop.{EmergencyStop, is_stopped}
use desktop_worker.Session.{World, InputBackend, Outcome, done, raised, hang, Call}
use desktop_worker.Tools.Hands.{
  PaintUi, Prep, CanvasRect, Rendered, no_canvas, stop_active, select_all, clear_canvas, pick,
  prepare_paint, render,
}

abbrev pub clearing : List Call
clearing = select_all ∷ Call.press_key (str "DELETE") ∷ Call.press_key (str "ESCAPE") ∷ []

abbrev pub blind_prep : (World → Bool) → World → Prep
blind_prep focus w = record { focused = focus w; cleared = true; tool = none; color = none }

-- As `NullInputBackend`: every call succeeds.
abbrev pub quiet : InputBackend
quiet cs c = ok null

-- Paint shows no tool and no colour, since it is not there.
abbrev pub nothing_shown : (World → Bool) → PaintUi
nothing_shown focus = record {
  focus = focus;
  tool_center = λ w name. none;
  color_center = λ w name. none;
}

abbrev bind_canvas : Outcome Prep × World → Outcome Rendered × World
bind_canvas (done prep, w) = (done (no_canvas prep), w)
bind_canvas (raised e, w) = (raised e, w)
bind_canvas (hang, w) = (hang, w)

module _ (focus : World → Bool) where
  prepare_paint_blind :
      (w : World)
      → prepare_paint quiet (nothing_shown focus) true w
        ≡ (done (blind_prep focus w), record w { calls = w.calls ++ clearing })
  unfolding prepare_paint clear_canvas pick
  prepare_paint_blind w =
      ap (λ cs. (done (blind_prep focus w), record w { calls = cs }))
        (append_assoc (w.calls ++ (select_all ∷ [])) (Call.press_key (str "DELETE") ∷ [])
            (Call.press_key (str "ESCAPE") ∷ [])
          ∙ append_assoc w.calls (select_all ∷ [])
              (Call.press_key (str "DELETE") ∷ Call.press_key (str "ESCAPE") ∷ []))

  -- Where Paint is not there, neither its tools nor a canvas, the drawing fails, but the keys that
  -- select all and delete it have reached the window that has the focus.
  pub render_blind :
      (wired : Bool) (ink : CanvasRect → List Items) (w : World)
      → is_stopped w.estop ≡ (false, w.estop)
      → render quiet wired (nothing_shown focus) (λ w'. none) ink true w
        ≡ (done (no_canvas (blind_prep focus w)), record w { calls = w.calls ++ clearing })
  unfolding render
  render_blind true ink w free = after_prep (is_stopped w.estop) free
    where
      after_prep :
          (s : Bool × EmergencyStop)
          → s ≡ (false, w.estop)
          → (if s.0
              then (done stop_active, record w { estop = s.1 })
              else bind_canvas
                  (prepare_paint quiet (nothing_shown focus) true (record w { estop = s.1 })))
            ≡ (done (no_canvas (blind_prep focus w)), record w { calls = w.calls ++ clearing })
      after_prep s e = rw e (ap bind_canvas (prepare_paint_blind w))
  render_blind false ink w free = ap bind_canvas (prepare_paint_blind w)
