-- ===== src/Actions/Executor/Gate.antt =====
-- src/desktop_worker/actions/executor.py: what stands between an action and the desktop.
use desktop_worker.Prelude.{
  sym, ap, String, ◌≡◌, ◌⊎◌, inl, inr, refl, ◌∙◌, true, false, arith, string_eq, Option, none, some,
}
use desktop_worker.Errors.{Error, emergency_stop, ok}
use desktop_worker.Value.{Dict}
use desktop_worker.Tools.Registry.{Registry}
use desktop_worker.Schema.Results.{ActionResult}
use desktop_worker.Schema.Actions.Parse.{Action}
use desktop_worker.Safety.Policy.{RiskLevel}
use desktop_worker.Actions.Executor.Dispatch.{Executor, dispatch, run_named}
use desktop_worker.Actions.Executor.Execute.{execute, approve, fail, refuse, succeed, on_error}
use desktop_worker.Actions.Executor.Ways.{
  Ending, paused, halted, unnamed, denied, dry, executed, failed, stuck, Passed, dispatched,
  execute-Ending,
}
use desktop_worker.Actions.Executor.Ending.{on_error_fails, success_of}
use desktop_worker.Session.{World, Outcome, done, raised, check_estop}

-- Nothing has reached the desktop: no call of the backend, nothing in the broker's books.
pub record Untouched (w w' : World) : Type 0 where
  pub calls : w'.calls ≡ w.calls
  pub books : w'.books ≡ w.books

pub check_estop-Untouched : (w : World) → Untouched w (check_estop w).1
unfolding check_estop
check_estop-Untouched w = record { calls = ground arith; books = ground arith }

pub trans_Untouched : {u v w : World} → Untouched u v → Untouched v w → Untouched u w
trans_Untouched h k = record { calls = k.calls ∙ h.calls; books = k.books ∙ h.books }

on_error-Untouched :
    (x : Executor) (a : Action) (e : Error) (w : World) → Untouched w (on_error x a e w).1
unfolding on_error
on_error-Untouched x a (emergency_stop reason) w = record { calls = refl; books = refl }
on_error-Untouched x a _ w = record { calls = refl; books = refl }

module _ (x : Executor) (a : Action) where
  -- The three gates of an action, at the session where its execution starts.
  pub record Admitted (w : World) : Type 0 where
    pub risk : RiskLevel
    pub passed : Passed x a w
    pub granted : approve x a ≡ ok (true, risk)
    pub live : x.dry_run ≡ false

  Ending-Untouched :
      (w : World) (out : Outcome ActionResult × World)
      → Ending x a w out
      → Untouched w out.1 ⊎ Admitted w
  unfolding fail refuse succeed
  Ending-Untouched w out (paused p) = inl (check_estop-Untouched w)
  Ending-Untouched w out (halted e p) = inl (record { calls = start.calls; books = start.books })
    where
      start : Untouched w (check_estop w).1
      start = check_estop-Untouched w
  Ending-Untouched w out (unnamed e p g) = inl (check_estop-Untouched w)
  Ending-Untouched w out (denied risk p g) =
      inl (record { calls = start.calls; books = start.books })
    where
      start : Untouched w (check_estop w).1
      start = check_estop-Untouched w
  Ending-Untouched w out (dry risk p g d) =
      inl (record { calls = start.calls; books = start.books })
    where
      start : Untouched w (check_estop w).1
      start = check_estop-Untouched w
  Ending-Untouched w out (executed risk detail p g l d) =
      inr (record { risk = risk; passed = p; granted = g; live = l })
  Ending-Untouched w out (failed risk e p g l d) =
      inr (record { risk = risk; passed = p; granted = g; live = l })
  Ending-Untouched w out (stuck risk p g l d) =
      inr (record { risk = risk; passed = p; granted = g; live = l })

  -- An action reaches the desktop only through three gates: the emergency stop lets it pass, the
  -- policy approves it, and the executor does not run dry. Otherwise no call reaches the input
  -- backend, and no command the broker.
  pub execute-Untouched : (w : World) → Untouched w (execute x a w).1 ⊎ Admitted w
  execute-Untouched w = Ending-Untouched w (execute x a w) (execute-Ending x a w)

-- What an execution leaves when its dispatch raises and touches nothing.
abbrev Refuses : {A : Type 0} → World → Outcome A × World → Type 0
Refuses w out = ((e : Error) × (out.0 ≡ raised e)) × Untouched w out.1

nested-run_named :
    (x : Executor) (t : Option Registry) (p : Dict) (w : World)
    → w.in_tool ≡ true
    → Refuses w (run_named x t p w)
unfolding run_named
nested-run_named x none p w h = ((_, refl), record { calls = refl; books = refl })
nested-run_named x (some t) p w h = rw h ((_, refl), record { calls = refl; books = refl })

nested-dispatch :
    (x : Executor) (type : String) (p : Dict) (w : World)
    → w.in_tool ≡ true
    → type ≡ "tool.run"
    → Refuses w (dispatch x type p w)
unfolding dispatch
nested-dispatch x type p w h t = rw t (nested-run_named x x.tools p w h)

pub check_estop-in_tool : (w : World) → (check_estop w).1.in_tool ≡ w.in_tool
unfolding check_estop
check_estop-in_tool w = ground arith

Refuses-ending :
    (x : Executor) (a : Action) (w : World) (out : Outcome ActionResult × World) (r : ActionResult)
    → Ending x a w out
    → out.0 ≡ done r
    → Refuses (check_estop w).1 (dispatch x a.type a.params (check_estop w).1)
    → x.dry_run ≡ false
    → (r.success ≡ false) × Untouched w out.1
unfolding fail refuse
Refuses-ending x a w out r (paused p) h n l = absurd (cc)
Refuses-ending x a w out r (halted e p) h n l = (
  cc,
  record { calls = (check_estop-Untouched w).calls; books = (check_estop-Untouched w).books },
)
Refuses-ending x a w out r (unnamed e p g) h n l = absurd (cc)
Refuses-ending x a w out r (denied risk p g) h n l = (
  cc,
  record { calls = (check_estop-Untouched w).calls; books = (check_estop-Untouched w).books },
)
Refuses-ending x a w out r (dry risk p g d) h n l = absurd (cc)
Refuses-ending x a w out r (executed risk detail p g _ d) h n l = absurd (cc)
Refuses-ending x a w out r (failed risk e p g _ d) h n l = (
  sym (ap (success_of x a) h) ∙ on_error_fails x a e (dispatched x a w).1,
  trans_Untouched (check_estop-Untouched w)
      (trans_Untouched n.1 (on_error-Untouched x a e (dispatched x a w).1)),
)
Refuses-ending x a w out r (stuck risk p g _ d) h n l = absurd (cc)

-- While a tool runs, a `tool.run` of its own fails: no call reaches the input backend,
-- and nothing the broker.
pub execute_nested :
    (x : Executor) (a : Action) (w : World) (r : ActionResult)
    → x.dry_run ≡ false
    → w.in_tool ≡ true
    → a.type ≡ "tool.run"
    → (execute x a w).0 ≡ done r
    → (r.success ≡ false) × Untouched w (execute x a w).1
execute_nested x a w r live nested t h =
    Refuses-ending x a w (execute x a w) r (execute-Ending x a w) h
      (nested-dispatch x a.type a.params _ (check_estop-in_tool w ∙ nested) t) live

unhandled-dispatch :
    (x : Executor) (type : String) (p : Dict) (w : World)
    → (type ≡ "window.focus") ⊎ (type ≡ "verify")
    → Refuses w (dispatch x type p w)
unfolding dispatch
unhandled-dispatch x type p w (inl t) = rw t ((_, refl), record { calls = refl; books = refl })
unhandled-dispatch x type p w (inr t) = rw t ((_, refl), record { calls = refl; books = refl })

-- The two types that `parse_action` knows and the executor does not: where it does not run dry, such
-- an action never succeeds, and reaches neither the input backend nor the books of the broker.
pub execute_unhandled :
    (x : Executor) (a : Action) (w : World) (r : ActionResult)
    → x.dry_run ≡ false
    → (a.type ≡ "window.focus") ⊎ (a.type ≡ "verify")
    → (execute x a w).0 ≡ done r
    → (r.success ≡ false) × Untouched w (execute x a w).1
execute_unhandled x a w r live t h =
    Refuses-ending x a w (execute x a w) r (execute-Ending x a w) h
      (unhandled-dispatch x a.type a.params _ t) live
