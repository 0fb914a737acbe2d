-- ===== src/Workflows/Steps.antt =====
-- src/desktop_worker/workflows: what the workflows share. A workflow runs actions through the executor,
-- and notes each as a step; the pauses between them are left out, since they change no state.
pub mod Follows
use desktop_worker.Prelude.{
  String, ◌<>◌, Bool, true, false, not, ◌&&◌, Option, none, some, List, [], ◌∷◌, ◌++◌,
  if◌then◌else◌,
}
use desktop_worker.Prelude.Int.{ℤ}
use desktop_worker.Errors.{Error, Result, ok, err}
use desktop_worker.Value.{Value, Dict, nil, cons, int, str, list, dict, end, field}
use desktop_worker.Schema.Results.{ActionResult}
use desktop_worker.Schema.Actions.Parse.{parse_action}
use desktop_worker.Actions.Executor.Dispatch.{Executor}
use desktop_worker.Actions.Executor.Execute.{execute}
use desktop_worker.Session.{World, Exec, Outcome, done, raised, hang, pure, lift, ◌>>=◌}

-- The session, and the steps that were noted.
pub record Desk : Type 0 where
  pub world : World
  pub steps : List String

abbrev pub Flow : Type 0 → Type 0
Flow A = Desk → Outcome A × Desk

infixl 5 ◌then◌
abbrev pub ◌then◌ : {A B : Type 0} → Flow A → (A → Flow B) → Flow B
◌then◌ m f desk =
    let (r, desk') = m desk in
    elim r [ done a ↦ f a desk' | raised e ↦ (raised e, desk') | hang ↦ (hang, desk') ]

abbrev pub note : String → Desk → Desk
note step desk = record desk { steps = desk.steps ++ (step ∷ []) }

abbrev pub mark : Bool → String
mark b = if b then "ok: " else "FAIL: "

-- `BrowserResult` and `WindowResult`, which have the same fields.
pub record FlowResult : Type 0 where
  pub success : Bool
  pub action : String
  pub detail : String
  pub steps : List String
  pub error : String

-- The actions that the workflows are made of.
abbrev pub click_xy : ℤ × ℤ → Dict
click_xy (x, y) = field "type" (str "mouse.click") (field "x" (int x) (field "y" (int y) end))

abbrev pub type_text : String → Dict
type_text text = field "type" (str "keyboard.type") (field "text" (str text) end)

abbrev pub hotkey : String → Dict
hotkey key =
    field "type" (str "keyboard.hotkey")
      (field "keys" (list (cons (str "CTRL") (cons (str key) nil))) end)

abbrev pub press_enter : Dict
press_enter = field "type" (str "keyboard.press") (field "key" (str "ENTER") end)

module _ (x : Executor) where
  -- `executor.execute(parse_action(action_dict)).success`
  unfoldable pub perform : Dict → Exec Bool
  perform d = lift (parse_action (dict d)) >>= λ a. execute x a >>= λ res. pure res.success

  -- `do`
  unfoldable pub do_step : Dict → String → Flow Bool
  do_step d label desk =
      let (r, w) = perform d desk.world in
      elim r [
        | done b ↦ (done b, note (mark b <> label) (record desk { world = w }))
        | raised e ↦ (raised e, record desk { world = w })
        | hang ↦ (hang, record desk { world = w })
      ]

  -- A script of actions, each with whether it is required: a required one that fails ends it.
  unfoldable pub follow : List (Dict × Bool) → Exec Bool
  follow [] w = (done true, w)
  follow ((d, required) ∷ rest) w =
      let (r, w') = perform d w in
      let more = follow rest w' in
      elim r [
        | done b ↦ if required && not b then (done false, w') else more
        | raised e ↦ (raised e, w')
        | hang ↦ (hang, w')
      ]
