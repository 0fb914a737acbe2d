-- ===== src/Workflows/Browser.antt =====
-- src/desktop_worker/workflows/browser.py, src/desktop_worker/workflows/window.py: navigating, filling a form,
-- and dragging. Where a control is on the screen, and whether the browser is in front, are functions of
-- the session.
pub mod Scripts
use desktop_worker.Prelude.{
  ℕ, zero, suc, String, ◌<>◌, Bool, true, false, not, ◌&&◌, ◌||◌, Option, none, some, List, [], ◌∷◌,
  ◌++◌, length, ◌==◌, string_eq, if◌then◌else◌,
}
use desktop_worker.Prelude.Int.{ℤ}
use desktop_worker.Prelude.Text.{lower, strip, occurs_in}
use desktop_worker.Prelude.Decimal.{decimal}
use desktop_worker.Errors.{Error, message, ok, err}
use desktop_worker.Value.{Value, Dict, nil, cons, int, str, list, end, field}
use desktop_worker.Broker.Cli.{Os, Broker, opt_text}
use desktop_worker.Broker.Run.{launch}
use desktop_worker.Actions.Executor.Dispatch.{Executor}
use desktop_worker.Session.{World, Exec, Outcome, done, raised, hang, pure, ◌>>=◌}
use desktop_worker.Tools.Arguments.{sanitize_url, text_of}
use desktop_worker.Workflows.Steps.{
  Desk, Flow, FlowResult, ◌then◌, do_step, click_xy, type_text, hotkey, press_enter,
}

-- `BrowserUi`: the centre of the first control that has one of the names.
pub record BrowserUi : Type 0 where
  pub edit_center : List String → World → Option (ℤ × ℤ)
  pub button_center : List String → World → Option (ℤ × ℤ)

abbrev pub submit_names : List String
submit_names =
    "Submit" ∷ "Search" ∷ "Sign in" ∷ "Log in" ∷ "Send" ∷ "OK" ∷ "Continue" ∷ "Gönder" ∷ "Ara"
    ∷ "Giriş" ∷ "Oturum aç" ∷ "Tamam" ∷ "Devam" ∷ []

-- A result with the steps that were noted.
abbrev pub return : String → String → String → Bool → Flow FlowResult
return action detail error success desk = (
  done (record {
    success = success;
    action = action;
    detail = detail;
    steps = desk.steps;
    error = error;
  }),
  desk,
)

-- A result that is as good as the last step.
abbrev pub return_last : String → String → String → Bool → Flow FlowResult
return_last action detail error success =
    return action detail (if success then "" else error) success

-- A workflow within another: its steps come behind those before it.
abbrev pub within : {R : Type 0} → Flow R → Flow R
within m desk =
    let (r, inner) = m (record { world = desk.world; steps = [] }) in
    (r, record inner { steps = desk.steps ++ inner.steps })

-- `open_chrome`
unfoldable pub open_chrome : (Value → String) → Os → Option Broker → String → Flow FlowResult
open_chrome str_of os none cwd desk =
    return "open_chrome" "" "no broker to launch Chrome" false desk
open_chrome str_of os (some broker) cwd desk =
    let (r, w) =
      launch os broker "start \"\" chrome" cwd (record { agent = "browser"; role = "workflow" })
        desk.world in
    let desk' = record desk { world = w } in
    elim r [
      | raised e ↦ (raised e, desk')
      | hang ↦ (hang, desk')
      | done res ↦
          if res.blocked
          then return "open_chrome" ""
              ("launch blocked: " <> text_of str_of (opt_text res.blocked_reason)) false desk'
          else return "open_chrome" "chrome" "" true
              (record desk' { steps = "ok: launch chrome" ∷ [] })
    ]

-- The title and the process of the window in front, at each look.
abbrev pub Front : Type 0
Front = ℕ → Option (String × String)

abbrev pub shows : String → Option (String × String) → Bool
shows needle none = false
shows needle (some (title, process)) =
    not (needle == "") && (occurs_in needle (lower title) || occurs_in needle (lower process))

-- The looks of `ensure_foreground`, from look `k` on.
unfoldable pub look_for : String → Front → ℕ → ℕ → Bool
look_for needle front zero k = false
look_for needle front (suc left) k =
    let rest = look_for needle front left (suc k) in if shows needle (front k) then true else rest

abbrev at_least_one : ℕ → ℕ
at_least_one zero = 1
at_least_one (suc n) = suc n

-- `ensure_foreground`, behind the switch to the window
unfoldable pub ensure_foreground : String → Front → ℕ → Bool
unfolding look_for lower strip occurs_in
ensure_foreground title front attempts =
    look_for (lower (strip title)) front (at_least_one attempts) 0

-- Whether the browser is in front, where somebody asks.
abbrev pub in_front : Option (World → Bool) → World → Bool
in_front none w = true
in_front (some look) w = look w

module _ (x : Executor) where
  abbrev pub enter_url : String → Flow FlowResult
  enter_url url =
      do_step x press_enter "press ENTER" then return_last "navigate" url "could not submit the URL"

  abbrev pub after_typing : String → Bool → Flow FlowResult
  after_typing url typed =
      if not typed then return "navigate" url "could not type the URL" false else enter_url url

  abbrev pub after_focus : String → Flow FlowResult
  after_focus url = do_step x (type_text url) ("type " <> url) then after_typing url

  -- The part of `navigate` behind its guards.
  unfoldable pub type_url : String → Flow FlowResult
  type_url url = do_step x (hotkey "L") "focus address bar" then λ focused. after_focus url

  -- `navigate`
  unfoldable pub navigate : Option (World → Bool) → String → Flow FlowResult
  unfolding type_url
  navigate foreground raw desk = elim (sanitize_url x.str_of (str raw)) [
    | err e ↦ return "navigate" "" (message e) false desk
    | ok url ↦
        if not (in_front foreground desk.world)
        then return "navigate" url
            "browser was not in the foreground; aborted before typing the URL" false desk
        else type_url url desk
  ]

  abbrev pub quoted : String → String
  quoted s = x.repr (str s)

  abbrev pub after_select : String → String → Flow FlowResult
  after_select label text =
      do_step x (type_text text) ("type into " <> quoted label)
      then return_last "fill_field" label "could not type into the field"

  abbrev pub after_click : String → String → Flow FlowResult
  after_click label text =
      do_step x (hotkey "A") "select existing" then λ selected. after_select label text

  -- The part of `fill_field` behind the search for the field.
  unfoldable pub fill_at : String → String → ℤ × ℤ → Flow FlowResult
  fill_at label text xy =
      do_step x (click_xy xy) ("click " <> quoted label) then λ clicked. after_click label text

  -- `fill_field`
  unfoldable pub fill_field : BrowserUi → String → String → Flow FlowResult
  unfolding fill_at
  fill_field ui label text desk = elim (ui.edit_center (label ∷ []) desk.world) [
    | none ↦ return "fill_field" label ("could not find input " <> quoted label) false desk
    | some xy ↦ fill_at label text xy desk
  ]

  -- `click_control`
  unfoldable pub click_control : BrowserUi → String → Flow FlowResult
  click_control ui name desk = elim (ui.button_center (name ∷ []) desk.world) [
    | none ↦ return "click_control" name ("could not find control " <> quoted name) false desk
    | some xy ↦
        (do_step x (click_xy xy) ("click " <> quoted name)
            then return_last "click_control" name "could not click the control")
          desk
  ]

  -- `click_control_any`
  unfoldable pub click_control_any : BrowserUi → List String → Flow FlowResult
  click_control_any ui names desk = elim (ui.button_center names desk.world) [
    | none ↦ return "click_control" "" "no matching control" false desk
    | some xy ↦
        (do_step x (click_xy xy) "click submit"
            then return_last "click_control" "" "could not click")
          desk
  ]

  -- The loop over the fields: the first result that is not a success.
  unfoldable pub fill_fields : BrowserUi → List (String × String) → Flow (Option FlowResult)
  unfolding fill_field
  fill_fields ui [] desk = (done none, desk)
  fill_fields ui ((label, text) ∷ fields) desk =
      (within (fill_field ui label text) then λ r.
      if not r.success then (λ d. (done (some r), d)) else fill_fields ui fields)
        desk

  press_to_submit : Flow Bool
  press_to_submit = do_step x press_enter "press ENTER to submit"

  -- The control of the label, else any control that submits, else ENTER.
  unfoldable pub submit : BrowserUi → Option String → Flow Bool
  unfolding press_to_submit click_control click_control_any
  submit ui none = press_to_submit
  submit ui (some label) =
      if label == ""
      then press_to_submit
      else (within (click_control ui label) then λ r.
          if r.success
          then (λ d. (done true, d))
          else (within (click_control_any ui submit_names) then λ r'.
              if r'.success then (λ d. (done true, d)) else press_to_submit))

  fill_and_submit : BrowserUi → List (String × String) → Option String → Flow FlowResult
  unfolding fill_fields submit
  fill_and_submit ui fields label = fill_fields ui fields then λ failed. elim failed [
    | some r ↦ return "submit_form" r.detail r.error false
    | none ↦ submit ui label then λ submitted.
        if submitted
        then return "submit_form" (decimal (length fields) <> " field(s)") "" true
        else return "submit_form" "" "could not submit the form" false
  ]

  -- `submit_form`
  unfoldable pub submit_form :
      BrowserUi
      → Option (World → Bool)
      → Option String
      → Option String
      → List (String × String)
      → Flow FlowResult
  unfolding fill_and_submit navigate
  submit_form ui foreground none label fields = fill_and_submit ui fields label
  submit_form ui foreground (some url) label fields =
      if url == ""
      then fill_and_submit ui fields label
      else (within (navigate foreground url) then λ nav.
          if not nav.success
          then return "submit_form" "navigate" nav.error false
          else fill_and_submit ui fields label)

  -- `drag_drop` of the module window, behind the reading of its numbers
  unfoldable pub drag_drop : ℤ × ℤ → ℤ × ℤ → ℤ → String → Flow FlowResult
  drag_drop (fx, fy) (tx, ty) duration detail =
      let drag = field "type" (str "mouse.drag") (
        field "from" (list (cons (int fx) (cons (int fy) nil))) (
          field "to" (list (cons (int tx) (cons (int ty) nil)))
            (field "durationMs" (int duration) end))) in
      do_step x drag ("drag " <> detail) then return_last "drag_drop" detail "drag failed"
