-- ===== src/Workflows/Browser/Scripts.antt =====
-- src/desktop_worker/workflows/browser.py, src/desktop_worker/workflows/window.py: the scripts that the
-- workflows follow.
use desktop_worker.Prelude.{
  String, ◌<>◌, Bool, true, false, refl, inl, inr, Option, none, some, List, [], ◌∷◌, Bool-cases,
  Option-cases,
}
use desktop_worker.Prelude.Int.{ℤ}
use desktop_worker.Errors.{Result, ok, message, Result-cases}
use desktop_worker.Value.{Dict, str}
use desktop_worker.Actions.Executor.Dispatch.{Executor}
use desktop_worker.Session.{World, done}
use desktop_worker.Tools.Arguments.{sanitize_url}
use desktop_worker.Workflows.Steps.{Desk, FlowResult, click_xy, type_text, hotkey, press_enter}
use desktop_worker.Workflows.Steps.Follows.{Alike, Follows, FollowsIf, Follows-step, Follows-last}
use desktop_worker.Workflows.Browser.{
  BrowserUi, in_front, navigate, type_url, enter_url, after_typing, after_focus, fill_field,
  fill_at, after_select, after_click, quoted, click_control, return, return_last,
}

abbrev pub good : FlowResult → Bool
good r = r.success

abbrev pub url_script : String → List (Dict × Bool)
url_script url = (hotkey "L", false) ∷ (type_text url, true) ∷ (press_enter, true) ∷ []

-- A safe address, typed only while the browser is in front.
abbrev pub navigate_script : Result String → Bool → Option (List (Dict × Bool))
navigate_script (ok url) true = some (url_script url)
navigate_script _ _ = none

abbrev pub fill_script : String → Option (ℤ × ℤ) → Option (List (Dict × Bool))
fill_script text none = none
fill_script text (some xy) =
    some ((click_xy xy, false) ∷ (hotkey "A", false) ∷ (type_text text, true) ∷ [])

abbrev pub click_script : Option (ℤ × ℤ) → Option (List (Dict × Bool))
click_script none = none
click_script (some xy) = some ((click_xy xy, true) ∷ [])

module _ (x : Executor) where
  last :
      (action detail error : String) (b : Bool) (desk : Desk)
      → Alike good (return_last action detail error b desk) (done b, desk.world)
  last action detail error b desk = record { world = refl; ends = refl }

  type_url-Follows : (url : String) → Follows good x (url_script url) (type_url x url)
  unfolding type_url
  type_url-Follows url =
      Follows-step good x (hotkey "L") "focus address bar" false
        ((type_text url, true) ∷ (press_enter, true) ∷ []) (λ focused. after_focus x url) typing
        typing
    where
      enter : Follows good x ((press_enter, true) ∷ []) (enter_url x url)
      enter =
          Follows-last good x press_enter "press ENTER"
            (return_last "navigate" url "could not submit the URL")
            (last "navigate" url "could not submit the URL")

      typing : Follows good x ((type_text url, true) ∷ (press_enter, true) ∷ []) (after_focus x url)
      typing =
          Follows-step good x (type_text url) ("type " <> url) true ((press_enter, true) ∷ [])
            (after_typing x url) enter λ desk. record { world = refl; ends = refl }

  fill_at-Follows :
      (label text : String) (xy : ℤ × ℤ)
      → Follows good x
          ((click_xy xy, false) ∷ (hotkey "A", false) ∷ (type_text text, true) ∷ [])
          (fill_at x label text xy)
  unfolding fill_at
  fill_at-Follows label text xy =
      Follows-step good x (click_xy xy) ("click " <> quoted x label) false
        ((hotkey "A", false) ∷ (type_text text, true) ∷ []) (λ clicked. after_click x label text)
        selecting selecting
    where
      typing : Follows good x ((type_text text, true) ∷ []) (after_select x label text)
      typing =
          Follows-last good x (type_text text) ("type into " <> quoted x label)
            (return_last "fill_field" label "could not type into the field")
            (last "fill_field" label "could not type into the field")

      selecting :
          Follows good x
            ((hotkey "A", false) ∷ (type_text text, true) ∷ [])
            (after_click x label text)
      selecting =
          Follows-step good x (hotkey "A") "select existing" false ((type_text text, true) ∷ [])
            (λ selected. after_select x label text) typing typing

  failed :
      (action detail error : String) (desk : Desk)
      → Alike good (return action detail error false desk) (done false, desk.world)
  failed action detail error desk = record { world = refl; ends = refl }

  pub navigate-Follows :
      (foreground : Option (World → Bool)) (raw : String) (desk : Desk)
      → FollowsIf good x
          (navigate_script (sanitize_url x.str_of (str raw)) (in_front foreground desk.world))
          desk
          (navigate x foreground raw desk)
  unfolding navigate
  navigate-Follows foreground raw desk = elim (Result-cases (sanitize_url x.str_of (str raw))) [
    | inl (e, unsafe) ↦ rw (unsafe, navigate) (failed "navigate" "" (message e) desk)
    | inr (url, safe) ↦ elim (Bool-cases (in_front foreground desk.world)) [
      | inl front ↦ rw (safe, front, navigate) (type_url-Follows url desk)
      | inr behind ↦ rw (safe, behind, navigate) (failed "navigate" url _ desk)
    ]
  ]

  pub fill_field-Follows :
      (ui : BrowserUi) (label text : String) (desk : Desk)
      → FollowsIf good x
          (fill_script text (ui.edit_center (label ∷ []) desk.world))
          desk
          (fill_field x ui label text desk)
  unfolding fill_field
  fill_field-Follows ui label text desk =
      elim (Option-cases (ui.edit_center (label ∷ []) desk.world)) [
        | inl gone ↦ rw (gone, fill_field) (failed "fill_field" label _ desk)
        | inr (xy, there) ↦ rw (there, fill_field) (fill_at-Follows label text xy desk)
      ]

  pub click_control-Follows :
      (ui : BrowserUi) (name : String) (desk : Desk)
      → FollowsIf good x
          (click_script (ui.button_center (name ∷ []) desk.world))
          desk
          (click_control x ui name desk)
  unfolding click_control
  click_control-Follows ui name desk =
      elim (Option-cases (ui.button_center (name ∷ []) desk.world)) [
        | inl gone ↦ rw (gone, click_control) (failed "click_control" name _ desk)
        | inr (xy, there) ↦
            rw (there, click_control)
              (Follows-last good x (click_xy xy) ("click " <> quoted x name)
                (return_last "click_control" name "could not click the control")
                (last "click_control" name "could not click the control") desk)
      ]
