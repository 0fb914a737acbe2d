-- ===== src/Workflows/Dialog.antt =====
-- src/desktop_worker/workflows/file_dialog.py: choosing a file in a dialog that is open.
pub mod Scripts
use desktop_worker.Prelude.{
  String, ◌<>◌, Bool, true, false, not, Option, none, some, List, [], ◌∷◌, ◌++◌, ◌==◌, string_eq,
  if◌then◌else◌,
}
use desktop_worker.Prelude.Int.{ℤ}
use desktop_worker.Prelude.Text.{lower, strip}
use desktop_worker.Actions.Executor.Dispatch.{Executor}
use desktop_worker.Session.{World, Outcome, done, raised, hang}
use desktop_worker.Workflows.Steps.{
  Desk, Flow, ◌then◌, note, do_step, click_xy, type_text, hotkey, press_enter,
}

pub record FileDialogResult : Type 0 where
  pub success : Bool
  pub path : String
  pub confirm : String
  pub steps : List String
  pub error : String

module _ (x : Executor) (path confirm : String) where
  -- `fail`
  abbrev pub fail : String → Flow FileDialogResult
  fail msg desk =
      let desk' = note ("FAIL: " <> msg) desk in
      (
        done (record {
          success = false;
          path = path;
          confirm = confirm;
          steps = desk'.steps;
          error = msg;
        }),
        desk',
      )

  abbrev pub chosen : Flow FileDialogResult
  chosen desk = (
    done
        (record { success = true; path = path; confirm = confirm; steps = desk.steps; error = "" }),
    desk,
  )

  abbrev pub after_enter : Bool → Flow FileDialogResult
  after_enter ok = if not ok then fail "could not confirm the dialog" else chosen

  abbrev pub confirm_file : Flow FileDialogResult
  confirm_file = do_step x press_enter ("confirm (" <> confirm <> ") with ENTER") then after_enter

  abbrev pub after_typing : Bool → Flow FileDialogResult
  after_typing ok = if not ok then fail "could not type the path" else confirm_file

  abbrev pub type_path : Flow FileDialogResult
  type_path = do_step x (type_text path) "type path" then after_typing

  abbrev pub select_old : Flow FileDialogResult
  select_old = do_step x (hotkey "A") "select existing text" then λ selected. type_path

  abbrev pub after_click : Bool → Flow FileDialogResult
  after_click ok = if not ok then fail "could not click the File name field" else select_old

  -- The part of `choose_file` behind the search for the field.
  unfoldable pub choose_at : ℤ × ℤ → Flow FileDialogResult
  choose_at xy = do_step x (click_xy xy) "click File name field" then after_click

-- `choose_file`, where the field of the dialog is a function of the session
unfoldable pub choose_file :
    Executor → (World → Option (ℤ × ℤ)) → String → String → Flow FileDialogResult
unfolding lower strip choose_at
choose_file x field_center raw confirm desk =
    let path = strip raw in
    let how = strip (lower confirm) in
    if path == "" then fail x path how "empty path" desk else elim (field_center desk.world) [
      | none ↦ fail x path how "could not find the File name field (is a file dialog open?)" desk
      | some xy ↦ choose_at x path how xy desk
    ]

-- `upload_file`
unfoldable pub upload_file : Executor → (World → Option (ℤ × ℤ)) → String → Flow FileDialogResult
unfolding choose_file
upload_file x field_center path = choose_file x field_center path "open"
