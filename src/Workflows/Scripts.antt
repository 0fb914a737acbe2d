-- ===== src/Workflows/Scripts.antt =====
-- src/desktop_worker/workflows: the workflows and their scripts.
use desktop_worker.Prelude.{String, [], ◌∷◌, Bool, Option}
use desktop_worker.Prelude.Int.{ℤ}
use desktop_worker.Prelude.Text.{strip}
use desktop_worker.Value.{str}
use desktop_worker.Actions.Executor.Dispatch.{Executor}
use desktop_worker.Session.{World}
use desktop_worker.Tools.Arguments.{sanitize_url}
use desktop_worker.Workflows.Steps.{Desk}
use desktop_worker.Workflows.Steps.Follows.{FollowsIf}
use desktop_worker.Workflows.Browser.{BrowserUi, in_front, navigate, fill_field, click_control}
use desktop_worker.Workflows.Browser.Scripts
use desktop_worker.Workflows.Dialog.{choose_file}
use desktop_worker.Workflows.Dialog.Scripts as DialogScripts

-- The workflows are their scripts, in which a required step that fails ends the rest. To navigate is to
-- go to the address bar, type the address and press ENTER, for a safe address while the browser is in
-- front; to fill a field is to click it, select it and type; to click a control is one click; and to
-- choose a file is to click the field of the dialog, select it, type the path and press ENTER. Where
-- there is no script, because the address is not safe, the path empty, the browser behind, or the
-- control not found, the workflow fails and does nothing.
pub workflows-Follow :
    (x : Executor) (ui : BrowserUi) (foreground : Option (World → Bool))
    (field_center : World → Option (ℤ × ℤ)) (url label text path confirm : String) (desk : Desk)
    → FollowsIf Scripts.good x
        (Scripts.navigate_script (sanitize_url x.str_of (str url)) (in_front foreground desk.world))
        desk
        (navigate x foreground url desk)
      × FollowsIf Scripts.good x
          (Scripts.fill_script text (ui.edit_center (label ∷ []) desk.world))
          desk
          (fill_field x ui label text desk)
      × FollowsIf Scripts.good x
          (Scripts.click_script (ui.button_center (label ∷ []) desk.world))
          desk
          (click_control x ui label desk)
      × FollowsIf DialogScripts.good x
          (DialogScripts.choose_script (strip path) (field_center desk.world))
          desk
          (choose_file x field_center path confirm desk)
workflows-Follow x ui foreground field_center url label text path confirm desk = (
  Scripts.navigate-Follows x foreground url desk,
  Scripts.fill_field-Follows x ui label text desk,
  Scripts.click_control-Follows x ui label desk,
  DialogScripts.choose_file-Follows x field_center path confirm desk,
)
