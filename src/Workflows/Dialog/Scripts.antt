-- ===== src/Workflows/Dialog/Scripts.antt =====
-- src/desktop_worker/workflows/file_dialog.py: the script that choosing a file follows.
use desktop_worker.Prelude.{
  String, ◌<>◌, Bool, true, false, refl, Option, none, some, List, [], ◌∷◌, Bool-cases,
  Option-cases, inl, inr, ◌==◌, string_eq, if◌then◌else◌,
}
use desktop_worker.Prelude.Int.{ℤ}
use desktop_worker.Prelude.Text.{lower, strip}
use desktop_worker.Value.{Dict}
use desktop_worker.Actions.Executor.Dispatch.{Executor}
use desktop_worker.Session.{World, done}
use desktop_worker.Workflows.Steps.{Desk, click_xy, type_text, hotkey, press_enter}
use desktop_worker.Workflows.Steps.Follows.{Alike, Follows, FollowsIf, Follows-step, Follows-last}
use desktop_worker.Workflows.Dialog.{
  FileDialogResult, choose_file, choose_at, fail, after_enter, confirm_file, after_typing,
  type_path, select_old, after_click,
}

abbrev pub good : FileDialogResult → Bool
good r = r.success

-- The field, its selection, the path, and ENTER.
abbrev pub choose_script : String → Option (ℤ × ℤ) → Option (List (Dict × Bool))
choose_script path none = none
choose_script path (some xy) =
    if path == ""
    then none
    else some (
        (click_xy xy, true)
        ∷ (hotkey "A", false)
        ∷ (type_text path, true)
        ∷ (press_enter, true)
        ∷ [])

module _ (x : Executor) (path how : String) where
  entered : Follows good x ((press_enter, true) ∷ []) (confirm_file x path how)
  entered =
      Follows-last good x press_enter ("confirm (" <> how <> ") with ENTER")
        (after_enter x path how) ended
    where
      ended :
          (b : Bool) (desk : Desk) → Alike good (after_enter x path how b desk) (done b, desk.world)
      ended true desk = record { world = refl; ends = refl }
      ended false desk = record { world = refl; ends = refl }

  typed : Follows good x ((type_text path, true) ∷ (press_enter, true) ∷ []) (type_path x path how)
  typed =
      Follows-step good x (type_text path) "type path" true ((press_enter, true) ∷ [])
        (after_typing x path how) entered λ desk. record { world = refl; ends = refl }

  selected :
      Follows good x
        ((hotkey "A", false) ∷ (type_text path, true) ∷ (press_enter, true) ∷ [])
        (select_old x path how)
  selected =
      Follows-step good x (hotkey "A") "select existing text" false
        ((type_text path, true) ∷ (press_enter, true) ∷ []) (λ ok. type_path x path how) typed typed

  failed :
      (msg : String) (desk : Desk) → Alike good (fail x path how msg desk) (done false, desk.world)
  failed msg desk = record { world = refl; ends = refl }

  choose_at-Follows :
      (xy : ℤ × ℤ)
      → Follows good x
          ((click_xy xy, true)
            ∷ (hotkey "A", false)
            ∷ (type_text path, true)
            ∷ (press_enter, true)
            ∷ [])
          (choose_at x path how xy)
  unfolding choose_at
  choose_at-Follows xy =
      Follows-step good x (click_xy xy) "click File name field" true
        ((hotkey "A", false) ∷ (type_text path, true) ∷ (press_enter, true) ∷ [])
        (after_click x path how) selected (failed "could not click the File name field")

pub choose_file-Follows :
    (x : Executor) (field_center : World → Option (ℤ × ℤ)) (raw confirm : String) (desk : Desk)
    → FollowsIf good x
        (choose_script (strip raw) (field_center desk.world))
        desk
        (choose_file x field_center raw confirm desk)
unfolding choose_file
choose_file-Follows x field_center raw confirm desk =
    elim (Option-cases (field_center desk.world)) [
      | inl gone ↦ elim (Bool-cases (strip raw == "")) [
        | inl empty ↦ rw (gone, empty, choose_file) (failed x (strip raw) how "empty path" desk)
        | inr some_path ↦
            rw (gone, some_path, choose_file)
              (failed x (strip raw) how
                "could not find the File name field (is a file dialog open?)" desk)
      ]
      | inr (xy, there) ↦ elim (Bool-cases (strip raw == "")) [
        | inl empty ↦ rw (there, empty, choose_file) (failed x (strip raw) how "empty path" desk)
        | inr some_path ↦
            rw (there, some_path, choose_file) (choose_at-Follows x (strip raw) how xy desk)
      ]
    ]
  where
    how : String
    how = strip (lower confirm)
