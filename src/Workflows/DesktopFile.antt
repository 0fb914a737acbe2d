-- ===== src/Workflows/DesktopFile.antt =====
-- src/desktop_worker/workflows/desktop_file.py: creating a text file on the desktop by hand. What the
-- screen shows and what the disk holds are functions of the session.
pub mod Verified
use desktop_worker.Prelude.{
  ℕ, zero, suc, String, ◌<>◌, Bool, true, false, not, Option, none, some, List, [], ◌∷◌, ◌++◌, ◌==◌,
  string_eq, if◌then◌else◌,
}
use desktop_worker.Prelude.Int.{ℤ, half_down}
use desktop_worker.Prelude.Text.{lower, strip, ends_with, occurs_in}
use desktop_worker.Value.{Dict, int, str, end, field}
use desktop_worker.Actions.Executor.Dispatch.{Executor}
use desktop_worker.Session.{World, Outcome, done, raised, hang}
use desktop_worker.Workflows.Steps.{
  Desk, Flow, ◌then◌, note, do_step, click_xy, type_text, hotkey, press_enter,
}

pub record CreateDesktopFileResult : Type 0 where
  pub success : Bool
  pub path : String
  pub content : String
  pub steps : List String
  pub error : String

-- `DesktopUi`
pub record DesktopUi : Type 0 where
  pub show_desktop : World → Bool
  pub menu_item_center : List String → World → Option (ℤ × ℤ)
  pub desktop_item_center : List String → World → Option (ℤ × ℤ)
  -- the title of the window in front, at each look
  pub active_window_title : World → ℕ → String

abbrev new_menu_names : List String
new_menu_names = "New" ∷ "Yeni" ∷ []

abbrev text_document_names : List String
text_document_names = "Text Document" ∷ "Metin Belgesi" ∷ "Text Belgesi" ∷ []

abbrev show_more_names : List String
show_more_names = "Show more options" ∷ "Daha fazla seçenek göster" ∷ []

-- `desktop_file_path`
unfoldable pub desktop_file_path : (String → String → String) → String → String → String
unfolding lower ends_with
desktop_file_path join dir filename =
    join dir (if ends_with ".txt" (lower filename) then filename else filename <> ".txt")

-- `_verify`, for what is read from the file: `none` where it is missing or an OSError
unfoldable pub verify : Option String → String → Bool
unfolding strip
verify none content = false
verify (some text) content = strip text == strip content

abbrev right_click : ℤ × ℤ → Dict
right_click (x, y) =
    field "type" (str "mouse.rightClick") (field "x" (int x) (field "y" (int y) end))

abbrev double_click : ℤ × ℤ → Dict
double_click (x, y) =
    field "type" (str "mouse.doubleClick") (field "x" (int x) (field "y" (int y) end))

-- The wait for the editor, from look `k` on: whether it is ready, and the next look.
unfoldable pub wait_ready : String → (ℕ → String) → ℕ → ℕ → Bool × ℕ
unfolding lower occurs_in
wait_ready filename title zero k = (false, k)
wait_ready filename title (suc left) k =
    let rest = wait_ready filename title left (suc k) in
    if occurs_in (lower filename) (lower (title k)) then (true, suc k) else rest

-- What the workflow is called with.
pub record Job : Type 0 where
  pub ui : DesktopUi
  -- the text of the file at a path
  pub read : World → String → Option String
  pub path : String
  pub content : String
  pub filename : String
  pub screen_size : ℤ × ℤ

module _ (x : Executor) (job : Job) where
  abbrev Done : Type 0
  Done = CreateDesktopFileResult

  -- `fail`
  abbrev pub fail : String → Flow Done
  fail msg desk =
      let desk' = note ("FAILED: " <> msg) desk in
      (
        done (record {
          success = false;
          path = job.path;
          content = job.content;
          steps = desk'.steps;
          error = msg;
        }),
        desk',
      )

  abbrev pub succeed : Flow Done
  succeed desk = (
    done (record {
      success = true;
      path = job.path;
      content = job.content;
      steps = desk.steps;
      error = "";
    }),
    desk,
  )

  -- `if not do(…): return fail(…)`, a step whose success is not asked for, and `if … is None`
  abbrev pub require : Dict → String → String → Flow Done → Flow Done
  require d label msg next = do_step x d label then λ ok. if not ok then fail msg else next

  abbrev pub attempt : Dict → String → Flow Done → Flow Done
  attempt d label next = do_step x d label then λ ok. next

  abbrev pub found : Option (ℤ × ℤ) → String → (ℤ × ℤ → Flow Done) → Flow Done
  found none msg next = fail msg
  found (some xy) msg next = next xy

  abbrev pub is_verified : World → Bool
  is_verified w = verify (job.read w job.path) job.content

  abbrev pub verify_again : Flow Done
  verify_again desk =
      if is_verified desk.world
      then succeed (note "ok: verified content on disk (after retry)" desk)
      else fail ("file did not contain expected content after save: " <> job.path) desk

  abbrev pub retry : Flow Done
  retry = attempt (hotkey "A") "select all" (
      attempt (type_text job.content) "re-type content"
        (attempt (hotkey "S") "save again" verify_again))

  -- 9) verify on disk (retry once if the content didn't land)
  abbrev pub verify_content : Flow Done
  verify_content desk =
      if is_verified desk.world
      then succeed (note "ok: verified content on disk" desk)
      else retry (note "warn: content not verified, retrying type+save" desk)

  -- 8) type the content and save
  abbrev pub type_content : Flow Done
  type_content =
      require (type_text job.content) "type content" "typing content failed"
        (attempt (hotkey "S") "save (Ctrl+S)" verify_content)

  -- 7) wait for the editor to be ready (title contains the filename)
  unfoldable pub wait_editor : Flow Done
  unfolding wait_ready
  wait_editor desk =
      let title = job.ui.active_window_title desk.world in
      let (ready, k) = wait_ready job.filename title 20 0 in
      let head = if ready then "ok: editor ready (" else "warn: editor ready (" in
      type_content (note (head <> x.repr (str (title k)) <> ")") desk)

  -- 6) open it by double-clicking the desktop icon
  unfoldable pub open_file : Flow Done
  unfolding wait_editor
  open_file desk =
      found (job.ui.desktop_item_center (job.filename ∷ (job.filename <> ".txt") ∷ []) desk.world)
        "could not locate the new file icon on the desktop"
        (λ xy. require (double_click xy) "double-click file" "double-click failed" wait_editor) desk

  -- 5) name the new file (it appears in rename mode) and confirm
  unfoldable pub name_file : Flow Done
  unfolding open_file
  name_file =
      attempt (type_text job.filename) ("type name " <> x.repr (str job.filename))
        (attempt press_enter "confirm name" open_file)

  -- 4) Text Document
  unfoldable pub pick_text_document : Flow Done
  unfolding name_file
  pick_text_document desk =
      found (job.ui.menu_item_center text_document_names desk.world)
        "could not find 'Text Document' submenu item"
        (λ xy. require (click_xy xy) "click Text Document" "click Text Document failed" name_file)
        desk

  -- 3) New (open submenu). Fall back to "Show more options" (Win11 compact menu).
  unfoldable pub click_new : Option (ℤ × ℤ) → Flow Done
  unfolding pick_text_document
  click_new new =
      found new "could not find 'New' in the context menu"
        λ xy. require (click_xy xy) "click New" "click New failed" pick_text_document

  abbrev pub new_in_menu : World → Option (ℤ × ℤ)
  new_in_menu w = job.ui.menu_item_center new_menu_names w

  unfoldable pub show_more : Option (ℤ × ℤ) → Flow Done
  unfolding click_new
  show_more none = click_new none
  show_more (some xy) =
      attempt (click_xy xy) "Show more options" λ desk. click_new (new_in_menu desk.world) desk

  unfoldable pub find_new : Option (ℤ × ℤ) → Flow Done
  unfolding show_more
  find_new (some xy) desk = click_new (some xy) desk
  find_new none desk = show_more (job.ui.menu_item_center show_more_names desk.world) desk

  -- `create_desktop_text_file`
  unfoldable pub create_desktop_text_file : Flow Done
  unfolding find_new
  create_desktop_text_file desk =
      let (w, h) = job.screen_size in
      require (right_click (half_down w, half_down h)) "right-click desktop" "right-click failed"
        (λ d. find_new (new_in_menu d.world) d)
        (note
          (if job.ui.show_desktop desk.world
            then "ok: show desktop"
            else "warn: show desktop not available")
          desk)
