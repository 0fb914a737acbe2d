-- ===== src/Scenarios/Desktop.antt =====
-- The built-in tools and the workflows on concrete inputs.
use desktop_worker.Prelude.{
  ◌≡◌, refl, Bool, true, false, ◌<>◌, Option, none, some, List, [], ◌∷◌, ◌++◌,
}
use desktop_worker.Prelude.Int.{ℤ, pos}
use desktop_worker.Prelude.Text.{strip}
use desktop_worker.Errors.{runtime, ok, err}
use desktop_worker.Value.{Items, Dict, nil, cons, int, str, list, end, field}
use desktop_worker.Safety.EmergencyStop.{is_stopped}
use desktop_worker.Session.{World, done}
use desktop_worker.Tools.Arguments.{sanitize_url}
use desktop_worker.Tools.Builtin.{Disk, Kit, open_url, open_app, create_text_file}
use desktop_worker.Tools.Builtin.Launches.{
  Launches, OpensPage, OpensApp, OpensFile, builtin-Launches,
}
use desktop_worker.Tools.Hands.{render, no_canvas, draw}
use desktop_worker.Tools.Hands.Strokes.{Draws, draw-Draws}
use desktop_worker.Tools.Hands.Blind.{clearing, blind_prep, quiet, nothing_shown, render_blind}
use desktop_worker.Workflows.Steps.{Desk}
use desktop_worker.Workflows.Steps.Follows.{FollowsIf}
use desktop_worker.Workflows.Browser.{BrowserUi, in_front, navigate, fill_field, click_control}
use desktop_worker.Workflows.Browser.Scripts
use desktop_worker.Workflows.Dialog.{choose_file}
use desktop_worker.Workflows.Dialog.Scripts as DialogScripts
use desktop_worker.Workflows.Scripts.{workflows-Follow}
use desktop_worker.Workflows.DesktopFile.{Job, create_desktop_text_file}
use desktop_worker.Workflows.DesktopFile.Verified.{
  Vouches, IsVerified, create_desktop_text_file-IsVerified,
}
use desktop_worker.Scenarios.Data.{
  start, plain, standard, quiet_os, plain_broker, null_input, clear_stop,
}

abbrev disk : Disk
disk = record {
  join = λ folder name. folder <> "/" <> name;
  write = λ path text. none;
  read_back = λ path text. some text;
}

abbrev kit : Kit
kit = record {
  os = quiet_os;
  broker = some plain_broker;
  desktop_dir = "C:/Users/me/Desktop";
  policy = some standard;
  str_of = λ v. "None";
  to_int = λ v. elim v [ int n ↦ ok n | _ ↦ err (runtime "no int") ];
  disk = disk;
  input = null_input;
  guarded = true;
}

abbrev args : Dict
args = field "url" (str "https://example.org/?a=1&b=2") (
    field "app" (str " Calculator ")
      (field "filename" (str "notes.txt") (field "content" (str "hi") end)))

builtin-Launches_example :
    Launches kit "open_url" (OpensPage kit) start (open_url kit args start).1
    × Launches kit "open_app" (OpensApp kit) start (open_app kit args start).1
    × Launches kit "create_text_file" (OpensFile kit) start (create_text_file kit args start).1
builtin-Launches_example = builtin-Launches kit args start

abbrev strokes : List Items
strokes =
    cons (list (cons (int (pos 1)) (cons (int (pos 2)) nil))) nil
    ∷ cons (list (cons (int (pos 3)) (cons (int (pos 4)) nil))) nil
    ∷ []

draw-Draws_example : Draws true strokes 0 start (draw null_input true strokes 0 0 start)
draw-Draws_example = draw-Draws null_input true strokes 0 0 start

free : is_stopped clear_stop ≡ (false, clear_stop)
unfolding is_stopped
free = refl

render_blind_example :
    render quiet true (nothing_shown (λ w. false)) (λ w. none) (λ canvas. strokes) true start
    ≡ (done (no_canvas (blind_prep (λ w. false) start)), record start { calls = [] ++ clearing })
render_blind_example = render_blind (λ w. false) true (λ canvas. strokes) start free

abbrev ui : BrowserUi
ui = record { edit_center = λ names w. some (pos 10, pos 20); button_center = λ names w. none }

abbrev desk : Desk
desk = record { world = start; steps = [] }

abbrev front : Option (World → Bool)
front = some (λ w. true)

abbrev field_at : World → Option (ℤ × ℤ)
field_at w = some (pos 30, pos 40)

workflows-Follow_example :
    FollowsIf Scripts.good plain
      (Scripts.navigate_script
        (sanitize_url plain.str_of (str "https://a.b"))
        (in_front front start))
      desk
      (navigate plain front "https://a.b" desk)
    × FollowsIf Scripts.good plain
        (Scripts.fill_script "me" (ui.edit_center ("Name" ∷ []) start))
        desk
        (fill_field plain ui "Name" "me" desk)
    × FollowsIf Scripts.good plain
        (Scripts.click_script (ui.button_center ("Name" ∷ []) start))
        desk
        (click_control plain ui "Name" desk)
    × FollowsIf DialogScripts.good plain
        (DialogScripts.choose_script (strip " C:/a.txt") (field_at start))
        desk
        (choose_file plain field_at " C:/a.txt" "open" desk)
workflows-Follow_example =
    workflows-Follow plain ui front field_at "https://a.b" "Name" "me" " C:/a.txt" "open" desk

abbrev job : Job
job = record {
  ui = record {
    show_desktop = λ w. true;
    menu_item_center = λ names w. some (pos 5, pos 5);
    desktop_item_center = λ names w. some (pos 7, pos 7);
    active_window_title = λ w k. "dw-demo - Notepad";
  };
  read = λ w path. some "hello\n";
  path = "C:/Users/me/Desktop/dw-demo.txt";
  content = "hello";
  filename = "dw-demo";
  screen_size = (pos 1920, pos 1080);
}

create_desktop_text_file-IsVerified_example :
    Vouches (IsVerified plain job) (create_desktop_text_file plain job desk)
create_desktop_text_file-IsVerified_example = create_desktop_text_file-IsVerified plain job desk
