-- ===== src/Tools/Hands.antt =====
-- src/desktop_worker/tools/builtin.py: the tools that drag, focus a window and draw, and `prepare_paint` of
-- src/desktop_worker/geometry/paint_setup.py. The strokes of a program on a canvas are a function, since
-- they are computed in floats, and so is what the screen shows. Texts of errors leave out the arguments.
pub mod Strokes
pub mod Blind
use desktop_worker.Prelude.{
  ℕ, suc, ◌+◌, ◌*◌, String, ◌<>◌, Bool, true, false, not, ◌&&◌, Option, none, some, List, [], ◌∷◌,
  ◌==◌, string_eq, ltb, length, if◌then◌else◌,
}
use desktop_worker.Prelude.Int.{ℤ, pos, leb_ℤ, ◌+ℤ◌, ◌-ℤ◌, half_down}
use desktop_worker.Prelude.Text.{lower, strip, occurs_in}
use desktop_worker.Errors.{
  Error, tool, type_error, value_error, emergency_stop, Result, ok, err, ◌>>=◌ as ◌then◌,
}
use desktop_worker.Value.{
  Value, Items, Dict, null, nil, cons, bool, int, str, list, tuple, dict, end, field, truthy,
  count_items,
}
use desktop_worker.Dict.{lookup, get_or}
use desktop_worker.Safety.EmergencyStop.{is_stopped}
use desktop_worker.Broker.Run.{guard_estop}
use desktop_worker.Session.{
  World, InputBackend, Exec, Outcome, done, raised, hang, pure, call, Call, ◌>>=◌,
}
use desktop_worker.Tools.Arguments.{text_of}
use desktop_worker.Tools.Builtin.{arg}

-- `int(v)`, where a TypeError or a ValueError becomes the error of the tool.
unfoldable pub number_of : (Value → Result ℤ) → String → Value → Result ℤ
number_of to_int wrong v = elim (to_int v) [
  | ok n ↦ ok n
  | err e ↦ elim e [
    | type_error m ↦ err (tool wrong)
    | value_error m ↦ err (tool wrong)
    | e ↦ err e
  ]
]

abbrev not_numbers : String
not_numbers = "drag_drop point must be two integers"

two_numbers : (Value → Result ℤ) → Items → Result (ℤ × ℤ)
unfolding number_of
two_numbers to_int (cons x (cons y nil)) =
    number_of to_int not_numbers x then λ a. number_of to_int not_numbers y then λ b. ok (a, b)
two_numbers to_int vs = err (tool "drag_drop point must be [x, y]")

-- `_point`
unfoldable pub point : (Value → Result ℤ) → Value → Result (ℤ × ℤ)
unfolding two_numbers
point to_int (list vs) = two_numbers to_int vs
point to_int (tuple vs) = two_numbers to_int vs
point to_int v = err (tool "drag_drop point must be [x, y]")

abbrev pair : ℤ × ℤ → Value
pair (x, y) = list (cons (int x) (cons (int y) nil))

abbrev at_least_one : ℤ → ℤ
at_least_one n = if leb_ℤ n (pos 0) then pos 1 else n

abbrev dragged : ℤ × ℤ → ℤ × ℤ → Bool → Value → Value
dragged a b success error = dict (
    field "success" (bool success)
      (field "from" (pair a) (field "to" (pair b) (field "error" error end))))

-- Whether the guard lets go on: an emergency stop is an answer, and not an exception.
unfoldable pub guarded : {A : Type 0} → Bool → (String → Exec A) → Exec A → Exec A
guarded wired stopped go w =
    let (r, w') = guard_estop wired w in
    elim r [
      | done u ↦ go w'
      | raised e ↦ elim e [ emergency_stop m ↦ stopped m w' | e ↦ (raised e, w') ]
      | hang ↦ (hang, w')
    ]

-- What the tools that move the mouse are made with.
pub record Hands : Type 0 where
  pub input : InputBackend
  -- whether an emergency stop is wired in
  pub wired : Bool
  pub to_int : Value → Result ℤ
  pub str_of : Value → String

module _ (hands : Hands) where
  drag_from : ℤ × ℤ → ℤ × ℤ → ℤ → Exec Value
  unfolding guarded
  drag_from a b duration =
      guarded hands.wired (λ m. pure (dragged a b false (str ("emergency stop: " <> m))))
        (call hands.input (Call.drag (int a.0) (int a.1) (int b.0) (int b.1) (int duration))
          >>= λ v. pure (dragged a b true null))

  -- The two points and the duration.
  unfoldable pub drag_arguments : Dict → Result (ℤ × ℤ × ℤ × ℤ × ℤ)
  unfolding point number_of
  drag_arguments args = point hands.to_int (arg "from" args) then λ a.
      point hands.to_int (arg "to" args) then λ b.
      number_of hands.to_int "drag_drop durationMs must be an integer"
        (get_or (lookup "durationMs" args) (int (pos 600)))
      then λ n. ok (a.0, a.1, b.0, b.1, at_least_one n)

  -- `DragDropTool.run`
  unfoldable pub drag_drop : Dict → Exec Value
  unfolding drag_from drag_arguments
  drag_drop args w = elim (drag_arguments args) [
    | err e ↦ (raised e, w)
    | ok (x, y, x', y', n) ↦ drag_from (x, y) (x', y') n w
  ]

-- `_match_window`: the first window whose title has the text in it.
unfoldable pub match_window : List (ℕ × String) → String → Option (ℕ × String)
unfolding lower occurs_in
match_window [] want = none
match_window ((hwnd, title) ∷ rest) want =
    if not (title == "") && occurs_in (lower want) (lower title)
    then some (hwnd, title)
    else match_window rest want

-- What focusing a window answers: a flag, or whether it worked and why not.
pub data Focus : Type 0 where
  flag : Bool → Focus
  told : Bool → String → Focus

abbrev focused : Focus → Bool × String
focused (flag b) = (b, if b then "" else "focus call returned false")
focused (told b reason) = (b, reason)

-- `FocusWindowTool.run`, for the windows that are open
unfoldable pub focus_window :
    (Value → String) → List (ℕ × String) → (ℕ → Focus) → Dict → Result Value
unfolding match_window strip
focus_window str_of windows focus args =
    let want = strip (text_of str_of (get_or (lookup "title_contains" args) (str ""))) in
    if want == ""
    then err (tool "focus_window needs a non-empty title_contains")
    else elim (match_window windows want) [
      | none ↦ ok (
          dict (
            field "success" (bool false)
              (field "error" (str ("no open window matching " <> want)) end)))
      | some (hwnd, title) ↦
          let (good, reason) = focused (focus hwnd) in
          ok (
            dict (
              field "success" (bool good) (
                field "title" (str title) (
                  field "error"
                    (if good then null else str ("could not focus " <> title <> ": " <> reason))
                    end))))
    ]

-- `PaintUi`
pub record PaintUi : Type 0 where
  pub focus : World → Bool
  pub tool_center : World → String → Option (ℤ × ℤ)
  pub color_center : World → String → Option (ℤ × ℤ)

pub record Prep : Type 0 where
  pub focused : Bool
  pub cleared : Bool
  pub tool : Option String
  pub color : Option String

pub record CanvasRect : Type 0 where
  pub left : ℤ
  pub top : ℤ
  pub right : ℤ
  pub bottom : ℤ
  pub source : String

-- `fit_square`
unfoldable pub fit_square : CanvasRect → CanvasRect
fit_square r =
    let width = r.right -ℤ r.left in
    let height = r.bottom -ℤ r.top in
    let half = half_down (if leb_ℤ width height then width else height) in
    let cx = half_down (r.left +ℤ r.right) in
    let cy = half_down (r.top +ℤ r.bottom) in
    record {
      left = cx -ℤ half;
      top = cy -ℤ half;
      right = cx +ℤ half;
      bottom = cy +ℤ half;
      source = r.source;
    }

-- How drawing the strokes ended: all drawn, with their points, or at an emergency stop.
pub data Drawn : Type 0 where
  finished : ℕ → ℕ → Drawn
  stopped : String → ℕ → Drawn

-- What the drawing answers.
pub data Rendered : Type 0 where
  stop_active : Rendered
  no_canvas : Prep → Rendered
  rendered : Prep → CanvasRect → Drawn → Rendered

abbrev pub stroke_time : Items → ℕ
stroke_time points = let n = count_items points * 6 in if ltb n 120 then 120 else n

abbrev pub stroke_of : Items → Call
stroke_of points = Call.stroke (list points) (int (pos (stroke_time points)))

abbrev pub select_all : Call
select_all = Call.hotkey (list (cons (str "CTRL") (cons (str "A") nil)))

module _ (input : InputBackend) where
  abbrev pub press : Call → Exec (Unit {0})
  press c = call input c >>= λ v. pure tt

  -- `if clear:` …
  unfoldable pub clear_canvas : Bool → Exec Bool
  clear_canvas false = pure false
  clear_canvas true = press select_all >>= λ u. press (Call.press_key (str "DELETE")) >>= λ u.
      press (Call.press_key (str "ESCAPE")) >>= λ u. pure true

  -- A click on what is shown under a name, if it is.
  unfoldable pub pick : (World → String → Option (ℤ × ℤ)) → String → Exec (Option String)
  pick center name w = elim (center w name) [
    | none ↦ (done none, w)
    | some (x, y) ↦ (press (Call.click (str "left") (int x) (int y)) >>= λ u. pure (some name)) w
  ]

  -- `prepare_paint`, with the tool and the colour that it has by default
  unfoldable pub prepare_paint : PaintUi → Bool → Exec Prep
  unfolding clear_canvas pick
  prepare_paint ui clear w =
      let focused = ui.focus w in
      (clear_canvas clear >>= λ cleared. pick ui.tool_center "Pencil" >>= λ tool.
      pick ui.color_center "Black" >>= λ color.
      pure (record { focused = focused; cleared = cleared; tool = tool; color = color }))
        w

  module _ (wired : Bool) where
    -- The loop over the strokes, with a guard before each.
    unfoldable pub draw : List Items → ℕ → ℕ → Exec Drawn
    unfolding guarded
    draw [] drawn total = pure (finished drawn total)
    draw (points ∷ rest) drawn total =
        let more = draw rest (suc drawn) (total + count_items points) in
        guarded wired (λ m. pure (stopped m drawn)) (call input (stroke_of points) >>= λ v. more)

    -- `render_program_to_canvas`
    unfoldable pub render :
        PaintUi → (World → Option CanvasRect) → (CanvasRect → List Items) → Bool → Exec Rendered
    unfolding draw prepare_paint fit_square
    render ui locate ink clear w =
        let (is_set, estop) = is_stopped w.estop in
        if wired && is_set
        then (done stop_active, record w { estop = estop })
        else (prepare_paint ui clear >>= λ prep w'. elim (locate w') [
          | none ↦ (done (no_canvas prep), w')
          | some canvas ↦
              (draw (ink (fit_square canvas)) 0 0 >>= λ drawn. pure (rendered prep canvas drawn)) w'
        ])
            (if wired then record w { estop = estop } else w)
