-- ===== src/Schema/Actions/Specs.antt =====
-- src/desktop_worker/schema/actions.py: `ACTION_SPECS`, one row for each action type, in the order
-- of the source.
use desktop_worker.Prelude.{
  String, true, Option, none, some, List, [], ◌∷◌, ◌==◌, string_eq, map, if◌then◌else◌,
}
use desktop_worker.Schema.Actions.Checks.{
  is_int, is_number, is_point, is_point_list, is_str, is_button, is_str_list, is_bool, is_dict,
  ActionSpec, f, optional,
}

abbrev pub action_specs : List ActionSpec
action_specs =
    (record {
      type = "mouse.move";
      fields = (f "x" is_number "number" true) ∷ (f "y" is_number "number" true) ∷ [];
      summary = "Move cursor to absolute (x, y).";
    })
    ∷ (record {
      type = "mouse.moveRelative";
      fields = (f "dx" is_number "number" true) ∷ (f "dy" is_number "number" true) ∷ [];
      summary = "Move cursor by (dx, dy) from current position.";
    })
    ∷ (record {
      type = "mouse.click";
      fields =
          (f "button" is_button "left|right|middle" optional)
          ∷ (f "x" is_number "number" optional)
          ∷ (f "y" is_number "number" optional)
          ∷ [];
      summary = "Click (optionally move to x,y first).";
    })
    ∷ (record {
      type = "mouse.doubleClick";
      fields =
          (f "button" is_button "left|right|middle" optional)
          ∷ (f "x" is_number "number" optional)
          ∷ (f "y" is_number "number" optional)
          ∷ [];
      summary = "Double click.";
    })
    ∷ (record {
      type = "mouse.rightClick";
      fields = (f "x" is_number "number" optional) ∷ (f "y" is_number "number" optional) ∷ [];
      summary = "Right click.";
    })
    ∷ (record {
      type = "mouse.down";
      fields = (f "button" is_button "left|right|middle" optional) ∷ [];
      summary = "Press and hold a mouse button.";
    })
    ∷ (record {
      type = "mouse.up";
      fields = (f "button" is_button "left|right|middle" optional) ∷ [];
      summary = "Release a mouse button.";
    })
    ∷ (record {
      type = "mouse.scroll";
      fields = (f "dx" is_int "int" optional) ∷ (f "dy" is_int "int" optional) ∷ [];
      summary = "Scroll vertically/horizontally.";
    })
    ∷ (record {
      type = "mouse.drag";
      fields =
          (f "from" is_point "[x, y]" true)
          ∷ (f "to" is_point "[x, y]" true)
          ∷ (f "durationMs" is_int "int" optional)
          ∷ [];
      summary = "Drag from one point to another.";
    })
    ∷ (record {
      type = "mouse.stroke";
      fields =
          (f "points" is_point_list "list of >=2 [x, y] points" true)
          ∷ (f "durationMs" is_int "int" optional)
          ∷ [];
      summary = "Freehand stroke: press, drag through all points (e.g. to draw), release.";
    })
    ∷ (record {
      type = "keyboard.type";
      fields = (f "text" is_str "string" true) ∷ [];
      summary = "Type text.";
    })
    ∷ (record {
      type = "keyboard.press";
      fields = (f "key" is_str "string" true) ∷ [];
      summary = "Press a single key.";
    })
    ∷ (record {
      type = "keyboard.hotkey";
      fields = (f "keys" is_str_list "list[str], e.g. ['CTRL','L']" true) ∷ [];
      summary = "Press a key combination.";
    })
    ∷ (record {
      type = "clipboard.set";
      fields = (f "text" is_str "string" true) ∷ [];
      summary = "Set clipboard text.";
    })
    ∷ (record { type = "clipboard.get"; fields = []; summary = "Read clipboard text." })
    ∷ (record {
      type = "window.focus";
      fields = (f "titleContains" is_str "string" true) ∷ [];
      summary = "Focus a window whose title contains the given text.";
    })
    ∷ (record {
      type = "wait";
      fields = (f "durationMs" is_int "int" true) ∷ [];
      summary = "Wait for a fixed duration.";
    })
    ∷ (record {
      type = "cli.run";
      fields =
          (f "command" is_str "string" true)
          ∷ (f "cwd" is_str "string" true)
          ∷ (f "timeoutMs" is_int "int" optional)
          ∷ (f "elevated" is_bool "bool" optional)
          ∷ [];
      summary = "Run a command through the elevated CLI broker.";
    })
    ∷ (record {
      type = "tool.run";
      fields = (f "tool" is_str "string" true) ∷ (f "args" is_dict "object" optional) ∷ [];
      summary = "Run a reliable named workflow tool (e.g. create_text_file).";
    })
    ∷ (record {
      type = "verify";
      fields =
          (f "visibleTextContains" is_str "string" optional)
          ∷ (f "activeWindowContains" is_str "string" optional)
          ∷ (f "fileExists" is_str "string" optional)
          ∷ [];
      summary = "Verify an expected post-condition.";
    })
    ∷ []

-- `ACTION_SPECS.get(atype)`: the dictionary is keyed by the rows' types, which all differ.
unfoldable pub find_spec : String → List ActionSpec → Option ActionSpec
find_spec t [] = none
find_spec t (s ∷ specs) = if s.type == t then some s else find_spec t specs

abbrev pub known_action_types : List String
known_action_types = map (λ s. s.type) action_specs
