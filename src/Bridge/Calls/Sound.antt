-- ===== src/Bridge/Calls/Sound.antt =====
-- src/desktop_worker/mcp_server/bridge.py: the documents of the named calls are valid actions.
use native.Mathlib.Omega.{arith}
use desktop_worker.Prelude.{
  ℕ, String, Bool, true, false, ◌&&◌, Option, none, some, ◌≡◌, refl, inl, inr, Bool-cases,
}
use desktop_worker.Prelude.Int.{ℤ}
use desktop_worker.Errors.{action_validation, bad_field, Invalid, ok, err}
use desktop_worker.Value.{Items, dict, str, list}
use desktop_worker.Dict.{put, without, lookup, keys}
use desktop_worker.Schema.Actions.Checks.{is_point, is_button, is_str_list}
use desktop_worker.Schema.Actions.Specs.{find_spec}
use desktop_worker.Schema.Actions.Parse.{
  unexpected_keys, check_field, check_fields, parse_params, parse_typed, parse_action,
}
use desktop_worker.Actions.Executor.Dispatch.{Executor}
use desktop_worker.Bridge.Calls

-- A document is parsed as the action of its call, or refused by the validation.
abbrev pub Valid : String → Calls.Call → Type 0
Valid folder c = parse_action (dict (Calls.document folder c)) ≡ ok (Calls.action_of folder c)

abbrev pub Refused : String → Calls.Call → Type 0
Refused folder c =
    (i : Invalid) × (parse_action (dict (Calls.document folder c)) ≡ err (action_validation i))

module _ (folder : String) where
  Valid-click :
      (button : String) (x y : Option ℤ) (ms : ℕ) (report : Bool)
      → is_button (str button) ≡ true
      → Valid folder (Calls.click x y button ms report)
  unfolding Calls.document Calls.action_of Calls.xy parse_action parse_typed parse_params
      check_fields check_field unexpected_keys lookup without keys find_spec put
  Valid-click button none none ms report h = rw (h) refl
  Valid-click button none (some y) ms report h = rw (h) refl
  Valid-click button (some x) none ms report h = rw (h) refl
  Valid-click button (some x) (some y) ms report h = rw (h) refl

  pub Refused-click :
      (button : String) (x y : Option ℤ) (ms : ℕ) (report : Bool)
      → is_button (str button) ≡ false
      → Refused folder (Calls.click x y button ms report)
  unfolding Calls.document Calls.xy parse_action parse_typed parse_params check_fields check_field
      unexpected_keys lookup without keys find_spec put
  Refused-click button none none ms report h = (bad_field "button" "left|right|middle", rw (h) refl)
  Refused-click button none (some y) ms report h =
      (bad_field "button" "left|right|middle", rw (h) refl)
  Refused-click button (some x) none ms report h =
      (bad_field "button" "left|right|middle", rw (h) refl)
  Refused-click button (some x) (some y) ms report h =
      (bad_field "button" "left|right|middle", rw (h) refl)

  Valid-double_click :
      (button : String) (x y : Option ℤ)
      → is_button (str button) ≡ true
      → Valid folder (Calls.double_click x y button)
  unfolding Calls.document Calls.action_of Calls.xy parse_action parse_typed parse_params
      check_fields check_field unexpected_keys lookup without keys find_spec put
  Valid-double_click button none none h = rw (h) refl
  Valid-double_click button none (some y) h = rw (h) refl
  Valid-double_click button (some x) none h = rw (h) refl
  Valid-double_click button (some x) (some y) h = rw (h) refl

  pub Refused-double_click :
      (button : String) (x y : Option ℤ)
      → is_button (str button) ≡ false
      → Refused folder (Calls.double_click x y button)
  unfolding Calls.document Calls.xy parse_action parse_typed parse_params check_fields check_field
      unexpected_keys lookup without keys find_spec put
  Refused-double_click button none none h = (bad_field "button" "left|right|middle", rw (h) refl)
  Refused-double_click button none (some y) h =
      (bad_field "button" "left|right|middle", rw (h) refl)
  Refused-double_click button (some x) none h =
      (bad_field "button" "left|right|middle", rw (h) refl)
  Refused-double_click button (some x) (some y) h =
      (bad_field "button" "left|right|middle", rw (h) refl)

  Valid-right_click : (x y : Option ℤ) → Valid folder (Calls.right_click x y)
  unfolding Calls.document Calls.action_of Calls.xy parse_action parse_typed parse_params
      check_fields check_field unexpected_keys lookup without keys find_spec put
  Valid-right_click none none = refl
  Valid-right_click none (some y) = refl
  Valid-right_click (some x) none = refl
  Valid-right_click (some x) (some y) = refl

  Valid-drag :
      (start stop : Items) (ms : ℤ)
      → (is_point (list start) && is_point (list stop)) ≡ true
      → Valid folder (Calls.drag start stop ms)
  unfolding Calls.document Calls.action_of Calls.xy parse_action parse_typed parse_params
      check_fields check_field unexpected_keys lookup without keys find_spec put
  Valid-drag start stop ms h = rw (start_ok, stop_ok) refl
    where
      start_ok : is_point (list start) ≡ true
      start_ok = ground arith

      stop_ok : is_point (list stop) ≡ true
      stop_ok = ground arith

  pub Refused-drag :
      (start stop : Items) (ms : ℤ)
      → (is_point (list start) && is_point (list stop)) ≡ false
      → Refused folder (Calls.drag start stop ms)
  unfolding Calls.document Calls.xy parse_action parse_typed parse_params check_fields check_field
      unexpected_keys lookup without keys find_spec put
  Refused-drag start stop ms h = elim (Bool-cases (is_point (list start))) [
    | inl p ↦ (bad_field "to" "[x, y]", rw (p, stop_bad p) refl)
    | inr p ↦ (bad_field "from" "[x, y]", rw (p) refl)
  ]
    where
      stop_bad : is_point (list start) ≡ true → is_point (list stop) ≡ false
      stop_bad p = ground arith

  Valid-hotkey : (ks : Items) → is_str_list (list ks) ≡ true → Valid folder (Calls.hotkey ks)
  unfolding Calls.document Calls.action_of Calls.xy parse_action parse_typed parse_params
      check_fields check_field unexpected_keys lookup without keys find_spec put
  Valid-hotkey ks h = rw (h) refl

  pub Refused-hotkey :
      (ks : Items) → is_str_list (list ks) ≡ false → Refused folder (Calls.hotkey ks)
  unfolding Calls.document Calls.xy parse_action parse_typed parse_params check_fields check_field
      unexpected_keys lookup without keys find_spec put
  Refused-hotkey ks h = (bad_field "keys" "list[str], e.g. ['CTRL','L']", rw (h) refl)

  Valid-run_cli :
      (command : String) (cwd : Option String) (elevated : Bool) (timeout : Option ℤ)
      → Valid folder (Calls.run_cli command cwd elevated timeout)
  unfolding Calls.document Calls.action_of Calls.xy parse_action parse_typed parse_params
      check_fields check_field unexpected_keys lookup without keys find_spec put
  Valid-run_cli command cwd elevated none = refl
  Valid-run_cli command cwd elevated (some ms) = refl

  -- Every call that is given what it needs is a valid action.
  pub Valid-fits : (x : Executor) (c : Calls.Call) → Calls.fits x c ≡ true → Valid folder c
  unfolding Calls.fits Calls.document Calls.action_of Calls.xy parse_action parse_typed parse_params
      check_fields check_field unexpected_keys lookup without keys find_spec put
  Valid-fits x (Calls.move px py ms) h = refl
  Valid-fits x (Calls.click px py button ms report) h = Valid-click button px py ms report h
  Valid-fits x (Calls.double_click px py button) h = Valid-double_click button px py h
  Valid-fits x (Calls.right_click px py) h = Valid-right_click px py
  Valid-fits x (Calls.scroll dx dy) h = refl
  Valid-fits x (Calls.drag start stop ms) h = Valid-drag start stop ms h
  Valid-fits x (Calls.type_text text) h = refl
  Valid-fits x (Calls.press_key key) h = refl
  Valid-fits x (Calls.hotkey ks) h = Valid-hotkey ks h
  Valid-fits x (Calls.clipboard_set text) h = refl
  Valid-fits x Calls.clipboard_get h = refl
  Valid-fits x (Calls.wait_for ms) h = refl
  Valid-fits x (Calls.run_tool name args) h = refl
  Valid-fits x (Calls.run_cli command cwd elevated timeout) h =
      Valid-run_cli command cwd elevated timeout
