-- ===== src/Bridge/Calls/Runs.antt =====
-- src/desktop_worker/mcp_server/bridge.py: a named call is the execution of one valid action, or a
-- refusal.
use native.Mathlib.Omega.{arith}
use desktop_worker.Prelude.{
  ℕ, String, Bool, true, false, ◌<>◌, ◌≡◌, refl, ap, inl, inr, Option, none, some, Option-cases,
  ◌==◌, string_eq, if◌then◌else◌,
}
use desktop_worker.Errors.{action_validation, message}
use desktop_worker.Value.{Dict, int, str, bool, list, dict, end, field}
use desktop_worker.Dict.{put, without}
use desktop_worker.Prelude.Int.{ℤ}
use desktop_worker.Schema.Actions.Parse.{Action}
use desktop_worker.Actions.Executor.Dispatch.{Executor}
use desktop_worker.Session.{World, done}
use desktop_worker.Bridge.{refusal, act, act_parsed, run_parsed}
use desktop_worker.Bridge.Calls
use desktop_worker.Bridge.Calls.Sound.{
  Valid, Refused, Refused-click, Refused-double_click, Refused-drag, Refused-hotkey, Valid-fits,
}

-- A number that may be left out, in front of the other fields.
abbrev given : String → Option ℤ → Dict → Dict
given k none d = d
given k (some n) d = field k (int n) d

abbrev folder_or : String → Option String → String
folder_or folder none = folder
folder_or folder (some cwd) = if cwd == "" then folder else cwd

abbrev entries_or : Option Dict → Dict
entries_or none = end
entries_or (some args) = args

abbrev plainly : String → Dict → Action × ℕ × Bool
plainly kind fields = (record { type = kind; params = fields }, 0, false)

-- What each call asks for: its action, the wait behind it in milliseconds, and whether the change is
-- reported.
abbrev pub asked_for : String → Calls.Call → Action × ℕ × Bool
asked_for folder (Calls.move px py ms) = (
  record { type = "mouse.move"; params = field "x" (int px) (field "y" (int py) end) },
  ms,
  false,
)
asked_for folder (Calls.click px py button ms report) = (
  record {
    type = "mouse.click";
    params = field "button" (str button) (given "x" px (given "y" py end));
  },
  ms,
  report,
)
asked_for folder (Calls.double_click px py button) =
    plainly "mouse.doubleClick" (field "button" (str button) (given "x" px (given "y" py end)))
asked_for folder (Calls.right_click px py) =
    plainly "mouse.rightClick" (given "x" px (given "y" py end))
asked_for folder (Calls.scroll dx dy) =
    plainly "mouse.scroll" (field "dx" (int dx) (field "dy" (int dy) end))
asked_for folder (Calls.drag start stop ms) =
    plainly "mouse.drag"
      (field "from" (list start) (field "to" (list stop) (field "durationMs" (int ms) end)))
asked_for folder (Calls.type_text text) = plainly "keyboard.type" (field "text" (str text) end)
asked_for folder (Calls.press_key key) = plainly "keyboard.press" (field "key" (str key) end)
asked_for folder (Calls.hotkey ks) = plainly "keyboard.hotkey" (field "keys" (list ks) end)
asked_for folder (Calls.clipboard_set text) = plainly "clipboard.set" (field "text" (str text) end)
asked_for folder Calls.clipboard_get = plainly "clipboard.get" end
asked_for folder (Calls.wait_for ms) = plainly "wait" (field "durationMs" (int ms) end)
asked_for folder (Calls.run_tool name args) =
    plainly "tool.run" (field "tool" (str name) (field "args" (dict (entries_or args)) end))
asked_for folder (Calls.run_cli command cwd elevated timeout) = plainly "cli.run" (
    field "command" (str command) (
      field "cwd" (str (folder_or folder cwd))
        (field "elevated" (bool elevated) (given "timeoutMs" timeout end))))

handed : String → Calls.Call → Action × ℕ × Bool
handed folder c = (Calls.action_of folder c, Calls.settle_of c, Calls.report_of c)

-- The document that is handed over stands for just what was asked for.
asked_as_handed : (folder : String) (c : Calls.Call) → handed folder c ≡ asked_for folder c
unfolding handed Calls.action_of Calls.document Calls.xy put without
asked_as_handed folder (Calls.move px py ms) = refl
asked_as_handed folder (Calls.click none none button ms report) = refl
asked_as_handed folder (Calls.click none (some py) button ms report) = refl
asked_as_handed folder (Calls.click (some px) none button ms report) = refl
asked_as_handed folder (Calls.click (some px) (some py) button ms report) = refl
asked_as_handed folder (Calls.double_click none none button) = refl
asked_as_handed folder (Calls.double_click none (some py) button) = refl
asked_as_handed folder (Calls.double_click (some px) none button) = refl
asked_as_handed folder (Calls.double_click (some px) (some py) button) = refl
asked_as_handed folder (Calls.right_click none none) = refl
asked_as_handed folder (Calls.right_click none (some py)) = refl
asked_as_handed folder (Calls.right_click (some px) none) = refl
asked_as_handed folder (Calls.right_click (some px) (some py)) = refl
asked_as_handed folder (Calls.scroll dx dy) = refl
asked_as_handed folder (Calls.drag start stop ms) = refl
asked_as_handed folder (Calls.type_text text) = refl
asked_as_handed folder (Calls.press_key key) = refl
asked_as_handed folder (Calls.hotkey ks) = refl
asked_as_handed folder (Calls.clipboard_set text) = refl
asked_as_handed folder Calls.clipboard_get = refl
asked_as_handed folder (Calls.wait_for ms) = refl
asked_as_handed folder (Calls.run_tool name none) = refl
asked_as_handed folder (Calls.run_tool name (some args)) = refl
asked_as_handed folder (Calls.run_cli command none elevated none) = refl
asked_as_handed folder (Calls.run_cli command none elevated (some ms)) = refl
asked_as_handed folder (Calls.run_cli command (some cwd) elevated none) = refl
asked_as_handed folder (Calls.run_cli command (some cwd) elevated (some ms)) = refl

module _ (x : Executor) (signature : ℕ → World → String) (folder : String) (c : Calls.Call) where
  -- A call runs its action, or answers with a refusal and leaves the session alone.
  abbrev pub Runs : Type 0
  Runs =
      (w : World)
      → Calls.call x signature folder c w ≡ (
          let (action, ms, report) = asked_for folder c in
          act_parsed x signature action ms report w)

  abbrev pub Refuses : Type 0
  Refuses =
      (w : World) → (text : String) × (Calls.call x signature folder c w ≡ (done (refusal text), w))

  Runs-hand_over :
      Valid folder c
      → ((w : World)
          → Calls.call x signature folder c w
            ≡ act x signature
                (dict (Calls.document folder c))
                (Calls.settle_of c)
                (Calls.report_of c)
                w)
      → Runs
  unfolding act handed
  Runs-hand_over valid h w =
      rw (h w, act, valid)
        (ap (λ t. act_parsed x signature t.0 t.1 t.2 w) (asked_as_handed folder c))

  Refuses-hand_over :
      Refused folder c
      → ((w : World)
          → Calls.call x signature folder c w
            ≡ act x signature
                (dict (Calls.document folder c))
                (Calls.settle_of c)
                (Calls.report_of c)
                w)
      → Refuses
  unfolding act run_parsed
  Refuses-hand_over (i, refused) h w =
      ("invalid action: " <> message (action_validation i), rw (h w, act, refused) refl)

module _ (x : Executor) (signature : ℕ → World → String) (folder : String) where
  hands_over :
      (c : Calls.Call)
      → Calls.fits x c ≡ true
      → (w : World)
      → Calls.call x signature folder c w
        ≡ act x signature (dict (Calls.document folder c)) (Calls.settle_of c) (Calls.report_of c) w
  unfolding Calls.call Calls.fits
  hands_over (Calls.move px py ms) h w = refl
  hands_over (Calls.click px py button ms report) h w = refl
  hands_over (Calls.double_click px py button) h w = refl
  hands_over (Calls.right_click px py) h w = refl
  hands_over (Calls.scroll dx dy) h w = refl
  hands_over (Calls.drag start stop ms) h w = refl
  hands_over (Calls.type_text text) h w = refl
  hands_over (Calls.press_key key) h w = refl
  hands_over (Calls.hotkey ks) h w = refl
  hands_over (Calls.clipboard_set text) h w = refl
  hands_over Calls.clipboard_get h w = refl
  hands_over (Calls.wait_for ms) h w = refl
  hands_over (Calls.run_tool name args) h w = elim (Option-cases x.tools) [
    | inl e ↦ absurd (grind arith)
    | inr (tools, e) ↦ rw (e) refl
  ]
  hands_over (Calls.run_cli command cwd elevated timeout) h w = refl

  refuses : (c : Calls.Call) → Calls.fits x c ≡ false → Refuses x signature folder c
  unfolding Calls.fits Calls.call
  refuses (Calls.move px py ms) h w = absurd (cc)
  refuses (Calls.click px py button ms report) h w =
      Refuses-hand_over x signature folder (Calls.click px py button ms report)
        (Refused-click folder button px py ms report h) (λ w'. refl) w
  refuses (Calls.double_click px py button) h w =
      Refuses-hand_over x signature folder (Calls.double_click px py button)
        (Refused-double_click folder button px py h) (λ w'. refl) w
  refuses (Calls.right_click px py) h w = absurd (cc)
  refuses (Calls.scroll dx dy) h w = absurd (cc)
  refuses (Calls.drag start stop ms) h w =
      Refuses-hand_over x signature folder (Calls.drag start stop ms)
        (Refused-drag folder start stop ms h) (λ w'. refl) w
  refuses (Calls.type_text text) h w = absurd (cc)
  refuses (Calls.press_key key) h w = absurd (cc)
  refuses (Calls.hotkey ks) h w =
      Refuses-hand_over x signature folder (Calls.hotkey ks) (Refused-hotkey folder ks h)
        (λ w'. refl) w
  refuses (Calls.clipboard_set text) h w = absurd (cc)
  refuses Calls.clipboard_get h w = absurd (cc)
  refuses (Calls.wait_for ms) h w = absurd (cc)
  refuses (Calls.run_tool name args) h w = elim (Option-cases x.tools) [
    | inl e ↦ ("no tools registry configured", rw (e) refl)
    | inr (tools, e) ↦ absurd (grind arith)
  ]
  refuses (Calls.run_cli command cwd elevated timeout) h w = absurd (cc)

  -- A call that is given what it needs (a known button, two points, a key at least, a tools registry)
  -- runs just the action that `asked_for` spells out for it, with the wait and the report that were
  -- asked for; any other answers with a refusal, and leaves the session as it was.
  pub call-Runs :
      (c : Calls.Call)
      → (Calls.fits x c ≡ true → Runs x signature folder c)
        × (Calls.fits x c ≡ false → Refuses x signature folder c)
  call-Runs c = (
    λ h. Runs-hand_over x signature folder c (Valid-fits folder x c h) (hands_over c h),
    refuses c,
  )
