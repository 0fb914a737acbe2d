-- ===== src/Loop/Verify.antt =====
-- src/desktop_worker/loop/task_loop.py: `_verify`, the check of a step's expected outcome.
use desktop_worker.Prelude.{
  String, ◌<>◌, Bool, false, Option, none, some, List, [], ◌∷◌, string_eq, length,
}
use desktop_worker.Prelude.Int.{pos}
use desktop_worker.Prelude.Text.{lower, occurs_in}
use desktop_worker.Errors.{other, Result, ok, err}
use desktop_worker.Value.{Value, Dict, bool, int, str, dict, end, field}
use desktop_worker.Dict.{lookup, get_or}
use desktop_worker.Schema.Results.{ActionResult}
use desktop_worker.Loop.Observation.{Observation, Element, title_of}
use desktop_worker.Loop.Step.{TaskLoop, Scene, PlannedStep}

-- src/desktop_worker/schema/results.py: `VerificationResult`
pub record VerificationResult : Type 0 where
  pub passed : Bool
  pub method : String
  pub expected : Dict
  pub observed : Dict
  pub note : String

unfoldable pub verification_to_dict : VerificationResult → Dict
verification_to_dict v = field "passed" (bool v.passed) (
    field "method" (str v.method) (
      field "expected" (dict v.expected)
        (field "observed" (dict v.observed) (field "note" (str v.note) end))))

abbrev pub text_or_empty : Option String → String
text_or_empty none = ""
text_or_empty (some s) = s

-- `" ".join((e.text or "") + " " + (e.label or "") for e in elements)`
unfoldable pub seen_text : List Element → String
seen_text [] = ""
seen_text (e ∷ []) = text_or_empty e.text <> " " <> text_or_empty e.label
seen_text (e ∷ es) = text_or_empty e.text <> " " <> text_or_empty e.label <> " " <> seen_text es

abbrev pub verdict : Bool → String → Dict → Dict → Option VerificationResult
verdict passed method expected observed = some (record {
  passed = passed;
  method = method;
  expected = expected;
  observed = observed;
  note = "";
})

-- A title to look for that is no text has no `lower`.
unfoldable pub verify_window : Value → Observation → Result (Option VerificationResult)
unfolding occurs_in
verify_window (str want) after =
    let title = title_of after.active_window in
    ok (
      verdict (occurs_in (lower want) (lower title)) "activeWindow"
        (field "activeWindowContains" (str want) end) (field "activeWindow" (str title) end))
verify_window v after = err (other "AttributeError" "no attribute 'lower'")

module _ {S : Type 0} (loop : TaskLoop S) where
  abbrev pub verify_clipboard : Value → ActionResult → Option VerificationResult
  verify_clipboard want result =
      let got = get_or (lookup "text" result.detail) (str "") in
      verdict (loop.same_value got want) "clipboard" (field "clipboardEquals" want end)
        (field "text" got end)

  abbrev pub verify_file : Value → Scene S → Option VerificationResult
  verify_file want scene =
      let path = loop.str_of want in
      let passed = loop.is_file scene.world scene.looks path in
      verdict passed "fileExists" (field "fileExists" (str path) end)
        (field "exists" (bool passed) end)

  abbrev window_text : Option String → String
  window_text none = ""
  window_text (some title) = " " <> lower title

  abbrev pub verify_text : Value → Observation → Option VerificationResult
  verify_text want after =
      let haystack = lower (seen_text after.elements) <> window_text after.active_window in
      verdict (occurs_in (lower (loop.str_of want)) haystack) "visibleText"
        (field "visibleTextContains" want end)
        (field "elementCount" (int (pos (length after.elements))) end)

  abbrev pub unsupported : Dict → Option VerificationResult
  unsupported expected = some (record {
    passed = false;
    method = "unsupported";
    expected = expected;
    observed = end;
    note =
        "no supported verification key (activeWindowContains / visibleTextContains / clipboardEquals)";
  })

  -- The keys in the order of the source: the first that is there decides.
  unfoldable pub verify_keys :
      Dict → Observation → ActionResult → Scene S → Result (Option VerificationResult)
  verify_keys expected after result scene = elim (lookup "activeWindowContains" expected) [
    | some want ↦ verify_window want after
    | none ↦ elim (lookup "clipboardEquals" expected) [
      | some want ↦ ok (verify_clipboard want result)
      | none ↦ elim (lookup "fileExists" expected) [
        | some want ↦ ok (verify_file want scene)
        | none ↦ elim (lookup "visibleTextContains" expected) [
          | some want ↦ ok (verify_text want after)
          | none ↦ ok (unsupported expected)
        ]
      ]
    ]
  ]

  -- `_verify`; nothing is checked where nothing is expected.
  unfoldable pub verify :
      PlannedStep → Observation → ActionResult → Scene S → Result (Option VerificationResult)
  verify step after result scene = elim step.expected [
    | end ↦ ok none
    | field k v d ↦ verify_keys (field k v d) after result scene
  ]
