-- ===== src/Bridge/Perceive.antt =====
-- src/desktop_worker/mcp_server/bridge.py: perceive with its filters, and click_element. An element has
-- the four whole numbers of `Element.bounds`, so that the tests of the shape of its bounds hold. `look`
-- is the observer with the perceiver, and the report of the walk; `to_int` is Python's `int` of a value.
pub mod Account
pub mod Click
use desktop_worker.Prelude.{
  ℕ, zero, suc, ◌+◌, ◌-◌, String, ◌<>◌, Bool, true, false, not, ◌&&◌, ◌||◌, Option, none, some,
  List, [], ◌∷◌, length, take, is_nil, ltb, ◌==◌, string_eq, if◌then◌else◌,
}
use desktop_worker.Prelude.Int.{ℤ, pos, negsuc, ◌+ℤ◌, leb_ℤ, half}
use desktop_worker.Prelude.Text.{lower, strip, occurs_in}
use desktop_worker.Errors.{Error, type_error, value_error, Result, ok, err}
use desktop_worker.Value.{
  Value, Items, Dict, nil, cons, int, str, list, tuple, dict, end, field, bool,
}
use desktop_worker.Dict.{put}
use desktop_worker.Broker.Cli.{opt_text}
use desktop_worker.Loop.Observation.{Element}
use desktop_worker.Perception.Rank.{Report}
use desktop_worker.Perception.Perceiver.{Bounds}
use desktop_worker.Actions.Executor.Dispatch.{Executor}
use desktop_worker.Session.{World, Exec, Outcome, done, raised, hang}
use desktop_worker.Bridge.{Answer, refusal}
use desktop_worker.Bridge.Calls

-- `int(v)` of each, where a TypeError or a ValueError means that there is no region.
region_number : Result ℤ → Result (Option ℤ)
region_number (ok n) = ok (some n)
region_number (err (type_error m)) = ok none
region_number (err (value_error m)) = ok none
region_number (err e) = err e

abbrev and_then : Result (Option ℤ) → (ℤ → Result (Option Bounds)) → Result (Option Bounds)
and_then (ok none) next = ok none
and_then (ok (some n)) next = next n
and_then (err e) next = err e

region_items : (Value → Result ℤ) → Items → Result (Option Bounds)
unfolding region_number
region_items to_int (cons l (cons t (cons r (cons b nil)))) =
    and_then (region_number (to_int l)) λ l'. and_then (region_number (to_int t)) λ t'.
      and_then (region_number (to_int r))
        λ r'. and_then (region_number (to_int b)) λ b'. ok (some (l', t', r', b'))
region_items to_int _ = ok none

unfoldable pub region_of : (Value → Result ℤ) → Value → Result (Option Bounds)
unfolding region_items
region_of to_int (list vs) = region_items to_int vs
region_of to_int (tuple vs) = region_items to_int vs
region_of to_int v = ok none

abbrev or_empty : Option String → String
or_empty none = ""
or_empty (some s) = s

abbrev in_region : Option Bounds → Bounds → Bool
in_region none b = true
in_region (some (left, top, right, bottom)) (l, t, r, b) =
    (leb_ℤ (left +ℤ left) (l +ℤ r) && leb_ℤ (l +ℤ r) (right +ℤ right))
    && (leb_ℤ (top +ℤ top) (t +ℤ b) && leb_ℤ (t +ℤ b) (bottom +ℤ bottom))

-- What a caller asks for: a type, a text, a region and a number of elements.
pub record Filter : Type 0 where
  pub control_type : String
  pub text_contains : String
  pub region : Value
  pub max_elements : ℤ

-- The criteria of `_filter_elements`, on one element. The centre is compared at twice its value.
unfoldable pub fits_filter : String → String → Option Bounds → Element → Bool
unfolding lower occurs_in
fits_filter want_type want_text box e =
    (want_type == "" || lower e.type == want_type)
    && (want_text == "" || occurs_in want_text (lower (or_empty e.text <> " " <> or_empty e.label)))
    && in_region box e.bounds

unfoldable pub select : (Element → Bool) → List Element → List Element
select p [] = []
select p (e ∷ es) = let rest = select p es in if p e then e ∷ rest else rest

-- `_filter_elements`
unfoldable pub filter_elements : (Value → Result ℤ) → Filter → List Element → Result (List Element)
unfolding fits_filter select region_of strip
filter_elements to_int f es = elim (region_of to_int f.region) [
  | err e ↦ err e
  | ok box ↦
      ok
        (select (fits_filter (lower (strip f.control_type)) (lower (strip f.text_contains)) box) es)
]

-- `elements[:max_elements]`, and how many it is said to leave out.
unfoldable pub cap : ℤ → List Element → List Element × ℕ
cap (pos n) es = if ltb 0 n && ltb n (length es) then (take n es, length es - n) else (es, 0)
cap (negsuc n) es = (take (length es - (n + 1)) es, length es + (n + 1))

abbrev source_of : Element → String
source_of e = if e.source == "" then "unknown" else e.source

count_source : String → List Element → ℕ
count_source s [] = 0
count_source s (e ∷ es) = (if source_of e == s then 1 else 0) + count_source s es

-- The answer, as far as it is computed here. `by_source` counts the elements of a source.
pub record Perceived : Type 0 where
  pub elements : List Element
  pub truncated : Bool
  pub report : Report
  pub filtered_out : ℕ
  pub capped_by_request : ℕ
  pub shown : ℕ
  pub by_source : String → ℕ
  pub ocr_warning : Bool

-- `report.setdefault(…)`, where there is no perceiver.
abbrev report_or : List Element → Option Report → Report
report_or es (some report) = report
report_or es none = record {
  truncated = false;
  total_seen = length es;
  returned = length es;
  dropped = 0;
  dropped_by_type = [];
}

-- What `perceive` makes of the elements on the screen.
unfoldable pub perceived : Bool → Bool → List Element → Option Report → List Element → ℤ → Perceived
unfolding cap count_source
perceived screenshot ocr_available es report kept max =
    let r = report_or es report in
    let (shown, capped) = cap max kept in
    record {
      elements = shown;
      truncated = r.truncated || ltb 0 capped;
      report = r;
      filtered_out = length es - length kept;
      capped_by_request = capped;
      shown = length shown;
      by_source = λ s. count_source s shown;
      ocr_warning =
          screenshot && is_nil (select (λ e. source_of e == "ocr") shown) && not ocr_available;
    }

pub record Eyes : Type 0 where
  pub look : World → Bool → List Element × Option Report
  pub ocr_available : Bool
  pub to_int : Value → Result ℤ

-- `perceive`
unfoldable pub perceive : Eyes → Bool → Filter → World → Result Perceived
perceive eyes screenshot f w =
    let (es, report) = eyes.look w screenshot in
    elim (filter_elements eyes.to_int f es) [
      | err e ↦ err e
      | ok kept ↦ ok (perceived screenshot eyes.ocr_available es report kept f.max_elements)
    ]

abbrev pub no_filter : Filter
no_filter = record {
  control_type = "";
  text_contains = "";
  region = Value.null;
  max_elements = pos 0;
}

-- `next((e for e in elements if e.get("id") == element_id), None)`
unfoldable pub find_element : String → List Element → Option Element
find_element id [] = none
find_element id (e ∷ es) = if e.id == id then some e else find_element id es

-- The `center` that perceive adds.
unfoldable pub center : Bounds → ℤ × ℤ
center (l, t, r, b) = (half (l +ℤ r), half (t +ℤ b))

element_note : Element → Value
unfolding center
element_note e =
    let (cx, cy) = center e.bounds in
    dict (
      field "id" (str e.id) (
        field "type" (str e.type) (
          field "text" (opt_text e.text)
            (field "center" (list (cons (int cx) (cons (int cy) nil))) end))))

-- An answer, and the entries that `click_element` adds to its `detail`.
abbrev pub Clicked : Type 0
Clicked = Answer × Dict

unfoldable pub with_detail : Element → Outcome Answer × World → Outcome Clicked × World
unfolding element_note
with_detail e (done a, w) = (done (a, field "element" (element_note e) end), w)
with_detail e (raised x, w) = (raised x, w)
with_detail e (hang, w) = (hang, w)

-- The click at the centre that the element has now.
unfoldable pub click_at : Executor → (ℕ → World → String) → String → Element → String → Exec Clicked
unfolding center
click_at x signature folder e button w =
    let (cx, cy) = center e.bounds in
    with_detail e (Calls.call x signature folder (Calls.click (some cx) (some cy) button 0 false) w)

abbrev pub stale_hint : Bool → String
stale_hint truncated =
    if truncated
    then " The element list was truncated, so it may exist but not be listed — narrow with control_type/text_contains/region and retry."
    else " Re-perceive to get current ids."

-- `click_element`
unfoldable pub click_element :
    Executor → (ℕ → World → String) → String → Eyes → String → String → Exec Clicked
click_element x signature folder eyes id button w =
    if id == ""
    then (done (refusal "click_element needs a non-empty element_id", end), w)
    else elim (perceive eyes false no_filter w) [
      | err e ↦ (raised e, w)
      | ok seen ↦ elim (find_element id seen.elements) [
        | none ↦ (
          done (
            refusal (
                "element "
                <> x.repr (str id)
                <> " is not on screen now."
                <> stale_hint seen.truncated),
            field "truncated" (bool seen.truncated)
                (field "perceived" (int (pos (length seen.elements))) end),
          ),
          w,
        )
        | some e ↦ click_at x signature folder e button w
      ]
    ]
