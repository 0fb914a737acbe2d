-- ===== src/Perception/Perceiver.antt =====
-- src/desktop_worker/perception/perceiver.py, and `merge_elements` and `stable_element_id` of
-- src/desktop_worker/perception/uia_backend.py. The files of the disk are known by whether they exist and
-- by their suffix; the recognition of text is a function on them.
use desktop_worker.Prelude.{
  ℕ, String, ◌<>◌, Bool, false, not, ◌&&◌, ◌||◌, Option, none, some, List, [], ◌∷◌, ◌++◌, length,
  is_nil, contains, ◌==◌, string_eq, if◌then◌else◌,
}
use desktop_worker.Prelude.Int.{ℤ, ◌+ℤ◌, leb_ℤ}
use desktop_worker.Prelude.Text.{lower}
use desktop_worker.Prelude.Decimal.{decimal}
use desktop_worker.Loop.Observation.{Element, Observation}
use desktop_worker.Perception.Rank.{Report}

abbrev pub Bounds : Type 0
Bounds = ℤ × ℤ × ℤ × ℤ

-- `_contains(outer, _center(inner))`. The centre is compared at twice its value, since it may lie
-- between two pixels.
unfoldable pub contains_center : Bounds → Bounds → Bool
contains_center (left, top, right, bottom) (l, t, r, b) =
    (leb_ℤ (left +ℤ left) (l +ℤ r) && leb_ℤ (l +ℤ r) (right +ℤ right))
    && (leb_ℤ (top +ℤ top) (t +ℤ b) && leb_ℤ (t +ℤ b) (bottom +ℤ bottom))

-- `any(_contains(u.bounds, c) for u in uia)`
unfoldable pub is_covered : List Element → Element → Bool
unfolding contains_center
is_covered [] o = false
is_covered (u ∷ us) o = contains_center u.bounds o.bounds || is_covered us o

unfoldable pub uncovered : List Element → List Element → List Element
unfolding is_covered
uncovered uia [] = []
uncovered uia (o ∷ os) = let rest = uncovered uia os in if is_covered uia o then rest else o ∷ rest

unfoldable pub merge_elements : List Element → List Element → List Element
unfolding uncovered
merge_elements uia ocr = uia ++ uncovered uia ocr

-- What a control says of itself; `digest` is the start of the hash of its type and name.
pub record Control : Type 0 where
  pub automation_id : Option String
  -- the parts of the `RuntimeId`, joined by dashes
  pub runtime_id : Option String
  pub native_handle : Option String
  pub control_type : String
  pub name : Option String

abbrev non_empty : Option String → Option String
non_empty none = none
non_empty (some s) = if s == "" then none else some s

weak_id : (String → String) → Control → ℕ → String
weak_id digest c index = elim (non_empty c.name) [
  | some name ↦ "n:" <> digest (c.control_type <> "|" <> name)
  | none ↦ "n:" <> digest (c.control_type <> "|") <> ":" <> decimal index
]

unfoldable pub stable_element_id : (String → String) → Control → ℕ → String
unfolding weak_id
stable_element_id digest c index = elim (non_empty c.automation_id) [
  | some id ↦ "a:" <> id
  | none ↦ elim (non_empty c.runtime_id) [
    | some id ↦ "r:" <> id
    | none ↦ elim (non_empty c.native_handle) [
      | some handle ↦ "h:" <> handle <> ":" <> c.control_type
      | none ↦ weak_id digest c index
    ]
  ]
]

-- The backend of the accessibility tree, with or without `detect_detailed`.
pub data Uia : Type 0 where
  plain : List Element → Uia
  detailed : List Element → Report → Uia

-- The backend of the text recognition, with or without `detect_with_crop`, and the disk.
pub record Ocr : Type 0 where
  pub exists : String → Bool
  pub suffix : String → String
  pub detect : String → List Element
  pub detect_with_crop : Option (String → Bounds → List Element)

abbrev image_suffixes : List String
image_suffixes = ".png" ∷ ".jpg" ∷ ".jpeg" ∷ ".bmp" ∷ []

-- The elements of the accessibility tree, and the report of the walk (`last_report`).
unfoldable pub walk : Uia → List Element × Report
walk (detailed es report) = (es, report)
walk (plain es) = (
  es,
  record {
    truncated = false;
    total_seen = length es;
    returned = length es;
    dropped = 0;
    dropped_by_type = [];
  },
)

abbrev is_image : Ocr → String → Bool
is_image ocr ref = ocr.exists ref && contains image_suffixes (lower (ocr.suffix ref))

abbrev recognise : Ocr → String → Option Bounds → List Element
recognise ocr ref none = ocr.detect ref
recognise ocr ref (some bounds) = elim ocr.detect_with_crop [
  | none ↦ ocr.detect ref
  | some crop ↦ crop ref bounds
]

-- The elements of a screenshot: only a file that is an image is read.
unfoldable pub ocr_elements : Ocr → Option String → Option Bounds → List Element
unfolding lower
ocr_elements ocr none window = []
ocr_elements ocr (some ref) window =
    if not (ref == "") && is_image ocr ref then recognise ocr ref window else []

-- `perceive`, with the bounds of the active window
unfoldable pub perceive : Uia → Ocr → Option Bounds → Observation → Observation × Report
unfolding walk ocr_elements merge_elements
perceive uia ocr window obs =
    let (es, report) = walk uia in
    let os = ocr_elements ocr obs.screenshot_ref window in
    if is_nil es && is_nil os
    then (obs, report)
    else (record obs { elements = merge_elements es os }, report)
