-- ===== src/Perception/Ocr/Passes.antt =====
-- `TesseractOcrBackend` of src/desktop_worker/perception/backends.py: the passes of text recognition over
-- one screenshot. The recognition and the imaging library are parameters; a call of theirs answers,
-- finds no binary, or raises something else. Sizes are whole pixels and the overlap of the tiles is a
-- fraction; they are computed exactly, where the source has floats.
use Prim.Native.Nat.{◌/◌}
pub mod Recall
use desktop_worker.Prelude.{
  ℕ, zero, suc, ◌+◌, ◌-◌, ◌*◌, String, Bool, true, false, not, ◌&&◌, ◌||◌, Option, none, some, List,
  [], ◌∷◌, ◌++◌, map, length, nat_beq, ltb, leb, if◌then◌else◌,
}
use desktop_worker.Prelude.Int.{ℤ, pos, ◌+ℤ◌, ◌-ℤ◌, leb_ℤ}
use desktop_worker.Loop.Observation.{Element}
use desktop_worker.Perception.Perceiver.{Bounds}
use desktop_worker.Perception.Ocr.{Data, merge_ocr_passes, max_ℤ, min_ℤ}
use desktop_worker.Perception.Ocr.Elements.{data_to_elements}

pub data Reading {ℓ} (A : Type ℓ) : Type ℓ where
  done : A → Reading A
  not_found raised : Reading A

infixl 20 ◌>>=◌
abbrev pub ◌>>=◌ : {A B : Type 0} → Reading A → (A → Reading B) → Reading B
done a >>= f = f a
not_found >>= f = not_found
raised >>= f = raised

-- `except Exception` around a pass: what there was before it is kept.
abbrev pub otherwise : {A B : Type 0} → Reading A → (A → B) → B → B
otherwise (done a) f b = f a
otherwise not_found f b = b
otherwise raised f b = b

-- What the libraries do with an image.
pub record Imaging : Type 1 where
  pub Image : Type 0
  pub exists : String → Bool
  pub open_image : String → Reading Image
  pub size : Image → ℕ × ℕ
  pub image_to_data : Image → Reading Data
  pub inverted : Image → Reading Image
  pub crop : Image → Bounds → Reading Image
  pub binarized : Image → ℕ → Reading Image

-- The arguments of the constructor; the overlap is `overlap.0 / overlap.1`.
pub record Settings : Type 0 where
  pub min_confidence : ℤ
  pub sparse_threshold : ℕ
  pub tile_grid : ℕ × ℕ
  pub tile_overlap : ℕ × ℕ
  pub threshold_levels : List ℕ

unfoldable pub resolve_crop_box : ℕ × ℕ → Option Bounds → Option Bounds
resolve_crop_box size none = none
resolve_crop_box (img_w, img_h) (some (left, top, right, bottom)) =
    if leb_ℤ right left || leb_ℤ bottom top
    then none
    else (let l = max_ℤ (pos 0) (left -ℤ pos 8) in
        let t = max_ℤ (pos 0) (top -ℤ pos 8) in
        let r = min_ℤ (pos img_w) (right +ℤ pos 8) in
        let b = min_ℤ (pos img_h) (bottom +ℤ pos 8) in
        if leb_ℤ r l || leb_ℤ b t then none else some (l, t, r, b))

unfoldable pub offset_ocr_data : Data → ℤ → ℤ → Data
offset_ocr_data d dx dy = record d {
  left = map (λ v. v +ℤ dx) d.left;
  top = map (λ v. v +ℤ dy) d.top;
}

-- The near and the far end of cell `i` of `n` along a side of `len` pixels, with its overlap.
abbrev pub near_end : ℕ × ℕ → ℕ → ℕ → ℕ → ℕ
near_end (num, den) len n i = (i * len * den - len * num) / (n * den)

abbrev pub far_end : ℕ × ℕ → ℕ → ℕ → ℕ → ℕ
far_end (num, den) len n i =
    let far = (suc i * len * den + len * num) / (n * den) in if leb len far then len else far

abbrev numbers_from : ℕ → ℕ → List ℕ
numbers_from i zero = []
numbers_from i (suc n) = i ∷ numbers_from (suc i) n

-- The boxes of one row of the grid.
row_boxes : ℕ × ℕ → ℕ × ℕ → ℕ × ℕ → ℕ → List ℕ → List Bounds
row_boxes over (w, h) (cols, rows) r [] = []
row_boxes over (w, h) (cols, rows) r (c ∷ cs) =
    let rest = row_boxes over (w, h) (cols, rows) r cs in
    let left = near_end over w cols c in
    let top = near_end over h rows r in
    let right = far_end over w cols c in
    let bottom = far_end over h rows r in
    if ltb left right && ltb top bottom
    then (pos left, pos top, pos right, pos bottom) ∷ rest
    else rest

all_boxes : ℕ × ℕ → ℕ × ℕ → ℕ × ℕ → List ℕ → List Bounds
unfolding row_boxes
all_boxes over size grid [] = []
all_boxes over size grid (r ∷ rs) =
    row_boxes over size grid r (numbers_from 0 grid.0) ++ all_boxes over size grid rs

unfoldable pub tile_boxes : ℕ × ℕ → ℕ × ℕ → ℕ × ℕ → List Bounds
unfolding all_boxes
tile_boxes (w, h) (cols, rows) over =
    if nat_beq w 0 || nat_beq h 0 || nat_beq cols 0 || nat_beq rows 0
    then []
    else all_boxes over (w, h) (cols, rows) (numbers_from 0 rows)

abbrev pub no_data : Data
no_data = record {
  text = [];
  conf = [];
  left = [];
  top = [];
  width = [];
  height = [];
  block_num = [];
  par_num = [];
  line_num = [];
}

module _ (lib : Imaging) (set : Settings) (printed : List ℤ → String) where
  unfoldable pub dual_polarity_data : lib.Image → Reading Data
  dual_polarity_data img = lib.image_to_data img >>= λ normal. lib.inverted img >>= λ negative.
      lib.image_to_data negative >>= λ inverse. done (merge_ocr_passes normal inverse)

  -- The loop of `_tiled_data`: a tile that raises is skipped.
  unfoldable pub tile_loop : lib.Image → List Bounds → Data → Data
  unfolding dual_polarity_data
  tile_loop img [] merged = merged
  tile_loop img ((left, top, right, bottom) ∷ boxes) merged =
      let tile = lib.crop img (left, top, right, bottom) >>= dual_polarity_data in
      tile_loop img boxes
        (otherwise tile (λ d. merge_ocr_passes merged (offset_ocr_data d left top)) merged)

  unfoldable pub tiled_data : lib.Image → Data
  unfolding tile_loop
  tiled_data img = tile_loop img (tile_boxes (lib.size img) set.tile_grid set.tile_overlap) no_data

  unfoldable pub binarized_data : lib.Image → ℕ → Reading Data
  binarized_data img level = lib.binarized img level >>= lib.image_to_data

  -- The loop of `_threshold_pass_data`: a level that raises is skipped.
  unfoldable pub level_loop : lib.Image → List ℕ → Data → Data
  unfolding binarized_data
  level_loop img [] merged = merged
  level_loop img (level ∷ levels) merged =
      level_loop img levels
        (otherwise (binarized_data img level) (λ d. merge_ocr_passes merged d) merged)

  unfoldable pub threshold_pass_data : lib.Image → Data
  unfolding level_loop
  threshold_pass_data img = level_loop img set.threshold_levels no_data

  -- `word_count`, which counts the lines too
  abbrev pub word_count : Data → ℕ
  word_count d = length (data_to_elements printed set.min_confidence d)

  -- The loops that the two passes are handle what raises, so the handlers around them never run.
  unfoldable pub maybe_add_sparse_passes : lib.Image → Data → Data
  unfolding threshold_pass_data tiled_data
  maybe_add_sparse_passes img merged =
      if leb set.sparse_threshold (word_count merged)
      then merged
      else (let more = merge_ocr_passes merged (threshold_pass_data img) in
          if leb set.sparse_threshold (word_count more)
          then more
          else merge_ocr_passes more (tiled_data img))

  -- `except pytesseract.TesseractNotFoundError`, then the elements
  abbrev pub elements_of : Reading Data → Reading (List Element)
  elements_of (done d) = done (data_to_elements printed set.min_confidence d)
  elements_of not_found = done []
  elements_of raised = raised

  unfoldable pub detect : String → Reading (List Element)
  unfolding dual_polarity_data maybe_add_sparse_passes
  detect path =
      if not (lib.exists path)
      then done []
      else elements_of (
          lib.open_image path >>= λ img.
          dual_polarity_data img >>= λ d. done (maybe_add_sparse_passes img d))

  -- What the crop of the window adds
  unfoldable pub add_crop : lib.Image → Option Bounds → Data → Data
  add_crop img bounds merged = elim (resolve_crop_box (lib.size img) bounds) [
    | none ↦ merged
    | some box ↦
        otherwise (lib.crop img box >>= lib.image_to_data)
          (λ d. merge_ocr_passes merged (offset_ocr_data d box.0 box.1)) merged
  ]

  unfoldable pub detect_with_crop : String → Option Bounds → Reading (List Element)
  unfolding dual_polarity_data maybe_add_sparse_passes add_crop
  detect_with_crop path bounds =
      if not (lib.exists path)
      then done []
      else elements_of (
          lib.open_image path >>= λ img. dual_polarity_data img >>= λ d.
          done (maybe_add_sparse_passes img (add_crop img bounds d)))
