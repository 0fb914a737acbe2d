-- ===== src/Scenarios/Read.antt =====
-- The recognition of text on concrete inputs.
use desktop_worker.Prelude.{
  ℕ, String, ◌≡◌, refl, true, false, Bool, Option, some, List, [], ◌∷◌, All, map, take,
  if◌then◌else◌,
}
use desktop_worker.Prelude.Int.{ℤ, pos, ◌-ℤ◌, ◌+ℤ◌}
use desktop_worker.Perception.Perceiver.{Bounds}
use desktop_worker.Loop.Observation.{Element}
use desktop_worker.Perception.Ocr.{
  Data, Row, is_same, word, bounds_of, data_of, ocr_rows, merge_ocr_passes,
}
use desktop_worker.Perception.Ocr.Elements.{Key, Line, line_bounds, group_words}
use desktop_worker.Perception.Ocr.Elements.Lines.{
  with_key, words_at, AreLines, IsInside, group_words-Lines,
}
use desktop_worker.Perception.Ocr.Passes.{
  Imaging, Settings, done, not_found, raised, detect, detect_with_crop, dual_polarity_data,
  tile_boxes,
}
use desktop_worker.Perception.Ocr.Passes.Recall.{NamesAll, detect-Recall}

abbrev row_of : String → ℕ → ℕ → ℕ → Row
row_of t conf x line = record {
  text = some t;
  conf = some (pos conf);
  left = pos x;
  top = pos 5;
  width = pos 30;
  height = pos 10;
  block_num = pos 1;
  par_num = pos 1;
  line_num = pos line;
}

abbrev run_row : Row
run_row = row_of "Run" 91 40 1

abbrev two_lines : List Row
two_lines = row_of "New" 90 5 1 ∷ row_of "Settings" 70 5 2 ∷ run_row ∷ []

group_words-Lines_example :
    let lines = group_words two_lines [] in
    ((k : Key) → words_at k lines ≡ with_key k two_lines)
    × (AreLines lines
        × All (λ (l : Line). All (λ w. IsInside (bounds_of w) (line_bounds l.1)) l.1) lines)
group_words-Lines_example = group_words-Lines two_lines

-- Two lines, and the words of the first in order.
first_line :
    words_at (pos 1, pos 1, pos 1) (group_words two_lines []) ≡ row_of "New" 90 5 1 ∷ run_row ∷ []
unfolding group_words
first_line = refl

abbrev normal : Data
normal = data_of two_lines

abbrev inverse : Data
inverse = data_of (row_of "RUN" 95 41 1 ∷ row_of "Quit" 60 200 1 ∷ [])

-- The surer reading of a word takes the place of the other.
merged :
    map word (ocr_rows (merge_ocr_passes normal inverse)) ≡ "New" ∷ "Settings" ∷ "RUN" ∷ "Quit" ∷ []
unfolding merge_ocr_passes is_same ◌-ℤ◌ ◌+ℤ◌
merged = refl

-- Images are `true` for the inverted one; each later pass fails in its own way.
abbrev imaging : Imaging
imaging = record {
  Image = Bool;
  exists = λ path. true;
  open_image = λ path. done false;
  size = λ img. (1920, 1200);
  image_to_data = λ img. if img then done inverse else done normal;
  inverted = λ img. done true;
  crop = λ img box. raised;
  binarized = λ img level. not_found;
}

abbrev settings : Settings
settings = record {
  min_confidence = pos 30;
  sparse_threshold = 20;
  tile_grid = (3, 2);
  tile_overlap = (1, 10);
  threshold_levels = 120 ∷ 170 ∷ [];
}

abbrev printed : List ℤ → String
printed cs = "0.9"

abbrev window : Option Bounds
window = some (pos 0, pos 0, pos 300, pos 200)

dual_read :
    dual_polarity_data imaging settings printed false ≡ done (merge_ocr_passes normal inverse)
unfolding dual_polarity_data
dual_read = refl

detect-Recall_example :
    let d = merge_ocr_passes normal inverse in
    ((found : List Element) × (detect imaging settings printed "shot.png" ≡ done found)
      × NamesAll imaging settings printed d found)
    × ((found : List Element) × (detect_with_crop imaging settings printed "shot.png" window
          ≡ done found)
        × NamesAll imaging settings printed d found)
detect-Recall_example =
    detect-Recall imaging settings printed "shot.png" window false (merge_ocr_passes normal inverse)
      refl refl dual_read

-- Six tiles, which overlap.
tiles :
    take 2 (tile_boxes (1920, 1200) (3, 2) (1, 10))
    ≡ (pos 0, pos 0, pos 704, pos 660) ∷ (pos 576, pos 0, pos 1344, pos 660) ∷ []
unfolding tile_boxes
tiles = refl
