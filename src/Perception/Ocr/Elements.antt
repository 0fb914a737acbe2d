-- ===== src/Perception/Ocr/Elements.antt =====
-- `data_to_elements` of src/desktop_worker/perception/backends.py: the words that are read well enough,
-- each as an element, then the lines they make up. How a mean of confidences is rounded and printed is
-- a parameter, which takes the confidences.
pub mod Lines
use desktop_worker.Prelude.{
  ℕ, suc, String, ◌<>◌, Bool, true, false, not, ◌&&◌, none, some, List, [], ◌∷◌, ◌++◌, map, ◌==◌,
  string_eq, if◌then◌else◌,
}
use desktop_worker.Prelude.Int.{ℤ, pos, ◌-ℤ◌, ◌+ℤ◌, is_zero, leb_ℤ, ltb_ℤ}
use desktop_worker.Prelude.Decimal.{decimal}
use desktop_worker.Loop.Observation.{Element}
use desktop_worker.Perception.Perceiver.{Bounds}
use desktop_worker.Perception.Ocr.{Data, Row, ocr_rows, word, conf_of, bounds_of, max_ℤ, min_ℤ}

-- The guards of the loop: a text that is not blank, and a confidence that is not negative and not
-- below the least one.
unfoldable pub is_read : ℤ → Row → Bool
unfolding word
is_read least r =
    not (word r == "") && (not (ltb_ℤ (conf_of r) (pos 0)) && not (ltb_ℤ (conf_of r) least))

unfoldable pub words_of : ℤ → List Row → List Row
unfolding is_read
words_of least [] = []
words_of least (r ∷ rows) =
    let rest = words_of least rows in if is_read least r then r ∷ rest else rest

abbrev pub Key : Type 0
Key = ℤ × ℤ × ℤ

abbrev pub line_key : Row → Key
line_key r = (r.block_num, r.par_num, r.line_num)

-- `line_order`, each key with its `line_words`
abbrev pub Line : Type 0
Line = Key × List Row

unfoldable pub is_equal : ℤ → ℤ → Bool
is_equal a b = leb_ℤ a b && leb_ℤ b a

unfoldable pub is_key : Key → Key → Bool
unfolding is_equal
is_key (a, b, c) (d, e, f) = is_equal a d && (is_equal b e && is_equal c f)

unfoldable pub add_word : Row → List Line → List Line
unfolding is_key
add_word r [] = (line_key r, r ∷ []) ∷ []
add_word r ((key, ws) ∷ lines) =
    let rest = add_word r lines in
    if is_key (line_key r) key then (key, ws ++ (r ∷ [])) ∷ lines else (key, ws) ∷ rest

-- The words are added in their order to the lines there are.
unfoldable pub group_words : List Row → List Line → List Line
unfolding add_word
group_words [] lines = lines
group_words (r ∷ rows) lines = group_words rows (add_word r lines)

unfoldable pub line_text : List Row → String
unfolding word
line_text [] = ""
line_text (r ∷ []) = word r
line_text (r ∷ s ∷ rows) = word r <> " " <> line_text (s ∷ rows)

abbrev pub join_bounds : Bounds → Bounds → Bounds
join_bounds (l, t, r, b) (l', t', r', b') = (min_ℤ l l', min_ℤ t t', max_ℤ r r', max_ℤ b b')

-- The least rectangle around the words; a line has one at least.
unfoldable pub line_bounds : List Row → Bounds
line_bounds [] = (pos 0, pos 0, pos 0, pos 0)
line_bounds (r ∷ []) = bounds_of r
line_bounds (r ∷ s ∷ rows) = join_bounds (bounds_of r) (line_bounds (s ∷ rows))

module _ (printed : List ℤ → String) where
  unfoldable pub word_elements : ℕ → List Row → List Element
  unfolding word
  word_elements n [] = []
  word_elements n (r ∷ rows) =
      record {
        id = "ocr-" <> decimal n;
        type = "text";
        bounds = bounds_of r;
        source = "ocr";
        text = some (word r);
        label = none;
        confidence = printed (conf_of r ∷ []);
      }
      ∷ word_elements (suc n) rows

  unfoldable pub line_elements : ℕ → List Line → List Element
  unfolding line_text line_bounds
  line_elements n [] = []
  line_elements n ((key, ws) ∷ lines) =
      record {
        id = "ocr-line-" <> decimal n;
        type = "text";
        bounds = line_bounds ws;
        source = "ocr-line";
        text = some (line_text ws);
        label = none;
        confidence = printed (map conf_of ws);
      }
      ∷ line_elements (suc n) lines

  unfoldable pub data_to_elements : ℤ → Data → List Element
  unfolding ocr_rows words_of group_words word_elements line_elements
  data_to_elements least d =
      let ws = words_of least (ocr_rows d) in
      word_elements 0 ws ++ line_elements 0 (group_words ws [])
