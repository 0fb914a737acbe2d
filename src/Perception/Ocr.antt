-- ===== src/Perception/Ocr.antt =====
-- src/desktop_worker/perception/backends.py: the words that passes of text recognition found, and the
-- merge of two passes. A confidence is a whole number of some small unit, or is no number; the
-- threshold is in the same unit.
pub mod Merge
pub mod Elements
pub mod Passes
pub mod Status
use desktop_worker.Prelude.{
  ℕ, zero, suc, ◌+◌, ◌-◌, ◌*◌, String, ◌<>◌, Bool, true, false, not, ◌&&◌, ◌||◌, Option, none, some,
  List, [], ◌∷◌, ◌++◌, map, ◌==◌, string_eq, ltb, leb, if◌then◌else◌,
}
use desktop_worker.Prelude.Int.{ℤ, pos, negsuc, pos_part, neg_part, ◌+ℤ◌, ◌-ℤ◌, leb_ℤ, ltb_ℤ}
use desktop_worker.Prelude.Text.{lower, strip}
use desktop_worker.Perception.Perceiver.{Bounds}

-- The parallel lists of `image_to_data`.
pub record Data : Type 0 where
  pub text : List (Option String)
  pub conf : List (Option ℤ)
  pub left : List ℤ
  pub top : List ℤ
  pub width : List ℤ
  pub height : List ℤ
  pub block_num : List ℤ
  pub par_num : List ℤ
  pub line_num : List ℤ

pub record Row : Type 0 where
  pub text : Option String
  pub conf : Option ℤ
  pub left : ℤ
  pub top : ℤ
  pub width : ℤ
  pub height : ℤ
  pub block_num : ℤ
  pub par_num : ℤ
  pub line_num : ℤ

abbrev num : List ℤ → ℤ × List ℤ
num [] = (pos 0, [])
num (n ∷ ns) = (n, ns)

rows_of :
    List (Option String)
    → List (Option ℤ)
    → List ℤ
    → List ℤ
    → List ℤ
    → List ℤ
    → List ℤ
    → List ℤ
    → List ℤ
    → List Row
rows_of (t ∷ ts) (c ∷ cs) (l ∷ ls) (p ∷ ps) (w ∷ ws) (h ∷ hs) bs rs ns =
    record {
      text = t;
      conf = c;
      left = l;
      top = p;
      width = w;
      height = h;
      block_num = (num bs).0;
      par_num = (num rs).0;
      line_num = (num ns).0;
    }
    ∷ rows_of ts cs ls ps ws hs (num bs).1 (num rs).1 (num ns).1
rows_of _ _ _ _ _ _ bs rs ns = []

-- `_ocr_rows`
unfoldable pub ocr_rows : Data → List Row
unfolding rows_of
ocr_rows d = rows_of d.text d.conf d.left d.top d.width d.height d.block_num d.par_num d.line_num

-- The parts of `_row_text_conf_bounds`
abbrev pub text_in : Row → String
text_in r = elim r.text [ none ↦ "" | some t ↦ t ]

unfoldable pub word : Row → String
unfolding strip
word r = strip (text_in r)

-- What is no number counts as -1.
abbrev pub conf_of : Row → ℤ
conf_of r = elim r.conf [ none ↦ negsuc 0 | some c ↦ c ]

abbrev pub bounds_of : Row → Bounds
bounds_of r = (r.left, r.top, r.left +ℤ r.width, r.top +ℤ r.height)

abbrev pub max_ℤ : ℤ → ℤ → ℤ
max_ℤ a b = if leb_ℤ a b then b else a

abbrev pub min_ℤ : ℤ → ℤ → ℤ
min_ℤ a b = if leb_ℤ a b then a else b

abbrev max_ℕ : ℕ → ℕ → ℕ
max_ℕ a b = if leb a b then b else a

-- `max(0, a - b)` and `abs(a)`
abbrev above : ℤ → ℤ → ℕ
above a b = pos_part (a -ℤ b)

abbrev size : ℤ → ℕ
size a = pos_part a + neg_part a

-- `_bounds_overlap`: the shared area is 0.3 of the joint one at least, or the centres are near. The
-- centres are compared at twice their distance, squared.
unfoldable pub bounds_overlap : Bounds → Bounds → Bool
bounds_overlap (ax0, ay0, ax1, ay1) (bx0, by0, bx1, by1) =
    let inter = above (min_ℤ ax1 bx1) (max_ℤ ax0 bx0) * above (min_ℤ ay1 by1) (max_ℤ ay0 by0) in
    let union = above ax1 ax0 * above ay1 ay0 + above bx1 bx0 * above by1 by0 - inter in
    let dx = size ((ax0 +ℤ ax1) -ℤ (bx0 +ℤ bx1)) in
    let dy = size ((ay0 +ℤ ay1) -ℤ (by0 +ℤ by1)) in
    let widest =
      max_ℕ (max_ℕ (above ax1 ax0) (above ay1 ay0))
        (max_ℕ (max_ℕ (above bx1 bx0) (above by1 by0)) 1) in
    (ltb 0 union && leb (3 * union) (10 * inter)) || leb (dx * dx + dy * dy) (widest * widest)

-- The two rows read the same word at the same place.
unfoldable pub is_same : Row → Row → Bool
unfolding word bounds_overlap lower
is_same a b =
    not (word b == "")
    && (not (word a == "") && lower (word a) == lower (word b))
    && bounds_overlap (bounds_of a) (bounds_of b)

-- A row of the first pass, and whether it is dropped.
abbrev pub Marked : Type 0
Marked = Row × Bool

-- The first row that is not dropped and the same as `b`.
unfoldable pub duplicate : Row → List Marked → Option Row
duplicate b [] = none
duplicate b ((a, dropped) ∷ more) =
    let rest = duplicate b more in if not dropped && is_same a b then some a else rest

-- `dropped_a.add(dup_index)`
unfoldable pub drop_duplicate : Row → List Marked → List Marked
drop_duplicate b [] = []
drop_duplicate b ((a, dropped) ∷ more) =
    let rest = drop_duplicate b more in
    if not dropped && is_same a b then (a, true) ∷ more else (a, dropped) ∷ rest

-- Whether the row of the second pass is kept, and the marks after it.
unfoldable pub take_row : Row → List Marked → Bool × List Marked
unfolding duplicate drop_duplicate
take_row b marked = elim (duplicate b marked) [
  | none ↦ (true, marked)
  | some a ↦
      if ltb_ℤ (conf_of a) (conf_of b) then (true, drop_duplicate b marked) else (false, marked)
]

-- The loop over the rows of the second pass: what is kept of it, and the marks.
unfoldable pub merge_loop : List Row → List Marked → List Row × List Marked
unfolding take_row
merge_loop [] marked = ([], marked)
merge_loop (b ∷ bs) marked =
    let (keep, next) = take_row b marked in
    let (kept, marked') = merge_loop bs next in (if keep then b ∷ kept else kept, marked')

-- `[r for i, r in enumerate(rows_a) if i not in dropped_a]`
unfoldable pub live : List Marked → List Row
live [] = []
live ((a, dropped) ∷ more) = let rest = live more in if dropped then rest else a ∷ rest

-- `max((r["block_num"] for r in rows), default=-1)`
unfoldable pub max_block : List Row → ℤ
max_block [] = negsuc 0
max_block (r ∷ []) = r.block_num
max_block (r ∷ s ∷ rows) = max_ℤ r.block_num (max_block (s ∷ rows))

abbrev pub shift_block : ℤ → Row → Row
shift_block n r = record r { block_num = r.block_num +ℤ n }

unfoldable pub merge_rows : List Row → List Row → List Row
unfolding merge_loop live max_block
merge_rows rows bs =
    let shifted = map (shift_block (max_block rows +ℤ pos 1)) bs in
    let (kept, marked) = merge_loop shifted (map (λ a. (a, false)) rows) in live marked ++ kept

unfoldable pub data_of : List Row → Data
data_of rows = record {
  text = map (λ (r : Row). r.text) rows;
  conf = map (λ (r : Row). r.conf) rows;
  left = map (λ (r : Row). r.left) rows;
  top = map (λ (r : Row). r.top) rows;
  width = map (λ (r : Row). r.width) rows;
  height = map (λ (r : Row). r.height) rows;
  block_num = map (λ (r : Row). r.block_num) rows;
  par_num = map (λ (r : Row). r.par_num) rows;
  line_num = map (λ (r : Row). r.line_num) rows;
}

-- `merge_ocr_passes`
unfoldable pub merge_ocr_passes : Data → Data → Data
unfolding ocr_rows merge_rows data_of
merge_ocr_passes a b = data_of (merge_rows (ocr_rows a) (ocr_rows b))
