-- ===== src/Perception/Ocr/Merge.antt =====
-- src/desktop_worker/perception/backends.py: the merge of two passes loses no word.
use desktop_worker.Prelude.{
  Bool, true, false, ◌≡◌, refl, ap, sym, ◌∙◌, ◌⊎◌, inl, inr, some, List, [], ◌∷◌, ◌++◌, map, All,
  Bool-cases, Option-cases, ◌==◌, string_eq, eq_iff, arith, if◌then◌else◌, subst,
}
use desktop_worker.Prelude.Int.{ℤ, leb_ℤ, ltb_ℤ, pos, ◌+ℤ◌}
use desktop_worker.Prelude.Text.{lower}
use desktop_worker.Perception.Ocr.{
  Row, Marked, word, conf_of, is_same, duplicate, drop_duplicate, take_row, merge_loop, live,
  merge_rows, shift_block, max_block, ocr_rows, data_of, merge_ocr_passes, Data,
}

-- `s` has the word of `r`, in any case, and is read at least as surely.
pub record Covers (r s : Row) : Type 0 where
  pub same_word : lower (word r) ≡ lower (word s)
  pub same_blank : (word r == "") ≡ (word s == "")
  pub as_sure : leb_ℤ (conf_of r) (conf_of s) ≡ true

-- Some row of the list covers `r`.
abbrev pub Kept : Row → List Row → Type 0
Kept r [] = ⊥
Kept r (s ∷ rows) = Covers r s ⊎ Kept r rows

pub leb_ℤ_refl : (a : ℤ) → leb_ℤ a a ≡ true
leb_ℤ_refl a = ground arith

leb_ℤ_trans : (a b c : ℤ) → leb_ℤ a b ≡ true → leb_ℤ b c ≡ true → leb_ℤ a c ≡ true
leb_ℤ_trans a b c h k = ground arith

pub Covers-refl : (r : Row) → Covers r r
Covers-refl r = record { same_word = refl; same_blank = refl; as_sure = leb_ℤ_refl (conf_of r) }

Covers-trans : (r s t : Row) → Covers r s → Covers s t → Covers r t
Covers-trans r s t h k = record {
  same_word = h.same_word ∙ k.same_word;
  same_blank = h.same_blank ∙ k.same_blank;
  as_sure = leb_ℤ_trans (conf_of r) (conf_of s) (conf_of t) h.as_sure k.as_sure;
}

pub Kept-trans : (r s : Row) (rows : List Row) → Covers r s → Kept s rows → Kept r rows
Kept-trans r s [] h k = absurd k
Kept-trans r s (t ∷ rows) h (inl c) = inl (Covers-trans r s t h c)
Kept-trans r s (t ∷ rows) h (inr k) = inr (Kept-trans r s rows h k)

Kept-left : (r : Row) (xs ys : List Row) → Kept r xs → Kept r (xs ++ ys)
Kept-left r [] ys k = absurd k
Kept-left r (x ∷ xs) ys (inl c) = inl c
Kept-left r (x ∷ xs) ys (inr k) = inr (Kept-left r xs ys k)

Kept-right : (r : Row) (xs ys : List Row) → Kept r ys → Kept r (xs ++ ys)
Kept-right r [] ys k = k
Kept-right r (x ∷ xs) ys k = inr (Kept-right r xs ys k)

-- A row in front of the second part is no loss.
Kept-middle : (r y : Row) (xs ys : List Row) → Kept r (xs ++ ys) → Kept r (xs ++ (y ∷ ys))
Kept-middle r y [] ys k = inr k
Kept-middle r y (x ∷ xs) ys (inl c) = inl c
Kept-middle r y (x ∷ xs) ys (inr k) = inr (Kept-middle r y xs ys k)

-- The rows that are not dropped.
abbrev AllLive : (Row → Type 0) → List Marked → Type 0
AllLive P [] = Unit
AllLive P ((a, true) ∷ more) = AllLive P more
AllLive P ((a, false) ∷ more) = P a × AllLive P more

-- The same word up to case, and none of them or both blank.
abbrev SameWord : Row → Row → Type 0
SameWord a b = (lower (word a) ≡ lower (word b)) × ((word a == "") ≡ (word b == ""))

module _ (b : Row) where
  is_same-word : (a : Row) → is_same a b ≡ true → SameWord a b
  unfolding is_same
  is_same-word a h = ground (arith, eq_iff (lower (word a)) (lower (word b)))

  -- What holds of the live rows holds of the duplicate, which has the word of `b`.
  duplicate-live :
      (P : Row → Type 0) (marked : List Marked) (a : Row)
      → duplicate b marked ≡ some a
      → AllLive P marked
      → P a × SameWord a b
  unfolding duplicate
  duplicate-live P [] a h all = cc
  duplicate-live P ((c, true) ∷ more) a h all = duplicate-live P more a h all
  duplicate-live P ((c, false) ∷ more) a h (p, all) = elim (Bool-cases (is_same c b)) [
    | inl same ↦
        let here : c ≡ a = ground arith in
        (subst P here p, subst (λ d. SameWord d b) here (is_same-word c same))
    | inr other ↦ duplicate-live P more a (ground arith) all
  ]

  -- Once the duplicate is dropped, what holds of the live rows and of the duplicate held before.
  drop_duplicate-live :
      (P : Row → Type 0) (marked : List Marked) (a : Row)
      → duplicate b marked ≡ some a
      → P a
      → AllLive P (drop_duplicate b marked)
      → AllLive P marked
  unfolding duplicate drop_duplicate
  drop_duplicate-live P [] a h p all = tt
  drop_duplicate-live P ((c, true) ∷ more) a h p all = drop_duplicate-live P more a h p all
  drop_duplicate-live P ((c, false) ∷ more) a h p all = elim (Bool-cases (is_same c b)) [
    | inl same ↦ let here : a ≡ c = ground arith in (subst P here p, dropped same all)
    | inr other ↦
        let (q, rest) = kept other all in (q, drop_duplicate-live P more a (ground arith) p rest)
  ]
    where
      dropped :
          is_same c b ≡ true → AllLive P (drop_duplicate b ((c, false) ∷ more)) → AllLive P more
      dropped same = rw (same, drop_duplicate) (λ x. x)

      kept :
          is_same c b ≡ false
          → AllLive P (drop_duplicate b ((c, false) ∷ more))
          → P c × AllLive P (drop_duplicate b more)
      kept other = rw (other, drop_duplicate) (λ x. x)

-- What the loop keeps of both passes.
abbrev kept_of : List Row × List Marked → List Row
kept_of (kept, marked) = live marked ++ kept

AllLive-map :
    (P Q : Row → Type 0)
    → ((a : Row) → P a → Q a)
    → (marked : List Marked) → AllLive P marked
    → AllLive Q marked
AllLive-map P Q f [] all = tt
AllLive-map P Q f ((a, true) ∷ more) all = AllLive-map P Q f more all
AllLive-map P Q f ((a, false) ∷ more) (p, all) = (f a p, AllLive-map P Q f more all)

AllLive-always : (P : Row → Type 0) → ((a : Row) → P a) → (marked : List Marked) → AllLive P marked
AllLive-always P f [] = tt
AllLive-always P f ((a, true) ∷ more) = AllLive-always P f more
AllLive-always P f ((a, false) ∷ more) = (f a, AllLive-always P f more)

pub All-map :
    {P Q : Row → Type 0} → ((r : Row) → P r → Q r) → (rows : List Row) → All P rows → All Q rows
All-map f [] all = tt
All-map f (r ∷ rows) (p, all) = (f r p, All-map f rows all)

-- Every live row is kept.
live-Kept :
    (marked : List Marked) (rows : List Row) → AllLive (λ a. Kept a (live marked ++ rows)) marked
unfolding live
live-Kept [] rows = tt
live-Kept ((a, true) ∷ more) rows = live-Kept more rows
live-Kept ((a, false) ∷ more) rows =
    (inl (Covers-refl a), AllLive-map _ _ (λ r k. inr k) more (live-Kept more rows))

-- A row that is put in front of the second part or not is no loss, and is kept if it is put there.
Kept-if :
    (keep : Bool) (r y : Row) (xs ys : List Row)
    → Kept r (xs ++ ys)
    → Kept r (xs ++ (if keep then y ∷ ys else ys))
Kept-if true r y xs ys k = Kept-middle r y xs ys k
Kept-if false r y xs ys k = k

Kept-here :
    (keep : Bool) (y : Row) (xs ys : List Row)
    → keep ≡ true
    → Kept y (xs ++ (if keep then y ∷ ys else ys))
Kept-here true y xs ys h = Kept-right y xs (y ∷ ys) (inl (Covers-refl y))
Kept-here false y xs ys h = cc

-- What happens to a row of the second pass.
data Taken (b : Row) (marked : List Marked) : Bool → List Marked → Type 0 where
  lone : Taken b marked true marked
  surer :
      (a : Row)
      → duplicate b marked ≡ some a
      → ltb_ℤ (conf_of a) (conf_of b) ≡ true
      → Taken b marked true (drop_duplicate b marked)
  less :
      (a : Row)
      → duplicate b marked ≡ some a
      → ltb_ℤ (conf_of a) (conf_of b) ≡ false
      → Taken b marked false marked

take_row-Taken :
    (b : Row) (marked : List Marked) → Taken b marked (take_row b marked).0 (take_row b marked).1
unfolding take_row
take_row-Taken b marked = elim (Option-cases (duplicate b marked)) [
  | inl none_yet ↦ rw (take_row, none_yet) lone
  | inr (a, dup) ↦ elim (Bool-cases (ltb_ℤ (conf_of a) (conf_of b))) [
    | inl more ↦ rw (take_row, dup, more) (surer a dup more)
    | inr fewer ↦ rw (take_row, dup, fewer) (less a dup fewer)
  ]
]

ltb_ℤ-leb : (a b : ℤ) → ltb_ℤ a b ≡ true → leb_ℤ a b ≡ true
ltb_ℤ-leb a b h = ground arith

ltb_ℤ-leb_false : (a b : ℤ) → ltb_ℤ a b ≡ false → leb_ℤ b a ≡ true
ltb_ℤ-leb_false a b h = ground arith

-- What covers the live rows after a row of the second pass covers those before it and that row.
take_row-Kept :
    (b : Row) (marked : List Marked) (res : List Row) {keep : Bool} {next : List Marked}
    → Taken b marked keep next
    → (keep ≡ true → Kept b res)
    → AllLive (λ a. Kept a res) next
    → AllLive (λ a. Kept a res) marked × Kept b res
take_row-Kept b marked res lone h all = (all, h refl)
take_row-Kept b marked res (surer a dup more) h all =
    let (_, (same, blank)) =
      duplicate-live b (λ r. Unit) marked a dup (AllLive-always _ (λ r. tt) marked) in
    let better : Covers a b = record {
      same_word = same;
      same_blank = blank;
      as_sure = ltb_ℤ-leb (conf_of a) (conf_of b) more;
    } in
    (drop_duplicate-live b _ marked a dup (Kept-trans a b res better (h refl)) all, h refl)
take_row-Kept b marked res (less a dup fewer) h all =
    let (kept, (same, blank)) = duplicate-live b _ marked a dup all in
    let better : Covers b a = record {
      same_word = sym same;
      same_blank = sym blank;
      as_sure = ltb_ℤ-leb_false (conf_of a) (conf_of b) fewer;
    } in
    (all, Kept-trans b a res better kept)

-- What the loop keeps covers the live rows and the rows of the second pass.
merge_loop-Kept :
    (bs : List Row) (marked : List Marked)
    → let res = kept_of (merge_loop bs marked) in
      AllLive (λ a. Kept a res) marked × All (λ b. Kept b res) bs
unfolding merge_loop
merge_loop-Kept [] marked = (live-Kept marked [], tt)
merge_loop-Kept (b ∷ bs) marked =
    let (keep, next) = take_row b marked in
    let (kept, marked') = merge_loop bs next in
    let (before, after) = merge_loop-Kept bs next in
    let res = live marked' ++ (if keep then b ∷ kept else kept) in
    let lift : (r : Row) → Kept r (live marked' ++ kept) → Kept r res =
      λ r k. Kept-if keep r b (live marked') kept k in
    let (first, second) =
      take_row-Kept b marked res (take_row-Taken b marked) (Kept-here keep b (live marked') kept)
        (AllLive-map _ _ lift next before) in
    (first, (second, All-map lift bs after))

AllLive-fresh :
    (P : Row → Type 0) (rows : List Row) → AllLive P (map (λ a. (a, false)) rows) → All P rows
AllLive-fresh P [] all = tt
AllLive-fresh P (r ∷ rows) (p, all) = (p, AllLive-fresh P rows all)

-- The rows of the second pass, behind the blocks of the first.
abbrev pub behind : List Row → List Row → List Row
behind rows bs = map (shift_block (max_block rows +ℤ pos 1)) bs

merge_rows-Kept :
    (rows bs : List Row)
    → All (λ r. Kept r (merge_rows rows bs)) rows
      × All (λ r. Kept r (merge_rows rows bs)) (behind rows bs)
unfolding merge_rows
merge_rows-Kept rows bs =
    let marked = map (λ a. (a, false)) rows in
    let (first, second) = merge_loop-Kept (behind rows bs) marked in
    (AllLive-fresh _ rows first, second)

ocr_rows-data_of : (rows : List Row) → ocr_rows (data_of rows) ≡ rows
unfolding ocr_rows data_of
ocr_rows-data_of [] = refl
ocr_rows-data_of (r ∷ rows) = ap (λ rs. r ∷ rs) (ocr_rows-data_of rows)

-- Merging two passes of text recognition loses no word: each row of either pass is covered by a row
-- of the merge, which has the same word up to the case of its letters and a confidence at least as
-- high. The rows of the second pass count with their blocks numbered behind those of the first.
pub merge_ocr_passes-Kept :
    (a b : Data)
    → let merged = ocr_rows (merge_ocr_passes a b) in
      All (λ r. Kept r merged) (ocr_rows a)
      × All (λ r. Kept r merged) (behind (ocr_rows a) (ocr_rows b))
unfolding merge_ocr_passes
merge_ocr_passes-Kept a b =
    rw (ocr_rows-data_of (merge_rows (ocr_rows a) (ocr_rows b)))
      (merge_rows-Kept (ocr_rows a) (ocr_rows b))
