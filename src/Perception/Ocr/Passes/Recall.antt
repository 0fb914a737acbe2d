-- ===== src/Perception/Ocr/Passes/Recall.antt =====
-- src/desktop_worker/perception/backends.py: no later pass loses what the first pass read.
use desktop_worker.Prelude.{
  ℕ, suc, true, ◌≡◌, refl, ap, sym, ◌⊎◌, inl, inr, String, Option, none, some, List, [], ◌∷◌, ◌++◌,
  All, Bool-cases, Option-cases, leb, string_eq, arith,
}
use desktop_worker.Prelude.Int.{ℤ}
use desktop_worker.Prelude.Text.{lower}
use desktop_worker.Loop.Observation.{Element}
use desktop_worker.Perception.Perceiver.{Bounds}
use desktop_worker.Perception.Ocr.{Data, Row, ocr_rows, word, merge_ocr_passes}
use desktop_worker.Perception.Ocr.Merge.{
  Covers, Covers-refl, Kept, Kept-trans, All-map, merge_ocr_passes-Kept,
}
use desktop_worker.Perception.Ocr.Elements.{is_read, words_of, word_elements, data_to_elements}
use desktop_worker.Perception.Ocr.Passes.{
  Reading, done, Imaging, Settings, resolve_crop_box, offset_ocr_data, dual_polarity_data,
  threshold_pass_data, tiled_data, word_count, maybe_add_sparse_passes, detect, add_crop,
  detect_with_crop, not_found, raised, ◌>>=◌, otherwise,
}

-- Some element has the text, up to case.
abbrev pub Named : String → List Element → Type 0
Named t [] = ⊥
Named t (e ∷ es) = (elim e.text [ none ↦ none | some s ↦ some (lower s) ] ≡ some t) ⊎ Named t es

Named-left : (t : String) (xs ys : List Element) → Named t xs → Named t (xs ++ ys)
Named-left t [] ys k = absurd k
Named-left t (x ∷ xs) ys (inl h) = inl h
Named-left t (x ∷ xs) ys (inr k) = inr (Named-left t xs ys k)

-- Every row of the first data is covered in the second.
abbrev AllKept : Data → Data → Type 0
AllKept a b = All (λ r. Kept r (ocr_rows b)) (ocr_rows a)

Kept-through : (r : Row) (xs ys : List Row) → Kept r xs → All (λ s. Kept s ys) xs → Kept r ys
Kept-through r [] ys k all = absurd k
Kept-through r (x ∷ xs) ys (inl c) (k, all) = Kept-trans r x ys c k
Kept-through r (x ∷ xs) ys (inr k) (_, all) = Kept-through r xs ys k all

AllKept-trans : (a b c : Data) → AllKept a b → AllKept b c → AllKept a c
AllKept-trans a b c h k =
    All-map (λ r kept. Kept-through r (ocr_rows b) (ocr_rows c) kept k) (ocr_rows a) h

Kept-refl : (rows : List Row) → All (λ r. Kept r rows) rows
Kept-refl [] = tt
Kept-refl (r ∷ rows) = (inl (Covers-refl r), All-map (λ s k. inr k) rows (Kept-refl rows))

more-AllKept : (a b : Data) → AllKept a (merge_ocr_passes a b)
more-AllKept a b = (merge_ocr_passes-Kept a b).0

-- What a covering row is read as
Covers-is_read :
    (least : ℤ) (r s : Row) → Covers r s → is_read least r ≡ true → is_read least s ≡ true
unfolding is_read
Covers-is_read least r s c h = let blank = c.same_blank in let sure = c.as_sure in ground arith

module _ (printed : List ℤ → String) (least : ℤ) (r : Row) (read : is_read least r ≡ true) where
  word_elements-Named :
      (n : ℕ) (rows : List Row)
      → Kept r rows
      → Named (lower (word r)) (word_elements printed n (words_of least rows))
  unfolding words_of word_elements
  word_elements-Named n [] k = absurd k
  word_elements-Named n (s ∷ rows) (inl c) =
      rw (Covers-is_read least r s c read) (inl (ap some (sym c.same_word)))
  word_elements-Named n (s ∷ rows) (inr k) = elim (Bool-cases (is_read least s)) [
    | inl e ↦ rw e (inr (word_elements-Named (suc n) rows k))
    | inr e ↦ rw e (word_elements-Named n rows k)
  ]

  data_to_elements-Named :
      (d : Data) → Kept r (ocr_rows d) → Named (lower (word r)) (data_to_elements printed least d)
  unfolding data_to_elements
  data_to_elements-Named d k =
      Named-left (lower (word r)) _ _ (word_elements-Named 0 (ocr_rows d) k)

AllKept-refl : (a : Data) → AllKept a a
AllKept-refl a = Kept-refl (ocr_rows a)

otherwise-AllKept :
    (a : Data) (more : Reading Data) (f : Data → Data)
    → AllKept a (otherwise more (λ d. merge_ocr_passes a (f d)) a)
otherwise-AllKept a (done d) f = more-AllKept a (f d)
otherwise-AllKept a not_found f = AllKept-refl a
otherwise-AllKept a raised f = AllKept-refl a

module _ (lib : Imaging) (set : Settings) (printed : List ℤ → String) where
  maybe_add_sparse_passes-AllKept :
      (img : lib.Image) (d : Data) → AllKept d (maybe_add_sparse_passes lib set printed img d)
  unfolding maybe_add_sparse_passes
  maybe_add_sparse_passes-AllKept img d =
      let more = merge_ocr_passes d (threshold_pass_data lib set printed img) in
      let all = merge_ocr_passes more (tiled_data lib set printed img) in
      elim (Bool-cases (leb set.sparse_threshold (word_count lib set printed d))) [
        | inl dense ↦ rw dense (AllKept-refl d)
        | inr sparse ↦
            elim (Bool-cases (leb set.sparse_threshold (word_count lib set printed more))) [
              | inl dense ↦
                  rw (sparse, dense) (more-AllKept d (threshold_pass_data lib set printed img))
              | inr still ↦
                  rw (sparse, still)
                    (AllKept-trans d more all
                      (more-AllKept d (threshold_pass_data lib set printed img))
                      (more-AllKept more (tiled_data lib set printed img)))
            ]
      ]

  add_crop-AllKept :
      (img : lib.Image) (bounds : Option Bounds) (d : Data)
      → AllKept d (add_crop lib set printed img bounds d)
  unfolding add_crop
  add_crop-AllKept img bounds d = elim (Option-cases (resolve_crop_box (lib.size img) bounds)) [
    | inl whole ↦ rw (add_crop, whole) (AllKept-refl d)
    | inr (box, part) ↦
        rw (add_crop, part)
          (otherwise-AllKept d (lib.crop img box >>= lib.image_to_data)
            (λ c. offset_ocr_data c box.0 box.1))
  ]

  -- What is found names every word of the data that is read well enough.
  abbrev pub NamesAll : Data → List Element → Type 0
  NamesAll d found =
      All (λ r. is_read set.min_confidence r ≡ true → Named (lower (word r)) found) (ocr_rows d)

  AllKept-NamesAll :
      (a b : Data) → AllKept a b → NamesAll a (data_to_elements printed set.min_confidence b)
  AllKept-NamesAll a b kept =
      All-map (λ r k read. data_to_elements-Named printed set.min_confidence r read b k)
        (ocr_rows a) kept

  -- Recognition of a screenshot returns whatever its later passes do, and forgets nothing: when the file
  -- is there and opens, and the two passes over the whole image answer with the merge `d`, then both
  -- `detect` and `detect_with_crop`, for any bounds, end with a list of elements which has, for each
  -- word of `d` that is read well enough, an element whose text is that word up to case. The crop, the
  -- thresholds and the tiles may raise in any way, and may read anything.
  pub detect-Recall :
      (path : String) (bounds : Option Bounds) (img : lib.Image) (d : Data)
      → lib.exists path ≡ true
      → lib.open_image path ≡ done img
      → dual_polarity_data lib set printed img ≡ done d
      → ((found : List Element) × (detect lib set printed path ≡ done found) × NamesAll d found)
        × ((found : List Element) × (detect_with_crop lib set printed path bounds ≡ done found)
            × NamesAll d found)
  unfolding detect detect_with_crop
  detect-Recall path bounds img d there opens reads =
      let sparse = maybe_add_sparse_passes lib set printed img in
      let cropped = add_crop lib set printed img bounds d in
      let kept =
        AllKept-trans d cropped (sparse cropped) (add_crop-AllKept img bounds d)
          (maybe_add_sparse_passes-AllKept img cropped) in
      (
        (
          data_to_elements printed set.min_confidence (sparse d),
          rw (there, opens, reads) refl,
          AllKept-NamesAll d (sparse d) (maybe_add_sparse_passes-AllKept img d),
        ),
        (
          data_to_elements printed set.min_confidence (sparse cropped),
          rw (there, opens, reads) refl,
          AllKept-NamesAll d (sparse cropped) kept,
        ),
      )
