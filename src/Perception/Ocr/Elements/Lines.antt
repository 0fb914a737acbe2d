-- ===== src/Perception/Ocr/Elements/Lines.antt =====
-- src/desktop_worker/perception/backends.py: the lines of `data_to_elements` hold each word, in order.
use desktop_worker.Prelude.{
  true, false, ◌≡◌, refl, ap, sym, ◌∙◌, inl, inr, List, [], ◌∷◌, ◌++◌, All, Bool-cases, is_nil,
  arith, if◌then◌else◌,
}
use desktop_worker.Prelude.Int.{ℤ, pos, negsuc, leb_ℤ}
use desktop_worker.Perception.Perceiver.{Bounds}
use desktop_worker.Perception.Ocr.{Row, bounds_of, max_ℤ, min_ℤ}
use desktop_worker.Perception.Ocr.Merge.{leb_ℤ_refl}
use desktop_worker.Perception.Ocr.Elements.{
  Key, Line, line_key, is_equal, is_key, add_word, group_words, line_bounds, join_bounds,
}

-- The words that are read with a key, in order.
abbrev pub with_key : Key → List Row → List Row
with_key k [] = []
with_key k (r ∷ rows) = if is_key (line_key r) k then r ∷ with_key k rows else with_key k rows

-- The words of the line with a key.
abbrev pub words_at : Key → List Line → List Row
words_at k [] = []
words_at k ((key, ws) ∷ lines) = if is_key key k then ws else words_at k lines

with_key-cons :
    (r : Row) (rows : List Row) (k : Key)
    → with_key k (r ∷ []) ++ with_key k rows ≡ with_key k (r ∷ rows)
with_key-cons r rows k = elim (Bool-cases (is_key (line_key r) k)) [
  | inl e ↦ rw e refl
  | inr e ↦ rw e refl
]

is_equal_iff : (a b : ℤ) → is_equal a b ≡ true → a ≡ b
unfolding is_equal
is_equal_iff (pos m) (pos n) h = ap pos (ground arith)
is_equal_iff (pos m) (negsuc n) h = ground arith
is_equal_iff (negsuc m) (pos n) h = ground arith
is_equal_iff (negsuc m) (negsuc n) h = ap negsuc (ground arith)

is_equal_refl : (a : ℤ) → is_equal a a ≡ true
unfolding is_equal
is_equal_refl a = ground arith

is_key_iff : (a b : Key) → is_key a b ≡ true → a ≡ b
unfolding is_key
is_key_iff (a, b, c) (d, e, f) h =
    let same : (a ≡ d) × (b ≡ e) × (c ≡ f) =
      ground (arith, is_equal_iff a d, is_equal_iff b e, is_equal_iff c f) in
    λ i. (same.0 i, same.1 i, same.2 i)

is_key_refl : (a : Key) → is_key a a ≡ true
unfolding is_key
is_key_refl (a, b, c) = ground (arith, is_equal_refl a, is_equal_refl b, is_equal_refl c)

append_assoc : (xs ys zs : List Row) → (xs ++ ys) ++ zs ≡ xs ++ (ys ++ zs)
append_assoc [] ys zs = refl
append_assoc (x ∷ xs) ys zs = ap (λ rs. x ∷ rs) (append_assoc xs ys zs)

append_nil : (xs : List Row) → xs ++ [] ≡ xs
append_nil [] = refl
append_nil (x ∷ xs) = ap (λ rs. x ∷ rs) (append_nil xs)

-- A word goes to the end of the line with its key.
words_at-add_word :
    (r : Row) (lines : List Line) (k : Key)
    → words_at k (add_word r lines) ≡ words_at k lines ++ with_key k (r ∷ [])
unfolding add_word
words_at-add_word r [] k = elim (Bool-cases (is_key (line_key r) k)) [
  | inl e ↦ rw e refl
  | inr e ↦ rw e refl
]
words_at-add_word r ((key, ws) ∷ lines) k = elim (Bool-cases (is_key (line_key r) key)) [
  | inl e ↦
      let same = ap (λ c. is_key c k) (is_key_iff (line_key r) key e) in
      elim (Bool-cases (is_key key k)) [
        | inl f ↦ rw (e, f, same ∙ f) refl
        | inr f ↦ rw (e, f, same ∙ f) (sym (append_nil (words_at k lines)))
      ]
  | inr e ↦ elim (Bool-cases (is_key key k)) [
    | inl f ↦
        let apart = ap (λ c. is_key (line_key r) c) (sym (is_key_iff key k f)) ∙ e in
        rw (e, f, apart) (sym (append_nil ws))
    | inr f ↦ rw (e, f) (words_at-add_word r lines k)
  ]
]

words_at-group_words :
    (rows : List Row) (lines : List Line) (k : Key)
    → words_at k (group_words rows lines) ≡ words_at k lines ++ with_key k rows
unfolding group_words
words_at-group_words [] lines k = sym (append_nil (words_at k lines))
words_at-group_words (r ∷ rows) lines k =
    words_at-group_words rows (add_word r lines) k
    ∙ ap (λ ws. ws ++ with_key k rows) (words_at-add_word r lines k)
    ∙ append_assoc (words_at k lines) (with_key k (r ∷ [])) (with_key k rows)
    ∙ ap (λ ws. words_at k lines ++ ws) (with_key-cons r rows k)

-- No line of the list has the key.
abbrev pub Apart : Key → List Line → Type 0
Apart k [] = Unit
Apart k ((key, ws) ∷ lines) = (is_key k key ≡ false) × Apart k lines

-- Each line has a word, and no two lines have the same key.
abbrev pub AreLines : List Line → Type 0
AreLines [] = Unit
AreLines ((key, ws) ∷ lines) = (is_nil ws ≡ false) × (Apart key lines × AreLines lines)

Apart-add_word :
    (k : Key) (r : Row) (lines : List Line)
    → is_key k (line_key r) ≡ false
    → Apart k lines
    → Apart k (add_word r lines)
unfolding add_word
Apart-add_word k r [] h tt = (h, tt)
Apart-add_word k r ((key, ws) ∷ lines) h (other, more) =
    elim (Bool-cases (is_key (line_key r) key)) [
      | inl e ↦ rw e (other, more)
      | inr e ↦ rw e (other, Apart-add_word k r lines h more)
    ]

is_key_sym : (a b : Key) → is_key a b ≡ false → is_key b a ≡ false
is_key_sym a b h = elim (Bool-cases (is_key b a)) [
  | inl e ↦ let same = ap (λ c. is_key c b) (is_key_iff b a e) in cc (is_key_refl b)
  | inr e ↦ e
]

AreLines-add_word : (r : Row) (lines : List Line) → AreLines lines → AreLines (add_word r lines)
unfolding add_word
AreLines-add_word r [] tt = (refl, (tt, tt))
AreLines-add_word r ((key, ws) ∷ lines) (some_word, (apart, more)) =
    elim (Bool-cases (is_key (line_key r) key)) [
      | inl e ↦ rw e (longer ws, (apart, more))
      | inr e ↦ rw e (
        some_word,
        (
          Apart-add_word key r lines (is_key_sym (line_key r) key e) apart,
          AreLines-add_word r lines more,
        ),
      )
    ]
  where
    longer : (ws : List Row) → is_nil (ws ++ (r ∷ [])) ≡ false
    longer [] = refl
    longer (w ∷ ws) = refl

AreLines-group_words :
    (rows : List Row) (lines : List Line) → AreLines lines → AreLines (group_words rows lines)
unfolding group_words
AreLines-group_words [] lines h = h
AreLines-group_words (r ∷ rows) lines h =
    AreLines-group_words rows (add_word r lines) (AreLines-add_word r lines h)

-- The first rectangle lies in the second.
abbrev pub IsInside : Bounds → Bounds → Type 0
IsInside (l, t, r, b) (l', t', r', b') =
    (leb_ℤ l' l ≡ true) × ((leb_ℤ t' t ≡ true) × ((leb_ℤ r r' ≡ true) × (leb_ℤ b b' ≡ true)))

min_ℤ-left : (a b : ℤ) → leb_ℤ (min_ℤ a b) a ≡ true
min_ℤ-left a b = ground arith

min_ℤ-right : (a b c : ℤ) → leb_ℤ b c ≡ true → leb_ℤ (min_ℤ a b) c ≡ true
min_ℤ-right a b c h = ground arith

max_ℤ-left : (a b : ℤ) → leb_ℤ a (max_ℤ a b) ≡ true
max_ℤ-left a b = ground arith

max_ℤ-right : (a b c : ℤ) → leb_ℤ c b ≡ true → leb_ℤ c (max_ℤ a b) ≡ true
max_ℤ-right a b c h = ground arith

IsInside-join : (x y z : Bounds) → IsInside z y → IsInside z (join_bounds x y)
IsInside-join (l, t, r, b) (l', t', r', b') (zl, zt, zr, zb) (h, (i, (j, k))) =
    (min_ℤ-right l l' zl h, (min_ℤ-right t t' zt i, (max_ℤ-right r r' zr j, max_ℤ-right b b' zb k)))

join-IsInside : (x y : Bounds) → IsInside x (join_bounds x y)
join-IsInside (l, t, r, b) (l', t', r', b') =
    (min_ℤ-left l l', (min_ℤ-left t t', (max_ℤ-left r r', max_ℤ-left b b')))

IsInside-refl : (x : Bounds) → IsInside x x
IsInside-refl (l, t, r, b) = (leb_ℤ_refl l, (leb_ℤ_refl t, (leb_ℤ_refl r, leb_ℤ_refl b)))

All-join :
    (x y : Bounds) (ws : List Row)
    → All (λ w. IsInside (bounds_of w) y) ws
    → All (λ w. IsInside (bounds_of w) (join_bounds x y)) ws
All-join x y [] all = tt
All-join x y (w ∷ ws) (h, all) = (IsInside-join x y (bounds_of w) h, All-join x y ws all)

-- The rectangle of a line lies around its words.
line_bounds-around : (ws : List Row) → All (λ w. IsInside (bounds_of w) (line_bounds ws)) ws
unfolding line_bounds
line_bounds-around [] = tt
line_bounds-around (w ∷ []) = (IsInside-refl (bounds_of w), tt)
line_bounds-around (w ∷ v ∷ ws) = (
  join-IsInside (bounds_of w) (line_bounds (v ∷ ws)),
  All-join (bounds_of w) (line_bounds (v ∷ ws)) (v ∷ ws) (line_bounds-around (v ∷ ws)),
)

All-always : {P : Line → Type 0} → ((l : Line) → P l) → (lines : List Line) → All P lines
All-always f [] = tt
All-always f (l ∷ lines) = (f l, All-always f lines)

-- The words that recognition reads are sorted into lines without loss: for any block, paragraph and
-- line number, the line with it has just the words with it, in the order they are read; each line has
-- a word, no two lines have the same numbers, and the rectangle of a line lies around all its words.
pub group_words-Lines :
    (rows : List Row)
    → let lines = group_words rows [] in
      ((k : Key) → words_at k lines ≡ with_key k rows)
      × (AreLines lines
          × All (λ (l : Line). All (λ w. IsInside (bounds_of w) (line_bounds l.1)) l.1) lines)
group_words-Lines rows = (
  words_at-group_words rows [],
  (
    AreLines-group_words rows [] tt,
    All-always (λ (l : Line). line_bounds-around l.1) (group_words rows []),
  ),
)
