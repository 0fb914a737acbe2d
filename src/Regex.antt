-- ===== src/Regex.antt =====
-- Regular expressions as the source uses them (Python's `re`; letters and white space are those of ASCII). The
-- matches at a position are listed in the order in which a backtracking matcher tries them, so the
-- first is the match that Python takes.
pub mod Characters
use Prim.Native.Char.{Char, code}
use desktop_worker.Prelude.{
  ℕ, zero, suc, String, Bool, true, false, not, ◌&&◌, ◌||◌, List, [], ◌∷◌, ◌++◌, ◌==◌, nat_eq,
  is_nil, leb, if◌then◌else◌,
}

pub data Regex : Type 0 where
  -- one character of a class
  one : (ℕ → Bool) → Regex
  -- at least so many characters of a class, as many as can be
  many : ℕ → (ℕ → Bool) → Regex
  -- at least so many characters of a class, and at most so many more
  between : ℕ → ℕ → (ℕ → Bool) → Regex
  -- exactly so many characters of a class
  times : ℕ → (ℕ → Bool) → Regex
  seq alt : Regex → Regex → Regex
  epsilon : Regex
  -- \b, ^ and $
  boundary start finish : Regex

-- \w on ASCII
abbrev pub is_word : ℕ → Bool
is_word c =
    (leb b'a' c && leb c b'z')
    || (leb b'A' c && leb c b'Z')
    || (leb b'0' c && leb c b'9')
    || c == b'_'

-- A match so far: the text that it took, in reverse, and the text behind it.
pub record Match : Type 0 where
  pub taken : List Char
  pub rest : List Char

abbrev pub word_at : List Char → Bool
word_at [] = false
word_at (c ∷ cs) = is_word (code c)

-- `before` is the text to the left of where the match began, in reverse.
abbrev pub left_of : List Char → Match → List Char
left_of before m = m.taken ++ before

abbrev pub is_boundary : List Char → Match → Bool
is_boundary before m = if word_at (left_of before m) then not (word_at m.rest) else word_at m.rest

-- Greedy repetition of a class, the longest first. A shorter match is tried when `least` is zero.
unfoldable pub repeat : ℕ → (ℕ → Bool) → List Char → List Char → List Match
repeat zero p taken [] = (record { taken = taken; rest = [] }) ∷ []
repeat (suc least) p taken [] = []
repeat zero p taken (c ∷ cs) =
    let longer = repeat zero p (c ∷ taken) cs in
    let here : Match = record { taken = taken; rest = c ∷ cs } in
    if p (code c) then longer ++ (here ∷ []) else here ∷ []
repeat (suc least) p taken (c ∷ cs) =
    let longer = repeat least p (c ∷ taken) cs in if p (code c) then longer else []

unfoldable pub exactly : ℕ → (ℕ → Bool) → List Char → List Char → List Match
exactly zero p taken cs = (record { taken = taken; rest = cs }) ∷ []
exactly (suc n) p taken [] = []
exactly (suc n) p taken (c ∷ cs) =
    let longer = exactly n p (c ∷ taken) cs in if p (code c) then longer else []

-- At most so many characters, the longest first.
unfoldable pub at_most : ℕ → (ℕ → Bool) → List Char → List Char → List Match
at_most zero p taken cs = (record { taken = taken; rest = cs }) ∷ []
at_most (suc n) p taken [] = (record { taken = taken; rest = [] }) ∷ []
at_most (suc n) p taken (c ∷ cs) =
    let longer = at_most n p (c ∷ taken) cs in
    let here : Match = record { taken = taken; rest = c ∷ cs } in
    if p (code c) then longer ++ (here ∷ []) else here ∷ []

-- `$` stands at the end, and before an end of line that ends the text.
abbrev pub at_finish : List Char → Bool
at_finish [] = true
at_finish (c ∷ []) = code c == 10
at_finish (c ∷ d ∷ cs) = false

-- The matches of the next part, from each match of the part before it, in order.
abbrev pub each {ℓ} : {A : Type ℓ} → (A → List A) → List A → List A
each f [] = []
each f (m ∷ ms) = f m ++ each f ms

unfoldable pub matches : Regex → List Char → Match → List Match
unfolding repeat exactly at_most
matches (one p) before m = exactly 1 p m.taken m.rest
matches (many least p) before m = repeat least p m.taken m.rest
matches (between least more p) before m =
    each (λ n. at_most more p n.taken n.rest) (exactly least p m.taken m.rest)
matches (times n p) before m = exactly n p m.taken m.rest
matches (seq r s) before m = each (matches s before) (matches r before m)
matches (alt r s) before m = matches r before m ++ matches s before m
matches epsilon before m = m ∷ []
matches boundary before m = if is_boundary before m then m ∷ [] else []
matches start before m = if is_nil (left_of before m) then m ∷ [] else []
matches finish before m = if at_finish m.rest then m ∷ [] else []

-- `pattern.match(text)` is not None.
abbrev pub matches_at_start : Regex → List Char → Bool
matches_at_start r text = not (is_nil (matches r [] (record { taken = []; rest = text })))

-- `pattern.search(text)` is not None, from a position with `before` to its left.
unfoldable pub search_from : Regex → List Char → List Char → Bool
unfolding matches
search_from r before [] = not (is_nil (matches r before (record { taken = []; rest = [] })))
search_from r before (c ∷ cs) =
    not (is_nil (matches r before (record { taken = []; rest = c ∷ cs })))
    || search_from r (c ∷ before) cs

abbrev pub searches : Regex → List Char → Bool
searches r text = search_from r [] text

-- The characters of a text, and back.
abbrev pub chars : String → List Char
chars String.[] = []
chars (String.◌∷◌ c s) = c ∷ chars s

abbrev pub of_chars : List Char → String
of_chars [] = ""
of_chars (c ∷ cs) = String.◌∷◌ c (of_chars cs)

-- The characters of a text, one after the other.
abbrev pub literal : (ℕ → ℕ → Bool) → List Char → Regex
literal same [] = epsilon
literal same (c ∷ cs) = seq (one (λ d. same (code c) d)) (literal same cs)

abbrev pub any_of : (String → Regex) → List String → Regex
any_of text [] = epsilon
any_of text (s ∷ []) = text s
any_of text (s ∷ rest) = alt (text s) (any_of text rest)
