-- ===== src/Regex/Characters.antt =====
-- The characters of what a regular expression matches.
use Prim.Native.Char.{Char, code}
use desktop_worker.Prelude.{
  ℕ, zero, suc, Bool, true, false, ◌≡◌, refl, List, [], ◌∷◌, ◌++◌, All, Bool-cases, inl, inr,
  nat_eq, is_nil, if◌then◌else◌, arith, subst,
}
use desktop_worker.Regex.{
  Regex, one, many, between, times, seq, alt, epsilon, boundary, start, finish, Match, repeat,
  exactly, at_most, matches, each, at_finish, matches_at_start,
}

-- `p` holds of the characters of a text.
abbrev pub AllChars : (ℕ → Bool) → List Char → Type 0
AllChars q cs = All (λ c. q (code c) ≡ true) cs

-- Every class of the expression is within `q`.
abbrev pub Only : (ℕ → Bool) → Regex → Type 0
Only q (one p) = (c : ℕ) → p c ≡ true → q c ≡ true
Only q (many least p) = (c : ℕ) → p c ≡ true → q c ≡ true
Only q (between least more p) = (c : ℕ) → p c ≡ true → q c ≡ true
Only q (times n p) = (c : ℕ) → p c ≡ true → q c ≡ true
Only q (seq r s) = Only q r × Only q s
Only q (alt r s) = Only q r × Only q s
Only q _ = Unit

-- The text that a match is in.
abbrev onto : List Char → List Char → List Char
onto [] rest = rest
onto (c ∷ taken) rest = onto taken (c ∷ rest)

module _ (q : ℕ → Bool) (text : List Char) where
  record Fits (m : Match) : Type 0 where
    pub took : AllChars q m.taken
    pub within : onto m.taken m.rest ≡ text

  fits :
      {taken rest : List Char}
      → AllChars q taken
      → onto taken rest ≡ text
      → Fits (record { taken = taken; rest = rest })
  fits took within = record { took = took; within = within }

  All-append : (ms ns : List Match) → All Fits ms → All Fits ns → All Fits (ms ++ ns)
  All-append [] ns a b = b
  All-append (m ∷ ms) ns (h, a) b = (h, All-append ms ns a b)

  All-each :
      (f : Match → List Match) (ms : List Match)
      → ((m : Match) → Fits m → All Fits (f m))
      → All Fits ms
      → All Fits (each f ms)
  All-each f [] h a = tt
  All-each f (m ∷ ms) h (b, a) = All-append (f m) (each f ms) (h m b) (All-each f ms h a)

  module _ (p : ℕ → Bool) (sound : (c : ℕ) → p c ≡ true → q c ≡ true) where
    repeat-Fits :
        (least : ℕ) (taken cs : List Char)
        → AllChars q taken
        → onto taken cs ≡ text
        → All Fits (repeat least p taken cs)
    unfolding repeat
    repeat-Fits zero taken [] t w = (fits t w, tt)
    repeat-Fits (suc least) taken [] t w = tt
    repeat-Fits zero taken (c ∷ cs) t w = elim (Bool-cases (p (code c))) [
      | inl e ↦
          rw e (
            All-append _ _ (repeat-Fits zero (c ∷ taken) cs (sound (code c) e, t) w) (fits t w, tt))
      | inr e ↦ rw e (fits t w, tt)
    ]
    repeat-Fits (suc least) taken (c ∷ cs) t w = elim (Bool-cases (p (code c))) [
      | inl e ↦ rw e (repeat-Fits least (c ∷ taken) cs (sound (code c) e, t) w)
      | inr e ↦ rw e tt
    ]

    exactly-Fits :
        (n : ℕ) (taken cs : List Char)
        → AllChars q taken
        → onto taken cs ≡ text
        → All Fits (exactly n p taken cs)
    unfolding exactly
    exactly-Fits zero taken cs t w = (fits t w, tt)
    exactly-Fits (suc n) taken [] t w = tt
    exactly-Fits (suc n) taken (c ∷ cs) t w = elim (Bool-cases (p (code c))) [
      | inl e ↦ rw e (exactly-Fits n (c ∷ taken) cs (sound (code c) e, t) w)
      | inr e ↦ rw e tt
    ]

    at_most-Fits :
        (n : ℕ) (taken cs : List Char)
        → AllChars q taken
        → onto taken cs ≡ text
        → All Fits (at_most n p taken cs)
    unfolding at_most
    at_most-Fits zero taken cs t w = (fits t w, tt)
    at_most-Fits (suc n) taken [] t w = (fits t w, tt)
    at_most-Fits (suc n) taken (c ∷ cs) t w = elim (Bool-cases (p (code c))) [
      | inl e ↦
          rw e
            (All-append _ _ (at_most-Fits n (c ∷ taken) cs (sound (code c) e, t) w) (fits t w, tt))
      | inr e ↦ rw e (fits t w, tt)
    ]

  kept : (b : Bool) (m : Match) → Fits m → All Fits (if b then m ∷ [] else [])
  kept true m f = (f, tt)
  kept false m f = tt

  matches-Fits :
      (r : Regex) (before : List Char) (m : Match)
      → Only q r
      → Fits m
      → All Fits (matches r before m)
  unfolding matches
  matches-Fits (one p) before m o f = exactly-Fits p o 1 m.taken m.rest f.took f.within
  matches-Fits (many least p) before m o f = repeat-Fits p o least m.taken m.rest f.took f.within
  matches-Fits (between least more p) before m o f =
      All-each (λ n. at_most more p n.taken n.rest) (exactly least p m.taken m.rest)
        (λ n g. at_most-Fits p o more n.taken n.rest g.took g.within)
        (exactly-Fits p o least m.taken m.rest f.took f.within)
  matches-Fits (times n p) before m o f = exactly-Fits p o n m.taken m.rest f.took f.within
  matches-Fits (seq r s) before m (o, o') f =
      All-each (matches s before) (matches r before m) (λ n. matches-Fits s before n o')
        (matches-Fits r before m o f)
  matches-Fits (alt r s) before m (o, o') f =
      All-append (matches r before m) (matches s before m) (matches-Fits r before m o f)
        (matches-Fits s before m o' f)
  matches-Fits epsilon before m o f = (f, tt)
  matches-Fits boundary before m o f = kept _ m f
  matches-Fits start before m o f = kept _ m f
  matches-Fits finish before m o f = kept _ m f

  AllChars-onto :
      (taken rest : List Char) → AllChars q taken → AllChars q rest → AllChars q (onto taken rest)
  AllChars-onto [] rest t r = r
  AllChars-onto (c ∷ taken) rest (h, t) r = AllChars-onto taken (c ∷ rest) t (h, r)

  ended : (line : q 10 ≡ true) (rest : List Char) → at_finish rest ≡ true → AllChars q rest
  ended line [] e = tt
  ended line (c ∷ []) e = (ground (arith, line), tt)
  ended line (c ∷ d ∷ rest) e = cc

  finished :
      (line : q 10 ≡ true) (before : List Char) (ms : List Match)
      → All Fits ms
      → is_nil (each (matches finish before) ms) ≡ false
      → AllChars q text
  unfolding matches
  finished line before [] a h = cc
  finished line before (m ∷ ms) (f, a) h = elim (Bool-cases (at_finish m.rest)) [
    | inl e ↦
        subst (AllChars q) f.within (AllChars-onto m.taken m.rest f.took (ended line m.rest e))
    | inr e ↦ finished line before ms a (ground arith)
  ]

-- A text that matches from its start to `$` has only characters of `q`, of which the end of line is
-- one, if every class of the expression is within `q`.
pub matches_at_start-AllChars :
    (q : ℕ → Bool) (r : Regex) (text : List Char)
    → Only q r
    → q 10 ≡ true
    → matches_at_start (seq r finish) text ≡ true
    → AllChars q text
unfolding matches
matches_at_start-AllChars q r text o line h =
    finished q text line [] (matches r [] (record { taken = []; rest = text }))
      (matches-Fits q text r [] (record { taken = []; rest = text }) o
        (fits q text {taken = []} {rest = text} tt refl))
      (ground arith)
