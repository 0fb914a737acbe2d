-- ===== src/Perception/Rank.antt =====
-- src/desktop_worker/perception/uia_backend.py: the types of controls, and which of them are kept when
-- there are too many.
pub mod Order
use text.Mathlib.Text.{starts_with}
use Prim.Native.String.{String, count}
use desktop_worker.Prelude.{
  ℕ, zero, suc, ◌+◌, ◌-◌, ◌<>◌, Bool, true, false, ◌&&◌, ◌||◌, Option, none, some, List, [], ◌∷◌,
  map, length, take, drop, is_nil, not, ltb, leb, contains, ◌==◌, string_eq, nat_eq, if◌then◌else◌,
}
use desktop_worker.Loop.Observation.{Element}

-- `s.replace("Control", "")`: what is left of the word is passed over, `skip` characters of it.
without_word : String → ℕ → String → String
without_word word skip String.[] = ""
without_word word (suc skip) (String.◌∷◌ c s) = without_word word skip s
without_word word zero (String.◌∷◌ c s) =
    let passed = without_word word (count word - 1) s in
    let kept = String.◌∷◌ c (without_word word zero s) in
    if starts_with (String.◌∷◌ c s) word then passed else kept

abbrev control_type_map : List (String × String)
control_type_map =
    ("Button", "button")
    ∷ ("Edit", "input")
    ∷ ("Document", "input")
    ∷ ("CheckBox", "checkbox")
    ∷ ("RadioButton", "radio")
    ∷ ("ComboBox", "dropdown")
    ∷ ("List", "list")
    ∷ ("ListItem", "list")
    ∷ ("Tab", "tab")
    ∷ ("TabItem", "tab")
    ∷ ("Menu", "menu")
    ∷ ("MenuItem", "menu")
    ∷ ("Hyperlink", "link")
    ∷ ("Text", "text")
    ∷ ("Image", "icon")
    ∷ ("Table", "table")
    ∷ ("DataGrid", "table")
    ∷ ("Window", "window")
    ∷ ("Pane", "pane")
    ∷ []

type_named : List (String × String) → String → String
type_named [] name = "unknown"
type_named ((key, type) ∷ rest) name = if key == name then type else type_named rest name

unfoldable pub control_to_type : String → String
unfolding without_word type_named
control_to_type name = type_named control_type_map (without_word "Control" 0 name)

abbrev interactable : List String
interactable = "button" ∷ "input" ∷ "checkbox" ∷ "radio" ∷ "dropdown" ∷ "menu" ∷ "tab" ∷ "link" ∷ []

abbrev secondary : List String
secondary = "list" ∷ "table" ∷ "icon" ∷ []

-- The first part of `rank_key`; the second is always 0.
unfoldable pub tier : Element → ℕ
tier e =
    if contains interactable e.type
    then 0
    else if contains secondary e.type
    then 1
    else if e.type == "text"
    then 3
    else 2

-- An element with its place in the walk.
abbrev pub Ranked : Type 0
Ranked = ℕ × Element

-- `enumerate`, from `i` on
unfoldable pub enumerate : ℕ → List Element → List Ranked
enumerate i [] = []
enumerate i (e ∷ es) = (i, e) ∷ enumerate (suc i) es

-- `<=` on the keys `(rank_key(e), i)`
unfoldable pub key_leb : Ranked → Ranked → Bool
key_leb (i, a) (j, b) = ltb (tier a) (tier b) || (tier a == tier b && leb i j)

-- `sorted(…, key=…)`
unfoldable pub insert_ranked : Ranked → List Ranked → List Ranked
insert_ranked a [] = a ∷ []
insert_ranked a (b ∷ bs) =
    let rest = insert_ranked a bs in if key_leb a b then a ∷ b ∷ bs else b ∷ rest

unfoldable pub sort_ranked : List Ranked → List Ranked
unfolding insert_ranked
sort_ranked [] = []
sort_ranked (a ∷ more) = insert_ranked a (sort_ranked more)

-- `d[t] = d.get(t, 0) + 1`
unfoldable pub count_type : String → List (String × ℕ) → List (String × ℕ)
count_type t [] = (t, 1) ∷ []
count_type t ((u, n) ∷ counts) =
    let rest = count_type t counts in if u == t then (u, n + 1) ∷ counts else (u, n) ∷ rest

unfoldable pub count_types : List (String × ℕ) → List Ranked → List (String × ℕ)
unfolding count_type
count_types counts [] = counts
count_types counts ((i, e) ∷ rest) = count_types (count_type e.type counts) rest

pub record Report : Type 0 where
  pub truncated : Bool
  pub total_seen : ℕ
  pub returned : ℕ
  pub dropped : ℕ
  pub dropped_by_type : List (String × ℕ)

unfoldable pub report_of : ℕ → List Ranked → List Ranked → Report
unfolding count_types
report_of total kept dropped = record {
  truncated = not (is_nil dropped);
  total_seen = total;
  returned = length kept;
  dropped = length dropped;
  dropped_by_type = count_types [] dropped;
}

abbrev pub elements_of : List Ranked → List Element
elements_of ranked = map (λ p. p.1) ranked

unfoldable pub rank_and_cap : List Element → ℕ → List Element × Report
unfolding enumerate sort_ranked report_of
rank_and_cap elements max =
    let ordered = sort_ranked (enumerate 0 elements) in
    (
      elements_of (take max ordered),
      report_of (length elements) (take max ordered) (drop max ordered),
    )
