-- ===== src/Perception/Rank/Order.antt =====
-- src/desktop_worker/perception/uia_backend.py: the kept elements are the first of the ranking.
use mathlib.Core.List.{Perm}
use mathlib.Core.List.Perm
use desktop_worker.Prelude.{
  ℕ, ◌+◌, ◌≤◌, String, true, ◌≡◌, refl, List, [], ◌∷◌, All, length, ltb, if◌then◌else◌, ◌==◌,
  string_eq, nat_eq,
}
use desktop_worker.Loop.Observation.{Element}
use desktop_worker.Perception.Rank.{Ranked, key_leb, Report, control_to_type}

-- By tier, and within a tier in the order of the walk.
abbrev pub IsRanked : List Ranked → Type 0
IsRanked [] = Unit
IsRanked (a ∷ more) = All (λ b. key_leb a b ≡ true) more × IsRanked more

-- How often a type is counted, and how often it is there.
abbrev pub count_in : List (String × ℕ) → String → ℕ
count_in [] t = 0
count_in ((u, n) ∷ counts) t = if u == t then n else count_in counts t

abbrev pub times_of : List Ranked → String → ℕ
times_of [] t = 0
times_of ((i, e) ∷ rest) t = (if e.type == t then 1 else 0) + times_of rest t

-- What the report says of the elements that were kept and dropped.
pub record Tells (es : List Element) (max : ℕ) (kept dropped : List Ranked) (r : Report)
    : Type 0 where
  pub seen : r.total_seen ≡ length es
  pub counts_kept : r.returned ≡ length kept
  pub counts_dropped : r.dropped ≡ length dropped
  pub adds_up : r.returned + r.dropped ≡ length es
  pub within : r.returned ≤ max
  pub cut : r.truncated ≡ ltb max (length es)
  pub by_type : (t : String) → count_in r.dropped_by_type t ≡ times_of dropped t

button_control : control_to_type "ButtonControl" ≡ "button"
unfolding control_to_type
button_control = refl
