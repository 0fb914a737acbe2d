-- ===== src/Workflows/Downloads.antt =====
-- src/desktop_worker/workflows/downloads.py: waiting for a download. The folder and the clock are
-- functions of the number of times that they were read: a listing is `none` where reading the folder
-- raises an OSError. Times are whole milliseconds.
pub mod Listing
pub mod Ends
use Prim.Native.String.{compare}
use Prim.Native.Nat.{Ordering}
use desktop_worker.Prelude.{
  ℕ, zero, suc, ◌+◌, ◌-◌, String, ◌<>◌, Bool, true, false, not, ◌&&◌, ◌||◌, Option, none, some,
  List, [], ◌∷◌, contains, leb, if◌then◌else◌,
}
use desktop_worker.Prelude.Text.{lower, ends_with}

-- `low.endswith(_PARTIAL_SUFFIXES)`
abbrev ends_with_any : List String → String → Bool
ends_with_any [] s = false
ends_with_any (e ∷ es) s = ends_with e s || ends_with_any es s

abbrev partial_suffixes : List String
partial_suffixes = ".crdownload" ∷ ".part" ∷ ".partial" ∷ ".tmp" ∷ ".download" ∷ []

unfoldable pub is_partial : String → Bool
unfolding lower ends_with
is_partial name = let low = lower name in ends_with_any partial_suffixes low || ends_with "~" low

-- `<=` on texts: by their code points.
abbrev pub text_leb : String → String → Bool
text_leb s t = elim (compare s t) [ Ordering.gt ↦ false | _ ↦ true ]

-- `sorted`
unfoldable pub insert_text : String → List String → List String
insert_text s [] = s ∷ []
insert_text s (t ∷ ts) =
    let rest = insert_text s ts in if text_leb s t then s ∷ t ∷ ts else t ∷ rest

unfoldable pub sort_texts : List String → List String
unfolding insert_text
sort_texts [] = []
sort_texts (s ∷ ss) = insert_text s (sort_texts ss)

-- `n not in before_set and not is_partial(n)`
abbrev pub is_new : List String → String → Bool
is_new before n = not (contains before n) && not (is_partial n)

unfoldable pub new_of : List String → List String → List String
new_of before [] = []
new_of before (n ∷ ns) = let rest = new_of before ns in if is_new before n then n ∷ rest else rest

-- `find_new_files`
unfoldable pub find_new_files : List String → Option (List String) → List String
unfolding new_of sort_texts
find_new_files before none = []
find_new_files before (some current) = sort_texts (new_of before current)

-- `snapshot`
abbrev pub snapshot : Option (List String) → List String
snapshot none = []
snapshot (some names) = names

-- The folder and the clock, as the wait reads them.
pub record Watch : Type 0 where
  pub listing : ℕ → Option (List String)
  pub clock : ℕ → ℕ
  -- `os.path.join(directory, name)`
  pub path_of : String → String

-- The loop from its round `k` on, for at most `fuel` rounds; `none` where these are not enough. Reading
-- 0 of the clock is the start.
unfoldable pub poll : Watch → List String → ℕ → ℕ → ℕ → Option (Option String)
poll w before timeout zero k = none
poll w before timeout (suc fuel) k =
    let rest = poll w before timeout fuel (suc k) in
    elim (find_new_files before (w.listing k)) [
      | n ∷ ns ↦ some (some (w.path_of n))
      | [] ↦ if leb timeout (w.clock (suc k) - w.clock 0) then some none else rest
    ]

-- `before`, or a snapshot taken now. The rounds read the folder after it.
abbrev pub before_of : Watch → Option (List String) → List String
before_of w none = snapshot (w.listing 0)
before_of w (some before) = before

abbrev pub after_snapshot : Watch → Option (List String) → Watch
after_snapshot w none = record w { listing = λ k. w.listing (suc k) }
after_snapshot w (some before) = w

-- `wait_for_download`
unfoldable pub wait_for_download : ℕ → Watch → Option (List String) → ℕ → Option (Option String)
unfolding poll
wait_for_download fuel w before timeout =
    poll (after_snapshot w before) (before_of w before) timeout fuel 0
