-- ===== src/Audit/Retention.antt =====
-- src/desktop_worker/audit/retention.py: which artifacts are pruned. Times are whole seconds, the
-- age is in whole days, and the set of the doomed paths is a list.
pub mod Bounds
use desktop_worker.Prelude.{
  ℕ, ◌+◌, ◌*◌, String, Bool, true, false, not, Option, none, some, List, [], ◌∷◌, ◌++◌, map, length,
  drop, ltb, leb, contains, if◌then◌else◌,
}

-- A path and the time at which it was changed last.
abbrev pub Entry : Type 0
Entry = String × ℕ

unfoldable pub filter_entries : (Entry → Bool) → List Entry → List Entry
filter_entries p [] = []
filter_entries p (e ∷ es) = let rest = filter_entries p es in if p e then e ∷ rest else rest

abbrev pub paths : List Entry → List String
paths = map (λ (e : Entry). e.0)

-- A stable sort; `before a b` says that `a` has to stand before `b`.
unfoldable pub insert : (Entry → Entry → Bool) → Entry → List Entry → List Entry
insert before e [] = e ∷ []
insert before e (f ∷ es) =
    let rest = insert before e es in if before f e then f ∷ rest else e ∷ f ∷ es

unfoldable pub sort : (Entry → Entry → Bool) → List Entry → List Entry
unfolding insert
sort before [] = []
sort before (e ∷ es) = insert before e (sort before es)

-- `sorted(…, key=lambda pm: pm[1])`, and the same with `reverse=True`
abbrev pub older : Entry → Entry → Bool
older a b = ltb a.1 b.1

abbrev pub newer : Entry → Entry → Bool
newer a b = ltb b.1 a.1

-- The entries that are past their age.
unfoldable pub expired : Option ℕ → ℕ → List Entry → List String
unfolding filter_entries
expired none now entries = []
expired (some days) now entries = paths (filter_entries (λ e. ltb (e.1 + days * 86400) now) entries)

-- The oldest of the survivors, beyond the number that is kept.
unfoldable pub surplus : Option ℕ → List String → List Entry → List String
unfolding filter_entries sort
surplus none doomed entries = []
surplus (some count) doomed entries =
    let survivors = filter_entries (λ e. not (contains doomed e.0)) entries in
    if ltb count (length survivors) then paths (drop count (sort newer survivors)) else []

unfoldable pub doomed_paths : Option ℕ → Option ℕ → ℕ → List Entry → List String
unfolding expired surplus
doomed_paths age count now entries =
    let old = expired age now entries in old ++ surplus count old entries

unfoldable pub select_for_pruning : Option ℕ → Option ℕ → ℕ → List Entry → List String
unfolding doomed_paths filter_entries sort
select_for_pruning age count now entries =
    let doomed = doomed_paths age count now entries in
    paths (filter_entries (λ e. contains doomed e.0) (sort older entries))

-- `prune_artifacts`: nothing is scanned or removed without a limit. `removed` is what is handed to
-- `remove`, in this order.
unfoldable pub prune_artifacts : Option ℕ → Option ℕ → ℕ → List Entry → List String
unfolding select_for_pruning
prune_artifacts none none now entries = []
prune_artifacts age count now entries = select_for_pruning age count now entries
