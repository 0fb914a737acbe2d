-- ===== src/Audit/Retention/Bounds.antt =====
-- src/desktop_worker/audit/retention.py: how many artifacts survive.
use desktop_worker.Prelude.{
  ℕ, zero, suc, ◌+◌, ◌≤◌, String, ◌≡◌, refl, ap, Bool, true, not, ◌||◌, eq_iff, Option, none, some,
  List, [], ◌∷◌, ◌++◌, length, drop, ltb, contains, arith, Bool-cases, inl, inr,
}
use desktop_worker.Audit.Retention.{
  Entry, filter_entries, paths, insert, sort, older, newer, expired, surplus, doomed_paths,
  select_for_pruning, prune_artifacts,
}

length-filter_insert :
    (p : Entry → Bool) (before : Entry → Entry → Bool) (e : Entry) (es : List Entry)
    → length (filter_entries p (insert before e es)) ≡ length (filter_entries p (e ∷ es))
unfolding filter_entries insert
length-filter_insert p before e [] = refl
length-filter_insert p before e (f ∷ es) = ground (arith, length-filter_insert p before e es)

length-filter_sort :
    (p : Entry → Bool) (before : Entry → Entry → Bool) (es : List Entry)
    → length (filter_entries p (sort before es)) ≡ length (filter_entries p es)
unfolding filter_entries sort
length-filter_sort p before [] = refl
length-filter_sort p before (e ∷ es) =
    ground (arith, length-filter_insert p before e (sort before es), length-filter_sort p before es)

length-filter_not :
    (p : Entry → Bool) (es : List Entry)
    → length (filter_entries p es) + length (filter_entries (λ e. not (p e)) es) ≡ length es
unfolding filter_entries
length-filter_not p [] = omega arith
length-filter_not p (e ∷ es) = ground (arith, length-filter_not p es)

length-filter_drop :
    (p : Entry → Bool) (n : ℕ) (es : List Entry)
    → length (filter_entries p es) ≤ n + length (filter_entries p (drop n es))
unfolding filter_entries
length-filter_drop p zero es = omega arith
length-filter_drop p (suc n) [] = omega arith
length-filter_drop p (suc n) (e ∷ es) = ground (arith, length-filter_drop p n es)

contains-append :
    (ds es : List String) (s : String) → contains (ds ++ es) s ≡ (contains ds s || contains es s)
contains-append [] es s = refl
contains-append (d ∷ ds) es s = ground (arith, contains-append ds es s)

abbrev outside : List String → Entry → Bool
outside doomed e = not (contains doomed e.0)

filter_outside-append :
    (ds es : List String) (entries : List Entry)
    → length (filter_entries (outside (ds ++ es)) entries)
      ≡ length (filter_entries (outside es) (filter_entries (outside ds) entries))
unfolding filter_entries
filter_outside-append ds es [] = refl
filter_outside-append ds es (e ∷ entries) =
    ground (arith, filter_outside-append ds es entries, contains-append ds es e.0)

filter_outside_all :
    (doomed : List String) (es : List Entry)
    → ((s : String) → contains (paths es) s ≡ true → contains doomed s ≡ true)
    → length (filter_entries (outside doomed) es) ≡ 0
unfolding filter_entries
filter_outside_all doomed [] h = refl
filter_outside_all doomed (e ∷ es) h =
    ground (arith, h e.0 head_in, filter_outside_all doomed es λ s k. h s (ground (arith, k)))
  where
    head_in : contains (paths (e ∷ es)) e.0 ≡ true
    head_in = ground (arith, eq_iff e.0 e.0)

surplus-bound :
    (count : ℕ) (old : List String) (entries : List Entry)
    → let survivors = filter_entries (outside old) entries in
      length (filter_entries (outside (surplus (some count) old entries)) survivors) ≤ count
unfolding surplus
surplus-bound count old entries = elim (Bool-cases (ltb count (length survivors))) [
  | inl more ↦ rw (more, surplus) many
  | inr few ↦ rw (few, surplus) ground (arith, few, length-filter_not (outside []) survivors)
]
  where
    survivors : List Entry
    survivors = filter_entries (outside old) entries

    sorted : List Entry
    sorted = sort newer survivors

    beyond : List String
    beyond = paths (drop count sorted)

    many : length (filter_entries (outside beyond) survivors) ≤ count
    many = omega (
      arith,
      length-filter_sort (outside beyond) newer survivors,
      length-filter_drop (outside beyond) count sorted,
      filter_outside_all beyond (drop count sorted) λ s k. k,
    )

length-paths : (es : List Entry) → length (paths es) ≡ length es
length-paths [] = refl
length-paths (e ∷ es) = ap suc (length-paths es)

select_for_pruning-bound :
    (age : Option ℕ) (count now : ℕ) (entries : List Entry)
    → length entries ≤ length (select_for_pruning age (some count) now entries) + count
unfolding select_for_pruning doomed_paths
select_for_pruning-bound age count now entries = omega (
  arith,
  length-paths (filter_entries inside (sort older entries)),
  length-filter_sort inside older entries,
  length-filter_not inside entries,
  filter_outside-append old (surplus (some count) old entries) entries,
  surplus-bound count old entries,
)
  where
    old : List String
    old = expired age now entries

    inside : Entry → Bool
    inside e = contains (old ++ surplus (some count) old entries) e.0

-- With a limit on their number, at most that many artifacts are left.
pub prune_artifacts-bound :
    (age : Option ℕ) (count now : ℕ) (entries : List Entry)
    → length entries ≤ length (prune_artifacts age (some count) now entries) + count
unfolding prune_artifacts
prune_artifacts-bound none count now entries = select_for_pruning-bound none count now entries
prune_artifacts-bound (some days) count now entries =
    select_for_pruning-bound (some days) count now entries
