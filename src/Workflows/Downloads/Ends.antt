-- ===== src/Workflows/Downloads/Ends.antt =====
-- src/desktop_worker/workflows/downloads.py: the wait ends, and what it ends with.
use desktop_worker.Prelude.{
  ℕ, zero, suc, ◌+◌, ◌-◌, ◌*◌, ◌≤◌, ◌<◌, String, false, ◌≡◌, refl, Option, none, some, List, [],
  ◌∷◌, leb, arith, inl, inr, Bool-cases, List-cases,
}
use desktop_worker.Workflows.Downloads.{
  Watch, find_new_files, poll, wait_for_download, before_of, after_snapshot,
}

module _ (w : Watch) (before : List String) (timeout : ℕ) where
  abbrev pub new_at : ℕ → List String
  new_at i = find_new_files before (w.listing i)

  -- What the round that ends the wait has seen: its first new file, or none and the time is up.
  abbrev pub IsLast : ℕ → Option String → Type 0
  IsLast m (some path) =
      (n : String) × (ns : List String) × (new_at m ≡ n ∷ ns) × (path ≡ w.path_of n)
  IsLast m none = (new_at m ≡ []) × (timeout ≤ w.clock (suc m) - w.clock 0)

  -- The wait from round `k` on ends with `r`: in the first round that sees a new file or the end of
  -- the time.
  abbrev pub Ended : ℕ → Option String → Type 0
  Ended k r =
      (m : ℕ) × (k ≤ m)
      × ((i : ℕ) → k ≤ i → i < m → (new_at i ≡ []) × (w.clock (suc i) - w.clock 0 < timeout))
      × IsLast m r

  module _ (d : ℕ) (some_time : 0 < d) (ticks : (k : ℕ) → w.clock k + d ≤ w.clock (suc k)) where
    elapsed : (k : ℕ) → w.clock 0 + k * d ≤ w.clock k
    elapsed zero = omega arith
    elapsed (suc k) = omega (arith, elapsed k, ticks k)

    poll-Ended :
        (fuel k : ℕ)
        → 0 < fuel
        → timeout ≤ (k + fuel) * d
        → (r : Option String) × (poll w before timeout fuel k ≡ some r) × Ended k r
    unfolding poll
    poll-Ended zero k h enough = absurd (omega arith)
    poll-Ended (suc fuel) k h enough = elim (List-cases (new_at k)) [
      | inr (n, ns, e) ↦
          (some (w.path_of n), ground arith, (k, omega arith, none_before, (n, ns, e, refl)))
      | inl e ↦ elim (Bool-cases (leb timeout (w.clock (suc k) - w.clock 0))) [
        | inl up ↦ (none, ground arith, (k, omega arith, none_before, (e, ground arith)))
        | inr early ↦
            let (r, same, (m, le, quiet, last)) =
              poll-Ended fuel (suc k) (go_on early) enough_left in
            (
              r,
              ground (arith, same),
              (m, omega arith, λ i p q. ground (arith, quiet i, early), last),
            )
      ]
    ]
      where
        none_before :
            (i : ℕ) → k ≤ i → i < k → (new_at i ≡ []) × (w.clock (suc i) - w.clock 0 < timeout)
        none_before i p q = absurd (omega arith)

        go_on : leb timeout (w.clock (suc k) - w.clock 0) ≡ false → 0 < fuel
        go_on early = ground (arith, elapsed (suc k))

        enough_left : timeout ≤ (suc k + fuel) * d
        enough_left = omega arith

-- A wait whose clock gains at least `d` in each round ends within the rounds that the timeout has
-- room for, and its answer is what the folder showed.
pub wait_for_download-Ended :
    (w : Watch) (before : Option (List String)) (timeout fuel d : ℕ)
    → 0 < d
    → ((k : ℕ) → w.clock k + d ≤ w.clock (suc k))
    → 0 < fuel
    → timeout ≤ fuel * d
    → (r : Option String) × (wait_for_download fuel w before timeout ≡ some r)
      × Ended (after_snapshot w before) (before_of w before) timeout 0 r
unfolding wait_for_download
wait_for_download-Ended w none timeout fuel d pos ticks more enough =
    poll-Ended (after_snapshot w none) (before_of w none) timeout d pos ticks fuel 0 more
      (omega arith)
wait_for_download-Ended w (some names) timeout fuel d pos ticks more enough =
    poll-Ended w names timeout d pos ticks fuel 0 more (omega arith)
