-- ===== src/Orchestration/Coordinator/Laws.antt =====
-- src/desktop_worker/orchestration/coordinator.py: what the outcomes of a run say.
use desktop_worker.Prelude.{
  ℕ, ◌==◌, ◌+◌, String, ◌≡◌, ◌⊎◌, ◌↔◌, inl, inr, refl, Bool, true, false, List, [], ◌∷◌, length,
  length-append, arith, contains, string_eq, eq_iff, is_nil, if◌then◌else◌,
}
use desktop_worker.Value.{str, end, field}
use desktop_worker.Orchestration.Schema.{AgentTask, AgentReport, AuditorFinding}
use desktop_worker.Orchestration.Coordinator.{
  TaskOutcome, accepted, blocked, count_outcome, classify, is_blocked, is_approved, Roles, Desk,
  coordinate, coordinate_all, run, log,
}

abbrev choose : Bool → Bool → String
choose b a = if b then "blocked" else if a then "accepted" else "revise"

choose_accepted : (b a : Bool) → choose b a ≡ "accepted" → (b ≡ false) × (a ≡ true)
choose_accepted true a h = absurd (cc ((eq_iff "blocked" "accepted").1 h))
choose_accepted false true h = (refl, refl)
choose_accepted false false h = absurd (cc ((eq_iff "revise" "accepted").1 h))

choose_blocked : (b a : Bool) → (choose b a ≡ "blocked") ↔ (b ≡ true)
choose_blocked true a = (λ h. refl, λ h. refl)
choose_blocked false true =
    (λ h. absurd (cc ((eq_iff "accepted" "blocked").1 h)), λ h. absurd (cc (h)))
choose_blocked false false =
    (λ h. absurd (cc ((eq_iff "revise" "blocked").1 h)), λ h. absurd (cc (h)))

failed_iff :
    (s : String)
    → (contains ("failed" ∷ "blocked" ∷ "skipped" ∷ []) s ≡ true)
      ↔ ((s ≡ "failed") ⊎ ((s ≡ "blocked") ⊎ (s ≡ "skipped")))
failed_iff s = ground (arith, eq_iff s "failed", eq_iff s "blocked", eq_iff s "skipped")

vetoed_iff :
    (c n : String) → (contains (c ∷ n ∷ []) "block" ≡ true) ↔ ((c ≡ "block") ⊎ (n ≡ "block"))
vetoed_iff c n = ground (arith, eq_iff "block" c, eq_iff "block" n)

module _ (r : AgentReport) (c n : AuditorFinding) where
  is_approved_iff :
      (is_approved r c n ≡ true)
      ↔ ((r.status ≡ "done") × (c.verdict ≡ "approve") × (n.verdict ≡ "approve"))
  is_approved_iff =
      ground (arith, eq_iff r.status "done", eq_iff c.verdict "approve", eq_iff n.verdict "approve")

  is_blocked_iff : (is_blocked r c n ≡ true) ↔ (
      ((c.verdict ≡ "block") ⊎ (n.verdict ≡ "block"))
      ⊎ ((r.status ≡ "failed") ⊎ ((r.status ≡ "blocked") ⊎ (r.status ≡ "skipped"))))
  is_blocked_iff = ground (arith, failed_iff r.status, vetoed_iff c.verdict n.verdict)

  classify_accepted :
      (classify r c n ≡ "accepted")
      ↔ ((r.status ≡ "done") × (c.verdict ≡ "approve") × (n.verdict ≡ "approve"))
  unfolding classify
  classify_accepted = (
    λ h. is_approved_iff.0 (choose_accepted (is_blocked r c n) (is_approved r c n) h).1,
    λ (done, codex, northstar). rw (done, codex, northstar, classify) refl,
  )

  classify_blocked : (classify r c n ≡ "blocked") ↔ (
      ((c.verdict ≡ "block") ⊎ (n.verdict ≡ "block"))
      ⊎ ((r.status ≡ "failed") ⊎ ((r.status ≡ "blocked") ⊎ (r.status ≡ "skipped"))))
  unfolding classify
  classify_blocked =
      let (there, back) = choose_blocked (is_blocked r c n) (is_approved r c n) in
      (λ h. is_blocked_iff.0 (there h), λ h. back (is_blocked_iff.1 h))

  -- A task is accepted exactly when it was done and both auditors approve; it is blocked exactly when
  -- an auditor blocks it or it was not completed.
  pub classify_iff :
      ((classify r c n ≡ "accepted")
        ↔ ((r.status ≡ "done") × (c.verdict ≡ "approve") × (n.verdict ≡ "approve")))
      × ((classify r c n ≡ "blocked") ↔ (
          ((c.verdict ≡ "block") ⊎ (n.verdict ≡ "block"))
          ⊎ ((r.status ≡ "failed") ⊎ ((r.status ≡ "blocked") ⊎ (r.status ≡ "skipped")))))
  classify_iff = (classify_accepted, classify_blocked)

nil-cases : {A : Type 0} (xs : List A) → (xs ≡ []) ⊎ (is_nil xs ≡ false)
nil-cases [] = inl refl
nil-cases (x ∷ xs) = inr refl

choose_one :
    (b a : Bool) → (choose b a ≡ "accepted") ⊎ ((choose b a ≡ "blocked") ⊎ (choose b a ≡ "revise"))
choose_one true a = inr (inl refl)
choose_one false true = inl refl
choose_one false false = inr (inr refl)

-- An outcome is accepted exactly when the task was done and both auditors approve, blocked exactly
-- when an auditor blocks it or it was not completed, and is else to be revised.
abbrev pub Judged : TaskOutcome → Type 0
Judged o =
    ((o.outcome ≡ "accepted") ↔ (
      (o.report.status ≡ "done")
      × (o.codex.verdict ≡ "approve")
      × (o.northstar.verdict ≡ "approve")))
    × ((o.outcome ≡ "blocked") ↔ (
        ((o.codex.verdict ≡ "block") ⊎ (o.northstar.verdict ≡ "block"))
        ⊎ ((o.report.status ≡ "failed")
            ⊎ ((o.report.status ≡ "blocked") ⊎ (o.report.status ≡ "skipped")))))
    × ((o.outcome ≡ "accepted") ⊎ ((o.outcome ≡ "blocked") ⊎ (o.outcome ≡ "revise")))

classify_one :
    (r : AgentReport) (c n : AuditorFinding)
    → (classify r c n ≡ "accepted") ⊎ ((classify r c n ≡ "blocked") ⊎ (classify r c n ≡ "revise"))
unfolding classify
classify_one r c n = choose_one (is_blocked r c n) (is_approved r c n)

-- How many outcomes have a name.
abbrev pub times : String → List TaskOutcome → ℕ
times name [] = 0
times name (o ∷ os) = (if o.outcome == name then 1 else 0) + times name os

count_outcome-times :
    (name : String) (os : List TaskOutcome) → count_outcome name os ≡ times name os
unfolding count_outcome
count_outcome-times name [] = refl
count_outcome-times name (o ∷ os) = ground (arith, count_outcome-times name os)

module _ {S : Type 0} (roles : Roles S) where
  -- The outcomes of the tasks, one for each in order, when the roles work from the state `s` to the
  -- state `last`: a task is implemented, then both auditors review the report, one after the other.
  abbrev pub Worked : S → S → List AgentTask → List TaskOutcome → Type 0
  Worked s last [] [] = last ≡ s
  Worked s last (t ∷ tasks) (o ∷ outcomes) =
      let (report, s₁) = roles.implement s t in
      let (codex, s₂) = roles.codex_review s₁ t report in
      let (northstar, s₃) = roles.northstar_review s₂ t report in
      (o.task ≡ t)
      × (o.report ≡ report)
      × (o.codex ≡ codex)
      × (o.northstar ≡ northstar)
      × Judged o
      × Worked s₃ last tasks outcomes
  Worked s last _ _ = ⊥

  -- What `coordinate_all` leaves of its tasks.
  record Covers (tasks : List AgentTask) (before : Desk S) (out : List TaskOutcome × Desk S)
      : Type 0 where
    pub worked : Worked before.state out.1.state tasks out.0
    pub logged : length out.1.entries ≡ length before.entries + length tasks

  coordinate_all-Covers :
      (tasks : List AgentTask) (d : Desk S) → Covers tasks d (coordinate_all roles tasks d)
  unfolding coordinate_all coordinate
  coordinate_all-Covers [] d = record { worked = refl; logged = omega arith }
  coordinate_all-Covers (t ∷ tasks) d =
      let rest = coordinate_all-Covers tasks (coordinate roles t d).1 in
      let (accepts, blocks) = classify_iff _ _ _ in
      record {
        worked = (refl, refl, refl, refl, (accepts, blocks, classify_one _ _ _), rest.worked);
        logged = omega (arith, rest.logged, length-append d.entries (_ ∷ []));
      }

  -- A run works through every planned task once, in order: it is implemented, and both auditors review
  -- the report. Its outcome is accepted exactly when it was done and both approve, blocked exactly
  -- when an auditor blocks it or it was not completed, and else to be revised. `accepted` and `blocked`
  -- are the numbers of these outcomes, and each task leaves one entry between the two of the run.
  pub run-Covers :
      (goal : String) (d : Desk S)
      → let (r, d') = run roles goal d in
        let (tasks, planned) = roles.plan d.state goal in
        Worked planned d'.state tasks r.outcomes
        × (accepted r ≡ times "accepted" r.outcomes)
        × (blocked r ≡ times "blocked" r.outcomes)
        × (length d'.entries ≡ length d.entries + length tasks + 2)
  unfolding run
  run-Covers goal d = elim (nil-cases tasks) [
    | inl e ↦
        rw (e, run)
          (
            refl,
            count_outcome-times "accepted" [],
            count_outcome-times "blocked" [],
            omega (arith, length-append d.entries (_ ∷ []), length-append started.entries (_ ∷ [])),
          )
    | inr more ↦
        let rest = coordinate_all-Covers tasks planned in
        rw (more, run)
          (
            rest.worked,
            count_outcome-times "accepted" _,
            count_outcome-times "blocked" _,
            omega (
              arith,
              rest.logged,
              length-append d.entries (_ ∷ []),
              length-append (coordinate_all roles tasks planned).1.entries (_ ∷ []),
            ),
          )
  ]
    where
      tasks : List AgentTask
      tasks = (roles.plan d.state goal).0

      started : Desk S
      started = log "orch.coordinator_start" (field "goal" (str goal) end) d

      planned : Desk S
      planned = record started { state = (roles.plan d.state goal).1 }
