-- ===== src/Orchestration/Roles/Closed.antt =====
-- src/desktop_worker/orchestration/roles.py: the roles fail closed.
use desktop_worker.Prelude.{
  String, ◌≡◌, ◌≢◌, refl, none, ◌⊎◌, inl, inr, Bool-cases, ◌==◌, string_eq, eq_iff, arith,
}
use desktop_worker.Errors.{Result, ok, err, >>=-eq-ok}
use desktop_worker.Value.{Value}
use desktop_worker.Orchestration.Schema.{
  AgentTask, AgentReport, AuditorFinding, parse_agent_report, parse_finding,
}
use desktop_worker.Orchestration.Roles.{Ai, Office, implement, implement_from, review, review_from}

-- What the AI was asked, and the answer was a finding.
abbrev pub Answered : {S A : Type 0} → Ai S → Office S → String → (Value → Result A) → A → Type 0
Answered ai o prompt parse a = (v : Value) × ((ai.call o.state prompt).0 ≡ ok v) × (parse v ≡ ok a)

text-cases : (s t : String) → (s ≡ t) ⊎ (s ≢ t)
text-cases s t = elim (Bool-cases (s == t)) [
  | inl same ↦ inl ((eq_iff s t).0 same)
  | inr other ↦ inr (λ h. ground (arith, eq_iff s t))
]

module _ {S : Type 0} (ai : Ai S) where
  from_review :
      (agent : String) (task : AgentTask) (r : Result AuditorFinding) (o : Office S)
      → (review_from ai agent task r o).0.verdict ≢ "block"
      → r ≡ ok (review_from ai agent task r o).0
  unfolding review_from
  from_review agent task (ok f) o h = refl
  from_review agent task (err e) o h = absurd (h refl)

  review-Answered :
      (agent : String) (task : AgentTask) (report : AgentReport) (o : Office S)
      → (review ai agent task report o).0.verdict ≢ "block"
      → Answered ai o
          (ai.review_prompt agent task report)
          parse_finding
          (review ai agent task report o).0
  unfolding review
  review-Answered agent task report o h =
      >>=-eq-ok (ai.call o.state (ai.review_prompt agent task report)).0 parse_finding
        (from_review agent task _ _ h)

  from_implement :
      (task : AgentTask) (r : Result AgentReport) (o : Office S)
      → (implement_from ai task r o).0.status ≢ "failed"
      → r ≡ ok (implement_from ai task r o).0
  unfolding implement_from
  from_implement task (ok report) o h = refl
  from_implement task (err e) o h = absurd (h refl)

  implement-Answered :
      (task : AgentTask) (o : Office S)
      → (implement ai none task o).0.status ≢ "failed"
      → Answered ai o (ai.implement_prompt task) parse_agent_report (implement ai none task o).0
  unfolding implement
  implement-Answered task o h =
      >>=-eq-ok (ai.call o.state (ai.implement_prompt task)).0 parse_agent_report
        (from_implement task _ _ h)

  -- An auditor blocks, or its finding is what the AI answered, and valid; and the report of an
  -- implementer that does not execute is failed, or what the AI answered, and valid.
  pub roles-Answered :
      (agent : String) (task : AgentTask) (report : AgentReport) (o : Office S)
      → (((review ai agent task report o).0.verdict ≡ "block")
          ⊎ Answered ai o
              (ai.review_prompt agent task report)
              parse_finding
              (review ai agent task report o).0)
        × (((implement ai none task o).0.status ≡ "failed")
            ⊎ Answered ai o
                (ai.implement_prompt task)
                parse_agent_report
                (implement ai none task o).0)
  roles-Answered agent task report o = (
    elim (text-cases (review ai agent task report o).0.verdict "block") [
      | inl blocks ↦ inl blocks
      | inr other ↦ inr (review-Answered agent task report o other)
    ],
    elim (text-cases (implement ai none task o).0.status "failed") [
      | inl failed ↦ inl failed
      | inr other ↦ inr (implement-Answered task o other)
    ],
  )
