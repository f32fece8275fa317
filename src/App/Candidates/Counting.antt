-- ===== src/App/Candidates/Counting.antt =====
-- The candidates that mergeCandidate of internal/app/app.go makes and changes, and their counts.
use victoria.Prelude.{◌≤◌, String, ◌≡◌, List, length}
use victoria.Domain.{Time, Floats, Condition, Correction, DecisionPoint, RuleCandidate}
use victoria.App.Candidates.{contradicted, first_candidate, with_evidence}

-- A candidate that corrections, contradictions and a promotion have made, in any order.
pub data Learned (floats : Floats) : RuleCandidate → Type 0 where
  proposed :
      (now : Time) (id hash workflow_slug action : String) (conditions : List Condition)
      (correction : Correction) (point : DecisionPoint)
      → Learned floats
          (first_candidate floats now id hash workflow_slug action conditions correction point)
  strengthened :
      (now : Time) (correction : Correction) (c : RuleCandidate)
      → Learned floats c
      → Learned floats (with_evidence floats now correction c)
  weakened :
      (now : Time) (c : RuleCandidate)
      → Learned floats c
      → Learned floats (contradicted floats now c)
  promoted :
      (c : RuleCandidate) → Learned floats c → Learned floats (record c { status = "promoted" })

-- what the counts and the status of a candidate say
abbrev pub IsCounted : RuleCandidate → Type 0
IsCounted c =
    (c.evidence_count ≡ length c.source_correction_ids)
    × (c.status ≡ "under_review" → (3 ≤ c.evidence_count) × (c.contradicting_count ≡ 0))
