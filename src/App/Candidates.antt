-- ===== src/App/Candidates.antt =====
-- What a correction teaches: mergeCandidate of internal/app/app.go and the messages that it sends.
pub mod Messages
pub mod Counting
pub mod Merge
use victoria.Prelude.{
  ℕ, suc, ◌+◌, ◌-◌, String, Bool, true, false, Option, none, some, List, [], ◌∷◌, ◌++◌, ◌==◌, ◌&&◌,
  not, if◌then◌else◌,
}
use victoria.Domain.{
  Time, Scope, scope_case, Condition, Correction, DecisionPoint, RuleCandidate, Floats,
  candidate_confidence, candidate_status,
}
use victoria.App.Helpers.{append_if_missing}

-- the loop over the siblings: the last one that recommends the action, and the others in order
abbrev pub Sorted : Type 0
Sorted = record { match : Option RuleCandidate; contradicting : List RuleCandidate }

pub sort_siblings : String → Sorted → List RuleCandidate → Sorted
sort_siblings action found [] = found
sort_siblings action found (sibling ∷ siblings) =
    sort_siblings action
      (if sibling.recommended_action == action
        then record { match = some sibling; contradicting = found.contradicting }
        else record { match = found.match; contradicting = found.contradicting ++ sibling ∷ [] })
      siblings

module _ (floats : Floats) (now : Time) where
  -- the confidence and the status that follow from the counts
  pub rescored : RuleCandidate → RuleCandidate
  rescored c =
      let confidence =
        candidate_confidence floats now c.evidence_count c.contradicting_count c.source_case_run_ids
          (c.tenant_id ∷ []) c.last_seen_at in
      record c {
        confidence = confidence;
        status = candidate_status floats confidence c.evidence_count c.contradicting_count;
      }

  -- the body of the loop over the contradicting candidates, less its effects
  pub contradicted : RuleCandidate → RuleCandidate
  unfolding rescored
  contradicted c = rescored (record c { contradicting_count = suc c.contradicting_count })

  -- `if status == "under_review" { UnderReviewAt = &now }` where it was not under review before
  abbrev pub stamped : String → RuleCandidate → RuleCandidate
  stamped before c =
      if not (before == "under_review") && c.status == "under_review"
      then record c { under_review_at = some now }
      else c

  -- the literal, before the confidence and the status are set
  abbrev pub fresh_candidate :
      (id hash workflow_slug action : String)
      → List Condition
      → Correction
      → DecisionPoint
      → RuleCandidate
  fresh_candidate id hash workflow_slug action conditions correction point = record {
    id = id;
    tenant_id = correction.tenant_id;
    workflow_slug = workflow_slug;
    decision_type = point.decision_type;
    conditions_hash = hash;
    conditions_canonical = conditions;
    recommended_action = action;
    scope = elim correction.scope_hint [ none ↦ scope_case | some scope ↦ scope ];
    confidence = 0;
    evidence_count = 1;
    contradicting_count = 0;
    source_correction_ids = correction.id ∷ [];
    source_case_run_ids = correction.case_run_id ∷ [];
    status = "candidate";
    created_at = now;
    last_seen_at = now;
    under_review_at = none;
  }

  pub first_candidate :
      (id hash workflow_slug action : String)
      → List Condition
      → Correction
      → DecisionPoint
      → RuleCandidate
  unfolding rescored
  first_candidate id hash workflow_slug action conditions correction point =
      stamped "candidate"
        (rescored (fresh_candidate id hash workflow_slug action conditions correction point))

  -- a correction added to the candidate, before the confidence and the status are set
  abbrev pub appended : Correction → RuleCandidate → RuleCandidate
  appended correction c = record c {
    source_correction_ids = c.source_correction_ids ++ correction.id ∷ [];
    source_case_run_ids = append_if_missing c.source_case_run_ids correction.case_run_id;
    evidence_count = c.evidence_count + 1;
    last_seen_at = now;
  }

  pub with_evidence : Correction → RuleCandidate → RuleCandidate
  unfolding rescored
  with_evidence correction c = stamped c.status (rescored (appended correction c))
