-- ===== src/Memory/Learning.antt =====
-- Corrections and rule candidates.
use victoria.Prelude.{
  String, Bool, true, false, none, some, List, ◌==◌, ◌&&◌, not, if◌then◌else◌, ltb,
}
use victoria.Exec.{ok, err, not_found, Exec}
use victoria.GoMap.{get, put, values, select, first}
use victoria.Sort.{text_less, sort_by}
use victoria.Domain.{Correction, RuleCandidate}
use victoria.Memory.{Store}

unfoldable pub create_correction : Correction → Exec Store Bool
create_correction correction s = elim (get correction.idempotency_key s.correction_key) [
  | some _ ↦ (ok false, s)
  | none ↦ (
    ok true,
    record s {
      corrections = put correction.id correction s.corrections;
      correction_key = put correction.idempotency_key correction.id s.correction_key;
    },
  )
]

unfoldable list_corrections : String → Exec Store (List Correction)
list_corrections tenant_id s = (
  ok (
      sort_by (λ (a b : Correction). ltb a.created_at b.created_at)
        (select (λ (c : Correction). c.tenant_id == tenant_id) (values s.corrections))),
  s,
)

-- the test of the loop of ListCandidatesByConditions
same_conditions : String → String → String → String → RuleCandidate → Bool
same_conditions tenant_id workflow_slug decision_type conditions_hash c =
    c.tenant_id == tenant_id
    && (c.workflow_slug == workflow_slug
        && (c.decision_type == decision_type
            && (c.conditions_hash == conditions_hash && not (c.status == "rejected"))))

unfoldable find_candidate : String → String → String → String → String → Exec Store RuleCandidate
find_candidate tenant_id workflow_slug decision_type conditions_hash recommended_action s =
    elim (first
      (λ (c : RuleCandidate).
        same_conditions tenant_id workflow_slug decision_type conditions_hash c
        && c.recommended_action == recommended_action)
      (values s.candidates)) [ none ↦ (err not_found, s) | some c ↦ (ok c, s) ]

unfoldable pub list_candidates_by_conditions :
    String → String → String → String → Exec Store (List RuleCandidate)
unfolding same_conditions
list_candidates_by_conditions tenant_id workflow_slug decision_type conditions_hash s = (
  ok (
      sort_by (λ (a b : RuleCandidate). text_less a.id b.id)
        (select (same_conditions tenant_id workflow_slug decision_type conditions_hash)
          (values s.candidates))),
  s,
)

unfoldable pub list_candidates : String → Exec Store (List RuleCandidate)
list_candidates tenant_id s = (
  ok (
      sort_by (λ (a b : RuleCandidate). text_less a.id b.id)
        (select (λ (c : RuleCandidate). c.tenant_id == tenant_id) (values s.candidates))),
  s,
)

unfoldable pub get_candidate : String → String → Exec Store RuleCandidate
get_candidate tenant_id candidate_id s = elim (get candidate_id s.candidates) [
  | none ↦ (err not_found, s)
  | some c ↦ if c.tenant_id == tenant_id then (ok c, s) else (err not_found, s)
]

unfoldable pub save_candidate : RuleCandidate → Exec Store (Unit {0})
save_candidate candidate s =
    (ok tt, record s { candidates = put candidate.id candidate s.candidates })
