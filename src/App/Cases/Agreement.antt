-- ===== src/App/Cases/Agreement.antt =====
-- The actions of a workflow: allowedActions and workflowDecision of internal/app/rules.go against the
-- agent's answer in StartCase of internal/app/app.go.
use victoria.Prelude.{
  String, true, false, Option, none, some, ◌≡◌, refl, ap, subst, ◌==◌, Bool-cases, inl, inr,
}
use victoria.Exec.{Result, ok, err, or_throw, pure, ◌>>=◌}
use victoria.Domain.{Time, Payload, CaseRun, DecisionPoint, SkillVersion, RuleManifest, write}
use victoria.Rules.{allowed_actions, workflow_decision}
use victoria.App.{Env, World, AgentResult}
use victoria.App.Helpers.{contains}
use victoria.App.Core.{new_id}
use victoria.App.Cases.Decision.{
  Evaluated, action_of, is_some, first_match, evaluate_decision, adopt,
}

default-allowed :
    (slug : String) → contains (allowed_actions slug) (workflow_decision slug).default_action ≡ true
unfolding allowed_actions workflow_decision contains
default-allowed slug = elim (Bool-cases (slug == "invoice_handling")) [
  | inl e ↦ rw e refl
  | inr e ↦ elim (Bool-cases (slug == "enquiry_triage")) [
    | inl f ↦ rw e (rw f refl)
    | inr f ↦ rw e (rw f refl)
  ]
]

adopt-allowed :
    (slug : String) (out : Option AgentResult) (decision : DecisionPoint)
    → contains (allowed_actions slug) decision.proposed_action ≡ true
    → contains (allowed_actions slug) (adopt slug out decision).proposed_action ≡ true
unfolding adopt
adopt-allowed slug none decision h = h
adopt-allowed slug (some out) decision h =
    elim (Bool-cases (contains (allowed_actions slug) out.proposed_action)) [
      | inl e ↦ rw e e
      | inr e ↦ rw e h
    ]

-- without a rule the default stands
unmatched-allowed :
    (slug : String) (found : Option RuleManifest)
    → is_some found ≡ false
    → contains (allowed_actions slug) (action_of (workflow_decision slug).default_action found)
      ≡ true
unmatched-allowed slug none h = default-allowed slug
unmatched-allowed slug (some rule) h = cc h

value_or : {A : Type 0} → A → Result A → A
value_or a (ok b) = b
value_or a (err e) = a

module _ (env : Env) (now : Time) (run : CaseRun) (sv : SkillVersion) (w : World) where
  -- Where no rule decides a case, the action that the operator is shown is one of the workflow's
  -- own, whatever an agent answers.
  pub evaluate_decision-allowed :
      (payload : Payload) (out : Option AgentResult) {evaluated : Evaluated}
      → (evaluate_decision env now run payload sv w).0 ≡ ok evaluated
      → evaluated.rule_matched ≡ false
      → contains
          (allowed_actions run.workflow_slug)
          (adopt run.workflow_slug out evaluated.decision).proposed_action
        ≡ true
  unfolding evaluate_decision ◌>>=◌ or_throw write new_id pure value_or
  evaluate_decision-allowed none out e h = cc e
  evaluate_decision-allowed (some m) out {evaluated} e h =
      adopt-allowed run.workflow_slug out evaluated.decision (
        subst
          (λ (ev : Evaluated).
            ev.rule_matched ≡ false
            → contains (allowed_actions run.workflow_slug) ev.decision.proposed_action ≡ true)
          (ap (value_or evaluated) e)
          (unmatched-allowed run.workflow_slug (
            first_match (workflow_decision run.workflow_slug).decision_type (some m)
              sv.rule_manifest))
          h)
