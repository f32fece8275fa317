-- ===== src/App/Cases/Decision.antt =====
-- evaluateDecision and runAgent of internal/app/app.go: the first rule of the manifest that fits decides;
-- the agent is asked only where none fits.
use victoria.Prelude.{
  String, Bool, true, false, Option, none, some, List, [], ◌∷◌, ◌==◌, ◌&&◌, not, if◌then◌else◌,
  length,
}
use victoria.Exec.{Result, ok, err, panic, Exec, pure, gets, or_throw, ignore, ◌>>=◌, ◌>>◌}
use victoria.Text.{decimal}
use victoria.Domain.{
  Time, text, other, flag, Payload, write, CaseRun, DecisionPoint, SkillVersion, RuleManifest,
}
use victoria.Rules.{allowed_actions, workflow_decision, conditions_match}
use victoria.App.{Env, World, AgentResult}
use victoria.App.Helpers.{contains}
use victoria.App.Core.{new_id, audit, entries}

-- the test of the loop of evaluateDecision
unfoldable pub fits : String → Payload → RuleManifest → Bool
fits decision_type payload rule =
    rule.decision_type == decision_type && conditions_match payload rule.conditions_canonical

-- the loop of evaluateDecision
unfoldable pub first_match : String → Payload → List RuleManifest → Option RuleManifest
first_match decision_type payload [] = none
first_match decision_type payload (rule ∷ rules) =
    let rest = first_match decision_type payload rules in
    if fits decision_type payload rule then some rule else rest

abbrev pub Evaluated : Type 0
Evaluated = record { decision : DecisionPoint; rule_matched : Bool }

abbrev pub action_of : String → Option RuleManifest → String
action_of fallback none = fallback
action_of fallback (some rule) = rule.recommended_action

abbrev pub is_some {ℓ} : {A : Type ℓ} → Option A → Bool
is_some none = false
is_some (some a) = true

-- the agent's action, where it is one of the allowed ones
unfoldable pub adopt : String → Option AgentResult → DecisionPoint → DecisionPoint
adopt workflow_slug none decision = decision
adopt workflow_slug (some out) decision =
    if contains (allowed_actions workflow_slug) out.proposed_action
    then record decision { proposed_action = out.proposed_action }
    else decision

module _ (env : Env) where
  -- a nil payload panics: its copy is nil too, and is written to
  unfoldable pub evaluate_decision : Time → CaseRun → Payload → SkillVersion → Exec World Evaluated
  evaluate_decision now run payload sv = do
    let wanted = workflow_decision run.workflow_slug
    let matched = first_match wanted.decision_type payload sv.rule_manifest
    agent_input ← or_throw (write "workflow_slug" (text run.workflow_slug) payload) panic
    id ← new_id env "dp"
    pure (record {
      decision = record {
        id = id;
        tenant_id = run.tenant_id;
        case_run_id = run.id;
        decision_type = wanted.decision_type;
        agent_input = agent_input;
        proposed_action = action_of wanted.default_action matched;
        status = "waiting_for_approval";
        created_at = now;
      };
      rule_matched = is_some matched;
    })

  -- what runAgent records of the agent's answer
  record_agent : CaseRun → DecisionPoint → Result AgentResult → Exec World (Option AgentResult)
  record_agent run decision (err e) = do
    ignore (
        audit env run.tenant_id "agent_unavailable" "system" "agent" "case_run" run.id none
          (entries
            (("workflow_slug", text run.workflow_slug) ∷ ("error", text (env.error_text e)) ∷ []))
          ("agent-unavailable" ∷ run.tenant_id ∷ run.id ∷ []))
    pure none
  record_agent run decision (ok res) = do
    ignore (
        audit env run.tenant_id "agent_proposed" "system" "agent" "decision_point" decision.id
          (entries (("case_run_id", text run.id) ∷ []))
          (entries (
            ("proposed_action", text res.proposed_action)
            ∷ ("fact_count", other (decimal (length res.facts)))
            ∷ ("has_draft", flag (not (res.draft_reply == "")))
            ∷ []))
          ("agent-proposed" ∷ run.tenant_id ∷ decision.id ∷ []))
    pure (some res)

  -- `if a.agent != nil && !ruleMatched { agentOut = a.runAgent(...) }`
  unfoldable pub consult_agent : CaseRun → Evaluated → Exec World (Option AgentResult)
  unfolding record_agent
  consult_agent run evaluated = elim env.agent [
    | none ↦ pure none
    | some propose ↦ if evaluated.rule_matched then pure none else (do
      made ← gets (λ w. w.ids_made)
      record_agent run evaluated.decision (
          propose made (record {
            workflow_slug = run.workflow_slug;
            decision_type = evaluated.decision.decision_type;
            default_action = evaluated.decision.proposed_action;
            allowed_actions = allowed_actions run.workflow_slug;
            payload = run.input_payload;
          })))
  ]
