-- ===== src/Examples/Learning.antt =====
-- One run of each property about rules and their versions, in the world of the example.
use victoria.Prelude.{String, true, false, none, some, ◌≡◌, refl, List, [], ◌∷◌, map}
use victoria.Exec.{ok}
use victoria.Examples.Data.{env, world, rule_of, version_of, floats, store}
use victoria.Examples.Inputs.{correction, point, run, condition_of}
use victoria.Exec.{◌>>=◌, or_throw, pure}
use victoria.App.Core.{new_id}
use victoria.App.{AgentResult}
use victoria.Text.{decimal}
use victoria.GoMap.{put}
use victoria.Sort.{sort_by, insert_sorted}
use victoria.Domain.{text, SkillVersion}
use victoria.Rules.{allowed_actions}
use victoria.App.Cases.Decision.{adopt}
use victoria.App.Cases.Agreement.{evaluate_decision-allowed}
use victoria.Memory.Skills.{list_visible_validated_rules}
use victoria.App.Promotion.{new_skill_version}
use victoria.App.Promotion.Versions.{new_skill_version-active}
use victoria.Domain.{write}
use victoria.Memory.{pair_key}
use victoria.Rules.{workflow_decision}
use victoria.GoMap.{values}
use victoria.GoMap.Laws.{All}
use victoria.Domain.{Condition, RuleCandidate, ValidatedRule}
use victoria.App.Promotion.{manifest_entry, build_manifest}
use victoria.App.Promotion.Manifest.{Decides, first_match-build_manifest}
use victoria.App.Cases.Decision.{first_match, evaluate_decision}
use victoria.App.Candidates.{first_candidate, contradicted}
use victoria.GoMap.{get, select}
use victoria.App.Helpers.{contains}
use victoria.Rules.Redaction.{redact_aggregate_conditions}
use victoria.Rules.Redaction.Safe.{AllSafe, any_flagged, redact_aggregate_conditions-safe}
use victoria.Memory.Skills.{
  is_active_rule, active_skill_version, create_skill_version, deprecate_active_rule,
}
use victoria.Memory.Skills.Activation.{
  OnlyActive, create_skill_version-active, deprecate_active_rule-none_active,
}

abbrev two_rules : List ValidatedRule
two_rules = rule_of "vr1" "tenant" ∷ rule_of "vr2" "case" ∷ []

first_match-build_manifest_example :
    Decides "send_or_hold" none
      (map manifest_entry two_rules)
      (first_match "send_or_hold" none (build_manifest two_rules))
first_match-build_manifest_example = first_match-build_manifest "send_or_hold" none two_rules

abbrev pub candidate : RuleCandidate
candidate =
    contradicted floats 12
      (first_candidate floats 9 "rc1" "h" "quote_drafting" "hold" [] correction point)

create_skill_version-active_example :
    ((active_skill_version "t1" "quote_drafting"
        (create_skill_version (version_of "sv2" 2) store).1).0
      ≡ ok (version_of "sv2" 2))
    × OnlyActive (version_of "sv2" 2) (create_skill_version (version_of "sv2" 2) store).1
create_skill_version-active_example = create_skill_version-active (version_of "sv2" 2) store

deprecate_active_rule-none_active_example :
    All
      (λ (_ : String) (rule : ValidatedRule).
        is_active_rule "t1" "quote_drafting" "send_or_hold" "h" rule ≡ false)
      (deprecate_active_rule "t1" "quote_drafting" "send_or_hold" "h" store).1.validated
deprecate_active_rule-none_active_example =
    (deprecate_active_rule-none_active "t1" "quote_drafting" "send_or_hold" "h" store).0

abbrev named : List Condition
named = condition_of "client_name" "Ann Lee" ∷ condition_of "from" "a@b.c" ∷ []

redact_aggregate_conditions-safe_example :
    AllSafe (redact_aggregate_conditions named).conditions
    × ((redact_aggregate_conditions named).quarantine ≡ any_flagged named)
redact_aggregate_conditions-safe_example = redact_aggregate_conditions-safe named

abbrev straying : AgentResult
straying = record {
  facts = [];
  proposed_action = "delete_everything";
  draft_reply = "";
  reasoning = "";
}

evaluate_decision-allowed_example :
    contains
      (allowed_actions "quote_drafting")
      (adopt "quote_drafting" (some straying) (record {
        id = "dp5";
        tenant_id = "t1";
        case_run_id = "cr9";
        decision_type = "send_or_hold";
        agent_input = some (("workflow_slug", text "quote_drafting") ∷ []);
        proposed_action = "send_quote";
        status = "waiting_for_approval";
        created_at = 10;
      })).proposed_action
    ≡ true
unfolding evaluate_decision ◌>>=◌ or_throw write new_id pure first_match workflow_decision decimal
    put
evaluate_decision-allowed_example =
    evaluate_decision-allowed env 10 run (version_of "sv1" 1) world (some []) (some straying) refl
      refl

new_skill_version-active_example :
    (sv : SkillVersion) × ((new_skill_version env "t1" "quote_drafting" 10 world).0 ≡ ok sv)
    × (sv.version ≡ 2)
    × (sv.rule_manifest ≡ build_manifest (rule_of "vr1" "tenant" ∷ []))
    × ((active_skill_version "t1" "quote_drafting"
          (new_skill_version env "t1" "quote_drafting" 10 world).1.store).0
        ≡ ok sv)
unfolding list_visible_validated_rules active_skill_version get pair_key values select sort_by
    insert_sorted
new_skill_version-active_example =
    new_skill_version-active env "t1" "quote_drafting" 10 world (rule_of "vr1" "tenant" ∷ []) 2 refl
      refl
