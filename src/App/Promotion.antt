-- ===== src/App/Promotion.antt =====
-- Promotion of a candidate into an immutable skill version: PromoteCandidate and createSkillVersion of
-- internal/app/app.go.
pub mod Manifest
pub mod Versions
use victoria.Prelude.{
  ℕ, ◌+◌, String, Bool, true, none, some, List, [], ◌∷◌, map, ◌==◌, ◌||◌, if◌then◌else◌, ltb, eqb,
  length,
}
use victoria.Exec.{
  Result, ok, err, Error, not_found, invalid_input, Exec, pure, throw, lift, throw_if, attempt,
  ◌>>=◌, ◌>>◌,
}
use victoria.Sort.{text_less, sort_by}
use victoria.Text.{decimal}
use victoria.Domain.{Time, text, other, RuleCandidate, ValidatedRule, RuleManifest, SkillVersion}
use victoria.Memory.Learning.{get_candidate, save_candidate}
use victoria.Memory.Skills.{
  create_validated_rule, deprecate_active_rule, list_visible_validated_rules, create_skill_version,
  active_skill_version,
}
use victoria.App.{Env, World}
use victoria.App.Helpers.{scope_priority}
use victoria.App.Core.{in_store, clock_now, new_id, audit, entries}

pub manifest_entry : ValidatedRule → RuleManifest
manifest_entry rule = record {
  rule_id = rule.id;
  scope = rule.scope;
  version = rule.version;
  decision_type = rule.decision_type;
  conditions_canonical = rule.conditions_canonical;
  recommended_action = rule.recommended_action;
  priority = scope_priority rule.scope;
}

pub manifest_less : RuleManifest → RuleManifest → Bool
manifest_less a b =
    if eqb a.priority b.priority then text_less a.rule_id b.rule_id else ltb b.priority a.priority

pub build_manifest : List ValidatedRule → List RuleManifest
unfolding manifest_entry manifest_less
build_manifest rules = sort_by manifest_less (map manifest_entry rules)

-- `version` from the answer about the active version; an error but "not found" is passed on
abbrev pub next_version : Result SkillVersion → Result ℕ
next_version (ok active) = ok (active.version + 1)
next_version (err not_found) = ok 1
next_version (err e) = err e

abbrev pub Promoted : Type 0
Promoted = record { rule : ValidatedRule; version : SkillVersion }

module _ (env : Env) where
  -- createSkillVersion
  pub new_skill_version : String → String → Time → Exec World SkillVersion
  unfolding build_manifest
  new_skill_version tenant_id workflow_slug now = do
    active ← attempt (in_store (active_skill_version tenant_id workflow_slug))
    version ← lift (next_version active)
    rules ← in_store (list_visible_validated_rules tenant_id workflow_slug)
    id ← new_id env "sv"
    let sv : SkillVersion = record {
      id = id;
      tenant_id = tenant_id;
      workflow_slug = workflow_slug;
      version = version;
      rule_manifest = build_manifest rules;
      status = "active";
      created_at = now;
    }
    in_store (create_skill_version sv)
    audit env tenant_id "skill_version_created" "system" "promotion_pipeline" "skill_version" sv.id
        none
        (entries (
          ("workflow_slug", text workflow_slug)
          ∷ ("rule_count", other (decimal (length sv.rule_manifest)))
          ∷ []))
        ("skill-version" ∷ tenant_id ∷ sv.id ∷ [])
    pure sv

  unfoldable pub promote_candidate : String → String → String → String → Exec World Promoted
  unfolding new_skill_version
  promote_candidate tenant_id candidate_id reviewer_id rationale = do
    throw_if (tenant_id == "" || (candidate_id == "" || reviewer_id == "")) invalid_input
    candidate ← in_store (get_candidate tenant_id candidate_id)
    now ← clock_now
    previous ← in_store (
        deprecate_active_rule tenant_id candidate.workflow_slug candidate.decision_type
          candidate.conditions_hash)
    id ← new_id env "vr"
    let rule : ValidatedRule = record {
      id = id;
      tenant_id = tenant_id;
      workflow_slug = candidate.workflow_slug;
      decision_type = candidate.decision_type;
      conditions_hash = candidate.conditions_hash;
      conditions_canonical = candidate.conditions_canonical;
      recommended_action = candidate.recommended_action;
      scope = candidate.scope;
      vertical = "";
      version = previous.version;
      supersedes = previous.supersedes;
      promoted_from_candidate_id = candidate.id;
      promoted_by = reviewer_id;
      promoted_at = now;
      status = "active";
      rationale = rationale;
      rollback_of = "";
    }
    in_store (create_validated_rule rule)
    in_store (save_candidate (record candidate { status = "promoted" }))
    audit env tenant_id "rule_promoted" "reviewer" reviewer_id "validated_rule" rule.id
        (entries (("candidate_id", text candidate.id) ∷ []))
        (entries (("scope", text rule.scope) ∷ [])) ("rule-promoted" ∷ tenant_id ∷ rule.id ∷ [])
    sv ← new_skill_version tenant_id candidate.workflow_slug now
    pure (record { rule = rule; version = sv })
