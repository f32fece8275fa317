-- ===== src/Memory/Skills.antt =====
-- Validated rules and skill versions.
pub mod Activation
use victoria.Prelude.{
  ℕ, ◌+◌, String, Bool, none, some, List, [], ◌∷◌, ◌==◌, ◌&&◌, ◌||◌, if◌then◌else◌, ltb,
}
use victoria.Exec.{ok, err, not_found, Exec}
use victoria.GoMap.{get, put, values, update_where, select}
use victoria.Sort.{sort_by}
use victoria.Domain.{
  Scope, scope_case, scope_tenant, scope_vertical, scope_default, Tenant, ValidatedRule,
  SkillVersion,
}
use victoria.Memory.{Store, pair_key}

unfoldable pub create_validated_rule : ValidatedRule → Exec Store (Unit {0})
create_validated_rule rule s = (ok tt, record s { validated = put rule.id rule s.validated })

-- the test of the loop of DeprecateActiveRule
pub is_active_rule : String → String → String → String → ValidatedRule → Bool
is_active_rule tenant_id workflow_slug decision_type conditions_hash rule =
    rule.tenant_id == tenant_id
    && (rule.workflow_slug == workflow_slug
        && (rule.decision_type == decision_type
            && (rule.conditions_hash == conditions_hash && rule.status == "active")))

abbrev pub Superseded : Type 0
Superseded = record { supersedes : String; version : ℕ }

-- what the loop leaves in `supersedes` and `version`: the last rule that it deprecates
superseded : (ValidatedRule → Bool) → Superseded → List ValidatedRule → Superseded
superseded p found [] = found
superseded p found (rule ∷ rules) =
    superseded p
      (if p rule then record { supersedes = rule.id; version = rule.version + 1 } else found) rules

abbrev pub deprecate_rule : ValidatedRule → ValidatedRule
deprecate_rule rule = record rule { status = "deprecated" }

pub deprecate_active_rule : String → String → String → String → Exec Store Superseded
unfolding superseded
deprecate_active_rule tenant_id workflow_slug decision_type conditions_hash s = (
  ok (
      superseded (is_active_rule tenant_id workflow_slug decision_type conditions_hash)
        (record { supersedes = ""; version = 1 }) (values s.validated)),
  record s {
    validated =
        update_where (is_active_rule tenant_id workflow_slug decision_type conditions_hash)
          deprecate_rule s.validated;
  },
)

scope_rank : Scope → ℕ
scope_rank scope =
    if scope == scope_case
    then 4
    else if scope == scope_tenant
    then 3
    else if scope == scope_vertical
    then 2
    else 1

-- the test of the loop of ListVisibleValidatedRules
is_visible : Tenant → String → String → ValidatedRule → Bool
is_visible tenant tenant_id workflow_slug rule =
    rule.workflow_slug == workflow_slug
    && (rule.status == "active"
        && (rule.scope == scope_default
            || ((rule.scope == scope_vertical && rule.vertical == tenant.vertical)
                || rule.tenant_id == tenant_id)))

visible_first : ValidatedRule → ValidatedRule → Bool
unfolding scope_rank
visible_first a b =
    if a.scope == b.scope
    then ltb b.promoted_at a.promoted_at
    else ltb (scope_rank b.scope) (scope_rank a.scope)

unfoldable pub list_visible_validated_rules : String → String → Exec Store (List ValidatedRule)
unfolding visible_first is_visible
list_visible_validated_rules tenant_id workflow_slug s = elim (get tenant_id s.tenants) [
  | none ↦ (err not_found, s)
  | some tenant ↦ (
    ok (
        sort_by visible_first
          (select (is_visible tenant tenant_id workflow_slug) (values s.validated))),
    s,
  )
]

unfoldable list_tenant_validated_rules : String → Exec Store (List ValidatedRule)
list_tenant_validated_rules tenant_id s = (
  ok (
      select (λ (r : ValidatedRule). r.tenant_id == tenant_id || r.scope == scope_default)
        (values s.validated)),
  s,
)

-- the test of the loop of CreateSkillVersion
pub is_active_version : String → String → SkillVersion → Bool
is_active_version tenant_id workflow_slug sv =
    sv.tenant_id == tenant_id && (sv.workflow_slug == workflow_slug && sv.status == "active")

abbrev pub deprecate_version : SkillVersion → SkillVersion
deprecate_version sv = record sv { status = "deprecated" }

unfoldable pub create_skill_version : SkillVersion → Exec Store (Unit {0})
create_skill_version sv s = (
  ok tt,
  record s {
    skill_versions = put sv.id sv (
        update_where (is_active_version sv.tenant_id sv.workflow_slug) deprecate_version
          s.skill_versions);
    active_sv = put (pair_key sv.tenant_id sv.workflow_slug) sv.id s.active_sv;
  },
)

unfoldable pub active_skill_version : String → String → Exec Store SkillVersion
active_skill_version tenant_id workflow_slug s =
    elim (get (pair_key tenant_id workflow_slug) s.active_sv) [
      | none ↦ (err not_found, s)
      | some id ↦ elim (get id s.skill_versions) [
        | none ↦ (err not_found, s)
        | some sv ↦ (ok sv, s)
      ]
    ]

unfoldable pub get_skill_version : String → String → Exec Store SkillVersion
get_skill_version tenant_id skill_version_id s = elim (get skill_version_id s.skill_versions) [
  | none ↦ (err not_found, s)
  | some sv ↦ if sv.tenant_id == tenant_id then (ok sv, s) else (err not_found, s)
]
