-- ===== src/Memory/Skills/Activation.antt =====
-- CreateSkillVersion and DeprecateActiveRule of internal/store/memory/store.go: what is active.
use victoria.Prelude.{
  Bool, true, false, ◌≡◌, refl, ◌∙◌, String, ◌==◌, ◌&&◌, Bool-cases, inl, inr, some,
}
use victoria.Exec.{ok}
use victoria.GoMap.{get, update_where}
use victoria.GoMap.Laws.{All, All-put, All-update_where_split, get-put_self, get-update_where}
use victoria.Domain.{SkillVersion, ValidatedRule}
use victoria.Memory.{Store, pair_key}
use victoria.Memory.Skills.{
  is_active_version, is_active_rule, create_skill_version, active_skill_version,
  deprecate_active_rule, deprecate_version, deprecate_rule,
}

and_false : (a b : Bool) → (a && (b && false)) ≡ false
and_false true true = refl
and_false true false = refl
and_false false b = refl

deprecated_version :
    (t w : String) (v : SkillVersion) → is_active_version t w (deprecate_version v) ≡ false
unfolding is_active_version
deprecated_version t w v = and_false (v.tenant_id == t) (v.workflow_slug == w)

deprecated_rule :
    (t w d h : String) (v : ValidatedRule) → is_active_rule t w d h (deprecate_rule v) ≡ false
unfolding is_active_rule
deprecated_rule t w d h v = elim (Bool-cases (v.tenant_id == t)) [
  | inr e ↦ rw e refl
  | inl e ↦ rw e (elim (Bool-cases (v.workflow_slug == w)) [
    | inr f ↦ rw f refl
    | inl f ↦ rw f (and_false (v.decision_type == d) (v.conditions_hash == h))
  ])
]

-- every version of the workflow that is marked active is this one
abbrev pub OnlyActive : SkillVersion → Store → Type 0
OnlyActive sv s =
    All
      (λ (k : String) (v : SkillVersion).
        is_active_version sv.tenant_id sv.workflow_slug v ≡ true → v ≡ sv)
      s.skill_versions

-- A new version is the one that the store answers for its tenant and workflow, and every other
-- version of the workflow is no longer active.
pub create_skill_version-active :
    (sv : SkillVersion) (s : Store)
    → (((active_skill_version sv.tenant_id sv.workflow_slug (create_skill_version sv s).1).0)
        ≡ ok sv)
      × OnlyActive sv (create_skill_version sv s).1
unfolding create_skill_version active_skill_version
create_skill_version-active sv s = (
  rw (get-put_self (pair_key sv.tenant_id sv.workflow_slug) sv.id s.active_sv, active_skill_version)
      (rw
        (
          get-put_self sv.id sv (
              update_where (is_active_version sv.tenant_id sv.workflow_slug) deprecate_version
                s.skill_versions),
          active_skill_version,
        )
        refl),
  All-put _ sv.id sv _ (λ _. refl)
      (All-update_where_split _ _ _ s.skill_versions
        (λ k v e h. cc (h, deprecated_version sv.tenant_id sv.workflow_slug v))
        (λ k v e h. cc (e, h))),
)

-- After a deprecation no rule of the pattern is active, and a rule that was not active in it is
-- what it was.
pub deprecate_active_rule-none_active :
    (tenant_id workflow_slug decision_type conditions_hash : String) (s : Store)
    → All
        (λ (_ : String) (rule : ValidatedRule).
          is_active_rule tenant_id workflow_slug decision_type conditions_hash rule ≡ false)
        (deprecate_active_rule tenant_id workflow_slug decision_type conditions_hash s).1.validated
      × ((id : String) (rule : ValidatedRule)
          → get id s.validated ≡ some rule
          → is_active_rule tenant_id workflow_slug decision_type conditions_hash rule ≡ false
          → get id
              (deprecate_active_rule tenant_id workflow_slug decision_type conditions_hash
                s).1.validated
            ≡ some rule)
unfolding deprecate_active_rule
deprecate_active_rule-none_active tenant_id workflow_slug decision_type conditions_hash s = (
  All-update_where_split _ _ _ s.validated
      (λ k v e. deprecated_rule tenant_id workflow_slug decision_type conditions_hash v)
      (λ _ v e. e),
  λ id rule g n.
      get-update_where (is_active_rule tenant_id workflow_slug decision_type conditions_hash)
        deprecate_rule id s.validated
      ∙ rw g (rw n refl),
)
