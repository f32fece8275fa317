-- ===== src/App/Promotion/Versions.antt =====
-- createSkillVersion of internal/app/app.go and the version in force.
use victoria.Prelude.{
  sym, subst, ◌+◌, ℕ, List, suc, String, ◌≡◌, refl, ap, ◌∙◌, Option-cases, inl, inr,
}
use victoria.Exec.{Error, not_found, err, Result, ok, lift, attempt, pure, ◌>>=◌}
use victoria.GoMap.{GoMap, get}
use victoria.Domain.{Time, AuditEvent, SkillVersion, ValidatedRule}
use victoria.Memory.{Store, pair_key}
use victoria.Memory.Skills.{
  active_skill_version, create_skill_version, list_visible_validated_rules,
}
use victoria.Memory.Skills.Activation.{create_skill_version-active}
use victoria.App.{Env, World}
use victoria.App.Core.{in_store, new_id}
use victoria.App.Core.Laws.{audit-frame, audit-then}
use victoria.App.Promotion.{next_version, new_skill_version, build_manifest}

-- the version after the one in force; 1 where none is in force
abbrev pub IsNext : Result SkillVersion → ℕ → Type 0
IsNext (ok active) version = version ≡ active.version + 1
IsNext (err e) version = (e ≡ not_found) × (version ≡ 1)

next_version-IsNext :
    (found : Result SkillVersion) (version : ℕ)
    → IsNext found version
    → next_version found ≡ ok version
next_version-IsNext (ok active) version n = ap ok (sym n)
next_version-IsNext (err e) version (m, n) =
    subst (λ (x : Error). next_version (err x) ≡ ok version) (sym m) (ap ok (sym n))

active_read : (t wf : String) (s : Store) → (active_skill_version t wf s).1 ≡ s
unfolding active_skill_version
active_read t wf s = elim (Option-cases (get (pair_key t wf) s.active_sv)) [
  | inl h ↦ rw (h, active_skill_version) refl
  | inr (id, h) ↦
      rw (h, active_skill_version)
        (elim (Option-cases (get id s.skill_versions)) [
          | inl k ↦ rw k refl
          | inr (v, k) ↦ rw k refl
        ])
]

active-audited :
    (t wf : String) (s : Store) (x : GoMap AuditEvent) (y : GoMap String)
    → (active_skill_version t wf (record s { audit_events = x; audit_by_key = y })).0
      ≡ (active_skill_version t wf s).0
unfolding active_skill_version
active-audited t wf s x y = elim (Option-cases (get (pair_key t wf) s.active_sv)) [
  | inl h ↦ rw (h, active_skill_version) refl
  | inr (id, h) ↦
      rw (h, active_skill_version)
        (elim (Option-cases (get id s.skill_versions)) [
          | inl k ↦ rw k refl
          | inr (v, k) ↦ rw k refl
        ])
]

module _ (env : Env) (t wf : String) (now : Time) (w : World) (rules : List ValidatedRule)
    (version : ℕ) where
  -- the version that is made
  abbrev made : SkillVersion
  made = record {
    id = env.make_id "sv" w.ids_made;
    tenant_id = t;
    workflow_slug = wf;
    version = version;
    rule_manifest = build_manifest rules;
    status = "active";
    created_at = now;
  }

  -- the world in which it is announced
  abbrev announced : World
  announced = record w { ids_made = suc w.ids_made; store = (create_skill_version made w.store).1 }

  -- Where the rules of the tenant can be listed, a promotion makes the next version: one more than
  -- the version in force, or the first one, with those rules. The version that comes back is in
  -- force then.
  pub new_skill_version-active :
      list_visible_validated_rules t wf w.store ≡ (ok rules, w.store)
      → IsNext (active_skill_version t wf w.store).0 version
      → (sv : SkillVersion) × ((new_skill_version env t wf now w).0 ≡ ok sv)
        × (sv.version ≡ version)
        × (sv.rule_manifest ≡ build_manifest rules)
        × ((active_skill_version t wf (new_skill_version env t wf now w).1.store).0 ≡ ok sv)
  unfolding new_skill_version ◌>>=◌ in_store attempt lift new_id create_skill_version pure
  new_skill_version-active h n = (
    made,
    rw (active_read t wf w.store) (
        rw (next_version-IsNext (active_skill_version t wf w.store).0 version n) (
          rw h (
            ap (λ (r : Result SkillVersion × World). r.0)
              (audit-then env _ _ _ _ _ _ _ _ _ announced (pure made))))),
    refl,
    refl,
    rw (active_read t wf w.store) (
        rw (next_version-IsNext (active_skill_version t wf w.store).0 version n) (
          rw h (
            ap (λ (r : Result SkillVersion × World). (active_skill_version t wf r.1.store).0)
              (audit-then env _ _ _ _ _ _ _ _ _ announced (pure made))
            ∙ ap (λ (v : World). (active_skill_version t wf v.store).0)
                (audit-frame env _ _ _ _ _ _ _ _ _ announced)
            ∙ active-audited t wf announced.store _ _
            ∙ (create_skill_version-active made w.store).0))),
  )
