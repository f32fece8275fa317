-- ===== src/App/Queries.antt =====
-- What the engine reads out: ListAuditEvents with its filters and BuildVerticalAggregates, of
-- internal/app/app.go, and the calls that only pass a method of the store on.
pub mod Aggregated
pub mod Redacted
pub mod Newest
use victoria.Prelude.{
  ℕ, zero, suc, ◌-◌, String, Bool, List, [], ◌∷◌, ◌++◌, none, ◌==◌, ◌&&◌, not, if◌then◌else◌, ltb,
  eqb, length,
}
use victoria.Exec.{Exec, pure, ignore, ◌>>=◌, ◌>>◌}
use victoria.GoMap.{select}
use victoria.Domain.{
  Condition, RuleCandidate, AuditEvent, Tenant, SkillVersion, ChannelBinding, text,
}
use victoria.Memory.Audit.{list_audit_events}
use victoria.Memory.Tenants.{list_tenants, channel_binding_by_tenant}
use victoria.Memory.Learning.{list_candidates}
use victoria.Memory.Skills.{active_skill_version}
use victoria.Rules.Redaction.{redact_aggregate_conditions}
use victoria.App.{Env, World}
use victoria.App.Helpers.{contains}
use victoria.App.Core.{in_store, audit, entries}

-- events[len(events)-limit:], where the limit is not above the length
pub drop {ℓ} : {A : Type ℓ} → ℕ → List A → List A
drop zero xs = xs
drop (suc n) [] = []
drop (suc n) (x ∷ xs) = drop n xs

pub filter_events : List String → ℕ → List AuditEvent → List AuditEvent
unfolding drop
filter_events event_types limit events =
    let filtered =
      if eqb (length event_types) 0
      then events
      else select (λ (e : AuditEvent). contains event_types e.event_type) events in
    if ltb 0 limit && ltb limit (length filtered)
    then drop (length filtered - limit) filtered
    else filtered

-- ListAuditEvents of the engine
unfoldable pub audit_events_of : String → List String → ℕ → Exec World (List AuditEvent)
unfolding filter_events
audit_events_of tenant_id event_types limit = do
  events ← in_store (list_audit_events tenant_id)
  pure (filter_events event_types limit events)

-- LoadSkillVersion
unfoldable pub load_skill_version : String → String → Exec World SkillVersion
load_skill_version tenant_id workflow_slug = in_store (active_skill_version tenant_id workflow_slug)

-- GetChannelBinding
unfoldable pub get_channel_binding : String → String → Exec World ChannelBinding
get_channel_binding tenant_id channel = in_store (channel_binding_by_tenant tenant_id channel)

-- ListCandidates of the engine
unfoldable pub candidates_of : String → Exec World (List RuleCandidate)
candidates_of tenant_id = in_store (list_candidates tenant_id)

pub record VerticalAggregate : Type 0 where
  pub workflow_slug : String
  pub decision_type : String
  pub conditions_canonical : List Condition
  pub recommended_action : String
  pub evidence_count : ℕ
  pub quarantined : Bool

abbrev pub Aggregates : Type 0
Aggregates = record { safe : List VerticalAggregate; quarantined : List VerticalAggregate }

abbrev pub aggregate_of : RuleCandidate → VerticalAggregate
aggregate_of candidate =
    let redacted = redact_aggregate_conditions candidate.conditions_canonical in
    record {
      workflow_slug = candidate.workflow_slug;
      decision_type = candidate.decision_type;
      conditions_canonical = redacted.conditions;
      recommended_action = candidate.recommended_action;
      evidence_count = candidate.evidence_count;
      quarantined = redacted.quarantine;
    }

module _ (env : Env) (vertical workflow_slug : String) where
  -- the loop over the candidates of a tenant
  pub aggregate_candidates : String → Aggregates → List RuleCandidate → Exec World Aggregates
  aggregate_candidates tenant_id found [] = pure found
  aggregate_candidates tenant_id found (candidate ∷ candidates) =
      let aggregate = aggregate_of candidate in
      let other = aggregate_candidates tenant_id found candidates in
      let held = (do
        ignore (
            audit env tenant_id "aggregate_quarantined" "system" "aggregation" "rule_candidate"
              candidate.id none (entries (("workflow_slug", text candidate.workflow_slug) ∷ []))
              ("aggregate-quarantine" ∷ tenant_id ∷ candidate.id ∷ []))
        aggregate_candidates tenant_id
            (record found { quarantined = found.quarantined ++ aggregate ∷ [] }) candidates) in
      let shown =
        aggregate_candidates tenant_id (record found { safe = found.safe ++ aggregate ∷ [] })
          candidates in
      if not (candidate.workflow_slug == workflow_slug)
      then other
      else if aggregate.quarantined
      then held
      else shown

  -- the loop over the tenants
  pub aggregate_tenants : Aggregates → List Tenant → Exec World Aggregates
  aggregate_tenants found [] = pure found
  aggregate_tenants found (tenant ∷ tenants) =
      let other = aggregate_tenants found tenants in
      let counted = (do
        candidates ← in_store (list_candidates tenant.id)
        found' ← aggregate_candidates tenant.id found candidates
        aggregate_tenants found' tenants) in
      if not (tenant.vertical == vertical) then other else counted

  pub build_vertical_aggregates : Exec World Aggregates
  unfolding aggregate_tenants aggregate_candidates
  build_vertical_aggregates = do
    tenants ← in_store list_tenants
    aggregate_tenants (record { safe = []; quarantined = [] }) tenants
