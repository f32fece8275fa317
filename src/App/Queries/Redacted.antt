-- ===== src/App/Queries/Redacted.antt =====
-- BuildVerticalAggregates of internal/app/app.go: which aggregates it answers, and what they show.
use mathlib.Core.List.{append-nil, append_assoc, map-append}
use victoria.Prelude.{
  ◌≡◌, refl, sym, subst, ap, ◌∙◌, String, Bool, true, false, List, [], ◌∷◌, ◌++◌, map, ◌==◌,
  if◌then◌else◌, Bool-cases, inl, inr,
}
use victoria.Exec.{Result, ok, pure, ◌>>=◌}
use victoria.Exec.Laws.{>>=-ok}
use victoria.GoMap.{GoMap, select, values}
use victoria.Sort.{sort_by, text_less}
use victoria.Domain.{RuleCandidate, Tenant}
use victoria.Memory.Tenants.{list_tenants}
use victoria.Memory.Learning.{list_candidates}
use victoria.Rules.Redaction.{redact_aggregate_conditions}
use victoria.Rules.Redaction.Safe.{any_flagged, AllSafe, redact_aggregate_conditions-safe}
use victoria.App.{Env, World}
use victoria.App.Core.{in_store}
use victoria.App.Queries.Aggregated.{is_counted, Adds, aggregate_candidates-Adds}
use victoria.App.Queries.{
  VerticalAggregate, Aggregates, aggregate_of, aggregate_candidates, aggregate_tenants,
  build_vertical_aggregates,
}

-- no aggregate of the list shows what redaction takes out
abbrev pub AllRedacted : List VerticalAggregate → Type 0
AllRedacted [] = Unit
AllRedacted (a ∷ more) = AllSafe a.conditions_canonical × AllRedacted more

map-AllRedacted : (cs : List RuleCandidate) → AllRedacted (map aggregate_of cs)
map-AllRedacted [] = tt
map-AllRedacted (c ∷ cs) =
    ((redact_aggregate_conditions-safe c.conditions_canonical).0, map-AllRedacted cs)

-- what an aggregate shows of a candidate: its counts and its action, and not its tenant
abbrev pub report : RuleCandidate → VerticalAggregate
report c = record {
  workflow_slug = c.workflow_slug;
  decision_type = c.decision_type;
  conditions_canonical = (redact_aggregate_conditions c.conditions_canonical).conditions;
  recommended_action = c.recommended_action;
  evidence_count = c.evidence_count;
  quarantined = any_flagged c.conditions_canonical;
}

report-eq : (cs : List RuleCandidate) → map aggregate_of cs ≡ map report cs
report-eq [] = refl
report-eq (c ∷ cs) =
    rw ((redact_aggregate_conditions-safe c.conditions_canonical).1, report-eq cs) refl

-- the tenants of the store, by identifier
abbrev pub tenants_of : World → List Tenant
tenants_of w = sort_by (λ (a b : Tenant). text_less a.id b.id) (values w.store.tenants)

module _ (vertical workflow_slug : String) where
  -- the candidates of a tenant, by identifier
  abbrev pub candidates_at : GoMap RuleCandidate → String → List RuleCandidate
  candidates_at m tenant_id =
      sort_by (λ (a b : RuleCandidate). text_less a.id b.id)
        (select (λ (c : RuleCandidate). c.tenant_id == tenant_id) (values m))

  -- the counted candidates of the tenants of the vertical, one tenant after the other
  abbrev pub counted : Bool → GoMap RuleCandidate → List Tenant → List RuleCandidate
  counted held m [] = []
  counted held m (t ∷ tenants) =
      if t.vertical == vertical
      then select (is_counted vertical workflow_slug held) (candidates_at m t.id)
        ++ counted held m tenants
      else counted held m tenants

  -- what is added in two steps is added in one
  both-steps :
      (a b c : List VerticalAggregate) (xs ys : List RuleCandidate)
      → b ≡ a ++ map aggregate_of xs
      → c ≡ b ++ map aggregate_of ys
      → c ≡ a ++ map aggregate_of (xs ++ ys)
  both-steps a b c xs ys first second =
      second
      ∙ ap (λ zs. zs ++ map aggregate_of ys) first
      ∙ append_assoc a _ _
      ∙ ap (λ zs. a ++ zs) (sym (map-append aggregate_of xs ys))

  module _ (env : Env) where
    round-tenant :
        (t : Tenant) (ts : List Tenant) (found : Aggregates) (w : World) {found' : Aggregates}
        → (t.vertical == vertical) ≡ true
        → (aggregate_candidates env vertical workflow_slug t.id found
            (candidates_at w.store.candidates t.id)
            w).0
          ≡ ok found'
        → aggregate_tenants env vertical workflow_slug found (t ∷ ts) w
          ≡ aggregate_tenants env vertical workflow_slug found' ts
              (aggregate_candidates env vertical workflow_slug t.id found
                (candidates_at w.store.candidates t.id)
                w).1
    unfolding aggregate_tenants in_store list_candidates ◌>>=◌
    round-tenant t ts found w e returned = rw e (
        >>=-ok
          (aggregate_candidates env vertical workflow_slug t.id found
            (candidates_at w.store.candidates t.id))
          (λ found'. aggregate_tenants env vertical workflow_slug found' ts) w returned)

    aggregate_tenants-Adds :
        (ts : List Tenant) (found : Aggregates) (w : World)
        → Adds vertical workflow_slug found w
            (counted false w.store.candidates ts)
            (counted true w.store.candidates ts)
            (aggregate_tenants env vertical workflow_slug found ts w)
    unfolding aggregate_tenants pure
    aggregate_tenants-Adds [] found w = (found, refl, sym (append-nil _), sym (append-nil _), refl)
    aggregate_tenants-Adds (t ∷ ts) found w = elim (Bool-cases (t.vertical == vertical)) [
      | inr e ↦ rw e (aggregate_tenants-Adds ts found w)
      | inl e ↦
          let (found1, returned1, safe1, held1, kept1) =
            aggregate_candidates-Adds vertical workflow_slug env t.id
              (candidates_at w.store.candidates t.id) found w in
          let w1 =
            (aggregate_candidates env vertical workflow_slug t.id found
              (candidates_at w.store.candidates t.id) w).1 in
          let run = round-tenant t ts found w e returned1 in
          let (found2, returned2, safe2, held2, kept2) =
            subst
              (λ m.
                Adds vertical workflow_slug found1 w1 (counted false m ts) (counted true m ts)
                  (aggregate_tenants env vertical workflow_slug found1 ts w1))
              kept1 (aggregate_tenants-Adds ts found1 w1) in
          (
            found2,
            ap (λ (r : Result Aggregates × World). r.0) run ∙ returned2,
            rw e (both-steps _ _ _ _ _ safe1 safe2),
            rw e (both-steps _ _ _ _ _ held1 held2),
            ap (λ (r : Result Aggregates × World). r.1.store.candidates) run ∙ kept2 ∙ kept1,
          )
    ]

    -- The aggregates of a vertical are always answered. They are those of the workflow's candidates of
    -- exactly the tenants of that vertical, tenants and candidates by identifier, with their fields
    -- and their redacted conditions: one list has those of which no condition is flagged, the other
    -- one the others. In both no condition has a value with an at sign or a blank, and the value of
    -- one about the name of a customer is one of the marks that redaction writes.
    pub build_vertical_aggregates-redacted :
        (w : World)
        → (found : Aggregates) × ((build_vertical_aggregates env vertical workflow_slug w).0
            ≡ ok found)
          × (found.safe ≡ map report (counted false w.store.candidates (tenants_of w)))
          × (found.quarantined ≡ map report (counted true w.store.candidates (tenants_of w)))
          × AllRedacted found.safe
          × AllRedacted found.quarantined
    unfolding build_vertical_aggregates in_store list_tenants ◌>>=◌
    build_vertical_aggregates-redacted w =
        let (found, returned, safe, held, _) =
          aggregate_tenants-Adds (tenants_of w) (record { safe = []; quarantined = [] }) w in
        (
          found,
          returned,
          safe ∙ report-eq _,
          held ∙ report-eq _,
          subst AllRedacted (sym safe) (map-AllRedacted _),
          subst AllRedacted (sym held) (map-AllRedacted _),
        )
