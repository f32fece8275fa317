-- ===== src/App/Queries/Aggregated.antt =====
-- BuildVerticalAggregates of internal/app/app.go: the loop over the candidates of a tenant.
use mathlib.Core.List.{append-nil, append_assoc}
use victoria.Prelude.{
  none, ◌≡◌, refl, sym, ap, ◌∙◌, String, Bool, true, false, List, [], ◌∷◌, ◌++◌, map, ◌==◌, ◌&&◌,
  not, if◌then◌else◌, Bool-cases, inl, inr,
}
use victoria.Exec.{Result, ok, pure, ignore, ◌>>=◌}
use victoria.GoMap.{select}
use victoria.Domain.{RuleCandidate, text}
use victoria.Rules.Redaction.{redact_aggregate_conditions}
use victoria.Rules.Redaction.Safe.{any_flagged, redact_aggregate_conditions-safe}
use victoria.App.{Env, World}
use victoria.App.Core.{audit, entries}
use victoria.App.Core.Laws.{audit-frame}
use victoria.App.Queries.{Aggregates, aggregate_of, aggregate_candidates}

module _ {ℓ} {A : Type ℓ} (p : A → Bool) (x : A) (xs : List A) where
  select-take : p x ≡ true → select p (x ∷ xs) ≡ x ∷ select p xs
  unfolding select
  select-take h = rw h refl

  select-skip : p x ≡ false → select p (x ∷ xs) ≡ select p xs
  unfolding select
  select-skip h = rw h refl

module _ (vertical workflow_slug : String) where
  -- the candidate is of the workflow, and it has a condition that holds it back or has none
  abbrev pub is_counted : Bool → RuleCandidate → Bool
  is_counted held c =
      c.workflow_slug == workflow_slug
      && (if held
          then any_flagged c.conditions_canonical
          else not (any_flagged c.conditions_canonical))

  -- the step adds the aggregates of these candidates and leaves the candidates in the store
  abbrev pub Adds :
      Aggregates
      → World
      → List RuleCandidate
      → List RuleCandidate
      → Result Aggregates × World
      → Type 0
  Adds found w safe held r =
      (found' : Aggregates) × (r.0 ≡ ok found')
      × (found'.safe ≡ found.safe ++ map aggregate_of safe)
      × (found'.quarantined ≡ found.quarantined ++ map aggregate_of held)
      × (r.1.store.candidates ≡ w.store.candidates)

  module _ (env : Env) (tenant_id : String) where
    -- one round of the loop, where the candidate is held back
    round-held :
        (c : RuleCandidate) (cs : List RuleCandidate) (found : Aggregates) (w : World)
        → (c.workflow_slug == workflow_slug) ≡ true
        → (redact_aggregate_conditions c.conditions_canonical).quarantine ≡ true
        → (w' : World) × (w'.store.candidates ≡ w.store.candidates)
          × (aggregate_candidates env vertical workflow_slug tenant_id found (c ∷ cs) w
              ≡ aggregate_candidates env vertical workflow_slug tenant_id
                  (record found { quarantined = found.quarantined ++ aggregate_of c ∷ [] })
                  cs
                  w')
    unfolding aggregate_candidates ◌>>=◌ ignore
    round-held c cs found w e q = (
      (audit env tenant_id "aggregate_quarantined" "system" "aggregation" "rule_candidate" c.id none
          (entries (("workflow_slug", text c.workflow_slug) ∷ []))
          ("aggregate-quarantine" ∷ tenant_id ∷ c.id ∷ []) w).1,
      ap (λ (v : World). v.store.candidates) (audit-frame env _ _ _ _ _ _ _ _ _ _),
      rw (e, q) refl,
    )

    round-shown :
        (c : RuleCandidate) (cs : List RuleCandidate) (found : Aggregates) (w : World)
        → (c.workflow_slug == workflow_slug) ≡ true
        → (redact_aggregate_conditions c.conditions_canonical).quarantine ≡ false
        → aggregate_candidates env vertical workflow_slug tenant_id found (c ∷ cs) w
          ≡ aggregate_candidates env vertical workflow_slug tenant_id
              (record found { safe = found.safe ++ aggregate_of c ∷ [] })
              cs
              w
    unfolding aggregate_candidates
    round-shown c cs found w e q = rw (e, q) refl

    pub aggregate_candidates-Adds :
        (cs : List RuleCandidate) (found : Aggregates) (w : World)
        → Adds found w
            (select (is_counted false) cs)
            (select (is_counted true) cs)
            (aggregate_candidates env vertical workflow_slug tenant_id found cs w)
    unfolding aggregate_candidates pure select
    aggregate_candidates-Adds [] found w =
        (found, refl, sym (append-nil _), sym (append-nil _), refl)
    aggregate_candidates-Adds (c ∷ cs) found w =
        elim (Bool-cases (c.workflow_slug == workflow_slug)) [
          | inr e ↦ rw e (aggregate_candidates-Adds cs found w)
          | inl e ↦
              let flag = sym (redact_aggregate_conditions-safe c.conditions_canonical).1 in
              elim (Bool-cases (redact_aggregate_conditions c.conditions_canonical).quarantine) [
                | inl q ↦
                    let (w', same, run) = round-held c cs found w e q in
                    let (found', returned, safe, held, kept) =
                      aggregate_candidates-Adds cs
                        (record found { quarantined = found.quarantined ++ aggregate_of c ∷ [] })
                        w' in
                    (
                      found',
                      ap (λ (r : Result Aggregates × World). r.0) run ∙ returned,
                      safe
                          ∙ ap (λ xs. found.safe ++ map aggregate_of xs)
                              (sym (select-skip (is_counted false) c cs (rw (e, flag ∙ q) refl))),
                      held
                          ∙ append_assoc found.quarantined _ _
                          ∙ ap (λ xs. found.quarantined ++ map aggregate_of xs)
                              (sym (select-take (is_counted true) c cs (rw (e, flag ∙ q) refl))),
                      ap (λ (r : Result Aggregates × World). r.1.store.candidates) run
                          ∙ kept
                          ∙ same,
                    )
                | inr q ↦
                    let run = round-shown c cs found w e q in
                    let (found', returned, safe, held, kept) =
                      aggregate_candidates-Adds cs
                        (record found { safe = found.safe ++ aggregate_of c ∷ [] }) w in
                    (
                      found',
                      ap (λ (r : Result Aggregates × World). r.0) run ∙ returned,
                      safe
                          ∙ append_assoc found.safe _ _
                          ∙ ap (λ xs. found.safe ++ map aggregate_of xs)
                              (sym (select-take (is_counted false) c cs (rw (e, flag ∙ q) refl))),
                      held
                          ∙ ap (λ xs. found.quarantined ++ map aggregate_of xs)
                              (sym (select-skip (is_counted true) c cs (rw (e, flag ∙ q) refl))),
                      ap (λ (r : Result Aggregates × World). r.1.store.candidates) run ∙ kept,
                    )
              ]
        ]
