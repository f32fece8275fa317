-- ===== src/App/Cases/Gate.antt =====
-- The guards of StartCase and the copy of the payload in evaluateDecision, of internal/app/app.go.
use victoria.Prelude.{
  String, Bool, ap, ◌∙◌, Option-cases, inl, inr, true, false, none, some, ◌≡◌, ◌≢◌, ◌↔◌, refl,
  subst, sym, ◌==◌, ◌&&◌, ◌||◌, not, eq_iff,
}
use victoria.Exec.{Error, Result, ok, err, not_found, panic, throw_if, ◌>>=◌, or_throw, pure}
use victoria.Exec.Laws.{>>=-inv}
use victoria.GoMap.{get}
use victoria.Memory.{Store}
use victoria.Memory.Tenants.{get_tenant, get_workflow_template}
use victoria.Domain.{
  Tenant, WorkflowTemplate, Time, Payload, CaseRun, SkillVersion, mode_sandbox, bool_value, write,
  valid_for_workflow_input,
}
use victoria.App.{Env, World}
use victoria.App.Core.{in_store, new_id}
use victoria.App.Gateway.{is_ok}
use victoria.App.Cases.{StartCaseInput, start_case}
use victoria.App.Cases.Decision.{evaluate_decision}

is_ok-ok : {A : Type 0} (r : Result A) → is_ok r ≡ true → (a : A) × (r ≡ ok a)
is_ok-ok (ok a) h = (a, refl)
is_ok-ok (err e) h = cc h

throw_if-passed :
    {S : Type 0} (b : Bool) (e : Error) (s : S) {u : Unit {0}}
    → (throw_if b e s).0 ≡ ok u
    → (b ≡ false) × ((throw_if b e s).1 ≡ s)
unfolding throw_if
throw_if-passed true e s h = cc h
throw_if-passed false e s h = (refl, refl)

-- what has to hold of the input of a case before it runs
abbrev pub IsClean : StartCaseInput → Type 0
IsClean input =
    (input.tenant_id ≢ "")
    × ((input.workflow_slug ≢ "")
        × ((valid_for_workflow_input input.mode ≡ true)
            × (input.mode ≡ mode_sandbox → bool_value input.payload "sandbox" ≡ true)))

-- and of the store: its tenant and its workflow are there
abbrev pub Admitted : StartCaseInput → World → Type 0
Admitted input w =
    IsClean input
    × ((tenant : Tenant) × (get input.tenant_id w.store.tenants ≡ some tenant))
    × ((tmpl : WorkflowTemplate) × (get input.workflow_slug w.store.templates ≡ some tmpl))

-- a look-up that succeeds found its key, and leaves the store
tenant_found :
    (id : String) (s : Store) {found : Tenant}
    → (get_tenant id s).0 ≡ ok found
    → (get id s.tenants ≡ some found) × ((get_tenant id s).1 ≡ s)
unfolding get_tenant
tenant_found id s h = elim (Option-cases (get id s.tenants)) [
  | inl e ↦ let k : (get_tenant id s).0 ≡ err not_found = rw (e, get_tenant) refl in cc (h, k)
  | inr (t, e) ↦
      let k : (get_tenant id s).0 ≡ ok t = rw (e, get_tenant) refl in
      (e ∙ ap some (cc (h, k)), rw (e, get_tenant) refl)
]

template_found :
    (slug : String) (s : Store) {found : WorkflowTemplate}
    → (get_workflow_template slug s).0 ≡ ok found
    → get slug s.templates ≡ some found
unfolding get_workflow_template
template_found slug s h = elim (Option-cases (get slug s.templates)) [
  | inl e ↦
      let k : (get_workflow_template slug s).0 ≡ err not_found =
        rw (e, get_workflow_template) refl in
      cc (h, k)
  | inr (t, e) ↦
      let k : (get_workflow_template slug s).0 ≡ ok t = rw (e, get_workflow_template) refl in
      e ∙ ap some (cc (h, k))
]

or_false : (a b : Bool) → (a || b) ≡ false → (a ≡ false) × (b ≡ false)
or_false true b h = cc h
or_false false b h = (refl, h)

not-false : (b : Bool) → not b ≡ false → b ≡ true
not-false true h = refl
not-false false h = cc h

differs : {a b : String} → (a == b) ≡ false → a ≢ b
differs {a} {b} h e = cc (sym h, (eq_iff a b).1 e)

IsClean-inputs :
    (input : StartCaseInput)
    → (input.tenant_id == ""
        || (input.workflow_slug == "" || not (valid_for_workflow_input input.mode)))
      ≡ false
    → (input.mode == mode_sandbox && not (bool_value input.payload "sandbox")) ≡ false
    → IsClean input
IsClean-inputs input h k = (
  differs (or_false _ _ h).0,
  (
    differs (or_false _ _ (or_false _ _ h).1).0,
    (
      not-false _ (or_false _ _ (or_false _ _ h).1).1,
      λ e. not-false _ (
          subst (λ (b : Bool). (b && not (bool_value input.payload "sandbox")) ≡ false)
            ((eq_iff _ _).1 e) k),
    ),
  ),
)

module _ (env : Env) (input : StartCaseInput) (w : World) where
  -- A case that was started was of a tenant and of a workflow that the store has, and its mode is one
  -- that the entry point takes; a sandbox case had the mark of the sandbox in its payload: no live
  -- input runs in the sandbox.
  pub start_case-Admitted : is_ok (start_case env input w).0 ≡ true → Admitted input w
  unfolding start_case in_store
  start_case-Admitted h =
      let (_, k) = is_ok-ok (start_case env input w).0 h in
      let (_, p, q) = >>=-inv _ _ w k in
      let (_, r, q2) = >>=-inv _ _ _ q in
      let (tenant, found, q3) = >>=-inv _ _ _ q2 in
      let (tmpl, listed, _) = >>=-inv _ _ _ q3 in
      let same = (throw_if-passed _ _ _ r).1 ∙ (throw_if-passed _ _ w p).1 in
      let there = tenant_found input.tenant_id _ found in
      (
        IsClean-inputs input (throw_if-passed _ _ w p).0 (throw_if-passed _ _ _ r).0,
        (tenant, ap (λ (v : World). get input.tenant_id v.store.tenants) (sym same) ∙ there.0),
        (
          tmpl,
          ap (λ (v : World). get input.workflow_slug v.store.templates) (sym same)
              ∙ (ap (λ (s : Store). get input.workflow_slug s.templates) (sym there.1)
                  ∙ template_found input.workflow_slug _ listed),
        ),
      )

module _ (env : Env) (now : Time) (run : CaseRun) (payload : Payload) (sv : SkillVersion)
    (w : World) where
  -- The decision panics exactly on a nil payload: it writes into a copy of it, which is nil too.
  pub evaluate_decision-panics :
      ((evaluate_decision env now run payload sv w).0 ≡ err panic) ↔ (payload ≡ none)
  unfolding evaluate_decision ◌>>=◌ write or_throw new_id pure
  evaluate_decision-panics = go payload
    where
      go : (p : Payload) → ((evaluate_decision env now run p sv w).0 ≡ err panic) ↔ (p ≡ none)
      go none = ((λ _. refl), (λ _. refl))
      go (some m) = ((λ h. cc h), (λ h. cc h))
