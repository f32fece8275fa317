-- ===== src/App/Queries/Newest.antt =====
-- ListAuditEvents of internal/app/app.go: the order of the store's list and the limit.
use victoria.Prelude.{
  ℕ, zero, suc, ◌-◌, ◌≤◌, ◌≡◌, refl, sym, subst, ap, ◌∙◌, arith, String, Bool, true, false, List,
  [], ◌∷◌, ◌++◌, ◌==◌, ◌&&◌, ◌||◌, if◌then◌else◌, ltb, eqb, length, Bool-cases, inl, inr,
}
use victoria.Exec.{ok, pure, ◌>>=◌}
use victoria.GoMap.{select, values}
use victoria.Sort.{sort_by, insert_sorted}
use victoria.Domain.{Time, AuditEvent}
use victoria.Memory.Audit.{earlier, list_audit_events}
use victoria.App.{World}
use victoria.App.Helpers.{contains}
use victoria.App.Core.{in_store}
use victoria.App.Queries.{drop, filter_events, audit_events_of}

module _ {ℓ} {A : Type ℓ} where
  drop-suffix : (n : ℕ) (xs : List A) → (front : List A) × (front ++ drop n xs ≡ xs)
  unfolding drop
  drop-suffix zero xs = ([], refl)
  drop-suffix (suc n) [] = ([], refl)
  drop-suffix (suc n) (x ∷ xs) =
      let (front, e) = drop-suffix n xs in (x ∷ front, ap (λ ys. x ∷ ys) e)

  length-drop : (n : ℕ) (xs : List A) → length (drop n xs) ≡ length xs - n
  unfolding drop
  length-drop zero xs = omega arith
  length-drop (suc n) [] = omega arith
  length-drop (suc n) (x ∷ xs) = omega (arith, length-drop n xs)

-- no event of the list is before the time
abbrev pub NoneBefore : Time → List AuditEvent → Type 0
NoneBefore t [] = Unit
NoneBefore t (e ∷ es) = (t ≤ e.occurred_at) × NoneBefore t es

-- no event of the second list is before an event of the first one
abbrev pub AllBefore : List AuditEvent → List AuditEvent → Type 0
AllBefore [] kept = Unit
AllBefore (e ∷ es) kept = NoneBefore e.occurred_at kept × AllBefore es kept

abbrev Ascending : List AuditEvent → Type 0
Ascending [] = Unit
Ascending (e ∷ es) = NoneBefore e.occurred_at es × Ascending es

NoneBefore-sooner :
    (s t : Time) → s ≤ t → (es : List AuditEvent) → NoneBefore t es → NoneBefore s es
NoneBefore-sooner s t h [] n = tt
NoneBefore-sooner s t h (e ∷ es) n = (omega (arith, h, n.0), NoneBefore-sooner s t h es n.1)

NoneBefore-insert :
    (t : Time) (e : AuditEvent) (es : List AuditEvent)
    → t ≤ e.occurred_at
    → NoneBefore t es
    → NoneBefore t (insert_sorted earlier e es)
unfolding insert_sorted
NoneBefore-insert t e [] h n = (h, tt)
NoneBefore-insert t e (f ∷ es) h n = elim (Bool-cases (earlier f e)) [
  | inl b ↦ rw b (n.0, NoneBefore-insert t e es h n.1)
  | inr b ↦ rw b (h, n)
]

earlier-true : (a b : AuditEvent) → earlier a b ≡ true → a.occurred_at ≤ b.occurred_at
unfolding earlier
earlier-true a b h = ground arith

earlier-false : (a b : AuditEvent) → earlier a b ≡ false → b.occurred_at ≤ a.occurred_at
unfolding earlier
earlier-false a b h = ground arith

Ascending-insert :
    (e : AuditEvent) (es : List AuditEvent) → Ascending es → Ascending (insert_sorted earlier e es)
unfolding insert_sorted
Ascending-insert e [] a = (tt, tt)
Ascending-insert e (f ∷ es) a = elim (Bool-cases (earlier f e)) [
  | inl b ↦
      rw b
        (NoneBefore-insert f.occurred_at e es (earlier-true f e b) a.0, Ascending-insert e es a.1)
  | inr b ↦
      let h = earlier-false f e b in
      rw b ((h, NoneBefore-sooner e.occurred_at f.occurred_at h es a.0), a)
]

Ascending-sort : (es : List AuditEvent) → Ascending (sort_by earlier es)
unfolding sort_by
Ascending-sort [] = tt
Ascending-sort (e ∷ es) = Ascending-insert e (sort_by earlier es) (Ascending-sort es)

module _ (p : AuditEvent → Bool) where
  NoneBefore-select :
      (t : Time) (es : List AuditEvent) → NoneBefore t es → NoneBefore t (select p es)
  unfolding select
  NoneBefore-select t [] n = tt
  NoneBefore-select t (e ∷ es) n = elim (Bool-cases (p e)) [
    | inl b ↦ rw b (n.0, NoneBefore-select t es n.1)
    | inr b ↦ rw b (NoneBefore-select t es n.1)
  ]

  Ascending-select : (es : List AuditEvent) → Ascending es → Ascending (select p es)
  unfolding select
  Ascending-select [] a = tt
  Ascending-select (e ∷ es) a = elim (Bool-cases (p e)) [
    | inl b ↦ rw b (NoneBefore-select e.occurred_at es a.0, Ascending-select es a.1)
    | inr b ↦ rw b (Ascending-select es a.1)
  ]

NoneBefore-suffix :
    (t : Time) (front kept : List AuditEvent) → NoneBefore t (front ++ kept) → NoneBefore t kept
NoneBefore-suffix t [] kept n = n
NoneBefore-suffix t (e ∷ front) kept n = NoneBefore-suffix t front kept n.1

Ascending-AllBefore :
    (front kept : List AuditEvent) → Ascending (front ++ kept) → AllBefore front kept
Ascending-AllBefore [] kept a = tt
Ascending-AllBefore (e ∷ front) kept a =
    (NoneBefore-suffix e.occurred_at front kept a.0, Ascending-AllBefore front kept a.1)

-- the events of the types that are asked for, all of them where no type is
abbrev pub wanted : List String → List AuditEvent → List AuditEvent
wanted event_types events =
    if eqb (length event_types) 0
    then events
    else select (λ (e : AuditEvent). contains event_types e.event_type) events

filter_events-end :
    (event_types : List String) (limit : ℕ) (events : List AuditEvent)
    → ((front : List AuditEvent) × (front ++ filter_events event_types limit events
          ≡ wanted event_types events))
      × (length (filter_events event_types limit events) ≡ (
          if ltb 0 limit && ltb limit (length (wanted event_types events))
          then limit
          else length (wanted event_types events)))
unfolding filter_events
filter_events-end event_types limit events =
    elim (Bool-cases (ltb 0 limit && ltb limit (length (wanted event_types events)))) [
      | inl e ↦ rw e (
        drop-suffix _ _,
        length-drop (length (wanted event_types events) - limit) (wanted event_types events)
            ∙ at_limit (length (wanted event_types events)) e,
      )
      | inr e ↦ rw e (([], refl), refl)
    ]
  where
    at_limit : (n : ℕ) → (ltb 0 limit && ltb limit n) ≡ true → n - (n - limit) ≡ limit
    at_limit n h = ground arith

wanted-Ascending :
    (event_types : List String) (events : List AuditEvent)
    → Ascending events
    → Ascending (wanted event_types events)
wanted-Ascending event_types events a = elim (Bool-cases (eqb (length event_types) 0)) [
  | inl e ↦ rw e a
  | inr e ↦ rw e (Ascending-select _ events a)
]

module _ (tenant_id : String) (event_types : List String) (limit : ℕ) (w : World) where
  -- the events of the store that are asked for: those of the tenant, or of all tenants where none
  -- is named
  abbrev pub asked_for : List AuditEvent
  asked_for = wanted event_types (
      sort_by earlier (
        select (λ (e : AuditEvent). tenant_id == "" || e.tenant_id == tenant_id)
          (values w.store.audit_events)))

  -- The list of audit events is always answered. It is the end of the list of the events that are
  -- asked for, and no event that is left out is later than one that is answered. All of them are
  -- answered where the limit is 0 or is not below their number, and otherwise as many as the limit
  -- says.
  pub audit_events_of-newest :
      (kept front : List AuditEvent) × ((audit_events_of tenant_id event_types limit w).0 ≡ ok kept)
      × (front ++ kept ≡ asked_for)
      × AllBefore front kept
      × (length kept
          ≡ (if ltb 0 limit && ltb limit (length asked_for) then limit else length asked_for))
  unfolding audit_events_of list_audit_events in_store pure ◌>>=◌
  audit_events_of-newest =
      let ((front, e), size) = filter_events-end event_types limit _ in
      (
        _,
        front,
        refl,
        e,
        Ascending-AllBefore front _
            (subst Ascending (sym e) (wanted-Ascending event_types _ (Ascending-sort _))),
        size,
      )
