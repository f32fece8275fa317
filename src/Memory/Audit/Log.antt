-- ===== src/Memory/Audit/Log.antt =====
-- CreateAuditEvent of internal/store/memory/store.go, called again.
use victoria.Prelude.{
  sym, subst, ◌⊎◌, true, none, some, String, false, ◌≡◌, refl, ◌∙◌, ◌==◌, Option-cases, inl, inr,
}
use victoria.Exec.{ok}
use victoria.GoMap.{get}
use victoria.GoMap.Laws.{get-put, get-put_self}
use victoria.Domain.{AuditEvent}
use victoria.Memory.{Store}
use victoria.Memory.Audit.{create_audit_event}

-- a stored event: new in the log, at its identifier and its key; or its key was there and the store
-- is left alone
abbrev pub IsLogged : AuditEvent → Store → Type 0
IsLogged event s =
    ((get event.idempotency_key s.audit_by_key ≡ none)
      × ((create_audit_event event s).0 ≡ ok true)
      × (get event.id (create_audit_event event s).1.audit_events ≡ some event))
    ⊎ ((id : String) × (get event.idempotency_key s.audit_by_key ≡ some id)
        × (create_audit_event event s ≡ (ok false, s)))

log_event : (event : AuditEvent) (s : Store) → IsLogged event s
unfolding create_audit_event
log_event event s = elim (Option-cases (get event.idempotency_key s.audit_by_key)) [
  | inl h ↦
      inl (h, rw (h, create_audit_event) refl, rw (h, create_audit_event) (get-put_self _ _ _))
  | inr (id, h) ↦ inr (id, h, rw (h, create_audit_event) refl)
]

-- what stands at an idempotency key that the log has leaves every event of that key out
known :
    (again : AuditEvent) (s : Store) {id : String}
    → get again.idempotency_key s.audit_by_key ≡ some id
    → create_audit_event again s ≡ (ok false, s)
unfolding create_audit_event
known again s h = rw (h, create_audit_event) refl

key_stays :
    (event : AuditEvent) (s : Store)
    → (id : String) × (get event.idempotency_key (create_audit_event event s).1.audit_by_key
        ≡ some id)
unfolding create_audit_event
key_stays event s = elim (Option-cases (get event.idempotency_key s.audit_by_key)) [
  | inl h ↦ (event.id, rw (h, create_audit_event) (get-put_self _ _ _))
  | inr (id, h) ↦ (id, rw (h, create_audit_event) h)
]

others :
    (event : AuditEvent) (s : Store) (id : String)
    → (event.id == id) ≡ false
    → get id (create_audit_event event s).1.audit_events ≡ get id s.audit_events
unfolding create_audit_event
others event s id n = elim (Option-cases (get event.idempotency_key s.audit_by_key)) [
  | inr (j, h) ↦ rw (h, create_audit_event) refl
  | inl h ↦ rw (h, create_audit_event) (get-put event.id id event s.audit_events ∙ rw n refl)
]

-- An event is stored exactly if the log does not have its idempotency key. From then on no event of
-- that key changes the store, whatever its identifier and its contents; and the event itself takes
-- the place of no event with another identifier.
pub create_audit_event-once :
    (event again : AuditEvent) (s : Store)
    → again.idempotency_key ≡ event.idempotency_key
    → IsLogged event s
      × (create_audit_event again (create_audit_event event s).1
          ≡ (ok false, (create_audit_event event s).1))
      × ((id : String)
          → (event.id == id) ≡ false
          → get id (create_audit_event event s).1.audit_events ≡ get id s.audit_events)
create_audit_event-once event again s same =
    let (id, there) = key_stays event s in
    (
      log_event event s,
      known again (create_audit_event event s).1 (
          subst (λ k. get k (create_audit_event event s).1.audit_by_key ≡ some id) (sym same)
            there),
      others event s,
    )
