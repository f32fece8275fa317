-- ===== src/Memory/Audit.antt =====
-- The append-only audit log, and the signals and corrections that are seen once.
pub mod Log
use victoria.Prelude.{
  String, Bool, true, false, Option, none, some, List, ◌==◌, ◌&&◌, if◌then◌else◌, ◌||◌, ltb, eqb,
}
use victoria.Sort.{text_less, sort_by}
use victoria.Exec.{ok, err, not_found, Exec}
use victoria.GoMap.{get, put, values, select, first}
use victoria.Domain.{AuditEvent, Value, text, read}
use victoria.Memory.{Store}

-- the event is stored unless its idempotency key is there; the answer says whether it was
unfoldable pub create_audit_event : AuditEvent → Exec Store Bool
create_audit_event event s = elim (get event.idempotency_key s.audit_by_key) [
  | some id ↦ (ok false, s)
  | none ↦ (
    ok true,
    record s {
      audit_events = put event.id event s.audit_events;
      audit_by_key = put event.idempotency_key event.id s.audit_by_key;
    },
  )
]

unfoldable pub earlier : AuditEvent → AuditEvent → Bool
earlier a b =
    if eqb a.occurred_at b.occurred_at then text_less a.id b.id else ltb a.occurred_at b.occurred_at

unfoldable pub list_audit_events : String → Exec Store (List AuditEvent)
unfolding earlier
list_audit_events tenant_id s = (
  ok (
      sort_by earlier (
        select (λ (e : AuditEvent). tenant_id == "" || e.tenant_id == tenant_id)
          (values s.audit_events))),
  s,
)

-- `value == caseRunID` on an interface: true only for a string
abbrev is_text : Option Value → String → Bool
is_text (some (text v)) t = v == t
is_text _ t = false

-- the test of the loops of HasApprovalAudit and ApprovalAuditID
unfoldable pub is_approval : String → String → String → AuditEvent → Bool
is_approval tenant_id case_run_id decision_point_id event =
    event.tenant_id == tenant_id
    && (event.event_type == "approval_received"
        && (event.ref_id == decision_point_id
            && is_text (read event.related_ids "case_run_id") case_run_id))

unfoldable pub has_approval_audit : String → String → String → Exec Store Bool
unfolding is_approval
has_approval_audit tenant_id case_run_id decision_point_id s =
    elim (first (is_approval tenant_id case_run_id decision_point_id) (values s.audit_events)) [
      | some event ↦ (ok true, s)
      | none ↦ (ok false, s)
    ]

unfoldable pub approval_audit_id : String → String → String → Exec Store String
unfolding is_approval
approval_audit_id tenant_id case_run_id decision_point_id s =
    elim (first (is_approval tenant_id case_run_id decision_point_id) (values s.audit_events)) [
      | some event ↦ (ok event.id, s)
      | none ↦ (err not_found, s)
    ]

unfoldable pub seen_signal : String → Exec Store Bool
seen_signal signal_id s = elim (get signal_id s.signals) [
  | some _ ↦ (ok true, s)
  | none ↦ (ok false, s)
]

unfoldable pub mark_signal_seen : String → Exec Store (Unit {0})
mark_signal_seen signal_id s = (ok tt, record s { signals = put signal_id tt s.signals })
