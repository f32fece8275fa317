-- ===== src/App/Core/Laws.antt =====
-- auditEvent of internal/app/helpers.go with Store.CreateAuditEvent: its answer and what it writes.
use victoria.Prelude.{suc, refl, String, ◌≡◌, refl, Bool, true, false, Option-cases, List, inl, inr}
use victoria.Exec.{ok, Exec, ◌>>=◌}
use victoria.Exec.Laws.{>>=-ok}
use victoria.GoMap.{get}
use victoria.Domain.{Payload, sha256_key}
use victoria.Memory.Audit.{create_audit_event}
use victoria.App.{Env, World}
use victoria.App.Core.{audit}

module _ (env : Env) (a b c d e f : String) (related payload : Payload) (keys : List String)
    (w : World) where
  pub audit_total : (stored : Bool) × ((audit env a b c d e f related payload keys w).0 ≡ ok stored)
  unfolding audit ◌>>=◌ create_audit_event get
  audit_total = elim (Option-cases (get (sha256_key env.hashing keys) w.store.audit_by_key)) [
    | inl h ↦ (true, rw h)
    | inr (id, h) ↦ (false, rw h)
  ]

  pub audit-then :
      {A : Type 0} (next : Exec World A)
      → (audit env a b c d e f related payload keys >>= λ _. next) w
        ≡ next (audit env a b c d e f related payload keys w).1
  audit-then next = >>=-ok (audit env a b c d e f related payload keys) (λ _. next) w audit_total.1

  -- what an audit event can change: the log, and the number of identifiers made
  pub audit-frame : (audit env a b c d e f related payload keys w).1 ≡ record w {
    ids_made = suc w.ids_made;
    store = record w.store {
      audit_events = (audit env a b c d e f related payload keys w).1.store.audit_events;
      audit_by_key = (audit env a b c d e f related payload keys w).1.store.audit_by_key;
    };
  }
  unfolding audit ◌>>=◌ create_audit_event get
  audit-frame = elim (Option-cases (get (sha256_key env.hashing keys) w.store.audit_by_key)) [
    | inl h ↦ rw h refl
    | inr (id, h) ↦ rw h refl
  ]
