-- ===== src/App/Core.antt =====
-- What every method of the engine is made of: the store, the clock, identifiers and audit events.
pub mod Laws
use victoria.Prelude.{suc, String, Bool, some, List}
use victoria.Exec.{ok, Exec, gets, ◌>>=◌}
use victoria.Domain.{Time, Value, Payload, sha256_key}
use victoria.Memory.{Store}
use victoria.Memory.Audit.{create_audit_event}
use victoria.App.{Env, World}

-- a call of a method of the store
unfoldable pub in_store : {A : Type 0} → Exec Store A → Exec World A
in_store m w = let (r, s) = m w.store in (r, record w { store = s })

unfoldable pub clock_now : Exec World Time
clock_now = gets (λ w. w.now)

-- a literal `map[string]any`
abbrev pub entries : List (String × Value) → Payload
entries m = some m

module _ (env : Env) where
  unfoldable pub new_id : String → Exec World String
  new_id prefix w = (ok (env.make_id prefix w.ids_made), record w { ids_made = suc w.ids_made })

  -- auditEvent of internal/app/helpers.go, then Store.CreateAuditEvent
  unfoldable pub audit :
      (tenant_id event_type actor_type actor_id ref_type ref_id : String)
      (related payload : Payload)
      → List String
      → Exec World Bool
  unfolding new_id clock_now in_store
  audit tenant_id event_type actor_type actor_id ref_type ref_id related payload key_parts = do
    id ← new_id "ae"
    now ← clock_now
    in_store (
        create_audit_event (record {
          id = id;
          tenant_id = tenant_id;
          event_type = event_type;
          actor_type = actor_type;
          actor_id = actor_id;
          ref_type = ref_type;
          ref_id = ref_id;
          related_ids = related;
          payload = payload;
          idempotency_key = sha256_key env.hashing key_parts;
          occurred_at = now;
        }))
