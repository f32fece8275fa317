-- ===== src/App/Ingestion/Replays.antt =====
-- IngestCustomerMessageWithPacket of internal/app/app.go for a message that has a case.
use victoria.Prelude.{suc, String, false, none, some, ◌≡◌, refl, ◌==◌}
use victoria.Exec.{ok, throw_if, gets, pure, ◌>>=◌}
use victoria.GoMap.{get}
use victoria.Domain.{CustomerMessage, Tenant}
use victoria.Memory.{triple_key}
use victoria.Memory.Tenants.{get_tenant}
use victoria.Memory.Customers.{create_customer_message}
use victoria.App.{Env, World}
use victoria.App.Core.{in_store, clock_now, new_id}
use victoria.App.Ingestion.{IngestionEvent, trimmed, incomplete, ingest_customer_message}

-- the message of the event, as the store has it
abbrev pub key_of : IngestionEvent → String
key_of event =
    triple_key (trimmed event).tenant_id (trimmed event).channel (trimmed event).source_message_id

module _ (env : Env) (event : IngestionEvent) (w : World) (tenant : Tenant) (id : String)
    (msg : CustomerMessage) where
  -- A message that has a case starts nothing, sends nothing and stores nothing: the answer is its
  -- case, without a packet. Only the counter behind the identifiers moves.
  pub ingest_customer_message-again :
      incomplete (trimmed event) ≡ false
      → get (trimmed event).tenant_id w.store.tenants ≡ some tenant
      → get (key_of event) w.store.customer_by_key ≡ some id
      → get id w.store.customer_msgs ≡ some msg
      → (msg.case_run_id == "") ≡ false
      → ingest_customer_message env event w ≡ (
        ok (record { case_run_id = msg.case_run_id; packet = none }),
        record w { ids_made = suc w.ids_made },
      )
  unfolding ingest_customer_message ◌>>=◌ throw_if in_store clock_now gets new_id
      create_customer_message get_tenant trimmed pure get
  ingest_customer_message-again h t k m c = rw h (rw t (rw k (rw m (rw c refl))))
