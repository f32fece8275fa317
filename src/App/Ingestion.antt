-- ===== src/App/Ingestion.antt =====
-- IngestCustomerMessageWithPacket of internal/app/app.go and payloadFromIngestionEvent of
-- internal/app/helpers.go: a customer's message starts a sandbox case, once.
pub mod Replays
use Prim.Native.String.{len, slice}
use victoria.Prelude.{
  String, Bool, true, false, Option, none, some, List, [], ◌∷◌, ◌++◌, ◌==◌, ◌||◌, not,
  if◌then◌else◌, ltb, leb, eqb,
}
use victoria.Exec.{
  Result, ok, err, invalid_input, Exec, pure, throw, throw_if, attempt, ignore, ◌>>=◌, ◌>>◌,
}
use victoria.GoMap.{GoMap}
use victoria.Text.{trim_space}
use victoria.Domain.{
  Time, mode_sandbox, text, flag, other, Value, Payload, ReviewPacket, CustomerMessage,
}
use victoria.Memory.Tenants.{get_tenant}
use victoria.Memory.Customers.{create_customer_message, update_customer_message_case}
use victoria.App.{Env, World}
use victoria.App.Core.{in_store, clock_now, new_id, audit, entries}
use victoria.App.Cases.{Started, StartCaseInput, start_case}

pub record IngestionEvent : Type 0 where
  pub tenant_id : String
  pub channel : String
  pub source_message_id : String
  pub customer_identifier : String
  pub received_at : Time
  pub subject : String
  pub body_text : String
  pub metadata : Payload

-- excerpt(value, 180); the cut takes whole characters here
excerpt : String → String
excerpt value =
    let clean = trim_space value in
    if leb (len clean) 180 then clean else trim_space (slice clean 0 180)

unfoldable pub trimmed : IngestionEvent → IngestionEvent
trimmed event = record event {
  tenant_id = trim_space event.tenant_id;
  channel = trim_space event.channel;
  source_message_id = trim_space event.source_message_id;
  customer_identifier = trim_space event.customer_identifier;
  body_text = trim_space event.body_text;
}

unfoldable pub incomplete : IngestionEvent → Bool
incomplete event =
    event.tenant_id == ""
    || (event.channel == ""
        || (event.source_message_id == ""
            || (event.customer_identifier == "" || event.body_text == "")))

-- the outcome: the case, and its packet unless the message was seen before
abbrev pub Ingested : Type 0
Ingested = record { case_run_id : String; packet : Option ReviewPacket }

module _ (env : Env) where
  abbrev metadata_entry : Payload → GoMap Value
  metadata_entry none = []
  metadata_entry (some []) = []
  metadata_entry (some (e ∷ m)) = ("metadata", other (env.print_map (e ∷ m))) ∷ []

  unfoldable payload_from_ingestion_event : IngestionEvent → Payload
  unfolding excerpt
  payload_from_ingestion_event event = entries (
      (("sandbox", flag true)
        ∷ ("source_channel", text event.channel)
        ∷ ("source_message_id", text event.source_message_id)
        ∷ ("customer_identifier", text event.customer_identifier)
        ∷ ("received_at", text (env.format_time event.received_at))
        ∷ ("body_text", text event.body_text)
        ∷ ("message_excerpt", text (excerpt event.body_text))
        ∷ ("from", text event.customer_identifier)
        ∷ [])
      ++ ((if trim_space event.subject == ""
            then []
            else ("subject", text (trim_space event.subject)) ∷ [])
          ++ metadata_entry event.metadata))

  -- a failed start marks the message and passes the error on
  started_or_failed : IngestionEvent → Result Started → Exec World Started
  started_or_failed event (ok started) = pure started
  started_or_failed event (err e) = do
    ignore (
        in_store (
          update_customer_message_case event.tenant_id event.channel event.source_message_id ""
            "failed"))
    throw e

  -- the part behind the look-up of the message
  run_case : IngestionEvent → CustomerMessage → Exec World Ingested
  unfolding started_or_failed
  run_case event msg = do
    outcome ← attempt (
        start_case env (record {
          tenant_id = event.tenant_id;
          workflow_slug = "enquiry_triage";
          mode = mode_sandbox;
          payload = payload_from_ingestion_event event;
        }))
    started ← started_or_failed event outcome
    in_store (
        update_customer_message_case event.tenant_id event.channel event.source_message_id
          (started.run).id "ingested")
    audit env event.tenant_id "customer_message_received" "customer" event.customer_identifier
        "customer_message" msg.id (entries (("case_run_id", text (started.run).id) ∷ []))
        (entries (
          ("channel", text event.channel)
          ∷ ("source_message_id", text event.source_message_id)
          ∷ ("customer_identifier", text event.customer_identifier)
          ∷ []))
        ("customer-message-received" ∷ event.tenant_id ∷ event.channel ∷ event.source_message_id
          ∷ [])
    pure (record { case_run_id = (started.run).id; packet = some started.packet })

  pub ingest_customer_message : IngestionEvent → Exec World Ingested
  unfolding run_case
  ingest_customer_message raw = do
    throw_if (incomplete (trimmed raw)) invalid_input
    now ← clock_now
    let event = record (trimmed raw) {
      received_at = if eqb raw.received_at 0 then now else raw.received_at;
    }
    in_store (get_tenant event.tenant_id)
    id ← new_id env "cm"
    let msg : CustomerMessage = record {
      id = id;
      tenant_id = event.tenant_id;
      channel = event.channel;
      source_message_id = event.source_message_id;
      customer_identifier = event.customer_identifier;
      received_at = event.received_at;
      subject = event.subject;
      body_text = event.body_text;
      metadata = event.metadata;
      case_run_id = "";
      status = "ingested";
    }
    found ← in_store (create_customer_message msg)
    if found.created
        then run_case event msg
        else if not ((found.stored).case_run_id == "")
        then pure (record { case_run_id = (found.stored).case_run_id; packet = none })
        else run_case event found.stored
