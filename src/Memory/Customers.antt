-- ===== src/Memory/Customers.antt =====
-- Messages from customers and messages sent to them, each stored once by a key of its own.
use victoria.Prelude.{String, Bool, true, false, Option, none, some, ◌==◌, ◌&&◌, not, if◌then◌else◌}
use victoria.Exec.{ok, err, not_found, Exec}
use victoria.GoMap.{get, put}
use victoria.Domain.{CustomerMessage, OutboundToCustomer}
use victoria.Memory.{Store, triple_key}

-- the zero value, which a read of a missing key answers
abbrev pub no_message : CustomerMessage
no_message = record {
  id = "";
  tenant_id = "";
  channel = "";
  source_message_id = "";
  customer_identifier = "";
  received_at = 0;
  subject = "";
  body_text = "";
  metadata = none;
  case_run_id = "";
  status = "";
}

abbrev pub no_outbound : OutboundToCustomer
no_outbound = record {
  id = "";
  tenant_id = "";
  case_run_id = "";
  channel = "";
  recipient_identifier = "";
  body_hash = "";
  mcp_approval_audit_id = "";
  provider_message_id = "";
  sent_at = none;
  status = "";
}

abbrev pub or_zero {ℓ} : {V : Type ℓ} → V → Option V → V
or_zero zero none = zero
or_zero zero (some v) = v

unfoldable pub create_customer_message :
    CustomerMessage → Exec Store (record { created : Bool; stored : CustomerMessage })
create_customer_message msg s =
    elim (get (triple_key msg.tenant_id msg.channel msg.source_message_id) s.customer_by_key) [
      | some id ↦
          (ok (record { created = false; stored = or_zero no_message (get id s.customer_msgs) }), s)
      | none ↦ (
        ok (record { created = true; stored = msg }),
        record s {
          customer_msgs = put msg.id msg s.customer_msgs;
          customer_by_key =
              put (triple_key msg.tenant_id msg.channel msg.source_message_id) msg.id
                s.customer_by_key;
        },
      )
    ]

unfoldable customer_message_by_source : String → String → String → Exec Store CustomerMessage
customer_message_by_source tenant_id channel source_message_id s =
    elim (get (triple_key tenant_id channel source_message_id) s.customer_by_key) [
      | none ↦ (err not_found, s)
      | some id ↦ (ok (or_zero no_message (get id s.customer_msgs)), s)
    ]

unfoldable pub update_customer_message_case :
    String → String → String → String → String → Exec Store (Unit {0})
update_customer_message_case tenant_id channel source_message_id case_run_id status s =
    elim (get (triple_key tenant_id channel source_message_id) s.customer_by_key) [
      | none ↦ (err not_found, s)
      | some id ↦
          let msg = or_zero no_message (get id s.customer_msgs) in
          (
            ok tt,
            record s {
              customer_msgs =
                  put id (record msg { case_run_id = case_run_id; status = status })
                    s.customer_msgs;
            },
          )
    ]

unfoldable pub upsert_outbound_to_customer :
    OutboundToCustomer → Exec Store (record { created : Bool; stored : OutboundToCustomer })
upsert_outbound_to_customer out s =
    elim (get (triple_key out.tenant_id out.case_run_id out.body_hash) s.out_by_key) [
      | some id ↦
          let existing = or_zero no_outbound (get id s.customer_out) in
          let merged = record out { id = existing.id } in
          if not (existing.status == "sent") && out.status == "sent"
          then (
            ok (record { created = false; stored = merged }),
            record s { customer_out = put id merged s.customer_out },
          )
          else (ok (record { created = false; stored = existing }), s)
      | none ↦ (
        ok (record { created = true; stored = out }),
        record s {
          customer_out = put out.id out s.customer_out;
          out_by_key =
              put (triple_key out.tenant_id out.case_run_id out.body_hash) out.id s.out_by_key;
        },
      )
    ]

unfoldable outbound_to_customer_by_case_and_hash :
    String → String → String → Exec Store OutboundToCustomer
outbound_to_customer_by_case_and_hash tenant_id case_run_id body_hash s =
    elim (get (triple_key tenant_id case_run_id body_hash) s.out_by_key) [
      | none ↦ (err not_found, s)
      | some id ↦ (ok (or_zero no_outbound (get id s.customer_out)), s)
    ]
