-- ===== src/Domain/Channels.antt =====
-- Channel bindings, the messages in and out, and the outbound queue.
use victoria.Prelude.{String, Bool, Option, List, ℕ}
use victoria.Domain.Names.{Time, SessionStatus, InboundMode}
use victoria.Domain.Values.{Payload}

pub record ChannelBinding : Type 0 where
  pub tenant_id : String
  pub channel : String
  pub provider_number : String
  pub operator_id : String
  pub session_status : SessionStatus
  pub session_updated : Time
  pub inbound_mode : InboundMode
  pub command_identities : List String
  pub customer_allowlist : List String
  pub consent_acknowledged_at : Option Time
  pub customer_intake_paused_until : Option Time
  pub retention_minutes : ℕ
  pub draft_delivery_jid : String
  pub operator_jid : String
  pub telegram_customer_chats : List String
  pub command_registration_secret : String
  pub command_secret_consumed_at : Option Time
  pub last_repair_at : Option Time
  pub ban_grace_hours : ℕ
  pub customer_outbound_paused_until : Option Time

pub record CustomerMessage : Type 0 where
  pub id : String
  pub tenant_id : String
  pub channel : String
  pub source_message_id : String
  pub customer_identifier : String
  pub received_at : Time
  pub subject : String
  pub body_text : String
  pub metadata : Payload
  pub case_run_id : String
  pub status : String

pub record OutboundToCustomer : Type 0 where
  pub id : String
  pub tenant_id : String
  pub case_run_id : String
  pub channel : String
  pub recipient_identifier : String
  pub body_hash : String
  pub mcp_approval_audit_id : String
  pub provider_message_id : String
  pub sent_at : Option Time
  pub status : String

pub record OutboundQueueEntry : Type 0 where
  pub id : String
  pub tenant_id : String
  pub channel : String
  pub packet_id : String
  pub idempotency_key : String
  pub enqueued_at : Time

-- internal/channel/adapter.go
pub record ButtonSpec : Type 0 where
  pub id : String
  pub label : String

pub record OutboundMessage : Type 0 where
  pub tenant_id : String
  pub recipient_identifier : String
  pub packet_id : String
  pub body_text : String
  pub buttons : List ButtonSpec
  pub idempotency_key : String

pub record DeliveryReceipt : Type 0 where
  pub provider_message_id : String
  pub sent_at : Time

pub record InboundMessage : Type 0 where
  pub sender_identifier : String
  pub sender_jid : String
  pub provider_message_id : String
  pub channel : String
  pub button_payload : String
  pub free_text : String
  pub received_at : Time
  pub is_from_me : Bool
