-- ===== src/App/Telegram.antt =====
-- A message that comes in over Telegram: HandleTelegramInbound of internal/app/app.go, with the
-- adapter of internal/channel/telegram/adapter.go.
pub mod Misrouted
use victoria.Prelude.{String, false, none, ◌==◌, if◌then◌else◌, eqb, join}
use victoria.Exec.{Result, ok, err, failed, Exec, pure, skip, ◌>>=◌, ◌>>◌}
use victoria.Text.{trim_space}
use victoria.Domain.{
  Time, action_approve, action_wrong_action, valid_action, ChannelBinding, InboundMessage,
  OutboundMessage, DeliveryReceipt,
}
use victoria.Memory.Tenants.{channel_binding_by_tenant}
use victoria.Intent.{IntentResult, classify_intent}
use victoria.App.{Env, World}
use victoria.App.Helpers.{contains, channel_telegram}
use victoria.App.Core.{in_store}
use victoria.App.Gateway.{send_notification}
use victoria.App.Gateway.Followups.{set_pending_followup}
use victoria.App.Ingestion.{ingest_customer_message}
use victoria.App.Commands.{handle_promote_command}
use victoria.App.Operator.{dispatch_inbound, referenced_packet}

module _ (env : Env) where
  -- the switch over the intent; anything else is dropped
  telegram_intent :
      String → ChannelBinding → String → InboundMessage → IntentResult → Exec World (Unit {0})
  telegram_intent tenant_id binding packet_id msg intent =
      if intent.kind == "approve"
      then dispatch_inbound env tenant_id binding packet_id msg action_approve intent.note
      else if intent.kind == "reject_with_reason"
      then dispatch_inbound env tenant_id binding packet_id msg action_wrong_action intent.note
      else if intent.kind == "reject_need_followup"
      then (do
        set_pending_followup tenant_id packet_id
        send_notification env tenant_id
            "Got it — what should I have done instead? Just type the reason.")
      else if intent.kind == "promote"
      then handle_promote_command env tenant_id binding.operator_id
      else if intent.kind == "correction"
      then dispatch_inbound env tenant_id binding packet_id msg action_wrong_action intent.note
      else skip

  -- what is not from a customer's chat
  pub telegram_operator_message : String → ChannelBinding → InboundMessage → Exec World (Unit {0})
  unfolding telegram_intent
  telegram_operator_message tenant_id binding msg = do
    packet_id ← referenced_packet env tenant_id msg
    let action = trim_space msg.button_payload
    if valid_action action
        then dispatch_inbound env tenant_id binding packet_id msg action msg.free_text
        else telegram_intent tenant_id binding packet_id msg (classify_intent msg.free_text)

  pub handle_telegram_inbound : String → InboundMessage → Exec World (Unit {0})
  unfolding telegram_operator_message
  handle_telegram_inbound tenant_id msg = do
    binding ← in_store (channel_binding_by_tenant tenant_id channel_telegram)
    if contains binding.telegram_customer_chats msg.sender_identifier
        then (do
          ingest_customer_message env (record {
            tenant_id = tenant_id;
            channel = "telegram";
            source_message_id = msg.provider_message_id;
            customer_identifier = msg.sender_identifier;
            received_at = msg.received_at;
            subject = "";
            body_text = msg.free_text;
            metadata = none;
          })
          pure tt)
        else telegram_operator_message tenant_id binding msg

-- SendOutbound of the Telegram adapter, where time.Now answers `now`
unfoldable telegram_send_outbound : Time → OutboundMessage → Result DeliveryReceipt
telegram_send_outbound now msg =
    if msg.packet_id == ""
    then err failed
    else ok (record { provider_message_id = join "tg:" msg.packet_id; sent_at = now })

-- the fields of a webhook, decoded
pub record Webhook : Type 0 where
  pub chat_id : String
  pub provider_number : String
  pub message_id : String
  pub button_payload : String
  pub text : String
  -- what time.Parse answers for the time stamp: the zero time beside an error
  pub timestamp : Time

-- NormalizeInboundWebhook behind the JSON decoder
unfoldable normalize_inbound_webhook : Time → Webhook → InboundMessage
normalize_inbound_webhook now raw = record {
  sender_identifier = if raw.provider_number == "" then raw.chat_id else raw.provider_number;
  sender_jid = "";
  provider_message_id = raw.message_id;
  channel = channel_telegram;
  button_payload = raw.button_payload;
  free_text = raw.text;
  received_at = if eqb raw.timestamp 0 then now else raw.timestamp;
  is_from_me = false;
}
