-- ===== src/App/Operator.antt =====
-- A message that comes in over WhatsApp: HandleWhatsAppInbound, routeWhatsAppCustomerMessage and
-- dispatchInbound of internal/app/app.go.
pub mod Isolation
use victoria.Prelude.{
  ℕ, String, Bool, true, false, Option, none, some, List, [], ◌∷◌, ◌==◌, ◌&&◌, ◌||◌, not,
  if◌then◌else◌, ltb, join,
}
use victoria.Exec.{Result, ok, err, Exec, pure, attempt, ignore, gets, skip, ◌>>=◌, ◌>>◌}
use victoria.Text.{trim_space}
use victoria.Domain.{
  Time, text, ActionButton, action_approve, action_wrong_action, action_wrong_facts,
  action_missing_condition, action_use_different_template, action_add_note, valid_action,
  parse_inbound_mode, inbound_read_only, ChannelBinding, InboundMessage, ReviewPacket,
}
use victoria.Memory.Tenants.{channel_binding_by_tenant}
use victoria.Memory.Packets.{latest_review_packet}
use victoria.Intent.{IntentResult, classify_intent, extract_packet_reference}
use victoria.App.{Env, World}
use victoria.App.Helpers.{normalize_inbound_jid, contains, channel_whatsapp}
use victoria.App.Core.{in_store, clock_now, audit, entries}
use victoria.App.Gateway.{send_notification}
use victoria.App.Gateway.Followups.{
  Consumed, set_pending_followup, set_pending_followup_action, consume_pending_followup,
}
use victoria.App.Gateway.Inbound.{receive_inbound}
use victoria.App.Signals.{persist_signal}
use victoria.App.Ingestion.{ingest_customer_message}
use victoria.App.Commands.{handle_whatsapp_command, handle_promote_command}

unfoldable followup_prompt_for : ActionButton → String
followup_prompt_for action =
    if action == action_wrong_facts
    then "Got it — which fact is wrong, and what should it be?"
    else if action == action_missing_condition
    then "Got it — what condition did I miss? Just type it."
    else if action == action_use_different_template
    then "Got it — which template should I use instead?"
    else if action == action_add_note
    then "Sure — what note should I add?"
    else "Got it — what should I have done instead? Just type the reason."

module _ (env : Env) where
  -- a signal that cannot be placed is recorded and dropped
  dead_letter :
      String
      → ChannelBinding
      → String
      → InboundMessage
      → List (String × ActionButton)
      → Exec World (Unit {0})
  dead_letter tenant_id binding packet_id msg extra = ignore (
      audit env tenant_id "correction_dead_lettered" "operator" binding.operator_id "message"
        msg.provider_message_id none
        (entries (
          ("channel", text channel_whatsapp)
          ∷ ("packet_id", text packet_id)
          ∷ ("free_text", text msg.free_text)
          ∷ ("sender", text msg.sender_identifier)
          ∷ (elim extra [ [] ↦ [] | e ∷ _ ↦ (e.0, text e.1) ∷ [] ])))
        ("deadletter" ∷ tenant_id ∷ msg.provider_message_id ∷ []))

  unfoldable pub dispatch_inbound :
      String
      → ChannelBinding
      → String
      → InboundMessage
      → ActionButton
      → String
      → Exec World (Unit {0})
  unfolding dead_letter
  dispatch_inbound tenant_id binding packet_id msg action free_text =
      if not (valid_action action) || packet_id == ""
      then dead_letter tenant_id binding packet_id msg (("action", action) ∷ [])
      else (do
        receive_inbound env (persist_signal env) (record {
          channel = channel_whatsapp;
          provider_number = binding.provider_number;
          packet_id = packet_id;
          source_message_id = msg.provider_message_id;
          raw_inbound_message_id = join channel_whatsapp (join ":" msg.provider_message_id);
          action_button = action;
          free_text = free_text;
          follow_up_answer = "";
          scope_hint = none;
          received_at = msg.received_at;
        })
        pure tt)

  abbrev paused : Option Time → Time → Bool
  paused none now = false
  paused (some until) now = ltb now until

  unfoldable route_whatsapp_customer_message :
      String → ChannelBinding → InboundMessage → String → String → Exec World (Unit {0})
  route_whatsapp_customer_message tenant_id binding msg sender_jid ingest_channel = do
    now ← clock_now
    if paused binding.customer_intake_paused_until now
        then ignore (
            audit env tenant_id "customer_intake_paused" "customer" sender_jid "message"
              msg.provider_message_id none
              (entries
                (("customer_identifier", text sender_jid) ∷ ("channel", text ingest_channel) ∷ []))
              ("customer-intake-paused" ∷ tenant_id ∷ ingest_channel ∷ msg.provider_message_id
                ∷ []))
        else (do
          ingest_customer_message env (record {
            tenant_id = tenant_id;
            channel = ingest_channel;
            source_message_id = msg.provider_message_id;
            customer_identifier = sender_jid;
            received_at = msg.received_at;
            subject = "";
            body_text = msg.free_text;
            metadata = none;
          })
          pure tt)

  -- the packet that the message names, or the latest one
  unfoldable pub referenced_packet : String → InboundMessage → Exec World String
  referenced_packet tenant_id msg = do
    latest ← attempt (in_store (latest_review_packet tenant_id))
    gets (λ _.
        if extract_packet_reference msg.free_text == ""
        then elim latest [ ok packet ↦ packet.packet_id | err e ↦ "" ]
        else extract_packet_reference msg.free_text)

  -- the switch over the intent
  pub act_on_intent :
      String → ChannelBinding → String → InboundMessage → IntentResult → Exec World (Unit {0})
  unfolding dead_letter
  act_on_intent tenant_id binding packet_id msg intent =
      if intent.kind == "approve"
      then dispatch_inbound tenant_id binding packet_id msg action_approve intent.note
      else if intent.kind == "reject_with_reason"
      then dispatch_inbound tenant_id binding packet_id msg action_wrong_action intent.note
      else if intent.kind == "reject_need_followup"
      then (do
        set_pending_followup tenant_id packet_id
        send_notification env tenant_id
            "Got it — what should I have done instead? Just type the reason.")
      else if intent.kind == "promote"
      then handle_promote_command env tenant_id binding.operator_id
      else if intent.kind == "correction"
      then dispatch_inbound tenant_id binding packet_id msg action_wrong_action intent.note
      else dead_letter tenant_id binding packet_id msg []

  -- the operator's own message: a button, the reason that was asked for, or plain words
  operator_message : String → ChannelBinding → InboundMessage → Exec World (Unit {0})
  unfolding referenced_packet act_on_intent
  operator_message tenant_id binding msg = do
    packet_id ← referenced_packet tenant_id msg
    let action = trim_space msg.button_payload
    if valid_action action
        then if action == action_approve
          then dispatch_inbound tenant_id binding packet_id msg action ""
          else (do
            set_pending_followup_action tenant_id packet_id action
            send_notification env tenant_id (followup_prompt_for action))
        else (do
          pending ← consume_pending_followup tenant_id
          if pending.found
              then dispatch_inbound tenant_id binding
                  (if pending.packet_id == "" then packet_id else pending.packet_id) msg
                  pending.action msg.free_text
              else act_on_intent tenant_id binding packet_id msg (classify_intent msg.free_text))

  -- the switch over the inbound mode
  by_mode : String → ChannelBinding → InboundMessage → String → Exec World (Unit {0})
  unfolding operator_message
  by_mode tenant_id binding msg sender_jid =
      if parse_inbound_mode binding.inbound_mode == inbound_read_only
      then if msg.is_from_me
        then operator_message tenant_id binding msg
        else if not (contains binding.customer_allowlist sender_jid)
        then ignore (
            audit env tenant_id "wa_inbound_ignored" "customer" sender_jid "message"
              msg.provider_message_id none
              (entries (("channel", text channel_whatsapp) ∷ ("kind", text "ignored") ∷ []))
              ("wa-ignored" ∷ tenant_id ∷ msg.provider_message_id ∷ []))
        else route_whatsapp_customer_message tenant_id binding msg sender_jid "whatsapp_a0"
      else if msg.is_from_me
      then skip
      else if not (contains binding.command_identities sender_jid)
      then route_whatsapp_customer_message tenant_id binding msg sender_jid "whatsapp_a1"
      else operator_message tenant_id binding msg

  pub handle_whatsapp_inbound : String → InboundMessage → Exec World (Unit {0})
  unfolding by_mode
  handle_whatsapp_inbound tenant_id msg = do
    binding ← in_store (channel_binding_by_tenant tenant_id channel_whatsapp)
    handled ← handle_whatsapp_command env tenant_id binding msg (normalize_inbound_jid msg)
    if handled then skip else by_mode tenant_id binding msg (normalize_inbound_jid msg)
