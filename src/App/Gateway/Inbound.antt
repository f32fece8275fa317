-- ===== src/App/Gateway/Inbound.antt =====
-- ReceiveInbound of internal/app/gateway.go: an operator's reply becomes a signal, once.
use victoria.Prelude.{String, none, some, Option, [], ◌∷◌, ◌==◌, not, if◌then◌else◌, ltb, eqb, join}
use victoria.Exec.{
  Result, ok, err, invalid_input, tenant_mismatch, expired, Exec, pure, throw, throw_if, attempt,
  ignore, ◌>>=◌, ◌>>◌,
}
use victoria.Domain.{
  Time, text, Scope, ActionButton, valid_action, ChannelBinding, ReviewPacket,
  ApprovalSignalEnvelope, sha256_key,
}
use victoria.Memory.Tenants.{channel_binding_by_provider}
use victoria.Memory.Packets.{get_review_packet}
use victoria.Rules.Parsing.{parse_scope_hint}
use victoria.App.{Env, World}
use victoria.App.Helpers.{channel_telegram}
use victoria.App.Core.{in_store, clock_now, audit, entries}

pub record InboundReply : Type 0 where
  pub channel : String
  pub provider_number : String
  pub packet_id : String
  pub source_message_id : String
  pub raw_inbound_message_id : String
  pub action_button : ActionButton
  pub free_text : String
  pub follow_up_answer : String
  pub scope_hint : Option Scope
  pub received_at : Time

-- the defaults that ReceiveInbound fills in first
with_defaults : Time → InboundReply → InboundReply
with_defaults now input =
    let channel = if input.channel == "" then channel_telegram else input.channel in
    record input {
      channel = channel;
      received_at = if eqb input.received_at 0 then now else input.received_at;
      raw_inbound_message_id =
          if input.raw_inbound_message_id == ""
          then join channel (join ":" input.source_message_id)
          else input.raw_inbound_message_id;
    }

scope_hint_of : InboundReply → Option Scope
scope_hint_of input = elim input.scope_hint [
  | some scope ↦ some scope
  | none ↦
      parse_scope_hint
        (if input.follow_up_answer == "" then input.free_text else input.follow_up_answer)
]

module _ (env : Env) where
  envelope_of : InboundReply → ChannelBinding → ReviewPacket → ApprovalSignalEnvelope
  unfolding scope_hint_of
  envelope_of input binding packet = record {
    schema_version = "1";
    signal_id = sha256_key env.hashing (
        binding.tenant_id ∷ input.packet_id ∷ input.action_button ∷ input.raw_inbound_message_id
        ∷ []);
    idempotency_key = sha256_key env.hashing (
        binding.tenant_id ∷ packet.decision_point_id ∷ input.packet_id ∷ input.action_button
        ∷ input.source_message_id ∷ []);
    packet_id = input.packet_id;
    case_run_id = packet.case_run_id;
    decision_point_id = packet.decision_point_id;
    tenant_id = binding.tenant_id;
    operator_id = binding.operator_id;
    channel = input.channel;
    source_message_id = input.source_message_id;
    raw_inbound_message_id = input.raw_inbound_message_id;
    ts = input.received_at;
    action_button = input.action_button;
    free_text = input.free_text;
    follow_up_answer = input.follow_up_answer;
    scope_hint = scope_hint_of input;
    parser_method = "button";
    parser_confidence = env.floats.of_int 1;
  }

  -- a number that no tenant is bound to
  unbound : InboundReply → Result ChannelBinding → Exec World ChannelBinding
  unbound input (ok binding) = pure binding
  unbound input (err e) = do
    ignore (
        audit env "" "unbound_inbound_dropped" "operator" "unknown" "message"
          input.raw_inbound_message_id none
          (entries (
            ("provider_number", text input.provider_number) ∷ ("channel", text input.channel) ∷ []))
          ("unbound" ∷ input.channel ∷ input.provider_number ∷ input.raw_inbound_message_id ∷ []))
    throw e

  -- a reply to a packet that has expired
  stale : InboundReply → ChannelBinding → Exec World ApprovalSignalEnvelope
  stale input binding = do
    ignore (
        audit env binding.tenant_id "stale_reply" "operator" binding.operator_id "review_packet"
          input.packet_id none none
          ("stale" ∷ binding.tenant_id ∷ input.packet_id ∷ input.raw_inbound_message_id ∷ []))
    throw expired

  module _ (persist : ApprovalSignalEnvelope → Exec World (Unit {0})) where
    -- the reply fits a packet that is still open
    resolve : InboundReply → ChannelBinding → ReviewPacket → Exec World ApprovalSignalEnvelope
    resolve input binding packet = do
      let envelope = envelope_of input binding packet
      persist envelope
      audit env binding.tenant_id "correction_resolved_at_gateway" "operator" binding.operator_id
          "review_packet" input.packet_id none
          (entries (
            ("signal_id", text envelope.signal_id)
            ∷ ("action_button", text input.action_button)
            ∷ []))
          ("gateway-resolved" ∷ binding.tenant_id ∷ envelope.signal_id ∷ [])
      pure envelope

    unfoldable pub receive_inbound : InboundReply → Exec World ApprovalSignalEnvelope
    unfolding unbound stale resolve with_defaults envelope_of
    receive_inbound reply = do
      now ← clock_now
      let input = with_defaults now reply
      throw_if (not (valid_action input.action_button)) invalid_input
      found ← attempt (in_store (channel_binding_by_provider input.channel input.provider_number))
      binding ← unbound input found
      packet ← in_store (get_review_packet binding.tenant_id input.packet_id)
      throw_if (not (packet.tenant_id == binding.tenant_id)) tenant_mismatch
      if ltb packet.expires_at now then stale input binding else resolve input binding packet
