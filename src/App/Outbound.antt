-- ===== src/App/Outbound.antt =====
-- Sends through the adapters: sendWhatsApp of internal/app/app.go, and the guard of
-- internal/channel/whatsapp/adapter.go that keeps a read-only binding from writing to a customer.
pub mod Isolation
use victoria.Prelude.{suc, String, Bool, none, [], ◌∷◌, ◌==◌, ◌&&◌, ◌||◌, not, if◌then◌else◌}
use victoria.Exec.{ok, err, failed, adapter_not_available, Exec, pure, throw, ignore, ◌>>=◌, ◌>>◌}
use victoria.Domain.{
  text, ChannelBinding, OutboundMessage, DeliveryReceipt, inbound_read_only, sha256_key,
}
use victoria.App.{Env, World}
use victoria.App.Helpers.{contains, normalize_whatsapp_jid, channel_whatsapp}
use victoria.App.Core.{audit, entries, clock_now}

-- the operator's own number in the guard; normalizeJIDString is normalizeWhatsAppJID
pub operator_of : ChannelBinding → String
operator_of binding =
    if normalize_whatsapp_jid binding.operator_jid == ""
    then normalize_whatsapp_jid binding.provider_number
    else normalize_whatsapp_jid binding.operator_jid

-- the tests of EnforceA0OutboundGuard
pub guard_passes : ChannelBinding → String → Bool
unfolding operator_of
guard_passes binding recipient =
    let dst = normalize_whatsapp_jid recipient in
    let draft_jid = normalize_whatsapp_jid binding.draft_delivery_jid in
    not (binding.inbound_mode == inbound_read_only)
    || (dst == "" || (dst == operator_of binding || (not (draft_jid == "") && dst == draft_jid)))

unfoldable pub has_adapter : String → World → Bool
has_adapter channel w = contains w.adapters channel

module _ (env : Env) where
  -- a call of Adapter.SendOutbound
  unfoldable pub adapter_send : String → OutboundMessage → Exec World DeliveryReceipt
  adapter_send channel msg w = elim (env.send w.sends_made channel msg) [
    | ok receipt ↦ (ok receipt, record w { sends_made = suc w.sends_made; outbox = msg ∷ w.outbox })
    | err e ↦ (err e, record w { sends_made = suc w.sends_made })
  ]

  -- RecordOutboundBlocked
  unfoldable pub record_outbound_blocked : String → String → String → String → Exec World Bool
  record_outbound_blocked tenant_id dst_jid body_hash call_site = do
    now ← clock_now
    audit env tenant_id "outbound_blocked_to_customer" "system" "whatsapp" "channel_binding"
        channel_whatsapp none
        (entries (
          ("dst_jid", text dst_jid)
          ∷ ("body_hash", text body_hash)
          ∷ ("call_site_stack", text call_site)
          ∷ []))
        ("outbound-blocked-to-customer"
          ∷ tenant_id
          ∷ dst_jid
          ∷ body_hash
          ∷ env.format_time now
          ∷ [])

  -- EnforceA0OutboundGuard; the stack trace is not modelled
  unfoldable pub enforce_a0_outbound_guard :
      ChannelBinding → OutboundMessage → Exec World (Unit {0})
  unfolding guard_passes record_outbound_blocked
  enforce_a0_outbound_guard binding msg =
      if guard_passes binding msg.recipient_identifier then pure tt else do
        ignore (
            record_outbound_blocked binding.tenant_id
              (normalize_whatsapp_jid msg.recipient_identifier)
              (sha256_key env.hashing (msg.body_text ∷ [])) "")
        throw failed

  -- SendOutboundWithBinding
  unfoldable pub send_outbound_with_binding :
      ChannelBinding → OutboundMessage → Exec World DeliveryReceipt
  unfolding enforce_a0_outbound_guard adapter_send
  send_outbound_with_binding binding msg = do
    enforce_a0_outbound_guard binding msg
    adapter_send channel_whatsapp msg

  unfoldable pub send_whatsapp_with_receipt :
      ChannelBinding → OutboundMessage → Exec World DeliveryReceipt
  unfolding send_outbound_with_binding adapter_send
  send_whatsapp_with_receipt binding msg w =
      (if not (has_adapter channel_whatsapp w)
          then throw adapter_not_available
          else if env.guarded
          then send_outbound_with_binding binding msg
          else adapter_send channel_whatsapp msg)
        w

  unfoldable pub send_whatsapp : ChannelBinding → OutboundMessage → Exec World (Unit {0})
  unfolding send_whatsapp_with_receipt
  send_whatsapp binding msg = do send_whatsapp_with_receipt binding msg; pure tt
