-- ===== src/App/Telegram/Misrouted.antt =====
-- An operator's reply over Telegram is looked up as a WhatsApp reply.
use victoria.Prelude.{◌≡◌, refl, String, true, false, none, ◌==◌}
use victoria.Exec.{ok, err, not_found, ◌>>=◌}
use victoria.GoMap.{get}
use victoria.Text.{trim_space}
use victoria.Domain.{ChannelBinding, InboundMessage, valid_action}
use victoria.Memory.{pair_key}
use victoria.Memory.Tenants.{channel_binding_by_tenant, channel_binding_by_provider}
use victoria.Memory.Packets.{latest_review_packet, latest_review_packet-state}
use victoria.Intent.{extract_packet_reference}
use victoria.App.{Env, World}
use victoria.App.Core.{in_store, clock_now}
use victoria.App.Helpers.{contains, channel_telegram, channel_whatsapp}
use victoria.App.Gateway.Inbound.{receive_inbound}
use victoria.App.Operator.{dispatch_inbound, referenced_packet}
use victoria.App.Telegram.{handle_telegram_inbound, telegram_operator_message}

module _ (env : Env) (tenant_id : String) (binding : ChannelBinding) (msg : InboundMessage) where
  -- the look-up of a reply that names the WhatsApp channel
  dispatch_inbound-unbound :
      (w : World) (packet_id action words : String)
      → valid_action action ≡ true
      → packet_id == "" ≡ false
      → get (pair_key channel_whatsapp binding.provider_number) w.store.bindings ≡ none
      → (dispatch_inbound env tenant_id binding packet_id msg action words w).0 ≡ err not_found
  unfolding dispatch_inbound receive_inbound ◌>>=◌ in_store clock_now channel_binding_by_provider
  dispatch_inbound-unbound w packet_id action words v p h =
      rw (v, p) (rw (h, channel_binding_by_provider) refl)

  -- A button that the operator taps over Telegram is lost, with the error "not found", where no
  -- WhatsApp binding has the number of the Telegram binding: the reply that HandleTelegramInbound
  -- makes says WhatsApp. The message is not from a customer's chat and names its packet.
  pub handle_telegram_inbound-unbound :
      (w : World)
      → channel_binding_by_tenant tenant_id channel_telegram w.store ≡ (ok binding, w.store)
      → contains binding.telegram_customer_chats msg.sender_identifier ≡ false
      → valid_action (trim_space msg.button_payload) ≡ true
      → extract_packet_reference msg.free_text == "" ≡ false
      → get (pair_key channel_whatsapp binding.provider_number) w.store.bindings ≡ none
      → (handle_telegram_inbound env tenant_id msg w).0 ≡ err not_found
  unfolding handle_telegram_inbound telegram_operator_message referenced_packet ◌>>=◌ in_store
  handle_telegram_inbound-unbound w found chat v named unbound = rw found (
      rw chat (
        rw (v, named)
          (dispatch_inbound-unbound
            (record w { store = (latest_review_packet tenant_id w.store).1 })
            (extract_packet_reference msg.free_text) (trim_space msg.button_payload) msg.free_text v
            named (rw (latest_review_packet-state tenant_id w.store) unbound))))
