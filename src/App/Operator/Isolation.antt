-- ===== src/App/Operator/Isolation.antt =====
-- HandleWhatsAppInbound of internal/app/app.go for a message of a stranger to a read-only binding.
use victoria.Prelude.{String, false, ◌≡◌, refl}
use victoria.Exec.{ok, ◌>>=◌}
use victoria.Text.{trim_space, to_lower, has_prefix}
use victoria.Domain.{ChannelBinding, InboundMessage, parse_inbound_mode, inbound_read_only}
use victoria.Memory.Tenants.{channel_binding_by_tenant}
use victoria.App.{Env, World}
use victoria.App.Helpers.{normalize_inbound_jid, contains, channel_whatsapp}
use victoria.App.Core.{in_store, audit}
use victoria.App.Core.Laws.{audit-frame}
use victoria.App.Commands.{handle_whatsapp_command, register_prefix}
use victoria.App.Operator.{by_mode, handle_whatsapp_inbound}

-- the world with another audit log and another count of identifiers
abbrev pub SameButLog : World → World → Type 0
SameButLog w v = v ≡ record w {
  ids_made = v.ids_made;
  store = record w.store {
    audit_events = v.store.audit_events;
    audit_by_key = v.store.audit_by_key;
  };
}

module _ (env : Env) (tenant_id : String) (binding : ChannelBinding) (msg : InboundMessage)
    (w : World) where
  -- A read-only binding ignores a stranger: a message that is not the operator's own, not from an
  -- allowlisted customer, not from a command identity and no registration succeeds, and all it
  -- leaves is an audit event. No case is started and nothing is sent.
  pub handle_whatsapp_inbound-stranger :
      channel_binding_by_tenant tenant_id channel_whatsapp w.store ≡ (ok binding, w.store)
      → parse_inbound_mode binding.inbound_mode ≡ inbound_read_only
      → msg.is_from_me ≡ false
      → contains binding.customer_allowlist (normalize_inbound_jid msg) ≡ false
      → contains binding.command_identities (normalize_inbound_jid msg) ≡ false
      → has_prefix (to_lower (trim_space msg.free_text)) register_prefix ≡ false
      → ((handle_whatsapp_inbound env tenant_id msg w).0 ≡ ok tt)
        × SameButLog w (handle_whatsapp_inbound env tenant_id msg w).1
  unfolding handle_whatsapp_inbound by_mode handle_whatsapp_command ◌>>=◌ in_store contains
      normalize_inbound_jid has_prefix parse_inbound_mode audit
  handle_whatsapp_inbound-stranger b m f a c p =
      rw b (rw p (rw f (rw c (rw m (rw a (refl, audit-frame env _ _ _ _ _ _ _ _ _ w))))))
