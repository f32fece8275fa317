-- ===== src/App/Commands/Registration.antt =====
-- The registration secret of a binding, which makes one operator.
use victoria.Prelude.{
  and_false, String, Bool, true, false, ◌≡◌, refl, ◌∙◌, ap, ◌==◌, not, some, eq_refl,
}
use victoria.Exec.{Exec, gets, pure, ◌>>=◌, ◌>>◌}
use victoria.Exec.Preserves.{Preserves, preserves_rules}
use victoria.GoMap.{GoMap, get, put}
use victoria.GoMap.Laws.{get-put_self}
use victoria.Text.{trim_space, to_lower, has_prefix}
use victoria.Domain.{ChannelBinding, InboundMessage}
use victoria.Memory.{pair_key}
use victoria.Memory.Tenants.{upsert_channel_binding}
use victoria.App.{Env, World}
use victoria.App.Helpers.{contains, append_if_missing, channel_whatsapp}
use victoria.App.Core.{in_store, clock_now}
use victoria.App.Frame.{Frame}
use victoria.App.Frame.Fields.{SamePart, Frame-of_part, bindings_of, bindings_of-IsBlind}
use victoria.App.Frame.Sending.{send_notification_kept}
use victoria.App.Gateway.{send_notification}
use victoria.App.Gateway.Delivery.{drain_queue}
use victoria.App.Gateway.Delivery.Keeping.{drain_queue_kept}
use victoria.App.Commands.{
  register_prefix, argument, secret_accepted, register_operator, handle_whatsapp_command,
}
use victoria.App.Commands.Allowlist.{contains-append_if_missing}

-- a message that asks for registration, and the secret in it
abbrev pub IsRegistration : InboundMessage → Type 0
IsRegistration msg = has_prefix (to_lower (trim_space msg.free_text)) register_prefix ≡ true

abbrev pub secret_in : InboundMessage → String
secret_in msg = argument register_prefix (trim_space msg.free_text)

-- the binding behind a registration
abbrev pub registered : ChannelBinding → String → World → ChannelBinding
registered binding sender_jid w = record binding {
  command_identities = append_if_missing binding.command_identities sender_jid;
  command_secret_consumed_at = some w.now;
  session_updated = w.now;
}

module _ (env : Env) (tenant_id : String) where
  frame : Frame env (SamePart bindings_of)
  frame = Frame-of_part env bindings_of bindings_of-IsBlind

  drain_kept : (c : String) → Preserves (SamePart bindings_of) (drain_queue env tenant_id c)
  drain_kept c =
      drain_queue_kept env bindings_of bindings_of-IsBlind (λ s x. refl) (λ s x. refl) tenant_id c

  rejected_kept :
      (binding : ChannelBinding) (msg : InboundMessage) (sender_jid secret : String)
      → secret_accepted binding secret ≡ false
      → Preserves
          (SamePart bindings_of)
          (register_operator env tenant_id binding msg sender_jid secret)
  unfolding register_operator
  rejected_kept binding msg sender_jid secret h = rw h (
      search (preserves_rules, frame.order, frame.audit_kept, send_notification_kept frame) depth
        12)

  accepted_bindings :
      (binding : ChannelBinding) (msg : InboundMessage) (sender_jid secret : String) (w : World)
      → secret_accepted binding secret ≡ true
      → (register_operator env tenant_id binding msg sender_jid secret w).1.store.bindings
        ≡ put
            (pair_key binding.channel binding.provider_number)
            (registered binding sender_jid w)
            w.store.bindings
  unfolding register_operator clock_now gets ◌>>=◌ in_store upsert_channel_binding
  accepted_bindings binding msg sender_jid secret w h = rw h (welcome.at _)
    where
      welcome : Preserves (SamePart bindings_of) (do
        drain_queue env tenant_id channel_whatsapp
        send_notification env tenant_id "✓ registered as operator"
        pure true)
      welcome =
          search (preserves_rules, frame.order, drain_kept, send_notification_kept frame) depth 12

  command-registers :
      (binding : ChannelBinding) (msg : InboundMessage) (sender_jid : String)
      → IsRegistration msg
      → handle_whatsapp_command env tenant_id binding msg sender_jid
        ≡ register_operator env tenant_id binding msg sender_jid (secret_in msg)
  unfolding handle_whatsapp_command
  command-registers binding msg sender_jid h = rw h refl

  module _ (binding : ChannelBinding) (msg : InboundMessage) (sender_jid : String) (w : World) where
    -- A registration with the secret of the binding stores a binding of which the sender is an
    -- operator, and no later registration through that binding changes any binding, whoever sends
    -- it and whatever secret it names.
    pub handle_whatsapp_command-once :
        (later : InboundMessage) (later_sender : String) (v : World)
        → IsRegistration msg
        → secret_accepted binding (secret_in msg) ≡ true
        → IsRegistration later
        → (get
              (pair_key binding.channel binding.provider_number)
              (handle_whatsapp_command env tenant_id binding msg sender_jid w).1.store.bindings
            ≡ some (registered binding sender_jid w))
          × (contains (registered binding sender_jid w).command_identities sender_jid ≡ true)
          × ((handle_whatsapp_command env tenant_id
                (registered binding sender_jid w)
                later
                later_sender
                v).1.store.bindings
              ≡ v.store.bindings)
    unfolding secret_accepted
    handle_whatsapp_command-once later later_sender v h accepted k = (
      ap (λ (m : GoMap ChannelBinding). get (pair_key binding.channel binding.provider_number) m)
            (ap (λ (f : Exec World Bool). (f w).1.store.bindings)
                (command-registers binding msg sender_jid h)
              ∙ accepted_bindings binding msg sender_jid (secret_in msg) w accepted)
          ∙ get-put_self _ _ _,
      contains-append_if_missing binding.command_identities sender_jid sender_jid
          ∙ rw (eq_refl sender_jid) refl,
      ap (λ (f : Exec World Bool). (f v).1.store.bindings)
            (command-registers (registered binding sender_jid w) later later_sender k)
          ∙ (rejected_kept (registered binding sender_jid w) later later_sender (secret_in later)
                (and_false (not (binding.command_registration_secret == "")))).at
              v,
    )
