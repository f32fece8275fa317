-- ===== src/App/Frame/Sending.antt =====
-- The methods that send keep what the steps keep.
use victoria.Prelude.{String, ◌≡◌, refl, not, Option-cases, inl, inr, if◌then◌else◌}
use victoria.Exec.{Result, ok, err, throw, adapter_not_available}
use victoria.Exec.Preserves.{Preserves, preserves_rules, Preserves-gets, Preserves-skip}
use victoria.GoMap.{first, values}
use victoria.Domain.{ChannelBinding, OutboundMessage}
use victoria.Memory.{Store}
use victoria.Memory.Tenants.{channel_binding_by_tenant, binds}
use victoria.App.{Env, World}
use victoria.App.Helpers.{channel_whatsapp}
use victoria.App.Core.{in_store, clock_now}
use victoria.App.Frame.{Frame, Preserves-read}
use victoria.App.Outbound.{
  has_adapter, adapter_send, enforce_a0_outbound_guard, record_outbound_blocked,
  send_outbound_with_binding, send_whatsapp_with_receipt, send_whatsapp,
}
use victoria.App.Gateway.{send_notification, preferred_channel, notify_binding}

pub binding_read : (t c : String) (s : Store) → (channel_binding_by_tenant t c s).1 ≡ s
unfolding channel_binding_by_tenant
binding_read t c s = elim (Option-cases (first (binds t c) (values s.bindings))) [
  | inl h ↦ rw (h, channel_binding_by_tenant) refl
  | inr (b, h) ↦ rw (h, channel_binding_by_tenant) refl
]

module _ {env : Env} {R : World → World → Type 0} (f : Frame env R) where
  pub clock_kept : Preserves R clock_now
  unfolding clock_now
  clock_kept = Preserves-gets f.order _

  pub binding_kept : (t c : String) → Preserves R (in_store (channel_binding_by_tenant t c))
  binding_kept t c = Preserves-read f.order (channel_binding_by_tenant t c) (binding_read t c)

  preferred_kept : (t : String) → Preserves R (preferred_channel t)
  unfolding preferred_channel
  preferred_kept t = search (preserves_rules, f.order, binding_kept)

  notify_kept :
      (t c b : String) (r : Result ChannelBinding) → Preserves R (notify_binding env t c b r)
  unfolding notify_binding
  notify_kept t c b (err e) = Preserves-skip f.order
  notify_kept t c b (ok binding) = search (preserves_rules, f.order, clock_kept, f.send_kept)

  pub send_notification_kept : (t b : String) → Preserves R (send_notification env t b)
  unfolding send_notification
  send_notification_kept t b =
      search (preserves_rules, f.order, binding_kept, preferred_kept, notify_kept) depth 12

  guard_kept :
      (b : ChannelBinding) (m : OutboundMessage) → Preserves R (enforce_a0_outbound_guard env b m)
  unfolding enforce_a0_outbound_guard record_outbound_blocked
  guard_kept b m = search (preserves_rules, f.order, f.audit_kept, clock_kept)

  guarded_kept :
      (b : ChannelBinding) (m : OutboundMessage) → Preserves R (send_outbound_with_binding env b m)
  unfolding send_outbound_with_binding
  guarded_kept b m = search (preserves_rules, f.order, guard_kept, f.send_kept)

  pub send_receipt_kept :
      (b : ChannelBinding) (m : OutboundMessage) → Preserves R (send_whatsapp_with_receipt env b m)
  unfolding send_whatsapp_with_receipt
  send_receipt_kept b m = record { at = λ w. (chosen w).at w }
    where
      chosen :
          (w : World)
          → Preserves R (
              if not (has_adapter channel_whatsapp w)
              then throw adapter_not_available
              else if env.guarded
              then send_outbound_with_binding env b m
              else adapter_send env channel_whatsapp m)
      chosen w = search (preserves_rules, f.order, guarded_kept, f.send_kept)

  pub send_whatsapp_kept :
      (b : ChannelBinding) (m : OutboundMessage) → Preserves R (send_whatsapp env b m)
  unfolding send_whatsapp
  send_whatsapp_kept b m = search (preserves_rules, f.order, send_receipt_kept)
