-- ===== src/App/Gateway.antt =====
-- internal/app/gateway.go: where a message to the operator goes, the durable queue behind it, and the
-- follow-up turn of a conversation.
pub mod Delivery
pub mod Followups
pub mod Inbound
pub mod Sessions
use victoria.Prelude.{
  String, Bool, true, false, Option, none, some, List, [], ◌∷◌, ◌==◌, not, ◌||◌, if◌then◌else◌,
}
use victoria.Exec.{Result, ok, err, Exec, gets, attempt, ignore, modify, skip, ◌>>=◌, ◌>>◌}
use victoria.GoMap.{get, put}
use victoria.Text.{trim_space}
use victoria.Domain.{
  text, ChannelBinding, SessionStatus, session_active, OutboundMessage, sha256_key,
}
use victoria.Memory.{pair_key}
use victoria.Memory.Tenants.{channel_binding_by_tenant}
use victoria.App.{Env, World}
use victoria.App.Helpers.{operator_recipient, channel_whatsapp, channel_telegram}
use victoria.App.Core.{in_store, clock_now}
use victoria.App.Outbound.{adapter_send, has_adapter}

-- sessionStatus: the zero value "" where nothing is recorded; statusKey is pair_key
unfoldable pub session_status : String → String → World → SessionStatus
session_status tenant_id channel w = elim (get (pair_key tenant_id channel) w.tenant_status) [
  | none ↦ ""
  | some status ↦ status
]

abbrev pub is_ok {ℓ} : {A : Type ℓ} → Result A → Bool
is_ok (ok a) = true
is_ok (err e) = false

unfoldable pub preferred_channel : String → Exec World String
preferred_channel tenant_id = do
  has_wa ← gets (has_adapter channel_whatsapp)
  binding ← attempt (in_store (channel_binding_by_tenant tenant_id channel_whatsapp))
  gets (λ _.
      if has_wa
      then (if is_ok binding then channel_whatsapp else channel_telegram)
      else channel_telegram)

unfoldable pub can_deliver_now : String → String → World → Bool
can_deliver_now tenant_id channel w =
    let status = session_status tenant_id channel w in
    if status == "" then channel == channel_telegram else status == session_active

-- hasOperatorRecipient: a missing binding counts as one that has a recipient
unfoldable pub has_operator_recipient : String → String → Exec World Bool
has_operator_recipient tenant_id channel = do
  binding ← attempt (in_store (channel_binding_by_tenant tenant_id channel))
  gets (λ _. elim binding [ err e ↦ true | ok b ↦ not (operator_recipient b == "") ])

module _ (env : Env) where
  abbrev notification : String → String → String → String → OutboundMessage
  notification tenant_id recipient body key = record {
    tenant_id = tenant_id;
    recipient_identifier = recipient;
    packet_id = "";
    body_text = body;
    buttons = [];
    idempotency_key = key;
  }

  -- the part of SendNotification behind the look-up of the binding
  unfoldable pub notify_binding :
      String → String → String → Result ChannelBinding → Exec World (Unit {0})
  notify_binding tenant_id channel body (err e) = skip
  notify_binding tenant_id channel body (ok binding) =
      if operator_recipient binding == "" then skip else do
        now ← clock_now
        ignore (
            adapter_send env channel (
              notification tenant_id (operator_recipient binding) body (
                sha256_key env.hashing
                  ("notification" ∷ tenant_id ∷ body ∷ env.format_time now ∷ []))))

  -- best effort: nothing comes back
  unfoldable pub send_notification : String → String → Exec World (Unit {0})
  unfolding preferred_channel notify_binding
  send_notification tenant_id body = if trim_space body == "" then skip else do
    channel ← preferred_channel tenant_id
    has ← gets (has_adapter channel)
    status ← gets (session_status tenant_id channel)
    if not has || not (status == session_active) then skip else do
      binding ← attempt (in_store (channel_binding_by_tenant tenant_id channel))
      notify_binding tenant_id channel body binding
