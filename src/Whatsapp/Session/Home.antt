-- ===== src/Whatsapp/Session/Home.antt =====
-- What a read-only binding sends over the network stays with its operator.
use victoria.Prelude.{
  ◌≡◌, ◌⊎◌, refl, inl, inr, String, Bool, true, false, Option, none, some, ◌∷◌, ◌==◌, ◌||◌, not,
  if◌then◌else◌, length,
}
use victoria.Exec.{
  Result, ok, err, gets, or_throw, lift, throw, adapter_not_available, session_not_connected, ◌>>=◌,
}
use victoria.Exec.Laws.{>>=-state}
use victoria.GoMap.{get}
use victoria.Domain.{
  ChannelBinding, OutboundMessage, DeliveryReceipt, inbound_read_only, session_active,
}
use victoria.Memory.Tenants.{channel_binding_by_tenant}
use victoria.App.{Env, World}
use victoria.App.Core.{in_store}
use victoria.App.Helpers.{channel_whatsapp}
use victoria.App.Queries.{get_channel_binding}
use victoria.App.Outbound.{guard_passes, enforce_a0_outbound_guard}
use victoria.App.Outbound.Isolation.{IsOwn, guard_passes-IsOwn, enforce-passes}
use victoria.Whatsapp.{Jid, TenantClient, Sessions, Network}
use victoria.Whatsapp.Echoes.{SentIds}
use victoria.Whatsapp.Messages.{OutMessage, build_outbound_message}
use victoria.Whatsapp.Session.{
  in_engine, is_self_chat, destination, received, transmitted, transmit, send_to, send_from,
  send_outbound,
}

-- the message that has just gone out, if one has
abbrev Out : Sessions → Jid → Sessions → Type 0
Out s to s' = (s'.sent ≡ s.sent) ⊎ ((m : OutMessage) × (s'.sent ≡ (to, m) ∷ s.sent))

-- at most one message goes out, and through a read-only binding of the tenant only to the operator
abbrev pub StaysHome : OutboundMessage → Sessions → Sessions → Type 0
StaysHome msg s s' =
    (s'.sent ≡ s.sent)
    ⊎ ((to : Jid) × (m : OutMessage) × (b : ChannelBinding) × (s'.sent ≡ (to, m) ∷ s.sent)
        × ((channel_binding_by_tenant msg.tenant_id channel_whatsapp s.engine.store).0 ≡ ok b)
        × (b.inbound_mode ≡ inbound_read_only → IsOwn b to.text))

module _ (env : Env) (net : Network) where
  received-Out :
      (t : String) (tc : TenantClient) (to : Jid) (m : OutMessage) (got : DeliveryReceipt)
      (o : Option SentIds) (s : Sessions)
      → Out s to (received env net t tc to m got o s).1
  unfolding received
  received-Out t tc to m got none s = inr (m, refl)
  received-Out t tc to m got (some marked) s = inr (m, refl)

  transmitted-Out :
      (t : String) (tc : TenantClient) (to : Jid) (m : OutMessage) (r : Result DeliveryReceipt)
      (s : Sessions)
      → Out s to (transmitted env net t tc to m r s).1
  unfolding transmitted throw
  transmitted-Out t tc to m (err x) s = inl refl
  transmitted-Out t tc to m (ok got) s = received-Out t tc to m got _ s

  module _ (msg : OutboundMessage) where
    send_to-home :
        (tc : TenantClient) (to : Jid) (s : Sessions)
        → StaysHome msg s (send_to env net tc to msg s).1
    unfolding send_to in_engine get_channel_binding in_store transmit
    send_to-home tc to s =
        >>=-state (StaysHome msg s) (in_engine (get_channel_binding msg.tenant_id channel_whatsapp))
          _ s
          (λ b found.
            >>=-state (StaysHome msg s)
              (in_engine
                (enforce_a0_outbound_guard env b (record msg { recipient_identifier = to.text })))
              _ _
              (λ _ passed.
                allowed b found
                  (enforce-passes env b (record msg { recipient_identifier = to.text }) _ passed) _)
              (λ e _. inl refl))
          (λ e _. inl refl)
      where
        allowed :
            (b : ChannelBinding)
            → (in_engine (get_channel_binding msg.tenant_id channel_whatsapp) s).0 ≡ ok b
            → guard_passes b to.text ≡ true
            → (w : World)
            → StaysHome msg s
                (transmit env net msg.tenant_id tc to
                  (build_outbound_message msg (is_self_chat env net tc to))
                  msg.idempotency_key
                  (record s { engine = w })).1
        allowed b found passed w =
            elim (transmitted-Out msg.tenant_id tc to _
              (net.send_message (length s.sent) to _ msg.idempotency_key)
              (record s { engine = w })) [
                | inl e ↦ inl e
                | inr (m, e) ↦
                    inr (to, m, b, e, found, λ ro. guard_passes-IsOwn b to.text ro passed)
              ]

    lifted-home :
        (r : Result Jid) (tc : TenantClient) (s : Sessions)
        → StaysHome msg s ((do to ← lift r; send_to env net tc to msg) s).1
    unfolding ◌>>=◌ lift
    lifted-home (err e) tc s = inl refl
    lifted-home (ok to) tc s = send_to-home tc to s

    send_from-home :
        (tc : TenantClient) (s : Sessions) → StaysHome msg s (send_from env net msg tc s).1
    unfolding send_from throw
    send_from-home tc s = go (not tc.connected || not (tc.status == session_active))
      where
        go :
            (b : Bool)
            → StaysHome msg s
                ((if b
                    then throw session_not_connected
                    else (do to ← lift (destination env net tc msg); send_to env net tc to msg))
                  s).1
        go true = inl refl
        go false = lifted-home (destination env net tc msg) tc s

    -- A call of SendOutbound puts at most one message on the network; one that goes out through a
    -- read-only binding of the tenant goes to the operator's own address, to the address of the
    -- drafts, or to nobody.
    pub send_outbound-home : (s : Sessions) → StaysHome msg s (send_outbound env net msg s).1
    unfolding send_outbound ◌>>=◌ gets or_throw
    send_outbound-home s = go (get msg.tenant_id s.clients)
      where
        go :
            (o : Option TenantClient)
            → StaysHome msg s
                ((do tc ← or_throw o adapter_not_available; send_from env net msg tc) s).1
        go none = inl refl
        go (some tc) = send_from-home tc s
