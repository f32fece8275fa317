-- ===== src/Whatsapp/Session/Silence.antt =====
-- The adapter hears its own messages and keeps still.
use victoria.Prelude.{
  ◌≡◌, refl, sym, subst, ◌∙◌, String, Bool, true, false, Option, none, some, ◌==◌, ◌||◌, not,
  if◌then◌else◌, length,
}
use victoria.Exec.{Result, lift, ok, err, Exec, skip, throw, session_not_connected, ◌>>=◌}
use victoria.Exec.Laws.{>>=-through}
use victoria.GoMap.{get}
use victoria.GoMap.Laws.{get-put_self}
use victoria.Domain.{session_active, OutboundMessage, DeliveryReceipt}
use victoria.App.{Env}
use victoria.Whatsapp.{Jid, TenantClient, Sessions, Network, MessageInfo}
use victoria.Whatsapp.Echoes.{SentIds, has, add}
use victoria.Whatsapp.Echoes.Added.{has-add}
use victoria.Whatsapp.Messages.{OutMessage, InMessage}
use victoria.Whatsapp.Session.{
  destination, received, transmitted, transmit, send_to, send_from, send_outbound, dispatch_inbound,
  is_echo,
}

module _ (env : Env) (net : Network) where
  received-marks :
      (tenant_id : String) (tc : TenantClient) (to : Jid) (m : OutMessage) (got : DeliveryReceipt)
      (o : Option SentIds) (s : Sessions) {receipt : DeliveryReceipt}
      → (received env net tenant_id tc to m got o s).0 ≡ ok receipt
      → (t : SentIds) × (o ≡ some t)
        × (got ≡ receipt)
        × (get tenant_id (received env net tenant_id tc to m got o s).1.clients
            ≡ some (record tc { recent_sent = t }))
  unfolding received
  received-marks tenant_id tc to m got none s e = cc
  received-marks tenant_id tc to m got (some t) s e =
      (t, refl, cc, get-put_self tenant_id (record tc { recent_sent = t }) s.clients)

  transmitted-marks :
      (tenant_id : String) (tc : TenantClient) (to : Jid) (m : OutMessage)
      (r : Result DeliveryReceipt) (s : Sessions) {receipt : DeliveryReceipt}
      → (transmitted env net tenant_id tc to m r s).0 ≡ ok receipt
      → (t : SentIds) × (add receipt.provider_message_id tc.recent_sent ≡ some t)
        × (get tenant_id (transmitted env net tenant_id tc to m r s).1.clients
            ≡ some (record tc { recent_sent = t }))
  unfolding transmitted throw
  transmitted-marks tenant_id tc to m (err x) s e = cc
  transmitted-marks tenant_id tc to m (ok got) s e =
      let (t, added, same, there) = received-marks tenant_id tc to m got _ s e in
      (t, rw (sym same) added, there)

  -- behind a send that succeeds the client has the identifier of the receipt marked
  record Marked (tenant_id : String) (receipt : DeliveryReceipt) (s : Sessions) : Type 0 where
    tc : TenantClient
    before : SentIds
    found : get tenant_id s.clients ≡ some tc
    marked : add receipt.provider_message_id before ≡ some tc.recent_sent

  transmit-Marked :
      (tenant_id : String) (tc : TenantClient) (to : Jid) (m : OutMessage) (key : String)
      (s : Sessions) {receipt : DeliveryReceipt}
      → (transmit env net tenant_id tc to m key s).0 ≡ ok receipt
      → Marked tenant_id receipt (transmit env net tenant_id tc to m key s).1
  unfolding transmit
  transmit-Marked tenant_id tc to m key s e =
      let (t, added, there) =
        transmitted-marks tenant_id tc to m (net.send_message (length s.sent) to m key) s e in
      record {
        tc = record tc { recent_sent = t };
        before = tc.recent_sent;
        found = there;
        marked = added;
      }

  send_to-Marked :
      (msg : OutboundMessage) (tc : TenantClient) (to : Jid) (s : Sessions)
      {receipt : DeliveryReceipt}
      → (send_to env net tc to msg s).0 ≡ ok receipt
      → Marked msg.tenant_id receipt (send_to env net tc to msg s).1
  unfolding send_to
  send_to-Marked msg tc to s {receipt} h =
      let (b, _, e1, h1) = >>=-through _ _ s h in
      let (_, _, e2, h2) = >>=-through _ _ _ h1 in
      subst (λ (x : Result DeliveryReceipt × Sessions). Marked msg.tenant_id receipt x.1)
        (sym (e1 ∙ e2)) (transmit-Marked msg.tenant_id tc to _ _ _ h2)

  -- the part behind the test of the session
  resolved : OutboundMessage → TenantClient → Exec Sessions DeliveryReceipt
  resolved msg tc = do to ← lift (destination env net tc msg); send_to env net tc to msg

  resolved-Marked :
      (msg : OutboundMessage) (tc : TenantClient) (s : Sessions) {receipt : DeliveryReceipt}
      → (resolved msg tc s).0 ≡ ok receipt
      → Marked msg.tenant_id receipt (resolved msg tc s).1
  unfolding resolved
  resolved-Marked msg tc s {receipt} h =
      let (to, _, e, k) = >>=-through _ _ s h in
      subst (λ (x : Result DeliveryReceipt × Sessions). Marked msg.tenant_id receipt x.1) (sym e)
        (send_to-Marked msg tc to _ k)

  send_from-Marked :
      (msg : OutboundMessage) (tc : TenantClient) (s : Sessions) {receipt : DeliveryReceipt}
      → (send_from env net msg tc s).0 ≡ ok receipt
      → Marked msg.tenant_id receipt (send_from env net msg tc s).1
  unfolding send_from throw resolved
  send_from-Marked msg tc s {receipt} = go (not tc.connected || not (tc.status == session_active))
    where
      go :
          (b : Bool)
          → ((if b then throw session_not_connected else resolved msg tc) s).0 ≡ ok receipt
          → Marked msg.tenant_id receipt
              ((if b then throw session_not_connected else resolved msg tc) s).1
      go true h = cc
      go false h = resolved-Marked msg tc s h

  send_outbound-Marked :
      (msg : OutboundMessage) (s : Sessions) {receipt : DeliveryReceipt}
      → (send_outbound env net msg s).0 ≡ ok receipt
      → Marked msg.tenant_id receipt (send_outbound env net msg s).1
  unfolding send_outbound
  send_outbound-Marked msg s {receipt} h =
      let (_, _, e1, h1) = >>=-through _ _ s h in
      let (tc, _, e2, h2) = >>=-through _ _ _ h1 in
      subst (λ (x : Result DeliveryReceipt × Sessions). Marked msg.tenant_id receipt x.1)
        (sym (e1 ∙ e2)) (send_from-Marked msg tc _ h2)

  -- Right after a send that succeeded, the adapter drops what comes in under the identifier of the
  -- receipt, whatever its sender and its words: nothing reaches the engine. The identifier is not
  -- empty.
  pub dispatch_inbound-echo :
      (msg : OutboundMessage) (s : Sessions) (receipt : DeliveryReceipt) (info : MessageInfo)
      (message : InMessage)
      → (send_outbound env net msg s).0 ≡ ok receipt
      → info.id ≡ receipt.provider_message_id
      → receipt.provider_message_id == "" ≡ false
      → (tc : TenantClient) × (get msg.tenant_id (send_outbound env net msg s).1.clients ≡ some tc)
        × (dispatch_inbound env net tc info message (send_outbound env net msg s).1
            ≡ (ok tt, (send_outbound env net msg s).1))
  unfolding dispatch_inbound is_echo skip
  dispatch_inbound-echo msg s receipt info message h same named =
      let m = send_outbound-Marked msg s h in
      let seen : has info.id m.tc.recent_sent ≡ true =
        rw same (has-add receipt.provider_message_id m.before m.tc.recent_sent named m.marked) in
      (m.tc, m.found, rw seen refl)
