-- ===== src/Whatsapp/Session.antt =====
-- The session of a tenant: SendOutbound, Status, CurrentQR, Logout, Restore, publish, handleEvent and
-- dispatchInbound of internal/channel/whatsapp/adapter.go, wired to the engine as cmd/victoria does.
pub mod Home
pub mod Silence
use victoria.Prelude.{
  String, Bool, true, false, Option, none, some, List, [], ◌∷◌, ◌==◌, ◌&&◌, ◌||◌, not,
  if◌then◌else◌, length,
}
use victoria.Exec.{
  Result, ok, err, failed, adapter_not_available, session_not_connected, panic, Exec, pure, throw,
  lift, gets, modify, or_throw, attempt, ignore, skip, for_each, ◌>>=◌, ◌>>◌,
}
use victoria.GoMap.{GoMap, get, put, remove}
use victoria.Text.{trim_space, contains_text, after_prefix}
use victoria.Domain.{
  SessionStatus, session_unknown, session_active, session_disconnected, session_suspended,
  session_connecting, ChannelBinding, OutboundMessage, DeliveryReceipt, InboundMessage,
}
use victoria.App.{Env, World}
use victoria.App.Helpers.{channel_whatsapp}
use victoria.App.Queries.{get_channel_binding}
use victoria.App.Outbound.{enforce_a0_outbound_guard}
use victoria.App.Gateway.Delivery.{notify_session_status}
use victoria.App.Operator.{handle_whatsapp_inbound}
use victoria.Whatsapp.{Jid, TenantClient, Sessions, Network, MessageInfo}
use victoria.Whatsapp.Echoes.{SentIds, new_sent_ids, add, has}
use victoria.Whatsapp.Messages.{
  OutMessage, InMessage, build_outbound_message, extract_text, extract_button_reply,
}

-- a call back into the engine
unfoldable pub in_engine : {A : Type 0} → Exec World A → Exec Sessions A
in_engine m s = let (r, w) = m s.engine in (r, record s { engine = w })

-- a write to the client of a tenant
unfoldable save_client : TenantClient → Exec Sessions (Unit {0})
save_client tc = modify (λ s. record s { clients = put tc.tenant_id tc s.clients })

unfoldable pub manager_status : String → Sessions → SessionStatus
manager_status tenant_id s = elim (get tenant_id s.clients) [
  | none ↦ session_unknown
  | some tc ↦ tc.status
]

unfoldable pub current_qr : String → Sessions → String
current_qr tenant_id s = elim (get tenant_id s.clients) [ none ↦ "" | some tc ↦ tc.current_qr ]

-- strings.TrimPrefix(strings.TrimSpace(number), "+")
abbrev plain_number : String → String
plain_number number = elim (after_prefix "+" (trim_space number)) [
  | none ↦ trim_space number
  | some rest ↦ rest
]

-- pickDevice; a device without an identifier is none
pub pick_device : List (Option Jid) → String → Option Jid
pick_device [] provider_number = none
pick_device (none ∷ devices) provider_number = pick_device devices provider_number
pick_device (some id ∷ devices) provider_number =
    let later = pick_device devices provider_number in
    if plain_number provider_number == "" || id.user == plain_number provider_number
    then some id
    else later

module _ (env : Env) (net : Network) where
  -- parseJID
  parse_recipient : String → Result Jid
  parse_recipient input =
      let clean = trim_space input in
      if clean == ""
      then err failed
      else if contains_text clean "@"
      then net.parse_jid clean
      else ok (net.new_jid (elim (after_prefix "+" clean) [ none ↦ clean | some rest ↦ rest ]))

  -- where a message goes: the session's recipient, or the one that it names
  pub destination : TenantClient → OutboundMessage → Result Jid
  unfolding parse_recipient
  destination tc msg =
      if not (msg.recipient_identifier == "")
      then elim (parse_recipient msg.recipient_identifier) [ ok jid ↦ ok jid | err e ↦ err failed ]
      else ok (elim tc.recipient [ none ↦ net.no_jid | some jid ↦ jid ])

  pub is_self_chat : TenantClient → Jid → Bool
  is_self_chat tc to = elim tc.device [ none ↦ false | some id ↦ to.user == id.user ]

  -- behind Client.SendMessage: the identifier that it answers is marked
  pub received :
      String
      → TenantClient
      → Jid
      → OutMessage
      → DeliveryReceipt
      → Option SentIds
      → Exec Sessions DeliveryReceipt
  received tenant_id tc to message receipt none s =
      (err panic, record s { sent = (to, message) ∷ s.sent })
  received tenant_id tc to message receipt (some marked) s = (
    ok receipt,
    record s {
      sent = (to, message) ∷ s.sent;
      clients = put tenant_id (record tc { recent_sent = marked }) s.clients;
    },
  )

  pub transmitted :
      String
      → TenantClient
      → Jid
      → OutMessage
      → Result DeliveryReceipt
      → Exec Sessions DeliveryReceipt
  unfolding received
  transmitted tenant_id tc to message (err e) = throw failed
  transmitted tenant_id tc to message (ok receipt) =
      received tenant_id tc to message receipt (add receipt.provider_message_id tc.recent_sent)

  unfoldable pub transmit :
      String → TenantClient → Jid → OutMessage → String → Exec Sessions DeliveryReceipt
  transmit tenant_id tc to message key s =
      transmitted tenant_id tc to message (net.send_message (length s.sent) to message key) s

  -- the part behind the resolved recipient: the guard, and the network
  pub send_to : TenantClient → Jid → OutboundMessage → Exec Sessions DeliveryReceipt
  unfolding is_self_chat transmitted build_outbound_message
  send_to tc to msg = do
    binding ← in_engine (get_channel_binding msg.tenant_id channel_whatsapp)
    in_engine
        (enforce_a0_outbound_guard env binding (record msg { recipient_identifier = to.text }))
    transmit msg.tenant_id tc to (build_outbound_message msg (is_self_chat tc to))
        msg.idempotency_key

  pub send_from : OutboundMessage → TenantClient → Exec Sessions DeliveryReceipt
  unfolding destination send_to
  send_from msg tc =
      if not tc.connected || not (tc.status == session_active)
      then throw session_not_connected
      else (do to ← lift (destination tc msg); send_to tc to msg)

  unfoldable pub send_outbound : OutboundMessage → Exec Sessions DeliveryReceipt
  unfolding send_from
  send_outbound msg = do
    found ← gets (λ (s : Sessions). get msg.tenant_id s.clients)
    tc ← or_throw found adapter_not_available
    send_from msg tc

  -- OnSession is NotifyChannelSession of the engine
  pub publish : TenantClient → SessionStatus → Exec Sessions (Unit {0})
  publish tc status = do
    save_client (record tc { status = status })
    in_engine (notify_session_status env tc.tenant_id channel_whatsapp status)

  unfoldable logout : String → Exec Sessions (Unit {0})
  unfolding publish
  logout tenant_id = do
    found ← gets (λ (s : Sessions). get tenant_id s.clients)
    elim found [
      | none ↦ skip
      | some tc ↦ (do
        modify (λ s. record s { clients = remove tenant_id s.clients })
        in_engine (notify_session_status env tc.tenant_id channel_whatsapp session_suspended))
    ]

  -- the body of the loop of Restore
  restore_binding : List (Option Jid) → ChannelBinding → Exec Sessions (Unit {0})
  restore_binding devices binding =
      if not (binding.channel == channel_whatsapp)
      then skip
      else (elim (pick_device devices binding.provider_number) [
        | none ↦ skip
        | some id ↦
            if not (net.connects binding.tenant_id)
            then skip
            else save_client (record {
              tenant_id = binding.tenant_id;
              connected = true;
              device = some id;
              current_qr = "";
              pairing = false;
              status = session_connecting;
              recipient = some id;
              recent_sent = new_sent_ids 64;
            })
      ])

  -- `devices` is what the container lists
  unfoldable restore : Result (List (Option Jid)) → List ChannelBinding → Exec Sessions (Unit {0})
  unfolding restore_binding pick_device
  restore devices bindings = do listed ← lift devices; for_each bindings (restore_binding listed)

  -- the test of dispatchInbound: our own message coming back
  pub is_echo : TenantClient → MessageInfo → String → Bool
  is_echo tc info body =
      has info.id tc.recent_sent || (info.is_from_me && contains_text body "[packet:")

  -- `inbound` of the engine; its error is only logged
  pub dispatch_inbound : TenantClient → MessageInfo → InMessage → Exec Sessions (Unit {0})
  unfolding is_echo
  dispatch_inbound tc info message =
      let body = extract_text message in
      if is_echo tc info body
      then skip
      else ignore (
          in_engine (
            handle_whatsapp_inbound env tc.tenant_id (record {
              sender_identifier = (info.sender).user;
              sender_jid = (info.sender).text;
              provider_message_id = info.id;
              channel = channel_whatsapp;
              button_payload = extract_button_reply message;
              free_text = body;
              received_at = info.timestamp;
              is_from_me = info.is_from_me;
            })))

  -- the events of a client that the manager still holds
  pub data Event : Type 0 where
    connected disconnected logged_out : Event
    pair_success : Jid → Event
    message : MessageInfo → InMessage → Event

  abbrev or_device : TenantClient → Option Jid
  or_device tc = elim tc.recipient [ none ↦ tc.device | some jid ↦ some jid ]

  unfoldable handle_event : TenantClient → Event → Exec Sessions (Unit {0})
  unfolding publish dispatch_inbound
  handle_event tc connected = publish (record tc { recipient = or_device tc }) session_active
  handle_event tc disconnected = publish tc session_disconnected
  handle_event tc logged_out = publish tc session_suspended
  handle_event tc (pair_success id) =
      save_client (record tc { recipient = some id; current_qr = ""; pairing = false })
  handle_event tc (message info m) = dispatch_inbound tc info m
