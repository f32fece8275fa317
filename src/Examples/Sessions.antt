-- ===== src/Examples/Sessions.antt =====
-- One run of each property about a session of WhatsApp.
use victoria.Prelude.{true, false, none, some, ◌≡◌, refl, [], ◌∷◌}
use victoria.Exec.{ok, ◌>>=◌}
use victoria.Text.{contains_text, trim_space}
use victoria.Memory.Tenants.{channel_binding_by_tenant}
use victoria.GoMap.{first, get, values}
use victoria.Domain.{OutboundMessage, DeliveryReceipt}
use victoria.App.Helpers.{normalize_whatsapp_jid}
use victoria.App.Core.{in_store}
use victoria.App.Outbound.{enforce_a0_outbound_guard}
use victoria.App.Queries.{get_channel_binding}
use victoria.Whatsapp.{Jid, TenantClient, Sessions, Network, MessageInfo}
use victoria.Whatsapp.Echoes.{new_sent_ids, add}
use victoria.Whatsapp.Messages.{InMessage}
use victoria.Whatsapp.Session.{in_engine, transmit, send_outbound, dispatch_inbound}
use victoria.Whatsapp.Session.Silence.{dispatch_inbound-echo}
use victoria.Examples.Data.{env, world}
use victoria.Whatsapp.Session.Home.{StaysHome, send_outbound-home}

abbrev operator_jid : Jid
operator_jid = record { user = "65111"; text = "65111@s.whatsapp.net" }

abbrev network : Network
network = record {
  parse_jid = λ s. ok (record { user = s; text = s });
  new_jid = λ s. record { user = s; text = s };
  no_jid = record { user = ""; text = "" };
  send_message = λ n to message key. ok (record { provider_message_id = "3EB0"; sent_at = 7 });
  connects = λ t. true;
}

abbrev client : TenantClient
client = record {
  tenant_id = "t1";
  connected = true;
  device = some operator_jid;
  current_qr = "";
  pairing = false;
  status = "active";
  recipient = some operator_jid;
  recent_sent = new_sent_ids 2;
}

abbrev sessions : Sessions
sessions = record { engine = world; clients = ("t1", client) ∷ []; sent = [] }

abbrev note : OutboundMessage
note = record {
  tenant_id = "t1";
  recipient_identifier = "";
  packet_id = "";
  body_text = "hello";
  buttons = [];
  idempotency_key = "k7";
}

abbrev receipt : DeliveryReceipt
receipt = record { provider_message_id = "3EB0"; sent_at = 7 }

abbrev echoed : MessageInfo
echoed = record { id = "3EB0"; sender = operator_jid; timestamp = 8; is_from_me = true }

abbrev words : InMessage
words = record {
  conversation = some "hello";
  extended_text = none;
  selected_button_id = none;
  selected_row_id = none;
  selected_template_id = none;
}

dispatch_inbound-echo_example :
    (tc : TenantClient) × (get "t1" (send_outbound env network note sessions).1.clients ≡ some tc)
    × (dispatch_inbound env network tc echoed words (send_outbound env network note sessions).1
        ≡ (ok tt, (send_outbound env network note sessions).1))
unfolding send_outbound ◌>>=◌ get in_engine get_channel_binding in_store channel_binding_by_tenant
    first values enforce_a0_outbound_guard normalize_whatsapp_jid trim_space contains_text transmit
    add new_sent_ids
dispatch_inbound-echo_example =
    dispatch_inbound-echo env network note sessions receipt echoed words refl refl refl

send_outbound-home_example : StaysHome note sessions (send_outbound env network note sessions).1
send_outbound-home_example = send_outbound-home env network note sessions
