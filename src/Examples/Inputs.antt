-- ===== src/Examples/Inputs.antt =====
-- Requests, messages and corrections for the world of the example.
use victoria.Prelude.{String, true, false, none, some, [], ◌∷◌}
use victoria.Domain.{
  InboundMessage, OutboundMessage, ApprovalSignalEnvelope, McpRequest, ReviewPacket, Condition,
  Correction, DecisionPoint, OutboundToCustomer, sha256_key, text, flag, CaseRun,
}
use victoria.Memory.{triple_key}
use victoria.App.{World}
use victoria.App.Helpers.{draft_body_for_run}
use victoria.App.Cases.{StartCaseInput}
use victoria.Examples.Data.{hashing, store, world}

abbrev pub request : McpRequest
request = record {
  tenant_header = "t1";
  case_run_id = "cr1";
  decision_point_id = "dp1";
  mode = "live";
  tool_name = "send_draft_email";
  idempotency_key = "i1";
}

abbrev pub envelope_of_button : String → ApprovalSignalEnvelope
envelope_of_button action = record {
  schema_version = "1";
  signal_id = "s1";
  idempotency_key = "ik1";
  packet_id = "pk1";
  case_run_id = "cr1";
  decision_point_id = "dp1";
  tenant_id = "t1";
  operator_id = "op1";
  channel = "whatsapp";
  source_message_id = "m9";
  raw_inbound_message_id = "whatsapp:m9";
  ts = 9;
  action_button = action;
  free_text = "hold and ask for photos";
  follow_up_answer = "";
  scope_hint = none;
  parser_method = "button";
  parser_confidence = 1;
}

abbrev pub to_recipient : String → OutboundMessage
to_recipient recipient = record {
  tenant_id = "t1";
  recipient_identifier = recipient;
  packet_id = "pk1";
  body_text = "hello";
  buttons = [];
  idempotency_key = "k";
}

abbrev pub packet : ReviewPacket
packet = record {
  packet_id = "pk2";
  schema_version = "1";
  tenant_id = "t1";
  case_run_id = "cr1";
  decision_point_id = "dp1";
  workflow_type = "quote_drafting";
  mode = "sandbox";
  trigger = none;
  facts = [];
  planned_action = record {
    kind = "send_quote";
    description = "";
    is_destructive = false;
    requires_approval = true;
  };
  draft_reply = "";
  artifact_preview = record {
    kind = "";
    preview_url = "";
    inline_thumbnail_url = "";
    expires_at = 0;
  };
  button_set = "approve" ∷ [];
  expires_at = 100;
  idempotency_key = "k2";
  delivered = false;
}

abbrev pub stranger : InboundMessage
stranger = record {
  sender_identifier = "62@s.whatsapp.net";
  sender_jid = "62@s.whatsapp.net";
  provider_message_id = "m2";
  channel = "whatsapp";
  button_payload = "";
  free_text = "hello there";
  received_at = 9;
  is_from_me = false;
}

abbrev pub correction : Correction
correction = record {
  id = "c1";
  schema_version = "1";
  idempotency_key = "ik1";
  packet_id = "pk1";
  case_run_id = "cr1";
  decision_point_id = "dp1";
  tenant_id = "t1";
  operator_id = "op1";
  channel = "whatsapp";
  source_message_id = "m9";
  raw_inbound_message_id = "whatsapp:m9";
  action_button = "wrong_action";
  free_text = "hold and ask for photos";
  follow_up_answer = "";
  scope_hint = none;
  parse_method = "button";
  parse_confidence = 1;
  created_at = 9;
}

abbrev pub point : DecisionPoint
point = record {
  id = "dp1";
  tenant_id = "t1";
  case_run_id = "cr1";
  decision_type = "send_or_hold";
  agent_input = none;
  proposed_action = "send_quote";
  status = "waiting_for_approval";
  created_at = 3;
}

abbrev pub input : StartCaseInput
input = record {
  tenant_id = "t1";
  workflow_slug = "quote_drafting";
  mode = "sandbox";
  payload = some (("sandbox", flag true) ∷ []);
}

abbrev pub run : CaseRun
run = record {
  id = "cr9";
  tenant_id = "t1";
  workflow_slug = "quote_drafting";
  mode = "live";
  input_payload = none;
  input_hash = "h";
  skill_version_id = "sv1";
  replayed_from_id = "";
  status = "waiting_for_approval";
  decision_point_id = "";
  created_at = 3;
  completed_at = none;
  replay_temperature = 0;
}

abbrev pub condition_of : String → String → Condition
condition_of field value = record { field = field; operator = "eq"; value = text value }

-- a reply that was sent
abbrev pub sent_reply : OutboundToCustomer
sent_reply = record {
  id = "otc1";
  tenant_id = "t1";
  case_run_id = "cr9";
  channel = "whatsapp_a1";
  recipient_identifier = "61@s.whatsapp.net";
  body_hash = "h";
  mcp_approval_audit_id = "ae1";
  provider_message_id = "provider";
  sent_at = some 8;
  status = "sent";
}

abbrev pub replied : World
replied = record world {
  store = record store {
    customer_out = ("otc1", sent_reply) ∷ [];
    out_by_key =
        (triple_key "t1" "cr9" (sha256_key hashing (draft_body_for_run run ∷ [])), "otc1") ∷ [];
  };
}
