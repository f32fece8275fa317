-- ===== src/App/Signals/Reply.antt =====
-- SendApprovedCustomerReply of internal/app/app.go: the draft goes to the operator where the binding is
-- read-only, and to the customer where it has full control.
pub mod SentOnce
use victoria.Prelude.{String, none, some, [], ◌∷◌, ◌==◌, ◌&&◌, not, if◌then◌else◌, join, eqb}
use victoria.Exec.{
  Result, ok, err, approval_required, invalid_input, Exec, pure, throw, attempt, ignore, ◌>>=◌,
  ◌>>◌,
}
use victoria.Domain.{
  text, string_value, parse_inbound_mode, inbound_read_only, inbound_full_control, CaseRun,
  ChannelBinding, OutboundToCustomer, OutboundMessage, sha256_key,
}
use victoria.Memory.Audit.{approval_audit_id}
use victoria.Memory.Cases.{get_case_run}
use victoria.Memory.Customers.{upsert_outbound_to_customer, no_outbound}
use victoria.Memory.Tenants.{channel_binding_by_tenant}
use victoria.App.{Env, World}
use victoria.App.Helpers.{
  operator_recipient, normalize_whatsapp_jid, pick_customer_label, draft_body_for_run,
  channel_whatsapp,
}
use victoria.App.Core.{in_store, clock_now, new_id, audit, entries}
use victoria.App.Outbound.{send_whatsapp, send_whatsapp_with_receipt}

module _ (env : Env) where
  abbrev reply_message :
      (tenant_id case_run_id recipient packet_id body kind body_hash : String) → OutboundMessage
  reply_message tenant_id case_run_id recipient packet_id body kind body_hash = record {
    tenant_id = tenant_id;
    recipient_identifier = recipient;
    packet_id = packet_id;
    body_text = body;
    buttons = [];
    idempotency_key = sha256_key env.hashing (kind ∷ tenant_id ∷ case_run_id ∷ body_hash ∷ []);
  }

  -- the branch of a read-only binding
  unfoldable pub draft_to_operator :
      String → String → CaseRun → ChannelBinding → Exec World OutboundToCustomer
  draft_to_operator tenant_id case_run_id run binding = do
    let body = draft_body_for_run run
    let body_hash = sha256_key env.hashing (body ∷ [])
    let recipient =
        if operator_recipient binding == ""
        then normalize_whatsapp_jid binding.provider_number
        else operator_recipient binding
    send_whatsapp env binding (
        reply_message tenant_id case_run_id recipient run.decision_point_id
          (join "✅ Approved. Long-press the next message → Forward → pick "
            (join (pick_customer_label run.input_payload) "'s chat."))
          "draft-instruction" body_hash)
    send_whatsapp env binding (
        reply_message tenant_id case_run_id recipient run.decision_point_id body "draft-body"
          body_hash)
    audit env tenant_id "outbound_draft_delivered_to_operator" "system" "app" "case_run" case_run_id
        none (entries (("body_hash", text body_hash) ∷ []))
        ("draft-delivered" ∷ tenant_id ∷ case_run_id ∷ body_hash ∷ [])
    pure no_outbound

  -- the send of the full-control branch, once the row of the message is there
  unfoldable pub send_to_customer :
      (tenant_id case_run_id approval_id recipient body body_hash : String)
      → CaseRun
      → ChannelBinding
      → OutboundToCustomer
      → Exec World OutboundToCustomer
  send_to_customer tenant_id case_run_id approval_id recipient body body_hash run binding out = do
    receipt ← send_whatsapp_with_receipt env binding (
        reply_message tenant_id case_run_id recipient run.decision_point_id body "customer-outbound"
          body_hash)
    now ← clock_now
    stored ← in_store (
        upsert_outbound_to_customer (record out {
          provider_message_id = receipt.provider_message_id;
          sent_at = some (if eqb receipt.sent_at 0 then now else receipt.sent_at);
          status = "sent";
        }))
    audit env tenant_id "customer_outbound_sent" "system" "app" "case_run" case_run_id
        (entries (("mcp_approval_audit_id", text approval_id) ∷ []))
        (entries (
          ("recipient_jid", text recipient)
          ∷ ("body_hash", text body_hash)
          ∷ ("provider_message_id", text receipt.provider_message_id)
          ∷ []))
        ("customer-outbound-sent" ∷ tenant_id ∷ case_run_id ∷ body_hash ∷ [])
    pure stored.stored

  -- the branch of a full-control binding, with the approval that was found
  unfoldable pub reply_to_customer :
      String → String → CaseRun → ChannelBinding → String → Exec World OutboundToCustomer
  unfolding send_to_customer
  reply_to_customer tenant_id case_run_id run binding approval_id =
      let body = draft_body_for_run run in
      let body_hash = sha256_key env.hashing (body ∷ []) in
      let customer = string_value run.input_payload "customer_identifier" "" in
      let recipient = normalize_whatsapp_jid customer in
      if customer == "" then throw invalid_input else (do
        id ← new_id env "otc"
        let out : OutboundToCustomer = record {
          id = id;
          tenant_id = tenant_id;
          case_run_id = case_run_id;
          channel = "whatsapp_a1";
          recipient_identifier = recipient;
          body_hash = body_hash;
          mcp_approval_audit_id = approval_id;
          provider_message_id = "";
          sent_at = none;
          status = "queued";
        }
        upserted ← in_store (upsert_outbound_to_customer out)
        if not upserted.created && upserted.stored.status == "sent"
            then pure upserted.stored
            else send_to_customer tenant_id case_run_id approval_id recipient body body_hash run
                binding out)

  -- a full-control reply without an approval is refused
  unfoldable pub reply_with_approval :
      String → String → CaseRun → ChannelBinding → Result String → Exec World OutboundToCustomer
  unfolding reply_to_customer
  reply_with_approval tenant_id case_run_id run binding (ok approval_id) =
      reply_to_customer tenant_id case_run_id run binding approval_id
  reply_with_approval tenant_id case_run_id run binding (err e) = do
    ignore (
        audit env tenant_id "mcp_blocked_write_attempted" "system" "app" "case_run" case_run_id none
          (entries (("reason", text "approval_required") ∷ []))
          ("mcp-blocked-customer"
            ∷ tenant_id
            ∷ case_run_id
            ∷ sha256_key env.hashing (draft_body_for_run run ∷ [])
            ∷ []))
    throw approval_required

  unfoldable pub send_approved_customer_reply : String → String → Exec World OutboundToCustomer
  unfolding draft_to_operator reply_with_approval
  send_approved_customer_reply tenant_id case_run_id = do
    run ← in_store (get_case_run tenant_id case_run_id)
    binding ← in_store (channel_binding_by_tenant tenant_id channel_whatsapp)
    if parse_inbound_mode binding.inbound_mode == inbound_read_only
        then draft_to_operator tenant_id case_run_id run binding
        else if parse_inbound_mode binding.inbound_mode == inbound_full_control
        then (do
          approval ← attempt (in_store (approval_audit_id tenant_id run.id run.decision_point_id))
          reply_with_approval tenant_id case_run_id run binding approval)
        else throw invalid_input
