-- ===== src/App/Signals.antt =====
-- What an operator's signal does: persistSignal, persistApproval, persistCorrection and
-- SendApprovedCustomerReply of internal/app/app.go.
pub mod Reply
pub mod Once
pub mod Supervised
use victoria.Prelude.{
  String, Bool, true, false, none, some, List, [], ◌∷◌, ◌++◌, ◌==◌, not, if◌then◌else◌,
}
use victoria.Exec.{
  Error, Result, ok, err, not_found, adapter_not_available, session_not_connected, Exec, throw,
  pure, attempt, skip, lift, ◌>>=◌, ◌>>◌,
}
use victoria.Text.{trim_space}
use victoria.Domain.{text, action_approve, ApprovalSignalEnvelope, Correction}
use victoria.Memory.Audit.{seen_signal, mark_signal_seen}
use victoria.Memory.Cases.{update_decision_point_status, update_case_run_status}
use victoria.Memory.Learning.{create_correction}
use victoria.App.{Env, World}
use victoria.App.Core.{in_store, new_id, audit, entries}
use victoria.App.Candidates.Merge.{merge_candidate}
use Reply.{send_approved_customer_reply}

-- the errors of a send that leave the approval as it is
tolerated : Error → Bool
tolerated adapter_not_available = true
tolerated session_not_connected = true
tolerated not_found = true
tolerated _ = false

-- what a failed send does to the approval
unfoldable pub settle : {A : Type 0} → Result A → Exec World (Unit {0})
unfolding tolerated
settle (ok a) = skip
settle (err e) = if tolerated e then skip else throw e

correction_of : String → ApprovalSignalEnvelope → Correction
correction_of id envelope = record {
  id = id;
  schema_version = envelope.schema_version;
  idempotency_key = envelope.idempotency_key;
  packet_id = envelope.packet_id;
  case_run_id = envelope.case_run_id;
  decision_point_id = envelope.decision_point_id;
  tenant_id = envelope.tenant_id;
  operator_id = envelope.operator_id;
  channel = envelope.channel;
  source_message_id = envelope.source_message_id;
  raw_inbound_message_id = envelope.raw_inbound_message_id;
  action_button = envelope.action_button;
  free_text = envelope.free_text;
  follow_up_answer = envelope.follow_up_answer;
  scope_hint = envelope.scope_hint;
  parse_method = envelope.parser_method;
  parse_confidence = envelope.parser_confidence;
  created_at = envelope.ts;
}

module _ (env : Env) where
  unfoldable pub persist_approval : ApprovalSignalEnvelope → Exec World (Unit {0})
  unfolding settle
  persist_approval envelope = do
    let note = trim_space envelope.free_text
    audit env envelope.tenant_id "approval_received" "operator" envelope.operator_id
        "decision_point" envelope.decision_point_id
        (entries (
          ("case_run_id", text envelope.case_run_id) ∷ ("packet_id", text envelope.packet_id) ∷ []))
        (entries (
          (("action_button", text envelope.action_button) ∷ ("channel", text envelope.channel) ∷ [])
          ++ (if note == "" then [] else ("operator_note", text note) ∷ [])))
        ("approval" ∷ envelope.tenant_id ∷ envelope.case_run_id ∷ envelope.decision_point_id
          ∷ envelope.action_button ∷ [])
    in_store (update_decision_point_status envelope.tenant_id envelope.decision_point_id "approved")
    in_store (update_case_run_status envelope.tenant_id envelope.case_run_id "approved")
    sent ← attempt (send_approved_customer_reply env envelope.tenant_id envelope.case_run_id)
    settle sent

  -- the part of persistCorrection for a correction that is new
  unfoldable pub learn_correction : ApprovalSignalEnvelope → Correction → Exec World (Unit {0})
  learn_correction envelope correction = do
    audit env envelope.tenant_id "correction_received" "operator" envelope.operator_id "correction"
        correction.id
        (entries (
          ("case_run_id", text envelope.case_run_id)
          ∷ ("decision_point_id", text envelope.decision_point_id)
          ∷ ("packet_id", text envelope.packet_id)
          ∷ []))
        (entries (
          ("action_button", text envelope.action_button) ∷ ("channel", text envelope.channel) ∷ []))
        ("correction" ∷ envelope.tenant_id ∷ envelope.idempotency_key ∷ [])
    in_store
        (update_decision_point_status envelope.tenant_id envelope.decision_point_id "corrected")
    in_store (update_case_run_status envelope.tenant_id envelope.case_run_id "corrected")
    merge_candidate env correction

  unfoldable pub persist_correction : ApprovalSignalEnvelope → Exec World (Unit {0})
  unfolding correction_of learn_correction
  persist_correction envelope = do
    id ← new_id env "corr"
    created ← in_store (create_correction (correction_of id envelope))
    if created then learn_correction envelope (correction_of id envelope) else skip

  pub persist_signal : ApprovalSignalEnvelope → Exec World (Unit {0})
  unfolding persist_approval persist_correction
  persist_signal envelope = do
    seen ← in_store (seen_signal envelope.signal_id)
    if seen then skip else (do
      in_store (mark_signal_seen envelope.signal_id)
      if envelope.action_button == action_approve
          then persist_approval envelope
          else persist_correction envelope)
