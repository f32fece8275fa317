-- ===== src/App/Candidates/Merge.antt =====
-- mergeCandidate with its effects: the candidates saved, the audit events, the messages.
use victoria.Prelude.{
  String, Option, none, some, List, [], ◌∷◌, ◌==◌, ◌||◌, not, if◌then◌else◌, join, length, eqb,
}
use victoria.Exec.{Result, ok, err, Exec, lift, attempt, ignore, skip, for_each, ◌>>=◌, ◌>>◌}
use victoria.Domain.{
  Time, text, parse_inbound_mode, inbound_read_only, ChannelBinding, Condition, Correction,
  DecisionPoint, RuleCandidate, OutboundMessage, sha256_key, canonicalize_conditions,
}
use victoria.Memory.Cases.{get_decision_point}
use victoria.Memory.Tenants.{channel_binding_by_tenant}
use victoria.Memory.Learning.{list_candidates_by_conditions, save_candidate}
use victoria.Rules.{workflow_from_case_input}
use victoria.Rules.Parsing.{structured_rule_from_correction, draft_body_for_action}
use victoria.App.{Env, World}
use victoria.App.Helpers.{
  contains, operator_recipient, normalize_whatsapp_jid, pick_customer_label, channel_whatsapp,
}
use victoria.App.Core.{in_store, clock_now, new_id, audit, entries}
use victoria.App.Outbound.{send_whatsapp}
use victoria.App.Gateway.{send_notification}
use victoria.App.Candidates.{sort_siblings, contradicted, first_candidate, with_evidence}
use victoria.App.Candidates.Messages.{
  format_clarification_request, format_contradiction_alert, format_learning_status,
}

module _ (env : Env) where
  abbrev draft_message : Correction → (recipient body body_hash kind : String) → OutboundMessage
  draft_message correction recipient body body_hash kind = record {
    tenant_id = correction.tenant_id;
    recipient_identifier = recipient;
    packet_id = correction.decision_point_id;
    body_text = body;
    buttons = [];
    idempotency_key = sha256_key env.hashing (kind ∷ correction.id ∷ body_hash ∷ []);
  }

  -- the two messages and the audit event; the first failure ends it
  unfoldable pub deliver_draft :
      Correction → DecisionPoint → String → ChannelBinding → String → Exec World (Unit {0})
  deliver_draft correction point action binding body = do
    let recipient =
        if operator_recipient binding == ""
        then normalize_whatsapp_jid binding.provider_number
        else operator_recipient binding
    let body_hash = sha256_key env.hashing (body ∷ [])
    send_whatsapp env binding (
        draft_message correction recipient
          (join "📝 Draft for " (
            join (pick_customer_label point.agent_input)
              " based on your correction — long-press the next message → Forward."))
          body_hash "correction-draft-instruction")
    send_whatsapp env binding
        (draft_message correction recipient body body_hash "correction-draft-body")
    ignore (
        audit env correction.tenant_id "outbound_correction_draft_delivered" "system" "app"
          "correction" correction.id none
          (entries (("body_hash", text body_hash) ∷ ("recommended_action", text action) ∷ []))
          ("correction-draft-delivered" ∷ correction.tenant_id ∷ correction.id ∷ body_hash ∷ []))

  -- the part of deliverCorrectionDraftIfPossible behind the look-up of the binding
  unfoldable pub draft_for_binding :
      Correction → DecisionPoint → String → Result ChannelBinding → Exec World (Unit {0})
  unfolding deliver_draft
  draft_for_binding correction point action (err e) = skip
  draft_for_binding correction point action (ok binding) =
      if not (parse_inbound_mode binding.inbound_mode == inbound_read_only)
        || draft_body_for_action action point.agent_input == ""
      then skip
      else ignore (
          deliver_draft correction point action binding
            (draft_body_for_action action point.agent_input))

  unfoldable pub deliver_correction_draft_if_possible :
      Correction → DecisionPoint → String → Exec World (Unit {0})
  unfolding draft_for_binding
  deliver_correction_draft_if_possible correction point action = do
    binding ← attempt (in_store (channel_binding_by_tenant correction.tenant_id channel_whatsapp))
    draft_for_binding correction point action binding

  -- nothing could be read out of the correction: the operator is asked again
  unfoldable pub parse_failed : Correction → Exec World (Unit {0})
  parse_failed correction = do
    ignore (
        audit env correction.tenant_id "correction_parse_failed" "system" "learning" "correction"
          correction.id none (entries (("action_button", text correction.action_button) ∷ []))
          ("parse-failed" ∷ correction.tenant_id ∷ correction.id ∷ []))
    send_notification env correction.tenant_id (format_clarification_request correction.free_text)

  -- the body of the loop over the contradicting candidates
  unfoldable pub contradict : Time → Correction → String → RuleCandidate → Exec World (Unit {0})
  contradict now correction action conflict = do
    in_store (save_candidate (contradicted env.floats now conflict))
    ignore (
        audit env correction.tenant_id "candidate_contradiction_detected" "system" "learning"
          "rule_candidate" conflict.id
          (entries
            (("correction_id", text correction.id) ∷ ("conflicting_action", text action) ∷ []))
          none
          ("candidate-contradiction" ∷ correction.tenant_id ∷ conflict.id ∷ correction.id ∷ []))
    send_notification env correction.tenant_id
        (format_contradiction_alert (contradicted env.floats now conflict) action)

  -- what follows a candidate that was made or strengthened
  unfoldable pub tell :
      Correction → DecisionPoint → String → RuleCandidate → String → Exec World (Unit {0})
  unfolding deliver_correction_draft_if_possible
  tell correction point action c kind = do
    send_notification env correction.tenant_id (format_learning_status c kind)
    deliver_correction_draft_if_possible correction point action

  unfoldable pub create_candidate :
      Time
      → Correction
      → DecisionPoint
      → (hash workflow_slug action : String) → List Condition
      → List RuleCandidate
      → Exec World (Unit {0})
  unfolding contradict tell
  create_candidate now correction point hash workflow_slug action conditions contradicting = do
    for_each contradicting (contradict now correction action)
    id ← new_id env "rc"
    let c = first_candidate env.floats now id hash workflow_slug action conditions correction point
    in_store (save_candidate c)
    audited ← attempt (
        audit env correction.tenant_id "candidate_created" "system" "learning" "rule_candidate" c.id
          (entries (("correction_id", text correction.id) ∷ [])) none
          ("candidate-created" ∷ correction.tenant_id ∷ c.id ∷ []))
    tell correction point action c "first"
    lift (elim audited [ ok _ ↦ ok tt | err e ↦ err e ])

  unfoldable pub add_evidence :
      Time → Correction → DecisionPoint → String → RuleCandidate → Exec World (Unit {0})
  unfolding tell
  add_evidence now correction point action match =
      if contains match.source_correction_ids correction.id then skip else (do
        let c = with_evidence env.floats now correction match
        in_store (save_candidate c)
        audited ← attempt (
            audit env correction.tenant_id "candidate_evidence_added" "system" "learning"
              "rule_candidate" c.id (entries (("correction_id", text correction.id) ∷ [])) none
              ("candidate-evidence" ∷ correction.tenant_id ∷ c.id ∷ correction.id ∷ []))
        tell correction point action c "evidence"
        lift (elim audited [ ok _ ↦ ok tt | err e ↦ err e ]))

  -- `if match.ID == ""`, where the zero value stands for no match
  unfoldable pub merge_into :
      Time
      → Correction
      → DecisionPoint
      → (hash workflow_slug action : String) → List Condition
      → List RuleCandidate
      → Option RuleCandidate
      → Exec World (Unit {0})
  unfolding create_candidate add_evidence
  merge_into now correction point hash workflow_slug action conditions contradicting none =
      create_candidate now correction point hash workflow_slug action conditions contradicting
  merge_into now correction point hash workflow_slug action conditions contradicting (some c) =
      if c.id == ""
      then create_candidate now correction point hash workflow_slug action conditions contradicting
      else add_evidence now correction point action c

  -- the rule was read out of the correction
  unfoldable pub merge_rule :
      Correction → DecisionPoint → List Condition → String → Exec World (Unit {0})
  unfolding merge_into sort_siblings
  merge_rule correction point conditions action = do
    let canonical = canonicalize_conditions env.hashing conditions
    conditions_hash ← lift (env.hashing.marshal_conditions canonical)
    let hash = env.hashing.sha256_hex conditions_hash
    now ← clock_now
    let workflow_slug = workflow_from_case_input point.agent_input
    siblings ←
        in_store (
          list_candidates_by_conditions correction.tenant_id workflow_slug point.decision_type hash)
    let found = sort_siblings action (record { match = none; contradicting = [] }) siblings
    merge_into now correction point hash workflow_slug action canonical found.contradicting
        found.match

  unfoldable pub merge_candidate : Correction → Exec World (Unit {0})
  unfolding parse_failed merge_rule
  merge_candidate correction = do
    point ← in_store (get_decision_point correction.tenant_id correction.decision_point_id)
    let parsed = structured_rule_from_correction correction point
    if eqb (length parsed.conditions) 0 || parsed.recommended_action == ""
        then parse_failed correction
        else merge_rule correction point parsed.conditions parsed.recommended_action
