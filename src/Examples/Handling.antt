-- ===== src/Examples/Handling.antt =====
-- One run of each property about messages, signals and the queue, in the world of the example.
use victoria.App.Helpers.{draft_body_for_run}
use victoria.Domain.{sha256_key}
use victoria.Prelude.{
  eq_refl, String, true, false, none, ◌≡◌, refl, [], ◌∷◌, ◌==◌, ◌||◌, arith, ◌⊎◌,
}
use victoria.Exec.{ok, err, panic}
use victoria.Examples.Data.{
  entry, hashing, env, world, approval, binding, version_of, event, tenant, message, store,
}
use victoria.Examples.Inputs.{
  sent_reply, replied, request, envelope_of_button, to_recipient, packet, stranger, input, run,
}
use victoria.Exec.{◌>>=◌, throw_if, lift, or_throw, gets, attempt, ignore, pure, skip, throw}
use victoria.App.Core.{in_store, clock_now, new_id, audit}
use victoria.Memory.Audit.Log.{IsLogged, create_audit_event-once}
use victoria.App.Signals.Reply.{reply_to_customer}
use victoria.App.Signals.Reply.SentOnce.{reply_to_customer-once}
use victoria.App.Cases.{store_case}
use victoria.App.Cases.Decision.{consult_agent, fits}
use victoria.App.Cases.Packet.{build_artifact, build_review_packet}
use victoria.Domain.{bool_value, write, valid_for_workflow_input}
use victoria.Memory.{pair_key}
use victoria.Memory.Tenants.{get_tenant, get_workflow_template}
use victoria.Memory.Cases.{create_case_run, create_decision_point, create_artifact}
use victoria.Memory.Audit.{create_audit_event}
use victoria.Memory.Packets.{create_review_packet}
use victoria.Memory.Queue.{outbound_queue_depth, enqueue_outbound}
use victoria.Rules.{conditions_match, workflow_decision}
use victoria.App.Gateway.{
  preferred_channel, has_operator_recipient, can_deliver_now, session_status,
}
use victoria.App.Gateway.Delivery.{send_approval_packet, deliver_packet, send_packet}
use victoria.App.Outbound.{has_adapter, adapter_send}
use victoria.App.Helpers.{operator_recipient}
use victoria.App.Mcp.{granted, call_mcp_write_final}
use victoria.App.Mcp.Gate.{call_mcp_write_final-granted}
use victoria.App.Signals.{persist_signal}
use victoria.App.Signals.Once.{persist_signal-once}
use victoria.App.Signals.Supervised.{in_force, persist_signal-in_force}
use victoria.GoMap.{first, values}
use victoria.Domain.{read, valid_action}
use victoria.Memory.Audit.{is_approval}
use victoria.App.Outbound.{guard_passes, send_outbound_with_binding}
use victoria.App.Outbound.Isolation.{
  IsOwn, guard_passes-unset, send_outbound_with_binding-read_only,
}
use victoria.App.Gateway.Delivery.{enqueue_packet}
use victoria.Memory.Queue.Oldest.{EvictsOldest, delete_oldest-EvictsOldest}
use victoria.App.Cases.Decision.{first_match, evaluate_decision}
use victoria.GoMap.{get, count}
use victoria.Memory.Queue.{queued_for, delete_oldest_outbound_queue_entry}
use victoria.Memory.Tenants.{channel_binding_by_tenant, binds}
use victoria.App.Helpers.{normalize_whatsapp_jid, normalize_inbound_jid, contains}
use victoria.Memory.{Store, triple_key}
use victoria.Text.{contains_text, trim_space, to_lower, has_prefix}
use victoria.Domain.{parse_inbound_mode}
use victoria.App.Operator.{handle_whatsapp_inbound}
use victoria.App.Operator.Isolation.{SameButLog, handle_whatsapp_inbound-stranger}
use victoria.App.Ingestion.{ingest_customer_message, incomplete, trimmed}
use victoria.App.Ingestion.Replays.{ingest_customer_message-again}
use victoria.App.Gateway.Followups.{consume_pending_followup}
use victoria.App.Gateway.Followups.Turns.{next_turn, consume-set}
use victoria.App.Cases.{start_case}
use victoria.App.Cases.Gate.{Admitted, start_case-Admitted, evaluate_decision-panics}
use victoria.App.Commands.Allowlist.{Stored, change_allowlist-contains}
use victoria.App.Commands.{add_whatsapp_customer}
use victoria.Memory.Skills.{active_skill_version}

call_mcp_write_final-granted_example :
    (call_mcp_write_final env "t1" "live" request world).0 ≡ ok granted
unfolding first values is_approval read get
call_mcp_write_final-granted_example =
    (call_mcp_write_final-granted env "t1" "live" request world).1
      (refl, refl, refl, (approval, refl))

persist_signal-once_example :
    persist_signal env
      (envelope_of_button "approve")
      (persist_signal env (envelope_of_button "approve") world).1
    ≡ (ok tt, (persist_signal env (envelope_of_button "approve") world).1)
persist_signal-once_example = persist_signal-once env (envelope_of_button "approve") world

persist_signal-in_force_example :
    in_force (persist_signal env (envelope_of_button "wrong_action") world).1.store ≡ in_force store
persist_signal-in_force_example =
    persist_signal-in_force env (envelope_of_button "wrong_action") world

send_outbound_with_binding-read_only_example :
    ((send_outbound_with_binding env binding (to_recipient "65111") world).1.outbox ≡ [])
    ⊎ IsOwn binding "65111"
send_outbound_with_binding-read_only_example =
    send_outbound_with_binding-read_only env binding (to_recipient "65111") world refl

abbrev two_queued : Store
two_queued = record store {
  outbound_queue = ("oq_1", entry) ∷ ("oq_2", record entry { id = "oq_2"; enqueued_at = 2 }) ∷ [];
}

delete_oldest-EvictsOldest_example :
    (id : String) × ((delete_oldest_outbound_queue_entry "t1" "whatsapp" two_queued).0 ≡ ok id)
    × EvictsOldest "t1" "whatsapp" id two_queued.outbound_queue
        (delete_oldest_outbound_queue_entry "t1" "whatsapp" two_queued).1.outbound_queue
unfolding count values queued_for
delete_oldest-EvictsOldest_example =
    delete_oldest-EvictsOldest "t1" "whatsapp" two_queued (refl, (refl, tt)) (omega arith)

handle_whatsapp_inbound-stranger_example :
    ((handle_whatsapp_inbound env "t1" stranger world).0 ≡ ok tt)
    × SameButLog world (handle_whatsapp_inbound env "t1" stranger world).1
unfolding channel_binding_by_tenant first values binds parse_inbound_mode contains
    normalize_inbound_jid has_prefix to_lower trim_space normalize_whatsapp_jid contains_text
handle_whatsapp_inbound-stranger_example =
    handle_whatsapp_inbound-stranger env "t1" binding stranger world refl refl refl refl refl refl

ingest_customer_message-again_example :
    ingest_customer_message env event world
    ≡ (ok (record { case_run_id = "cr1"; packet = none }), record world { ids_made = 6 })
unfolding get incomplete trimmed trim_space triple_key
ingest_customer_message-again_example =
    ingest_customer_message-again env event world tenant "cm1" message refl refl refl refl refl

consume-set_example :
    (consume_pending_followup "t1" (next_turn "t1" "pk1" "wrong_facts" world 20)).0
    ≡ ok (record { packet_id = "pk1"; action = "wrong_facts"; found = true })
unfolding valid_action
consume-set_example = (consume-set "t1" "pk1" "wrong_facts" world 20).0

start_case-Admitted_example : Admitted input world
unfolding start_case store_case ◌>>=◌ throw_if in_store clock_now new_id lift or_throw gets attempt
    ignore pure skip throw evaluate_decision consult_agent build_artifact build_review_packet
    bool_value get_tenant get_workflow_template active_skill_version get pair_key first_match fits
    conditions_match workflow_decision write valid_for_workflow_input read create_case_run
    create_decision_point create_artifact send_approval_packet audit create_audit_event
    create_review_packet preferred_channel has_operator_recipient can_deliver_now session_status
    has_adapter contains channel_binding_by_tenant first values binds parse_inbound_mode
    operator_recipient deliver_packet send_packet adapter_send enqueue_packet outbound_queue_depth
    enqueue_outbound count queued_for
start_case-Admitted_example = start_case-Admitted env input world refl

evaluate_decision-panics_example :
    (evaluate_decision env 10 run none (version_of "sv1" 1) world).0 ≡ err panic
evaluate_decision-panics_example =
    (evaluate_decision-panics env 10 run none (version_of "sv1" 1) world).1 refl

change_allowlist-contains_example :
    Stored "t1" "63" world binding (add_whatsapp_customer "t1" "63" world).1 (λ b.
      (y : String)
      → contains b.customer_allowlist y
        ≡ (normalize_whatsapp_jid "63" == y || contains binding.customer_allowlist y))
unfolding channel_binding_by_tenant first values binds normalize_whatsapp_jid trim_space
    contains_text
change_allowlist-contains_example = (change_allowlist-contains "t1" "63" world binding refl refl).0

reply_to_customer-once_example :
    ((reply_to_customer env "t1" "cr9" run binding "ae1" replied).1.outbox ≡ [])
    × ((reply_to_customer env "t1" "cr9" run binding "ae1" replied).1.sends_made ≡ 0)
    × ((reply_to_customer env "t1" "cr9" run binding "ae1" replied).1.store.customer_out
        ≡ ("otc1", sent_reply) ∷ [])
unfolding get
reply_to_customer-once_example =
    reply_to_customer-once env "t1" "cr9" run binding "ae1" "otc1" sent_reply replied
      (rw (eq_refl (triple_key "t1" "cr9" (sha256_key hashing (draft_body_for_run run ∷ [])))) refl)
      refl refl

create_audit_event-once_example :
    IsLogged approval store
    × (create_audit_event (record approval { id = "ae9" }) (create_audit_event approval store).1
        ≡ (ok false, (create_audit_event approval store).1))
    × ((id : String)
        → (approval.id == id) ≡ false
        → get id (create_audit_event approval store).1.audit_events ≡ get id store.audit_events)
create_audit_event-once_example =
    create_audit_event-once approval (record approval { id = "ae9" }) store refl

guard_passes-unset_example :
    (parse_inbound_mode "" ≡ "read_only")
    × (guard_passes (record binding { inbound_mode = "" }) "62" ≡ true)
guard_passes-unset_example = guard_passes-unset (record binding { inbound_mode = "" }) "62" refl
