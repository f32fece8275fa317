-- ===== src/Http/Tenants.antt =====
-- The handlers behind a tenant's token of internal/httpapi/server.go, but those of the session.
use victoria.Prelude.{String, false, Option, none, some, ◌==◌, if◌then◌else◌}
use victoria.Exec.{Result, ok, err, Exec, pure, attempt, ◌>>=◌, ◌>>◌}
use victoria.Domain.{ChannelBinding, McpResult, ReviewPacket}
use victoria.App.{Env, World}
use victoria.App.Helpers.{channel_whatsapp}
use victoria.App.Cases as Cases
use victoria.App.Ingestion as Ingestion
use victoria.App.Mcp.{Answer, call_mcp_write_final}
use victoria.App.Provisioning.{WhatsAppConsentInput, acknowledge_whatsapp_consent}
use victoria.App.Commands.{add_whatsapp_customer, remove_whatsapp_customer, list_whatsapp_customers}
use victoria.App.Queries.{load_skill_version, candidates_of, get_channel_binding}
use victoria.Http.{
  Server, Response, Decoded, CaseRequest, WriteFinalRequest, TenantCall, start_case,
  active_skill_version, list_candidates, mcp_write_final, ingest_customer_message, whatsapp_consent,
  whatsapp_add_customer, whatsapp_remove_customer, whatsapp_init, whatsapp_qr, whatsapp_qr_png,
  whatsapp_status, whatsapp_logout, started, skill_version, candidates, result, ingested, binding,
  customers,
}
use victoria.Http.Errors.{respond, write_error_with_payload, answer, decode_json}
use victoria.Http.Pairing.{
  serve_whatsapp_init, serve_whatsapp_qr, serve_whatsapp_qr_png, serve_whatsapp_status,
  serve_whatsapp_logout,
}

-- redactBinding: the secret never leaves with a binding
redact_binding : ChannelBinding → ChannelBinding
redact_binding b = record b { command_registration_secret = "" }

-- `if packet.PacketID != ""`
shown_packet : Option ReviewPacket → Option ReviewPacket
shown_packet none = none
shown_packet (some packet) = if packet.packet_id == "" then none else some packet

abbrev pub no_result : McpResult
no_result = record { accepted = false; code = ""; error = "" }

module _ (env : Env) where
  -- the result goes out beside the error
  write_final_answer : Result Answer → Response
  write_final_answer (err e) = write_error_with_payload env (some no_result) e
  write_final_answer (ok given) = elim given.error [
    | none ↦ respond 200 (result given.result)
    | some e ↦ write_error_with_payload env (some given.result) e
  ]

  -- the allowlist after a change of it
  list_after : String → Exec World (Unit {0}) → Exec World Response
  list_after tenant_id change =
      answer env (do change; list_whatsapp_customers tenant_id)
        (λ found. respond 200 (customers found))

  serve_start_case : String → Decoded CaseRequest → Exec World Response
  serve_start_case tenant_id req = decode_json env req (λ (r : CaseRequest).
      answer env
        (Cases.start_case env (record {
          tenant_id = tenant_id;
          workflow_slug = r.workflow_slug;
          mode = r.mode;
          payload = r.payload;
        }))
        (λ done. respond 201 (started done.run done.packet)))

  serve_active_skill_version : String → String → Exec World Response
  serve_active_skill_version tenant_id slug =
      answer env (load_skill_version tenant_id (if slug == "" then "quote_drafting" else slug))
        (λ sv. respond 200 (skill_version sv))

  serve_list_candidates : String → Exec World Response
  serve_list_candidates tenant_id =
      answer env (candidates_of tenant_id) (λ found. respond 200 (candidates found))

  serve_mcp_write_final : String → Decoded WriteFinalRequest → Exec World Response
  unfolding write_final_answer
  serve_mcp_write_final tenant_id req = decode_json env req (λ (r : WriteFinalRequest). do
    given ← attempt (call_mcp_write_final env tenant_id r.server_mode r.request)
    pure (write_final_answer given))

  serve_ingest_customer_message : String → Decoded Ingestion.IngestionEvent → Exec World Response
  unfolding shown_packet
  serve_ingest_customer_message tenant_id req =
      decode_json env req (λ (r : Ingestion.IngestionEvent).
        answer env (Ingestion.ingest_customer_message env (record r { tenant_id = tenant_id }))
          (λ done. respond 202 (ingested done.case_run_id (shown_packet done.packet))))

  serve_whatsapp_consent : String → Decoded WhatsAppConsentInput → Exec World Response
  unfolding redact_binding
  serve_whatsapp_consent tenant_id req = decode_json env req (λ (r : WhatsAppConsentInput).
      answer env
        (do
          acknowledge_whatsapp_consent env tenant_id r
          get_channel_binding tenant_id channel_whatsapp)
        (λ b. respond 200 (binding (redact_binding b))))

  serve_whatsapp_add_customer : String → Decoded String → Exec World Response
  unfolding list_after
  serve_whatsapp_add_customer tenant_id req =
      decode_json env req
        (λ customer. list_after tenant_id (add_whatsapp_customer tenant_id customer))

  serve_whatsapp_remove_customer : String → Decoded String → Exec World Response
  unfolding list_after
  serve_whatsapp_remove_customer tenant_id req =
      decode_json env req
        (λ customer. list_after tenant_id (remove_whatsapp_customer tenant_id customer))

  -- `encode` is qrcode.Encode
  unfoldable pub serve_tenant :
      Server → (String → Option String) → String → TenantCall → Exec World Response
  unfolding serve_start_case serve_active_skill_version serve_list_candidates serve_mcp_write_final
      serve_ingest_customer_message serve_whatsapp_consent serve_whatsapp_add_customer
      serve_whatsapp_remove_customer
  serve_tenant server encode tenant_id (start_case req) = serve_start_case tenant_id req
  serve_tenant server encode tenant_id (active_skill_version slug) =
      serve_active_skill_version tenant_id slug
  serve_tenant server encode tenant_id list_candidates = serve_list_candidates tenant_id
  serve_tenant server encode tenant_id (mcp_write_final req) = serve_mcp_write_final tenant_id req
  serve_tenant server encode tenant_id (ingest_customer_message req) =
      serve_ingest_customer_message tenant_id req
  serve_tenant server encode tenant_id (whatsapp_consent req) = serve_whatsapp_consent tenant_id req
  serve_tenant server encode tenant_id (whatsapp_add_customer req) =
      serve_whatsapp_add_customer tenant_id req
  serve_tenant server encode tenant_id (whatsapp_remove_customer req) =
      serve_whatsapp_remove_customer tenant_id req
  serve_tenant server encode tenant_id whatsapp_init = serve_whatsapp_init env server tenant_id
  serve_tenant server encode tenant_id whatsapp_qr = serve_whatsapp_qr env server tenant_id
  serve_tenant server encode tenant_id whatsapp_qr_png =
      serve_whatsapp_qr_png env server encode tenant_id
  serve_tenant server encode tenant_id whatsapp_status = serve_whatsapp_status env server tenant_id
  serve_tenant server encode tenant_id whatsapp_logout = serve_whatsapp_logout env server tenant_id
