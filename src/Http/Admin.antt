-- ===== src/Http/Admin.antt =====
-- The handlers behind the admin token, and the operator's replies, of internal/httpapi/server.go.
use Prim.Native.Char.{Char, code}
use victoria.Prelude.{ℕ, String, List, [], ◌∷◌, ◌==◌, if◌then◌else◌, eqb}
use victoria.Exec.{Result, invalid_input, Exec, pure}
use victoria.Text.{trim_space, cons}
use victoria.Domain.{signal_name}
use victoria.App.{Env, World}
use victoria.App.Provisioning as Provisioning
use victoria.App.Cases as Cases
use victoria.App.Promotion as Promotion
use victoria.App.Queries.{audit_events_of}
use victoria.App.Gateway.Inbound.{InboundReply, receive_inbound}
use victoria.App.Signals.{persist_signal}
use victoria.Http.{
  Response, Decoded, TenantRequest, PromotionRequest, AdminCall, provision_tenant,
  promote_candidate, replay_case, reissue_secret, list_audit_events, provisioned, promoted,
  case_run, secret, audit_events, signal,
}
use victoria.Http.Errors.{respond, write_error, answer, decode_json}

abbrev pub split_head : Char → List String → List String
split_head c [] = cons c "" ∷ []
split_head c (w ∷ ws) = cons c w ∷ ws

-- strings.Split(raw, ",")
split_commas : String → List String
split_commas String.[] = "" ∷ []
split_commas (String.◌∷◌ c s) =
    let rest = split_commas s in if eqb (code c) b',' then "" ∷ rest else split_head c rest

-- the loop over the parts: trimmed, without the empty ones
event_types_from : List String → List String
event_types_from [] = []
event_types_from (t ∷ ts) =
    let rest = event_types_from ts in if trim_space t == "" then rest else trim_space t ∷ rest

event_types_of : String → List String
unfolding split_commas event_types_from
event_types_of raw =
    if trim_space raw == "" then [] else event_types_from (split_commas (trim_space raw))

module _ (env : Env) where
  -- listAuditEvents
  admin_audit_events : String → String → ℕ → Exec World Response
  unfolding audit_events_of
  admin_audit_events raw_tenant raw_types limit =
      if trim_space raw_tenant == ""
      then pure (write_error env invalid_input)
      else answer env (audit_events_of (trim_space raw_tenant) (event_types_of raw_types) limit)
          (λ events. respond 200 (audit_events events))

  -- ReceiveOperatorReply behind gatewayInbound
  unfoldable pub serve_gateway_inbound : Decoded InboundReply → Exec World Response
  serve_gateway_inbound req = decode_json env req (λ reply.
      answer env (receive_inbound env (persist_signal env) reply)
        (λ envelope. respond 202 (signal envelope (signal_name envelope.action_button))))

  serve_provision_tenant : Result String → Decoded TenantRequest → Exec World Response
  serve_provision_tenant random_hex req = decode_json env req (λ (r : TenantRequest).
      answer env
        (Provisioning.provision_tenant env random_hex r.name r.vertical r.provider_number
          r.operator_id)
        (λ done. respond 201 (provisioned done.tenant done.manifest)))

  serve_promote_candidate : String → String → Decoded PromotionRequest → Exec World Response
  serve_promote_candidate tenant_id candidate_id req =
      decode_json env req (λ (r : PromotionRequest).
        answer env
          (Promotion.promote_candidate env tenant_id candidate_id r.reviewer_id r.rationale)
          (λ done. respond 201 (promoted done.rule done.version)))

  serve_replay_case : Decoded Cases.ReplayInput → Exec World Response
  serve_replay_case req =
      decode_json env req
        (λ input. answer env (Cases.replay_case env input) (λ run. respond 201 (case_run run)))

  serve_reissue_secret : Result String → Decoded String → Exec World Response
  serve_reissue_secret random_hex req = decode_json env req (λ tenant_id.
      if trim_space tenant_id == ""
      then pure (write_error env invalid_input)
      else answer env (Provisioning.reissue_whatsapp_command_secret env random_hex tenant_id)
          (λ found. respond 200 (secret found)))

  unfoldable pub serve_admin : Result String → AdminCall → Exec World Response
  unfolding event_types_of admin_audit_events serve_provision_tenant serve_promote_candidate
      serve_replay_case serve_reissue_secret
  serve_admin random_hex (provision_tenant req) = serve_provision_tenant random_hex req
  serve_admin random_hex (promote_candidate tenant_id candidate_id req) =
      serve_promote_candidate tenant_id candidate_id req
  serve_admin random_hex (replay_case req) = serve_replay_case req
  serve_admin random_hex (reissue_secret req) = serve_reissue_secret random_hex req
  serve_admin random_hex (list_audit_events raw_tenant raw_types limit) =
      admin_audit_events raw_tenant raw_types limit
