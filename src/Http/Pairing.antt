-- ===== src/Http/Pairing.antt =====
-- The handlers of a WhatsApp session of internal/httpapi/server.go.
use victoria.Prelude.{String, Bool, true, false, Option, none, some, ◌==◌, ◌&&◌, not, if◌then◌else◌}
use victoria.Exec.{Error, Result, ok, err, not_found, consent_required, Exec, pure, attempt, ◌>>=◌}
use victoria.Domain.{SessionStatus, session_unknown, Time, ChannelBinding}
use victoria.App.{Env, World}
use victoria.App.Helpers.{channel_whatsapp}
use victoria.App.Queries.{get_channel_binding}
use victoria.Http.{
  Server, WhatsAppManager, Response, failure, problem, problem_at, fine, pairing, qr, png, session,
}
use victoria.Http.Errors.{respond, write_error, answer}

-- the fields of the binding that the status shows; those of the zero binding where there is none
abbrev Shown : Type 0
Shown = record { status : SessionStatus; provider_number : String; updated : Time }

shown_of : Result ChannelBinding → Shown
shown_of (ok b) = record {
  status = b.session_status;
  provider_number = b.provider_number;
  updated = b.session_updated;
}
shown_of (err e) = record { status = ""; provider_number = ""; updated = 0 }

abbrev is_absent : Error → Bool
is_absent not_found = true
is_absent _ = false

module _ (env : Env) (server : Server) where
  abbrev with_manager : Response → (WhatsAppManager → Exec World Response) → Exec World Response
  with_manager disabled f = elim server.whatsapp [ none ↦ pure disabled | some m ↦ f m ]

  abbrev whatsapp_disabled : Response
  whatsapp_disabled = respond 503 (problem "whatsapp_disabled")

  -- BeginPairing behind the check of the consent
  begin : String → WhatsAppManager → ChannelBinding → Exec World Response
  begin tenant_id manager binding = elim binding.consent_acknowledged_at [
    | none ↦ pure (write_error env consent_required)
    | some _ ↦ (do
      code ← attempt (manager.begin_pairing tenant_id)
      elim code [
        | ok c ↦ (do
          status ← manager.manager_status tenant_id
          pure (respond 202 (pairing c status binding.provider_number)))
        | err e ↦ pure (respond 502 (failure "pairing_failed" (env.error_text e) none))
      ])
  ]

  -- the part of whatsappInit behind the look-up of the binding
  begin_with : String → WhatsAppManager → Result ChannelBinding → Exec World Response
  unfolding begin
  begin_with tenant_id manager (err e) = pure (write_error env e)
  begin_with tenant_id manager (ok binding) = begin tenant_id manager binding

  unfoldable pub serve_whatsapp_init : String → Exec World Response
  unfolding begin_with
  serve_whatsapp_init tenant_id = with_manager whatsapp_disabled (λ manager. do
    found ← attempt (get_channel_binding tenant_id channel_whatsapp)
    begin_with tenant_id manager found)

  unfoldable pub serve_whatsapp_qr : String → Exec World Response
  serve_whatsapp_qr tenant_id = with_manager whatsapp_disabled (λ manager. do
    code ← manager.current_qr tenant_id
    status ← manager.manager_status tenant_id
    pure (
        if code == ""
        then respond 410 (problem_at "no_active_qr" status)
        else respond 200 (qr code status)))

  -- `encode` is qrcode.Encode
  unfoldable pub serve_whatsapp_qr_png : (String → Option String) → String → Exec World Response
  serve_whatsapp_qr_png encode tenant_id = with_manager whatsapp_disabled (λ manager. do
    code ← manager.current_qr tenant_id
    pure (
        if code == "" then respond 410 (problem "no_active_qr") else elim (encode code) [
          | none ↦ respond 500 (problem "qr_encode_failed")
          | some image ↦ respond 200 (png image)
        ]))

  -- the status of the manager, or the one that the binding has
  status_with : String → Result ChannelBinding → Exec World Response
  unfolding shown_of
  status_with tenant_id found = do
    live ← elim server.whatsapp [
      | none ↦ pure session_unknown
      | some manager ↦ manager.manager_status tenant_id
    ]
    let shown = shown_of found
    pure (
        respond 200 (
          session
            (if live == session_unknown && not (shown.status == "") then shown.status else live)
            shown.provider_number shown.updated))

  unfoldable pub serve_whatsapp_status : String → Exec World Response
  unfolding status_with
  serve_whatsapp_status tenant_id = do
    found ← attempt (get_channel_binding tenant_id channel_whatsapp)
    elim found [
      | ok b ↦ status_with tenant_id (ok b)
      | err e ↦ if is_absent e then status_with tenant_id (err e) else pure (write_error env e)
    ]

  unfoldable pub serve_whatsapp_logout : String → Exec World Response
  serve_whatsapp_logout tenant_id =
      with_manager whatsapp_disabled
        (λ manager. answer env (manager.logout tenant_id) (λ _. respond 200 fine))
