-- ===== src/App/Provisioning.antt =====
-- Provisioning of a tenant, the WhatsApp command secret and the operator's consent: ProvisionTenant,
-- ReissueWhatsAppCommandSecret and AcknowledgeWhatsAppConsent of internal/app/app.go. What
-- rand.Read and hex.EncodeToString answer to newCommandSecret is the parameter `random_hex`.
pub mod Paired
use victoria.Prelude.{String, none, some, [], ◌∷◌, ◌==◌, ◌&&◌, ◌||◌, not, if◌then◌else◌, eqb}
use victoria.Exec.{Result, invalid_input, Exec, pure, lift, throw_if, for_each, ◌>>=◌, ◌>>◌}
use victoria.Text.{trim_space}
use victoria.Domain.{
  Time, mode_sandbox, inbound_read_only, InboundMode, valid_inbound_mode, session_active,
  session_qr_needed, text, Tenant, ProvisioningManifest, ChannelBinding, SkillVersion,
}
use victoria.Memory.Tenants.{
  create_tenant, upsert_workflow_template, upsert_channel_binding, channel_binding_by_tenant,
}
use victoria.Memory.Skills.{create_skill_version}
use victoria.Rules.{default_workflow_templates}
use victoria.App.{Env, World}
use victoria.App.Helpers.{normalize_whatsapp_jid, channel_whatsapp, channel_telegram}
use victoria.App.Core.{in_store, clock_now, new_id, audit, entries}

abbrev pub Provisioned : Type 0
Provisioned = record { tenant : Tenant; manifest : ProvisioningManifest }

-- the bindings that ProvisionTenant makes: all that it leaves out is the zero value
abbrev pub bare_binding : String → String → String → String → Time → ChannelBinding
bare_binding tenant_id channel provider_number operator_id now = record {
  tenant_id = tenant_id;
  channel = channel;
  provider_number = provider_number;
  operator_id = operator_id;
  session_status = "";
  session_updated = now;
  inbound_mode = "";
  command_identities = [];
  customer_allowlist = [];
  consent_acknowledged_at = none;
  customer_intake_paused_until = none;
  retention_minutes = 0;
  draft_delivery_jid = "";
  operator_jid = "";
  telegram_customer_chats = [];
  command_registration_secret = "";
  command_secret_consumed_at = none;
  last_repair_at = none;
  ban_grace_hours = 0;
  customer_outbound_paused_until = none;
}

abbrev pub telegram_binding : String → String → String → Time → ChannelBinding
telegram_binding tenant_id provider_number operator_id now =
    record (bare_binding tenant_id channel_telegram provider_number operator_id now) {
      session_status = session_active;
    }

abbrev pub whatsapp_binding : String → String → String → Time → String → ChannelBinding
whatsapp_binding tenant_id provider_number operator_id now secret =
    record (bare_binding tenant_id channel_whatsapp provider_number operator_id now) {
      session_status = session_qr_needed;
      inbound_mode = inbound_read_only;
      retention_minutes = 30;
      operator_jid = normalize_whatsapp_jid provider_number;
      command_registration_secret = secret;
    }

abbrev pub first_version : String → String → String → Time → SkillVersion
first_version id tenant_id workflow_slug now = record {
  id = id;
  tenant_id = tenant_id;
  workflow_slug = workflow_slug;
  version = 1;
  rule_manifest = [];
  status = "active";
  created_at = now;
}

abbrev pub manifest_of : Tenant → ProvisioningManifest
manifest_of tenant = record {
  tenant_id = tenant.id;
  hermes_version = "0.3.4";
  mode = mode_sandbox;
  workflow_templates = "enquiry_triage" ∷ "quote_drafting" ∷ "invoice_handling" ∷ [];
  mcp_endpoints =
      ("sandbox_email", "http://localhost:3001")
      ∷ ("sandbox_drive", "http://localhost:3002")
      ∷ ("sandbox_invoice", "http://localhost:3003")
      ∷ [];
  skill_version_endpoint = "/internal/skill-versions/active";
  vertical = tenant.vertical;
  whatsapp_command_secret = "";
}

pub record WhatsAppConsentInput : Type 0 where
  pub inbound_mode : InboundMode
  pub draft_delivery_jid : String
  pub operator_jid : String

-- the fields of the binding that consent changes, in the order of the source
consented : InboundMode → Time → WhatsAppConsentInput → ChannelBinding → ChannelBinding
consented mode now input binding =
    let given =
      if input.operator_jid == ""
      then binding.operator_jid
      else normalize_whatsapp_jid input.operator_jid in
    let operator_jid =
      if given == "" then normalize_whatsapp_jid binding.provider_number else given in
    let draft =
      if input.draft_delivery_jid == ""
      then binding.draft_delivery_jid
      else normalize_whatsapp_jid input.draft_delivery_jid in
    record binding {
      inbound_mode = mode;
      consent_acknowledged_at = some now;
      retention_minutes = if eqb binding.retention_minutes 0 then 30 else binding.retention_minutes;
      operator_jid = operator_jid;
      draft_delivery_jid = if draft == "" && mode == inbound_read_only then operator_jid else draft;
      session_updated = now;
    }

abbrev pub mode_or_read_only : InboundMode → InboundMode
mode_or_read_only mode = if mode == "" then inbound_read_only else mode

module _ (env : Env) where
  -- the body of the loop over the other workflows
  unfoldable first_version_for : String → Time → String → Exec World (Unit {0})
  first_version_for tenant_id now workflow_slug = do
    id ← new_id env "sv"
    in_store (create_skill_version (first_version id tenant_id workflow_slug now))

  unfoldable pub acknowledge_whatsapp_consent :
      String → WhatsAppConsentInput → Exec World (Unit {0})
  unfolding consented
  acknowledge_whatsapp_consent tenant_id input = do
    binding ← in_store (channel_binding_by_tenant tenant_id channel_whatsapp)
    let mode = mode_or_read_only input.inbound_mode
    throw_if (not (valid_inbound_mode mode)) invalid_input
    now ← clock_now
    in_store (upsert_channel_binding (consented mode now input binding))
    audit env tenant_id "whatsapp_consent_acknowledged" "operator" binding.operator_id
        "channel_binding" channel_whatsapp none (entries (("inbound_mode", text mode) ∷ []))
        ("wa-consent" ∷ tenant_id ∷ mode ∷ env.format_time now ∷ [])
    pure tt

  module _ (random_hex : Result String) where
    new_command_secret : Exec World String
    new_command_secret = lift random_hex

    -- behind the binding for WhatsApp: the other workflows and the audit event
    conclude : Tenant → Time → String → Exec World Provisioned
    conclude tenant now secret = do
      for_each ("enquiry_triage" ∷ "invoice_handling" ∷ []) (first_version_for tenant.id now)
      audit env tenant.id "tenant_provisioned" "admin" "system" "tenant" tenant.id none
          (entries (("vertical", text tenant.vertical) ∷ []))
          ("tenant-provisioned" ∷ tenant.id ∷ [])
      pure (record {
        tenant = tenant;
        manifest = record (manifest_of tenant) { whatsapp_command_secret = secret };
      })

    -- behind CreateTenant
    set_up_whatsapp : Tenant → String → String → Time → Exec World Provisioned
    unfolding new_command_secret conclude
    set_up_whatsapp tenant provider_number operator_id now = do
      secret ← new_command_secret
      in_store (
          upsert_channel_binding
            (whatsapp_binding tenant.id provider_number operator_id now secret))
      conclude tenant now secret

    unfoldable pub provision_tenant : String → String → String → String → Exec World Provisioned
    unfolding set_up_whatsapp first_version_for default_workflow_templates
    provision_tenant name vertical provider_number operator_id = do
      now ← clock_now
      tenant_id ← new_id env "t"
      let tenant : Tenant = record {
        id = tenant_id;
        name = trim_space name;
        vertical = trim_space vertical;
        status = "active";
        default_mode = mode_sandbox;
        created_at = now;
      }
      throw_if
          (tenant.name == ""
            || (tenant.vertical == "" || (provider_number == "" || operator_id == "")))
          invalid_input
      for_each (default_workflow_templates tenant.vertical)
          (λ tmpl. in_store (upsert_workflow_template tmpl))
      sv_id ← new_id env "sv"
      in_store (
          create_tenant tenant (manifest_of tenant)
            (telegram_binding tenant_id provider_number operator_id now)
            (first_version sv_id tenant_id "quote_drafting" now))
      set_up_whatsapp tenant provider_number operator_id now

    pub reissue_whatsapp_command_secret : String → Exec World String
    unfolding new_command_secret
    reissue_whatsapp_command_secret tenant_id = do
      binding ← in_store (channel_binding_by_tenant tenant_id channel_whatsapp)
      secret ← new_command_secret
      now ← clock_now
      in_store (
          upsert_channel_binding (record binding {
            command_registration_secret = secret;
            command_secret_consumed_at = none;
            session_updated = now;
          }))
      pure secret
