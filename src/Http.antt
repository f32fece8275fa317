-- ===== src/Http.antt =====
-- internal/httpapi/server.go: the HTTP interface of the engine. `Call` has one constructor for each
-- route, with what the router, the query parser and the JSON decoder have read of the request, and
-- `Response` is the status with what is encoded as its body. The session manager of WhatsApp is the
-- interface that the server has of it.
pub mod Errors
pub mod Auth
pub mod Tenants
pub mod Admin
pub mod Pairing
pub mod Routes
use victoria.Prelude.{ℕ, String, Option, List}
use victoria.Exec.{Exec}
use victoria.GoMap.{GoMap}
use victoria.Domain.{
  Time, SessionStatus, Payload, Mode, Tenant, ProvisioningManifest, CaseRun, ReviewPacket,
  RuleCandidate, ValidatedRule, SkillVersion, AuditEvent, ChannelBinding, ApprovalSignalEnvelope,
  McpRequest, McpResult,
}
use victoria.App.{World}
use victoria.App.Cases.{ReplayInput}
use victoria.App.Ingestion.{IngestionEvent}
use victoria.App.Gateway.Inbound.{InboundReply}
use victoria.App.Provisioning.{WhatsAppConsentInput}

pub data Body : Type 0 where
  -- an error's code, its message and what came beside it
  failure : String → String → Option McpResult → Body
  -- {"error": code}, and plain text
  problem : String → Body
  -- {"error": code, "status": status}
  problem_at : String → SessionStatus → Body
  empty fine : Body
  provisioned : Tenant → ProvisioningManifest → Body
  promoted : ValidatedRule → SkillVersion → Body
  case_run : CaseRun → Body
  started : CaseRun → ReviewPacket → Body
  ingested : String → Option ReviewPacket → Body
  signal : ApprovalSignalEnvelope → String → Body
  candidates : List RuleCandidate → Body
  skill_version : SkillVersion → Body
  audit_events : List AuditEvent → Body
  tools : List String → Body
  result : McpResult → Body
  secret : String → Body
  binding : ChannelBinding → Body
  customers : List String → Body
  pairing : String → SessionStatus → String → Body
  qr : String → SessionStatus → Body
  png : String → Body
  session : SessionStatus → String → Time → Body

pub record Response : Type 0 where
  pub status : ℕ
  pub body : Body

-- what decodeJSON finds in a request's body
pub data Decoded (A : Type 0) : Type 0 where
  bad_json : String → Decoded A
  json : A → Decoded A

-- WhatsAppManager: its methods call the engine back, so they may change the world
pub record WhatsAppManager : Type 0 where
  pub begin_pairing : String → Exec World String
  pub current_qr : String → Exec World String
  pub manager_status : String → Exec World SessionStatus
  pub logout : String → Exec World (Unit {0})

pub record Server : Type 0 where
  pub whatsapp : Option WhatsAppManager
  pub gateway_inbound_token : String
  pub admin_token : String

pub record TenantRequest : Type 0 where
  pub name : String
  pub vertical : String
  pub provider_number : String
  pub operator_id : String

pub record PromotionRequest : Type 0 where
  pub reviewer_id : String
  pub rationale : String

pub record CaseRequest : Type 0 where
  pub workflow_slug : String
  pub mode : Mode
  pub payload : Payload

pub record WriteFinalRequest : Type 0 where
  pub server_mode : Mode
  pub request : McpRequest

-- the routes of Handler behind the admin token, the tenant's token, the gateway's token and none
pub data AdminCall : Type 0 where
  provision_tenant : Decoded TenantRequest → AdminCall
  promote_candidate : String → String → Decoded PromotionRequest → AdminCall
  replay_case : Decoded ReplayInput → AdminCall
  reissue_secret : Decoded String → AdminCall
  -- the three query parameters; of the limit what strconv.Atoi reads, if that is positive
  list_audit_events : String → String → ℕ → AdminCall

pub data TenantCall : Type 0 where
  start_case : Decoded CaseRequest → TenantCall
  active_skill_version : String → TenantCall
  list_candidates : TenantCall
  mcp_write_final : Decoded WriteFinalRequest → TenantCall
  ingest_customer_message : Decoded IngestionEvent → TenantCall
  whatsapp_consent : Decoded WhatsAppConsentInput → TenantCall
  whatsapp_add_customer : Decoded String → TenantCall
  whatsapp_remove_customer : Decoded String → TenantCall
  whatsapp_init whatsapp_qr whatsapp_qr_png whatsapp_status whatsapp_logout : TenantCall

pub data Call : Type 0 where
  health : Call
  mcp_tools : Mode → Call
  admin : AdminCall → Call
  tenant : TenantCall → Call
  gateway_inbound : Decoded InboundReply → Call
