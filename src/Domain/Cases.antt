-- ===== src/Domain/Cases.antt =====
-- Tenants, case runs, decision points, artifacts and review packets.
use victoria.Prelude.{String, Bool, Option, List}
use victoria.GoMap.{GoMap}
use victoria.Domain.Names.{Time, Float64, Mode, ActionButton}
use victoria.Domain.Values.{Payload, Fact}

pub record Tenant : Type 0 where
  pub id : String
  pub name : String
  pub vertical : String
  pub status : String
  pub default_mode : Mode
  pub created_at : Time

pub record ProvisioningManifest : Type 0 where
  pub tenant_id : String
  pub hermes_version : String
  pub mode : Mode
  pub workflow_templates : List String
  pub mcp_endpoints : GoMap String
  pub skill_version_endpoint : String
  pub vertical : String
  pub whatsapp_command_secret : String

pub record WorkflowTemplate : Type 0 where
  pub id : String
  pub slug : String
  pub vertical : String
  pub display_name : String
  pub decision_types : List String

pub record CaseRun : Type 0 where
  pub id : String
  pub tenant_id : String
  pub workflow_slug : String
  pub mode : Mode
  pub input_payload : Payload
  pub input_hash : String
  pub skill_version_id : String
  pub replayed_from_id : String
  pub status : String
  pub decision_point_id : String
  pub created_at : Time
  pub completed_at : Option Time
  pub replay_temperature : Float64

pub record DecisionPoint : Type 0 where
  pub id : String
  pub tenant_id : String
  pub case_run_id : String
  pub decision_type : String
  pub agent_input : Payload
  pub proposed_action : String
  pub status : String
  pub created_at : Time

pub record Artifact : Type 0 where
  pub id : String
  pub tenant_id : String
  pub case_run_id : String
  pub decision_point_id : String
  pub artifact_type : String
  pub storage_path : String
  pub content : Payload
  pub created_at : Time

pub record PlannedAction : Type 0 where
  pub kind : String
  pub description : String
  pub is_destructive : Bool
  pub requires_approval : Bool

pub record ArtifactPreview : Type 0 where
  pub kind : String
  pub preview_url : String
  pub inline_thumbnail_url : String
  pub expires_at : Time

pub record ReviewPacket : Type 0 where
  pub packet_id : String
  pub schema_version : String
  pub tenant_id : String
  pub case_run_id : String
  pub decision_point_id : String
  pub workflow_type : String
  pub mode : Mode
  pub trigger : Payload
  pub facts : List Fact
  pub planned_action : PlannedAction
  pub draft_reply : String
  pub artifact_preview : ArtifactPreview
  pub button_set : List ActionButton
  pub expires_at : Time
  pub idempotency_key : String
  pub delivered : Bool

pub record AuditEvent : Type 0 where
  pub id : String
  pub tenant_id : String
  pub event_type : String
  pub actor_type : String
  pub actor_id : String
  pub ref_type : String
  pub ref_id : String
  pub related_ids : Payload
  pub payload : Payload
  pub idempotency_key : String
  pub occurred_at : Time

pub record McpRequest : Type 0 where
  pub tenant_header : String
  pub case_run_id : String
  pub decision_point_id : String
  pub mode : Mode
  pub tool_name : String
  pub idempotency_key : String

pub record McpResult : Type 0 where
  pub accepted : Bool
  pub code : String
  pub error : String
