-- ===== src/Domain/Learning.antt =====
-- What an operator answers, and what is learned from it.
use victoria.Prelude.{String, Option, List, ℕ}
use victoria.Domain.Names.{Time, Float64, Scope, ActionButton}
use victoria.Domain.Values.{Condition}

pub record ApprovalSignalEnvelope : Type 0 where
  pub schema_version : String
  pub signal_id : String
  pub idempotency_key : String
  pub packet_id : String
  pub case_run_id : String
  pub decision_point_id : String
  pub tenant_id : String
  pub operator_id : String
  pub channel : String
  pub source_message_id : String
  pub raw_inbound_message_id : String
  pub ts : Time
  pub action_button : ActionButton
  pub free_text : String
  pub follow_up_answer : String
  pub scope_hint : Option Scope
  pub parser_method : String
  pub parser_confidence : Float64

pub record Correction : Type 0 where
  pub id : String
  pub schema_version : String
  pub idempotency_key : String
  pub packet_id : String
  pub case_run_id : String
  pub decision_point_id : String
  pub tenant_id : String
  pub operator_id : String
  pub channel : String
  pub source_message_id : String
  pub raw_inbound_message_id : String
  pub action_button : ActionButton
  pub free_text : String
  pub follow_up_answer : String
  pub scope_hint : Option Scope
  pub parse_method : String
  pub parse_confidence : Float64
  pub created_at : Time

pub record RuleCandidate : Type 0 where
  pub id : String
  pub tenant_id : String
  pub workflow_slug : String
  pub decision_type : String
  pub conditions_hash : String
  pub conditions_canonical : List Condition
  pub recommended_action : String
  pub scope : Scope
  pub confidence : Float64
  pub evidence_count : ℕ
  pub contradicting_count : ℕ
  pub source_correction_ids : List String
  pub source_case_run_ids : List String
  pub status : String
  pub created_at : Time
  pub last_seen_at : Time
  pub under_review_at : Option Time

pub record ValidatedRule : Type 0 where
  pub id : String
  pub tenant_id : String
  pub workflow_slug : String
  pub decision_type : String
  pub conditions_hash : String
  pub conditions_canonical : List Condition
  pub recommended_action : String
  pub scope : Scope
  pub vertical : String
  pub version : ℕ
  pub supersedes : String
  pub promoted_from_candidate_id : String
  pub promoted_by : String
  pub promoted_at : Time
  pub status : String
  pub rationale : String
  pub rollback_of : String

pub record RuleManifest : Type 0 where
  pub rule_id : String
  pub scope : Scope
  pub version : ℕ
  pub decision_type : String
  pub conditions_canonical : List Condition
  pub recommended_action : String
  pub priority : ℕ

pub record SkillVersion : Type 0 where
  pub id : String
  pub tenant_id : String
  pub workflow_slug : String
  pub version : ℕ
  pub rule_manifest : List RuleManifest
  pub status : String
  pub created_at : Time
