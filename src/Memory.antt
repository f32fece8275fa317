-- ===== src/Memory.antt =====
-- internal/store/memory/store.go: the in-memory store. Each method is an action of `Exec Store`; the
-- lock that every method holds makes it one step. Cloning has no counterpart, since values here
-- cannot be shared.
pub mod Tenants
pub mod Queue
pub mod Cases
pub mod Packets
pub mod Audit
pub mod Customers
pub mod Learning
pub mod Skills
use victoria.Prelude.{String, ℕ, [], join}
use victoria.GoMap.{GoMap}
use victoria.Domain.{
  Tenant, WorkflowTemplate, ChannelBinding, CaseRun, DecisionPoint, Artifact, ReviewPacket,
  AuditEvent, CustomerMessage, OutboundToCustomer, Correction, RuleCandidate, ValidatedRule,
  SkillVersion, OutboundQueueEntry,
}

pub record Store : Type 0 where
  pub tenants : GoMap Tenant
  pub templates : GoMap WorkflowTemplate
  pub bindings : GoMap ChannelBinding
  pub case_runs : GoMap CaseRun
  pub decision_pts : GoMap DecisionPoint
  pub artifacts : GoMap Artifact
  pub packets : GoMap ReviewPacket
  pub audit_events : GoMap AuditEvent
  pub audit_by_key : GoMap String
  pub customer_msgs : GoMap CustomerMessage
  pub customer_by_key : GoMap String
  pub customer_out : GoMap OutboundToCustomer
  pub out_by_key : GoMap String
  pub signals : GoMap (Unit {0})
  pub corrections : GoMap Correction
  pub correction_key : GoMap String
  pub candidates : GoMap RuleCandidate
  pub validated : GoMap ValidatedRule
  pub skill_versions : GoMap SkillVersion
  pub active_sv : GoMap String
  pub outbound_queue : GoMap OutboundQueueEntry
  pub queue_seq : ℕ

-- New
abbrev pub empty_store : Store
empty_store = record {
  tenants = [];
  templates = [];
  bindings = [];
  case_runs = [];
  decision_pts = [];
  artifacts = [];
  packets = [];
  audit_events = [];
  audit_by_key = [];
  customer_msgs = [];
  customer_by_key = [];
  customer_out = [];
  out_by_key = [];
  signals = [];
  corrections = [];
  correction_key = [];
  candidates = [];
  validated = [];
  skill_versions = [];
  active_sv = [];
  outbound_queue = [];
  queue_seq = 0;
}

-- bindingKey, svKey
unfoldable pub pair_key : String → String → String
pair_key a b = join a (join "\0" b)

-- customerMessageKey, outboundCustomerKey
unfoldable pub triple_key : String → String → String → String
triple_key a b c = join a (join "\0" (join b (join "\0" c)))
