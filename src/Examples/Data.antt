-- ===== src/Examples/Data.antt =====
-- A tenant with one WhatsApp binding, one approved decision and one ingested message; and an
-- environment that computes.
use victoria.Prelude.{ℕ, ◌+◌, ◌-◌, ◌*◌, String, true, none, some, [], ◌∷◌, ltb, leb, join}
use victoria.Exec.{ok}
use victoria.Text.{decimal}
use victoria.Domain.{
  Floats, Hashing, ChannelBinding, AuditEvent, ValidatedRule, SkillVersion, Tenant,
  WorkflowTemplate, CustomerMessage, OutboundQueueEntry, text,
}
use victoria.Memory.{Store, empty_store, pair_key, triple_key}
use victoria.App.{Env, World}
use victoria.App.Ingestion.{IngestionEvent}

abbrev pub floats : Floats
floats = record {
  literal = λ _. 55;
  of_int = λ n. n;
  hours = λ n. n;
  add = λ a b. a + b;
  sub = λ a b. a - b;
  mul = λ a b. a * b;
  div = λ a b. a;
  neg = λ a. a;
  sqrt = λ a. a;
  exp = λ a. a;
  max = λ a b. a;
  min = λ a b. a;
  less = λ a b. ltb a b;
  at_least = λ a b. leb b a;
}

abbrev pub hashing : Hashing
hashing = record {
  sha256_hex = λ s. s;
  marshal_value = λ v. "value";
  marshal_payload = λ p. ok "payload";
  marshal_conditions = λ cs. ok "conditions";
}

abbrev pub env : Env
env = record {
  floats = floats;
  hashing = hashing;
  make_id = λ prefix n. join prefix (decimal n);
  format_time = λ t. "now";
  send = λ n channel msg. ok (record { provider_message_id = "provider"; sent_at = 7 });
  guarded = true;
  agent = none;
  print_map = λ m. "map";
  error_text = λ e. "error";
}

abbrev pub binding : ChannelBinding
binding = record {
  tenant_id = "t1";
  channel = "whatsapp";
  provider_number = "65999";
  operator_id = "op1";
  session_status = "active";
  session_updated = 1;
  inbound_mode = "read_only";
  command_identities = [];
  customer_allowlist = "61@s.whatsapp.net" ∷ [];
  consent_acknowledged_at = none;
  customer_intake_paused_until = none;
  retention_minutes = 60;
  draft_delivery_jid = "";
  operator_jid = "65111@s.whatsapp.net";
  telegram_customer_chats = [];
  command_registration_secret = "secret";
  command_secret_consumed_at = none;
  last_repair_at = none;
  ban_grace_hours = 0;
  customer_outbound_paused_until = none;
}

abbrev pub approval : AuditEvent
approval = record {
  id = "ae1";
  tenant_id = "t1";
  event_type = "approval_received";
  actor_type = "operator";
  actor_id = "op1";
  ref_type = "decision_point";
  ref_id = "dp1";
  related_ids = some (("case_run_id", text "cr1") ∷ []);
  payload = none;
  idempotency_key = "k1";
  occurred_at = 3;
}

abbrev pub tenant : Tenant
tenant = record {
  id = "t1";
  name = "Tenant";
  vertical = "trades";
  status = "active";
  default_mode = "sandbox";
  created_at = 1;
}

abbrev pub template : WorkflowTemplate
template = record {
  id = "wt";
  slug = "quote_drafting";
  vertical = "trades";
  display_name = "Quotes";
  decision_types = "send_or_hold" ∷ [];
}

abbrev pub version_of : String → ℕ → SkillVersion
version_of id version = record {
  id = id;
  tenant_id = "t1";
  workflow_slug = "quote_drafting";
  version = version;
  rule_manifest = [];
  status = "active";
  created_at = 1;
}

abbrev pub rule_of : String → String → ValidatedRule
rule_of id scope = record {
  id = id;
  tenant_id = "t1";
  workflow_slug = "quote_drafting";
  decision_type = "send_or_hold";
  conditions_hash = "h";
  conditions_canonical = [];
  recommended_action = id;
  scope = scope;
  vertical = "";
  version = 1;
  supersedes = "";
  promoted_from_candidate_id = "rc1";
  promoted_by = "op1";
  promoted_at = 2;
  status = "active";
  rationale = "";
  rollback_of = "";
}

abbrev pub message : CustomerMessage
message = record {
  id = "cm1";
  tenant_id = "t1";
  channel = "whatsapp_a0";
  source_message_id = "m1";
  customer_identifier = "61@s.whatsapp.net";
  received_at = 2;
  subject = "";
  body_text = "hello";
  metadata = none;
  case_run_id = "cr1";
  status = "ingested";
}

abbrev pub event : IngestionEvent
event = record {
  tenant_id = "t1";
  channel = "whatsapp_a0";
  source_message_id = "m1";
  customer_identifier = "61@s.whatsapp.net";
  received_at = 2;
  subject = "";
  body_text = "hello";
  metadata = none;
}

abbrev pub entry : OutboundQueueEntry
entry = record {
  id = "oq_1";
  tenant_id = "t1";
  channel = "whatsapp";
  packet_id = "pk1";
  idempotency_key = "k";
  enqueued_at = 4;
}

abbrev pub store : Store
store = record empty_store {
  tenants = ("t1", tenant) ∷ [];
  templates = ("quote_drafting", template) ∷ [];
  bindings = (pair_key "whatsapp" "65999", binding) ∷ [];
  audit_events = ("ae1", approval) ∷ [];
  audit_by_key = ("k1", "ae1") ∷ [];
  customer_msgs = ("cm1", message) ∷ [];
  customer_by_key = (triple_key "t1" "whatsapp_a0" "m1", "cm1") ∷ [];
  validated = ("vr1", rule_of "vr1" "tenant") ∷ [];
  skill_versions = ("sv1", version_of "sv1" 1) ∷ [];
  active_sv = (pair_key "t1" "quote_drafting", "sv1") ∷ [];
  outbound_queue = ("oq_1", entry) ∷ [];
  queue_seq = 1;
}

abbrev pub world : World
world = record {
  store = store;
  now = 10;
  ids_made = 5;
  sends_made = 0;
  adapters = "whatsapp" ∷ [];
  tenant_status = [];
  pending_followups = [];
  outbox = [];
}
