-- ===== src/App.antt =====
-- internal/app: the engine. `Env` is what it is given from outside; `World` is the state that its
-- methods share: the store, the gateway's maps, the counters behind the identifiers and the sends,
-- and the messages that an adapter has taken.
pub mod Helpers
pub mod Core
pub mod Outbound
pub mod Gateway
pub mod Mcp
pub mod Promotion
pub mod Candidates
pub mod Signals
pub mod Cases
pub mod Ingestion
pub mod Commands
pub mod Operator
pub mod Provisioning
pub mod Queries
pub mod Telegram
pub mod Frame
use victoria.Prelude.{ℕ, String, Bool, Option, List}
use victoria.Exec.{Error, Result}
use victoria.GoMap.{GoMap}
use victoria.Domain.{
  Time, SessionStatus, ActionButton, Value, Payload, Fact, OutboundMessage, DeliveryReceipt, Floats,
  Hashing,
}
use victoria.Memory.{Store}

-- internal/app/agent.go
pub record AgentRequest : Type 0 where
  pub workflow_slug : String
  pub decision_type : String
  pub default_action : String
  pub allowed_actions : List String
  pub payload : Payload

pub record AgentResult : Type 0 where
  pub facts : List Fact
  pub proposed_action : String
  pub draft_reply : String
  pub reasoning : String

pub record Env : Type 0 where
  pub floats : Floats
  pub hashing : Hashing
  -- NewID: the text for a prefix and the number of identifiers made before
  pub make_id : String → ℕ → String
  -- time.Time.Format and Time.String
  pub format_time : Time → String
  -- Adapter.SendOutbound, which may answer anything: by the number of sends made before
  pub send : ℕ → String → OutboundMessage → Result DeliveryReceipt
  -- whether the WhatsApp adapter has the method SendOutboundWithBinding
  pub guarded : Bool
  -- the DecisionAgent, by the number of identifiers made before
  pub agent : Option (ℕ → AgentRequest → Result AgentResult)
  -- fmt.Sprint of a nested map
  pub print_map : GoMap Value → String
  -- error.Error
  pub error_text : Error → String

pub record PendingFollowup : Type 0 where
  pub packet_id : String
  pub action : ActionButton
  pub started_at : Time

pub record World : Type 0 where
  pub store : Store
  -- the clock's answer: one instant for the whole of a method
  pub now : Time
  pub ids_made : ℕ
  pub sends_made : ℕ
  -- the channels that have an adapter
  pub adapters : List String
  pub tenant_status : GoMap SessionStatus
  pub pending_followups : GoMap PendingFollowup
  -- what the adapters have sent, newest first
  pub outbox : List OutboundMessage
