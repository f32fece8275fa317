-- ===== src/Whatsapp.antt =====
-- internal/channel/whatsapp: the WhatsApp adapter. What the third-party client knows of a session is
-- a field of `TenantClient`, what it answers is the parameter `Network`. The adapter calls the engine
-- back, so its state stands beside the engine's world.
pub mod Echoes
pub mod Messages
pub mod Replies
pub mod Session
pub mod Sweep
use victoria.Prelude.{String, Option, List, Bool, ℕ}
use victoria.Exec.{Result}
use victoria.GoMap.{GoMap}
use victoria.Domain.{SessionStatus, DeliveryReceipt, Time}
use victoria.App.{World}
use Echoes.{SentIds}
use Messages.{OutMessage}

-- types.JID as far as the program looks at it: its user and the text that String prints
pub record Jid : Type 0 where
  pub user : String
  pub text : String

pub record TenantClient : Type 0 where
  pub tenant_id : String
  -- whether there is a client, and whether it is connected
  pub connected : Bool
  -- device.ID; none where the device or its identifier is nil
  pub device : Option Jid
  pub current_qr : String
  pub pairing : Bool
  pub status : SessionStatus
  -- none is the zero JID
  pub recipient : Option Jid
  pub recent_sent : SentIds

-- the Manager with the engine that it calls back, and what went to the network, newest first
pub record Sessions : Type 0 where
  pub engine : World
  pub clients : GoMap TenantClient
  pub sent : List (Jid × OutMessage)

pub record Network : Type 0 where
  -- types.ParseJID, and types.NewJID with the default server
  pub parse_jid : String → Result Jid
  pub new_jid : String → Jid
  -- the text of the zero JID
  pub no_jid : Jid
  -- Client.SendMessage, by the number of messages sent before
  pub send_message : ℕ → Jid → OutMessage → String → Result DeliveryReceipt
  -- Client.Connect at boot, by the tenant
  pub connects : String → Bool

-- events.Message: the parts that are read of it
pub record MessageInfo : Type 0 where
  pub id : String
  pub sender : Jid
  pub timestamp : Time
  pub is_from_me : Bool
