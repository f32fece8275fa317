-- ===== src/Whatsapp/Sweep.antt =====
-- SweepNow of internal/channel/whatsapp/priv2sweeper.go: the keys of messages from chats that are
-- not a read-only tenant's business are deleted. The two SQL statements are a filter each, over the
-- columns that they name; what the database may refuse is a parameter.
pub mod Kept
use victoria.Prelude.{String, Bool, List, [], ◌∷◌, map, ◌==◌, ◌&&◌, ◌||◌, not, if◌then◌else◌}
use victoria.Exec.{ok, err, failed, Exec}
use victoria.GoMap.{select}
use victoria.Domain.{ChannelBinding, inbound_read_only}
use victoria.App.Helpers.{normalize_whatsapp_jid, contains, channel_whatsapp}

-- a row of whatsmeow_message_secrets
pub record Secret : Type 0 where
  pub our_jid : String
  pub chat_jid : String

-- the device of a binding
pub device_of : ChannelBinding → String
device_of b =
    if normalize_whatsapp_jid b.operator_jid == ""
    then normalize_whatsapp_jid b.provider_number
    else normalize_whatsapp_jid b.operator_jid

-- the loop over the allowlist
pub kept_from : List String → List String
kept_from [] = []
kept_from (j ∷ js) =
    let rest = kept_from js in
    if normalize_whatsapp_jid j == "" then rest else normalize_whatsapp_jid j ∷ rest

pub keep_of : ChannelBinding → List String
unfolding device_of kept_from
keep_of b = device_of b ∷ kept_from b.customer_allowlist

-- purgeForDevice: DELETE ... WHERE our_jid = $1 AND chat_jid <> ALL($2)
pub purge_for_device : String → List String → List Secret → List Secret
purge_for_device device keep rows =
    select (λ (r : Secret). not (r.our_jid == device && not (contains keep r.chat_jid))) rows

-- the tests of the loop body
pub is_swept : ChannelBinding → Bool
unfolding device_of
is_swept b = b.inbound_mode == inbound_read_only && not (device_of b == "")

-- a field that is `omitempty` is left out of the stored JSON where it is empty, `->>` then gives
-- NULL, and Scan cannot put that into a string
pub is_unreadable : ChannelBinding → Bool
is_unreadable b = b.inbound_mode == "" || b.operator_jid == ""

-- the loop over the bindings; a deletion that the database refuses is logged and left, and a row
-- that Scan cannot read ends the sweep
module _ (refuses : String → Bool) where
  pub sweep_bindings : List ChannelBinding → Exec (List Secret) (Unit {0})
  unfolding is_swept keep_of purge_for_device is_unreadable
  sweep_bindings [] rows = (ok tt, rows)
  sweep_bindings (b ∷ bs) rows =
      let others = sweep_bindings bs (
        if is_swept b && not (refuses (device_of b))
        then purge_for_device (device_of b) (keep_of b) rows
        else rows) in
      if is_unreadable b then (err failed, rows) else others

  -- SELECT ... WHERE channel = 'whatsapp'
  pub sweep_now : List ChannelBinding → Exec (List Secret) (Unit {0})
  unfolding sweep_bindings
  sweep_now bindings rows =
      sweep_bindings (select (λ (b : ChannelBinding). b.channel == channel_whatsapp) bindings) rows
