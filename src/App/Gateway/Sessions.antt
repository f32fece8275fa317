-- ===== src/App/Gateway/Sessions.antt =====
-- Disconnect and Recover of internal/app/gateway.go: an outage of the Telegram channel and its end.
use victoria.Prelude.{String, List, [], ◌∷◌, none, length}
use victoria.Exec.{Result, ok, err, Exec, pure, attempt, ignore, ◌>>=◌, ◌>>◌}
use victoria.Text.{decimal}
use victoria.Domain.{other, ReviewPacket, OutboundQueueEntry, session_disconnected, session_active}
use victoria.Memory.Queue.{list_outbound_queue}
use victoria.Memory.Packets.{get_review_packet}
use victoria.App.{Env, World}
use victoria.App.Helpers.{channel_telegram}
use victoria.App.Core.{in_store, clock_now, audit, entries}
use victoria.App.Gateway.Delivery.{notify_session_status}

abbrev ok_or_empty : {A : Type 0} → Result (List A) → List A
ok_or_empty (ok xs) = xs
ok_or_empty (err e) = []

abbrev with_found : Result ReviewPacket → List ReviewPacket → List ReviewPacket
with_found (ok packet) packets = packet ∷ packets
with_found (err e) packets = packets

-- the loop of Recover: the packets of the entries, without those that cannot be read
pub packets_of : String → List OutboundQueueEntry → Exec World (List ReviewPacket)
packets_of tenant_id [] = pure []
packets_of tenant_id (entry ∷ entries) = do
  found ← attempt (in_store (get_review_packet tenant_id entry.packet_id))
  rest ← packets_of tenant_id entries
  pure (with_found found rest)

module _ (env : Env) where
  unfoldable disconnect : String → Exec World (Unit {0})
  disconnect tenant_id = do
    notify_session_status env tenant_id channel_telegram session_disconnected
    now ← clock_now
    ignore (
        audit env tenant_id "channel_session_disconnected" "system" "gateway" "tenant" tenant_id
          none none ("session-disconnect" ∷ tenant_id ∷ env.format_time now ∷ []))

  unfoldable recover : String → Exec World (List ReviewPacket)
  unfolding packets_of
  recover tenant_id = do
    listed ← attempt (in_store (list_outbound_queue tenant_id channel_telegram))
    notify_session_status env tenant_id channel_telegram session_active
    drained ← packets_of tenant_id (ok_or_empty listed)
    now ← clock_now
    ignore (
        audit env tenant_id "channel_session_recovered" "system" "gateway" "tenant" tenant_id none
          (entries (("drained", other (decimal (length drained))) ∷ []))
          ("session-recover" ∷ tenant_id ∷ env.format_time now ∷ []))
    pure drained
