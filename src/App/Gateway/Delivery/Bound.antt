-- ===== src/App/Gateway/Delivery/Bound.antt =====
-- enqueuePacket of internal/app/gateway.go and the length of the durable queue.
use victoria.Prelude.{suc, ◌≤◌, String, ◌≡◌, ◌⊎◌}
use victoria.GoMap.{GoMap}
use victoria.Domain.{OutboundQueueEntry, ReviewPacket}
use victoria.Memory.Queue.Oldest.{EvictsOldest}
use victoria.App.Gateway.Delivery.Enqueued.{depth_of, IsEnqueued}
use victoria.Memory.Queue.Bound.{Keyed}
use victoria.App.{Env, World}
use victoria.App.Gateway.Delivery.{outbound_queue_max}

-- every entry has an identifier, and no channel has more entries than the maximum
abbrev pub IsBounded : World → Type 0
IsBounded w =
    Keyed (w.store).outbound_queue
    × ((tenant_id channel : String)
        → depth_of tenant_id channel (w.store).outbound_queue ≤ outbound_queue_max)

module _ (env : Env) (packet : ReviewPacket) (channel : String) where
  -- what goes in goes into the queue as it was, or where the channel was full into what is left of
  -- it without the channel's oldest entry
  abbrev pub MakesRoom : World → World → Type 0
  MakesRoom w w' =
      (room : GoMap OutboundQueueEntry) × IsEnqueued env packet channel room w'.store.outbound_queue
      × (((room ≡ w.store.outbound_queue)
            × (suc (depth_of packet.tenant_id channel w.store.outbound_queue) ≤ outbound_queue_max))
          ⊎ ((outbound_queue_max ≤ depth_of packet.tenant_id channel w.store.outbound_queue)
              × ((id : String) × EvictsOldest packet.tenant_id channel id w.store.outbound_queue
                    room)))
