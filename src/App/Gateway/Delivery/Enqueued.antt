-- ===== src/App/Gateway/Delivery/Enqueued.antt =====
-- enqueuePacket of internal/app/gateway.go: the deletion and the insertion as the queue sees them.
use victoria.Prelude.{ℕ, suc, String, true, false, ◌≡◌, refl, ap, leb}
use victoria.Exec.{ok, skip, gets, ◌>>=◌}
use victoria.GoMap.{GoMap, put, values, count}
use victoria.Domain.{OutboundQueueEntry, ReviewPacket}
use victoria.Memory.Queue.{
  queued_for, queue_id, enqueue_outbound, delete_oldest_outbound_queue_entry, outbound_queue_depth,
}
use victoria.Memory.Queue.Bound.{delete_oldest-ok}
use victoria.App.{Env, World}
use victoria.App.Core.{in_store, clock_now}
use victoria.App.Core.Laws.{audit-frame}
use victoria.App.Gateway.Delivery.{outbound_queue_max, make_room, enqueue_packet}

-- how many packets wait for the channel of the tenant
abbrev pub depth_of : String → String → GoMap OutboundQueueEntry → ℕ
depth_of tenant_id channel queue = count (queued_for tenant_id channel) (values queue)

module _ (env : Env) (packet : ReviewPacket) (channel : String) where
  -- the entry that goes in
  abbrev entry_at : ℕ → World → OutboundQueueEntry
  entry_at n w = record {
    id = queue_id n;
    tenant_id = packet.tenant_id;
    channel = channel;
    packet_id = packet.packet_id;
    idempotency_key = packet.idempotency_key;
    enqueued_at = w.now;
  }

  -- the deletion of the oldest entry is all that the queue sees of make_room
  pub make_room-queue :
      (w : World)
      → ((make_room env packet channel w).0 ≡ ok tt)
        × (((make_room env packet channel w).1.store.outbound_queue
            ≡ (delete_oldest_outbound_queue_entry packet.tenant_id channel
                w.store).1.outbound_queue))
  unfolding make_room ◌>>=◌ in_store
  make_room-queue w =
      rw (delete_oldest-ok packet.tenant_id channel w.store)
        (refl, ap (λ (v : World). v.store.outbound_queue) (audit-frame env _ _ _ _ _ _ _ _ _ _))

  -- an entry of the packet for the channel goes into what is left of the queue
  abbrev pub IsEnqueued : GoMap OutboundQueueEntry → GoMap OutboundQueueEntry → Type 0
  IsEnqueued before after =
      (n : ℕ) × (entry : OutboundQueueEntry) × (entry.tenant_id ≡ packet.tenant_id)
      × (entry.channel ≡ channel)
      × (entry.packet_id ≡ packet.packet_id)
      × (after ≡ put (queue_id n) entry before)

  pub enqueue-roomy :
      (w : World)
      → leb outbound_queue_max (depth_of packet.tenant_id channel w.store.outbound_queue) ≡ false
      → IsEnqueued w.store.outbound_queue
          (enqueue_packet env packet channel w).1.store.outbound_queue
  unfolding enqueue_packet ◌>>=◌ in_store outbound_queue_depth enqueue_outbound skip clock_now gets
  enqueue-roomy w h = (
    suc w.store.queue_seq,
    entry_at (suc w.store.queue_seq) w,
    refl,
    refl,
    refl,
    rw h (ap (λ (v : World). v.store.outbound_queue) (audit-frame env _ _ _ _ _ _ _ _ _ _)),
  )

  pub enqueue-full :
      (w : World)
      → leb outbound_queue_max (depth_of packet.tenant_id channel w.store.outbound_queue) ≡ true
      → IsEnqueued
          (make_room env packet channel w).1.store.outbound_queue
          (enqueue_packet env packet channel w).1.store.outbound_queue
  unfolding enqueue_packet ◌>>=◌ in_store outbound_queue_depth enqueue_outbound skip clock_now gets
  enqueue-full w h = (
    suc w'.store.queue_seq,
    entry_at (suc w'.store.queue_seq) w',
    refl,
    refl,
    refl,
    rw h (
        rw ((make_room-queue w).0)
          (ap (λ (v : World). v.store.outbound_queue) (audit-frame env _ _ _ _ _ _ _ _ _ _))),
  )
    where
      w' : World
      w' = (make_room env packet channel w).1
