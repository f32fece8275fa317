-- ===== src/Memory/Queue.antt =====
-- The durable outbound queue.
pub mod Bound
pub mod Oldest
use victoria.Prelude.{
  ℕ, suc, String, Bool, List, [], ◌∷◌, ◌==◌, ◌&&◌, ◌||◌, if◌then◌else◌, ltb, join,
}
use victoria.Text.{decimal}
use victoria.Exec.{ok, Exec}
use victoria.GoMap.{GoMap, put, remove, values, select, count}
use victoria.Sort.{sort_by}
use victoria.Domain.{Time, OutboundQueueEntry}
use victoria.Memory.{Store}

-- fmt.Sprintf("oq_%d", n)
abbrev pub queue_id : ℕ → String
queue_id n = join "oq_" (decimal n)

unfoldable pub enqueue_outbound : OutboundQueueEntry → Exec Store (Unit {0})
enqueue_outbound entry s =
    if entry.id == ""
    then (
      ok tt,
      record s {
        queue_seq = suc s.queue_seq;
        outbound_queue =
            put (queue_id (suc s.queue_seq)) (record entry { id = queue_id (suc s.queue_seq) })
              s.outbound_queue;
      },
    )
    else (ok tt, record s { outbound_queue = put entry.id entry s.outbound_queue })

-- the test of the loops over the queue
unfoldable pub queued_for : String → String → OutboundQueueEntry → Bool
queued_for tenant_id channel entry = entry.tenant_id == tenant_id && entry.channel == channel

unfoldable pub list_outbound_queue : String → String → Exec Store (List OutboundQueueEntry)
list_outbound_queue tenant_id channel s = (
  ok (
      sort_by (λ (a b : OutboundQueueEntry). ltb a.enqueued_at b.enqueued_at)
        (select (queued_for tenant_id channel) (values s.outbound_queue))),
  s,
)

unfoldable pub outbound_queue_depth : String → String → Exec Store ℕ
outbound_queue_depth tenant_id channel s =
    (ok (count (queued_for tenant_id channel) (values s.outbound_queue)), s)

unfoldable pub delete_outbound_queue_entry : String → Exec Store (Unit {0})
delete_outbound_queue_entry id s = (ok tt, record s { outbound_queue = remove id s.outbound_queue })

-- the loop of DeleteOldestOutboundQueueEntry, from the id and the time found so far
pub oldest : String → String → String → Time → GoMap OutboundQueueEntry → String
oldest tenant_id channel oldest_id oldest_at [] = oldest_id
oldest tenant_id channel oldest_id oldest_at ((id, entry) ∷ m) =
    let older = oldest tenant_id channel id entry.enqueued_at m in
    let same = oldest tenant_id channel oldest_id oldest_at m in
    if queued_for tenant_id channel entry
    then (if oldest_id == "" || ltb entry.enqueued_at oldest_at then older else same)
    else same

-- answers "" where there is nothing to delete
pub delete_oldest_outbound_queue_entry : String → String → Exec Store String
unfolding oldest
delete_oldest_outbound_queue_entry tenant_id channel s =
    let oldest_id = oldest tenant_id channel "" 0 s.outbound_queue in
    if oldest_id == ""
    then (ok "", s)
    else (ok oldest_id, record s { outbound_queue = remove oldest_id s.outbound_queue })
