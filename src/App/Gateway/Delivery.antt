-- ===== src/App/Gateway/Delivery.antt =====
-- Review packets on their way to the operator: sent, queued, dropped from a full queue, drained.
pub mod Bound
pub mod Enqueued
pub mod Keeping
pub mod Drained
use victoria.Prelude.{ℕ, String, none, List, [], ◌∷◌, ◌==◌, ◌&&◌, not, if◌then◌else◌, ltb, leb}
use victoria.Exec.{
  Error, Result, ok, err, failed, Exec, pure, throw, gets, attempt, ignore, modify, skip, for_each,
  ◌>>=◌, ◌>>◌,
}
use victoria.GoMap.{put}
use victoria.Channel.{render_packet}
use victoria.Domain.{text, ReviewPacket, SessionStatus, session_active, OutboundQueueEntry}
use victoria.Memory.{pair_key}
use victoria.Memory.Tenants.{channel_binding_by_tenant, update_channel_session_status}
use victoria.Memory.Packets.{create_review_packet, get_review_packet, mark_review_packet_delivered}
use victoria.Memory.Queue.{
  enqueue_outbound, list_outbound_queue, outbound_queue_depth, delete_outbound_queue_entry,
  delete_oldest_outbound_queue_entry,
}
use victoria.App.{Env, World}
use victoria.App.Helpers.{operator_recipient}
use victoria.App.Core.{in_store, clock_now, audit, entries}
use victoria.App.Outbound.{adapter_send, has_adapter}
use victoria.App.Gateway.{
  session_status, preferred_channel, can_deliver_now, has_operator_recipient,
}

-- OutboundQueueMax
abbrev pub outbound_queue_max : ℕ
outbound_queue_max = 100

module _ (env : Env) where
  -- the part of deliverPacket that needs an adapter
  unfoldable pub send_packet : ReviewPacket → String → Exec World (Unit {0})
  send_packet packet channel = do
    binding ← in_store (channel_binding_by_tenant packet.tenant_id channel)
    if operator_recipient binding == "" then throw failed else do
      adapter_send env channel (render_packet packet (operator_recipient binding))
      pure tt

  unfoldable pub deliver_packet : ReviewPacket → String → Exec World (Unit {0})
  unfolding send_packet
  deliver_packet packet channel = do
    has ← gets (has_adapter channel)
    if has then send_packet packet channel else skip
    in_store (mark_review_packet_delivered packet.tenant_id packet.packet_id)
    audit env packet.tenant_id "packet_sent" "system" "gateway" "review_packet" packet.packet_id
        (entries (
          ("case_run_id", text packet.case_run_id)
          ∷ ("decision_point_id", text packet.decision_point_id)
          ∷ []))
        (entries (("mode", text packet.mode) ∷ ("channel", text channel) ∷ []))
        ("packet-sent" ∷ packet.tenant_id ∷ packet.packet_id ∷ [])
    pure tt

  -- what happens to a full queue before the packet goes in
  pub make_room : ReviewPacket → String → Exec World (Unit {0})
  make_room packet channel = do
    tombstone_id ← in_store (delete_oldest_outbound_queue_entry packet.tenant_id channel)
    ignore (
        audit env packet.tenant_id "packet_tombstoned" "system" "gateway" "review_packet"
          packet.packet_id none
          (entries (("channel", text channel) ∷ ("tombstone_id", text tombstone_id) ∷ []))
          ("packet-tombstoned" ∷ packet.tenant_id ∷ packet.packet_id ∷ []))

  unfoldable pub enqueue_packet : ReviewPacket → String → Exec World (Unit {0})
  unfolding make_room
  enqueue_packet packet channel = do
    depth ← in_store (outbound_queue_depth packet.tenant_id channel)
    if leb outbound_queue_max depth then make_room packet channel else skip
    now ← clock_now
    in_store (
        enqueue_outbound (record {
          id = "";
          tenant_id = packet.tenant_id;
          channel = channel;
          packet_id = packet.packet_id;
          idempotency_key = packet.idempotency_key;
          enqueued_at = now;
        }))
    ignore (
        audit env packet.tenant_id "packet_queued" "system" "gateway" "review_packet"
          packet.packet_id none
          (entries (("mode", text packet.mode) ∷ ("channel", text channel) ∷ []))
          ("packet-queued" ∷ packet.tenant_id ∷ packet.packet_id ∷ []))

  -- an adapter's failure puts the packet into the queue
  deliver_or_enqueue : ReviewPacket → String → Exec World (Unit {0})
  unfolding deliver_packet enqueue_packet
  deliver_or_enqueue packet channel = do
    sent ← attempt (deliver_packet packet channel)
    elim sent [ ok _ ↦ skip | err e ↦ enqueue_packet packet channel ]

  unfoldable pub send_approval_packet : ReviewPacket → Exec World (Unit {0})
  unfolding deliver_or_enqueue
  send_approval_packet packet = do
    in_store (create_review_packet packet)
    channel ← preferred_channel packet.tenant_id
    has ← has_operator_recipient packet.tenant_id channel
    ready ← gets (can_deliver_now packet.tenant_id channel)
    if not has
        then (do
          ignore (
              audit env packet.tenant_id "no_command_identity_registered" "system" "gateway"
                "review_packet" packet.packet_id none (entries (("channel", text channel) ∷ []))
                ("no-command-identity" ∷ packet.tenant_id ∷ packet.packet_id ∷ []))
          enqueue_packet packet channel)
        else if ready
        then deliver_or_enqueue packet channel
        else enqueue_packet packet channel

  -- an entry whose packet has expired
  discard_entry : String → String → OutboundQueueEntry → ReviewPacket → Exec World (Unit {0})
  discard_entry tenant_id channel entry packet = do
    ignore (in_store (delete_outbound_queue_entry entry.id))
    ignore (
        audit env tenant_id "packet_tombstoned" "system" "gateway" "review_packet" packet.packet_id
          none (entries (("channel", text channel) ∷ ("reason", text "expired_in_queue") ∷ []))
          ("packet-expired" ∷ tenant_id ∷ packet.packet_id ∷ []))

  deliver_entry : String → OutboundQueueEntry → ReviewPacket → Exec World (Unit {0})
  unfolding deliver_packet
  deliver_entry channel entry packet = do
    deliver_packet packet channel
    ignore (in_store (delete_outbound_queue_entry entry.id))

  -- the body of the loop of drainQueue, for the packet that was looked up
  drain_packet : String → String → OutboundQueueEntry → Result ReviewPacket → Exec World (Unit {0})
  unfolding discard_entry deliver_entry
  drain_packet tenant_id channel entry (err e) =
      ignore (in_store (delete_outbound_queue_entry entry.id))
  drain_packet tenant_id channel entry (ok packet) = do
    now ← clock_now
    if ltb packet.expires_at now
        then discard_entry tenant_id channel entry packet
        else deliver_entry channel entry packet

  drain_entry : String → String → OutboundQueueEntry → Exec World (Unit {0})
  unfolding drain_packet
  drain_entry tenant_id channel entry = do
    found ← attempt (in_store (get_review_packet tenant_id entry.packet_id))
    drain_packet tenant_id channel entry found

  -- drainQueue: first in, first out; a failed send ends the pass and leaves the entry
  unfoldable pub drain_entries : String → String → Exec World (Unit {0})
  unfolding drain_entry
  drain_entries tenant_id channel = do
    queued ← in_store (list_outbound_queue tenant_id channel)
    for_each queued (drain_entry tenant_id channel)

  -- what a failed drain leaves behind
  drain_failed : String → String → List String → Error → Exec World (Unit {0})
  drain_failed tenant_id channel stamp e = ignore (
      audit env tenant_id "outbound_drain_failed" "system" "gateway" "tenant" tenant_id none
        (entries (("channel", text channel) ∷ ("error", text (env.error_text e)) ∷ []))
        ("drain-failed" ∷ tenant_id ∷ channel ∷ stamp))

  -- DrainQueue
  pub drain_queue : String → String → Exec World (Unit {0})
  unfolding drain_entries drain_failed
  drain_queue tenant_id channel = do
    ready ← gets (can_deliver_now tenant_id channel)
    if not ready then skip else do
      drained ← attempt (drain_entries tenant_id channel)
      now ← clock_now
      elim drained [
        | ok _ ↦ skip
        | err e ↦ drain_failed tenant_id channel (env.format_time now ∷ []) e
      ]

  unfoldable pub notify_session_status : String → String → SessionStatus → Exec World (Unit {0})
  unfolding drain_entries drain_failed
  notify_session_status tenant_id channel status = do
    prev ← gets (session_status tenant_id channel)
    modify
        (λ w. record w { tenant_status = put (pair_key tenant_id channel) status w.tenant_status })
    now ← clock_now
    ignore (in_store (update_channel_session_status tenant_id channel status now))
    if status == session_active && not (prev == session_active)
        then (do
          drained ← attempt (drain_entries tenant_id channel)
          elim drained [ ok _ ↦ skip | err e ↦ drain_failed tenant_id channel [] e ])
        else skip
